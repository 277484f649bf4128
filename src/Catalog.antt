-- ===== src/Catalog.antt =====
-- internal/catalog/manifest.go: a connector's manifest and what it must satisfy. fmt.Sscanf, which
-- reads up to three numbers of a version, is a parameter.
use Prim.Native.Char.{code}
use Prim.Native.String.{◌++◌, count, len, slice}
use text.Mathlib.Text.{starts_with}
use nexus_gateway.Prelude.{
  String, Bool, true, false, not, ◌&&◌, ◌||◌, Option, none, some, List, [], ◌∷◌, leb, ◌==◌, str_eq,
  if◌then◌else◌,
}
use nexus_gateway.Prelude.Int.{ℤ, ltb_ℤ}

pub record Permissions : Type 0 where
  pub network : List String
  pub mounts : List String

pub record Manifest : Type 0 where
  pub name : String
  pub version : String
  pub image : String
  pub digest : String
  pub min_gateway_version : String
  pub permissions : Permissions
  pub signature_required : Bool

pub data ManifestError : Type 0 where
  no_digest invalid_digest registry_not_allowed version_too_old : ManifestError

-- ImageRef
unfoldable pub image_ref : Manifest → String
image_ref m = m.image ++ ("@" ++ m.digest)

-- [0-9a-f]*
unfoldable pub all_hex : String → Bool
all_hex String.[] = true
all_hex (String.◌∷◌ c s) =
    let rest = all_hex s in
    (leb 48 (code c) && leb (code c) 57 || leb 97 (code c) && leb (code c) 102) && rest

-- digestPattern
unfoldable pub is_digest : String → Bool
unfolding all_hex
is_digest d =
    starts_with d "sha256:" && (all_hex (slice d 7 (len d)) && count (slice d 7 (len d)) == 64)

-- registryAllowed
unfoldable pub registry_allowed : String → List String → Bool
registry_allowed image [] = false
registry_allowed image (a ∷ as') =
    let rest = registry_allowed image as' in starts_with image a || rest

module _ (scan : String → ℤ × ℤ × ℤ) where
  -- parseSemver
  unfoldable pub parse_semver : String → ℤ × ℤ × ℤ
  parse_semver v = scan (if starts_with v "v" then slice v 1 (len v) else v)

  -- semverLess, on the numbers
  abbrev pub less : ℤ × ℤ × ℤ → ℤ × ℤ × ℤ → Bool
  less (a, b, d) (a', b', d') =
      if ltb_ℤ a a' || ltb_ℤ a' a
      then ltb_ℤ a a'
      else (if ltb_ℤ b b' || ltb_ℤ b' b then ltb_ℤ b b' else ltb_ℤ d d')

  -- semverLess
  unfoldable pub semver_less : String → String → Bool
  unfolding parse_semver
  semver_less a b = less (parse_semver a) (parse_semver b)

  -- Validate
  unfoldable pub validate : Manifest → List String → String → Option ManifestError
  unfolding is_digest registry_allowed semver_less
  validate m allowed gateway_version =
      if str_eq m.digest ""
      then some no_digest
      else (if not (is_digest m.digest)
          then some invalid_digest
          else (if not (registry_allowed m.image allowed)
              then some registry_not_allowed
              else (if not (str_eq m.min_gateway_version "")
                    && semver_less gateway_version m.min_gateway_version
                  then some version_too_old
                  else none)))
