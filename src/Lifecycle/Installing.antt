-- ===== src/Lifecycle/Installing.antt =====
-- internal/lifecycle/install.go: the installation of a connector from the catalog.
use nexus_gateway.Prelude.{
  ◌≡◌, ◌≢◌, ◌⊎◌, inl, inr, refl, ap, ◌∙◌, String, Bool, true, false, not, ◌&&◌, Option, none, some,
  List, [], str_eq, arith, Bool-cases, eq_iff, if◌then◌else◌,
}
use nexus_gateway.Prelude.Int.{ℤ}
use nexus_gateway.Prelude.Dict.{lookup, lookup-erase}
use nexus_gateway.Catalog.{Manifest, ManifestError, image_ref, validate}
use nexus_gateway.Lifecycle.{
  ConnectorSpec, register, remove, ManagerConfig, Docker, Manager, managed, pull_failed, unverified,
  check_reserved,
}
use nexus_gateway.Lifecycle.Managing.{Outcome, do_start, unless_reserved}
use nexus_gateway.Lifecycle.Updating.{unless_invalid}
use nexus_gateway.Lifecycle.Specs.{Has, register-Has, do_start-Has}

module _ {W : Type 0} (docker : Docker W) (cfg : ManagerConfig) where
  -- The spec that Install registers.
  abbrev pub installed_spec : Manifest → String → ConnectorSpec
  installed_spec manifest ref = record {
    id = manifest.name;
    image = ref;
    prev_image = "";
    env = [];
    permissions = manifest.permissions;
  }

  -- Install, after doStart
  unfoldable pub install_started : String → Outcome W → Outcome W
  unfolding remove
  install_started id (m, none) = (m, none)
  install_started id (m, some x) = (record m { registry = remove id m.registry }, some x)

  -- Install, with the image that is there
  unfoldable pub install_image : (String → Bool) → Manifest → String → Manager W → Outcome W
  unfolding install_started do_start register
  install_image verify manifest ref m =
      if manifest.signature_required && not (verify ref)
      then (m, some unverified)
      else install_started manifest.name (
          do_start docker cfg manifest.name
            (record m { registry = register (installed_spec manifest ref) m.registry }))

  -- Install, after ImagePull
  unfoldable pub install_pulled :
      (String → Bool) → Manifest → String → Manager W → W × Bool → Outcome W
  unfolding install_image
  install_pulled verify manifest ref m (w, true) =
      install_image verify manifest ref (record m { world = w })
  install_pulled verify manifest ref m (w, false) = (record m { world = w }, some pull_failed)

  -- Install, after ImageInspect
  unfoldable pub install_local : (String → Bool) → Manifest → Manager W → W × Bool → Outcome W
  unfolding install_image install_pulled image_ref
  install_local verify manifest m (w, true) =
      install_image verify manifest manifest.image (record m { world = w })
  install_local verify manifest m (w, false) =
      let ref = image_ref manifest in
      install_pulled verify manifest ref (record m { world = w }) (docker.pull ref w)

  -- Install
  unfoldable pub install :
      (String → ℤ × ℤ × ℤ)
      → List String
      → String
      → (String → Bool)
      → Manifest
      → Manager W
      → Outcome W
  unfolding install_local validate check_reserved
  install scan allowed version verify manifest m =
      unless_invalid docker cfg (validate scan manifest allowed version) m (
        unless_reserved docker cfg manifest.name m
          (install_local verify manifest m (docker.is_local manifest.image m.world)))

  -- The image that is installed: the manifest's name of it where Docker has that one locally, else
  -- the one pinned by digest.
  abbrev pub image_used : Bool → Manifest → String
  image_used true manifest = manifest.image
  image_used false manifest = image_ref manifest

  -- How an installation ends: with an error, and the registry as it was or with no such connector; or
  -- without one, on a manifest without a problem, with the manifest's permissions and its image,
  -- verified where it asks for it.
  abbrev pub Installs :
      (String → Bool) → Option ManifestError → Bool → Manifest → Manager W → Outcome W → Type 0
  Installs verify problem local manifest m r =
      ((r.1 ≢ none) × ((r.0.registry ≡ m.registry) ⊎ (lookup manifest.name r.0.registry ≡ none)))
      ⊎ ((r.1 ≡ none)
          × (problem ≡ none)
          × ((ref : String) × (ref ≡ image_used local manifest)
              × ((manifest.signature_required && not (verify ref)) ≡ false)
              × Has manifest.name (installed_spec manifest ref) r.0.registry))

  module _ (verify : String → Bool) (manifest : Manifest) (m0 : Manager W) where
    install_started-Installs :
        (local : Bool) (ref : String) (r : Outcome W)
        → ref ≡ image_used local manifest
        → (manifest.signature_required && not (verify ref)) ≡ false
        → Has manifest.name (installed_spec manifest ref) r.0.registry
        → Installs verify none local manifest m0 (install_started manifest.name r)
    unfolding install_started remove
    install_started-Installs local ref (m, none) p v h = inr (refl, refl, (ref, p, v, h))
    install_started-Installs local ref (m, some x) p v h =
        let same : str_eq manifest.name manifest.name ≡ true =
          ground (arith, eq_iff manifest.name manifest.name) in
        inl (
          λ e. cc e,
          inr (
              lookup-erase manifest.name manifest.name m.registry
              ∙ ap (λ (b : Bool). if b then none else lookup manifest.name m.registry) same),
        )

    install_image-Installs :
        (local : Bool) (ref : String) (m : Manager W)
        → ref ≡ image_used local manifest
        → m.registry ≡ m0.registry
        → Installs verify none local manifest m0 (install_image verify manifest ref m)
    unfolding install_image
    install_image-Installs local ref m p same =
        let spec = installed_spec manifest ref in
        let m' = record m { registry = register spec m.registry } in
        elim (Bool-cases (manifest.signature_required && not (verify ref))) [
          | inl f ↦ rw f (inl (λ e. cc e, inl same))
          | inr f ↦ rw f (
              install_started-Installs local ref (do_start docker cfg manifest.name m') p f (
                do_start-Has docker cfg manifest.name spec m'
                  (register-Has manifest.name spec m.registry refl)))
        ]

    install_pulled-Installs :
        (m : Manager W) (a : W × Bool)
        → m.registry ≡ m0.registry
        → Installs verify none false manifest m0
            (install_pulled verify manifest (image_ref manifest) m a)
    unfolding install_pulled
    install_pulled-Installs m (w, true) same =
        install_image-Installs false (image_ref manifest) (record m { world = w }) refl same
    install_pulled-Installs m (w, false) same = inl (λ e. cc e, inl same)

    install_local-Installs :
        (a : W × Bool) → Installs verify none a.1 manifest m0 (install_local verify manifest m0 a)
    unfolding install_local
    install_local-Installs (w, true) =
        install_image-Installs true manifest.image (record m0 { world = w }) refl refl
    install_local-Installs (w, false) =
        install_pulled-Installs (record m0 { world = w }) (docker.pull (image_ref manifest) w) refl

    guarded-Installs :
        (x : Option ManifestError) (b local : Bool) (r : Outcome W)
        → Installs verify none local manifest m0 r
        → Installs verify x local manifest m0
            (unless_invalid docker cfg x m0 (if b then (m0, some managed) else r))
    guarded-Installs (some x) b local r g = inl (λ e. cc e, inl refl)
    guarded-Installs none true local r g = inl (λ e. cc e, inl refl)
    guarded-Installs none false local r g = g

  -- However an installation goes, whatever Docker and the verifier answer: with an error the registry
  -- is as it was or has no such connector any more; without one the manifest has passed its
  -- validation, and the connector is registered with the manifest's permissions and with the image as
  -- the manifest names it, not pinned by its digest, where Docker has that locally, else with the
  -- digest-pinned one, which the verifier accepted where the manifest asks for a signature.
  pub install-Installs :
      (scan : String → ℤ × ℤ × ℤ) (allowed : List String) (version : String)
      (verify : String → Bool) (manifest : Manifest) (m : Manager W)
      → Installs verify
          (validate scan manifest allowed version)
          (docker.is_local manifest.image m.world).1
          manifest
          m
          (install scan allowed version verify manifest m)
  unfolding install
  install-Installs scan allowed version verify manifest m =
      guarded-Installs verify manifest m (validate scan manifest allowed version)
        (check_reserved manifest.name m.reserved) (docker.is_local manifest.image m.world).1 _
        (install_local-Installs verify manifest m (docker.is_local manifest.image m.world))
