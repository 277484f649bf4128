-- ===== src/Lifecycle/Updating.antt =====
-- internal/lifecycle/update.go: an update by the catalog with its rollback, and Rollback.
use Prim.Native.String.{len, slice, find}
use nexus_gateway.Prelude.{
  suc, String, Bool, false, not, ◌&&◌, ◌||◌, Option, none, some, List, [], ◌∷◌, leb, str_eq,
  if◌then◌else◌,
}
use nexus_gateway.Prelude.Int.{ℤ, pos, ltb_ℤ}
use nexus_gateway.Catalog.{Manifest, ManifestError, image_ref, validate}
use nexus_gateway.Lifecycle.{
  ConnectorSpec, ConnectorStatus, register, get, list, ManagerConfig, Info, Inspected, unreachable,
  missing, inspected, Docker, Manager, LifecycleError, not_found, invalid_manifest, pull_failed,
  unverified, soak_failed, cancelled, no_previous, rollback_without_image, rolled_back,
  rollback_failed, inspect_failed, check_reserved,
}
use nexus_gateway.Lifecycle.Managing.{Outcome, do_start, do_stop, discard, unless_reserved}

-- digestFromRef
unfoldable pub digest_from_ref : String → String
digest_from_ref ref =
    if leb (len ref) (find ref "@") then "" else slice ref (suc (find ref "@")) (len ref)

-- What a round of soakCheck meets: the answer of the daemon is asked of Docker; then the deadline has
-- passed, the context is done, or the ticker fires.
pub data Round : Type 0 where
  deadline done tick : Round

abbrev pub runs : Info → Bool
runs i = i.has_base && elim i.running [ none ↦ false | some b ↦ b ]

-- The container id in an entry, "" where there is none.
abbrev pub container_of : Option ConnectorStatus → String
container_of none = ""
container_of (some e) = e.container_id

-- Updater, as far as poll reads it.
pub record Updater : Type 0 where
  pub allowlist : List String
  pub version : String
  pub window : ℤ

-- NewUpdater; durations are in nanoseconds
unfoldable pub new_updater : List String → String → ℤ → Updater
new_updater allowlist version window = record {
  allowlist = allowlist;
  version = version;
  window = if not (ltb_ℤ (pos 0) window) then pos 30000000000 else window;
}

module _ {W : Type 0} (docker : Docker W) (cfg : ManagerConfig) where
  -- soakCheck: a round, and the rest of the rounds
  unfoldable pub soak_round :
      (W → W × Option LifecycleError) → Round → W × Inspected → W × Option LifecycleError
  soak_round rest r (w, unreachable) = (w, some inspect_failed)
  soak_round rest r (w, missing) = (w, some inspect_failed)
  soak_round rest r (w, inspected i) =
      if not (runs i)
      then (w, some soak_failed)
      else elim r [ deadline ↦ (w, none) | done ↦ (w, some cancelled) | tick ↦ rest w ]

  -- The rounds of soakCheck; the last one is at the deadline.
  unfoldable pub soak_rounds : List Round → String → W → W × Option LifecycleError
  unfolding soak_round
  soak_rounds [] container w = soak_round (λ v. (v, none)) deadline (docker.inspect container w)
  soak_rounds (r ∷ rs) container w =
      soak_round (soak_rounds rs container) r (docker.inspect container w)

  -- soakCheck
  unfoldable pub soak_check : List Round → ℤ → String → W → W × Option LifecycleError
  unfolding soak_rounds
  soak_check rounds window container w =
      if str_eq container "" || not (ltb_ℤ (pos 0) window)
      then (w, none)
      else soak_rounds rounds container w

  -- rollback, after doStart
  unfoldable pub rollback_started : LifecycleError → Outcome W → Outcome W
  rollback_started cause (m, some x) = (m, some (rollback_failed x cause))
  rollback_started cause (m, none) = (m, some (rolled_back cause))

  -- rollback, on the entry
  unfoldable pub rollback_entry :
      String → String → LifecycleError → Option ConnectorStatus → Manager W → Outcome W
  unfolding rollback_started do_stop do_start discard register
  rollback_entry id image cause none m = (m, some (rollback_without_image cause))
  rollback_entry id image cause (some e) m =
      if str_eq image ""
      then (m, some (rollback_without_image cause))
      else (let m' = discard docker cfg e.container_id (do_stop docker cfg id m).0 in
          let spec = record e.spec { id = id; image = image } in
          rollback_started cause
            (do_start docker cfg id (record m' { registry = register spec m'.registry })))

  -- rollback
  unfoldable pub rollback_to : String → String → LifecycleError → Manager W → Outcome W
  unfolding rollback_entry get
  rollback_to id image cause m = rollback_entry id image cause (get id m.registry) m

  -- Update, after the soak check
  unfoldable pub after_soak : String → String → Manager W → W × Option LifecycleError → Outcome W
  unfolding rollback_to
  after_soak id image m (w, none) = (record m { world = w }, none)
  after_soak id image m (w, some x) = rollback_to id image x (record m { world = w })

  -- Update, after doStart
  unfoldable pub update_started : List Round → ℤ → String → String → Outcome W → Outcome W
  unfolding after_soak soak_check get
  update_started rounds window id image (m, some x) = rollback_to id image x m
  update_started rounds window id image (m, none) =
      after_soak id image m (soak_check rounds window (container_of (get id m.registry)) m.world)

  -- The spec that Update registers.
  abbrev pub updated_spec : String → Manifest → ConnectorStatus → ConnectorSpec
  updated_spec id manifest e = record {
    id = id;
    image = image_ref manifest;
    prev_image = e.spec.image;
    env = e.spec.env;
    permissions = manifest.permissions;
  }

  -- Update, once the old container is stopped
  unfoldable pub update_stopped :
      List Round → ℤ → String → Manifest → ConnectorStatus → Outcome W → Outcome W
  unfolding update_started discard image_ref register
  update_stopped rounds window id manifest e (m, some x) = (m, some x)
  update_stopped rounds window id manifest e (m, none) =
      let m' = discard docker cfg e.container_id m in
      update_started rounds window id e.spec.image (
        do_start docker cfg id
          (record m' { registry = register (updated_spec id manifest e) m'.registry }))

  -- Update, once the image is verified
  unfoldable pub update_verified :
      List Round → ℤ → String → Manifest → ConnectorStatus → Manager W → Bool → Outcome W
  unfolding update_stopped
  update_verified rounds window id manifest e m verified =
      if manifest.signature_required && not verified
      then (m, some unverified)
      else update_stopped rounds window id manifest e
          (if str_eq e.container_id "" then (m, none) else do_stop docker cfg id m)

  -- Update, after ImagePull; `verify` is the verifier, asked where a signature is required.
  unfoldable pub update_pulled :
      (String → Bool)
      → List Round
      → ℤ
      → String
      → Manifest
      → ConnectorStatus
      → Manager W
      → W × Bool
      → Outcome W
  unfolding update_verified
  update_pulled verify rounds window id manifest e m (w, pulled) =
      if pulled
      then update_verified rounds window id manifest e (record m { world = w })
          (verify (image_ref manifest))
      else (record m { world = w }, some pull_failed)

  unfoldable pub update_entry :
      (String → Bool)
      → List Round
      → ℤ
      → String
      → Manifest
      → Option ConnectorStatus
      → Manager W
      → Outcome W
  unfolding update_pulled digest_from_ref image_ref
  update_entry verify rounds window id manifest none m = (m, some not_found)
  update_entry verify rounds window id manifest (some e) m =
      if str_eq (digest_from_ref e.spec.image) manifest.digest
      then (m, none)
      else update_pulled verify rounds window id manifest e m
          (docker.pull (image_ref manifest) m.world)

  -- Update, on the error of Validate
  abbrev pub unless_invalid : Option ManifestError → Manager W → Outcome W → Outcome W
  unless_invalid (some x) m r = (m, some invalid_manifest)
  unless_invalid none m r = r

  -- Update
  unfoldable pub update :
      (String → ℤ × ℤ × ℤ)
      → List String
      → String
      → (String → Bool)
      → List Round
      → ℤ
      → String
      → Manifest
      → Manager W
      → Outcome W
  unfolding update_entry validate get check_reserved
  update scan allowed version verify rounds window id manifest m =
      unless_invalid (validate scan manifest allowed version) m (
        unless_reserved docker cfg id m
          (update_entry verify rounds window id manifest (get id m.registry) m))

  -- Rollback, after doStop
  unfoldable pub rollback_stopped : String → ConnectorStatus → Outcome W → Outcome W
  unfolding do_start discard register
  rollback_stopped id e (m, some x) = (m, some x)
  rollback_stopped id e (m, none) =
      let m' = discard docker cfg e.container_id m in
      let spec = record e.spec { id = id; image = e.spec.prev_image; prev_image = e.spec.image } in
      do_start docker cfg id (record m' { registry = register spec m'.registry })

  unfoldable pub rollback_current : String → Option ConnectorStatus → Manager W → Outcome W
  unfolding rollback_stopped do_stop
  rollback_current id none m = (m, some not_found)
  rollback_current id (some e) m =
      if str_eq e.spec.prev_image ""
      then (m, some no_previous)
      else rollback_stopped id e (do_stop docker cfg id m)

  -- Rollback
  unfoldable pub rollback : String → Manager W → Outcome W
  unfolding rollback_current get check_reserved
  rollback id m = unless_reserved docker cfg id m (rollback_current id (get id m.registry) m)

  -- poll, on one connector, with what the catalog answers for it
  unfoldable pub poll_fetched :
      (String → ℤ × ℤ × ℤ)
      → (String → Bool)
      → List Round
      → Updater
      → ConnectorStatus
      → Option Manifest
      → Manager W
      → Manager W
  unfolding update
  poll_fetched scan verify rounds u e none m = m
  poll_fetched scan verify rounds u e (some manifest) m =
      if str_eq manifest.name e.spec.id
      then (update scan u.allowlist u.version verify rounds u.window e.spec.id manifest m).0
      else m

  -- poll, on one connector
  unfoldable pub poll_one :
      (String → ℤ × ℤ × ℤ)
      → (String → Bool)
      → List Round
      → Updater
      → (String → Option Manifest)
      → ConnectorStatus
      → Manager W
      → Manager W
  unfolding poll_fetched
  poll_one scan verify rounds u fetch e m =
      if not e.running then m else poll_fetched scan verify rounds u e (fetch e.spec.id) m

  unfoldable pub poll_all :
      (String → ℤ × ℤ × ℤ)
      → (String → Bool)
      → List Round
      → Updater
      → (String → Option Manifest)
      → List ConnectorStatus
      → Manager W
      → Manager W
  unfolding poll_one
  poll_all scan verify rounds u fetch [] m = m
  poll_all scan verify rounds u fetch (e ∷ es) m =
      poll_all scan verify rounds u fetch es (poll_one scan verify rounds u fetch e m)

  -- poll; the rounds are those of its soak checks
  unfoldable pub poll :
      (String → ℤ × ℤ × ℤ)
      → (String → Bool)
      → List Round
      → Updater
      → (String → Option Manifest)
      → Manager W
      → Manager W
  unfolding poll_all list
  poll scan verify rounds u fetch m = poll_all scan verify rounds u fetch (list m.registry) m
