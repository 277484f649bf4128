-- ===== src/Lifecycle/Elsewhere.antt =====
-- internal/lifecycle/manager.go: an operation on one connector leaves the entries of the others.
pub mod Updates
use nexus_gateway.Prelude.{
  ◌≡◌, ◌≢◌, ◌⊎◌, inl, inr, refl, sym, ap, subst, ◌∙◌, String, Bool, true, false, not, ◌&&◌, ◌||◌,
  Option, none, some, List, [], ◌∷◌, str_eq, eq_iff, arith, Bool-cases, Option-cases, if◌then◌else◌,
}
use nexus_gateway.Prelude.Int.{ℤ}
use nexus_gateway.Prelude.Dict.{Dict, lookup, insert, lookup-insert}
use nexus_gateway.Catalog.{Manifest, ManifestError, image_ref, validate}
use nexus_gateway.Lifecycle.{
  ConnectorSpec, ConnectorStatus, Registry, register, registered, set_running, set_entry, get, list,
  ManagerConfig, Docker, Manager, LifecycleError, creation, check_reserved, is_reserved, Inspected,
  managed,
}
use nexus_gateway.Lifecycle.Managing.{
  Outcome, do_start, start_entry, after_create, after_start, do_stop, stop_entry, after_stop,
  discard, start, stop, restart, restart_entry, restart_stopped, restart_removed, upgrade,
  upgrade_entry, upgrade_pulled, upgrade_stopped, watch, watch_all, watch_one, watch_inspected,
  has_stopped, unless_reserved,
}
use nexus_gateway.Lifecycle.Updating.{
  Round, updated_spec, rollback, rollback_current, rollback_stopped, update, update_entry,
  update_pulled, update_verified, update_stopped, update_started, after_soak, soak_check,
  container_of, rollback_to, rollback_entry, rollback_started, digest_from_ref, unless_invalid,
  Updater, poll, poll_all, poll_one, poll_fetched,
}

-- The entry under the key and the reservations.
abbrev pub Keeps : {W : Type 0} → String → Option ConnectorStatus → Dict Bool → Manager W → Type 0
Keeps key o q m = (lookup key m.registry ≡ o) × (m.reserved ≡ q)

elsewhere :
    (id key : String) (e : ConnectorStatus) (r : Registry)
    → str_eq id key ≡ false
    → lookup key (insert id e r) ≡ lookup key r
elsewhere id key e r d =
    lookup-insert id key e r ∙ ap (λ (b : Bool). if b then some e else lookup key r) d

pub set_running-elsewhere :
    (id key container : String) (running : Bool) (r : Registry)
    → str_eq id key ≡ false
    → lookup key (set_running id container running r) ≡ lookup key r
unfolding set_running
set_running-elsewhere id key container running r d = entry_elsewhere (lookup id r)
  where
    entry_elsewhere :
        (o : Option ConnectorStatus)
        → lookup key (set_entry id container running o r) ≡ lookup key r
    entry_elsewhere none = refl
    entry_elsewhere (some e) = elsewhere id key _ r d

pub register-elsewhere :
    (key : String) (spec : ConnectorSpec) (r : Registry)
    → str_eq spec.id key ≡ false
    → lookup key (register spec r) ≡ lookup key r
unfolding register
register-elsewhere key spec r d = elsewhere spec.id key _ r d

module _ {W : Type 0} (docker : Docker W) (cfg : ManagerConfig) (id key : String)
    (o : Option ConnectorStatus) (q : Dict Bool) (d : str_eq id key ≡ false) where
  after_create-Keeps :
      (m : Manager W) (a : W × Option String)
      → Keeps key o q m
      → Keeps key o q (after_create docker cfg id m a).0
  unfolding after_create after_start
  after_create-Keeps m (w, none) h = h
  after_create-Keeps m (w, some container) h = elim (Bool-cases (docker.start container w).1) [
    | inl e ↦ rw e (set_running-elsewhere id key container true m.registry d ∙ h.0, h.1)
    | inr e ↦ rw e h
  ]

  start_entry-Keeps :
      (e : Option ConnectorStatus) (m : Manager W)
      → Keeps key o q m
      → Keeps key o q (start_entry docker cfg id e m).0
  unfolding start_entry
  start_entry-Keeps none m h = h
  start_entry-Keeps (some e) m h =
      after_create-Keeps m (docker.create (creation cfg e.spec []) m.world) h

  pub do_start-Keeps :
      (m : Manager W) → Keeps key o q m → Keeps key o q (do_start docker cfg id m).0
  unfolding do_start
  do_start-Keeps m h = start_entry-Keeps (get id m.registry) m h

  after_stop-Keeps :
      (m : Manager W) (a : W × Bool)
      → Keeps key o q m
      → Keeps key o q (after_stop docker cfg id m a).0
  unfolding after_stop
  after_stop-Keeps m (w, true) h = (set_running-elsewhere id key "" false m.registry d ∙ h.0, h.1)
  after_stop-Keeps m (w, false) h = h

  stop_entry-Keeps :
      (e : Option ConnectorStatus) (m : Manager W)
      → Keeps key o q m
      → Keeps key o q (stop_entry docker cfg id e m).0
  unfolding stop_entry
  stop_entry-Keeps none m h = h
  stop_entry-Keeps (some e) m h = elim (Bool-cases (str_eq e.container_id "")) [
    | inl f ↦ rw f h
    | inr f ↦ rw f (after_stop-Keeps m (docker.stop e.container_id m.world) h)
  ]

  pub do_stop-Keeps : (m : Manager W) → Keeps key o q m → Keeps key o q (do_stop docker cfg id m).0
  unfolding do_stop
  do_stop-Keeps m h = stop_entry-Keeps (get id m.registry) m h

  pub discard-Keeps :
      (container : String) (m : Manager W)
      → Keeps key o q m
      → Keeps key o q (discard docker cfg container m)
  unfolding discard
  discard-Keeps container m h = elim (Bool-cases (str_eq container "")) [
    | inl f ↦ rw f h
    | inr f ↦ rw f h
  ]

  -- A new spec is registered, and its container started.
  pub begin-Keeps :
      (container : String) (spec : ConnectorSpec) (m : Manager W)
      → spec.id ≡ id
      → Keeps key o q m
      → let m' = discard docker cfg container m in
        Keeps key o q
          (do_start docker cfg id (record m' { registry = register spec m'.registry })).0
  begin-Keeps container spec m p h =
      let m' = discard docker cfg container m in
      let h' = discard-Keeps container m h in
      do_start-Keeps (record m' { registry = register spec m'.registry })
        (
          register-elsewhere key spec m'.registry
                (subst (λ (i : String). str_eq i key ≡ false) (sym p) d)
              ∙ h'.0,
          h'.1,
        )

  restart_removed-Keeps :
      (m : Manager W) (a : W × Bool)
      → Keeps key o q m
      → Keeps key o q (restart_removed docker cfg id m a).0
  unfolding restart_removed
  restart_removed-Keeps m (w, true) h =
      do_start-Keeps (record m { world = w; registry = set_running id "" false m.registry })
        (set_running-elsewhere id key "" false m.registry d ∙ h.0, h.1)
  restart_removed-Keeps m (w, false) h = h

  restart_stopped-Keeps :
      (container : String) (m : Manager W) (a : W × Bool)
      → Keeps key o q m
      → Keeps key o q (restart_stopped docker cfg id container m a).0
  unfolding restart_stopped
  restart_stopped-Keeps container m (w, true) h =
      restart_removed-Keeps m (docker.remove container w) h
  restart_stopped-Keeps container m (w, false) h = h

  pub restart_entry-Keeps :
      (e : Option ConnectorStatus) (m : Manager W)
      → Keeps key o q m
      → Keeps key o q (restart_entry docker cfg id e m).0
  unfolding restart_entry
  restart_entry-Keeps none m h = h
  restart_entry-Keeps (some e) m h = elim (Bool-cases (str_eq e.container_id "")) [
    | inl f ↦ rw f (do_start-Keeps m h)
    | inr f ↦ rw f (restart_stopped-Keeps e.container_id m (docker.stop e.container_id m.world) h)
  ]

  upgrade_stopped-Keeps :
      (image : String) (e : ConnectorStatus) (r : Outcome W)
      → Keeps key o q r.0
      → Keeps key o q (upgrade_stopped docker cfg id image e r).0
  unfolding upgrade_stopped
  upgrade_stopped-Keeps image e (m, some x) h = h
  upgrade_stopped-Keeps image e (m, none) h = begin-Keeps e.container_id _ m refl h

  pub upgrade_entry-Keeps :
      (image : String) (e : Option ConnectorStatus) (m : Manager W)
      → Keeps key o q m
      → Keeps key o q (upgrade_entry docker cfg id image e m).0
  unfolding upgrade_entry upgrade_pulled
  upgrade_entry-Keeps image none m h = h
  upgrade_entry-Keeps image (some e) m h =
      let (w, pulled) = docker.pull image m.world in
      elim (Bool-cases pulled) [
        | inl f ↦ rw f (upgrade_stopped-Keeps image e _ (do_stop-Keeps (record m { world = w }) h))
        | inr f ↦ rw f h
      ]
