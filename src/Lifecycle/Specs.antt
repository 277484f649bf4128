-- ===== src/Lifecycle/Specs.antt =====
-- internal/lifecycle/manager.go and update.go: what an update leaves registered.
use nexus_gateway.Prelude.{
  ◌≡◌, inl, inr, refl, sym, ap, subst, ◌∙◌, String, Bool, true, false, Option, none, some, [],
  str_eq, eq_iff, arith, Bool-cases, if◌then◌else◌,
}
use nexus_gateway.Prelude.Dict.{lookup, insert, lookup-insert}
use nexus_gateway.Lifecycle.{
  ConnectorSpec, ConnectorStatus, Registry, register, registered, set_running, set_entry, get,
  ManagerConfig, Docker, Manager, creation,
}
use nexus_gateway.Lifecycle.Managing.{
  do_start, start_entry, after_create, after_start, do_stop, stop_entry, after_stop, discard,
}

-- The registry has the spec under the id.
abbrev pub Has : String → ConnectorSpec → Registry → Type 0
Has id spec r = (e : ConnectorStatus) × (lookup id r ≡ some e) × (e.spec ≡ spec)

self_eq : (s : String) → str_eq s s ≡ true
self_eq s = ground (arith, eq_iff s s)

at_key : (id : String) (e : ConnectorStatus) (r : Registry) → lookup id (insert id e r) ≡ some e
at_key id e r =
    lookup-insert id id e r ∙ ap (λ (b : Bool). if b then some e else lookup id r) (self_eq id)

set_entry-Has :
    (id container : String) (running : Bool) (spec : ConnectorSpec) (r : Registry)
    (o : Option ConnectorStatus)
    → lookup id r ≡ o
    → Has id spec r
    → Has id spec (set_entry id container running o r)
set_entry-Has id container running spec r none p h = h
set_entry-Has id container running spec r (some e) p (e', q, s) =
    let same : e' ≡ e = cc (sym q ∙ p) in
    (
      record e { container_id = container; running = running },
      at_key id _ r,
      ap (λ (x : ConnectorStatus). x.spec) (sym same) ∙ s,
    )

set_running-Has :
    (id container : String) (running : Bool) (spec : ConnectorSpec) (r : Registry)
    → Has id spec r
    → Has id spec (set_running id container running r)
unfolding set_running
set_running-Has id container running spec r h =
    set_entry-Has id container running spec r (lookup id r) refl h

registered-spec :
    (spec : ConnectorSpec) (o : Option ConnectorStatus) → (registered spec o).spec ≡ spec
registered-spec spec none = refl
registered-spec spec (some e) = refl

pub register-Has :
    (id : String) (spec : ConnectorSpec) (r : Registry)
    → spec.id ≡ id
    → Has id spec (register spec r)
unfolding register
register-Has id spec r p =
    subst (λ (k : String). Has k spec (insert spec.id (registered spec (lookup spec.id r)) r)) p
      (
        registered spec (lookup spec.id r),
        at_key spec.id _ r,
        registered-spec spec (lookup spec.id r),
      )

module _ {W : Type 0} (docker : Docker W) (cfg : ManagerConfig) (id : String)
    (spec : ConnectorSpec) where
  after_create-Has :
      (m : Manager W) (a : W × Option String)
      → Has id spec m.registry
      → Has id spec (after_create docker cfg id m a).0.registry
  unfolding after_create after_start
  after_create-Has m (w, none) h = h
  after_create-Has m (w, some container) h =
      let p = docker.start container w in
      elim (Bool-cases p.1) [
        | inl e ↦ rw e (set_running-Has id container true spec m.registry h)
        | inr e ↦ rw e h
      ]

  start_entry-Has :
      (o : Option ConnectorStatus) (m : Manager W)
      → Has id spec m.registry
      → Has id spec (start_entry docker cfg id o m).0.registry
  unfolding start_entry
  start_entry-Has none m h = h
  start_entry-Has (some e) m h =
      after_create-Has m (docker.create (creation cfg e.spec []) m.world) h

  pub do_start-Has :
      (m : Manager W) → Has id spec m.registry → Has id spec (do_start docker cfg id m).0.registry
  unfolding do_start
  do_start-Has m h = start_entry-Has (get id m.registry) m h

  after_stop-Has :
      (m : Manager W) (a : W × Bool)
      → Has id spec m.registry
      → Has id spec (after_stop docker cfg id m a).0.registry
  unfolding after_stop
  after_stop-Has m (w, true) h = set_running-Has id "" false spec m.registry h
  after_stop-Has m (w, false) h = h

  stop_entry-Has :
      (o : Option ConnectorStatus) (m : Manager W)
      → Has id spec m.registry
      → Has id spec (stop_entry docker cfg id o m).0.registry
  unfolding stop_entry
  stop_entry-Has none m h = h
  stop_entry-Has (some e) m h = elim (Bool-cases (str_eq e.container_id "")) [
    | inl f ↦ rw f h
    | inr f ↦ rw f (after_stop-Has m (docker.stop e.container_id m.world) h)
  ]

  pub do_stop-Has :
      (m : Manager W) → Has id spec m.registry → Has id spec (do_stop docker cfg id m).0.registry
  unfolding do_stop
  do_stop-Has m h = stop_entry-Has (get id m.registry) m h

  pub discard-Has :
      (container : String) (m : Manager W)
      → Has id spec m.registry
      → Has id spec (discard docker cfg container m).registry
  unfolding discard
  discard-Has container m h = elim (Bool-cases (str_eq container "")) [
    | inl f ↦ rw f h
    | inr f ↦ rw f h
  ]
