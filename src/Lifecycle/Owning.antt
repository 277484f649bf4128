-- ===== src/Lifecycle/Owning.antt =====
-- internal/lifecycle/exclusive.go: the connector that clock provisioning owns.
use Prim.Native.String.{◌++◌}
use nexus_gateway.Prelude.{
  String, Bool, true, false, not, ◌||◌, Option, none, some, [], ◌∷◌, str_eq, if◌then◌else◌,
}
use nexus_gateway.Prelude.Dict.{Dict, lookup, insert}
use nexus_gateway.Lifecycle.{
  ConnectorSpec, ConnectorStatus, register, set_running, get, ManagerConfig, Info, Inspected,
  unreachable, missing, inspected, Docker, Manager, LifecycleError, managed, not_found,
  create_failed, start_failed, stop_failed, remove_failed, unowned, no_identity, unconfirmed,
  not_stopped, still_exists, inspect_failed, no_daemon, check_reserved, creation,
}

abbrev pub clock_owner_label : String
clock_owner_label = "nexus.clock.connector"

-- Exclusive, with its manager.
pub record Exclusive (W : Type 0) : Type 0 where
  pub manager : Manager W
  pub id : String
  pub container_id : String

abbrev pub Owned : Type 0 → Type 0
Owned W = Exclusive W × Option LifecycleError

abbrev pub label_or_empty : Option String → String
label_or_empty none = ""
label_or_empty (some l) = l

-- The label of a container, "" where there is none.
abbrev pub owner_of : Option (Dict String) → String
owner_of none = ""
owner_of (some labels) = label_or_empty (lookup clock_owner_label labels)

abbrev pub is_running : Option Bool → Bool
is_running none = false
is_running (some b) = b

abbrev pub is_stopped : Option Bool → Bool
is_stopped none = false
is_stopped (some b) = not b

module _ {W : Type 0} (docker : Docker W) (cfg : ManagerConfig) where
  abbrev pub with_world : Exclusive W → W → Exclusive W
  with_world e w = record e { manager = record e.manager { world = w } }

  -- The last lines of Stop
  unfoldable pub forget : Exclusive W → Exclusive W
  unfolding set_running
  forget e = record e {
    container_id = "";
    manager = record e.manager { registry = set_running e.id "" false e.manager.registry };
  }

  -- Stop, after ContainerRemove
  unfoldable pub stop_removed : Exclusive W → W × Bool → Owned W
  unfolding forget
  stop_removed e (w, removed) =
      if removed then (forget (with_world e w), none) else (with_world e w, some remove_failed)

  -- Stop, after the second ContainerInspect
  unfoldable pub stop_confirmed : String → Exclusive W → W × Inspected → Owned W
  unfolding stop_removed
  stop_confirmed id e (w, unreachable) = (with_world e w, some inspect_failed)
  stop_confirmed id e (w, missing) = (with_world e w, some inspect_failed)
  stop_confirmed id e (w, inspected i) =
      if is_stopped i.running
      then stop_removed (with_world e w) (docker.remove id w)
      else (with_world e w, some unconfirmed)

  -- Stop, after ContainerStop
  unfoldable pub stop_asked : String → Exclusive W → W × Bool → Owned W
  unfolding stop_confirmed
  stop_asked id e (w, stopped) =
      if stopped
      then stop_confirmed id (with_world e w) (docker.inspect id w)
      else (with_world e w, some stop_failed)

  -- Stop, on the container that was found
  unfoldable pub stop_found : Info → Exclusive W → Owned W
  unfolding stop_asked
  stop_found i e =
      if not i.has_base || not (str_eq (owner_of i.labels) e.id)
      then (e, some unowned)
      else (if str_eq i.id ""
          then (e, some no_identity)
          else (let e' = record e { container_id = i.id } in
              if is_running i.running
              then stop_asked i.id e' (docker.stop i.id e'.manager.world)
              else stop_asked i.id e' (e'.manager.world, true)))

  -- Stop, after the first ContainerInspect
  unfoldable pub stop_inspected : Exclusive W → W × Inspected → Owned W
  unfolding stop_found forget
  stop_inspected e (w, unreachable) = (with_world e w, some inspect_failed)
  stop_inspected e (w, missing) = (forget (with_world e w), none)
  stop_inspected e (w, inspected i) = stop_found i (with_world e w)

  -- Stop
  unfoldable pub stop_owned : Exclusive W → Owned W
  unfolding stop_inspected
  stop_owned e = stop_inspected e (
      docker.inspect (if str_eq e.container_id "" then "nexus-" ++ e.id else e.container_id)
        e.manager.world)

  -- Configure
  unfoldable pub configure : ConnectorSpec → Exclusive W → Owned W
  unfolding register
  configure spec e =
      if not (str_eq e.container_id "") || not (str_eq spec.id e.id)
      then (e, some not_stopped)
      else (
        record e { manager = record e.manager { registry = register spec e.manager.registry } },
        none,
      )

  abbrev pub noted : Exclusive W → String → Bool → Exclusive W
  noted e container running = record e {
    manager = record e.manager { registry = set_running e.id container running e.manager.registry };
  }

  -- Start, after ContainerStart
  unfoldable pub start_asked : String → Exclusive W → W × Bool → Owned W
  unfolding set_running
  start_asked container e (w, started) =
      if started
      then (noted (with_world e w) container true, none)
      else (with_world e w, some start_failed)

  -- Start, after createWithLabels
  unfoldable pub start_created : Exclusive W → W × Option String → Owned W
  unfolding start_asked set_running
  start_created e (w, none) = (with_world e w, some create_failed)
  start_created e (w, some container) =
      let e' = noted (record (with_world e w) { container_id = container }) container false in
      start_asked container e' (docker.start container w)

  unfoldable pub start_from : Option ConnectorStatus → Exclusive W → Owned W
  unfolding start_created creation
  start_from none e = (e, some not_found)
  start_from (some s) e =
      start_created e
        (docker.create (creation cfg s.spec ((clock_owner_label, e.id) ∷ [])) e.manager.world)

  -- Start
  unfoldable pub start_owned : Exclusive W → Owned W
  unfolding start_from get
  start_owned e =
      if not (str_eq e.container_id "")
      then (e, some still_exists)
      else start_from (get e.id e.manager.registry) e

-- Claim; a manager without a daemon client refuses.
pub data Claimed (W : Type 0) : Type 0 where
  claim_refused : LifecycleError → Claimed W
  claimed : Exclusive W → Claimed W

unfoldable pub claim_connector : {W : Type 0} → Bool → ConnectorSpec → Manager W → Claimed W
unfolding check_reserved register
claim_connector has_daemon spec m =
    if not has_daemon || str_eq spec.id ""
    then claim_refused no_daemon
    else (if check_reserved spec.id m.reserved
        then claim_refused managed
        else claimed (record {
          manager = record m {
            reserved = insert spec.id true m.reserved;
            registry = register spec m.registry;
          };
          id = spec.id;
          container_id = "";
        }))
