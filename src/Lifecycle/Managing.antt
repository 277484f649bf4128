-- ===== src/Lifecycle/Managing.antt =====
-- internal/lifecycle/manager.go: start, stop, restart, upgrade and the tick of Watch.
use nexus_gateway.Prelude.{
  String, Bool, true, false, not, ◌&&◌, ◌||◌, Option, none, some, List, [], ◌∷◌, str_eq,
  if◌then◌else◌,
}
use nexus_gateway.Lifecycle.{
  ConnectorSpec, ConnectorStatus, register, set_running, get, list, ManagerConfig, Inspected,
  unreachable, missing, inspected, Docker, Manager, LifecycleError, managed, not_found,
  create_failed, start_failed, stop_failed, remove_failed, pull_failed, check_reserved, creation,
}

-- A manager after an operation, and its error.
abbrev pub Outcome : Type 0 → Type 0
Outcome W = Manager W × Option LifecycleError

module _ {W : Type 0} (docker : Docker W) (cfg : ManagerConfig) where
  -- doStart, after ContainerStart
  unfoldable pub after_start : String → String → Manager W → W × Bool → Outcome W
  after_start id container m (w, started) =
      if started
      then (record m { world = w; registry = set_running id container true m.registry }, none)
      else (record m { world = w }, some start_failed)

  -- doStart, after create
  unfoldable pub after_create : String → Manager W → W × Option String → Outcome W
  unfolding after_start
  after_create id m (w, none) = (record m { world = w }, some create_failed)
  after_create id m (w, some container) =
      after_start id container (record m { world = w }) (docker.start container w)

  -- doStart, on the registry's entry
  unfoldable pub start_entry : String → Option ConnectorStatus → Manager W → Outcome W
  unfolding after_create creation
  start_entry id none m = (m, some not_found)
  start_entry id (some e) m = after_create id m (docker.create (creation cfg e.spec []) m.world)

  -- doStart
  unfoldable pub do_start : String → Manager W → Outcome W
  unfolding start_entry get
  do_start id m = start_entry id (get id m.registry) m

  -- checkReserved, and what follows
  abbrev pub unless_reserved : String → Manager W → Outcome W → Outcome W
  unless_reserved id m r = if check_reserved id m.reserved then (m, some managed) else r

  -- Start
  unfoldable pub start : String → Manager W → Outcome W
  unfolding do_start check_reserved
  start id m = unless_reserved id m (do_start id m)

  -- doStop, after ContainerStop
  unfoldable pub after_stop : String → Manager W → W × Bool → Outcome W
  after_stop id m (w, stopped) =
      if stopped
      then (record m { world = w; registry = set_running id "" false m.registry }, none)
      else (record m { world = w }, some stop_failed)

  unfoldable pub stop_entry : String → Option ConnectorStatus → Manager W → Outcome W
  unfolding after_stop
  stop_entry id none m = (m, some not_found)
  stop_entry id (some e) m =
      if str_eq e.container_id ""
      then (m, none)
      else after_stop id m (docker.stop e.container_id m.world)

  -- doStop
  unfoldable pub do_stop : String → Manager W → Outcome W
  unfolding stop_entry get
  do_stop id m = stop_entry id (get id m.registry) m

  -- Stop
  unfoldable pub stop : String → Manager W → Outcome W
  unfolding do_stop check_reserved
  stop id m = unless_reserved id m (do_stop id m)

  -- Restart, after ContainerRemove
  unfoldable pub restart_removed : String → Manager W → W × Bool → Outcome W
  unfolding do_start
  restart_removed id m (w, removed) =
      if removed
      then do_start id (record m { world = w; registry = set_running id "" false m.registry })
      else (record m { world = w }, some remove_failed)

  -- Restart, after ContainerStop
  unfoldable pub restart_stopped : String → String → Manager W → W × Bool → Outcome W
  unfolding restart_removed
  restart_stopped id container m (w, stopped) =
      if stopped
      then restart_removed id m (docker.remove container w)
      else (record m { world = w }, some stop_failed)

  unfoldable pub restart_entry : String → Option ConnectorStatus → Manager W → Outcome W
  unfolding restart_stopped do_start
  restart_entry id none m = (m, some not_found)
  restart_entry id (some e) m =
      if str_eq e.container_id ""
      then do_start id m
      else restart_stopped id e.container_id m (docker.stop e.container_id m.world)

  -- Restart
  unfoldable pub restart : String → Manager W → Outcome W
  unfolding restart_entry get check_reserved
  restart id m = unless_reserved id m (restart_entry id (get id m.registry) m)

  -- A ContainerRemove whose error is ignored, where there is a container.
  unfoldable pub discard : String → Manager W → Manager W
  discard container m =
      if str_eq container "" then m else record m { world = (docker.remove container m.world).0 }

  -- Upgrade, after doStop; the new spec has no permissions.
  unfoldable pub upgrade_stopped : String → String → ConnectorStatus → Outcome W → Outcome W
  unfolding do_start discard register
  upgrade_stopped id image e (m, some x) = (m, some x)
  upgrade_stopped id image e (m, none) =
      let m' = discard e.container_id m in
      let spec : ConnectorSpec = record {
        id = id;
        image = image;
        prev_image = e.spec.image;
        env = e.spec.env;
        permissions = record { network = []; mounts = [] };
      } in
      do_start id (record m' { registry = register spec m'.registry })

  -- Upgrade, after ImagePull
  unfoldable pub upgrade_pulled :
      String → String → ConnectorStatus → Manager W → W × Bool → Outcome W
  unfolding upgrade_stopped do_stop
  upgrade_pulled id image e m (w, pulled) =
      if pulled
      then upgrade_stopped id image e (do_stop id (record m { world = w }))
      else (record m { world = w }, some pull_failed)

  unfoldable pub upgrade_entry : String → String → Option ConnectorStatus → Manager W → Outcome W
  unfolding upgrade_pulled
  upgrade_entry id image none m = (m, some not_found)
  upgrade_entry id image (some e) m = upgrade_pulled id image e m (docker.pull image m.world)

  -- Upgrade
  unfoldable pub upgrade : String → String → Manager W → Outcome W
  unfolding upgrade_entry get check_reserved
  upgrade id image m = unless_reserved id m (upgrade_entry id image (get id m.registry) m)

  -- The test of Watch on what was inspected: a container that is known to have stopped.
  abbrev pub has_stopped : Inspected → Bool
  has_stopped unreachable = false
  has_stopped missing = false
  has_stopped (inspected i) = i.has_base && elim i.running [ none ↦ false | some b ↦ not b ]

  -- Watch, after ContainerInspect; `busy` tells whose lock is held.
  unfoldable pub watch_inspected :
      (String → Bool) → ConnectorStatus → Manager W → W × Inspected → Manager W
  unfolding do_start check_reserved
  watch_inspected busy e m (w, answer) =
      let m' = record m { world = w } in
      if has_stopped answer && not (busy e.spec.id) && not (check_reserved e.spec.id m.reserved)
      then (do_start e.spec.id
          (record m' { registry = set_running e.spec.id "" false m'.registry })).0
      else m'

  -- Watch, on one connector of the list
  unfoldable pub watch_one : (String → Bool) → ConnectorStatus → Manager W → Manager W
  unfolding watch_inspected
  watch_one busy e m =
      if not e.running || str_eq e.container_id ""
      then m
      else watch_inspected busy e m (docker.inspect e.container_id m.world)

  unfoldable pub watch_all : (String → Bool) → List ConnectorStatus → Manager W → Manager W
  unfolding watch_one
  watch_all busy [] m = m
  watch_all busy (e ∷ es) m = watch_all busy es (watch_one busy e m)

  -- Watch, one tick
  unfoldable pub watch : (String → Bool) → Manager W → Manager W
  unfolding watch_all list
  watch busy m = watch_all busy (list m.registry) m
