-- ===== src/Tests/Control.antt =====
-- internal/pointlist, internal/dispatch, internal/pointsync and internal/mqttsync: a point, its release
-- point, commands to them, and a subscription.
use nexus_gateway.Prelude.{
  ℕ, zero, suc, ◌+◌, ◌≡◌, ◌≢◌, ◌⊎◌, refl, All, Bool, true, false, none, List, [], ◌∷◌, str_eq,
  if◌then◌else◌, arith,
}
use nexus_gateway.Prelude.Int.{pos}
use nexus_gateway.Prelude.Dict.{lookup, insert, erase}
use nexus_gateway.PointList.{
  Entry, Index, Control, zero_entry, key, update, resolve, resolve_control, is_some, entry_or_zero,
}
use nexus_gateway.PointList.Keys.{NulFree}
use nexus_gateway.PointList.Resolving.{
  last_at, last_with_id, resolve-update, resolve_control-update,
}
use nexus_gateway.Dispatch.{
  ControlCommand, Write, Bus, Dispatcher, replied, check, check_release, allowed, execute,
}
use nexus_gateway.Dispatch.Guards.{Releases, check_sound}
use nexus_gateway.Dispatch.Repeats.{Repeats, execute-Repeats}
use nexus_gateway.MqttSync.{derive}
use nexus_gateway.MqttSync.Derived.{Stems, Commands, derive-All}
use nexus_gateway.PointSync.{
  Client, Fallback, Loop, FetchResult, failed, fetched, patched, index_by_id, index_by_local,
  remove_all, change_all, change, fetch,
}
use nexus_gateway.PointSync.Consistent.{after_changes, last_entry, removes, lookup-patched}
use nexus_gateway.PointSync.Promotion.{Probed, fetch_promotes}

abbrev pub valve : Entry
valve = record zero_entry {
  connector_id = "bacnet-1";
  protocol = "bacnet";
  local_id = "AV:1";
  point_id = "valve";
  writable = true;
}

abbrev pub valve_release : Entry
valve_release = record zero_entry {
  release_of = "valve";
  point_id = "valve/release";
  writable = true;
}

abbrev pub points : List Entry
points = valve ∷ valve_release ∷ []

bacnet-NulFree : NulFree "bacnet-1"
bacnet-NulFree = omega arith

resolve-update_example :
    resolve (update points) "bacnet-1" "AV:1" ≡ last_at "bacnet-1" "AV:1" points
resolve-update_example =
    resolve-update points "bacnet-1" "AV:1" bacnet-NulFree (bacnet-NulFree, (tt, tt))

resolve_control-update_example :
    let r = resolve_control (update points) "valve/release" in
    (r.found ≡ is_some (last_with_id "valve/release" points))
    × (r.entry ≡ entry_or_zero (last_with_id "valve/release" points))
    × (r.target ≡ (
        if str_eq r.entry.release_of ""
        then r.entry
        else entry_or_zero (last_with_id r.entry.release_of points)))
resolve_control-update_example = resolve_control-update points "valve/release"

abbrev release_command : ControlCommand ℕ
release_command = record {
  control_id = "c1";
  point_id = "valve/release";
  present_value = 1;
  priority = pos 8;
}

abbrev is_one : ℕ → Bool
is_one zero = false
is_one (suc zero) = true
is_one (suc (suc n)) = false

abbrev found : Control
found = record { entry = valve_release; target = valve; found = true }

abbrev the_write : Write
the_write = record { entry = valve; release = true }

passes : check is_one found release_command ≡ allowed the_write
unfolding check check_release
passes = refl

check_sound_example :
    (found.found ≡ true)
    × (valve_release.writable ≡ true)
    × (((valve_release.release_of ≡ "")
          × (the_write ≡ record { entry = valve_release; release = false }))
        ⊎ ((valve_release.release_of ≢ "")
            × Releases is_one found release_command
            × (the_write ≡ record { entry = valve; release = true })))
check_sound_example = check_sound is_one found release_command the_write passes

-- Every request is answered; the world counts them.
abbrev bus : Bus ℕ ℕ
bus = record {
  marshal_error = λ r. none;
  is_one = is_one;
  admission = none;
  leave = λ n. n;
  request = λ subject r n. (n + 1, replied (record { success = true; response = "ok" }));
}

abbrev dispatcher : Dispatcher ℕ
dispatcher = record { dedup = []; world = 0 }

-- Another command, and one to a point that is not in the list.
abbrev others : List (Index × ControlCommand ℕ)
others =
    (update points, record release_command { control_id = "c2" })
    ∷ (update [], record release_command { control_id = "c3"; point_id = "fan" })
    ∷ []

execute-Repeats_example :
    Repeats bus
      (update [])
      (record release_command { present_value = 2 })
      others
      release_command
      dispatcher
      (execute bus (update points) release_command dispatcher)
execute-Repeats_example =
    execute-Repeats bus (update points) (update []) release_command
      (record release_command { present_value = 2 }) others dispatcher refl

-- The valve is renamed, and another point added.
abbrev delta : FetchResult
delta = record {
  etag = "2";
  full = false;
  entries = [];
  added = record zero_entry { point_id = "fan" } ∷ [];
  removed = [];
  changed = record valve { point_id = "valve-2" } ∷ [];
}

lookup-patched_example :
    lookup "valve" (patched points delta)
    ≡ after_changes points "valve" delta.changed (
        last_entry "valve" delta.added
          (if removes "valve" delta.removed then none else last_entry "valve" points none))
lookup-patched_example =
    lookup-patched points delta "valve" (bacnet-NulFree, (tt, tt)) (bacnet-NulFree, tt)

-- Two points exchange their addresses: the entry that the first change stores is removed by the second.
abbrev fan : Entry
fan = record valve { local_id = "AV:2"; point_id = "fan" }

abbrev exchange : FetchResult
exchange = record delta {
  added = [];
  changed = record valve { local_id = "AV:2" } ∷ record fan { local_id = "AV:1" } ∷ [];
}

valve_lost : lookup "valve" (patched (valve ∷ fan ∷ []) exchange) ≡ none
unfolding lookup patched index_by_id index_by_local remove_all change_all change insert erase key
valve_lost = refl

-- The primary answers from the second request on.
abbrev primary : Client ℕ
primary known zero = (1, failed)
primary known (suc n) = (suc (suc n), fetched (record delta { full = true; entries = points }))

abbrev secondary : Client ℕ
secondary known n = (n, fetched delta)

abbrev fallback : Fallback ℕ
fallback = record { world = 0; promoted = false; notified = [] }

abbrev loop : Loop
loop = record { resolver = update []; etag = ""; entries = []; applied_etag = "" }

fetch_promotes_example :
    Probed primary secondary fallback loop (1, failed) (fetch primary secondary "" fallback)
fetch_promotes_example = fetch_promotes primary secondary fallback loop refl

abbrev lamp : Entry
lamp = record zero_entry {
  connector_id = "mqtt-1";
  protocol = "mqtt";
  local_id = "lamp/state";
  point_id = "lamp";
  writable = true;
}

derive-All_example :
    All (λ s. Stems "mqtt-1" s (lamp ∷ points) × Commands s) (derive (lamp ∷ points) "mqtt-1" 1 1)
derive-All_example = derive-All (lamp ∷ points) "mqtt-1" 1 1
