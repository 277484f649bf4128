-- ===== src/PointSync.antt =====
-- internal/pointsync/loop.go: `Loop`, and internal/provisioning/fallback.go: `FallbackClient`. The
-- snapshot file is left out: its errors are only logged.
pub mod Consistent
pub mod Promotion
use nexus_gateway.Prelude.{
  ℕ, zero, suc, String, Bool, true, false, not, ◌&&◌, Option, none, some, List, [], ◌∷◌, str_eq,
  if◌then◌else◌,
}
use nexus_gateway.Prelude.Dict.{Dict, lookup, insert, erase}
use nexus_gateway.PointList.{Entry, Index, key, update}

-- internal/provisioning/client.go: FetchResult
pub record FetchResult : Type 0 where
  pub etag : String
  pub full : Bool
  pub entries : List Entry
  pub added : List Entry
  pub removed : List String
  pub changed : List Entry

-- What Fetch returns: an error, nil (304), or a result.
pub data Fetched : Type 0 where
  failed unchanged : Fetched
  fetched : FetchResult → Fetched

-- The first loop of applyDiff: the list by point id.
unfoldable pub index_by_id : List Entry → Dict Entry → Dict Entry
index_by_id [] m = m
index_by_id (e ∷ es) m = index_by_id es (insert e.point_id e m)

-- The same loop's point ids by connector and local id.
unfoldable pub index_by_local : List Entry → Dict String → Dict String
index_by_local [] m = m
index_by_local (e ∷ es) m =
    index_by_local es
      (if str_eq e.release_of "" then insert (key e.connector_id e.local_id) e.point_id m else m)

unfoldable pub remove_all : List String → Dict Entry → Dict Entry
remove_all [] m = m
remove_all (id ∷ ids) m = remove_all ids (erase id m)

-- A map read of Go: "" where the key is missing.
abbrev pub id_or_empty : Option String → String
id_or_empty none = ""
id_or_empty (some s) = s

-- The body of the loop over the changed entries.
unfoldable pub change : Dict String → Entry → Dict Entry → Dict Entry
change by_local e m =
    let old = id_or_empty (lookup (key e.connector_id e.local_id) by_local) in
    if str_eq e.release_of "" && not (str_eq old "") && not (str_eq old e.point_id)
    then insert e.point_id e (erase old m)
    else insert e.point_id e m

unfoldable pub change_all : Dict String → List Entry → Dict Entry → Dict Entry
unfolding change
change_all by_local [] m = m
change_all by_local (e ∷ es) m = change_all by_local es (change by_local e m)

-- The entries of a map; Go gives them in an order that is not told.
unfoldable pub values : Dict Entry → List Entry
values [] = []
values ((id, e) ∷ m) = e ∷ values m

-- The map that applyDiff leaves.
unfoldable pub patched : List Entry → FetchResult → Dict Entry
unfolding index_by_id index_by_local remove_all change_all
patched current r =
    change_all (index_by_local current []) r.changed
      (index_by_id r.added (remove_all r.removed (index_by_id current [])))

-- applyDiff
unfoldable pub apply_diff : List Entry → FetchResult → List Entry
unfolding values patched
apply_diff current r = values (patched current r)

-- Loop with its syncState.
pub record Loop : Type 0 where
  pub resolver : Index
  pub etag : String
  pub entries : List Entry
  pub applied_etag : String

-- sync, on the answer of the client
unfoldable pub sync : Fetched → Loop → Loop
unfolding apply_diff update
sync failed l = l
sync unchanged l = l
sync (fetched r) l =
    let entries = if r.full then r.entries else apply_diff l.entries r in
    record { resolver = update entries; etag = r.etag; entries = entries; applied_etag = r.etag }

-- Client, over the state of the world that it asks.
abbrev pub Client : Type 0 → Type 0
Client W = String → W → W × Fetched

-- FallbackClient; the hook's call is noted with its ETag.
pub record Fallback (W : Type 0) : Type 0 where
  pub world : W
  pub promoted : Bool
  pub notified : List String

-- promote, on the result that it turns into a full replacement
abbrev pub as_full : FetchResult → FetchResult
as_full r = record r { full = true; added = []; removed = []; changed = [] }

module _ {W : Type 0} (primary secondary : Client W) where
  -- Fetch, after a probe of the primary
  unfoldable pub after_probe : String → Fallback W → W × Fetched → Fallback W × Fetched
  after_probe known f (w, failed) =
      let (w', answer) = secondary known w in (record f { world = w' }, answer)
  after_probe known f (w, unchanged) =
      (record { world = w; promoted = true; notified = "" ∷ f.notified }, unchanged)
  after_probe known f (w, fetched r) =
      (record { world = w; promoted = true; notified = r.etag ∷ f.notified }, fetched (as_full r))

  -- Fetch
  unfoldable pub fetch : String → Fallback W → Fallback W × Fetched
  unfolding after_probe
  fetch known f =
      if f.promoted
      then (let (w, answer) = primary known f.world in (record f { world = w }, answer))
      else after_probe known f (primary "" f.world)

  -- Run: the loop's syncs over the client, as many as its ticks and signals.
  unfoldable pub run : ℕ → Fallback W × Loop → Fallback W × Loop
  unfolding fetch sync
  run zero s = s
  run (suc ticks) (f, l) = let (f', answer) = fetch l.etag f in run ticks (f', sync answer l)
