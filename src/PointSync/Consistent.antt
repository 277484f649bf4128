-- ===== src/PointSync/Consistent.antt =====
-- internal/pointsync/loop.go: what the resolver serves against what the loop reports as applied.
use nexus_gateway.Prelude.{
  String, Bool, true, false, not, ◌&&◌, Option, none, some, List, [], ◌∷◌, str_eq, eq_iff,
  if◌then◌else◌, ◌≡◌, refl, arith, All,
}
use nexus_gateway.Prelude.Dict.{Dict, lookup, insert, erase, lookup-insert, lookup-erase}
use nexus_gateway.PointList.{Entry, key, forward_from}
use nexus_gateway.PointList.Keys.{NulFree}
use nexus_gateway.PointList.Resolving.{last_at, lookup-forward_from, or_else-none}
use nexus_gateway.PointSync.{
  FetchResult, change, change_all, index_by_id, remove_all, patched, index_by_local, id_or_empty,
}

-- Whether an id is in a list of ids.
abbrev pub removes : String → List String → Bool
removes id [] = false
removes id (i ∷ ids) = if str_eq i id then true else removes id ids

-- The last entry of a list with a point id.
abbrev pub last_entry : String → List Entry → Option Entry → Option Entry
last_entry id [] o = o
last_entry id (e ∷ es) o = last_entry id es (if str_eq e.point_id id then some e else o)

lookup-index_by_id :
    (id : String) (es : List Entry) (m : Dict Entry)
    → lookup id (index_by_id es m) ≡ last_entry id es (lookup id m)
unfolding index_by_id
lookup-index_by_id id [] m = refl
lookup-index_by_id id (e ∷ es) m =
    rw (lookup-index_by_id id es (insert e.point_id e m), lookup-insert e.point_id id e m) refl

lookup-remove_all :
    (id : String) (ids : List String) (m : Dict Entry)
    → lookup id (remove_all ids m) ≡ (if removes id ids then none else lookup id m)
unfolding remove_all
lookup-remove_all id [] m = refl
lookup-remove_all id (i ∷ ids) m =
    ground (arith, lookup-remove_all id ids (erase i m), lookup-erase i id m)

-- The point id that the old list has at the address of a changed entry: that of its last entry
-- there, release points left out; "" for none.
abbrev pub renamed_from : List Entry → Entry → String
renamed_from current e = id_or_empty (last_at e.connector_id e.local_id current)

-- What the changed entries, in their order, do to one id: an entry of the id is put under it; an
-- entry of another id, no release point, whose address the old list had under the id clears it.
abbrev pub after_changes : List Entry → String → List Entry → Option Entry → Option Entry
after_changes current id [] o = o
after_changes current id (e ∷ es) o = after_changes current id es (
    if str_eq e.point_id id
    then some e
    else if str_eq e.release_of ""
        && not (str_eq (renamed_from current e) "")
        && str_eq (renamed_from current e) id
    then none
    else o)

abbrev HasNulFree : Entry → Type 0
HasNulFree e = NulFree e.connector_id

index_by_local-forward_from :
    (es : List Entry) (m : Dict String) → index_by_local es m ≡ forward_from es m
unfolding index_by_local forward_from
index_by_local-forward_from [] m = refl
index_by_local-forward_from (e ∷ es) m = index_by_local-forward_from es _

lookup-index_by_local :
    (c l : String) (es : List Entry)
    → NulFree c
    → All HasNulFree es
    → lookup (key c l) (index_by_local es []) ≡ last_at c l es
unfolding lookup
lookup-index_by_local c l es hc h =
    rw (index_by_local-forward_from es [], lookup-forward_from c l es [] hc h)
      (or_else-none (last_at c l es))

lookup-change :
    (current : List Entry) (id : String) (e : Entry) (m : Dict Entry)
    → All HasNulFree current
    → NulFree e.connector_id
    → lookup id (change (index_by_local current []) e m) ≡ (
        if str_eq e.point_id id
        then some e
        else if str_eq e.release_of ""
            && not (str_eq (renamed_from current e) "")
            && str_eq (renamed_from current e) id
        then none
        else lookup id m)
unfolding change
lookup-change current id e m h he =
    let old = renamed_from current e in
    rw (lookup-index_by_local e.connector_id e.local_id current he h) (
      ground (
        arith,
        lookup-insert e.point_id id e (erase old m),
        lookup-insert e.point_id id e m,
        lookup-erase old id m,
        eq_iff old e.point_id,
        eq_iff e.point_id id,
        eq_iff old id,
      ))

lookup-change_all :
    (current : List Entry) (id : String) (es : List Entry) (m : Dict Entry)
    → All HasNulFree current
    → All HasNulFree es
    → lookup id (change_all (index_by_local current []) es m)
      ≡ after_changes current id es (lookup id m)
unfolding change_all
lookup-change_all current id [] m h hs = refl
lookup-change_all current id (e ∷ es) m h hs =
    rw
      (
        lookup-change_all current id es (change (index_by_local current []) e m) h hs.1,
        lookup-change current id e m h hs.0,
      )
      refl

-- The entry that a delta leaves under a point id, where no connector id has a NUL, whatever the order
-- of Go's maps. Before the changes it is the last added entry of the id, else none where the id is
-- removed, else the last one of the old list. Then the changed entries act in their order, each over
-- the ones before it: an entry of the id is put under it, and an entry of another id, no release
-- point, clears it where the id is not empty and the last entry of the old list at its address, release
-- points left out, had this id.
pub lookup-patched :
    (current : List Entry) (r : FetchResult) (id : String)
    → All (λ (e : Entry). NulFree e.connector_id) current
    → All (λ (e : Entry). NulFree e.connector_id) r.changed
    → lookup id (patched current r)
      ≡ after_changes current id r.changed (
          last_entry id r.added (if removes id r.removed then none else last_entry id current none))
unfolding patched lookup
lookup-patched current r id h hs =
    rw
      (
        lookup-change_all current id r.changed
            (index_by_id r.added (remove_all r.removed (index_by_id current []))) h hs,
        lookup-index_by_id id r.added (remove_all r.removed (index_by_id current [])),
        lookup-remove_all id r.removed (index_by_id current []),
        lookup-index_by_id id current [],
      )
      refl
