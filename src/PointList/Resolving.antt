-- ===== src/PointList/Resolving.antt =====
-- What the resolver answers after an update, in terms of the list that it was given.
use nexus_gateway.Prelude.{
  String, Bool, ◌≡◌, refl, ◌∙◌, arith, Option, none, some, List, [], ◌∷◌, ◌&&◌, str_eq, eq_iff,
  if◌then◌else◌, All, Bool-cases, inl, inr,
}
use nexus_gateway.Prelude.Dict.{Dict, lookup, insert, lookup-insert}
use nexus_gateway.PointList.{
  Entry, key, forward_from, reverse_from, update, resolve, resolve_reverse, resolve_control,
  entry_or_zero, is_some,
}
use nexus_gateway.PointList.Keys.{NulFree, key-injective}

-- The point id of the last entry of the list with an address, release points left out.
abbrev pub or_else {ℓ} : {A : Type ℓ} → Option A → Option A → Option A
or_else none b = b
or_else (some a) b = some a

abbrev pub is_at : String → String → Entry → Bool
is_at c l e = str_eq e.release_of "" && str_eq e.connector_id c && str_eq e.local_id l

unfoldable pub last_at : String → String → List Entry → Option String
last_at c l [] = none
last_at c l (e ∷ es) = or_else (last_at c l es) (if is_at c l e then some e.point_id else none)

unfoldable pub last_with_id : String → List Entry → Option Entry
last_with_id p [] = none
last_with_id p (e ∷ es) = or_else (last_with_id p es) (if str_eq e.point_id p then some e else none)

-- Two keys agree as the two parts do.
key_eq :
    (c d l m : String)
    → NulFree c
    → NulFree d
    → str_eq (key c l) (key d m) ≡ (str_eq c d && str_eq l m)
key_eq c d l m hc hd = elim (Bool-cases (str_eq (key c l) (key d m))) [
  | inl same ↦
      let (ids, locals) = key-injective c d l m hc hd ((eq_iff (key c l) (key d m)).0 same) in
      ground (arith, same, (eq_iff c d).1 ids, (eq_iff l m).1 locals)
  | inr differ ↦ ground (arith, eq_iff c d, eq_iff l m, eq_iff (key c l) (key d m))
]

pub lookup-forward_from :
    (c l : String) (es : List Entry) (m : Dict String)
    → NulFree c
    → All (λ (e : Entry). NulFree e.connector_id) es
    → lookup (key c l) (forward_from es m) ≡ or_else (last_at c l es) (lookup (key c l) m)
unfolding forward_from last_at
lookup-forward_from c l [] m hc h = refl
lookup-forward_from c l (e ∷ es) m hc h = ground (
  arith,
  lookup-forward_from c l es m hc h.1,
  lookup-forward_from c l es (insert (key e.connector_id e.local_id) e.point_id m) hc h.1,
  lookup-insert (key e.connector_id e.local_id) (key c l) e.point_id m,
  key_eq e.connector_id c e.local_id l h.0 hc,
)

lookup-reverse_from :
    (p : String) (es : List Entry) (m : Dict Entry)
    → lookup p (reverse_from es m) ≡ or_else (last_with_id p es) (lookup p m)
unfolding reverse_from last_with_id
lookup-reverse_from p [] m = refl
lookup-reverse_from p (e ∷ es) m =
    ground (arith, lookup-reverse_from p es (insert e.point_id e m), lookup-insert e.point_id p e m)

pub or_else-none {ℓ} : {A : Type ℓ} (o : Option A) → or_else o none ≡ o
or_else-none none = refl
or_else-none (some a) = refl

-- After an update with NUL-free connector ids, an address resolves to the point id of the last
-- entry of the list with that connector and local id that is no release point, and to nothing where
-- the list has none; the texts of two different addresses are never confused.
pub resolve-update :
    (es : List Entry) (c l : String)
    → NulFree c
    → All (λ (e : Entry). NulFree e.connector_id) es
    → resolve (update es) c l ≡ last_at c l es
unfolding resolve update lookup
resolve-update es c l hc h = lookup-forward_from c l es [] hc h ∙ or_else-none (last_at c l es)

resolve_reverse-update :
    (es : List Entry) (p : String) → resolve_reverse (update es) p ≡ last_with_id p es
unfolding resolve_reverse update lookup
resolve_reverse-update es p = lookup-reverse_from p es [] ∙ or_else-none (last_with_id p es)

last_with_id-point_id :
    (p : String) (es : List Entry) (e : Entry) → last_with_id p es ≡ some e → e.point_id ≡ p
unfolding last_with_id
last_with_id-point_id p [] e h = cc
last_with_id-point_id p (x ∷ es) e h =
    ground (arith, last_with_id-point_id p es e, eq_iff x.point_id p)

-- Every point id is resolved for control to the last entry of the list that has it, and its target
-- is that entry itself or, for a release point, the last entry with the released id, a zero entry
-- where there is none: both from one list.
pub resolve_control-update :
    (es : List Entry) (p : String)
    → let r = resolve_control (update es) p in
      (r.found ≡ is_some (last_with_id p es))
      × (r.entry ≡ entry_or_zero (last_with_id p es))
      × (r.target ≡ (
          if str_eq r.entry.release_of ""
          then r.entry
          else entry_or_zero (last_with_id r.entry.release_of es)))
unfolding resolve_control resolve_reverse
resolve_control-update es p =
    let found = resolve_reverse-update es in
    ground (arith, found p, found (entry_or_zero (lookup p (update es).reverse)).release_of)
