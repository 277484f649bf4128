-- ===== src/Prelude/Dict.antt =====
-- Go's `map[string]V` as an association list. The program's results never depend on the order
-- in which a map is iterated, except where a module says so.
use nexus_gateway.Prelude.{
  ◌≡◌, refl, Option, none, some, List, [], ◌∷◌, arith, String, str_eq, eq_iff, if◌then◌else◌,
}

abbrev pub Dict {ℓ} : Type ℓ → Type ℓ
Dict V = List (String × V)

module _ {ℓ} {V : Type ℓ} where
  -- m[k] with its second result
  unfoldable pub lookup : String → Dict V → Option V
  lookup key [] = none
  lookup key ((other, value) ∷ dict) = if str_eq other key then some value else lookup key dict

  -- m[k] = v
  unfoldable pub insert : String → V → Dict V → Dict V
  insert key value [] = (key, value) ∷ []
  insert key value ((other, old) ∷ dict) =
      if str_eq other key then (key, value) ∷ dict else (other, old) ∷ insert key value dict

  -- delete(m, k)
  unfoldable pub erase : String → Dict V → Dict V
  erase key [] = []
  erase key ((other, value) ∷ dict) =
      let rest = erase key dict in if str_eq other key then rest else (other, value) ∷ rest

  pub lookup-insert :
      (key other : String) (value : V) (dict : Dict V)
      → lookup other (insert key value dict)
        ≡ (if str_eq key other then some value else lookup other dict)
  unfolding lookup insert
  lookup-insert key other value [] = refl
  lookup-insert key other value ((first, old) ∷ dict) = ground (
    arith,
    eq_iff key other,
    eq_iff first key,
    eq_iff first other,
    lookup-insert key other value dict,
  )

  pub lookup-erase :
      (key other : String) (dict : Dict V)
      → lookup other (erase key dict) ≡ (if str_eq key other then none else lookup other dict)
  unfolding lookup erase
  lookup-erase key other [] = ground arith
  lookup-erase key other ((first, old) ∷ dict) =
      ground
        (arith, eq_iff key other, eq_iff first key, eq_iff first other, lookup-erase key other dict)

pub ruleset dict_laws = (lookup-insert, lookup-erase)
