-- ===== src/CommandDedup/Bounded.antt =====
-- connector/sdk/dedup.go: the order of the keys is bounded and has no key twice.
use nexus_gateway.Prelude.{
  ℕ, suc, ◌≤◌, ◌≡◌, inl, inr, refl, sym, subst, ap, ◌∙◌, String, Bool, true, false, Option, none,
  some, List, [], ◌∷◌, ◌++◌, All, All-append, All-map, length, length-append, leb, arith,
  Bool-cases, str_eq, eq_iff,
}
use nexus_gateway.Prelude.Dict.{Dict, lookup, insert, erase, lookup-insert, lookup-erase}
use nexus_gateway.Dispatch.{WriteReply}
use nexus_gateway.CommandDedup.{
  Dedup, Op, reserves, completes, new_dedup, reserve, evict, reserve_over, try_reserve, complete,
  perform, run,
}

abbrev Entries : Type 0
Entries = Dict (Option WriteReply)

abbrev pub present : Option (Option WriteReply) → Bool
present none = false
present (some e) = true

abbrev pub Present : Entries → String → Type 0
Present m key = present (lookup key m) ≡ true

abbrev pub Unlike : String → String → Type 0
Unlike id key = str_eq id key ≡ false

abbrev pub Unique : List String → Type 0
Unique [] = Unit
Unique (k ∷ ks) = All (Unlike k) ks × Unique ks

-- Each key once, each with its entry, and no more than there is room for.
pub record IsValid (d : Dedup) : Type 0 where
  pub unique : Unique d.keys
  pub entered : All (Present d.entries) d.keys
  pub bounded : length d.keys ≤ d.cap

pub insert-Present :
    (id : String) (e : Option WriteReply) (m : Entries) (key : String)
    → Present m key
    → Present (insert id e m) key
insert-Present id e m key h =
    rw (lookup-insert id key e m)
      (elim (Bool-cases (str_eq id key)) [ inl f ↦ rw f refl | inr f ↦ rw f h ])

pub erase-Present :
    (id : String) (m : Entries) (key : String)
    → Unlike id key
    → Present m key
    → Present (erase id m) key
erase-Present id m key u h = rw (lookup-erase id key m) (rw u h)

pub inserted-Present :
    (id : String) (e : Option WriteReply) (m : Entries) → Present (insert id e m) id
inserted-Present id e m =
    let same : str_eq id id ≡ true = ground (arith, eq_iff id id) in
    rw (lookup-insert id id e m) (rw same refl)

-- A key that has no entry is none of those that have one.
pub absent-Unlike :
    (id : String) (m : Entries) (keys : List String)
    → lookup id m ≡ none
    → All (Present m) keys
    → All (λ k. Unlike k id) keys
absent-Unlike id m [] a h = tt
absent-Unlike id m (k ∷ keys) a h = (
  elim (Bool-cases (str_eq k id)) [
    | inr e ↦ e
    | inl e ↦
        let same : k ≡ id = ground (arith, e, eq_iff k id) in
        let here : present (lookup id m) ≡ true =
          subst (λ (x : String). present (lookup x m) ≡ true) same h.0 in
        cc (sym here ∙ ap present a)
  ],
  absent-Unlike id m keys a h.1,
)

Unique-append :
    (keys : List String) (id : String)
    → Unique keys
    → All (λ k. Unlike k id) keys
    → Unique (keys ++ (id ∷ []))
Unique-append [] id u h = (tt, tt)
Unique-append (k ∷ keys) id u h =
    (All-append (Unlike k) keys (id ∷ []) u.0 (h.0, tt), Unique-append keys id u.1 h.1)

All-erase :
    (id : String) (m : Entries) (keys : List String)
    → All (Unlike id) keys
    → All (Present m) keys
    → All (Present (erase id m)) keys
All-erase id m [] u h = tt
All-erase id m (k ∷ keys) u h = (erase-Present id m k u.0 h.0, All-erase id m keys u.1 h.1)

reserve-IsValid :
    (id : String) (d : Dedup)
    → Unique d.keys
    → All (Present d.entries) d.keys
    → All (λ k. Unlike k id) d.keys
    → suc (length d.keys) ≤ d.cap
    → IsValid (reserve id d).0
unfolding reserve
reserve-IsValid id d u p a n = record {
  unique = Unique-append d.keys id u a;
  entered =
      All-append (Present (insert id none d.entries)) d.keys (id ∷ [])
        (All-map (insert-Present id none d.entries) d.keys p)
        (inserted-Present id none d.entries, tt);
  bounded = omega (arith, length-append {0} d.keys (id ∷ []), n);
}

evict-IsValid :
    (id : String) (keys : List String) (d : Dedup)
    → d.keys ≡ keys
    → IsValid d
    → lookup id d.entries ≡ none
    → IsValid (evict id keys d).0
unfolding evict
evict-IsValid id [] d e v a = v
evict-IsValid id (oldest ∷ keys) d e v a =
    let u = subst (λ (l : List String). Unique l) e v.unique in
    let p = subst (λ (l : List String). All (Present d.entries) l) e v.entered in
    let n = subst (λ (l : List String). length l ≤ d.cap) e v.bounded in
    reserve-IsValid id (record d { keys = keys; entries = erase oldest d.entries }) u.1
      (All-erase oldest d.entries keys u.0 p.1) (absent-Unlike id d.entries keys a p.1) n

reserve_over-IsValid :
    (id : String) (o : Option (Option WriteReply)) (d : Dedup)
    → lookup id d.entries ≡ o
    → IsValid d
    → IsValid (reserve_over id o d).0
unfolding reserve_over
reserve_over-IsValid id (some none) d a v = v
reserve_over-IsValid id (some (some reply)) d a v = v
reserve_over-IsValid id none d a v = elim (Bool-cases (leb d.cap (length d.keys))) [
  | inl f ↦ rw f (evict-IsValid id d.keys d refl v a)
  | inr f ↦ rw f (
      reserve-IsValid id d v.unique v.entered (absent-Unlike id d.entries d.keys a v.entered)
        (ground (arith, f)))
]

pub perform-IsValid : (op : Op) (d : Dedup) → IsValid d → IsValid (perform op d)
unfolding perform try_reserve complete
perform-IsValid (reserves id) d v = reserve_over-IsValid id (lookup id d.entries) d refl v
perform-IsValid (completes id reply) d v = record {
  unique = v.unique;
  entered = All-map (insert-Present id (some reply) d.entries) d.keys v.entered;
  bounded = v.bounded;
}

pub run_keeps : (ops : List Op) (d : Dedup) → IsValid d → IsValid (run ops d)
unfolding run
run_keeps [] d v = v
run_keeps (op ∷ ops) d v = run_keeps ops (perform op d) (perform-IsValid op d v)

-- After any sequence of TryReserve and Complete on a new deduplicator, the keys in order are at most
-- as many as its capacity, none stands twice, and each has an entry.
pub run-IsValid : (room : ℕ) (ops : List Op) → IsValid (run ops (new_dedup room))
run-IsValid room ops =
    run_keeps ops (new_dedup room) (record { unique = tt; entered = tt; bounded = omega arith })
