-- ===== src/CommandDedup/Once.antt =====
-- connector/sdk/dedup.go: a command that was let through is not let through again soon.
use nexus_gateway.Prelude.{
  ℕ, suc, ◌+◌, ◌<◌, ◌≤◌, ◌≡◌, ◌≢◌, inl, inr, refl, sym, subst, ap, ◌∙◌, String, Bool, true, false,
  Option, none, some, List, [], ◌∷◌, ◌++◌, All, length, length-append, append_assoc, leb, arith,
  Bool-cases, if◌then◌else◌,
}
use nexus_gateway.Prelude.Dict.{lookup, erase}
use nexus_gateway.Dispatch.{WriteReply}
use nexus_gateway.CommandDedup.{
  Dedup, Op, reserves, completes, new_dedup, reserve, evict, reserve_over, try_reserve, complete,
  perform, run, tries, Reserve, proceed,
}
use nexus_gateway.CommandDedup.Bounded.{
  Present, present, Unlike, run-IsValid, insert-Present, erase-Present, inserted-Present,
  absent-Unlike,
}

-- The key has its entry, and at most `n` keys came after it.
record Queued (id : String) (n : ℕ) (d : Dedup) : Type 0 where
  held : Present d.entries id
  before : List String
  later : List String
  order : d.keys ≡ before ++ (id ∷ later)
  others : All (λ k. Unlike k id) before
  recent : length later ≤ n

reserve-Queued :
    (other id : String) (n : ℕ) (d : Dedup) → Queued id n d → Queued id (suc n) (reserve other d).0
unfolding reserve
reserve-Queued other id n d h = record {
  held = insert-Present other none d.entries id h.held;
  before = h.before;
  later = h.later ++ (other ∷ []);
  order =
      ap (λ (l : List String). l ++ (other ∷ [])) h.order
      ∙ append_assoc h.before (id ∷ h.later) (other ∷ []);
  others = h.others;
  recent = omega (arith, length-append {0} h.later (other ∷ []), h.recent);
}

-- An eviction in a full slice meets another key.
evict-Queued :
    (other id : String) (n : ℕ) (keys before later : List String) (d : Dedup)
    → suc n < d.cap
    → d.cap ≤ length keys
    → keys ≡ before ++ (id ∷ later)
    → All (λ k. Unlike k id) before
    → length later ≤ n
    → Present d.entries id
    → Queued id (suc n) (evict other keys d).0
unfolding evict
evict-Queued other id n [] before later d room full e u r p = absurd (omega arith)
evict-Queued other id n (x ∷ keys) [] later d room full e u r p =
    absurd (omega (arith, ap (λ (l : List String). length l) e))
evict-Queued other id n (x ∷ keys) (y ∷ before) later d room full e u r p =
    let first : x ≡ y = cc e in
    let rest : keys ≡ before ++ (id ∷ later) = cc e in
    reserve-Queued other id n (record d { keys = keys; entries = erase x d.entries })
      (record {
        held = erase-Present x d.entries id (subst (λ (k : String). Unlike k id) (sym first) u.0) p;
        before = before;
        later = later;
        order = rest;
        others = u.1;
        recent = r;
      })

more : (id : String) (n : ℕ) (d : Dedup) → Queued id n d → Queued id (suc n) d
more id n d h = record {
  held = h.held;
  before = h.before;
  later = h.later;
  order = h.order;
  others = h.others;
  recent = omega (arith, h.recent);
}

reserve_over-Queued :
    (other id : String) (n : ℕ) (o : Option (Option WriteReply)) (d : Dedup)
    → suc n < d.cap
    → Queued id n d
    → Queued id (suc n) (reserve_over other o d).0
unfolding reserve_over
reserve_over-Queued other id n (some none) d room h = more id n d h
reserve_over-Queued other id n (some (some reply)) d room h = more id n d h
reserve_over-Queued other id n none d room h = elim (Bool-cases (leb d.cap (length d.keys))) [
  | inl f ↦ rw f (
      evict-Queued other id n d.keys h.before h.later d room (ground (arith, f)) h.order h.others
        h.recent h.held)
  | inr f ↦ rw f (reserve-Queued other id n d h)
]

-- The capacity never changes.
evict_cap : (id : String) (keys : List String) (d : Dedup) → (evict id keys d).0.cap ≡ d.cap
unfolding evict reserve
evict_cap id [] d = refl
evict_cap id (k ∷ keys) d = refl

reserve_over_cap :
    (id : String) (o : Option (Option WriteReply)) (d : Dedup) → (reserve_over id o d).0.cap ≡ d.cap
unfolding reserve_over reserve
reserve_over_cap id (some none) d = refl
reserve_over_cap id (some (some reply)) d = refl
reserve_over_cap id none d = elim (Bool-cases (leb d.cap (length d.keys))) [
  | inl f ↦ rw f (evict_cap id d.keys d)
  | inr f ↦ rw f refl
]

run-Present :
    (ops : List Op) (id : String) (n : ℕ) (d : Dedup)
    → n + tries ops < d.cap
    → Queued id n d
    → Present (run ops d).entries id
unfolding run perform try_reserve complete
run-Present [] id n d room h = h.held
run-Present (reserves other ∷ ops) id n d room h =
    let o = lookup other d.entries in
    run-Present ops id (suc n) (reserve_over other o d).0
      (omega (arith, reserve_over_cap other o d, room))
      (reserve_over-Queued other id n o d (omega arith) h)
run-Present (completes other reply ∷ ops) id n d room h =
    run-Present ops id n (complete other reply d) room (record {
      held = insert-Present other (some reply) d.entries id h.held;
      before = h.before;
      later = h.later;
      order = h.order;
      others = h.others;
      recent = h.recent;
    })

-- An entry is found.
held_back :
    (id : String) (o : Option (Option WriteReply)) (d : Dedup)
    → present o ≡ true
    → (reserve_over id o d).1 ≢ proceed
unfolding reserve_over
held_back id none d h e = cc h
held_back id (some none) d h e = cc e
held_back id (some (some reply)) d h e = cc e

fresh-Queued :
    (id : String) (d : Dedup) → All (λ k. Unlike k id) d.keys → Queued id 0 (reserve id d).0
unfolding reserve
fresh-Queued id d a = record {
  held = inserted-Present id none d.entries;
  before = d.keys;
  later = [];
  order = refl;
  others = a;
  recent = omega arith;
}

evict-fresh :
    (id : String) (keys : List String) (d : Dedup)
    → All (λ k. Unlike k id) keys
    → (evict id keys d).1 ≡ proceed
    → Queued id 0 (evict id keys d).0
unfolding evict
evict-fresh id [] d a h = cc h
evict-fresh id (x ∷ keys) d a h =
    fresh-Queued id (record d { keys = keys; entries = erase x d.entries }) a.1

reserve_over-fresh :
    (id : String) (o : Option (Option WriteReply)) (d : Dedup)
    → lookup id d.entries ≡ o
    → All (Present d.entries) d.keys
    → (reserve_over id o d).1 ≡ proceed
    → Queued id 0 (reserve_over id o d).0
unfolding reserve_over
reserve_over-fresh id (some none) d a p h = cc h
reserve_over-fresh id (some (some reply)) d a p h = cc h
reserve_over-fresh id none d a p h =
    let unlike = absent-Unlike id d.entries d.keys a p in
    guarded (leb d.cap (length d.keys)) (evict id d.keys d) (reserve id d)
      (evict-fresh id d.keys d unlike) (fresh-Queued id d unlike) h
  where
    guarded :
        (b : Bool) (x y : Dedup × Reserve)
        → (x.1 ≡ proceed → Queued id 0 x.0)
        → Queued id 0 y.0
        → (if b then x else y).1 ≡ proceed
        → Queued id 0 (if b then x else y).0
    guarded true x y f g e = f e
    guarded false x y f g e = g

run_cap : (ops : List Op) (d : Dedup) → (run ops d).cap ≡ d.cap
unfolding run perform try_reserve complete
run_cap [] d = refl
run_cap (reserves id ∷ ops) d =
    run_cap ops (reserve_over id (lookup id d.entries) d).0
    ∙ reserve_over_cap id (lookup id d.entries) d
run_cap (completes id reply ∷ ops) d = run_cap ops (complete id reply d)

-- Once TryReserve let a command through, a TryReserve of the same id does not, as long as fewer
-- commands than the capacity were tried in between: whatever was done before, and whichever of the
-- commands are completed.
pub try_reserve-run :
    (room : ℕ) (earlier later : List Op) (id : String)
    → (try_reserve id (run earlier (new_dedup room))).1 ≡ proceed
    → tries later < room
    → (try_reserve id (run later (try_reserve id (run earlier (new_dedup room))).0)).1 ≢ proceed
unfolding try_reserve
try_reserve-run room earlier later id h n =
    let d = run earlier (new_dedup room) in
    let d' = (reserve_over id (lookup id d.entries) d).0 in
    let v = run-IsValid room earlier in
    let queued = reserve_over-fresh id (lookup id d.entries) d refl v.entered h in
    let same = reserve_over_cap id (lookup id d.entries) d in
    let held =
      run-Present later id 0 d' (omega (arith, same, run_cap earlier (new_dedup room), n)) queued in
    held_back id (lookup id (run later d').entries) (run later d') held
