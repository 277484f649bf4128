-- ===== src/RunContext/Promises.antt =====
-- internal/runcontext/context.go: what a valid verdict promises about every other one.
use nexus_gateway.Prelude.{
  ◌≡◌, ◌≢◌, ◌<◌, ◌⊎◌, inl, inr, refl, sym, ap, subst, ◌∙◌, String, Bool, true, false, not, List, [],
  ◌∷◌, ltb, Option, none, some, arith, str_eq, if◌then◌else◌,
}
use nexus_gateway.RunContext.{
  Time, Scope, Context, State, Ledger, LedgerError, Checked, refused, accepted, Result, Json, Store,
  is_invalid, verify, needs_recovery, unavailable,
}
use nexus_gateway.RunContext.Reading.{evaluate}
use nexus_gateway.RunContext.Verdict.{valid_for, valid_shows}
use nexus_gateway.RunContext.Writing.{
  Written, unwritten, renamed, synced, with_invalid, write, persist, invalidate_run,
  invalidate_context, mark_invalid, invalidate_held, invalidate_verified,
}
use nexus_gateway.RunContext.Opening.{After, Sound, with_invalid_marks}
use nexus_gateway.RunContext.Steps.{ReadsBack}
use nexus_gateway.RunContext.History.{
  Op, commits, applies, resets, resets_context, restarts, Begins, begins-Sound, history, reached,
  perform, and_then,
}

module _ {B : Type 0} (json : Json B) (scope : Scope) where
  -- A verdict on a store in use speaks of its file's context.
  speaks_of :
      (s : Store B) (d : State) (k : Option Context) (revision : String) (start end : Time)
      → Sound json scope s d k
      → (evaluate s.ledger revision start end).status ≡ "valid"
      → (held : Context) × (k ≡ some held)
        × (is_invalid d.invalid_runs held.run_id ≡ false)
        × (evaluate s.ledger revision start end ≡ valid_for held)
  speaks_of s d k revision start end h v =
      let (working, (held, has, clean, says)) = valid_shows s.ledger revision start end v in
      elim h.rests [
        | inl e ↦ cc (sym working ∙ e)
        | inr e ↦ (
          held,
          sym (ap (λ (l : Ledger). l.context) e) ∙ has,
          subst (λ (l : Ledger). is_invalid l.state.invalid_runs held.run_id ≡ false) e clean,
          says,
        )
      ]

  -- The run that an operation is to mark, by the ledger's scope.
  abbrev run_of : Checked Context → Option String
  run_of (refused x) = none
  run_of (accepted k) = some k.run_id

  abbrev pub resets_run : Op → Store B → Option String
  resets_run (commits e at out) s = none
  resets_run (applies at out) s = none
  resets_run (resets run out) s = some run
  resets_run (resets_context e out) s = run_of (verify json s.ledger.state.scope e)
  resets_run restarts s = none

  abbrev Marked : String → Store B → Type 0
  Marked run u = (u.ledger.failed ≡ false) × (is_invalid u.ledger.state.invalid_runs run ≡ true)

  write-Marked :
      (o : Option B) (next : State) (run : String) (out : Written) (s u : Store B)
      → s.ledger.failed ≡ false
      → is_invalid next.invalid_runs run ≡ true
      → write json next o out s ≡ (u, none)
      → Marked run u
  unfolding write
  write-Marked none next run out s u f m h = cc h
  write-Marked (some raw) next run unwritten s u f m h = cc h
  write-Marked (some raw) next run renamed s u f m h = cc h
  write-Marked (some raw) next run synced s u f m h =
      subst (λ (t : Store B). Marked run t) (ap (λ (r : Store B × Option LedgerError). r.0) h)
        (f, m)

  mark_invalid-Marked :
      (run : String) (out : Written) (s u : Store B)
      → s.ledger.failed ≡ false
      → mark_invalid json run out s ≡ (u, none)
      → Marked run u
  unfolding mark_invalid persist
  mark_invalid-Marked run out s u f h =
      let d = s.ledger.state in
      let next = record d { invalid_runs = with_invalid run d.invalid_runs } in
      write-Marked (json.marshal_state next) next run out s u f
        (with_invalid_marks run d.invalid_runs) h

  -- A guard that was passed without an error.
  unmet :
      (b : Bool) (s : Store B) (x : LedgerError) (r : Store B × Option LedgerError) (u : Store B)
      → (if b then (s, some x) else r) ≡ (u, none)
      → (b ≡ false) × (r ≡ (u, none))
  unmet true s x r u h = cc h
  unmet false s x r u h = (refl, h)

  invalidate_held-Marked :
      (o : Option Context) (run : String) (out : Written) (s u : Store B)
      → s.ledger.failed ≡ false
      → invalidate_held json o run out s ≡ (u, none)
      → Marked run u
  unfolding invalidate_held
  invalidate_held-Marked none run out s u f h = cc h
  invalidate_held-Marked (some k) run out s u f h =
      mark_invalid-Marked run out s u f (unmet (not (str_eq run k.run_id)) _ _ _ u h).1

  invalidate_verified-Marked :
      (o : Option Context) (r : Checked Context) (run : String) (out : Written) (s u : Store B)
      → s.ledger.failed ≡ false
      → run_of r ≡ some run
      → invalidate_verified json o r out s ≡ (u, none)
      → Marked run u
  unfolding invalidate_verified
  invalidate_verified-Marked none r run out s u f e h = cc h
  invalidate_verified-Marked (some k) (refused x) run out s u f e h = cc e
  invalidate_verified-Marked (some k) (accepted j) run out s u f e h =
      subst (λ (n : String). Marked n u) (cc e)
        (mark_invalid-Marked j.run_id out s u f (unmet (ltb k.generation j.generation) _ _ _ u h).1)

  perform-Marked :
      (op : Op) (run : String) (s u : Store B)
      → resets_run op s ≡ some run
      → perform json scope op s ≡ accepted (u, none)
      → Marked run u
  unfolding perform invalidate_run invalidate_context
  perform-Marked (commits e at out) run s u e' h = cc e'
  perform-Marked (applies at out) run s u e' h = cc e'
  perform-Marked restarts run s u e' h = cc e'
  perform-Marked (resets name out) run s u e' h =
      let g' : invalidate_run json name out s ≡ (u, none) = cc h in
      let (f, g) =
        unmet s.ledger.failed s needs_recovery (invalidate_held json s.ledger.context name out s) u
          g' in
      subst (λ (n : String). Marked n u) (cc e')
        (invalidate_held-Marked s.ledger.context name out s u f g)
  perform-Marked (resets_context e out) run s u e' h =
      let g' : invalidate_context json e out s ≡ (u, none) = cc h in
      let (f, g) =
        unmet s.ledger.failed s unavailable
          (invalidate_verified json s.ledger.context (verify json s.ledger.state.scope e) out s) u
          g' in
      invalidate_verified-Marked s.ledger.context (verify json s.ledger.state.scope e) run out s u f
        e' g

  -- Two verdicts, by the contexts that they are of.
  in_order :
      (k k' : Option Context) (a b : Context) (r r' : Result)
      → After k k'
      → k ≡ some a
      → k' ≡ some b
      → r ≡ valid_for a
      → r' ≡ valid_for b
      → (r.generation < r'.generation) ⊎ (r ≡ r')
  in_order none k' a b r r' h e e' p q = cc e
  in_order (some x) none a b r r' h e e' p q = cc e'
  in_order (some x) (some y) a b r r' (inl h) e e' p q = inl (ground (arith, h, e, e', p, q))
  in_order (some x) (some y) a b r r' (inr h) e e' p q = inr (cc (h, e, e', p, q))

  after_one :
      (op : Op) (s u : Store B)
      → perform json scope op s ≡ accepted (u, none)
      → history json scope (op ∷ []) s ≡ accepted u
  unfolding history
  after_one op s u h =
      ap (λ (r : Checked (Store B × Option LedgerError)). and_then json scope r (λ t. accepted t)) h

  in_use :
      (s : Store B) (d : State) (k : Option Context) (run : String)
      → Sound json scope s d k
      → s.ledger.failed ≡ false
      → is_invalid s.ledger.state.invalid_runs run ≡ true
      → is_invalid d.invalid_runs run ≡ true
  in_use s d k run h f m = elim h.rests [
    | inl e ↦ cc (sym f ∙ e)
    | inr e ↦ subst (λ (l : Ledger). is_invalid l.state.invalid_runs run ≡ true) e m
  ]

  module _ (back : ReadsBack json scope) where
    -- Of two valid verdicts in the life of a ledger that the process made or opened, restarts and
    -- failed writes included, the later one names a higher generation, or is the same verdict.
    pub evaluate-after :
        (earlier later : List Op) (s t u : Store B) (revision revision' : String)
        (start end start' end' : Time)
        → Begins json scope s
        → history json scope earlier s ≡ accepted t
        → history json scope later t ≡ accepted u
        → (evaluate t.ledger revision start end).status ≡ "valid"
        → (evaluate u.ledger revision' start' end').status ≡ "valid"
        → ((evaluate t.ledger revision start end).generation
            < (evaluate u.ledger revision' start' end').generation)
          ⊎ (evaluate t.ledger revision start end ≡ evaluate u.ledger revision' start' end')
    evaluate-after earlier later s t u r r' a z a' z' b p q v v' =
        let (d0, k0, h0) = begins-Sound json scope back s b in
        let (d1, k1, l1, h1) = reached json scope back earlier s t d0 k0 h0 p in
        let (d2, k2, l2, h2) = reached json scope back later t u d1 k1 h1 q in
        let (x, e1, g1, w1) = speaks_of t d1 k1 r a z h1 v in
        let (y, e2, g2, w2) = speaks_of u d2 k2 r' a' z' h2 v' in
        in_order k1 k2 x y _ _ l2.contexts e1 e2 w1 w2

    -- Once InvalidateRun or InvalidateContext marked a run without an error, no later verdict in the
    -- life of the ledger is valid for it, whatever is asked of the ledger, whatever writes fail, and
    -- however often the process restarts.
    pub evaluate-resets_run :
        (earlier later : List Op) (op : Op) (run : String) (s t u v : Store B) (revision : String)
        (start end : Time)
        → Begins json scope s
        → history json scope earlier s ≡ accepted t
        → resets_run op t ≡ some run
        → perform json scope op t ≡ accepted (u, none)
        → history json scope later u ≡ accepted v
        → (evaluate v.ledger revision start end).status ≡ "valid"
        → (evaluate v.ledger revision start end).run_id ≢ run
    evaluate-resets_run earlier later op run s t u v revision start end b p n e q valid same =
        let (d0, k0, h0) = begins-Sound json scope back s b in
        let (d1, k1, l1, h1) = reached json scope back earlier s t d0 k0 h0 p in
        let (d2, k2, l2, h2) =
          reached json scope back (op ∷ []) t u d1 k1 h1 (after_one op t u e) in
        let (d3, k3, l3, h3) = reached json scope back later u v d2 k2 h2 q in
        let (held, has, clean, says) = speaks_of v d3 k3 revision start end h3 valid in
        let (working, marked) = perform-Marked op run t u n e in
        let in_file : is_invalid d2.invalid_runs run ≡ true =
          in_use u d2 k2 run h2 working marked in
        let in_end = l3.kept run in_file in
        let is_run : held.run_id ≡ run = sym (ap (λ (r : Result). r.run_id) says) ∙ same in
        cc
          (sym (subst (λ (n : String). is_invalid d3.invalid_runs n ≡ false) is_run clean) ∙ in_end)
