-- ===== src/RunContext/Verdict.antt =====
-- internal/runcontext/context.go: when `Evaluate` calls an acquisition valid.
use nexus_gateway.Prelude.{
  ◌≡◌, refl, String, Bool, true, false, not, ◌&&◌, Option, none, some, arith, Bool-cases, inl, inr,
  str_eq, eq_iff, if◌then◌else◌, sym, ap, ◌∙◌,
}
use nexus_gateway.RunContext.{Time, before, Context, State, Ledger, Result, is_invalid}
use nexus_gateway.RunContext.Reading.{evaluate, evaluate_context, evaluate_applied}

-- The receiver had applied the context when the acquisition began.
abbrev pub applied_by : Time → Option Time → Bool
applied_by start none = false
applied_by start (some applied) = not (before start applied)

-- What a valid acquisition asks of the context.
abbrev pub admits : State → Context → String → Time → Time → Bool
admits d k revision start end =
    not (before end start)
    && (str_eq k.provisioning_revision revision
        && (not (str_eq k.status "revoked")
            && (not (before start k.valid_from)
                && (before end k.expires_at
                    && (applied_by start d.applied_at
                        && not (is_invalid d.invalid_runs k.run_id))))))

abbrev pub valid_for : Context → Result
valid_for k = record { status = "valid"; reason = ""; run_id = k.run_id; generation = k.generation }

abbrev pub admits_with : State → Option Context → String → Time → Time → Bool
admits_with d none revision start end = false
admits_with d (some k) revision start end = admits d k revision start end

abbrev says_valid : Result → Bool
says_valid r = str_eq r.status "valid"

not-not : (b : Bool) → not (not b) ≡ b
not-not true = refl
not-not false = refl

-- A guard that answers otherwise.
guard_valid :
    (b : Bool) (x r : Result) (rest : Bool)
    → says_valid x ≡ false
    → says_valid r ≡ rest
    → says_valid (if b then x else r) ≡ (not b && rest)
guard_valid true x r rest h g = h
guard_valid false x r rest h g = g

evaluate_applied-cases :
    (d : State) (k : Context) (o : Option Time) (start : Time)
    → says_valid (evaluate_applied d k o start)
      ≡ (applied_by start o && not (is_invalid d.invalid_runs k.run_id))
unfolding evaluate_applied
evaluate_applied-cases d k none start = refl
evaluate_applied-cases d k (some a) start =
    guard_valid (before start a) _ _ _ refl
      (elim (Bool-cases (is_invalid d.invalid_runs k.run_id)) [
        | inl e ↦ rw e refl
        | inr e ↦ rw e refl
      ])

evaluate_context-cases :
    (d : State) (o : Option Context) (revision : String) (start end : Time)
    → says_valid (evaluate_context d o revision start end) ≡ admits_with d o revision start end
unfolding evaluate_context
evaluate_context-cases d none revision start end = refl
evaluate_context-cases d (some k) revision start end =
    let applied = applied_by start d.applied_at && not (is_invalid d.invalid_runs k.run_id) in
    guard_valid (before end start) _ _ _ refl (
      guard_valid (not (str_eq k.provisioning_revision revision)) _ _ _ refl (
        guard_valid (str_eq k.status "revoked") _ _ _ refl (
          guard_valid (before start k.valid_from) _ _ _ refl (
            guard_valid (not (before end k.expires_at)) _ _ _ refl
              (evaluate_applied-cases d k d.applied_at start)
            ∙ ap (λ (b : Bool). b && applied) (not-not (before end k.expires_at)))))
      ∙ ap
          (λ (b : Bool).
            b
            && (not (str_eq k.status "revoked")
                && (not (before start k.valid_from) && (before end k.expires_at && applied))))
          (not-not (str_eq k.provisioning_revision revision)))

-- Evaluate answers "valid" exactly when the ledger has not failed, it holds a context of the asked
-- revision that is not revoked, the acquisition's interval is not reversed, lies between the start of
-- the context's validity and its expiry, begins no earlier than the receiver applied the context, and
-- the run is not recorded as invalid.
pub evaluate-valid :
    (l : Ledger) (revision : String) (start end : Time)
    → str_eq (evaluate l revision start end).status "valid"
      ≡ (not l.failed && admits_with l.state l.context revision start end)
unfolding evaluate
evaluate-valid l revision start end =
    guard_valid l.failed _ _ _ refl (evaluate_context-cases l.state l.context revision start end)

-- A guard that answers otherwise was passed.
guard_names :
    (b : Bool) (x r : Result) (v : Result)
    → says_valid x ≡ false
    → (says_valid r ≡ true → r ≡ v)
    → says_valid (if b then x else r) ≡ true
    → (if b then x else r) ≡ v
guard_names true x r v h g e = absurd (ground (arith, h, e))
guard_names false x r v h g e = g e

evaluate_applied-names :
    (d : State) (k : Context) (o : Option Time) (start : Time)
    → says_valid (evaluate_applied d k o start) ≡ true
    → evaluate_applied d k o start ≡ valid_for k
unfolding evaluate_applied
evaluate_applied-names d k none start h = cc h
evaluate_applied-names d k (some a) start h =
    guard_names (before start a) _ _ _ refl
      (guard_names (is_invalid d.invalid_runs k.run_id) _ _ _ refl (λ g. refl)) h

evaluate_context-names :
    (d : State) (k : Context) (revision : String) (start end : Time)
    → says_valid (evaluate_context d (some k) revision start end) ≡ true
    → evaluate_context d (some k) revision start end ≡ valid_for k
unfolding evaluate_context
evaluate_context-names d k revision start end = guard_names (before end start) _ _ _ refl (
    guard_names (not (str_eq k.provisioning_revision revision)) _ _ _ refl (
      guard_names (str_eq k.status "revoked") _ _ _ refl (
        guard_names (before start k.valid_from) _ _ _ refl (
          guard_names (not (before end k.expires_at)) _ _ _ refl
            (evaluate_applied-names d k d.applied_at start)))))

abbrev Shown : Ledger → Result → Type 0
Shown l r =
    (l.failed ≡ false)
    × ((k : Context) × (l.context ≡ some k)
        × (is_invalid l.state.invalid_runs k.run_id ≡ false)
        × (r ≡ valid_for k))

answer_shows :
    (f : Bool) (d : State) (o : Option Context) (revision : String) (start end : Time)
    → let l : Ledger = record { failed = f; state = d; context = o } in
      says_valid (evaluate l revision start end) ≡ true → Shown l (evaluate l revision start end)
unfolding evaluate
answer_shows true d o revision start end h = cc h
answer_shows false d none revision start end h =
    cc (sym (evaluate_context-cases d none revision start end) ∙ h)
answer_shows false d (some k) revision start end h =
    let admitted = sym (evaluate_context-cases d (some k) revision start end) ∙ h in
    (refl, (k, refl, ground (arith, admitted), evaluate_context-names d k revision start end h))

-- What a valid answer shows.
pub valid_shows :
    (l : Ledger) (revision : String) (start end : Time)
    → (evaluate l revision start end).status ≡ "valid"
    → (l.failed ≡ false)
      × ((k : Context) × (l.context ≡ some k)
          × (is_invalid l.state.invalid_runs k.run_id ≡ false)
          × (evaluate l revision start end ≡ valid_for k))
valid_shows l revision start end h =
    answer_shows l.failed l.state l.context revision start end
      (ground (arith, h, eq_iff (evaluate l revision start end).status "valid"))
