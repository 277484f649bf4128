-- ===== src/Tests/RunContext.antt =====
-- internal/runcontext: a ledger through two runs, a reset, a failed write and restarts.
use nexus_gateway.Prelude.{
  ℕ, refl, String, true, false, Option, none, some, List, [], ◌∷◌, ◌≡◌, ◌==◌, ◌<◌, ◌⊎◌, ◌≢◌, not,
  ◌&&◌, str_eq, if◌then◌else◌,
}
use nexus_gateway.Prelude.Int.{pos}
use nexus_gateway.RunContext.{
  Time, Scope, Context, Envelope, State, Json, Store, accepted, initialize, created, open_ledger,
  open_state, open_envelope, opened, verify, verified, first_state, is_invalid,
}
use nexus_gateway.RunContext.Writing.{
  renamed, synced, commit, commit_verified, commit_over, install, installed, persist, write,
  committed, apply, apply_to, mark_invalid, with_invalid, invalidate_context, invalidate_verified,
}
use nexus_gateway.RunContext.Reading.{evaluate, evaluate_context, evaluate_applied}
use nexus_gateway.RunContext.Verdict.{evaluate-valid, admits_with}
use nexus_gateway.RunContext.History.{
  Op, commits, applies, resets_context, restarts, Begins, made, history, perform, reopened,
  Recovers, history-Recovers,
}
use nexus_gateway.RunContext.Promises.{evaluate-after, evaluate-resets_run, resets_run}

abbrev at : ℕ → Time
at n = record { instant = pos n; offset = pos 0 }

abbrev scope : Scope
scope = record { gateway_id = "gw"; clock_id = "clock" }

abbrev context : ℕ → String → Context
context generation run = record {
  schema_version = "clock-run-context/2-draft";
  gateway_id = "gw";
  clock_id = "clock";
  provisioning_revision = "rev";
  run_id = run;
  generation = generation;
  status = "active";
  issued_at = at 10;
  valid_from = at 20;
  expires_at = at 100;
}

-- A payload of one byte is the generation of its context.
abbrev decoded : List ℕ → Option Context
decoded [] = none
decoded (n ∷ ns) = some (if n == 1 then context 1 "run-1" else context n "run-2")

-- A file that holds the state as it is.
abbrev json : Json State
json = record {
  decode_context = decoded;
  marshal_context = λ k. k.generation ∷ [];
  decode_state = λ raw. some raw;
  marshal_state = λ d. some d;
}

json-ReadsBack :
    (d : State) (raw : State) → json.marshal_state d ≡ some raw → json.decode_state raw ≡ some d
json-ReadsBack d raw h = cc h

abbrev start : Store State
start = record {
  ledger = record { failed = false; state = first_state scope; context = none };
  file = first_state scope;
}

start-Begins : Begins json scope start
unfolding initialize created
start-Begins = made true refl

abbrev envelope : ℕ → Envelope
envelope n = record { payload = n ∷ [] }

abbrev first_run : List Op
first_run = commits (envelope 1) (at 30) synced ∷ applies (at 35) synced ∷ []

-- The process restarts between the two runs.
abbrev second_run : List Op
second_run = commits (envelope 2) (at 50) renamed ∷ restarts ∷ applies (at 55) synced ∷ []

abbrev stored : ℕ → String → ℕ → ℕ → Store State
stored n run from applied =
    let d : State = record {
      invalid_runs = some (λ key. false);
      version = pos 2;
      scope = scope;
      envelope = some (envelope n);
      committed_at = at from;
      applied_at = some (at applied);
    } in
    record {
      ledger = record { failed = false; state = d; context = some (context n run) };
      file = d;
    }

history-Recovers_example : Recovers json scope (history json scope second_run start)
history-Recovers_example = history-Recovers json scope json-ReadsBack second_run start start-Begins

evaluate-valid_example :
    str_eq (evaluate (stored 1 "run-1" 30 35).ledger "rev" (at 40) (at 45)).status "valid" ≡ (
      not false
      && admits_with
          (stored 1 "run-1" 30 35).ledger.state
          (some (context 1 "run-1"))
          "rev"
          (at 40)
          (at 45))
evaluate-valid_example = evaluate-valid (stored 1 "run-1" 30 35).ledger "rev" (at 40) (at 45)

first_done : history json scope first_run start ≡ accepted (stored 1 "run-1" 30 35)
unfolding history perform commit verify verified commit_verified commit_over install committed
    installed persist write apply apply_to with_invalid
first_done = refl

second_done :
    history json scope second_run (stored 1 "run-1" 30 35) ≡ accepted (stored 2 "run-2" 50 55)
unfolding history perform commit verify verified commit_verified commit_over install committed
    installed persist write apply apply_to with_invalid reopened open_ledger open_state
    open_envelope opened
second_done = refl

all_done :
    history json scope
      (commits (envelope 1) (at 30) synced ∷ (applies (at 35) synced ∷ second_run))
      start
    ≡ accepted (stored 2 "run-2" 50 55)
unfolding history perform commit verify verified commit_verified commit_over install committed
    installed persist write apply apply_to with_invalid reopened open_ledger open_state
    open_envelope opened
all_done = refl

first_valid : (evaluate (stored 1 "run-1" 30 35).ledger "rev" (at 40) (at 45)).status ≡ "valid"
unfolding evaluate evaluate_context evaluate_applied is_invalid
first_valid = refl

second_valid : (evaluate (stored 2 "run-2" 50 55).ledger "rev" (at 60) (at 65)).status ≡ "valid"
unfolding evaluate evaluate_context evaluate_applied is_invalid
second_valid = refl

evaluate-after_example :
    let before_it = evaluate (stored 1 "run-1" 30 35).ledger "rev" (at 40) (at 45) in
    let after_it = evaluate (stored 2 "run-2" 50 55).ledger "rev" (at 60) (at 65) in
    (before_it.generation < after_it.generation) ⊎ (before_it ≡ after_it)
evaluate-after_example =
    evaluate-after json scope json-ReadsBack first_run second_run start (stored 1 "run-1" 30 35)
      (stored 2 "run-2" 50 55) "rev" "rev" (at 40) (at 45) (at 60) (at 65) start-Begins first_done
      second_done first_valid second_valid

abbrev marked : Store State
marked =
    let s = stored 2 "run-2" 50 55 in
    let d = record s.ledger.state {
      invalid_runs = some (λ key. if str_eq "run-1" key then true else false);
    } in
    record { ledger = record s.ledger { state = d }; file = d }

mark_done :
    perform json scope (resets_context (envelope 1) synced) (stored 2 "run-2" 50 55)
    ≡ accepted (marked, none)
unfolding perform invalidate_context verify verified invalidate_verified mark_invalid persist write
    with_invalid
mark_done = refl

names_it :
    resets_run json scope (resets_context (envelope 1) synced) (stored 2 "run-2" 50 55)
    ≡ some "run-1"
unfolding verify verified
names_it = refl

marked_restarts : history json scope (restarts ∷ []) marked ≡ accepted marked
unfolding history perform reopened open_ledger open_state open_envelope opened verify verified
marked_restarts = refl

marked_valid : (evaluate marked.ledger "rev" (at 60) (at 65)).status ≡ "valid"
unfolding evaluate evaluate_context evaluate_applied is_invalid
marked_valid = refl

evaluate-resets_run_example : (evaluate marked.ledger "rev" (at 60) (at 65)).run_id ≢ "run-1"
evaluate-resets_run_example =
    evaluate-resets_run json scope json-ReadsBack
      (commits (envelope 1) (at 30) synced ∷ (applies (at 35) synced ∷ second_run)) (restarts ∷ [])
      (resets_context (envelope 1) synced) "run-1" start (stored 2 "run-2" 50 55) marked marked
      "rev" (at 60) (at 65) start-Begins all_done names_it mark_done marked_restarts marked_valid
