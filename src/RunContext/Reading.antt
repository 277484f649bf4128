-- ===== src/RunContext/Reading.antt =====
-- internal/runcontext/context.go: the operations that read the ledger, and `Archive`.
use nexus_gateway.Prelude.{String, Bool, not, ◌||◌, Option, none, some, str_eq, if◌then◌else◌}
use nexus_gateway.RunContext.{
  Time, before, Context, Envelope, State, Ledger, Checked, refused, accepted, Json, Result, is_some,
  is_invalid, not_ready, unavailable, needs_recovery, unserialisable,
}

abbrev pub verdict : String → String → Result
verdict status reason = record { status = status; reason = reason; run_id = ""; generation = 0 }

-- `invalid`
abbrev pub invalid : String → Result
invalid reason = verdict "invalid" reason

-- Evaluate, once the context was applied
unfoldable pub evaluate_applied : State → Context → Option Time → Time → Result
unfolding is_invalid
evaluate_applied d k none start = verdict "unverified" "context_not_applied"
evaluate_applied d k (some applied) start =
    if before start applied
    then invalid "context_not_active_at_start"
    else (if is_invalid d.invalid_runs k.run_id
        then invalid "reset_detected"
        else record { status = "valid"; reason = ""; run_id = k.run_id; generation = k.generation })

-- Evaluate, on the context
unfoldable pub evaluate_context : State → Option Context → String → Time → Time → Result
unfolding evaluate_applied
evaluate_context d none revision start end = verdict "absent" ""
evaluate_context d (some k) revision start end =
    if before end start
    then invalid "invalid_acquisition_interval"
    else (if not (str_eq k.provisioning_revision revision)
        then invalid "revision_mismatch"
        else (if str_eq k.status "revoked"
            then invalid "revoked"
            else (if before start k.valid_from
                then invalid "not_yet_valid"
                else (if not (before end k.expires_at)
                    then invalid "expired"
                    else evaluate_applied d k d.applied_at start))))

-- Evaluate
unfoldable pub evaluate : Ledger → String → Time → Time → Result
unfolding evaluate_context
evaluate l revision start end =
    if l.failed
    then verdict "unverified" "generation_history_unavailable"
    else evaluate_context l.state l.context revision start end

-- Archive, on the context: the state that it writes to a file of its own.
unfoldable pub archived_state : Ledger → Option Context → Time → Checked State
archived_state l none at = refused not_ready
archived_state l (some k) at =
    if l.failed
      || not (is_some l.state.applied_at)
      || before at l.state.committed_at
      || not (before at k.expires_at)
    then refused not_ready
    else accepted (record l.state { applied_at = some at })

module _ {B : Type 0} (json : Json B) where
  abbrev pub marshalled : Checked State → Checked B
  marshalled (refused e) = refused e
  marshalled (accepted d) = elim (json.marshal_state d) [
    | none ↦ refused unserialisable
    | some raw ↦ accepted raw
  ]

  -- Archive: the bytes of the new file, where it is created and written.
  unfoldable pub archive : Time → Ledger → Checked B
  unfolding archived_state
  archive at l = marshalled (archived_state l l.context at)

-- Current
unfoldable pub current : Ledger → Checked Context
current l = elim l.context [
  | none ↦ refused unavailable
  | some k ↦ if l.failed then refused unavailable else accepted k
]

-- Invalidated
unfoldable pub invalidated : String → Ledger → Checked Bool
unfolding is_invalid
invalidated run l =
    if l.failed then refused needs_recovery else accepted (is_invalid l.state.invalid_runs run)

-- CurrentEnvelope
unfoldable pub current_envelope : Ledger → Checked Envelope
current_envelope l = elim l.state.envelope [
  | none ↦ refused unavailable
  | some e ↦ if l.failed then refused unavailable else accepted e
]

-- ReceiverTimes
unfoldable pub receiver_times : Ledger → Checked (Time × Option Time)
receiver_times l = elim l.context [
  | none ↦ refused unavailable
  | some k ↦
      if l.failed then refused unavailable else accepted (l.state.committed_at, l.state.applied_at)
]
