-- ===== src/RunContext/Writing.antt =====
-- internal/runcontext/context.go: the operations that write the ledger.
use nexus_gateway.Prelude.{
  ℕ, String, Bool, true, false, not, ◌&&◌, ◌||◌, Option, none, some, List, [], ◌∷◌, ltb, ◌==◌,
  str_eq, if◌then◌else◌,
}
use nexus_gateway.RunContext.{
  Time, before, Context, Envelope, State, LedgerError, Checked, refused, accepted, Json, Store,
  is_some, verify, needs_recovery, outside_lifetime, needs_generation_one, rollback, conflict,
  invalid_boundary, unknown_run, unavailable, uncommitted, unserialisable, persistence,
}

-- What a write of the file comes to: an error before the rename, an error after it, or none.
pub data Written : Type 0 where
  unwritten renamed synced : Written

-- bytes.Equal
unfoldable pub bytes_equal : List ℕ → List ℕ → Bool
bytes_equal [] [] = true
bytes_equal [] (c ∷ cs) = false
bytes_equal (b ∷ bs) [] = false
bytes_equal (b ∷ bs) (c ∷ cs) = let rest = bytes_equal bs cs in b == c && rest

-- copyInvalidRuns, and then `[run] = true`
unfoldable pub with_invalid : String → Option (String → Bool) → Option (String → Bool)
with_invalid run none = some (λ key. str_eq run key)
with_invalid run (some runs) = some (λ key. if str_eq run key then true else runs key)

-- The state that Commit persists.
unfoldable pub committed : Envelope → Context → Time → State → State
unfolding with_invalid
committed e k at d = record d {
  envelope = some e;
  committed_at = at;
  applied_at = none;
  invalid_runs =
      if str_eq k.status "revoked" then with_invalid k.run_id d.invalid_runs else d.invalid_runs;
}

module _ {B : Type 0} (json : Json B) where
  -- The deferred function of persist
  abbrev pub broken : Store B → Store B
  broken s = record s { ledger = record s.ledger { failed = true } }

  -- persist, after Marshal
  unfoldable pub write : State → Option B → Written → Store B → Store B × Option LedgerError
  write next none out s = (broken s, some unserialisable)
  write next (some raw) unwritten s = (broken s, some persistence)
  write next (some raw) renamed s = (broken (record s { file = raw }), some persistence)
  write next (some raw) synced s =
      (record { ledger = record s.ledger { state = next }; file = raw }, none)

  unfoldable pub persist : State → Written → Store B → Store B × Option LedgerError
  unfolding write
  persist next out s = write next (json.marshal_state next) out s

  -- Commit, after persist
  unfoldable pub installed : Context → Store B × Option LedgerError → Store B × Option LedgerError
  installed k (s, some e) = (s, some e)
  installed k (s, none) = (record s { ledger = record s.ledger { context = some k } }, none)

  unfoldable pub install :
      Envelope → Context → Time → Written → Store B → Store B × Option LedgerError
  unfolding installed persist committed
  install e k at out s = installed k (persist (committed e k at s.ledger.state) out s)

  -- Commit, on the context that it holds
  unfoldable pub commit_over :
      Option Context → Envelope → Context → Time → Written → Store B → Store B × Option LedgerError
  unfolding install bytes_equal
  commit_over none e k at out s =
      if not (k.generation == 1) then (s, some needs_generation_one) else install e k at out s
  commit_over (some old) e k at out s =
      if ltb k.generation old.generation
      then (s, some rollback)
      else (if k.generation == old.generation
          then (if not (bytes_equal (json.marshal_context old) (json.marshal_context k))
              then (s, some conflict)
              else (s, none))
          else install e k at out s)

  -- Commit, on the context that was verified
  unfoldable pub commit_verified :
      Checked Context → Envelope → Time → Written → Store B → Store B × Option LedgerError
  unfolding commit_over
  commit_verified (refused x) e at out s = (s, some x)
  commit_verified (accepted k) e at out s =
      if before at k.issued_at || not (before at k.expires_at)
      then (s, some outside_lifetime)
      else commit_over s.ledger.context e k at out s

  -- Commit
  unfoldable pub commit : Envelope → Time → Written → Store B → Store B × Option LedgerError
  unfolding verify commit_verified
  commit e at out s =
      if s.ledger.failed
      then (s, some needs_recovery)
      else commit_verified (verify json s.ledger.state.scope e) e at out s

  -- Apply, on the context
  unfoldable pub apply_to : Option Context → Time → Written → Store B → Store B × Option LedgerError
  unfolding persist
  apply_to none at out s = (s, some invalid_boundary)
  apply_to (some k) at out s =
      if before at s.ledger.state.committed_at || not (before at k.expires_at)
      then (s, some invalid_boundary)
      else (if is_some s.ledger.state.applied_at
          then (s, none)
          else persist (record s.ledger.state { applied_at = some at }) out s)

  -- Apply
  unfoldable pub apply : Time → Written → Store B → Store B × Option LedgerError
  unfolding apply_to
  apply at out s =
      if s.ledger.failed then (s, some needs_recovery) else apply_to s.ledger.context at out s

  -- The last lines of InvalidateRun and InvalidateContext
  unfoldable pub mark_invalid : String → Written → Store B → Store B × Option LedgerError
  unfolding persist with_invalid
  mark_invalid run out s =
      let d = s.ledger.state in
      persist (record d { invalid_runs = with_invalid run d.invalid_runs }) out s

  unfoldable pub invalidate_held :
      Option Context → String → Written → Store B → Store B × Option LedgerError
  unfolding mark_invalid
  invalidate_held none run out s = (s, some unknown_run)
  invalidate_held (some k) run out s =
      if not (str_eq run k.run_id) then (s, some unknown_run) else mark_invalid run out s

  -- InvalidateRun
  unfoldable pub invalidate_run : String → Written → Store B → Store B × Option LedgerError
  unfolding invalidate_held
  invalidate_run run out s =
      if s.ledger.failed
      then (s, some needs_recovery)
      else invalidate_held s.ledger.context run out s

  -- InvalidateContext, on the contexts held and verified
  unfoldable pub invalidate_verified :
      Option Context → Checked Context → Written → Store B → Store B × Option LedgerError
  unfolding mark_invalid
  invalidate_verified none given out s = (s, some unavailable)
  invalidate_verified (some held) (refused x) out s = (s, some x)
  invalidate_verified (some held) (accepted k) out s =
      if ltb held.generation k.generation
      then (s, some uncommitted)
      else mark_invalid k.run_id out s

  -- InvalidateContext
  unfoldable pub invalidate_context : Envelope → Written → Store B → Store B × Option LedgerError
  unfolding invalidate_verified verify
  invalidate_context e out s =
      if s.ledger.failed
      then (s, some unavailable)
      else invalidate_verified s.ledger.context (verify json s.ledger.state.scope e) out s
