-- ===== src/RunContext.antt =====
-- internal/runcontext/context.go: `Ledger`, the durable record of run contexts.
--
-- Instants are nanoseconds from Go's zero time. encoding/json is a parameter, and so is what the
-- operating system answers to each write; a file's content is of a type that the parameters share.
pub mod Opening
pub mod Writing
pub mod Reading
pub mod Steps
pub mod History
pub mod Promises
pub mod Verdict
use nexus_gateway.Prelude.{
  ℕ, ◌≡◌, String, Bool, true, false, not, ◌&&◌, ◌||◌, Option, none, some, List, [], ◌∷◌, length,
  ltb, ◌==◌, str_eq, if◌then◌else◌,
}
use nexus_gateway.Prelude.Int.{ℤ, pos, negsuc, ltb_ℤ}

-- time.Time: an instant, and the offset of its zone.
pub record Time : Type 0 where
  pub instant : ℤ
  pub offset : ℤ

abbrev pub is_nought : ℤ → Bool
is_nought (pos n) = n == 0
is_nought (negsuc n) = false

-- t.Before(u)
abbrev pub before : Time → Time → Bool
before t u = ltb_ℤ t.instant u.instant

abbrev pub zero_time : Time
zero_time = record { instant = pos 0; offset = pos 0 }

pub record Scope : Type 0 where
  pub gateway_id : String
  pub clock_id : String

pub record Context : Type 0 where
  pub schema_version : String
  pub gateway_id : String
  pub clock_id : String
  pub provisioning_revision : String
  pub run_id : String
  pub generation : ℕ
  pub status : String
  pub issued_at : Time
  pub valid_from : Time
  pub expires_at : Time

pub record Envelope : Type 0 where
  pub payload : List ℕ

pub record Result : Type 0 where
  pub status : String
  pub reason : String
  pub run_id : String
  pub generation : ℕ

-- `state`; a map of Go that may be nil, read at a run as false where it has no entry.
pub record State : Type 0 where
  pub invalid_runs : Option (String → Bool)
  pub version : ℤ
  pub scope : Scope
  pub envelope : Option Envelope
  pub committed_at : Time
  pub applied_at : Option Time

pub record Ledger : Type 0 where
  pub failed : Bool
  pub state : State
  pub context : Option Context

-- The errors, by their texts.
pub data LedgerError : Type 0 where
  invalid_scope cannot_create undecodable scope_mismatch invalid_commit invalid_apply : LedgerError
  orphan_receipts payload_too_large invalid_contract times_not_utc : LedgerError
  needs_recovery outside_lifetime needs_generation_one rollback conflict : LedgerError
  invalid_boundary unknown_run not_ready unavailable uncommitted : LedgerError
  unserialisable persistence : LedgerError

pub data Checked (A : Type 0) : Type 0 where
  refused : LedgerError → Checked A
  accepted : A → Checked A

-- encoding/json, with unknown fields and trailing text refused, as `decode` asks. Marshal may fail
-- on a state; on a context the code ignores its error, and goes on with nil.
pub record Json (B : Type 0) : Type 0 where
  pub decode_context : List ℕ → Option Context
  pub marshal_context : Context → List ℕ
  pub decode_state : B → Option State
  pub marshal_state : State → Option B

-- The ledger and the content of its file.
pub record Store (B : Type 0) : Type 0 where
  pub ledger : Ledger
  pub file : B

abbrev pub schema : String
schema = "clock-run-context/2-draft"

abbrev pub same_scope : Scope → Scope → Bool
same_scope a b = str_eq a.gateway_id b.gateway_id && str_eq a.clock_id b.clock_id

-- The contract that verify asks of a context, its zones aside.
abbrev pub honours : Scope → Context → Bool
honours scope k =
    str_eq k.schema_version schema
    && str_eq k.gateway_id scope.gateway_id
    && str_eq k.clock_id scope.clock_id
    && not (str_eq k.run_id "")
    && not (str_eq k.provisioning_revision "")
    && not (ltb k.generation 1)
    && not (ltb 9007199254740991 k.generation)
    && (str_eq k.status "active" || str_eq k.status "revoked")
    && not (is_nought k.issued_at.instant)
    && not (before k.valid_from k.issued_at)
    && before k.valid_from k.expires_at

abbrev pub in_utc : Context → Bool
in_utc k =
    is_nought k.issued_at.offset && is_nought k.valid_from.offset && is_nought k.expires_at.offset

-- InvalidRuns[run]
unfoldable pub is_invalid : Option (String → Bool) → String → Bool
is_invalid none run = false
is_invalid (some runs) run = runs run

-- The instants of the receipts against the context that they belong to.
abbrev pub receipt_after : Time → Context → Option Time → Bool
receipt_after committed k none = true
receipt_after committed k (some applied) =
    not (before applied committed) && before applied k.expires_at

abbrev pub version_is : ℤ → Bool
version_is (pos n) = n == 2
version_is (negsuc n) = false

abbrev pub is_some {ℓ} : {A : Type ℓ} → Option A → Bool
is_some none = false
is_some (some a) = true

-- The first test of Open.
abbrev pub header_ok : Scope → State → Bool
header_ok scope d = is_some d.invalid_runs && version_is d.version && same_scope d.scope scope

-- The state that Initialize makes.
abbrev pub first_state : Scope → State
first_state scope = record {
  invalid_runs = some (λ key. false);
  version = pos 2;
  scope = scope;
  envelope = none;
  committed_at = zero_time;
  applied_at = none;
}

module _ {B : Type 0} (json : Json B) where
  -- verify, after decode
  unfoldable pub verified : Scope → Option Context → Checked Context
  verified scope none = refused undecodable
  verified scope (some k) =
      if not (honours scope k)
      then refused invalid_contract
      else (if not (in_utc k) then refused times_not_utc else accepted k)

  unfoldable pub verify : Scope → Envelope → Checked Context
  unfolding verified
  verify scope e =
      if ltb 65536 (length e.payload)
      then refused payload_too_large
      else verified scope (json.decode_context e.payload)

  -- Open, with the envelope's context
  unfoldable pub opened : State → Checked Context → Checked Ledger
  opened d (refused e) = refused e
  opened d (accepted k) =
      if before d.committed_at k.issued_at || not (before d.committed_at k.expires_at)
      then refused invalid_commit
      else (if not (receipt_after d.committed_at k d.applied_at)
          then refused invalid_apply
          else accepted (record { failed = false; state = d; context = some k }))

  -- Open, on the envelope of the file
  unfoldable pub open_envelope : State → Option Envelope → Checked Ledger
  unfolding opened verify
  open_envelope d (some e) = opened d (verify d.scope e)
  open_envelope d none =
      if not (is_nought d.committed_at.instant) || is_some d.applied_at
      then refused orphan_receipts
      else accepted (record { failed = false; state = d; context = none })

  -- Open, on what decode made of the file
  unfoldable pub open_state : Scope → Option State → Checked Ledger
  unfolding open_envelope
  open_state scope none = refused undecodable
  open_state scope (some d) =
      if header_ok scope d then open_envelope d d.envelope else refused scope_mismatch

  -- Open
  unfoldable pub open_ledger : Scope → B → Checked Ledger
  unfolding open_state
  open_ledger scope raw = open_state scope (json.decode_state raw)

  -- Initialize, on the bytes that Marshal gave and what creating and writing the file came to
  unfoldable pub created : Scope → Option B → Bool → Checked (Store B)
  created scope none wrote = refused cannot_create
  created scope (some raw) wrote =
      if wrote
      then accepted (record {
        ledger = record { failed = false; state = first_state scope; context = none };
        file = raw;
      })
      else refused cannot_create

  -- Initialize
  unfoldable pub initialize : Scope → Bool → Checked (Store B)
  unfolding created
  initialize scope wrote =
      if str_eq scope.gateway_id "" || str_eq scope.clock_id ""
      then refused invalid_scope
      else created scope (json.marshal_state (first_state scope)) wrote
