-- ===== src/Dispatch.antt =====
-- internal/dispatch/dispatcher.go: `Dispatcher`, one command at a time. The bus (NATS), the admission
-- gate and the JSON of a request are arguments; `F` stands for Go's float64.
pub mod Guards
pub mod Repeats
use Prim.Native.String.{◌++◌}
use nexus_gateway.Prelude.{
  String, Bool, true, false, not, ◌||◌, Option, none, some, str_eq, if◌then◌else◌,
}
use nexus_gateway.Prelude.Int.{ℤ, pos, ltb_ℤ}
use nexus_gateway.Prelude.Dict.{Dict, lookup, insert}
use nexus_gateway.PointList.{Entry, Control, Index, resolve_control}

-- ControlCommand and ControlResult of the egress protocol (gen/ is generated from proto/).
pub record ControlCommand (F : Type 0) : Type 0 where
  pub control_id : String
  pub point_id : String
  pub present_value : F
  pub priority : ℤ

pub record ControlResult : Type 0 where
  pub control_id : String
  pub success : Bool
  pub response : String

-- connector/sdk/wire.go: WriteRequest and WriteReply
pub record WriteRequest (F : Type 0) : Type 0 where
  pub release : Bool
  pub control_id : String
  pub local_id : String
  pub device_ref : String
  pub value : F
  pub priority : ℤ

pub record WriteReply : Type 0 where
  pub success : Bool
  pub response : String

-- The answer of a request on the bus; `unparsed` is a reply that is no WriteReply, with the error.
pub data Answer : Type 0 where
  timed_out no_responders : Answer
  unparsed : String → Answer
  replied : WriteReply → Answer

-- json.Marshal of a request (an error's text, or none), the test `v == 1`, the admission gate where
-- there is one, and the bus. Encoded bytes are left out: the bus takes the request.
pub record Bus (F W : Type 0) : Type 0 where
  pub marshal_error : WriteRequest F → Option String
  pub is_one : F → Bool
  pub admission : Option (W → W × Bool)
  pub leave : W → W
  pub request : String → WriteRequest F → W → W × Answer

pub record Dispatcher (W : Type 0) : Type 0 where
  pub dedup : Dict ControlResult
  pub world : W

-- The entry that a command writes to, and whether it releases.
pub record Write : Type 0 where
  pub entry : Entry
  pub release : Bool

-- What the checks of `execute` answer: a refusal, or the write to make.
pub data Checked : Type 0 where
  refused : String → Checked
  allowed : Write → Checked

-- cmd.<protocol>.<connector>
unfoldable pub subject : Entry → String
subject e = "cmd." ++ (e.protocol ++ ("." ++ e.connector_id))

module _ {F : Type 0} where
  abbrev pub refusal : ControlCommand F → String → ControlResult
  refusal cmd response = record {
    control_id = cmd.control_id;
    success = false;
    response = response;
  }

  -- The checks of a release point's command.
  unfoldable pub check_release : (F → Bool) → Control → ControlCommand F → Checked
  check_release is_one c cmd =
      if not (is_one cmd.present_value) || ltb_ℤ cmd.priority (pos 0) || ltb_ℤ (pos 16) cmd.priority
      then refused "bad_request"
      else if str_eq c.target.point_id "" || not (str_eq c.target.release_of "")
      then refused "bad_request"
      else if not c.target.writable
      then refused "not_writable"
      else if not (str_eq c.target.protocol "bacnet")
          || str_eq c.target.connector_id ""
          || str_eq c.target.local_id ""
      then refused "bad_request"
      else allowed (record { entry = c.target; release = true })

  -- `execute` up to the request
  unfoldable pub check : (F → Bool) → Control → ControlCommand F → Checked
  unfolding check_release
  check is_one c cmd =
      if not c.found
      then refused "no_connector"
      else if not c.entry.writable
      then refused "not_writable"
      else if not (str_eq c.entry.release_of "")
      then check_release is_one c cmd
      else allowed (record { entry = c.entry; release = false })

  unfoldable pub write_request : ControlCommand F → Write → WriteRequest F
  write_request cmd w = record {
    release = w.release;
    control_id = cmd.control_id;
    local_id = w.entry.local_id;
    device_ref = w.entry.device_ref;
    value = cmd.present_value;
    priority = cmd.priority;
  }

  unfoldable pub result_of : ControlCommand F → Answer → ControlResult
  result_of cmd timed_out = refusal cmd "timeout"
  result_of cmd no_responders = refusal cmd "no_responder"
  result_of cmd (unparsed e) = refusal cmd ("parse_error: " ++ e)
  result_of cmd (replied r) = record {
    control_id = cmd.control_id;
    success = r.success;
    response = r.response;
  }

module _ {F W : Type 0} (bus : Bus F W) where
  -- `execute` after its checks
  unfoldable pub send : ControlCommand F → Checked → W → W × ControlResult
  unfolding write_request subject result_of
  send cmd (refused response) w = (w, refusal cmd response)
  send cmd (allowed x) w = elim (bus.marshal_error (write_request cmd x)) [
    | some e ↦ (w, refusal cmd ("marshal_error: " ++ e))
    | none ↦
        let (w', answer) = bus.request (subject x.entry) (write_request cmd x) w in
        (w', result_of cmd answer)
  ]

  -- execute
  unfoldable pub execute_once : Index → ControlCommand F → W → W × ControlResult
  unfolding send check resolve_control
  execute_once idx cmd w = send cmd (check bus.is_one (resolve_control idx cmd.point_id) cmd) w

  -- admission.Enter, where there is a gate
  unfoldable pub enter : W → W × Bool
  enter w = elim bus.admission [ none ↦ (w, true) | some gate ↦ gate w ]

  -- The deferred release
  unfoldable pub leave_gate : W → W
  leave_gate w = elim bus.admission [ none ↦ w | some gate ↦ bus.leave w ]

  -- Execute, once the gate has answered
  unfoldable pub after_enter :
      Index → ControlCommand F → Dispatcher W → W × Bool → Dispatcher W × ControlResult
  unfolding execute_once leave_gate
  after_enter idx cmd d (w, false) = (record d { world = w }, refusal cmd "configuration_paused")
  after_enter idx cmd d (w, true) =
      let (w', r) = execute_once idx cmd w in
      (record { dedup = insert cmd.control_id r d.dedup; world = leave_gate w' }, r)

  -- Execute
  unfoldable pub execute : Index → ControlCommand F → Dispatcher W → Dispatcher W × ControlResult
  unfolding after_enter enter
  execute idx cmd d = elim (lookup cmd.control_id d.dedup) [
    | some r ↦ (d, r)
    | none ↦ after_enter idx cmd d (enter d.world)
  ]
