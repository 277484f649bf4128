-- ===== src/Normalizer.antt =====
-- internal/normalizer/normalizer.go: `Normalize` and the loop of `consume`; internal/common: the event
-- and its value. JSON and the clock are arguments; `F` stands for Go's float64.
pub mod Events
use nexus_gateway.Prelude.{
  ℕ, zero, suc, ◌+◌, ltb, String, Bool, true, false, not, ◌&&◌, ◌||◌, Option, none, some, List, [],
  ◌∷◌, ◌++◌, str_eq, if◌then◌else◌,
}
use nexus_gateway.Prelude.Dict.{Dict, insert}
use nexus_gateway.Frame.{TelemetryFrame, Scalar, value_num, value_str, value_bool}
use nexus_gateway.PointList.{Index, resolve}
use nexus_gateway.StoreForward.Pump.{FrameMsg}

-- internal/common/value.go: Value, whose zero value is invalid
pub data Value (F : Type 0) : Type 0 where
  invalid : Value F
  number : F → Value F
  text : String → Value F
  flag : Bool → Value F

-- internal/common/event.go: Event, as far as it is read
pub record Event (F : Type 0) : Type 0 where
  pub connector_id : String
  pub local_id : String
  pub value : Value F
  pub unit : String
  pub quality : String
  pub timestamp : String
  pub attributes : Dict String

pub data Outcome : Type 0 where
  outcome_ok poison miss : Outcome

-- The loop that copies the attributes.
unfoldable pub copy_into : Dict String → Dict String → Dict String
copy_into [] m = m
copy_into ((k, v) ∷ rest) m = copy_into rest (insert k v m)

abbrev pub is_empty : Dict String → Bool
is_empty [] = true
is_empty (a ∷ m) = false

abbrev pub deviates : String → Bool
deviates quality = not (str_eq quality "") && not (str_eq quality "Good")

-- A fetched message: its event, its metadata (stream sequence and deliveries) where there is some,
-- and whether the hand-off channel took the frame before the context was done.
pub record EventMsg (F : Type 0) : Type 0 where
  pub decoded : Option (Event F)
  pub metadata : Option (ℕ × ℕ)
  pub taken : Bool

pub data Disposition : Type 0 where
  term nak : Disposition

-- The frames handed on, the replies sent, and the counters.
pub record Consumer (F : Type 0) : Type 0 where
  pub frames : List (FrameMsg F)
  pub replies : List Disposition
  pub redelivered : ℕ
  pub unparsable : ℕ
  pub unresolved : ℕ
  pub stopped : Bool

abbrev pub seq_of : Option (ℕ × ℕ) → ℕ
seq_of none = 0
seq_of (some (seq, deliveries)) = seq

abbrev pub is_redelivery : Option (ℕ × ℕ) → Bool
is_redelivery none = false
is_redelivery (some (seq, deliveries)) = ltb 1 deliveries

module _ {F : Type 0} where
  -- Unit and quality, on top of the event's own attributes.
  unfoldable pub with_deviations : Event F → Dict String → Dict String
  with_deviations evt copied =
      let with_unit = if not (str_eq evt.unit "") then insert "unit" evt.unit copied else copied in
      if deviates evt.quality then insert "quality" evt.quality with_unit else with_unit

  -- The attributes of the frame; nil is the empty map.
  unfoldable pub attributes_of : Event F → Dict String
  unfolding copy_into with_deviations
  attributes_of evt =
      if not (is_empty evt.attributes) || not (str_eq evt.unit "") || deviates evt.quality
      then with_deviations evt (copy_into evt.attributes [])
      else []

  -- The switch on the kind of the value; `none` is its default.
  unfoldable pub scalar_of : Value F → Option (Scalar F)
  scalar_of invalid = none
  scalar_of (number x) = some (value_num x)
  scalar_of (text s) = some (value_str s)
  scalar_of (flag b) = some (value_bool b)

  -- Normalize of an event whose address is resolved.
  unfoldable pub frame_of : String → String → String → Event F → Option (TelemetryFrame F) × Outcome
  unfolding attributes_of scalar_of
  frame_of now gateway_id point_id evt = elim (scalar_of evt.value) [
    | none ↦ (none, poison)
    | some v ↦ (
      some (record {
        gateway_id = gateway_id;
        point_id = point_id;
        timestamp = if str_eq evt.timestamp "" then now else evt.timestamp;
        attributes = attributes_of evt;
        value = some v;
      }),
      outcome_ok,
    )
  ]

  -- Normalize; `decoded` is the event that json.Unmarshal reads, or none, `now` the time as text.
  unfoldable pub normalize :
      String → Index → String → Option (Event F) → Option (TelemetryFrame F) × Outcome
  unfolding frame_of resolve
  normalize now idx gateway_id none = (none, poison)
  normalize now idx gateway_id (some evt) = elim (resolve idx evt.connector_id evt.local_id) [
    | none ↦ (none, miss)
    | some point_id ↦ frame_of now gateway_id point_id evt
  ]

  -- The switch on the outcome, and the hand-off.
  unfoldable pub hand_on :
      EventMsg F → Consumer F → Option (TelemetryFrame F) × Outcome → Consumer F
  hand_on msg s (f, poison) = record s {
    unparsable = s.unparsable + 1;
    replies = s.replies ++ term ∷ [];
  }
  hand_on msg s (f, miss) = record s {
    unresolved = s.unresolved + 1;
    replies = s.replies ++ term ∷ [];
  }
  hand_on msg s (none, outcome_ok) = s
  hand_on msg s (some f, outcome_ok) =
      if msg.taken
      then record s {
        frames = s.frames ++ record { frame = f; has_msg = true; seq = seq_of msg.metadata } ∷ [];
      }
      else record s { replies = s.replies ++ nak ∷ []; stopped = true }

  -- One message of the loop.
  unfoldable pub consume_one : String → Index → String → Consumer F → EventMsg F → Consumer F
  unfolding hand_on normalize
  consume_one now idx gateway_id s msg =
      let s' =
        if is_redelivery msg.metadata then record s { redelivered = s.redelivered + 1 } else s in
      hand_on msg s' (normalize now idx gateway_id msg.decoded)

  -- consume, over the messages that it fetches; a NAK at the end of the context returns.
  unfoldable pub consume : String → Index → String → Consumer F → List (EventMsg F) → Consumer F
  unfolding consume_one
  consume now idx gateway_id s [] = s
  consume now idx gateway_id s (msg ∷ rest) =
      let s' = consume_one now idx gateway_id s msg in
      if s'.stopped then s' else consume now idx gateway_id s' rest
