-- ===== src/Mqtt/Commands.antt =====
-- connector/mqtt/connector.go: the write commands that the gateway sends to the connector, one after
-- the other; a request that meets another of its id between TryReserve and Complete is answered by
-- `in_flight`.
pub mod OnceWritten
use Prim.Native.String.{◌++◌, len, find}
use nexus_gateway.Prelude.{
  leb, ℕ, String, Bool, true, false, not, ◌&&◌, ◌||◌, Option, none, some, List, [], ◌∷◌, ◌==◌,
  str_eq, if◌then◌else◌,
}
use nexus_gateway.Prelude.Dict.{Dict, lookup}
use nexus_gateway.Dispatch.{WriteRequest, WriteReply}
use nexus_gateway.CommandDedup.{
  Dedup, try_reserve, complete, Reserve, proceed, in_flight, cached, panics,
}
use nexus_gateway.Mqtt.Index.{PointConfig}

-- commandQoS
unfoldable pub command_qos : PointConfig → ℕ
command_qos p = if p.command_qos == 0 then 1 else p.command_qos

-- What is published to the broker.
pub record Publish : Type 0 where
  pub topic : String
  pub qos : ℕ
  pub payload : String

-- A request from the bus: decoded or not, with the answer to Publish, and whether the broker's
-- connection is there.
pub record Incoming (F : Type 0) : Type 0 where
  pub request : Option (WriteRequest F)
  pub connected : Bool

-- The connector's deduplicator, and the state of the broker.
pub record Handler (W : Type 0) : Type 0 where
  pub dedup : Dedup
  pub world : W

abbrev pub refusal_of : String → WriteReply
refusal_of reason = record { success = false; response = reason }

module _ {F W : Type 0} (plain : F → String) (sprintf : String → F → String)
    (publish : Publish → W → W × Option String) (points : Dict PointConfig) where
  -- formatPayload
  unfoldable pub format_payload : String → F → String
  format_payload template value =
      if str_eq template ""
      then plain value
      else (let result = sprintf template value in
          if leb (len result) (find result "%!") then result else plain value)

  abbrev pub completed : String → WriteReply → Handler W → Handler W × Option WriteReply
  completed id reply s = (record s { dedup = complete id reply s.dedup }, some reply)

  -- handleWrite, after Publish
  unfoldable pub after_publish :
      WriteRequest F → Handler W → W × Option String → Handler W × Option WriteReply
  unfolding complete
  after_publish r s (w, none) =
      completed r.control_id (record { success = true; response = "ok" }) (record s { world = w })
  after_publish r s (w, some e) =
      completed r.control_id (refusal_of ("device_error: " ++ e)) (record s { world = w })

  -- handleWrite, on the point
  unfoldable pub write_point :
      WriteRequest F → Option PointConfig → Handler W → Handler W × Option WriteReply
  unfolding after_publish format_payload command_qos complete
  write_point r none s = completed r.control_id (refusal_of "not_writable") s
  write_point r (some p) s =
      if not p.writable || str_eq p.command_topic ""
      then completed r.control_id (refusal_of "not_writable") s
      else after_publish r s (
          publish
            (record {
              topic = p.command_topic;
              qos = command_qos p;
              payload = format_payload p.payload_template r.value;
            })
            s.world)

  -- handleWrite, after TryReserve; where that panics there is no reply
  unfoldable pub write_reserved :
      WriteRequest F → Handler W → Dedup × Reserve → Handler W × Option WriteReply
  unfolding write_point
  write_reserved r s (d, proceed) =
      write_point r (lookup r.local_id points) (record s { dedup = d })
  write_reserved r s (d, in_flight) = (record s { dedup = d }, some (refusal_of "in_flight"))
  write_reserved r s (d, cached reply) = (record s { dedup = d }, some reply)
  write_reserved r s (d, panics) = (record s { dedup = d }, none)

  -- handleWrite, on the decoded request
  unfoldable pub write_decoded :
      Bool → Option (WriteRequest F) → Handler W → Handler W × Option WriteReply
  unfolding write_reserved try_reserve
  write_decoded connected none s = (s, some (refusal_of "bad_request"))
  write_decoded connected (some r) s =
      if r.release
      then (s, some (refusal_of "bad_request"))
      else (if not connected
          then (s, some (refusal_of "not_connected"))
          else write_reserved r s (try_reserve r.control_id s.dedup))

  -- handleWrite
  unfoldable pub handle_write : Incoming F → Handler W → Handler W × Option WriteReply
  unfolding write_decoded
  handle_write m s = write_decoded m.connected m.request s

  unfoldable pub handle_all : List (Incoming F) → Handler W → Handler W
  unfolding handle_write
  handle_all [] s = s
  handle_all (m ∷ ms) s = handle_all ms (handle_write m s).0
