-- ===== src/Tests/Commands.antt =====
-- connector/mqtt/connector.go: a command that is sent twice.
use nexus_gateway.Prelude.{
  refl, ℕ, suc, String, true, false, Option, none, some, [], ◌∷◌, ◌≡◌, arith,
}
use nexus_gateway.Prelude.Int.{pos}
use nexus_gateway.Prelude.Dict.{Dict, lookup, insert, erase}
use nexus_gateway.Dispatch.{WriteRequest}
use nexus_gateway.CommandDedup.{
  new_dedup, try_reserve, reserve_over, reserve, evict, proceed, complete,
}
use nexus_gateway.Mqtt.Index.{PointConfig}
use nexus_gateway.Mqtt.Commands.{
  Publish, Incoming, Handler, handle_write, handle_all, write_decoded, write_reserved, write_point,
  after_publish,
}
use nexus_gateway.Mqtt.Commands.OnceWritten.{handle_write-once}

abbrev point : PointConfig
point = record {
  topic = "site/set";
  device_ref = "";
  unit = "";
  writable = true;
  command_topic = "site/cmd";
  payload_template = "";
  qos = 0;
  command_qos = 0;
}

-- The broker counts what it is sent.
abbrev publish : Publish → ℕ → ℕ × Option String
publish p n = (suc n, none)

abbrev write : String → WriteRequest ℕ
write id = record {
  release = false;
  control_id = id;
  local_id = "site/set";
  device_ref = "";
  value = 5;
  priority = pos 0;
}

abbrev incoming : String → Incoming ℕ
incoming id = record { request = some (write id); connected = true }

abbrev plain : ℕ → String
plain n = "5"

abbrev sprintf : String → ℕ → String
sprintf template n = template

abbrev points : Dict PointConfig
points = ("site/set", point) ∷ []

abbrev before_it : Handler ℕ
before_it =
    handle_all plain sprintf publish points (incoming "a" ∷ [])
      (record { dedup = new_dedup 2; world = 0 })

let_in : (try_reserve "b" before_it.dedup).1 ≡ proceed
unfolding try_reserve reserve_over reserve evict complete handle_all handle_write write_decoded
    write_reserved write_point after_publish lookup insert erase
let_in = refl

handle_write-once_example :
    let after_it =
      handle_all plain sprintf publish points
        (incoming "d" ∷ [])
        (handle_write plain sprintf publish points (incoming "b") before_it).0 in
    (handle_write plain sprintf publish points (incoming "b") after_it).0.world ≡ after_it.world
handle_write-once_example =
    handle_write-once plain sprintf publish points 2 0 (incoming "a" ∷ []) (incoming "d" ∷ [])
      (write "b") (write "b") true refl refl let_in (omega arith)
