-- ===== src/Service/Engine/Frames.antt =====
-- What becomes of a frame in service/simulation_engine.go: rejection, drop, duplicate, forward and
-- delivery.
use maritime_simulation.Base.{ℕ, true, false, List, [], ◌∷◌, Option, none, some, if◌then◌else◌}
use maritime_simulation.Base.Int.{pos}
use maritime_simulation.Base.Text.{Text, codes}
use maritime_simulation.Base.Dict.{Dict, insert}
use maritime_simulation.Floats.{Float}
use maritime_simulation.Domain.Errors.{Result, ok, err, not_found}
use maritime_simulation.Domain.Entities.{Edge, TransmitPacket}
use maritime_simulation.Domain.Packet.{path_string}
use maritime_simulation.Domain.Schema.{
  Value, string, problems, Problem, Msgpack, DynamicSchema, decode_payload,
}
use maritime_simulation.Protocol.{
  PacketEvent, PacketEventType, Reason, ErrorCode, forward, deliver, drop, duplicate, ack, ack_drop,
  no_reason, duplicate_retry_filtered, ack_lost_in_the_air, error_event, receive_rf, mesh_ack,
  packet_event,
}
use maritime_simulation.Service.Ports.{
  ◌>>=◌, ◌>>◌, Ports, SessionParams, Stat, M, TelemetryLog, call, pure, done, log_error, incr_stat,
  send_to_node, broadcast_to_monitors, record_effect, inserted, dropped_invalid,
  duplicates_filtered, forwarded_to_node, delivered_to_edge, acks_relayed, acks_dropped,
  ack_sender_failed, schema_lookup_failed, telemetry_failed,
}
use maritime_simulation.Service.Anomaly.{TraversalVerdict, evaluate}

abbrev pub received : Text
received = codes "received"

module _ {W : Type 0} where
  -- An event about a frame that reached the receiver's radio.
  abbrev pub frame_event :
      PacketEventType
      → Reason
      → TransmitPacket
      → Text
      → Text
      → TraversalVerdict W
      → ℕ
      → PacketEvent W
  frame_event type reason pkt from to verdict t = record {
    type = type;
    packet_id = pkt.packet_id;
    from_node = from;
    to_node = to;
    origin_node = pkt.origin_node;
    hop_count = pkt.hop_count;
    distance_km = verdict.distance_km;
    loss_probability = verdict.loss_percent;
    reason = reason;
    at = t;
  }

  -- An event about an acknowledgement.
  abbrev pub ack_event : PacketEventType → Reason → Text → Text → Text → W → W → ℕ → PacketEvent W
  ack_event type reason packet_id from to distance loss t = record {
    type = type;
    packet_id = packet_id;
    from_node = from;
    to_node = to;
    origin_node = [];
    hop_count = pos 0;
    distance_km = distance;
    loss_probability = loss;
    reason = reason;
    at = t;
  }

module _ {W S : Type 0} ⦃fl : Float W⦄ (p : Ports W S) where
  open fl use {lit}

  -- emitPacketEvent; `ev` is the event as it stands but for its time.
  unfoldable pub emit_packet_event : Text → (ℕ → PacketEvent W) → M W S (Unit {0})
  emit_packet_event sid ev = do t ← call p.now; broadcast_to_monitors p sid (packet_event (ev t))

  -- reject
  unfoldable pub reject : Text → Text → ErrorCode → M W S (Unit {0})
  reject sid sender code = do
    incr_stat p sid dropped_invalid
    send_to_node p sid sender (error_event code)

  -- drop; `from` is the transmitter of the packet, and the floats are zero without a verdict.
  unfoldable pub drop_frame :
      Text → TransmitPacket → Text → Reason → Stat → Option (TraversalVerdict W) → M W S (Unit {0})
  drop_frame sid pkt from reason stat verdict = do
    incr_stat p sid stat
    emit_packet_event sid λ t. record {
      type = drop;
      packet_id = pkt.packet_id;
      from_node = from;
      to_node = pkt.target_parent;
      origin_node = pkt.origin_node;
      hop_count = pkt.hop_count;
      distance_km = elim verdict [ none ↦ lit 0 0 | some v ↦ v.distance_km ];
      loss_probability = elim verdict [ none ↦ lit 0 0 | some v ↦ v.loss_percent ];
      reason = reason;
      at = t;
    }

  -- The acknowledgement of a duplicate, once the dice are cast.
  unfoldable pub re_ack : Text → TransmitPacket → Text → TraversalVerdict W → M W S (Unit {0})
  re_ack sid pkt tx back =
      if back.dropped
      then incr_stat p sid acks_dropped
      else send_to_node p sid tx (
          mesh_ack (record {
            packet_id = pkt.packet_id;
            receiver_node = pkt.target_parent;
            status = received;
            duplicate = true;
          }))

  -- handleDuplicate
  unfoldable pub handle_duplicate :
      Text → TransmitPacket → Text → W → SessionParams W → TraversalVerdict W → M W S (Unit {0})
  handle_duplicate sid pkt tx dist params verdict = do
    incr_stat p sid duplicates_filtered
    emit_packet_event sid
        (frame_event duplicate duplicate_retry_filtered pkt tx pkt.target_parent verdict)
    back ← evaluate p dist params
    re_ack sid pkt tx back

  abbrev log_failure : Result (Unit {0}) → M W S (Unit {0}) → M W S (Unit {0})
  log_failure (ok _) k = done
  log_failure (err _) k = k

  -- forwardToNode
  unfoldable pub forward_to_node :
      Text → TransmitPacket → Text → TraversalVerdict W → M W S (Unit {0})
  forward_to_node sid pkt tx verdict = do
    r ← call (p.remember_ack_sender sid pkt.packet_id pkt.target_parent tx)
    log_failure r (log_error sid ack_sender_failed)
    send_to_node p sid pkt.target_parent
        (receive_rf (record pkt { event = codes "mesh:receive_rf" }))
    incr_stat p sid forwarded_to_node
    emit_packet_event sid (frame_event forward no_reason pkt tx pkt.target_parent verdict)

  -- The map that keeps the raw bytes retrievable.
  abbrev raw_payload : TransmitPacket → Dict (Value W)
  raw_payload pkt = (codes "_raw_b64", string pkt.binary_payload_b64) ∷ []

  -- The `default` case: the decoded payload with its problems, if there are any.
  unfoldable pub payload_of :
      Option (Dict (Value W)) × List Problem → TransmitPacket → Dict (Value W)
  payload_of (decoded, ps) pkt =
      let d : Dict (Value W) = elim decoded [ none ↦ raw_payload pkt | some d ↦ d ] in
      elim ps [ [] ↦ d | x ∷ xs ↦ insert (codes "_schema_problems") (problems (x ∷ xs)) d ]

  -- The `switch` on the schema lookup.
  unfoldable pub decode_frame :
      Msgpack W → Text → Result DynamicSchema → TransmitPacket → List ℕ → M W S (Dict (Value W))
  decode_frame mp sid (ok schema) pkt payload =
      pure (payload_of (decode_payload mp payload schema.fields) pkt)
  decode_frame mp sid (err not_found) pkt payload = pure (raw_payload pkt)
  decode_frame mp sid (err _) pkt payload = do
    log_error sid schema_lookup_failed
    pure (raw_payload pkt)

  -- The edge's acknowledgement, once the dice are cast.
  unfoldable pub edge_ack :
      Text → TransmitPacket → Edge W → Text → TraversalVerdict W → M W S (Unit {0})
  edge_ack sid pkt edge tx back =
      if back.dropped
      then (do
        incr_stat p sid acks_dropped
        emit_packet_event sid (
            ack_event ack_drop ack_lost_in_the_air pkt.packet_id edge.edge_code tx back.distance_km
              back.loss_percent))
      else do
        send_to_node p sid tx (
            mesh_ack (record {
              packet_id = pkt.packet_id;
              receiver_node = edge.edge_code;
              status = received;
              duplicate = false;
            }))
        incr_stat p sid acks_relayed
        emit_packet_event sid
            (ack_event ack no_reason pkt.packet_id edge.edge_code tx (lit 0 0) (lit 0 0))

  -- The telemetry row.
  abbrev row_of : Text → TransmitPacket → Edge W → Dict (Value W) → TelemetryLog W
  row_of sid pkt edge decoded = record {
    session_id = sid;
    origin_node_id = pkt.origin_node;
    edge_id = edge.id;
    edge_code = edge.edge_code;
    hop_count = pkt.hop_count;
    routing_path = path_string pkt edge.edge_code;
    decoded_payload = decoded;
  }

  -- deliverToEdge
  unfoldable pub deliver_to_edge :
      Msgpack W
      → Text
      → TransmitPacket
      → List ℕ
      → Edge W
      → Text
      → W
      → SessionParams W
      → TraversalVerdict W
      → M W S (Unit {0})
  deliver_to_edge mp sid pkt payload edge tx dist params verdict = do
    schema ← call (p.latest_schema sid)
    decoded ← decode_frame mp sid schema pkt payload
    r ← call (p.insert_telemetry (row_of sid pkt edge decoded))
    record_effect (inserted (row_of sid pkt edge decoded))
    log_failure r (log_error sid telemetry_failed)
    incr_stat p sid delivered_to_edge
    emit_packet_event sid (frame_event deliver no_reason pkt tx edge.edge_code verdict)
    back ← evaluate p dist params
    edge_ack sid pkt edge tx back
