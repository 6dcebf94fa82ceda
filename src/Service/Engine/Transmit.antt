-- ===== src/Service/Engine/Transmit.antt =====
-- HandleTransmit of service/simulation_engine.go, stage by stage, latest stage first.
use maritime_simulation.Base.{
  ℕ, Bool, true, false, not, List, Option, none, some, ltb, if◌then◌else◌, length,
}
use maritime_simulation.Base.Int.{pos, ltb_ℤ}
use maritime_simulation.Base.Text.{Text, text_eq}
use maritime_simulation.Floats.{Float}
use maritime_simulation.Domain.Errors.{Result, ok, err, not_found}
use maritime_simulation.Domain.Entities.{Edge, NodePosition, TransmitPacket}
use maritime_simulation.Domain.Geo.{haversine_km}
use maritime_simulation.Domain.Lora.{max_payload_bytes}
use maritime_simulation.Domain.Packet.{validate, transmitter, max_hops}
use maritime_simulation.Domain.Schema.{Msgpack}
use maritime_simulation.Protocol.{
  sf_limit_exceeded, max_hops_exceeded, transmitter_no_position, target_offline, target_no_position,
  air_loss, out_of_range, error_event, invalid_envelope, transmitter_mismatch, invalid_base64,
  session_unavailable,
}
use maritime_simulation.Service.Ports.{
  ◌>>=◌, ◌>>◌, Ports, SessionParams, M, call, done, log_error, incr_stat, send_to_node,
  dropped_sf_limit, dropped_max_hops, dropped_air_loss, dropped_out_of_range, dropped_no_position,
  dropped_target_offline, transmit_total, edge_lookup_failed, geo_read_failed, dedup_check_failed,
}
use maritime_simulation.Service.Anomaly.{TraversalVerdict, evaluate}
use maritime_simulation.Service.Engine.Cache.{get_edge}
use maritime_simulation.Service.Engine.Frames.{
  reject, drop_frame, handle_duplicate, forward_to_node, deliver_to_edge,
}

module _ {W S : Type 0} ⦃fl : Float W⦄ (p : Ports W S) (mp : Msgpack W) where
  -- The last branch of `HandleTransmit`: an edge, or the next ship.
  unfoldable pub hand_on :
      Text
      → TransmitPacket
      → List ℕ
      → Option (Edge W)
      → Text
      → W
      → SessionParams W
      → TraversalVerdict W
      → M W S (Unit {0})
  hand_on sid pkt payload (some edge) tx dist params verdict =
      deliver_to_edge p mp sid pkt payload edge tx dist params verdict
  hand_on sid pkt payload none tx dist params verdict = forward_to_node p sid pkt tx verdict

  -- What the answer of the deduplication leads to.
  unfoldable pub dedup :
      Result Bool
      → Text
      → TransmitPacket
      → List ℕ
      → Option (Edge W)
      → Text
      → W
      → SessionParams W
      → TraversalVerdict W
      → M W S (Unit {0})
  dedup (err _) sid pkt payload edge tx dist params verdict = log_error sid dedup_check_failed
  dedup (ok false) sid pkt payload edge tx dist params verdict =
      handle_duplicate p sid pkt tx dist params verdict
  dedup (ok true) sid pkt payload edge tx dist params verdict =
      hand_on sid pkt payload edge tx dist params verdict

  -- The frame reached the receiver's radio.
  unfoldable pub receive :
      Text
      → TransmitPacket
      → List ℕ
      → Option (Edge W)
      → Text
      → W
      → SessionParams W
      → TraversalVerdict W
      → M W S (Unit {0})
  receive sid pkt payload edge tx dist params verdict = do
    first ← call (p.mark_packet_seen sid pkt.packet_id pkt.target_parent)
    dedup first sid pkt payload edge tx dist params verdict

  -- The frame was rolled for.
  unfoldable pub judge :
      Text
      → TransmitPacket
      → List ℕ
      → Option (Edge W)
      → Text
      → W
      → SessionParams W
      → TraversalVerdict W
      → M W S (Unit {0})
  judge sid pkt payload edge tx dist params verdict =
      if verdict.dropped
      then (if verdict.is_out_of_range
          then drop_frame p sid pkt tx out_of_range dropped_out_of_range (some verdict)
          else drop_frame p sid pkt tx air_loss dropped_air_loss (some verdict))
      else receive sid pkt payload edge tx dist params verdict

  -- The frame is on the air, over the distance to the target.
  unfoldable pub fly :
      Text
      → TransmitPacket
      → List ℕ
      → Option (Edge W)
      → Text
      → NodePosition W
      → W
      → W
      → SessionParams W
      → M W S (Unit {0})
  fly sid pkt payload edge tx tx_pos target_lat target_lng params = do
    let dist = haversine_km tx_pos.lat tx_pos.lng target_lat target_lng
    verdict ← evaluate p dist params
    judge sid pkt payload edge tx dist params verdict

  -- The next ship's position is known, or not.
  unfoldable pub reach_ship :
      Result (NodePosition W)
      → Text
      → TransmitPacket
      → List ℕ
      → Text
      → NodePosition W
      → SessionParams W
      → M W S (Unit {0})
  reach_ship (ok t) sid pkt payload tx tx_pos params =
      fly sid pkt payload none tx tx_pos t.lat t.lng params
  reach_ship (err not_found) sid pkt payload tx tx_pos params =
      drop_frame p sid pkt tx target_no_position dropped_no_position none
  reach_ship (err _) sid pkt payload tx tx_pos params = log_error sid geo_read_failed

  -- The next ship must hold a connection.
  unfoldable pub aim_ship :
      Text → TransmitPacket → List ℕ → Text → NodePosition W → SessionParams W → M W S (Unit {0})
  aim_ship sid pkt payload tx tx_pos params s =
      if not (p.node_online sid pkt.target_parent s.world)
      then drop_frame p sid pkt tx target_offline dropped_target_offline none s
      else (let (r, w) = p.position sid pkt.target_parent s.world in
          reach_ship r sid pkt payload tx tx_pos params (record s { world = w }))

  -- The target: a virtual edge, or the next ship.
  unfoldable pub aim :
      Text
      → TransmitPacket
      → List ℕ
      → Option (Edge W)
      → Text
      → NodePosition W
      → SessionParams W
      → M W S (Unit {0})
  aim sid pkt payload (some edge) tx tx_pos params =
      fly sid pkt payload (some edge) tx tx_pos edge.latitude edge.longitude params
  aim sid pkt payload none tx tx_pos params = aim_ship sid pkt payload tx tx_pos params

  -- The transmitter's position is known, or not.
  unfoldable pub locate :
      Result (NodePosition W)
      → Text
      → TransmitPacket
      → List ℕ
      → Option (Edge W)
      → Text
      → SessionParams W
      → M W S (Unit {0})
  locate (ok tx_pos) sid pkt payload edge tx params = aim sid pkt payload edge tx tx_pos params
  locate (err not_found) sid pkt payload edge tx params =
      drop_frame p sid pkt tx transmitter_no_position dropped_no_position none
  locate (err _) sid pkt payload edge tx params = log_error sid geo_read_failed

  unfoldable pub resolve :
      Result (Option (Edge W))
      → Text
      → TransmitPacket
      → List ℕ
      → Text
      → SessionParams W
      → M W S (Unit {0})
  resolve (err _) sid pkt payload tx params = log_error sid edge_lookup_failed
  resolve (ok edge) sid pkt payload tx params = do
    r ← call (p.position sid tx)
    locate r sid pkt payload edge tx params

  -- From the count of the transmission on: the limits of the radio and of the mesh.
  unfoldable pub limits : Text → TransmitPacket → List ℕ → Text → SessionParams W → M W S (Unit {0})
  limits sid pkt payload tx params =
      if ltb (max_payload_bytes params.spreading_factor) (length payload)
      then drop_frame p sid pkt tx sf_limit_exceeded dropped_sf_limit none
      else if ltb_ℤ (pos max_hops) pkt.hop_count
      then drop_frame p sid pkt tx max_hops_exceeded dropped_max_hops none
      else do edge ← get_edge p pkt.target_parent; resolve edge sid pkt payload tx params

  unfoldable pub admit :
      Result (SessionParams W) → Text → Text → TransmitPacket → List ℕ → Text → M W S (Unit {0})
  admit (err _) sid sender pkt payload tx =
      send_to_node p sid sender (error_event session_unavailable)
  admit (ok params) sid sender pkt payload tx = do
    incr_stat p sid transmit_total
    limits sid pkt payload tx params

  unfoldable pub decode : Option (List ℕ) → Text → Text → TransmitPacket → Text → M W S (Unit {0})
  decode none sid sender pkt tx = reject p sid sender invalid_base64
  decode (some payload) sid sender pkt tx = do
    r ← call (p.get_params sid)
    admit r sid sender pkt payload tx

  -- The check of the transmitter; `none` is the panic on an empty path, which `validate` excludes.
  unfoldable pub identify : Option Text → Text → Text → TransmitPacket → M W S (Unit {0})
  identify none sid sender pkt = done
  identify (some tx) sid sender pkt =
      if not (text_eq tx sender)
      then reject p sid sender transmitter_mismatch
      else decode (p.decode_base64 pkt.binary_payload_b64) sid sender pkt tx

  unfoldable pub check_envelope :
      Result (Unit {0}) → Text → Text → TransmitPacket → M W S (Unit {0})
  check_envelope (err _) sid sender pkt = reject p sid sender invalid_envelope
  check_envelope (ok _) sid sender pkt = identify (transmitter pkt) sid sender pkt

  -- HandleTransmit
  unfoldable pub handle_transmit : Text → Text → TransmitPacket → M W S (Unit {0})
  handle_transmit sid sender pkt = check_envelope (validate pkt) sid sender pkt
