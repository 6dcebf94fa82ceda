-- ===== src/Service/Engine/Accounting.antt =====
-- The books of the engine, stage by stage of HandleTransmit: what each adds to the ledger.
use maritime_simulation.Base.{
  ℕ, ◌≡◌, inl, inr, Bool, true, false, List, ◌∷◌, Option, none, some, arith, Bool-cases, refl,
}
use maritime_simulation.Base.Text.{Text, text_eq}
use maritime_simulation.Floats.{Float}
use maritime_simulation.Domain.Errors.{Result, ok, err, not_found}
use maritime_simulation.Domain.Entities.{Edge, NodePosition, TransmitPacket}
use maritime_simulation.Domain.Packet.{validate, transmitter}
use maritime_simulation.Domain.Schema.{Msgpack}
use maritime_simulation.Protocol.{
  Reason, ErrorCode, out_of_range, air_loss, target_no_position, target_offline,
  transmitter_no_position, sf_limit_exceeded, max_hops_exceeded, transmitter_mismatch,
  invalid_base64, invalid_envelope,
}
use maritime_simulation.Service.Ports.{
  Ports, SessionParams, Stat, Sim, dropped_sf_limit, dropped_max_hops, dropped_air_loss,
  dropped_out_of_range, dropped_no_position, dropped_target_offline, transmit_total, bumped,
}
use maritime_simulation.Service.Anomaly.{TraversalVerdict, evaluate}
use maritime_simulation.Service.Engine.Cache.{get_edge, reload, refresh, store_edges}
use maritime_simulation.Service.Engine.Frames.{
  emit_packet_event, reject, drop_frame, re_ack, handle_duplicate, forward_to_node, decode_frame,
  edge_ack, deliver_to_edge,
}
use maritime_simulation.Service.Engine.Transmit.{
  hand_on, dedup, receive, judge, fly, reach_ship, aim, aim_ship, locate, resolve, limits, admit,
  decode, identify, check_envelope, handle_transmit,
}
use maritime_simulation.Service.Engine.Ledger.{
  is_outcome, is_total, is_reception, is_lost_ack, Grows, Settles,
}

module _ {W S : Type 0} ⦃fl : Float W⦄ (p : Ports W S) (mp : Msgpack W) (q : Text) where
  -- A rejection stands in none of the four columns.
  reject-Grows :
      (sid sender : Text) (code : ErrorCode) (s : Sim W S)
      → Grows q sid 0 0 0 0 s.trace (reject p sid sender code s).1.trace
  unfolding reject
  reject-Grows sid sender code s = ground arith

  drop_frame-Grows :
      (sid : Text) (pkt : TransmitPacket) (from : Text) (why : Reason) (st : Stat)
      (v : Option (TraversalVerdict W)) (s : Sim W S)
      → is_outcome st ≡ 1
      → is_total st ≡ 0
      → is_reception st ≡ 0
      → is_lost_ack st ≡ 0
      → Grows q sid 0 1 0 0 s.trace (drop_frame p sid pkt from why st v s).1.trace
  unfolding drop_frame emit_packet_event
  drop_frame-Grows sid pkt from why st v s a b c d = ground arith

  handle_duplicate-Grows :
      (sid : Text) (pkt : TransmitPacket) (tx : Text) (dist : W) (params : SessionParams W)
      (v : TraversalVerdict W) (s : Sim W S)
      → Grows q sid 0 1 1 1 s.trace (handle_duplicate p sid pkt tx dist params v s).1.trace
  unfolding handle_duplicate emit_packet_event evaluate re_ack
  handle_duplicate-Grows sid pkt tx dist params v s = ground arith

  forward_to_node-Grows :
      (sid : Text) (pkt : TransmitPacket) (tx : Text) (v : TraversalVerdict W) (s : Sim W S)
      → Grows q sid 0 1 0 0 s.trace (forward_to_node p sid pkt tx v s).1.trace
  unfolding forward_to_node emit_packet_event
  forward_to_node-Grows sid pkt tx v s = ground arith

  deliver_to_edge-Grows :
      (sid : Text) (pkt : TransmitPacket) (payload : List ℕ) (edge : Edge W) (tx : Text) (dist : W)
      (params : SessionParams W) (v : TraversalVerdict W) (s : Sim W S)
      → Grows q sid 0 1 1 1 s.trace
          (deliver_to_edge p mp sid pkt payload edge tx dist params v s).1.trace
  unfolding deliver_to_edge emit_packet_event evaluate edge_ack decode_frame
  deliver_to_edge-Grows sid pkt payload edge tx dist params v s = ground arith

  abbrev Settled : Text → ℕ → ℕ → Sim W S → Sim W S → Type 0
  Settled sid total outcome s t = Settles q sid total outcome s.trace t.trace

  dedup-Settles :
      (r : Result Bool) (sid : Text) (pkt : TransmitPacket) (payload : List ℕ) (e : Option (Edge W))
      (tx : Text) (dist : W) (params : SessionParams W) (v : TraversalVerdict W) (s : Sim W S)
      → Settled sid 0 1 s (dedup p mp r sid pkt payload e tx dist params v s).1
  unfolding dedup hand_on
  dedup-Settles (err _) sid pkt payload e tx dist params v s = ground arith
  dedup-Settles (ok false) sid pkt payload e tx dist params v s =
      ground (arith, handle_duplicate-Grows sid pkt tx dist params v s)
  dedup-Settles (ok true) sid pkt payload (some edge) tx dist params v s =
      ground (arith, deliver_to_edge-Grows sid pkt payload edge tx dist params v s)
  dedup-Settles (ok true) sid pkt payload none tx dist params v s =
      ground (arith, forward_to_node-Grows sid pkt tx v s)

  judge-Settles :
      (sid : Text) (pkt : TransmitPacket) (payload : List ℕ) (e : Option (Edge W)) (tx : Text)
      (dist : W) (params : SessionParams W) (v : TraversalVerdict W) (s : Sim W S)
      → Settled sid 0 1 s (judge p mp sid pkt payload e tx dist params v s).1
  unfolding judge receive
  judge-Settles sid pkt payload e tx dist params v s =
      let r = p.mark_packet_seen sid pkt.packet_id pkt.target_parent s.world in
      ground (
        arith,
        drop_frame-Grows sid pkt tx out_of_range dropped_out_of_range (some v) s refl refl refl
            refl,
        drop_frame-Grows sid pkt tx air_loss dropped_air_loss (some v) s refl refl refl refl,
        dedup-Settles r.0 sid pkt payload e tx dist params v (record s { world = r.1 }),
      )

  fly-Settles :
      (sid : Text) (pkt : TransmitPacket) (payload : List ℕ) (e : Option (Edge W)) (tx : Text)
      (tx_pos : NodePosition W) (lat lng : W) (params : SessionParams W) (s : Sim W S)
      → Settled sid 0 1 s (fly p mp sid pkt payload e tx tx_pos lat lng params s).1
  unfolding fly evaluate
  fly-Settles sid pkt payload e tx tx_pos lat lng params s =
      judge-Settles sid pkt payload e tx _ params _ _

  reach_ship-Settles :
      (r : Result (NodePosition W)) (sid : Text) (pkt : TransmitPacket) (payload : List ℕ)
      (tx : Text) (tx_pos : NodePosition W) (params : SessionParams W) (s : Sim W S)
      → Settled sid 0 1 s (reach_ship p mp r sid pkt payload tx tx_pos params s).1
  unfolding reach_ship
  reach_ship-Settles (ok t) sid pkt payload tx tx_pos params s =
      fly-Settles sid pkt payload none tx tx_pos t.lat t.lng params s
  reach_ship-Settles (err not_found) sid pkt payload tx tx_pos params s = ground (
    arith,
    drop_frame-Grows sid pkt tx target_no_position dropped_no_position none s refl refl refl refl,
  )
  reach_ship-Settles (err _) sid pkt payload tx tx_pos params s = ground arith

  aim-Settles :
      (sid : Text) (pkt : TransmitPacket) (payload : List ℕ) (e : Option (Edge W)) (tx : Text)
      (tx_pos : NodePosition W) (params : SessionParams W) (s : Sim W S)
      → Settled sid 0 1 s (aim p mp sid pkt payload e tx tx_pos params s).1
  unfolding aim aim_ship
  aim-Settles sid pkt payload (some edge) tx tx_pos params s =
      fly-Settles sid pkt payload (some edge) tx tx_pos edge.latitude edge.longitude params s
  aim-Settles sid pkt payload none tx tx_pos params s =
      elim (Bool-cases (p.node_online sid pkt.target_parent s.world)) [
        | inl online ↦ rw online (reach_ship-Settles _ sid pkt payload tx tx_pos params _)
        | inr offline ↦ rw offline (
            ground (
              arith,
              drop_frame-Grows sid pkt tx target_offline dropped_target_offline none s refl refl
                  refl refl,
            ))
      ]

  locate-Settles :
      (r : Result (NodePosition W)) (sid : Text) (pkt : TransmitPacket) (payload : List ℕ)
      (e : Option (Edge W)) (tx : Text) (params : SessionParams W) (s : Sim W S)
      → Settled sid 0 1 s (locate p mp r sid pkt payload e tx params s).1
  unfolding locate
  locate-Settles (ok tx_pos) sid pkt payload e tx params s =
      aim-Settles sid pkt payload e tx tx_pos params s
  locate-Settles (err not_found) sid pkt payload e tx params s = ground (
    arith,
    drop_frame-Grows sid pkt tx transmitter_no_position dropped_no_position none s refl refl refl
        refl,
  )
  locate-Settles (err _) sid pkt payload e tx params s = ground arith

  resolve-Settles :
      (r : Result (Option (Edge W))) (sid : Text) (pkt : TransmitPacket) (payload : List ℕ)
      (tx : Text) (params : SessionParams W) (s : Sim W S)
      → Settled sid 0 1 s (resolve p mp r sid pkt payload tx params s).1
  unfolding resolve
  resolve-Settles (ok e) sid pkt payload tx params s =
      locate-Settles _ sid pkt payload e tx params _
  resolve-Settles (err _) sid pkt payload tx params s = ground arith

  -- The cache leaves the record alone.
  get_edge-trace : (code : Text) (s : Sim W S) → (get_edge p code s).1.trace ≡ s.trace
  unfolding get_edge reload refresh store_edges
  get_edge-trace code s = ground arith

  limits-Settles :
      (sid : Text) (pkt : TransmitPacket) (payload : List ℕ) (tx : Text) (params : SessionParams W)
      (s : Sim W S)
      → Settled sid 0 1 s (limits p mp sid pkt payload tx params s).1
  unfolding limits
  limits-Settles sid pkt payload tx params s =
      let g = get_edge p pkt.target_parent s in
      ground (
        arith,
        drop_frame-Grows sid pkt tx sf_limit_exceeded dropped_sf_limit none s refl refl refl refl,
        drop_frame-Grows sid pkt tx max_hops_exceeded dropped_max_hops none s refl refl refl refl,
        get_edge-trace pkt.target_parent s,
        resolve-Settles g.0 sid pkt payload tx params g.1,
      )

  -- A frame for which the session is found counts as one transmission, with one outcome.
  admit-Settles :
      (r : Result (SessionParams W)) (sid sender : Text) (pkt : TransmitPacket) (payload : List ℕ)
      (tx : Text) (s : Sim W S)
      → (n : ℕ) × Settled sid n n s (admit p mp r sid sender pkt payload tx s).1
  unfolding admit
  admit-Settles (err _) sid sender pkt payload tx s = (0, ground arith)
  admit-Settles (ok params) sid sender pkt payload tx s = (
    1,
    ground (
      arith,
      limits-Settles sid pkt payload tx params (record s {
        world = p.incr_stat sid transmit_total s.world;
        trace = bumped sid transmit_total ∷ s.trace;
      }),
    ),
  )

  decode-Settles :
      (r : Option (List ℕ)) (sid sender : Text) (pkt : TransmitPacket) (tx : Text) (s : Sim W S)
      → (n : ℕ) × Settled sid n n s (decode p mp r sid sender pkt tx s).1
  unfolding decode
  decode-Settles none sid sender pkt tx s =
      (0, ground (arith, reject-Grows sid sender invalid_base64 s))
  decode-Settles (some payload) sid sender pkt tx s =
      let r = p.get_params sid s.world in
      admit-Settles r.0 sid sender pkt payload tx (record s { world = r.1 })

  identify-Settles :
      (r : Option Text) (sid sender : Text) (pkt : TransmitPacket) (s : Sim W S)
      → (n : ℕ) × Settled sid n n s (identify p mp r sid sender pkt s).1
  unfolding identify
  identify-Settles none sid sender pkt s = (0, ground arith)
  identify-Settles (some tx) sid sender pkt s = elim (Bool-cases (text_eq tx sender)) [
    | inr other ↦ rw other (0, ground (arith, reject-Grows sid sender transmitter_mismatch s))
    | inl same ↦
        rw same (decode-Settles (p.decode_base64 pkt.binary_payload_b64) sid sender pkt tx s)
  ]

  check_envelope-Settles :
      (r : Result (Unit {0})) (sid sender : Text) (pkt : TransmitPacket) (s : Sim W S)
      → (n : ℕ) × Settled sid n n s (check_envelope p mp r sid sender pkt s).1
  unfolding check_envelope
  check_envelope-Settles (err _) sid sender pkt s =
      (0, ground (arith, reject-Grows sid sender invalid_envelope s))
  check_envelope-Settles (ok _) sid sender pkt s =
      identify-Settles (transmitter pkt) sid sender pkt s

  -- Whatever the repositories, the sockets and the dice answer: a transmission of the session
  -- `sid` adds a number to the session's count of transmissions, and the same number to its
  -- outcomes; each frame delivered to an edge and each duplicate is answered with one
  -- acknowledgement that is sent or counted as lost; and the books of other sessions stay.
  pub handle_transmit-Settles :
      (sid sender : Text) (pkt : TransmitPacket) (s : Sim W S)
      → (n : ℕ) × Settled sid n n s (handle_transmit p mp sid sender pkt s).1
  unfolding handle_transmit
  handle_transmit-Settles sid sender pkt s = check_envelope-Settles (validate pkt) sid sender pkt s
