-- ===== src/Service/Engine/Admission.antt =====
-- What a transmission has passed when the engine hands it on: stage by stage.
use maritime_simulation.Base.{
  ℕ, ◌+◌, ◌≡◌, inl, inr, ◌⊎◌, Bool, true, false, List, Option, none, some, arith, Bool-cases, refl,
  subst, sym,
}
use maritime_simulation.Base.Text.{Text}
use maritime_simulation.Floats.{Float}
use maritime_simulation.Domain.Errors.{Result, ok, err, not_found}
use maritime_simulation.Domain.Entities.{Edge, NodePosition, TransmitPacket}
use maritime_simulation.Domain.Geo.{haversine_km}
use maritime_simulation.Domain.Schema.{Msgpack}
use maritime_simulation.Protocol.{
  Message, ErrorCode, receive_rf, Reason, air_loss, out_of_range, target_offline,
  target_no_position, transmitter_no_position,
}
use maritime_simulation.Service.Ports.{
  Ports, SessionParams, Stat, dropped_air_loss, dropped_out_of_range, dropped_no_position,
  dropped_target_offline, Sim, Effect, inserted, sent,
}
use maritime_simulation.Service.Anomaly.{TraversalVerdict, evaluate}
use maritime_simulation.Service.Engine.Frames.{
  emit_packet_event, reject, drop_frame, re_ack, handle_duplicate, forward_to_node, decode_frame,
  edge_ack, deliver_to_edge,
}
use maritime_simulation.Service.Engine.Transmit.{
  hand_on, dedup, receive, judge, fly, reach_ship, aim, aim_ship, locate, resolve,
}
use maritime_simulation.Service.Engine.Ledger.{tally}

module _ {W : Type 0} where
  abbrev is_relay : Message W → ℕ
  is_relay (receive_rf _) = 1
  is_relay _ = 0

  -- A telemetry row, or a frame put on the air towards the next ship.
  abbrev pub is_hand_on : Effect W → ℕ
  is_hand_on (inserted _) = 1
  is_hand_on (sent _ _ m) = is_relay m
  is_hand_on _ = 0

  -- How many frames the record of effects hands on.
  abbrev pub handed_on : List (Effect W) → ℕ
  handed_on = tally is_hand_on

module _ {W S : Type 0} where
  abbrev pub Stays : Sim W S → Sim W S → Type 0
  Stays s t = handed_on t.trace ≡ handed_on s.trace

  abbrev pub Hands : Sim W S → Sim W S → Type 0
  Hands s t = handed_on t.trace ≡ handed_on s.trace + 1

  -- Nothing was handed on, or one frame was and `P` holds.
  abbrev pub OnlyIf : Type 0 → Sim W S → Sim W S → Type 0
  OnlyIf P s t = Stays s t ⊎ (Hands s t × P)

  pub only_if : {P Q : Type 0} → (s t : Sim W S) → (P → Q) → OnlyIf P s t → OnlyIf Q s t
  only_if s t f (inl h) = inl h
  only_if s t f (inr (h, x)) = inr (h, f x)

module _ {W S : Type 0} ⦃fl : Float W⦄ (p : Ports W S) (mp : Msgpack W) where
  pub reject-Stays :
      (sid sender : Text) (code : ErrorCode) (s : Sim W S) → Stays s (reject p sid sender code s).1
  unfolding reject
  reject-Stays sid sender code s = ground arith

  pub drop_frame-Stays :
      (sid : Text) (pkt : TransmitPacket) (from : Text) (why : Reason) (st : Stat)
      (v : Option (TraversalVerdict W)) (s : Sim W S)
      → Stays s (drop_frame p sid pkt from why st v s).1
  unfolding drop_frame emit_packet_event
  drop_frame-Stays sid pkt from why st v s = ground arith

  hand_on-Hands :
      (sid : Text) (pkt : TransmitPacket) (payload : List ℕ) (e : Option (Edge W)) (tx : Text)
      (dist : W) (params : SessionParams W) (v : TraversalVerdict W) (s : Sim W S)
      → Hands s (hand_on p mp sid pkt payload e tx dist params v s).1
  unfolding hand_on deliver_to_edge forward_to_node emit_packet_event evaluate edge_ack decode_frame
  hand_on-Hands sid pkt payload (some edge) tx dist params v s = ground arith
  hand_on-Hands sid pkt payload none tx dist params v s = ground arith

  dedup-OnlyIf :
      (r : Result Bool) (sid : Text) (pkt : TransmitPacket) (payload : List ℕ) (e : Option (Edge W))
      (tx : Text) (dist : W) (params : SessionParams W) (v : TraversalVerdict W) (s : Sim W S)
      → OnlyIf (r ≡ ok true) s (dedup p mp r sid pkt payload e tx dist params v s).1
  unfolding dedup handle_duplicate emit_packet_event evaluate re_ack
  dedup-OnlyIf (err _) sid pkt payload e tx dist params v s = inl (ground arith)
  dedup-OnlyIf (ok false) sid pkt payload e tx dist params v s = inl (ground arith)
  dedup-OnlyIf (ok true) sid pkt payload e tx dist params v s =
      inr (hand_on-Hands sid pkt payload e tx dist params v s, refl)

  -- The store of packets seen, asked in this state, takes the frame for a new one.
  abbrev pub IsNew : Text → TransmitPacket → Sim W S → Type 0
  IsNew sid pkt s = (p.mark_packet_seen sid pkt.packet_id pkt.target_parent s.world).0 ≡ ok true

  -- The roll for this distance in this state lets the frame through, and then it is new.
  abbrev pub IsHeard : Text → TransmitPacket → SessionParams W → W → Sim W S → Type 0
  IsHeard sid pkt params dist s =
      let (v, t) = evaluate p dist params s in (v.dropped ≡ false) × IsNew sid pkt t

  -- The position of the next ship has been read as `r`.
  abbrev pub ReachesShip :
      Text
      → TransmitPacket
      → SessionParams W
      → NodePosition W
      → Result (NodePosition W)
      → Sim W S
      → Type 0
  ReachesShip sid pkt params tx_pos r s =
      (t : NodePosition W) × (r ≡ ok t)
      × IsHeard sid pkt params (haversine_km tx_pos.lat tx_pos.lng t.lat t.lng) s

  -- The target is an edge, or a ship that is online and whose position is read next.
  abbrev pub ReachesTarget :
      Text → TransmitPacket → SessionParams W → NodePosition W → Option (Edge W) → Sim W S → Type 0
  ReachesTarget sid pkt params tx_pos (some e) s =
      IsHeard sid pkt params (haversine_km tx_pos.lat tx_pos.lng e.latitude e.longitude) s
  ReachesTarget sid pkt params tx_pos none s =
      (p.node_online sid pkt.target_parent s.world ≡ true)
      × (let (r, w) = p.position sid pkt.target_parent s.world in
          ReachesShip sid pkt params tx_pos r (record s { world = w }))

  -- The position of the transmitter has been read as `r`.
  abbrev pub LeavesShip :
      Text
      → TransmitPacket
      → SessionParams W
      → Option (Edge W)
      → Result (NodePosition W)
      → Sim W S
      → Type 0
  LeavesShip sid pkt params e r s =
      (tx_pos : NodePosition W) × (r ≡ ok tx_pos) × ReachesTarget sid pkt params tx_pos e s

  -- The target has been looked up among the edges, with `r`.
  abbrev pub Travels :
      Text → TransmitPacket → SessionParams W → Text → Result (Option (Edge W)) → Sim W S → Type 0
  Travels sid pkt params tx r s =
      (e : Option (Edge W)) × (r ≡ ok e)
      × (let (q, w) = p.position sid tx s.world in
          LeavesShip sid pkt params e q (record s { world = w }))

  judge-dropped :
      (sid : Text) (pkt : TransmitPacket) (payload : List ℕ) (e : Option (Edge W)) (tx : Text)
      (dist : W) (params : SessionParams W) (v : TraversalVerdict W) (s : Sim W S)
      → v.dropped ≡ true
      → Stays s (judge p mp sid pkt payload e tx dist params v s).1
  unfolding judge
  judge-dropped sid pkt payload e tx dist params v s h = ground (
    arith,
    drop_frame-Stays sid pkt tx out_of_range dropped_out_of_range (some v) s,
    drop_frame-Stays sid pkt tx air_loss dropped_air_loss (some v) s,
  )

  judge-received :
      (sid : Text) (pkt : TransmitPacket) (payload : List ℕ) (e : Option (Edge W)) (tx : Text)
      (dist : W) (params : SessionParams W) (v : TraversalVerdict W) (s : Sim W S)
      → v.dropped ≡ false
      → judge p mp sid pkt payload e tx dist params v s
        ≡ receive p mp sid pkt payload e tx dist params v s
  unfolding judge
  judge-received sid pkt payload e tx dist params v s h = ground arith

  judge-OnlyIf :
      (sid : Text) (pkt : TransmitPacket) (payload : List ℕ) (e : Option (Edge W)) (tx : Text)
      (dist : W) (params : SessionParams W) (v : TraversalVerdict W) (s : Sim W S)
      → OnlyIf
          ((v.dropped ≡ false) × IsNew sid pkt s)
          s
          (judge p mp sid pkt payload e tx dist params v s).1
  unfolding receive
  judge-OnlyIf sid pkt payload e tx dist params v s = elim (Bool-cases v.dropped) [
    | inl lost ↦ inl (judge-dropped sid pkt payload e tx dist params v s lost)
    | inr heard ↦
        let r = p.mark_packet_seen sid pkt.packet_id pkt.target_parent s.world in
        let t = record s { world = r.1 } in
        subst (λ y. OnlyIf ((v.dropped ≡ false) × IsNew sid pkt s) s y.1)
          (sym (judge-received sid pkt payload e tx dist params v s heard))
          (only_if s (dedup p mp r.0 sid pkt payload e tx dist params v t).1 (λ new. (heard, new))
            (dedup-OnlyIf r.0 sid pkt payload e tx dist params v t))
  ]

  reach_ship-OnlyIf :
      (r : Result (NodePosition W)) (sid : Text) (pkt : TransmitPacket) (payload : List ℕ)
      (tx : Text) (tx_pos : NodePosition W) (params : SessionParams W) (s : Sim W S)
      → OnlyIf
          (ReachesShip sid pkt params tx_pos r s)
          s
          (reach_ship p mp r sid pkt payload tx tx_pos params s).1
  unfolding reach_ship fly evaluate
  reach_ship-OnlyIf (ok t) sid pkt payload tx tx_pos params s =
      only_if s (reach_ship p mp (ok t) sid pkt payload tx tx_pos params s).1 (λ h. (t, refl, h))
        (judge-OnlyIf sid pkt payload none tx _ params _ _)
  reach_ship-OnlyIf (err not_found) sid pkt payload tx tx_pos params s =
      inl (drop_frame-Stays sid pkt tx target_no_position dropped_no_position none s)
  reach_ship-OnlyIf (err _) sid pkt payload tx tx_pos params s = inl (ground arith)

  aim-OnlyIf :
      (sid : Text) (pkt : TransmitPacket) (payload : List ℕ) (e : Option (Edge W)) (tx : Text)
      (tx_pos : NodePosition W) (params : SessionParams W) (s : Sim W S)
      → OnlyIf
          (ReachesTarget sid pkt params tx_pos e s)
          s
          (aim p mp sid pkt payload e tx tx_pos params s).1
  unfolding aim aim_ship fly evaluate
  aim-OnlyIf sid pkt payload (some edge) tx tx_pos params s =
      judge-OnlyIf sid pkt payload (some edge) tx _ params _ _
  aim-OnlyIf sid pkt payload none tx tx_pos params s =
      elim (Bool-cases (p.node_online sid pkt.target_parent s.world)) [
        | inl online ↦
            let r = p.position sid pkt.target_parent s.world in
            let t = record s { world = r.1 } in
            rw online (
              only_if s (reach_ship p mp r.0 sid pkt payload tx tx_pos params t).1 (λ h. (refl, h))
                (reach_ship-OnlyIf r.0 sid pkt payload tx tx_pos params t))
        | inr offline ↦
            rw offline
              (inl (drop_frame-Stays sid pkt tx target_offline dropped_target_offline none s))
      ]

  locate-OnlyIf :
      (r : Result (NodePosition W)) (sid : Text) (pkt : TransmitPacket) (payload : List ℕ)
      (e : Option (Edge W)) (tx : Text) (params : SessionParams W) (s : Sim W S)
      → OnlyIf (LeavesShip sid pkt params e r s) s (locate p mp r sid pkt payload e tx params s).1
  unfolding locate
  locate-OnlyIf (ok tx_pos) sid pkt payload e tx params s =
      only_if s (aim p mp sid pkt payload e tx tx_pos params s).1 (λ h. (tx_pos, refl, h))
        (aim-OnlyIf sid pkt payload e tx tx_pos params s)
  locate-OnlyIf (err not_found) sid pkt payload e tx params s =
      inl (drop_frame-Stays sid pkt tx transmitter_no_position dropped_no_position none s)
  locate-OnlyIf (err _) sid pkt payload e tx params s = inl (ground arith)

  pub resolve-OnlyIf :
      (r : Result (Option (Edge W))) (sid : Text) (pkt : TransmitPacket) (payload : List ℕ)
      (tx : Text) (params : SessionParams W) (s : Sim W S)
      → OnlyIf (Travels sid pkt params tx r s) s (resolve p mp r sid pkt payload tx params s).1
  unfolding resolve
  resolve-OnlyIf (err _) sid pkt payload tx params s = inl (ground arith)
  resolve-OnlyIf (ok e) sid pkt payload tx params s =
      let r = p.position sid tx s.world in
      only_if s (locate p mp r.0 sid pkt payload e tx params (record s { world = r.1 })).1
        (λ h. (e, refl, h))
        (locate-OnlyIf r.0 sid pkt payload e tx params (record s { world = r.1 }))
