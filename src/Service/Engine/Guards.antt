-- ===== src/Service/Engine/Guards.antt =====
-- The guards of HandleTransmit: what has been checked of a frame that the engine hands on.
use maritime_simulation.Base.{
  ℕ, ◌+◌, ◌≤◌, ◌≡◌, inl, inr, false, List, ◌∷◌, Option, none, some, arith, Bool-cases, refl, length,
  ap, ltb, ◌∙◌, subst,
}
use maritime_simulation.Base.Int.{ℤ, pos, ◌≤ℤ◌, ltb_ℤ}
use maritime_simulation.Base.Text.{Text, text_eq, text_eq→eq}
use maritime_simulation.Floats.{Float}
use maritime_simulation.Domain.Errors.{Result, ok, err}
use maritime_simulation.Domain.Entities.{TransmitPacket}
use maritime_simulation.Domain.Lora.{max_payload_bytes}
use maritime_simulation.Domain.Packet.{validate, transmitter, max_hops}
use maritime_simulation.Domain.Schema.{Msgpack}
use maritime_simulation.Protocol.{
  sf_limit_exceeded, max_hops_exceeded, invalid_base64, invalid_envelope, transmitter_mismatch,
}
use maritime_simulation.Service.Ports.{
  Ports, SessionParams, incr_stat, dropped_sf_limit, dropped_max_hops, Sim, bumped, transmit_total,
}
use maritime_simulation.Service.Engine.Cache.{get_edge, reload, refresh, store_edges}
use maritime_simulation.Service.Engine.Transmit.{
  resolve, limits, admit, decode, identify, check_envelope, handle_transmit,
}
use maritime_simulation.Service.Engine.Admission.{
  OnlyIf, only_if, reject-Stays, drop_frame-Stays, resolve-OnlyIf, Travels, handed_on,
}

at_most : (m n : ℕ) → ltb m n ≡ false → n ≤ m
at_most m n h = ground arith

near_enough : (h : ℤ) → ltb_ℤ (pos max_hops) h ≡ false → h ≤ℤ pos max_hops
near_enough h e = ground arith

from_same :
    {W S P : Type 0}
    → (s s' t : Sim W S) → handed_on s'.trace ≡ handed_on s.trace
    → OnlyIf P s' t
    → OnlyIf P s t
from_same s s' t e (inl h) = inl (h ∙ e)
from_same s s' t e (inr (h, x)) = inr (h ∙ ap (λ n. n + 1) e, x)

module _ {W S : Type 0} ⦃fl : Float W⦄ (p : Ports W S) (mp : Msgpack W) where
  -- The frame is within the limits of the radio and of the mesh, and travels; the edges are looked
  -- up in this state.
  abbrev pub Within : Text → TransmitPacket → List ℕ → Text → SessionParams W → Sim W S → Type 0
  Within sid pkt payload tx params s =
      (length payload ≤ max_payload_bytes params.spreading_factor)
      × (pkt.hop_count ≤ℤ pos max_hops)
      × (let (r, t) = get_edge p pkt.target_parent s in Travels p mp sid pkt params tx r t)

  -- The session's parameters have been read as `r`, and the frame, counted, is within their limits.
  abbrev pub Accepted :
      Text → TransmitPacket → List ℕ → Text → Result (SessionParams W) → Sim W S → Type 0
  Accepted sid pkt payload tx r s =
      (params : SessionParams W) × (r ≡ ok params)
      × Within sid pkt payload tx params (incr_stat p sid transmit_total s).1

  -- The payload is valid base64, and the frame is accepted with the parameters that the session
  -- has in this state.
  abbrev pub Decoded : Text → TransmitPacket → Text → Sim W S → Type 0
  Decoded sid pkt tx s =
      (payload : List ℕ) × (p.decode_base64 pkt.binary_payload_b64 ≡ some payload)
      × (let (r, w) = p.get_params sid s.world in
          Accepted sid pkt payload tx r (record s { world = w }))

  get_edge-Stays : (code : Text) (s : Sim W S) → (get_edge p code s).1.trace ≡ s.trace
  unfolding get_edge reload refresh store_edges
  get_edge-Stays code s = ground arith

  limits-OnlyIf :
      (sid : Text) (pkt : TransmitPacket) (payload : List ℕ) (tx : Text) (params : SessionParams W)
      (s : Sim W S)
      → OnlyIf (Within sid pkt payload tx params s) s (limits p mp sid pkt payload tx params s).1
  unfolding limits
  limits-OnlyIf sid pkt payload tx params s =
      let g = get_edge p pkt.target_parent s in
      elim (Bool-cases (ltb (max_payload_bytes params.spreading_factor) (length payload))) [
        | inl long ↦
            rw long
              (inl (drop_frame-Stays p mp sid pkt tx sf_limit_exceeded dropped_sf_limit none s))
        | inr short ↦ elim (Bool-cases (ltb_ℤ (pos max_hops) pkt.hop_count)) [
          | inl far ↦
              rw (short, far)
                (inl (drop_frame-Stays p mp sid pkt tx max_hops_exceeded dropped_max_hops none s))
          | inr near ↦
              rw (short, near)
                (from_same s g.1 (resolve p mp g.0 sid pkt payload tx params g.1).1
                  (ap handed_on (get_edge-Stays pkt.target_parent s))
                  (only_if g.1 (resolve p mp g.0 sid pkt payload tx params g.1).1
                    (λ new. (at_most _ _ short, near_enough pkt.hop_count near, new))
                    (resolve-OnlyIf p mp g.0 sid pkt payload tx params g.1)))
        ]
      ]

  admit-OnlyIf :
      (r : Result (SessionParams W)) (sid sender : Text) (pkt : TransmitPacket) (payload : List ℕ)
      (tx : Text) (s : Sim W S)
      → OnlyIf (Accepted sid pkt payload tx r s) s (admit p mp r sid sender pkt payload tx s).1
  unfolding admit
  admit-OnlyIf (err _) sid sender pkt payload tx s = inl (ground arith)
  admit-OnlyIf (ok params) sid sender pkt payload tx s =
      let t = record s {
        world = p.incr_stat sid transmit_total s.world;
        trace = bumped sid transmit_total ∷ s.trace;
      } in
      let l = (limits p mp sid pkt payload tx params t).1 in
      from_same s t l (omega arith)
        (only_if t l (λ h. (params, refl, h)) (limits-OnlyIf sid pkt payload tx params t))

  decode-OnlyIf :
      (r : Option (List ℕ)) (sid sender : Text) (pkt : TransmitPacket) (tx : Text) (s : Sim W S)
      → OnlyIf
          ((payload : List ℕ) × (r ≡ some payload)
            × (let (q, w) = p.get_params sid s.world in
                Accepted sid pkt payload tx q (record s { world = w })))
          s
          (decode p mp r sid sender pkt tx s).1
  unfolding decode
  decode-OnlyIf none sid sender pkt tx s = inl (reject-Stays p mp sid sender invalid_base64 s)
  decode-OnlyIf (some payload) sid sender pkt tx s =
      let r = p.get_params sid s.world in
      let t = record s { world = r.1 } in
      only_if s (admit p mp r.0 sid sender pkt payload tx t).1 (λ h. (payload, refl, h))
        (admit-OnlyIf r.0 sid sender pkt payload tx t)

  identify-OnlyIf :
      (r : Option Text) (sid sender : Text) (pkt : TransmitPacket) (s : Sim W S)
      → OnlyIf ((r ≡ some sender) × Decoded sid pkt sender s) s (identify p mp r sid sender pkt s).1
  unfolding identify
  identify-OnlyIf none sid sender pkt s = inl refl
  identify-OnlyIf (some tx) sid sender pkt s = elim (Bool-cases (text_eq tx sender)) [
    | inr other ↦ rw other (inl (reject-Stays p mp sid sender transmitter_mismatch s))
    | inl same ↦ rw same (
        only_if s (decode p mp (p.decode_base64 pkt.binary_payload_b64) sid sender pkt tx s).1
          (λ h. (
            ap some (text_eq→eq tx sender same),
            subst (λ y. Decoded sid pkt y s) (text_eq→eq tx sender same) h,
          ))
          (decode-OnlyIf (p.decode_base64 pkt.binary_payload_b64) sid sender pkt tx s))
  ]

  check_envelope-OnlyIf :
      (r : Result (Unit {0})) (sid sender : Text) (pkt : TransmitPacket) (s : Sim W S)
      → OnlyIf
          ((r ≡ ok tt) × (transmitter pkt ≡ some sender) × Decoded sid pkt sender s)
          s
          (check_envelope p mp r sid sender pkt s).1
  unfolding check_envelope
  check_envelope-OnlyIf (err _) sid sender pkt s =
      inl (reject-Stays p mp sid sender invalid_envelope s)
  check_envelope-OnlyIf (ok _) sid sender pkt s =
      only_if s (identify p mp (transmitter pkt) sid sender pkt s).1 (λ (a, b). (refl, a, b))
        (identify-OnlyIf (transmitter pkt) sid sender pkt s)

  -- Whatever the repositories, the sockets and the dice answer: one transmission stores at most
  -- one telemetry row or puts at most one frame on the air, never both. It does so only for a frame
  -- whose envelope is valid, whose last transmitter is the socket's own ship, and whose payload is
  -- base64, if the following hold, each in the state that the calls before it left: the session's
  -- parameters are read, the payload has at most the bytes that their spreading factor allows and
  -- the hop count is at most 5, the edges are known, the transmitter has a position, the target is
  -- an edge or a ship that is online and has a position, the roll for the distance between the two
  -- does not drop the frame, and the store of packets seen takes it for new at its receiver.
  pub handle_transmit-OnlyIf :
      (sid sender : Text) (pkt : TransmitPacket) (s : Sim W S)
      → OnlyIf
          ((validate pkt ≡ ok tt) × (transmitter pkt ≡ some sender) × Decoded sid pkt sender s)
          s
          (handle_transmit p mp sid sender pkt s).1
  unfolding handle_transmit
  handle_transmit-OnlyIf sid sender pkt s = check_envelope-OnlyIf (validate pkt) sid sender pkt s
