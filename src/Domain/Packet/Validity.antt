-- ===== src/Domain/Packet/Validity.antt =====
-- What `Validate` accepts.
use maritime_simulation.Base.{◌≤◌, ◌≡◌, ◌↔◌, arith, List, [], ◌∷◌, some, All, length, refl}
use maritime_simulation.Base.Int.{pos, ◌≤ℤ◌}
use maritime_simulation.Base.Text.{Text}
use maritime_simulation.Domain.Errors.{ok}
use maritime_simulation.Domain.Entities.{TransmitPacket}
use maritime_simulation.Domain.Packet.{validate, validate_path, transmitter, last}

-- An identifier of 1 to 100 bytes.
abbrev pub IsId : Text → Type 0
IsId t = (1 ≤ length t) × (length t ≤ 100)

-- The envelope that the protocol asks for.
pub record IsEnvelope (p : TransmitPacket) : Type 0 where
  pub packet : IsId p.packet_id
  pub origin : IsId p.origin_node
  pub target : IsId p.target_parent
  pub hops : pos 1 ≤ℤ p.hop_count
  pub nonempty : 1 ≤ length p.routing_path
  pub short : length p.routing_path ≤ 6
  pub payload : 1 ≤ length p.binary_payload_b64
  pub path : All IsId p.routing_path

validate_path_iff : (path : List Text) → (validate_path path ≡ ok tt) ↔ All IsId path
unfolding validate_path
validate_path_iff [] = (λ _. tt, λ _. refl)
validate_path_iff (hop ∷ rest) =
    let (f, g) = validate_path_iff rest in
    (λ h. (ground arith, f (ground arith)), λ (i, r). ground (arith, g r))

-- `Validate` accepts exactly the envelopes of the protocol.
pub validate_iff : (p : TransmitPacket) → (validate p ≡ ok tt) ↔ IsEnvelope p
unfolding validate
validate_iff p =
    let (f, g) = validate_path_iff p.routing_path in
    (
      λ h. record {
        packet = ground arith;
        origin = ground arith;
        target = ground arith;
        hops = ground arith;
        nonempty = ground arith;
        short = ground arith;
        payload = ground arith;
        path = f (ground arith);
      },
      λ h. ground (arith, g h.path),
    )

last-some :
    (path : List Text)
    → 1 ≤ length path
    → All IsId path
    → (tx : Text) × (last path ≡ some tx) × IsId tx
unfolding last
last-some [] h _ = ground arith
last-some (x ∷ []) h (i, _) = (x, refl, i)
last-some (x ∷ y ∷ rest) h (_, i) = last-some (y ∷ rest) (omega arith) i

-- An accepted frame has a transmitter, which is a ship's identifier: reading it never panics.
pub validate-transmitter :
    (p : TransmitPacket) → validate p ≡ ok tt → (tx : Text) × (transmitter p ≡ some tx) × IsId tx
unfolding transmitter
validate-transmitter p h =
    let e = (validate_iff p).0 h in last-some p.routing_path e.nonempty e.path
