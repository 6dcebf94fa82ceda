-- ===== src/Nodesim/Reader/Frames.antt =====
-- The frames of a ship, judged by the checks of the server on an envelope.
use maritime_simulation.Base.{
  ℕ, ◌+◌, ◌≤◌, ◌≡◌, refl, sym, ap, subst, ◌∙◌, arith, List, [], ◌∷◌, ◌++◌, some, All-append, length,
  length-append,
}
use maritime_simulation.Base.Int.{pos, ◌+ℤ◌, ◌≤ℤ◌}
use maritime_simulation.Base.Text.{Text}
use maritime_simulation.Floats.{Float}
use maritime_simulation.Domain.Errors.{ok}
use maritime_simulation.Domain.Packet.{validate, transmitter, last}
use maritime_simulation.Domain.Packet.Validity.{IsId, validate_iff}
use maritime_simulation.Nodesim.Ship.{TransmitFrame}
use maritime_simulation.Nodesim.Payload.{ClientLib}
use maritime_simulation.Nodesim.Reader.{relay_frame, origin_frame, packet_name}

-- The hop count is the number of ships on the path.
abbrev pub IsCounted : TransmitFrame → Type 0
IsCounted f = f.hop_count ≡ pos (length f.routing_path)

-- The server accepts the frame from the ship, and its hop count is right.
abbrev pub IsSendable : Text → TransmitFrame → Type 0
IsSendable id f = (validate f ≡ ok tt) × (transmitter f ≡ some id) × IsCounted f

last-append : (path : List Text) (x : Text) → last (path ++ (x ∷ [])) ≡ some x
unfolding last
last-append [] x = refl
last-append (y ∷ []) x = refl
last-append (y ∷ z ∷ path) x = last-append (z ∷ path) x

pos_suc : (n : ℕ) → pos n +ℤ pos 1 ≡ pos (n + 1)
unfolding ◌+ℤ◌
pos_suc n = ground arith

-- A ship with an identifier and a parent that the server accepts passes on a frame that the server
-- accepts as the ship's, with one more hop, if the server accepts the frame, its hop count is the
-- length of its path and at most five ships carried it.
pub relay_frame-IsSendable :
    (id parent : Text) (f : TransmitFrame)
    → IsId id
    → IsId parent
    → validate f ≡ ok tt
    → IsCounted f
    → length f.routing_path ≤ 5
    → IsSendable id (relay_frame id parent f)
unfolding relay_frame transmitter
relay_frame-IsSendable id parent f i j v c h =
    let e = (validate_iff f).0 v in
    let n = length-append f.routing_path (id ∷ []) in
    let counted : f.hop_count +ℤ pos 1 ≡ pos (length (f.routing_path ++ (id ∷ []))) =
      ap (λ h. h +ℤ pos 1) c ∙ (pos_suc (length f.routing_path) ∙ ap pos (sym n)) in
    (
      (validate_iff (relay_frame id parent f)).1 (record {
        packet = e.packet;
        origin = e.origin;
        target = j;
        hops = subst (λ h. pos 1 ≤ℤ h) (sym counted) (omega arith);
        nonempty = omega arith;
        short = omega arith;
        payload = e.payload;
        path = All-append IsId f.routing_path (id ∷ []) e.path (i, tt);
      }),
      last-append f.routing_path id,
      counted,
    )

module _ {W S : Type 0} ⦃fl : Float W⦄ (l : ClientLib W S) where
  -- The report that a ship starts is accepted as the ship's, if the server accepts the ship's
  -- identifier, its parent's and the packet's, and the payload is not empty.
  origin_frame-IsSendable :
      (id parent : Text) (seq : ℕ) (raw : List ℕ)
      → IsId id
      → IsId parent
      → IsId (packet_name l id seq)
      → 1 ≤ length (l.encode_base64 raw)
      → IsSendable id (origin_frame l id parent seq raw)
  unfolding origin_frame transmitter last
  origin_frame-IsSendable id parent seq raw i j k h = (
    (validate_iff (origin_frame l id parent seq raw)).1 (record {
      packet = k;
      origin = i;
      target = j;
      hops = omega arith;
      nonempty = omega arith;
      short = omega arith;
      payload = h;
      path = (i, tt);
    }),
    refl,
    refl,
  )
