-- ===== src/Nodesim/Reader.antt =====
-- cmd/nodesim/main.go: `reader`, `handleReceive` and `transmitTelemetry`.
pub mod Frames
use maritime_simulation.Base.{
  ℕ, suc, ◌+◌, Bool, true, false, not, ◌&&◌, ◌||◌, List, [], ◌∷◌, ◌++◌, Option, none, some,
  if◌then◌else◌, length,
}
use maritime_simulation.Base.Int.{ℤ, pos, pos_part, ltb_ℤ, ◌+ℤ◌}
use maritime_simulation.Base.Text.{Text, codes, text_eq}
use maritime_simulation.Base.Dict.{lookup, insert, erase}
use maritime_simulation.Floats.{Float}
use maritime_simulation.Domain.Packet.{is_empty}
use maritime_simulation.Domain.Schema.{SchemaField}
use maritime_simulation.Nodesim.Ship.{
  Ship, TransmitFrame, ack_message, write_json, close_chan, spawn,
}
use maritime_simulation.Nodesim.Payload.{ClientLib, build_payload}

-- A message of the server, by the event that it names and the fields that the reader takes from
-- it. `ignored` is one that does not decode, or whose event the reader does not know; `broken` is
-- an error of the socket.
pub data Inbound : Type 0 where
  sync_params : (max_payload_bytes ack_timeout_ms : ℤ) → Inbound
  schema_sync : List SchemaField → Inbound
  routing_update : (parent_target : Text) (parent_is_edge : Bool) (status : Text) → Inbound
  receive_rf : TransmitFrame → Inbound
  mesh_ack : (packet_id : Text) (duplicate : Bool) → Inbound
  session_ended ignored broken : Inbound

-- The frame that a ship passes on: `fwd`.
unfoldable pub relay_frame : Text → Text → TransmitFrame → TransmitFrame
relay_frame id parent pkt = record pkt {
  event = codes "node:transmit";
  target_parent = parent;
  hop_count = pkt.hop_count +ℤ pos 1;
  routing_path = pkt.routing_path ++ (id ∷ []);
}

module _ {W : Type 0} where
  abbrev pub hear : Text → Ship W → Ship W
  hear k s = record s { heard = k ∷ s.heard }

  -- The branch of `mesh:ack`, on the channel that waits for the packet.
  unfoldable pub release : Option ℕ → Text → Ship W → Ship W
  release none k s = s
  release (some chan) k s = close_chan chan (record s { waiters = erase k s.waiters })

  -- One round of `reader`.
  unfoldable pub read_message : Inbound → Ship W → Ship W
  read_message (sync_params max_payload_bytes ack_timeout_ms) s =
      if ltb_ℤ (pos 0) ack_timeout_ms
      then record s { ack_timeout = pos_part ack_timeout_ms; max_payload = max_payload_bytes }
      else s
  read_message (schema_sync fields) s = record s { fields = fields }
  read_message (routing_update parent_target parent_is_edge status) s = record s {
    parent = parent_target;
    parent_is_edge = parent_is_edge;
    is_routed = text_eq status (codes "routed");
  }
  read_message (receive_rf pkt) s = record s {
    stats = record s.stats { received = s.stats.received + 1 };
    inbox = pkt ∷ s.inbox;
  }
  read_message (mesh_ack packet_id duplicate) s =
      release (lookup packet_id s.waiters) packet_id (hear packet_id s)
  read_message session_ended s = record s { reading = false }
  read_message ignored s = s
  read_message broken s = record s { reading = false }

  -- The reader's loop, which `session:ended` and an error of the socket leave.
  unfoldable pub reader : Inbound → Ship W → Ship W
  reader m s = if s.reading then read_message m s else s

  -- What stands behind the section on `seen`.
  unfoldable pub forward : TransmitFrame → Ship W → Ship W
  forward pkt s =
      if not s.is_routed || is_empty s.parent
      then s
      else spawn true (relay_frame s.id s.parent pkt)
          (record s { stats = record s.stats { forwarded = s.stats.forwarded + 1 } })

  unfoldable pub receive_once : Option Bool → TransmitFrame → Ship W → Ship W
  receive_once (some _) pkt s = record s {
    stats = record s.stats { dup_seen = s.stats.dup_seen + 1 };
  }
  receive_once none pkt s = forward pkt (record s { seen = insert pkt.packet_id true s.seen })

  -- handleReceive, where `ok` says whether the socket takes the acknowledgement. The map `seen`
  -- has no false entries, so that its key decides.
  unfoldable pub handle_receive : Bool → TransmitFrame → Ship W → Ship W
  handle_receive ok pkt s = receive_once (lookup pkt.packet_id s.seen) pkt (
      write_json ok
        (ack_message
          (record { packet_id = pkt.packet_id; receiver_node = s.id; status = codes "received" }))
        s)

module _ {W S : Type 0} ⦃fl : Float W⦄ (l : ClientLib W S) where
  -- The packet id of a ship's own report.
  unfoldable pub packet_name : Text → ℕ → Text
  packet_name id seq = codes "pkt-" ++ (id ++ (codes "-" ++ l.four_digits seq))

  -- The frame of a ship's own report.
  unfoldable pub origin_frame : Text → Text → ℕ → List ℕ → TransmitFrame
  origin_frame id parent seq raw = record {
    event = codes "node:transmit";
    packet_id = packet_name id seq;
    origin_node = id;
    target_parent = parent;
    hop_count = pos 1;
    routing_path = id ∷ [];
    binary_payload_b64 = l.encode_base64 raw;
  }

  -- What stands behind `msgpack.Marshal`.
  unfoldable pub send_report : Option (List ℕ) → ℕ → Ship W → Ship W
  send_report none seq s = s
  send_report (some raw) seq s =
      if ltb_ℤ s.max_payload (pos (length raw)) && not s.opt.ignore_sf
      then s
      else spawn false (origin_frame s.id s.parent seq raw) s

  -- transmitTelemetry, with the state of its random source.
  unfoldable pub transmit_telemetry : S → Ship W → Ship W
  transmit_telemetry r s =
      let seq : ℕ = suc s.pkt_seq in
      let counted : Ship W = record s { pkt_seq = seq } in
      if not s.is_routed || is_empty s.parent
      then counted
      else send_report (l.marshal (build_payload l s.lat s.lng s.fields r)) seq counted
