-- ===== src/Ws/Gateway.antt =====
-- ws/gateway.go: what a worker does with one inbound frame, and what the connection callbacks do.
-- JSON is a parameter: a reading of a frame's bytes as each of the messages, or none.
use maritime_simulation.Base.{
  ℕ, Bool, true, ◌&&◌, ◌||◌, List, [], ◌∷◌, Option, none, some, leb, ◌==◌, length, if◌then◌else◌,
}
use maritime_simulation.Base.Text.{Text, text_eq, codes}
use maritime_simulation.Floats.{Float}
use maritime_simulation.Domain.Entities.{TransmitPacket}
use maritime_simulation.Domain.Schema.{Msgpack, is_digit, is_letter}
use maritime_simulation.Protocol.{
  NodePing, NodeAck, ErrorCode, error_event, invalid_json, invalid_ping, invalid_transmit,
  invalid_ack, unknown_event,
}
use maritime_simulation.Service.Ports.{Ports, Sim, M, send_to_node}
use maritime_simulation.Service.Engine.Transmit.{handle_transmit}
use maritime_simulation.Service.Engine.Handlers.{
  handle_ping, handle_ack, node_connected, node_disconnected,
}

-- json.Unmarshal of a frame into the envelope and into each of the inbound messages.
pub record Json (W : Type 0) : Type 0 where
  pub envelope : List ℕ → Option Text
  pub ping : List ℕ → Option (NodePing W)
  pub transmit : List ℕ → Option TransmitPacket
  pub ack : List ℕ → Option NodeAck

-- job
pub record Job : Type 0 where
  pub session_id : Text
  pub node_id : Text
  pub raw : List ℕ

abbrev pub node_id_byte : ℕ → Bool
node_id_byte c = is_letter c || is_digit c || c == b'.' || c == b'_' || c == b'-'

abbrev pub all_node_id_bytes : Text → Bool
all_node_id_bytes [] = true
all_node_id_bytes (c ∷ t) = node_id_byte c && all_node_id_bytes t

-- nodeIDRe, `^[A-Za-z0-9._-]{1,100}$`.
unfoldable pub is_node_id : Text → Bool
is_node_id t = all_node_id_bytes t && (leb 1 (length t) && leb (length t) 100)

-- What reaches the engine from the sockets.
pub data Input : Type 0 where
  frame : Job → Input
  joined left : Text → Text → Input

module _ {W S : Type 0} ⦃fl : Float W⦄ (p : Ports W S) (mp : Msgpack W) (js : Json W) where
  -- sendError
  unfoldable pub send_error : Job → ErrorCode → M W S (Unit {0})
  send_error j code = send_to_node p j.session_id j.node_id (error_event code)

  unfoldable pub process_ping : Option (NodePing W) → Job → M W S (Unit {0})
  process_ping none j = send_error j invalid_ping
  process_ping (some ping) j = handle_ping p j.session_id j.node_id ping.lat ping.lng

  unfoldable pub process_transmit : Option TransmitPacket → Job → M W S (Unit {0})
  process_transmit none j = send_error j invalid_transmit
  process_transmit (some pkt) j = handle_transmit p mp j.session_id j.node_id pkt

  unfoldable pub process_ack : Option NodeAck → Job → M W S (Unit {0})
  process_ack none j = send_error j invalid_ack
  process_ack (some a) j = handle_ack p j.session_id j.node_id a

  -- The `switch` on the event.
  unfoldable pub dispatch : Option Text → Job → M W S (Unit {0})
  dispatch none j = send_error j invalid_json
  dispatch (some event) j =
      if text_eq event (codes "node:ping")
      then process_ping (js.ping j.raw) j
      else if text_eq event (codes "node:transmit")
      then process_transmit (js.transmit j.raw) j
      else if text_eq event (codes "node:ack")
      then process_ack (js.ack j.raw) j
      else send_error j unknown_event

  -- safeProcess
  unfoldable pub safe_process : Job → M W S (Unit {0})
  safe_process j = dispatch (js.envelope j.raw) j

  unfoldable pub handle_input : Input → M W S (Unit {0})
  handle_input (frame j) = safe_process j
  handle_input (joined sid node) = node_connected p sid node
  handle_input (left sid node) = node_disconnected p sid node

  -- A history of inputs, in the order in which the workers take them up.
  unfoldable pub handle_all : List Input → Sim W S → Sim W S
  handle_all [] s = s
  handle_all (i ∷ is) s = handle_all is (handle_input i s).1
