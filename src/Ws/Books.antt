-- ===== src/Ws/Books.antt =====
-- The books of a session over histories of inputs: ws/gateway.go down to the engine's handlers.
use maritime_simulation.Base.{◌+◌, ◌≡◌, refl, List, [], ◌∷◌, Option, none, some, arith}
use maritime_simulation.Base.Text.{Text}
use maritime_simulation.Floats.{Float}
use maritime_simulation.Domain.Errors.{Result, ok, err, not_found}
use maritime_simulation.Domain.Schema.{Msgpack}
use maritime_simulation.Domain.Entities.{NodePosition, TransmitPacket}
use maritime_simulation.Protocol.{NodeAck, NodePing}
use maritime_simulation.Service.Ports.{Ports, Sim, SessionParams}
use maritime_simulation.Service.Anomaly.{evaluate}
use maritime_simulation.Service.Engine.Frames.{emit_packet_event}
use maritime_simulation.Service.Engine.Handlers.{
  handle_ping, limit_ping, accept_ping, handle_ack, route_ack, admit_ack, fly_ack, relay_ack,
  node_connected, node_disconnected,
}
use maritime_simulation.Service.Engine.Ledger.{transmissions, outcomes}
use maritime_simulation.Service.Engine.Accounting.{handle_transmit-Settles}
use maritime_simulation.Ws.Gateway.{
  Json, Job, Input, frame, joined, left, dispatch, safe_process, send_error, process_ping,
  process_transmit, process_ack, handle_input, handle_all,
}

-- The transmissions of the session `q` and their outcomes grew by the same number.
abbrev pub KeepsBalance : {W S : Type 0} → Text → Sim W S → Sim W S → Type 0
KeepsBalance q s t =
    transmissions q t.trace + outcomes q s.trace ≡ transmissions q s.trace + outcomes q t.trace

module _ {W S : Type 0} ⦃fl : Float W⦄ (p : Ports W S) (q : Text) where
  handle_ping-KeepsBalance :
      (sid node : Text) (lat lng : W) (s : Sim W S)
      → KeepsBalance q s (handle_ping p sid node lat lng s).1
  unfolding handle_ping limit_ping accept_ping
  handle_ping-KeepsBalance sid node lat lng s = ground arith

  fly_ack-KeepsBalance :
      (rx tx : Result (NodePosition W)) (sid receiver : Text) (a : NodeAck) (sender : Text)
      (params : SessionParams W) (s : Sim W S)
      → KeepsBalance q s (fly_ack p rx tx sid receiver a sender params s).1
  unfolding fly_ack relay_ack evaluate emit_packet_event
  fly_ack-KeepsBalance (ok rx) (ok tx) sid receiver a sender params s = ground arith
  fly_ack-KeepsBalance (ok rx) (err _) sid receiver a sender params s = ground arith
  fly_ack-KeepsBalance (err _) _ sid receiver a sender params s = ground arith

  admit_ack-KeepsBalance :
      (r : Result (SessionParams W)) (sid receiver : Text) (a : NodeAck) (sender : Text)
      (s : Sim W S)
      → KeepsBalance q s (admit_ack p r sid receiver a sender s).1
  unfolding admit_ack
  admit_ack-KeepsBalance (err _) sid receiver a sender s = refl
  admit_ack-KeepsBalance (ok params) sid receiver a sender s =
      let rx = p.position sid receiver s.world in
      let tx = p.position sid sender rx.1 in
      fly_ack-KeepsBalance rx.0 tx.0 sid receiver a sender params (record s { world = tx.1 })

  route_ack-KeepsBalance :
      (r : Result Text) (sid receiver : Text) (a : NodeAck) (s : Sim W S)
      → KeepsBalance q s (route_ack p r sid receiver a s).1
  unfolding route_ack
  route_ack-KeepsBalance (err not_found) sid receiver a s = ground arith
  route_ack-KeepsBalance (err _) sid receiver a s = ground arith
  route_ack-KeepsBalance (ok sender) sid receiver a s =
      let r = p.get_params sid s.world in
      admit_ack-KeepsBalance r.0 sid receiver a sender (record s { world = r.1 })

  handle_ack-KeepsBalance :
      (sid receiver : Text) (a : NodeAck) (s : Sim W S)
      → KeepsBalance q s (handle_ack p sid receiver a s).1
  unfolding handle_ack
  handle_ack-KeepsBalance sid receiver a s =
      let r = p.take_ack_sender sid a.packet_id receiver s.world in
      ground (arith, route_ack-KeepsBalance r.0 sid receiver a (record s { world = r.1 }))

  node_connected-KeepsBalance :
      (sid node : Text) (s : Sim W S) → KeepsBalance q s (node_connected p sid node s).1
  unfolding node_connected
  node_connected-KeepsBalance sid node s = ground arith

  node_disconnected-KeepsBalance :
      (sid node : Text) (s : Sim W S) → KeepsBalance q s (node_disconnected p sid node s).1
  unfolding node_disconnected
  node_disconnected-KeepsBalance sid node s = ground arith

module _ {W S : Type 0} ⦃fl : Float W⦄ (p : Ports W S) (mp : Msgpack W) (js : Json W)
    (q : Text) where
  process_transmit-KeepsBalance :
      (r : Option TransmitPacket) (j : Job) (s : Sim W S)
      → KeepsBalance q s (process_transmit p mp js r j s).1
  unfolding process_transmit send_error
  process_transmit-KeepsBalance none j s = ground arith
  process_transmit-KeepsBalance (some pkt) j s =
      let (n, h) = handle_transmit-Settles p mp q j.session_id j.node_id pkt s in omega arith

  process_ping-KeepsBalance :
      (r : Option (NodePing W)) (j : Job) (s : Sim W S)
      → KeepsBalance q s (process_ping p mp js r j s).1
  unfolding process_ping send_error
  process_ping-KeepsBalance none j s = ground arith
  process_ping-KeepsBalance (some ping) j s =
      handle_ping-KeepsBalance p q j.session_id j.node_id ping.lat ping.lng s

  process_ack-KeepsBalance :
      (r : Option NodeAck) (j : Job) (s : Sim W S) → KeepsBalance q s (process_ack p mp js r j s).1
  unfolding process_ack send_error
  process_ack-KeepsBalance none j s = ground arith
  process_ack-KeepsBalance (some a) j s = handle_ack-KeepsBalance p q j.session_id j.node_id a s

  dispatch-KeepsBalance :
      (r : Option Text) (j : Job) (s : Sim W S) → KeepsBalance q s (dispatch p mp js r j s).1
  unfolding dispatch send_error
  dispatch-KeepsBalance none j s = ground arith
  dispatch-KeepsBalance (some event) j s = ground (
    arith,
    process_ping-KeepsBalance (js.ping j.raw) j s,
    process_transmit-KeepsBalance (js.transmit j.raw) j s,
    process_ack-KeepsBalance (js.ack j.raw) j s,
  )

  handle_input-KeepsBalance :
      (i : Input) (s : Sim W S) → KeepsBalance q s (handle_input p mp js i s).1
  unfolding handle_input safe_process
  handle_input-KeepsBalance (frame j) s = dispatch-KeepsBalance (js.envelope j.raw) j s
  handle_input-KeepsBalance (joined sid node) s = node_connected-KeepsBalance p q sid node s
  handle_input-KeepsBalance (left sid node) s = node_disconnected-KeepsBalance p q sid node s

  handle_all-KeepsBalance :
      (is : List Input) (s : Sim W S) → KeepsBalance q s (handle_all p mp js is s)
  unfolding handle_all
  handle_all-KeepsBalance [] s = refl
  handle_all-KeepsBalance (i ∷ is) s =
      omega (arith, handle_input-KeepsBalance i s, handle_all-KeepsBalance is _)

  -- Whatever the repositories, the sockets and the dice answer: after any history of inputs that
  -- starts on an empty record, `transmit_total` of a session is the number of its frames counted
  -- as dropped (for the byte limit, the hop limit, a missing position, an offline target, out of
  -- range, air loss), as duplicates, as forwarded or as delivered, and of those that a failed
  -- edge lookup, position read or duplicate check ended, which are logged.
  pub handle_all-balance :
      (is : List Input) (s : Sim W S)
      → s.trace ≡ []
      → transmissions q (handle_all p mp js is s).trace ≡ outcomes q (handle_all p mp js is s).trace
  handle_all-balance is s e = ground (arith, handle_all-KeepsBalance is s)
