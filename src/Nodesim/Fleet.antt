-- ===== src/Nodesim/Fleet.antt =====
-- cmd/nodesim/main.go: the loop of `run`, the movement of a ship, and its histories, in which the
-- goroutines of the ship take their steps in any order.
pub mod Delivery
pub mod Channels
pub mod Acks
pub mod Relays
pub mod Rounds
use maritime_simulation.Base.{
  ℕ, zero, suc, Bool, true, false, not, ◌||◌, List, [], ◌∷◌, Option, none, some, if◌then◌else◌,
}
use maritime_simulation.Floats.{Float}
use maritime_simulation.Nodesim.Ship.{Ship, TransmitFrame, ping_message, write_json}
use maritime_simulation.Nodesim.Payload.{ClientLib}
use maritime_simulation.Nodesim.Link.{Signal, step_transmit}
use maritime_simulation.Nodesim.Reader.{Inbound, reader, handle_receive, transmit_telemetry}

unfoldable pub keep_front : {A : Type 0} → A → Option (A × List A) → Option (A × List A)
keep_front x none = none
keep_front x (some (y, ys)) = some (y, x ∷ ys)

-- The entry with this number, and the others.
unfoldable pub take_out : {A : Type 0} → ℕ → List A → Option (A × List A)
take_out i [] = none
take_out zero (x ∷ xs) = some (x, xs)
take_out (suc i) (x ∷ xs) = keep_front x (take_out i xs)

-- What can happen to a ship: the reader gets a message, a goroutine in `handleReceive` runs, a
-- ticker of `run` fires, a goroutine in `transmitTelemetry` or in `transmitWithRetry` moves,
-- the context ends, and `run` returns, which closes the socket.
pub data Event (S : Type 0) : Type 0 where
  got : Inbound → Event S
  handle : ℕ → Bool → Event S
  ping_due : S → Bool → Event S
  report_due : S → Event S
  move_on : ℕ → Signal → Event S
  cancel leave : Event S

unfoldable pub handle_found :
    {W : Type 0} → Option (TransmitFrame × List TransmitFrame) → Bool → Ship W → Ship W
handle_found none ok s = s
handle_found (some (pkt, rest)) ok s = handle_receive ok pkt (record s { inbox = rest })

module _ {W S : Type 0} ⦃fl : Float W⦄ (l : ClientLib W S) where
  open fl use {lit, add, sub, mul, div, pi, cos, sin, sqrt}

  -- move
  unfoldable pub move : S → Ship W → Ship W
  move r s =
      let step_km = mul s.opt.speed_kmh s.opt.ping_hours in
      let heading = add s.heading (mul (sub (l.float64 r).0 (lit 5 1)) (lit 6 1)) in
      let d_lat = div (mul step_km (cos heading)) (lit 11119 2) in
      let d_lng =
        div (mul step_km (sin heading))
          (mul (lit 11119 2) (cos (div (mul s.lat pi) (lit 180 0)))) in
      record s { heading = heading; lat = add s.lat d_lat; lng = add s.lng d_lng }

  -- scatter
  unfoldable pub scatter : W → W → W → S → W × W
  scatter lat lng radius_km s =
      let (u, s1) = l.float64 s in
      let (v, s2) = l.float64 s1 in
      let r = mul radius_km (sqrt u) in
      let theta = mul (mul v (lit 2 0)) pi in
      let d_lat = div (mul r (cos theta)) (lit 11119 2) in
      let d_lng =
        div (mul r (sin theta)) (mul (lit 11119 2) (cos (div (mul lat pi) (lit 180 0)))) in
      (add lat d_lat, add lng d_lng)

  -- sendPing
  unfoldable pub send_ping : Bool → Ship W → Ship W
  send_ping ok s =
      write_json ok
        (ping_message
          (record { node_id = s.id; session_id = s.session_id; lat = s.lat; lng = s.lng }))
        s

  unfoldable pub on_event : Event S → Ship W → Ship W
  on_event (got m) s = reader m s
  on_event (handle i ok) s = handle_found (take_out i s.inbox) ok s
  on_event (ping_due r ok) s = if s.running then send_ping ok (move r s) else s
  on_event (report_due r) s = transmit_telemetry l r s
  on_event (move_on i sig) s = step_transmit i sig s
  on_event cancel s = record s { done = true }
  on_event leave s =
      if s.done || not s.reading then record s { running = false; reading = false } else s

  -- A history of a ship.
  unfoldable pub on_events : List (Event S) → Ship W → Ship W
  on_events [] s = s
  on_events (e ∷ es) s = on_events es (on_event e s)
