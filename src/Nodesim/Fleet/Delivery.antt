-- ===== src/Nodesim/Fleet/Delivery.antt =====
-- The counters of a ship, and how often each frame is sent, over the histories of a ship.
use maritime_simulation.Base.{
  ℕ, suc, ◌+◌, ◌-◌, ◌*◌, ◌≤◌, ◌≡◌, refl, Bool, true, false, List, [], ◌∷◌, Option, none, some,
  arith, All, All-set, All-get, total, total-set, get_elem?, if_both, if◌then◌else◌,
}
use maritime_simulation.Base.Dict.{lookup}
use maritime_simulation.Base.Text.{Text, text_eq}
use maritime_simulation.Floats.{Float}
use maritime_simulation.Nodesim.Ship.{
  Ship, FleetStats, Transmit, TransmitFrame, Phase, ready, registered, waiting, acknowledged,
  unwritten, cancelled, dead, write_json, close_chan, spawn, Outbound, data_frame,
}
use maritime_simulation.Nodesim.Payload.{ClientLib}
use maritime_simulation.Nodesim.Link.{
  Signal, register, write, wake, interrupt, expire, advance, register_waiter, send_frame, take_ack,
  take_done, next_round, take_timeout, put_back, step_found, step_transmit,
}
use maritime_simulation.Nodesim.Reader.{
  Inbound, sync_params, mesh_ack, release, read_message, reader, forward, receive_once,
  handle_receive, send_report, transmit_telemetry, hear,
}
use maritime_simulation.Nodesim.Fleet.{
  Event, got, handle, ping_due, report_due, move_on, cancel, leave, move, send_ping, handle_found,
  take_out, on_event, on_events,
}

-- One for a frame whose last attempt reached the socket and was not given up.
abbrev pub on_air : Phase → ℕ
on_air ready = 0
on_air (registered _ _) = 0
on_air (waiting _ _) = 1
on_air acknowledged = 1
on_air unwritten = 0
on_air cancelled = 1
on_air dead = 0

abbrev pub is_acked : Phase → ℕ
is_acked acknowledged = 1
is_acked _ = 0

abbrev pub is_dead : Phase → ℕ
is_dead dead = 1
is_dead _ = 0

-- How often a run has written its frame, as its loop counts it.
abbrev pub writes : Transmit → ℕ
writes t = t.attempt + on_air t.phase

abbrev pub resends : Transmit → ℕ
resends t = writes t - 1

abbrev pub acked_of : Transmit → ℕ
acked_of t = is_acked t.phase

abbrev pub dead_of : Transmit → ℕ
dead_of t = is_dead t.phase

-- A frame is written at most four times, and exactly four times before its link is declared dead.
abbrev pub IsBounded : Transmit → Type 0
IsBounded t = (writes t ≤ 4) × (t.attempt ≤ 3 + dead_of t) × (4 * dead_of t ≤ t.attempt)

-- The counters are the sums over the frames.
abbrev pub Settled : FleetStats → List Transmit → Type 0
Settled c ts =
    (c.sent ≡ total writes ts)
    × (c.retries ≡ total resends ts)
    × (c.acked ≡ total acked_of ts)
    × (c.failed ≡ total dead_of ts)

-- The writes of a run whose frame belongs to the packet `k`.
abbrev pub writes_of : Text → Transmit → ℕ
writes_of k t = if text_eq t.frame.packet_id k then writes t else 0

-- One for a frame of the packet `k`, as the socket takes it.
abbrev pub frame_of : {W : Type 0} → Text → Outbound W → ℕ
frame_of k (data_frame f) = if text_eq f.packet_id k then 1 else 0
frame_of k _ = 0

-- The socket took the frames of each packet as often as the runs for it count.
abbrev pub IsWritten : {W : Type 0} → Ship W → Type 0
IsWritten s = (k : Text) → total (frame_of k) s.out ≡ total (writes_of k) s.transmits

abbrev pub IsSettled : {W : Type 0} → Ship W → Type 0
IsSettled s = Settled s.stats s.transmits × All IsBounded s.transmits × IsWritten s

-- What a step of one goroutine adds to the counters.
abbrev Moved : FleetStats → FleetStats → Transmit → Transmit → Type 0
Moved c d t u =
    (d.sent + writes t ≡ c.sent + writes u)
    × (d.retries + resends t ≡ c.retries + resends u)
    × (d.acked + acked_of t ≡ c.acked + acked_of u)
    × (d.failed + dead_of t ≡ c.failed + dead_of u)

module _ {W : Type 0} where
  -- The step keeps the bounds, moves the counters with the frame, and leaves the list alone.
  abbrev Steps : Phase → Transmit → Ship W → Transmit × Ship W → Type 0
  Steps ph t s r =
      IsBounded r.0
      × Moved s.stats r.1.stats (record t { phase = ph }) r.0
      × (r.1.transmits ≡ s.transmits)

  stay_Steps :
      (ph : Phase) (t : Transmit) (s : Ship W)
      → IsBounded (record t { phase = ph })
      → Steps ph t s (record t { phase = ph }, s)
  stay_Steps ph t s b = (b, (refl, refl, refl, refl), refl)

  advance-Steps :
      (sig : Signal) (ph : Phase) (t : Transmit) (s : Ship W)
      → IsBounded (record t { phase = ph })
      → Steps ph t s (advance sig ph (record t { phase = ph }) s)
  unfolding advance register_waiter send_frame take_ack take_done next_round take_timeout write_json
  advance-Steps register ready t s b = (ground arith, (refl, refl, refl, refl), refl)
  advance-Steps (write true) (registered c n) t s b = ground arith
  advance-Steps (write false) (registered c n) t s b = ground arith
  advance-Steps wake (waiting c n) t s b = ground arith
  advance-Steps interrupt (waiting c n) t s b = ground arith
  advance-Steps (expire e) (waiting c n) t s b = ground arith
  advance-Steps sig ph t s b = stay_Steps ph t s b

  -- The step writes what it counts.
  abbrev Writes : Phase → Transmit → Ship W → Transmit × Ship W → Type 0
  Writes ph t s r =
      (k : Text)
      → total (frame_of k) r.1.out + writes_of k (record t { phase = ph })
        ≡ total (frame_of k) s.out + writes_of k r.0

  advance-Writes :
      (sig : Signal) (ph : Phase) (t : Transmit) (s : Ship W)
      → Writes ph t s (advance sig ph (record t { phase = ph }) s)
  unfolding advance register_waiter send_frame take_ack take_done next_round take_timeout write_json
  advance-Writes register ready t s k = refl
  advance-Writes (write true) (registered c n) t s k = ground arith
  advance-Writes (write false) (registered c n) t s k = refl
  advance-Writes wake (waiting c n) t s k = ground arith
  advance-Writes interrupt (waiting c n) t s k = ground arith
  advance-Writes (expire e) (waiting c n) t s k = ground arith
  advance-Writes sig ph t s k = refl

  put_back-IsSettled :
      (i : ℕ) (t : Transmit) (s : Ship W) (r : Transmit × Ship W)
      → get_elem? s.transmits i ≡ some t
      → Steps t.phase t s r
      → Writes t.phase t s r
      → IsSettled s
      → IsSettled (put_back i r)
  unfolding put_back
  put_back-IsSettled i t s (u, s') e (b, (m, n, o, p), k) w ((c, d, f, g), a, h) = (
    (
      rw k (let q = total-set writes s.transmits i t u e in omega arith),
      rw k (let q = total-set resends s.transmits i t u e in omega arith),
      rw k (let q = total-set acked_of s.transmits i t u e in omega arith),
      rw k (let q = total-set dead_of s.transmits i t u e in omega arith),
    ),
    rw k (All-set IsBounded s.transmits i u a b),
    λ x. rw k (
        let q = total-set (writes_of x) s.transmits i t u e in
        let v = w x in let y = h x in omega arith),
  )

  step_found-IsSettled :
      (o : Option Transmit) (i : ℕ) (sig : Signal) (s : Ship W)
      → get_elem? s.transmits i ≡ o
      → IsSettled s
      → IsSettled (step_found o i sig s)
  unfolding step_found
  step_found-IsSettled none i sig s e h = h
  step_found-IsSettled (some t) i sig s e h =
      put_back-IsSettled i t s (advance sig t.phase t s) e
        (advance-Steps sig t.phase t s (All-get IsBounded s.transmits i t h.1 e))
        (advance-Writes sig t.phase t s) h

  spawn-IsSettled :
      (b : Bool) (f : TransmitFrame) (s : Ship W) → IsSettled s → IsSettled (spawn b f s)
  unfolding spawn
  spawn-IsSettled b f s ((c, d, e, g), a, h) = (
    (omega arith, omega arith, omega arith, omega arith),
    ((omega arith, omega arith, omega arith), a),
    λ k. let y = h k in ground arith,
  )

  release-IsSettled :
      (o : Option ℕ) (k : Text) (s : Ship W) → IsSettled s → IsSettled (release o k s)
  unfolding release close_chan
  release-IsSettled none k s h = h
  release-IsSettled (some c) k s h = ground arith

  read_message-IsSettled : (m : Inbound) (s : Ship W) → IsSettled s → IsSettled (read_message m s)
  unfolding read_message
  read_message-IsSettled (sync_params n a) s h = ground arith
  read_message-IsSettled (mesh_ack k b) s h = release-IsSettled (lookup k s.waiters) k (hear k s) h
  read_message-IsSettled m s h = h

  reader-IsSettled : (m : Inbound) (s : Ship W) → IsSettled s → IsSettled (reader m s)
  unfolding reader
  reader-IsSettled m s h = if_both IsSettled s.reading _ _ (read_message-IsSettled m s h) h

  forward-IsSettled : (f : TransmitFrame) (s : Ship W) → IsSettled s → IsSettled (forward f s)
  unfolding forward
  forward-IsSettled f s h = if_both IsSettled _ _ _ h (spawn-IsSettled true _ _ h)

  receive_once-IsSettled :
      (o : Option Bool) (f : TransmitFrame) (s : Ship W)
      → IsSettled s
      → IsSettled (receive_once o f s)
  unfolding receive_once
  receive_once-IsSettled (some _) f s h = h
  receive_once-IsSettled none f s h = forward-IsSettled f _ h

  write_json-IsSettled :
      (b : Bool) (m : Outbound W) (s : Ship W)
      → ((k : Text) → frame_of k m ≡ 0)
      → IsSettled s
      → IsSettled (write_json b m s)
  unfolding write_json
  write_json-IsSettled b m s o (c, a, h) =
      if_both IsSettled b _ _ (c, a, λ k. let x = o k in let y = h k in omega arith) (c, a, h)

  handle_found-IsSettled :
      (o : Option (TransmitFrame × List TransmitFrame)) (b : Bool) (s : Ship W)
      → IsSettled s
      → IsSettled (handle_found o b s)
  unfolding handle_found handle_receive
  handle_found-IsSettled none b s h = h
  handle_found-IsSettled (some (f, rest)) b s h =
      receive_once-IsSettled _ f _
        (write_json-IsSettled b _ (record s { inbox = rest }) (λ k. refl) h)

  send_report-IsSettled :
      {S : Type 0} ⦃fl : Float W⦄ (l : ClientLib W S) (o : Option (List ℕ)) (n : ℕ) (s : Ship W)
      → IsSettled s
      → IsSettled (send_report l o n s)
  unfolding send_report
  send_report-IsSettled l none n s h = h
  send_report-IsSettled l (some raw) n s h = if_both IsSettled _ _ _ h (spawn-IsSettled false _ s h)

  module _ {S : Type 0} ⦃fl : Float W⦄ (l : ClientLib W S) where
    on_event-IsSettled : (e : Event S) (s : Ship W) → IsSettled s → IsSettled (on_event l e s)
    unfolding on_event send_ping move step_transmit transmit_telemetry
    on_event-IsSettled (got m) s h = reader-IsSettled m s h
    on_event-IsSettled (handle i b) s h = handle_found-IsSettled (take_out i s.inbox) b s h
    on_event-IsSettled (ping_due r b) s h =
        if_both IsSettled s.running _ _ (write_json-IsSettled b _ (move l r s) (λ k. refl) h) h
    on_event-IsSettled (report_due r) s h =
        if_both IsSettled _ _ _ h
          (send_report-IsSettled l _ _ (record s { pkt_seq = suc s.pkt_seq }) h)
    on_event-IsSettled (move_on i sig) s h =
        step_found-IsSettled (get_elem? s.transmits i) i sig s refl h
    on_event-IsSettled cancel s h = h
    on_event-IsSettled leave s h = if_both IsSettled _ _ _ h h

    -- After any history of a ship that starts settled, as a new one does: what the counters say of
    -- sends, retries, acknowledgements and dead links is the sum over the runs of
    -- `transmitWithRetry`, the socket took the frames of each packet exactly as often as the runs
    -- for it count, and each run counts at most four writes, and exactly four where its link was
    -- declared dead.
    pub on_events-IsSettled :
        (es : List (Event S)) (s : Ship W) → IsSettled s → IsSettled (on_events l es s)
    unfolding on_events
    on_events-IsSettled [] s h = h
    on_events-IsSettled (e ∷ es) s h =
        on_events-IsSettled es (on_event l e s) (on_event-IsSettled e s h)
