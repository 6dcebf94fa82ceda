-- ===== src/Nodesim/Fleet/Relays.antt =====
-- Duplicates and relayed frames over the histories of a ship.
use maritime_simulation.Base.{
  ℕ, zero, suc, ◌+◌, ◌≤◌, ◌≡◌, refl, Bool, true, false, List, [], ◌∷◌, Option, none, some, arith,
  All, All-set, All-get, get_elem?, if_both, if◌then◌else◌, total, total-set, length, ◌++◌,
}
use maritime_simulation.Base.Dict.{Dict, lookup, insert, lookup-insert}
use maritime_simulation.Base.Text.{Text, text_eq, text_eq_iff, text_eq_refl}
use maritime_simulation.Floats.{Float}
use maritime_simulation.Domain.Packet.{transmitter, last}
use maritime_simulation.Nodesim.Ship.{
  Ship, Transmit, TransmitFrame, Phase, write_json, close_chan, spawn, first_attempt, Outbound,
  ready, registered, waiting,
}
use maritime_simulation.Nodesim.Payload.{ClientLib}
use maritime_simulation.Nodesim.Link.{
  Signal, advance, register_waiter, send_frame, take_ack, register, write, wake, interrupt, expire,
  take_done, next_round, take_timeout, put_back, step_found, step_transmit,
}
use maritime_simulation.Nodesim.Reader.{
  Inbound, sync_params, receive_rf, mesh_ack, release, read_message, reader, forward, receive_once,
  handle_receive, send_report, transmit_telemetry, hear, relay_frame, origin_frame,
}
use maritime_simulation.Nodesim.Fleet.{
  Event, got, handle, ping_due, report_due, move_on, cancel, leave, move, send_ping, handle_found,
  take_out, keep_front, on_event, on_events,
}

-- One for a relayed frame, and one for a relayed frame of the packet.
abbrev pub relay_of : Transmit → ℕ
relay_of t = if t.is_relay then 1 else 0

abbrev pub relays_of : Text → Transmit → ℕ
relays_of k t = if text_eq t.frame.packet_id k then relay_of t else 0

abbrev pub once : Option Bool → ℕ
once none = 0
once (some _) = 1

-- The same with `n` frames that have left the inbox and are not counted yet.
abbrev Carries : {W : Type 0} → ℕ → Ship W → Type 0
Carries n s =
    ((k : Text) → total (relays_of k) s.transmits ≤ once (lookup k s.seen))
    × (s.stats.forwarded ≡ total relay_of s.transmits)
    × (s.stats.received ≡ n + (length s.inbox + s.stats.dup_seen + length s.seen))
    × All (λ t. transmitter t.frame ≡ some s.id) s.transmits

-- The ship relays a packet at most once, and only one that it has seen; it is the last entry of the
-- path of every frame that it sends; and each frame read is in the inbox, was a duplicate, or was
-- the first of its packet.
abbrev pub IsThrifty : {W : Type 0} → Ship W → Type 0
IsThrifty s =
    ((k : Text) → total (relays_of k) s.transmits ≤ once (lookup k s.seen))
    × (s.stats.forwarded ≡ total relay_of s.transmits)
    × (s.stats.received ≡ length s.inbox + s.stats.dup_seen + length s.seen)
    × All (λ t. transmitter t.frame ≡ some s.id) s.transmits

last-append : (path : List Text) (x : Text) → last (path ++ (x ∷ [])) ≡ some x
unfolding last
last-append [] x = refl
last-append (y ∷ []) x = refl
last-append (y ∷ z ∷ path) x = last-append (z ∷ path) x

length-insert :
    (k : Text) (b : Bool) (d : Dict Bool)
    → lookup k d ≡ none
    → length (insert k b d) ≡ suc (length d)
unfolding insert lookup
length-insert k b [] h = refl
length-insert k b ((j, c) ∷ d) h = ground (arith, length-insert k b d)

-- One entry fewer, where there is one.
abbrev Taken : {A : Type 0} → ℕ → Option (A × List A) → Type 0
Taken n none = Unit
Taken n (some (x, rest)) = n ≡ suc (length rest)

keep_front-Taken :
    {A : Type 0} (n : ℕ) (x : A) (o : Option (A × List A))
    → Taken n o
    → Taken (suc n) (keep_front x o)
unfolding keep_front
keep_front-Taken n x none h = tt
keep_front-Taken n x (some (y, ys)) h = omega arith

take_out-Taken : {A : Type 0} (i : ℕ) (xs : List A) → Taken (length xs) (take_out i xs)
unfolding take_out
take_out-Taken i [] = tt
take_out-Taken zero (x ∷ xs) = refl
take_out-Taken (suc i) (x ∷ xs) = keep_front-Taken (length xs) x _ (take_out-Taken i xs)

-- The first frame of a packet, relayed.
relays-insert :
    (k p : Text) (seen : Dict Bool) (t : Transmit) (ts : List Transmit)
    → lookup p seen ≡ none
    → text_eq t.frame.packet_id p ≡ true
    → total (relays_of k) ts ≤ once (lookup k seen)
    → total (relays_of k) (t ∷ ts) ≤ once (lookup k (insert p true seen))
relays-insert k p seen t ts e f h = ground (
  arith,
  lookup-insert p k true seen,
  text_eq_iff p k,
  text_eq_iff t.frame.packet_id p,
  text_eq_iff t.frame.packet_id k,
)

module _ {W : Type 0} where
  -- What a step of one goroutine leaves alone.
  abbrev Stays : Transmit → Ship W → Transmit × Ship W → Type 0
  Stays t s r =
      (r.0.frame ≡ t.frame)
      × (r.0.is_relay ≡ t.is_relay)
      × (r.1.transmits ≡ s.transmits)
      × (r.1.seen ≡ s.seen)
      × (r.1.inbox ≡ s.inbox)
      × (r.1.id ≡ s.id)
      × (r.1.stats.forwarded ≡ s.stats.forwarded)
      × (r.1.stats.received ≡ s.stats.received)
      × (r.1.stats.dup_seen ≡ s.stats.dup_seen)

  abbrev same : (t : Transmit) (s : Ship W) → Stays t s (t, s)
  same t s = (refl, refl, refl, refl, refl, refl, refl, refl, refl)

  advance-Stays :
      (sig : Signal) (ph : Phase) (t : Transmit) (s : Ship W) → Stays t s (advance sig ph t s)
  unfolding advance register_waiter send_frame take_ack take_done next_round take_timeout write_json
  advance-Stays register ready t s = same t s
  advance-Stays (write true) (registered c n) t s = same t s
  advance-Stays (write false) (registered c n) t s = same t s
  advance-Stays wake (waiting c n) t s = if_both (Stays t s) _ _ _ (same t s) (same t s)
  advance-Stays interrupt (waiting c n) t s = if_both (Stays t s) _ _ _ (same t s) (same t s)
  advance-Stays (expire e) (waiting c n) t s =
      if_both (Stays t s) _ _ _ (if_both (Stays t s) _ _ _ (same t s) (same t s)) (same t s)
  advance-Stays sig ph t s = same t s

  put_back-IsThrifty :
      (i : ℕ) (t : Transmit) (s : Ship W) (r : Transmit × Ship W)
      → get_elem? s.transmits i ≡ some t
      → Stays t s r
      → IsThrifty s
      → IsThrifty (put_back i r)
  unfolding put_back
  put_back-IsThrifty i t s (u, s') e (fr, re, tr, se, inb, ide, fo, rc, du) (a, b, c, d) = (
    λ k.
        rw (tr, se)
          (let q = total-set (relays_of k) s.transmits i t u e in
            let v : relays_of k u ≡ relays_of k t = rw (fr, re) refl in omega (arith, a k)),
    rw (tr, fo)
        (let q = total-set relay_of s.transmits i t u e in
          let v : relay_of u ≡ relay_of t = rw re refl in omega arith),
    rw (inb, se, rc, du) c,
    rw (tr, ide)
        (All-set (λ v. transmitter v.frame ≡ some s.id) s.transmits i u d
          (rw fr (All-get (λ v. transmitter v.frame ≡ some s.id) s.transmits i t d e))),
  )

  step_found-IsThrifty :
      (o : Option Transmit) (i : ℕ) (sig : Signal) (s : Ship W)
      → get_elem? s.transmits i ≡ o
      → IsThrifty s
      → IsThrifty (step_found o i sig s)
  unfolding step_found
  step_found-IsThrifty none i sig s e h = h
  step_found-IsThrifty (some t) i sig s e h =
      put_back-IsThrifty i t s (advance sig t.phase t s) e (advance-Stays sig t.phase t s) h

  release-IsThrifty :
      (o : Option ℕ) (k : Text) (s : Ship W) → IsThrifty s → IsThrifty (release o k s)
  unfolding release close_chan
  release-IsThrifty none k s h = h
  release-IsThrifty (some c) k s h = if_both IsThrifty _ _ _ h h

  read_message-IsThrifty : (m : Inbound) (s : Ship W) → IsThrifty s → IsThrifty (read_message m s)
  unfolding read_message
  read_message-IsThrifty (sync_params n a) s h = if_both IsThrifty _ _ _ h h
  read_message-IsThrifty (receive_rf f) s (a, b, c, d) = (a, b, omega arith, d)
  read_message-IsThrifty (mesh_ack k b) s h = release-IsThrifty (lookup k s.waiters) k (hear k s) h
  read_message-IsThrifty m s h = h

  forward-IsThrifty :
      (f : TransmitFrame) (s : Ship W)
      → lookup f.packet_id s.seen ≡ none
      → Carries 1 s
      → IsThrifty (forward f (record s { seen = insert f.packet_id true s.seen }))
  unfolding forward spawn relay_frame transmitter
  forward-IsThrifty f s e (a, b, c, d) =
      let q = length-insert f.packet_id true s.seen e in
      let seen_now : Ship W = record s { seen = insert f.packet_id true s.seen } in
      let stays : IsThrifty seen_now =
        (λ k. ground (arith, lookup-insert f.packet_id k true s.seen, a k), b, omega arith, d) in
      if_both IsThrifty _ _ _ stays (
        λ k.
            relays-insert k f.packet_id s.seen (first_attempt true (relay_frame s.id s.parent f))
              s.transmits e (text_eq_refl f.packet_id) (a k),
        omega arith,
        omega arith,
        (last-append f.routing_path s.id, d),
      )

  receive_once-IsThrifty :
      (o : Option Bool) (f : TransmitFrame) (s : Ship W)
      → lookup f.packet_id s.seen ≡ o
      → Carries 1 s
      → IsThrifty (receive_once o f s)
  unfolding receive_once
  receive_once-IsThrifty (some _) f s e (a, b, c, d) = (a, b, omega arith, d)
  receive_once-IsThrifty none f s e h = forward-IsThrifty f s e h

  handle_found-IsThrifty :
      (o : Option (TransmitFrame × List TransmitFrame)) (b : Bool) (s : Ship W)
      → Taken (length s.inbox) o
      → IsThrifty s
      → IsThrifty (handle_found o b s)
  unfolding handle_found handle_receive write_json
  handle_found-IsThrifty none b s e h = h
  handle_found-IsThrifty (some (f, rest)) true s e (p, q, c, d) =
      receive_once-IsThrifty _ f _ refl (p, q, omega arith, d)
  handle_found-IsThrifty (some (f, rest)) false s e (p, q, c, d) =
      receive_once-IsThrifty _ f _ refl (p, q, omega arith, d)

  write_json-IsThrifty :
      (b : Bool) (m : Outbound W) (s : Ship W) → IsThrifty s → IsThrifty (write_json b m s)
  unfolding write_json
  write_json-IsThrifty b m s h = if_both IsThrifty b _ _ h h

  module _ {S : Type 0} ⦃fl : Float W⦄ (l : ClientLib W S) where
    send_report-IsThrifty :
        (o : Option (List ℕ)) (n : ℕ) (s : Ship W) → IsThrifty s → IsThrifty (send_report l o n s)
    unfolding send_report spawn origin_frame transmitter last
    send_report-IsThrifty none n s h = h
    send_report-IsThrifty (some raw) n s (a, b, c, d) =
        if_both IsThrifty _ _ _ (a, b, c, d) (λ k. ground (arith, a k), omega arith, c, (refl, d))

    on_event-IsThrifty : (e : Event S) (s : Ship W) → IsThrifty s → IsThrifty (on_event l e s)
    unfolding on_event send_ping move step_transmit transmit_telemetry reader
    on_event-IsThrifty (got m) s h =
        if_both IsThrifty s.reading _ _ (read_message-IsThrifty m s h) h
    on_event-IsThrifty (handle i b) s h =
        handle_found-IsThrifty (take_out i s.inbox) b s (take_out-Taken i s.inbox) h
    on_event-IsThrifty (ping_due r b) s h =
        if_both IsThrifty s.running _ _ (write_json-IsThrifty b _ (move l r s) h) h
    on_event-IsThrifty (report_due r) s h =
        if_both IsThrifty _ _ _ h
          (send_report-IsThrifty _ _ (record s { pkt_seq = suc s.pkt_seq }) h)
    on_event-IsThrifty (move_on i sig) s h =
        step_found-IsThrifty (get_elem? s.transmits i) i sig s refl h
    on_event-IsThrifty cancel s h = h
    on_event-IsThrifty leave s h = if_both IsThrifty _ _ _ h h

    -- In any history of a ship that starts so, as a new one does: it relays a packet at most once
    -- and only after it has seen it, the counter of relayed frames is their number, each frame
    -- that was read waits for its goroutine, was a duplicate, or was the first of its packet, and
    -- every frame that the ship sends ends its path with the ship.
    pub on_events-IsThrifty :
        (es : List (Event S)) (s : Ship W) → IsThrifty s → IsThrifty (on_events l es s)
    unfolding on_events
    on_events-IsThrifty [] s h = h
    on_events-IsThrifty (e ∷ es) s h =
        on_events-IsThrifty es (on_event l e s) (on_event-IsThrifty e s h)
