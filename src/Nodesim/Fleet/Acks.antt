-- ===== src/Nodesim/Fleet/Acks.antt =====
-- The acknowledgements over the histories of a ship.
use maritime_simulation.Base.{
  ℕ, suc, ◌≡◌, refl, Bool, true, false, List, [], ◌∷◌, Option, none, some, arith, All-set, All-get,
  All-map, get_elem?, if_both, inr,
}
use maritime_simulation.Base.Dict.{Dict, lookup, erase}
use maritime_simulation.Base.Text.{Text}
use maritime_simulation.Floats.{Float}
use maritime_simulation.Nodesim.Ship.{
  Ship, Transmit, TransmitFrame, Phase, ready, registered, waiting, acknowledged, unwritten,
  cancelled, dead, write_json, close_chan, spawn, has_chan, Outbound,
}
use maritime_simulation.Nodesim.Payload.{ClientLib}
use maritime_simulation.Nodesim.Link.{
  Signal, register, write, wake, interrupt, expire, advance, register_waiter, send_frame, take_ack,
  take_done, next_round, take_timeout, put_back, step_found, step_transmit,
}
use maritime_simulation.Nodesim.Reader.{
  Inbound, sync_params, mesh_ack, release, read_message, reader, forward, receive_once,
  handle_receive, send_report, transmit_telemetry, hear,
}
use maritime_simulation.Nodesim.Fleet.{
  Event, got, handle, ping_due, report_due, move_on, cancel, leave, move, send_ping, handle_found,
  take_out, on_event, on_events,
}
use maritime_simulation.Nodesim.Fleet.Channels.{
  Heard, Holds, IsHonest, HonestIn, IsOrderly, Holds-insert, Holds-own, Holds-erase, Holds-close,
  WaitersOpen-insert, WaitersOpen-erase, WaitersOpen-close,
}

IsHonest-map :
    (n m : ℕ) (cl dl : List ℕ) (ws xs : Dict ℕ) (hs ks : List Text) (p : Text) (ph : Phase)
    → ((c : ℕ) → Holds n cl ws hs p c → Holds m dl xs ks p c)
    → (Heard p hs → Heard p ks)
    → IsHonest n cl ws hs p ph
    → IsHonest m dl xs ks p ph
IsHonest-map n m cl dl ws xs hs ks p (registered c _) f g h = f c h
IsHonest-map n m cl dl ws xs hs ks p (waiting c _) f g h = f c h
IsHonest-map n m cl dl ws xs hs ks p acknowledged f g h = g h
IsHonest-map n m cl dl ws xs hs ks p ready f g h = tt
IsHonest-map n m cl dl ws xs hs ks p unwritten f g h = tt
IsHonest-map n m cl dl ws xs hs ks p cancelled f g h = tt
IsHonest-map n m cl dl ws xs hs ks p dead f g h = tt

module _ {W : Type 0} where
  -- What a step of one goroutine leaves behind.
  abbrev Follows : Ship W → Transmit × Ship W → Type 0
  Follows s r = IsOrderly r.1 × HonestIn r.1 r.0

  erase_waiter-IsOrderly :
      (k : Text) (s : Ship W) → IsOrderly s → IsOrderly (record s { waiters = erase k s.waiters })
  erase_waiter-IsOrderly k s (p, f, w, a) = (
    p,
    f,
    WaitersOpen-erase s.next_chan s.closed_chans s.waiters k w,
    All-map (HonestIn s) (HonestIn (record s { waiters = erase k s.waiters }))
        (λ t h.
          IsHonest-map _ _ _ _ _ _ _ _ t.frame.packet_id t.phase
            (λ c. Holds-erase s.next_chan s.closed_chans s.waiters s.heard k t.frame.packet_id c)
            (λ x. x) h)
        s.transmits a,
  )

  register_waiter-Follows :
      (t : Transmit) (s : Ship W) → IsOrderly s → Follows s (register_waiter t s)
  unfolding register_waiter
  register_waiter-Follows t s (p, f, w, a) = (
    (
      p,
      λ c e. omega (arith, f c e),
      WaitersOpen-insert s.next_chan s.closed_chans s.waiters t.frame.packet_id f w,
      All-map (HonestIn s) (HonestIn (register_waiter t s).1)
          (λ u h.
            IsHonest-map _ _ _ _ _ _ _ _ u.frame.packet_id u.phase
              (λ c.
                Holds-insert s.next_chan s.closed_chans s.waiters s.heard t.frame.packet_id
                  u.frame.packet_id c)
              (λ x. x) h)
          s.transmits a,
    ),
    Holds-own s.next_chan s.closed_chans s.waiters s.heard t.frame.packet_id f w,
  )

  take_ack-Follows :
      (c n : ℕ) (b : Bool) (t : Transmit) (s : Ship W)
      → has_chan c s.closed_chans ≡ b
      → IsOrderly s
      → HonestIn s (record t { phase = waiting c n })
      → Follows s (take_ack c (record t { phase = waiting c n }) s)
  unfolding take_ack
  take_ack-Follows c n true t s e o (l, g, h) = rw e (o, h e)
  take_ack-Follows c n false t s e o h = rw e (o, h)

  next_round-Follows : (t : Transmit) (s : Ship W) → IsOrderly s → Follows s (next_round t s)
  unfolding next_round
  next_round-Follows t s o = if_both (Follows s) _ _ _ (o, tt) (o, tt)

  advance-Follows :
      (sig : Signal) (ph : Phase) (t : Transmit) (s : Ship W)
      → IsOrderly s
      → HonestIn s (record t { phase = ph })
      → Follows s (advance sig ph (record t { phase = ph }) s)
  unfolding advance send_frame take_done take_timeout write_json
  advance-Follows register ready t s o h = register_waiter-Follows _ s o
  advance-Follows (write true) (registered c n) t s o h = (o, h)
  advance-Follows (write false) (registered c n) t s o h = (o, tt)
  advance-Follows wake (waiting c n) t s o h =
      take_ack-Follows c n (has_chan c s.closed_chans) t s refl o h
  advance-Follows interrupt (waiting c n) t s o h = if_both (Follows s) s.done _ _ (o, tt) (o, h)
  advance-Follows (expire e) (waiting c n) t s o h =
      if_both (Follows s) _ _ _
        (next_round-Follows _ _ (erase_waiter-IsOrderly t.frame.packet_id s o)) (o, h)
  advance-Follows sig ph t s o h = (o, h)

  put_back-IsOrderly :
      (i : ℕ) (s : Ship W) (r : Transmit × Ship W) → Follows s r → IsOrderly (put_back i r)
  unfolding put_back
  put_back-IsOrderly i s (u, s') ((p, f, w, a), h) =
      (p, f, w, All-set (HonestIn s') s'.transmits i u a h)

  step_found-IsOrderly :
      (o : Option Transmit) (i : ℕ) (sig : Signal) (s : Ship W)
      → get_elem? s.transmits i ≡ o
      → IsOrderly s
      → IsOrderly (step_found o i sig s)
  unfolding step_found
  step_found-IsOrderly none i sig s e h = h
  step_found-IsOrderly (some t) i sig s e (p, f, w, a) =
      put_back-IsOrderly i s (advance sig t.phase t s)
        (advance-Follows sig t.phase t s (p, f, w, a) (All-get (HonestIn s) s.transmits i t a e))

  spawn-IsOrderly :
      (b : Bool) (f : TransmitFrame) (s : Ship W) → IsOrderly s → IsOrderly (spawn b f s)
  unfolding spawn
  spawn-IsOrderly b f s (p, g, w, a) = (p, g, w, (tt, a))

  release-IsOrderly :
      (o : Option ℕ) (k : Text) (s : Ship W)
      → lookup k s.waiters ≡ o
      → IsOrderly s
      → IsOrderly (release o k (hear k s))
  unfolding release close_chan has_chan
  release-IsOrderly none k s e (p, f, w, a) = (
    p,
    f,
    w,
    All-map (HonestIn s) (HonestIn (hear k s))
        (λ t h.
          IsHonest-map _ _ _ s.closed_chans _ s.waiters _ (k ∷ s.heard) t.frame.packet_id t.phase
            (λ c (l, o, g). (l, o, λ x. inr (g x))) inr h)
        s.transmits a,
  )
  release-IsOrderly (some d) k s e (p, f, w, a) = rw (w.0 k d e).1 (
    p,
    λ c g. ground (arith, f c, w.0 k d e),
    WaitersOpen-close s.next_chan s.closed_chans s.waiters k d e w,
    All-map (HonestIn s)
        (λ t.
          IsHonest s.next_chan (d ∷ s.closed_chans) (erase k s.waiters) (k ∷ s.heard)
            t.frame.packet_id t.phase)
        (λ t h.
          IsHonest-map _ _ _ (d ∷ s.closed_chans) _ _ _ (k ∷ s.heard) t.frame.packet_id t.phase
            (λ c.
              Holds-close s.next_chan s.closed_chans s.waiters s.heard k t.frame.packet_id c d e)
            inr h)
        s.transmits a,
  )

  read_message-IsOrderly : (m : Inbound) (s : Ship W) → IsOrderly s → IsOrderly (read_message m s)
  unfolding read_message
  read_message-IsOrderly (sync_params n a) s h = if_both IsOrderly _ _ _ h h
  read_message-IsOrderly (mesh_ack k b) s h = release-IsOrderly (lookup k s.waiters) k s refl h
  read_message-IsOrderly m s h = h

  reader-IsOrderly : (m : Inbound) (s : Ship W) → IsOrderly s → IsOrderly (reader m s)
  unfolding reader
  reader-IsOrderly m s h = if_both IsOrderly s.reading _ _ (read_message-IsOrderly m s h) h

  forward-IsOrderly : (f : TransmitFrame) (s : Ship W) → IsOrderly s → IsOrderly (forward f s)
  unfolding forward
  forward-IsOrderly f s h = if_both IsOrderly _ _ _ h (spawn-IsOrderly true _ _ h)

  receive_once-IsOrderly :
      (o : Option Bool) (f : TransmitFrame) (s : Ship W)
      → IsOrderly s
      → IsOrderly (receive_once o f s)
  unfolding receive_once
  receive_once-IsOrderly (some _) f s h = h
  receive_once-IsOrderly none f s h = forward-IsOrderly f _ h

  write_json-IsOrderly :
      (b : Bool) (m : Outbound W) (s : Ship W) → IsOrderly s → IsOrderly (write_json b m s)
  unfolding write_json
  write_json-IsOrderly b m s h = if_both IsOrderly b _ _ h h

  handle_found-IsOrderly :
      (o : Option (TransmitFrame × List TransmitFrame)) (b : Bool) (s : Ship W)
      → IsOrderly s
      → IsOrderly (handle_found o b s)
  unfolding handle_found handle_receive
  handle_found-IsOrderly none b s h = h
  handle_found-IsOrderly (some (f, rest)) b s h =
      receive_once-IsOrderly _ f _ (write_json-IsOrderly b _ (record s { inbox = rest }) h)

  send_report-IsOrderly :
      {S : Type 0} ⦃fl : Float W⦄ (l : ClientLib W S) (o : Option (List ℕ)) (n : ℕ) (s : Ship W)
      → IsOrderly s
      → IsOrderly (send_report l o n s)
  unfolding send_report
  send_report-IsOrderly l none n s h = h
  send_report-IsOrderly l (some raw) n s h = if_both IsOrderly _ _ _ h (spawn-IsOrderly false _ s h)

  module _ {S : Type 0} ⦃fl : Float W⦄ (l : ClientLib W S) where
    on_event-IsOrderly : (e : Event S) (s : Ship W) → IsOrderly s → IsOrderly (on_event l e s)
    unfolding on_event send_ping move step_transmit transmit_telemetry
    on_event-IsOrderly (got m) s h = reader-IsOrderly m s h
    on_event-IsOrderly (handle i b) s h = handle_found-IsOrderly (take_out i s.inbox) b s h
    on_event-IsOrderly (ping_due r b) s h =
        if_both IsOrderly s.running _ _ (write_json-IsOrderly b _ (move l r s) h) h
    on_event-IsOrderly (report_due r) s h =
        if_both IsOrderly _ _ _ h
          (send_report-IsOrderly l _ _ (record s { pkt_seq = suc s.pkt_seq }) h)
    on_event-IsOrderly (move_on i sig) s h =
        step_found-IsOrderly (get_elem? s.transmits i) i sig s refl h
    on_event-IsOrderly cancel s h = h
    on_event-IsOrderly leave s h = if_both IsOrderly _ _ _ h h

    -- In any history of a ship that starts so, as a new one does: no channel is closed twice, which
    -- would panic; no open goroutine's packet shares its channel with another packet; and a frame
    -- counts as acknowledged only after the reader got a mesh:ack for its packet.
    pub on_events-IsOrderly :
        (es : List (Event S)) (s : Ship W) → IsOrderly s → IsOrderly (on_events l es s)
    unfolding on_events
    on_events-IsOrderly [] s h = h
    on_events-IsOrderly (e ∷ es) s h =
        on_events-IsOrderly es (on_event l e s) (on_event-IsOrderly e s h)
