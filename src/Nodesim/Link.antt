-- ===== src/Nodesim/Link.antt =====
-- cmd/nodesim/main.go: `transmitWithRetry`, one step at a time. The environment decides when a
-- goroutine moves, whether a write succeeds, and which case of the select is taken.
use maritime_simulation.Base.{
  ℕ, suc, ◌+◌, Bool, true, false, Option, none, some, leb, ltb, if◌then◌else◌, get_elem?, set,
}
use maritime_simulation.Base.Dict.{insert, erase}
use maritime_simulation.Nodesim.Ship.{
  Ship, Transmit, Phase, ready, registered, waiting, acknowledged, unwritten, cancelled, dead,
  has_chan, write_json, data_frame,
}

abbrev pub max_retries : ℕ
max_retries = 3

-- The grace added to the timeout, in milliseconds.
abbrev pub grace : ℕ
grace = 500

-- What makes a goroutine move: the section that registers a channel, the write with its result,
-- the closed channel, the end of the context, and the time that has passed since the write.
pub data Signal : Type 0 where
  register : Signal
  write : Bool → Signal
  wake : Signal
  interrupt : Signal
  expire : ℕ → Signal

module _ {W : Type 0} where
  -- The start of a round: a new channel under the packet's id, and the timeout of now.
  unfoldable pub register_waiter : Transmit → Ship W → Transmit × Ship W
  register_waiter t s = (
    record t { phase = registered s.next_chan s.ack_timeout },
    record s {
      waiters = insert t.frame.packet_id s.next_chan s.waiters;
      next_chan = suc s.next_chan;
    },
  )

  -- The write and the counters after it.
  unfoldable pub send_frame : Bool → ℕ → ℕ → Transmit → Ship W → Transmit × Ship W
  send_frame false chan timeout t s = (record t { phase = unwritten }, s)
  send_frame true chan timeout t s =
      let written : Ship W = write_json true (data_frame t.frame) s in
      let retried : ℕ = if ltb 0 t.attempt then 1 else 0 in
      (
        record t { phase = waiting chan timeout },
        record written {
          stats = record s.stats { sent = s.stats.sent + 1; retries = s.stats.retries + retried };
        },
      )

  -- The case of the closed channel.
  unfoldable pub take_ack : ℕ → Transmit → Ship W → Transmit × Ship W
  take_ack chan t s =
      if has_chan chan s.closed_chans
      then (
        record t { phase = acknowledged },
        record s { stats = record s.stats { acked = s.stats.acked + 1 } },
      )
      else (t, s)

  -- The case of the context.
  unfoldable pub take_done : Transmit → Ship W → Transmit × Ship W
  take_done t s = if s.done then (record t { phase = cancelled }, s) else (t, s)

  -- The loop's test, and what stands behind the loop.
  unfoldable pub next_round : Transmit → Ship W → Transmit × Ship W
  next_round t s =
      if leb (t.attempt + 1) max_retries
      then (record t { attempt = t.attempt + 1; phase = ready }, s)
      else (
        record t { attempt = t.attempt + 1; phase = dead },
        record s { stats = record s.stats { failed = s.stats.failed + 1 } },
      )

  -- The case of the timer.
  unfoldable pub take_timeout : ℕ → ℕ → Transmit → Ship W → Transmit × Ship W
  take_timeout elapsed timeout t s =
      if leb (timeout + grace) elapsed
      then next_round t (record s { waiters = erase t.frame.packet_id s.waiters })
      else (t, s)

  -- One step of `transmitWithRetry`; a signal that does not fit the phase changes nothing.
  unfoldable pub advance : Signal → Phase → Transmit → Ship W → Transmit × Ship W
  advance register ready t s = register_waiter t s
  advance (write ok) (registered chan timeout) t s = send_frame ok chan timeout t s
  advance wake (waiting chan timeout) t s = take_ack chan t s
  advance interrupt (waiting chan timeout) t s = take_done t s
  advance (expire elapsed) (waiting chan timeout) t s = take_timeout elapsed timeout t s
  advance _ _ t s = (t, s)

  unfoldable pub put_back : ℕ → Transmit × Ship W → Ship W
  put_back i (t, s) = record s { transmits = set s.transmits i t }

  -- The step of the goroutine with this number, if there is one.
  unfoldable pub step_found : Option Transmit → ℕ → Signal → Ship W → Ship W
  step_found none i sig s = s
  step_found (some t) i sig s = put_back i (advance sig t.phase t s)

  unfoldable pub step_transmit : ℕ → Signal → Ship W → Ship W
  step_transmit i sig s = step_found (get_elem? s.transmits i) i sig s
