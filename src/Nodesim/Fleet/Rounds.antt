-- ===== src/Nodesim/Fleet/Rounds.antt =====
-- How a run of `transmitWithRetry` comes to its end.
use maritime_simulation.Base.{
  ℕ, ◌+◌, ◌-◌, ◌*◌, ◌≤◌, ◌<◌, ◌≡◌, refl, Bool, true, false, arith, ◌⊎◌, inl, inr, if◌then◌else◌,
}
use maritime_simulation.Base.Dict.{erase}
use maritime_simulation.Nodesim.Ship.{
  Ship, Transmit, Phase, ready, registered, waiting, acknowledged, unwritten, cancelled, dead,
}
use maritime_simulation.Nodesim.Link.{
  Signal, register, write, wake, interrupt, expire, advance, register_waiter, send_frame, take_ack,
  take_done, next_round, take_timeout, grace,
}
use maritime_simulation.Nodesim.Fleet.Delivery.{IsBounded}

-- The steps that are left at most: three for each attempt.
unfoldable pub rank : Phase → ℕ → ℕ
rank ready attempt = 3 * (4 - attempt)
rank (registered _ _) attempt = 3 * (4 - attempt) - 1
rank (waiting _ _) attempt = 3 * (4 - attempt) - 2
rank _ attempt = 0

rank-le : (ph : Phase) (n : ℕ) → rank ph n ≤ 12
unfolding rank
rank-le ready n = omega arith
rank-le (registered _ _) n = omega arith
rank-le (waiting _ _) n = omega arith
rank-le _ n = omega arith

module _ {W : Type 0} where
  -- The signal changes nothing, or it brings the goroutine nearer to its end.
  abbrev pub Falls : Transmit → Transmit × Ship W → Type 0
  Falls t r = rank r.0.phase r.0.attempt < rank t.phase t.attempt

  abbrev pub StaysOrFalls : Transmit → Ship W → Transmit × Ship W → Type 0
  StaysOrFalls t s r = (r ≡ (t, s)) ⊎ Falls t r

  stays_or :
      (b : Bool) (t : Transmit) (r : Transmit × Ship W) (s : Ship W)
      → Falls t r
      → StaysOrFalls t s (if b then r else (t, s))
  stays_or true t r s h = inr h
  stays_or false t r s h = inl refl

  next_round-Falls :
      (c n : ℕ) (t : Transmit) (s : Ship W)
      → IsBounded (record t { phase = waiting c n })
      → Falls (record t { phase = waiting c n }) (next_round (record t { phase = waiting c n }) s)
  unfolding next_round rank
  next_round-Falls c n t s b = ground arith

  advance-StaysOrFalls :
      (sig : Signal) (ph : Phase) (t : Transmit) (s : Ship W)
      → IsBounded (record t { phase = ph })
      → StaysOrFalls (record t { phase = ph }) s (advance sig ph (record t { phase = ph }) s)
  unfolding advance register_waiter send_frame take_ack take_done next_round take_timeout rank
  advance-StaysOrFalls register ready t s b = inr (omega arith)
  advance-StaysOrFalls (write true) (registered c n) t s b = inr (omega arith)
  advance-StaysOrFalls (write false) (registered c n) t s b = inr (omega arith)
  advance-StaysOrFalls wake (waiting c n) t s b =
      stays_or _ _
        (
          record t { phase = acknowledged },
          record s { stats = record s.stats { acked = s.stats.acked + 1 } },
        )
        s (omega arith)
  advance-StaysOrFalls interrupt (waiting c n) t s b =
      stays_or _ _ (record t { phase = cancelled }, s) s (omega arith)
  advance-StaysOrFalls (expire e) (waiting c n) t s b =
      let u : Transmit = record t { phase = waiting c n } in
      let s1 : Ship W = record s { waiters = erase t.frame.packet_id s.waiters } in
      stays_or _ _ (next_round u s1) s (next_round-Falls c n t s1 b)
  advance-StaysOrFalls sig ph t s b = inl refl

  -- A goroutine that has not returned has a next step, whatever the others do.
  advance-next :
      (ph : Phase) (t : Transmit) (s : Ship W)
      → IsBounded (record t { phase = ph })
      → (rank ph t.attempt ≡ 0)
        ⊎ ((sig : Signal) × Falls
              (record t { phase = ph })
              (advance sig ph (record t { phase = ph }) s))
  unfolding advance register_waiter send_frame next_round take_timeout rank
  advance-next ready t s b = inr (register, omega arith)
  advance-next (registered c n) t s b = inr (write true, omega arith)
  advance-next (waiting c n) t s b = inr (expire (n + grace), ground arith)
  advance-next acknowledged t s b = inl refl
  advance-next unwritten t s b = inl refl
  advance-next cancelled t s b = inl refl
  advance-next dead t s b = inl refl

  -- From any state of its loop, and in any state of the ship: a goroutine in `transmitWithRetry`
  -- has at most twelve steps left, every signal leaves it as it is or brings it nearer to its end,
  -- and while it has not returned some signal does.
  pub advance-ends :
      (t : Transmit) (s : Ship W)
      → IsBounded t
      → (rank t.phase t.attempt ≤ 12)
        × ((sig : Signal) → StaysOrFalls t s (advance sig t.phase t s))
        × ((rank t.phase t.attempt ≡ 0) ⊎ ((sig : Signal) × Falls t (advance sig t.phase t s)))
  advance-ends t s b = (
    rank-le t.phase t.attempt,
    λ sig. advance-StaysOrFalls sig t.phase t s b,
    advance-next t.phase t s b,
  )
