-- ===== src/Nodesim/Fleet/Channels.antt =====
-- The channels of `waiters` over the histories of a ship.
use maritime_simulation.Base.{
  ℕ, suc, ◌<◌, ◌≡◌, sym, true, false, List, [], ◌∷◌, some, arith, All, ◌⊎◌, inl, inr, Bool-cases,
}
use maritime_simulation.Base.Dict.{Dict, lookup, insert, erase, lookup-insert, lookup-erase}
use maritime_simulation.Base.Text.{Text, text_eq, text_eq_iff}
use maritime_simulation.Nodesim.Ship.{
  Ship, Transmit, Phase, registered, waiting, acknowledged, has_chan,
}

-- A mesh:ack for the packet was read.
abbrev pub Heard : Text → List Text → Type 0
Heard k [] = ⊥
Heard k (j ∷ ks) = (j ≡ k) ⊎ Heard k ks

-- The channels of the waiting goroutines were made and are open, and no two packets share one.
abbrev pub WaitersOpen : ℕ → List ℕ → Dict ℕ → Type 0
WaitersOpen next closed ws =
    ((k : Text) (c : ℕ) → lookup k ws ≡ some c → (c < next) × (has_chan c closed ≡ false))
    × ((k j : Text) (c : ℕ) → lookup k ws ≡ some c → lookup j ws ≡ some c → k ≡ j)

-- A channel that a goroutine holds waits for its packet only, and is closed only after a mesh:ack
-- for the packet.
abbrev pub Holds : ℕ → List ℕ → Dict ℕ → List Text → Text → ℕ → Type 0
Holds next closed ws heard packet c =
    (c < next)
    × ((k : Text) → lookup k ws ≡ some c → k ≡ packet)
    × (has_chan c closed ≡ true → Heard packet heard)

abbrev pub IsHonest : ℕ → List ℕ → Dict ℕ → List Text → Text → Phase → Type 0
IsHonest next closed ws heard packet (registered c n) = Holds next closed ws heard packet c
IsHonest next closed ws heard packet (waiting c n) = Holds next closed ws heard packet c
IsHonest next closed ws heard packet acknowledged = Heard packet heard
IsHonest next closed ws heard packet _ = Unit

abbrev pub HonestIn : {W : Type 0} → Ship W → Transmit → Type 0
HonestIn s t = IsHonest s.next_chan s.closed_chans s.waiters s.heard t.frame.packet_id t.phase

-- No channel was closed twice, and a frame counts as acknowledged only after a mesh:ack for it.
abbrev pub IsOrderly : {W : Type 0} → Ship W → Type 0
IsOrderly s =
    (s.panicked ≡ false)
    × ((c : ℕ) → has_chan c s.closed_chans ≡ true → c < s.next_chan)
    × WaitersOpen s.next_chan s.closed_chans s.waiters
    × All (HonestIn s) s.transmits

-- Registering a fresh channel disturbs no other goroutine.
pub Holds-insert :
    (next : ℕ) (closed : List ℕ) (ws : Dict ℕ) (heard : List Text) (p q : Text) (c : ℕ)
    → Holds next closed ws heard q c
    → Holds (suc next) closed (insert p next ws) heard q c
Holds-insert next closed ws heard p q c (l, o, h) = (
  omega arith,
  λ k e. elim (Bool-cases (text_eq p k)) [
    | inl m ↦ ground (arith, lookup-insert p k next ws)
    | inr m ↦ o k (ground (arith, lookup-insert p k next ws))
  ],
  h,
)

pub Holds-own :
    (next : ℕ) (closed : List ℕ) (ws : Dict ℕ) (heard : List Text) (p : Text)
    → ((c : ℕ) → has_chan c closed ≡ true → c < next)
    → WaitersOpen next closed ws
    → Holds (suc next) closed (insert p next ws) heard p next
Holds-own next closed ws heard p f (w, _) = (
  omega arith,
  λ k e. elim (Bool-cases (text_eq p k)) [
    | inl m ↦ sym ((text_eq_iff p k).0 m)
    | inr m ↦ ground (arith, lookup-insert p k next ws, w k next)
  ],
  λ e. ground (arith, f next e),
)

pub Holds-erase :
    (next : ℕ) (closed : List ℕ) (ws : Dict ℕ) (heard : List Text) (p q : Text) (c : ℕ)
    → Holds next closed ws heard q c
    → Holds next closed (erase p ws) heard q c
Holds-erase next closed ws heard p q c (l, o, h) =
    (l, λ k e. o k (ground (arith, lookup-erase p k ws)), h)

pub WaitersOpen-insert :
    (next : ℕ) (closed : List ℕ) (ws : Dict ℕ) (p : Text)
    → ((c : ℕ) → has_chan c closed ≡ true → c < next)
    → WaitersOpen next closed ws
    → WaitersOpen (suc next) closed (insert p next ws)
WaitersOpen-insert next closed ws p f (w, u) = (
  λ k c e. elim (Bool-cases (text_eq p k)) [
    | inl m ↦ ground (arith, lookup-insert p k next ws, f next, Bool-cases (has_chan next closed))
    | inr m ↦ ground (arith, lookup-insert p k next ws, w k c)
  ],
  λ k j c e g. ground (
    arith,
    lookup-insert p k next ws,
    lookup-insert p j next ws,
    w k c,
    w j c,
    u k j c,
    text_eq_iff p k,
    text_eq_iff p j,
  ),
)

pub WaitersOpen-erase :
    (next : ℕ) (closed : List ℕ) (ws : Dict ℕ) (p : Text)
    → WaitersOpen next closed ws
    → WaitersOpen next closed (erase p ws)
WaitersOpen-erase next closed ws p (w, u) = (
  λ k c e. ground (arith, lookup-erase p k ws, w k c),
  λ k j c e g. ground (arith, lookup-erase p k ws, lookup-erase p j ws, u k j c),
)

-- Taking a packet's channel out of the map and closing it.
pub WaitersOpen-close :
    (next : ℕ) (closed : List ℕ) (ws : Dict ℕ) (p : Text) (d : ℕ)
    → lookup p ws ≡ some d
    → WaitersOpen next closed ws
    → WaitersOpen next (d ∷ closed) (erase p ws)
unfolding has_chan
WaitersOpen-close next closed ws p d e (w, u) = (
  λ k c g. ground (arith, lookup-erase p k ws, w k c, u p k c, text_eq_iff p k),
  (WaitersOpen-erase next closed ws p (w, u)).1,
)

pub Holds-close :
    (next : ℕ) (closed : List ℕ) (ws : Dict ℕ) (heard : List Text) (p q : Text) (c d : ℕ)
    → lookup p ws ≡ some d
    → Holds next closed ws heard q c
    → Holds next (d ∷ closed) (erase p ws) (p ∷ heard) q c
unfolding has_chan
Holds-close next closed ws heard p q c d e (l, o, h) =
    (l, λ k g. o k (ground (arith, lookup-erase p k ws)), λ g. ground (arith, o p))
