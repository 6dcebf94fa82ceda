-- ===== src/Repository/State/Dedup.antt =====
-- The deduplication of frames, against the list of the markings accepted so far, with their ages.
use maritime_simulation.Base.{
  ℕ, ◌+◌, ◌-◌, ◌==◌, ◌≡◌, refl, sym, ◌∙◌, ap, Bool, true, false, not, ◌&&◌, List, [], ◌∷◌, arith,
  map, All, if◌then◌else◌, ltb,
}
use maritime_simulation.Base.Text.{Text, codes, text_eq}
use maritime_simulation.Domain.Errors.{Result, ok}
use maritime_simulation.Repository.Redis.{Redis, IsTimed, value}
use maritime_simulation.Repository.Keys.{key_dedup, IsPlain, key_dedup_eq}
use maritime_simulation.Repository.State.{mark_packet_seen, dedup_ttl}
use maritime_simulation.Repository.State.Params.{as_result-value}

-- A packet and its receiver.
abbrev pub Pair : Type 0
Pair = Text × Text

abbrev pub pair_eq : Pair → Pair → Bool
pair_eq (p, r) (q, u) = text_eq p q && text_eq r u

-- The latest accepted marking of the pair, if there is one, is less than 30 seconds old.
unfoldable pub is_recent : Pair → List (Pair × ℕ) → Bool
is_recent x [] = false
is_recent x ((y, age) ∷ seen) =
    let rest = is_recent x seen in if pair_eq y x then ltb age 30000 else rest

-- The markings, a number of milliseconds later.
unfoldable pub later : ℕ → List (Pair × ℕ) → List (Pair × ℕ)
later n [] = []
later n ((y, age) ∷ seen) = (y, age + n) ∷ later n seen

abbrev pub accept : Bool → Pair → List (Pair × ℕ) → List (Pair × ℕ)
accept true x seen = (x, 0) ∷ seen
accept false x seen = seen

-- The specification: a pair that is marked after a pause is new if it is not recent, and is then
-- remembered.
unfoldable pub first_seen : List (ℕ × Pair) → List (Pair × ℕ) → List Bool
first_seen [] seen = []
first_seen ((n, x) ∷ xs) seen =
    let new = not (is_recent x (later n seen)) in new ∷ first_seen xs (accept new x (later n seen))

-- The lifetime that the key of the pair has left.
unfoldable pub remaining : Pair → List (Pair × ℕ) → ℕ
remaining x [] = 0
remaining x ((y, age) ∷ seen) =
    let rest = remaining x seen in if pair_eq y x then 30000 - age else rest

remaining-later :
    (x : Pair) (n : ℕ) (seen : List (Pair × ℕ)) → remaining x (later n seen) ≡ remaining x seen - n
unfolding remaining later
remaining-later x n [] = omega arith
remaining-later x n ((y, age) ∷ seen) = let h = remaining-later x n seen in ground arith

remaining-is_recent :
    (x : Pair) (seen : List (Pair × ℕ)) → (remaining x seen == 0) ≡ not (is_recent x seen)
unfolding remaining is_recent
remaining-is_recent x [] = refl
remaining-is_recent x ((y, age) ∷ seen) = let h = remaining-is_recent x seen in ground arith

remaining-accept :
    (b : Bool) (x y : Pair) (seen : List (Pair × ℕ))
    → remaining y (accept b x seen) ≡ (if pair_eq x y && b then 30000 else remaining y seen)
unfolding remaining
remaining-accept true x y seen = ground arith
remaining-accept false x y seen = ground arith

module _ {W S : Type 0} (r : Redis W S) (q : IsTimed r) where
  -- `MarkPacketSeen` for each pair in turn, each after a pause.
  unfoldable pub mark_all : Text → List (ℕ × Pair) → S → List (Result Bool)
  mark_all sid [] s = []
  mark_all sid ((n, (p, u)) ∷ xs) s =
      let (a, t) = mark_packet_seen r sid p u (q.pass n s) in a ∷ mark_all sid xs t

  -- The server holds the keys of the markings accepted so far, for what is left of 30 seconds.
  abbrev pub Remembers : Text → List (Pair × ℕ) → S → Type 0
  Remembers sid seen s =
      (p u : Text) → IsPlain p → q.left s (key_dedup sid p u) ≡ remaining (p, u) seen

  later-Remembers :
      (sid : Text) (n : ℕ) (seen : List (Pair × ℕ)) (s : S)
      → Remembers sid seen s
      → Remembers sid (later n seen) (q.pass n s)
  later-Remembers sid n seen s m p u i =
      q.pass_lem n s (key_dedup sid p u)
      ∙ ap (λ k. k - n) (m p u i)
      ∙ sym (remaining-later (p, u) n seen)

  step-Remembers :
      (sid p u : Text) (seen : List (Pair × ℕ)) (s : S) (b : Bool)
      → IsPlain p
      → (r.set_nx (key_dedup sid p u) (codes "1") dedup_ttl s).0 ≡ value b
      → Remembers sid seen s
      → (b ≡ not (is_recent (p, u) seen))
        × Remembers sid
            (accept (not (is_recent (p, u) seen)) (p, u) seen)
            (r.set_nx (key_dedup sid p u) (codes "1") dedup_ttl s).1
  step-Remembers sid p u seen s b i h m =
      let k = key_dedup sid p u in
      let e = ap (λ n. n == 0) (m p u i) ∙ remaining-is_recent (p, u) seen in
      (
        q.set_nx_reply k (codes "1") dedup_ttl s b h ∙ e,
        λ x y j.
            q.set_nx_lem k (codes "1") dedup_ttl s b h (key_dedup sid x y)
            ∙ rw (key_dedup_eq sid p x u y i j, e, m x y j)
                (sym (remaining-accept (not (is_recent (p, u) seen)) (p, u) (x, y) seen)),
      )

  -- Whatever pairs are marked in whatever order and with whatever pauses, if Redis answers each time
  -- and no packet id has a colon: a marking is answered with true exactly where the latest accepted
  -- marking of its pair, if there is one, is at least 30 seconds old.
  pub mark_all-first_seen :
      (sid : Text) (xs : List (ℕ × Pair)) (seen : List (Pair × ℕ)) (s : S) (bs : List Bool)
      → All (λ x. IsPlain x.1.0) xs
      → Remembers sid seen s
      → mark_all sid xs s ≡ map ok bs
      → bs ≡ first_seen xs seen
  unfolding mark_all first_seen mark_packet_seen
  mark_all-first_seen sid [] seen s [] i m h = refl
  mark_all-first_seen sid [] seen s (b ∷ bs) i m h = cc
  mark_all-first_seen sid ((n, (p, u)) ∷ xs) seen s [] i m h = cc
  mark_all-first_seen sid ((n, (p, u)) ∷ xs) seen s (b ∷ bs) (i, is) m h =
      let e =
        as_result-value (r.set_nx (key_dedup sid p u) (codes "1") dedup_ttl (q.pass n s)).0 b
          (ground arith) in
      let (f, k) =
        step-Remembers sid p u (later n seen) (q.pass n s) b i e (later-Remembers sid n seen s m) in
      let g =
        mark_all-first_seen sid xs
          (accept (not (is_recent (p, u) (later n seen))) (p, u) (later n seen)) _ bs is k
          (ground arith) in
      ground arith
