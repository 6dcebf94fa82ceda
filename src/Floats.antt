-- ===== src/Floats.antt =====
-- Go's `float64`, which the development does not implement: the operations and constants that
-- the program uses, as an interface over any type `W`, with the laws of IEEE 754 comparisons
-- that the proofs rely on. They hold of every value, NaN included.
use maritime_simulation.Base.{
  ℕ, ◌*◌, ◌/◌, ◌+◌, ◌-◌, ◌^◌, ◌≤◌, ◌≡◌, Bool, true, false, arith, ltb, leb, ◌==◌, if◌then◌else◌,
}
use maritime_simulation.Base.Int.{ℤ, pos, pos_part}

-- `lit m k` is the decimal literal m / 10^k, `of_int` the conversion `float64(n)`, and
-- `to_int64` the conversion `int64(x)`.
pub record Float (W : Type 0) : Type 0 where
  pub lit : ℕ → ℕ → W
  pub of_int : ℤ → W
  pub to_int64 : W → ℤ
  pub neg : W → W
  pub add : W → W → W
  pub sub : W → W → W
  pub mul : W → W → W
  pub div : W → W → W
  pub lt : W → W → Bool
  pub le : W → W → Bool
  pub eq : W → W → Bool
  pub pi : W
  pub sin : W → W
  pub cos : W → W
  pub sqrt : W → W
  pub atan2 : W → W → W
  pub pow : W → W → W
  pub abs : W → W
  pub round : W → W

-- Comparisons with NaN are false, so none of these laws speaks of it.
pub record IsIeee (W : Type 0) ⦃fl : Float W⦄ : Type 0 where
  pub lt_irrefl : (x : W) → fl.lt x x ≡ false
  pub lt_trans : (x y z : W) → fl.lt x y ≡ true → fl.lt y z ≡ true → fl.lt x z ≡ true
  pub lt-eq : (x y z : W) → fl.lt x y ≡ true → fl.eq y z ≡ true → fl.lt x z ≡ true
  pub eq-lt : (x y z : W) → fl.eq x y ≡ true → fl.lt y z ≡ true → fl.lt x z ≡ true
  pub eq_trans : (x y z : W) → fl.eq x y ≡ true → fl.eq y z ≡ true → fl.eq x z ≡ true
  pub lt-le : (x y z : W) → fl.lt x y ≡ true → fl.le y z ≡ true → fl.lt x z ≡ true
  -- The decimal literals of whole numbers that a float represents exactly are ordered as these.
  pub lit_lt : (m n : ℕ) → m ≤ 2 ^ 53 → n ≤ 2 ^ 53 → fl.lt (fl.lit m 0) (fl.lit n 0) ≡ ltb m n
  pub le_trans : (x y z : W) → fl.le x y ≡ true → fl.le y z ≡ true → fl.le x z ≡ true

-- The interface can be met: whole thousandths, where the trigonometric functions, which no
-- proof computes, are taken to be simple ones.
abbrev pub Milli : Type 0
Milli = ℕ

abbrev gap : ℕ → ℕ → ℕ
gap a b = if ltb a b then b - a else a - b

instance abbrev pub milli_float : Float Milli
milli_float = record {
  lit = λ m k. m * 1000 / 10 ^ k;
  of_int = λ n. pos_part n * 1000;
  to_int64 = λ x. pos (x / 1000);
  neg = λ x. x;
  add = λ x y. x + y;
  sub = gap;
  mul = λ x y. x * y / 1000;
  div = λ x y. x * 1000 / y;
  lt = ltb;
  le = leb;
  eq = ◌==◌;
  pi = 3142;
  sin = λ x. x;
  cos = λ x. 1000;
  sqrt = λ x. x;
  atan2 = λ x y. x;
  pow = λ x y. 1000;
  abs = λ x. x;
  round = λ x. (x + 500) / 1000 * 1000;
}

whole : (m n : ℕ) → ltb (m * 1000 / 10 ^ 0) (n * 1000 / 10 ^ 0) ≡ ltb m n
whole m n = ground arith

pub Milli-IsIeee : IsIeee Milli
Milli-IsIeee = record {
  lt_irrefl = λ x. ground arith;
  lit_lt = λ m n h k. whole m n;
  lt_trans = λ x y z h k. ground arith;
  lt-eq = λ x y z h k. ground arith;
  eq-lt = λ x y z h k. ground arith;
  eq_trans = λ x y z h k. ground arith;
  lt-le = λ x y z h k. ground arith;
  le_trans = λ x y z h k. ground arith;
}
