-- ===== src/Base/Lists.antt =====
-- Lists measured by native numbers, with predicates and filters by recursion.
use Prim.Native.Nat.{ℕ, zero, suc, ◌+◌, ◌≤◌}
use mathlib.Core.Path.{◌≡◌, refl, subst, ap}
use mathlib.Core.Logic.{◌⊎◌, inl, inr}
use mathlib.Core.Option.{Option, none, some, some-injective}
use mathlib.Core.List.{List, [], ◌∷◌, ◌++◌}
use native.Mathlib.Omega.{arith}

module _ {ℓ} {A : Type ℓ} where
  abbrev pub length : List A → ℕ
  length [] = 0
  length (x ∷ xs) = suc (length xs)

  pub length-append : (xs ys : List A) → length (xs ++ ys) ≡ length xs + length ys
  length-append [] ys = omega arith
  length-append (x ∷ xs) ys = omega (arith, length-append xs ys)

  abbrev pub get_elem? : List A → ℕ → Option A
  get_elem? [] i = none
  get_elem? (x ∷ xs) zero = some x
  get_elem? (x ∷ xs) (suc i) = get_elem? xs i

  -- Every element satisfies `P`.
  abbrev pub All {κ} : (A → Type κ) → List A → Type κ
  All P [] = Unit
  All P (x ∷ xs) = P x × All P xs

  -- Some element satisfies `P`.
  abbrev pub Any : (A → Type 0) → List A → Type 0
  Any P [] = ⊥
  Any P (x ∷ xs) = P x ⊎ Any P xs

  pub All-append {κ} : (P : A → Type κ) (xs ys : List A) → All P xs → All P ys → All P (xs ++ ys)
  All-append P [] ys _ q = q
  All-append P (x ∷ xs) ys (p, ps) q = (p, All-append P xs ys ps q)

  pub All-map {κ μ} :
      (P : A → Type κ) (Q : A → Type μ)
      → ((x : A) → P x → Q x)
      → (xs : List A) → All P xs
      → All Q xs
  All-map P Q f [] _ = tt
  All-map P Q f (x ∷ xs) (p, ps) = (f x p, All-map P Q f xs ps)

  pub Any-append : (P : A → Type 0) (xs ys : List A) → Any P (xs ++ ys) → Any P xs ⊎ Any P ys
  Any-append P [] ys h = inr h
  Any-append P (x ∷ xs) ys (inl p) = inl (inl p)
  Any-append P (x ∷ xs) ys (inr h) = elim (Any-append P xs ys h) [
    | inl l ↦ inl (inr l)
    | inr r ↦ inr r
  ]

  pub append-Any : (P : A → Type 0) (xs ys : List A) → Any P xs ⊎ Any P ys → Any P (xs ++ ys)
  append-Any P [] ys (inl h) = absurd h
  append-Any P [] ys (inr h) = h
  append-Any P (x ∷ xs) ys (inl (inl p)) = inl p
  append-Any P (x ∷ xs) ys (inl (inr h)) = inr (append-Any P xs ys (inl h))
  append-Any P (x ∷ xs) ys (inr h) = inr (append-Any P xs ys (inr h))

  pub Any-map : (P Q : A → Type 0) → ((x : A) → P x → Q x) → (xs : List A) → Any P xs → Any Q xs
  Any-map P Q f [] h = h
  Any-map P Q f (x ∷ xs) (inl p) = inl (f x p)
  Any-map P Q f (x ∷ xs) (inr h) = inr (Any-map P Q f xs h)

  -- What holds of every element holds of one that is found.
  pub All-Any : (P Q : A → Type 0) (xs : List A) → All P xs → Any Q xs → (x : A) × P x × Q x
  All-Any P Q [] h k = absurd k
  All-Any P Q (x ∷ xs) (p, ps) (inl q) = (x, p, q)
  All-Any P Q (x ∷ xs) (p, ps) (inr k) = All-Any P Q xs ps k

module _ {A : Type 0} where
  pub Any-find : (P : A → Type 0) (xs : List A) → Any P xs → (x : A) × Any (λ y. y ≡ x) xs × P x
  Any-find P [] h = absurd h
  Any-find P (x ∷ xs) (inl p) = (x, inl refl, p)
  Any-find P (x ∷ xs) (inr h) = let (y, i, p) = Any-find P xs h in (y, inr i, p)

  pub All-at {κ} : (P : A → Type κ) (xs : List A) (x : A) → All P xs → Any (λ y. y ≡ x) xs → P x
  All-at P [] x ps h = absurd h
  All-at P (y ∷ xs) x (p, ps) (inl e) = subst P e p
  All-at P (y ∷ xs) x (p, ps) (inr h) = All-at P xs x ps h

module _ {A : Type 0} where
  -- The list with this entry replaced, and unchanged where there is none.
  abbrev pub set : List A → ℕ → A → List A
  set [] i x = []
  set (y ∷ ys) zero x = x ∷ ys
  set (y ∷ ys) (suc i) x = y ∷ set ys i x

  pub All-set {κ} :
      (P : A → Type κ) (xs : List A) (i : ℕ) (x : A) → All P xs → P x → All P (set xs i x)
  All-set P [] i x h p = tt
  All-set P (y ∷ ys) zero x (q, h) p = (p, h)
  All-set P (y ∷ ys) (suc i) x (q, h) p = (q, All-set P ys i x h p)

  pub All-get {κ} :
      (P : A → Type κ) (xs : List A) (i : ℕ) (x : A) → All P xs → get_elem? xs i ≡ some x → P x
  All-get P [] i x h e = cc
  All-get P (y ∷ ys) zero x (q, h) e = subst P (some-injective _ _ e) q
  All-get P (y ∷ ys) (suc i) x (q, h) e = All-get P ys i x h e

  -- The sum of a measure over a list.
  abbrev pub total : (A → ℕ) → List A → ℕ
  total f [] = 0
  total f (x ∷ xs) = f x + total f xs

  pub total-set :
      (f : A → ℕ) (xs : List A) (i : ℕ) (x y : A)
      → get_elem? xs i ≡ some x
      → total f (set xs i y) + f x ≡ total f xs + f y
  total-set f [] i x y e = cc
  total-set f (z ∷ zs) zero x y e = let d : f z ≡ f x = ap f (some-injective _ _ e) in omega arith
  total-set f (z ∷ zs) (suc i) x y e = omega (arith, total-set f zs i x y e)

  pub total-le : (f g : A → ℕ) (xs : List A) → All (λ x. f x ≤ g x) xs → total f xs ≤ total g xs
  total-le f g [] h = omega arith
  total-le f g (x ∷ xs) (p, h) = omega (arith, total-le f g xs h)
