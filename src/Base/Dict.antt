-- ===== src/Base/Dict.antt =====
-- Go's `map[string]V` as an association list: a write replaces the entry of its key.
use mathlib.Core.Path.{◌≡◌, refl}
use mathlib.Core.Option.{Option, none, some}
use mathlib.Core.List.{List, [], ◌∷◌}
use native.Mathlib.Omega.{arith}
use mathlib.Core.Logic.{inl, inr}
use mathlib.Core.Bool.{Bool, true, false}
use maritime_simulation.Base.Tests.{if◌then◌else◌, Bool-cases}
use maritime_simulation.Base.Lists.{All, All-map}
use maritime_simulation.Base.Text.{Text, text_eq, text_eq_iff}

abbrev pub Dict {ℓ} : Type ℓ → Type ℓ
Dict V = List (Text × V)

abbrev pub is_some {ℓ} : {A : Type ℓ} → Option A → Bool
is_some none = false
is_some (some _) = true

module _ {ℓ} {V : Type ℓ} where
  unfoldable pub lookup : Text → Dict V → Option V
  lookup k [] = none
  lookup k ((j, v) ∷ d) = if text_eq j k then some v else lookup k d

  unfoldable pub insert : Text → V → Dict V → Dict V
  insert k v [] = (k, v) ∷ []
  insert k v ((j, w) ∷ d) = if text_eq j k then (k, v) ∷ d else (j, w) ∷ insert k v d

  unfoldable pub erase : Text → Dict V → Dict V
  erase k [] = []
  erase k ((j, w) ∷ d) = let rest = erase k d in if text_eq j k then rest else (j, w) ∷ rest

  pub lookup-insert :
      (k j : Text) (v : V) (d : Dict V)
      → lookup j (insert k v d) ≡ (if text_eq k j then some v else lookup j d)
  unfolding lookup insert
  lookup-insert k j v [] = refl
  lookup-insert k j v ((i, w) ∷ d) =
      ground (arith, text_eq_iff k j, text_eq_iff i k, text_eq_iff i j, lookup-insert k j v d)

  pub lookup-erase :
      (k j : Text) (d : Dict V) → lookup j (erase k d) ≡ (if text_eq k j then none else lookup j d)
  unfolding lookup erase
  lookup-erase k j [] = ground arith
  lookup-erase k j ((i, w) ∷ d) =
      ground (arith, text_eq_iff k j, text_eq_iff i k, text_eq_iff i j, lookup-erase k j d)

  -- Every key that stands in the list is found.
  pub lookup-keys : (d : Dict V) → All (λ kv. (v : V) × (lookup kv.0 d ≡ some v)) d
  unfolding lookup
  lookup-keys [] = tt
  lookup-keys ((j, w) ∷ d) = (
    (w, ground (arith, text_eq_iff j j)),
    All-map (λ kv. (v : V) × (lookup kv.0 d ≡ some v)) _
        (λ kv h. elim (Bool-cases (text_eq j kv.0)) [ inl e ↦ (w, rw e) | inr e ↦ (h.0, rw e h.1) ])
        d (lookup-keys d),
  )

  -- The key has a value.
  abbrev pub Has : Text → Dict V → Type 0
  Has k d = is_some (lookup k d) ≡ true

  pub insert-Has : (k j : Text) (v : V) (d : Dict V) → Has k d → Has k (insert j v d)
  insert-Has k j v d h = ground (arith, lookup-insert j k v d)

  pub insert-Has_self : (k : Text) (v : V) (d : Dict V) → Has k (insert k v d)
  insert-Has_self k v d = ground (arith, lookup-insert k k v d, text_eq_iff k k)
