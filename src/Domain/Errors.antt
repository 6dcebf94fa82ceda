-- ===== src/Domain/Errors.antt =====
-- domain/errors.go: the sentinel errors, and what wraps none of them.
use maritime_simulation.Base.{◌≡◌, Bool, true, false, arith}

-- `other` stands for an error of the driver or of a codec, which `errors.Is` matches with none
-- of the sentinels. The message of a wrapped validation error is left out.
pub data Error : Type 0 where
  not_found session_inactive session_still_active validation : Error
  other : Error

pub data Result {ℓ} (A : Type ℓ) : Type ℓ where
  ok : A → Result A
  err : Error → Result A

abbrev pub failed {ℓ} : {A : Type ℓ} → Result A → Bool
failed (ok _) = false
failed (err _) = true

pub ok_injective : {A : Type 0} (a b : A) → ok a ≡ ok b → a ≡ b
ok_injective a b h = ground arith
