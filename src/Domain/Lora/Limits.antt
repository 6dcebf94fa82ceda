-- ===== src/Domain/Lora/Limits.antt =====
-- The limits of the radio over the spreading factors.
use maritime_simulation.Base.{◌≤◌, ◌≡◌, ◌↔◌, arith}
use maritime_simulation.Base.Int.{ℤ, pos, ◌≤ℤ◌}
use maritime_simulation.Domain.Errors.{ok}
use maritime_simulation.Domain.Lora.{
  max_payload_bytes, ack_timeout, validate_spreading_factor, validate_tx_power,
}

-- The two checks accept exactly the spreading factors from 7 to 12 and the powers from 2 to 20.
pub validate_radio_iff :
    (sf dbm : ℤ)
    → ((validate_spreading_factor sf ≡ ok tt) ↔ ((pos 7 ≤ℤ sf) × (sf ≤ℤ pos 12)))
      × ((validate_tx_power dbm ≡ ok tt) ↔ ((pos 2 ≤ℤ dbm) × (dbm ≤ℤ pos 20)))
unfolding validate_spreading_factor validate_tx_power
validate_radio_iff sf dbm =
    ((λ h. ground arith, λ h. ground arith), (λ h. ground arith, λ h. ground arith))

-- A larger spreading factor never allows a larger payload, and never a shorter wait for an
-- acknowledgement; this holds beyond the range from 7 to 12, too.
pub spreading_factor_trade :
    (a b : ℤ)
    → a ≤ℤ b
    → (max_payload_bytes b ≤ max_payload_bytes a) × (ack_timeout a ≤ ack_timeout b)
unfolding max_payload_bytes ack_timeout
spreading_factor_trade a b h = (ground arith, ground arith)
