-- ===== src/Domain/PacketLoss/Bounds.antt =====
-- The range of the loss of domain/packetloss.go.
use maritime_simulation.Base.{◌≡◌, false, arith}
use maritime_simulation.Floats.{Float, IsIeee}
use maritime_simulation.Domain.PacketLoss.{final_loss_percent}

module _ {W : Type 0} ⦃fl : Float W⦄ (ieee : IsIeee W) where
  open fl use {lit, lt}

  -- Whatever the distance, the range and the weather, NaN included: the loss is not below 0 and
  -- not above 100.
  pub final_loss_percent-bounds :
      (distance range weather : W)
      → (lt (final_loss_percent distance range weather) (lit 0 0) ≡ false)
        × (lt (lit 100 0) (final_loss_percent distance range weather) ≡ false)
  unfolding final_loss_percent
  final_loss_percent-bounds distance range weather = (
    ground (arith, ieee.lit_lt 100 0, ieee.lt_irrefl (lit 0 0)),
    ground (arith, ieee.lt_irrefl (lit 100 0), ieee.lit_lt 100 0),
  )
