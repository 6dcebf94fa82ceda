-- ===== src/Domain/PacketLoss.antt =====
-- domain/packetloss.go: the probability, in percent, that a frame dies in the air.
pub mod Bounds
use maritime_simulation.Base.{Bool, if◌then◌else◌}
use maritime_simulation.Floats.{Float}

module _ {W : Type 0} ⦃fl : Float W⦄ where
  open fl use {lit, mul, lt, le}

  -- BaseLossPercent
  unfoldable pub base_loss_percent : W → W
  base_loss_percent distance_km =
      if le distance_km (lit 2 0)
      then lit 5 0
      else if le distance_km (lit 5 0)
      then lit 20 0
      else lit 60 0

  -- FinalLossPercent
  unfoldable pub final_loss_percent : W → W → W → W
  final_loss_percent distance_km max_range_km weather_severity =
      let p : W = mul (base_loss_percent distance_km) weather_severity in
      if lt max_range_km distance_km
      then lit 100 0
      else if lt (lit 100 0) p
      then lit 100 0
      else if lt p (lit 0 0)
      then lit 0 0
      else p

  -- RollDrop
  unfoldable pub roll_drop : W → W → Bool
  roll_drop roll final_loss_percent = lt roll final_loss_percent
