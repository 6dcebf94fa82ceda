-- ===== src/Service/Anomaly.antt =====
-- service/anomaly.go: one roll of the dice for each radio traversal.
use maritime_simulation.Base.{Bool}
use maritime_simulation.Floats.{Float}
use maritime_simulation.Domain.Lora.{max_range_km}
use maritime_simulation.Domain.PacketLoss.{final_loss_percent, roll_drop}
use maritime_simulation.Service.Ports.{◌>>=◌, SessionParams, Ports, M, call, pure}

-- TraversalVerdict
pub record TraversalVerdict (W : Type 0) : Type 0 where
  pub dropped : Bool
  pub is_out_of_range : Bool
  pub distance_km : W
  pub loss_percent : W

module _ {W : Type 0} ⦃fl : Float W⦄ where
  open fl use {lit, mul, lt}

  -- The verdict on a given value of `randFloat01`.
  unfoldable pub verdict_of : W → SessionParams W → W → TraversalVerdict W
  verdict_of distance_km params r =
      let max_range : W = max_range_km params.tx_power_dbm in
      let loss : W = final_loss_percent distance_km max_range params.weather_severity in
      record {
        dropped = roll_drop (mul r (lit 100 0)) loss;
        is_out_of_range = lt max_range distance_km;
        distance_km = distance_km;
        loss_percent = loss;
      }

module _ {W S : Type 0} ⦃fl : Float W⦄ (p : Ports W S) where
  -- EnvironmentalAnomalyService.Evaluate
  unfoldable pub evaluate : W → SessionParams W → M W S (TraversalVerdict W)
  evaluate distance_km params = do r ← call p.rand_float01; pure (verdict_of distance_km params r)
