-- ===== src/Service/Params.antt =====
-- EnvParamsFrom of service/session_service.go: the parameters that clients obey, derived from the
-- cached ones.
use maritime_simulation.Floats.{Float}
use maritime_simulation.Domain.Lora.{max_payload_bytes, ack_timeout, max_retries, max_range_km}
use maritime_simulation.Protocol.{EnvSyncParams}
use maritime_simulation.Service.Ports.{SessionParams}

module _ {W : Type 0} ⦃fl : Float W⦄ where
  -- EnvParamsFrom
  unfoldable pub env_params_from : SessionParams W → EnvSyncParams W
  env_params_from q = record {
    spreading_factor = q.spreading_factor;
    max_payload_bytes = max_payload_bytes q.spreading_factor;
    ack_timeout_ms = ack_timeout q.spreading_factor;
    max_retries = max_retries;
    tx_power_dbm = q.tx_power_dbm;
    max_range_km = max_range_km q.tx_power_dbm;
    weather_severity = q.weather_severity;
  }
