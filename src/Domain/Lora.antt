-- ===== src/Domain/Lora.antt =====
-- domain/lora.go: the limits of the radio. Durations are milliseconds.
pub mod Limits
use maritime_simulation.Base.{ℕ, ◌||◌, if◌then◌else◌}
use maritime_simulation.Base.Int.{ℤ, pos, ltb_ℤ, leb_ℤ, eqb_ℤ, ◌-ℤ◌}
use maritime_simulation.Floats.{Float}
use maritime_simulation.Domain.Errors.{Result, ok, err, validation}

abbrev pub min_spreading_factor : ℤ
min_spreading_factor = pos 7

abbrev pub max_spreading_factor : ℤ
max_spreading_factor = pos 12

abbrev pub min_tx_power_dbm : ℤ
min_tx_power_dbm = pos 2

abbrev pub max_tx_power_dbm : ℤ
max_tx_power_dbm = pos 20

abbrev pub max_retries : ℕ
max_retries = 3

-- MaxPayloadBytes
unfoldable pub max_payload_bytes : ℤ → ℕ
max_payload_bytes sf = if leb_ℤ sf (pos 8) then 242 else if eqb_ℤ sf (pos 9) then 115 else 51

-- AckTimeout, with the entries of the map `ackTimeouts` in the order in which it lists them.
unfoldable pub ack_timeout : ℤ → ℕ
ack_timeout sf =
    if eqb_ℤ sf (pos 7)
    then 1000
    else if eqb_ℤ sf (pos 8)
    then 1500
    else if eqb_ℤ sf (pos 9)
    then 2500
    else if eqb_ℤ sf (pos 10)
    then 4000
    else if eqb_ℤ sf (pos 11)
    then 6500
    else if eqb_ℤ sf (pos 12)
    then 10000
    else if ltb_ℤ sf min_spreading_factor
    then 1000
    else 10000

-- ValidateSpreadingFactor
unfoldable pub validate_spreading_factor : ℤ → Result (Unit {0})
validate_spreading_factor sf =
    if ltb_ℤ sf min_spreading_factor || ltb_ℤ max_spreading_factor sf then err validation else ok tt

-- ValidateTxPower
unfoldable pub validate_tx_power : ℤ → Result (Unit {0})
validate_tx_power dbm =
    if ltb_ℤ dbm min_tx_power_dbm || ltb_ℤ max_tx_power_dbm dbm then err validation else ok tt

module _ {W : Type 0} ⦃fl : Float W⦄ where
  open fl use {lit, of_int, mul, div, pow, lt}

  abbrev pub min_weather_severity : W
  min_weather_severity = lit 0 0

  abbrev pub max_weather_severity : W
  max_weather_severity = lit 2 0

  -- MaxRangeKm
  unfoldable pub max_range_km : ℤ → W
  max_range_km tx_power_dbm =
      mul (lit 5 0) (pow (lit 2 0) (div (of_int (tx_power_dbm -ℤ pos 14)) (lit 6 0)))

  -- ValidateWeatherSeverity
  unfoldable pub validate_weather_severity : W → Result (Unit {0})
  validate_weather_severity ws =
      if lt ws min_weather_severity || lt max_weather_severity ws then err validation else ok tt
