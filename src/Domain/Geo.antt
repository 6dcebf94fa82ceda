-- ===== src/Domain/Geo.antt =====
-- domain/geo.go
use maritime_simulation.Floats.{Float}

module _ {W : Type 0} ⦃fl : Float W⦄ where
  open fl use {lit, add, sub, mul, div, sin, cos, sqrt, atan2, pi}

  -- earthRadiusKm
  abbrev pub earth_radius_km : W
  earth_radius_km = lit 63710088 4

  -- HaversineKm
  unfoldable pub haversine_km : W → W → W → W → W
  haversine_km lat1 lng1 lat2 lng2 =
      let rad : W = div pi (lit 180 0) in
      let d_lat : W = mul (sub lat2 lat1) rad in
      let d_lng : W = mul (sub lng2 lng1) rad in
      let two : W = lit 2 0 in
      let a : W = add (mul (sin (div d_lat two)) (sin (div d_lat two))) (
        mul (mul (mul (cos (mul lat1 rad)) (cos (mul lat2 rad))) (sin (div d_lng two)))
          (sin (div d_lng two))) in
      let c : W = mul two (atan2 (sqrt a) (sqrt (sub (lit 1 0) a))) in mul earth_radius_km c
