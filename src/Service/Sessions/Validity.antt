-- ===== src/Service/Sessions/Validity.antt =====
-- The changes of parameters that reach the database.
use maritime_simulation.Base.{◌≡◌, Bool, true, false, List, ◌∷◌, Option, arith, refl, All}
use maritime_simulation.Base.Int.{ℤ, pos, ◌≤ℤ◌}
use maritime_simulation.Base.Text.{Text}
use maritime_simulation.Floats.{Float}
use maritime_simulation.Domain.Errors.{Result, ok, err}
use maritime_simulation.Domain.Entities.{Session}
use maritime_simulation.Domain.Lora.{
  validate_spreading_factor, validate_tx_power, validate_weather_severity,
}
use maritime_simulation.Domain.Lora.Limits.{validate_radio_iff}
use maritime_simulation.Service.Ports.{
  Ports, Sim, Effect, updated_weather, updated_radio, saved_params,
}
use maritime_simulation.Service.Sessions.{
  wrote, cache_params, params_of, broadcast_params, sync_params, refresh_and_broadcast, refresh_if,
  set_weather, update_weather, store_radio, set_radio, change_active, change_radio,
  update_radio_params, or_current,
}

module _ {W : Type 0} ⦃fl : Float W⦄ where
  open fl use {lit, lt}

  -- A change of the radio keeps to the ranges of both values, and one of the weather to the range
  -- from 0 to 2; a NaN is not ruled out, since it compares as neither below nor above.
  abbrev pub IsValid : Effect W → Type 0
  IsValid (updated_radio _ sf tx) =
      ((pos 7 ≤ℤ sf) × (sf ≤ℤ pos 12)) × ((pos 2 ≤ℤ tx) × (tx ≤ℤ pos 20))
  IsValid (updated_weather _ w) = (lt w (lit 0 0) ≡ false) × (lt (lit 2 0) w ≡ false)
  IsValid _ = Unit

  -- Every change recorded is valid.
  abbrev pub AllValid : List (Effect W) → Type 0
  AllValid = All IsValid

module _ {W S : Type 0} ⦃fl : Float W⦄ (p : Ports W S) where
  broadcast_params-AllValid :
      (r : Result (Unit {0})) (id : Text) (sess : Session W) (s : Sim W S)
      → AllValid s.trace
      → AllValid (broadcast_params p id sess r s).1.trace
  unfolding broadcast_params
  broadcast_params-AllValid (err e) id sess s v = v
  broadcast_params-AllValid (ok _) id sess s v = (tt, (tt, v))

  wrote-AllValid :
      (r : Result (Unit {0})) (id : Text) (sess : Session W) (s : Sim W S)
      → AllValid s.trace
      → AllValid (wrote p r (saved_params id (params_of sess)) s).1.trace
  unfolding wrote
  wrote-AllValid (err e) id sess s v = v
  wrote-AllValid (ok _) id sess s v = (tt, v)

  sync_params-AllValid :
      (r : Result (Session W)) (id : Text) (s : Sim W S)
      → AllValid s.trace
      → AllValid (sync_params p id r s).1.trace
  unfolding sync_params cache_params
  sync_params-AllValid (err e) id s v = v
  sync_params-AllValid (ok sess) id s v =
      let r = p.save_params sess.id (params_of sess) s.world in
      let t = record s { world = r.1 } in
      let (x, u) = wrote p r.0 (saved_params sess.id (params_of sess)) t in
      broadcast_params-AllValid x id sess u (wrote-AllValid r.0 sess.id sess t v)

  refresh_if-AllValid :
      (r : Result (Unit {0})) (id : Text) (e : Effect W) (s : Sim W S)
      → IsValid e
      → AllValid s.trace
      → AllValid (refresh_if p id e r s).1.trace
  unfolding refresh_if refresh_and_broadcast
  refresh_if-AllValid (err x) id e s i v = v
  refresh_if-AllValid (ok _) id e s i v =
      let r = p.session_by_id id s.world in
      sync_params-AllValid r.0 id (record s { world = r.1; trace = e ∷ s.trace }) (i, v)

  set_weather-AllValid :
      (r : Result (Unit {0})) (id : Text) (w : W) (s : Sim W S)
      → validate_weather_severity w ≡ r
      → AllValid s.trace
      → AllValid (set_weather p id w r s).1.trace
  unfolding set_weather validate_weather_severity
  set_weather-AllValid (err e) id w s h v = v
  set_weather-AllValid (ok _) id w s h v =
      let r = p.update_weather id w s.world in
      refresh_if-AllValid r.0 id (updated_weather id w) (record s { world = r.1 })
        (ground arith, ground arith) v

  store_radio-AllValid :
      (a b : Result (Unit {0})) (id : Text) (sf tx : ℤ) (s : Sim W S)
      → validate_spreading_factor sf ≡ a
      → validate_tx_power tx ≡ b
      → AllValid s.trace
      → AllValid (store_radio p id sf tx a b s).1.trace
  unfolding store_radio
  store_radio-AllValid (err e) _ id sf tx s h k v = v
  store_radio-AllValid (ok _) (err e) id sf tx s h k v = v
  store_radio-AllValid (ok _) (ok _) id sf tx s h k v =
      let r = p.update_radio_params id sf tx s.world in
      let (f, g) = validate_radio_iff sf tx in
      refresh_if-AllValid r.0 id (updated_radio id sf tx) (record s { world = r.1 }) (f.0 h, g.0 k)
        v

  change_active-AllValid :
      (b : Bool) (id : Text) (sf tx : Option ℤ) (current : Session W) (s : Sim W S)
      → AllValid s.trace
      → AllValid (change_active p id sf tx current b s).1.trace
  unfolding change_active set_radio
  change_active-AllValid false id sf tx current s v = v
  change_active-AllValid true id sf tx current s v =
      store_radio-AllValid _ _ id (or_current sf current.spreading_factor)
        (or_current tx current.tx_power_dbm) s refl refl v

  change_radio-AllValid :
      (r : Result (Session W)) (id : Text) (sf tx : Option ℤ) (s : Sim W S)
      → AllValid s.trace
      → AllValid (change_radio p id sf tx r s).1.trace
  unfolding change_radio
  change_radio-AllValid (err e) id sf tx s v = v
  change_radio-AllValid (ok current) id sf tx s v =
      change_active-AllValid current.is_active id sf tx current s v

  -- Whatever the arguments and the database: if every change of parameters recorded so far is
  -- valid, so it is after `UpdateRadioParams`, with one value given, both or none, and after
  -- `UpdateWeather`. A change is valid if the spreading factor is from 7 to 12 and the power from
  -- 2 to 20, or if the severity is not below 0 and not above 2.
  pub updates-AllValid :
      (id : Text) (sf tx : Option ℤ) (severity : W) (s : Sim W S)
      → AllValid s.trace
      → AllValid (update_radio_params p id sf tx s).1.trace
        × AllValid (update_weather p id severity s).1.trace
  unfolding update_radio_params update_weather
  updates-AllValid id sf tx severity s v =
      let r = p.session_by_id id s.world in
      (
        change_radio-AllValid r.0 id sf tx (record s { world = r.1 }) v,
        set_weather-AllValid (validate_weather_severity severity) id severity s refl v,
      )
