-- ===== src/Service/Sessions.antt =====
-- service/session_service.go: the lifecycle of a session. The `Warn` and `Info` lines of the log
-- are left out.
pub mod Outcomes
pub mod Resume
pub mod Validity
use maritime_simulation.Base.{
  ℕ, Bool, List, [], ◌∷◌, Option, none, some, true, false, if◌then◌else◌,
}
use maritime_simulation.Base.Int.{ℤ}
use maritime_simulation.Base.Text.{Text}
use maritime_simulation.Base.Dict.{Dict}
use maritime_simulation.Floats.{Float}
use maritime_simulation.Domain.Errors.{Result, ok, err, session_inactive, session_still_active}
use maritime_simulation.Domain.Entities.{Session}
use maritime_simulation.Domain.Lora.{
  validate_spreading_factor, validate_tx_power, validate_weather_severity,
}
use maritime_simulation.Protocol.{env_sync, session_ended}
use maritime_simulation.Service.Params.{env_params_from}
use maritime_simulation.Service.Ports.{
  Ports, SessionParams, Sim, M, Effect, call, pure, try_ok, record_effect, broadcast_to_nodes,
  broadcast_to_monitors, saved_params, created, stopped, deleted, updated_weather, updated_radio,
  cleared_geo, cleared_routes, cleared_state, kicked, ◌>>=◌, ◌>>◌,
}
use maritime_simulation.Service.Topology.{add_session, remove_session}

module _ {W : Type 0} where
  -- The literal that `cacheParams` and `refreshAndBroadcast` build.
  abbrev pub params_of : Session W → SessionParams W
  params_of sess = record {
    spreading_factor = sess.spreading_factor;
    tx_power_dbm = sess.tx_power_dbm;
    weather_severity = sess.weather_severity;
  }

  -- The session that `Create` hands to the repository; what it leaves out is Go's zero.
  abbrev pub new_session : Text → ℤ → ℤ → W → Session W
  new_session name sf tx_power_dbm weather = record {
    id = [];
    session_name = name;
    spreading_factor = sf;
    tx_power_dbm = tx_power_dbm;
    weather_severity = weather;
    is_active = false;
    stats_snapshot = none;
    created_at = 0;
    ended_at = none;
  }

abbrev pub or_current : Option ℤ → ℤ → ℤ
or_current none v = v
or_current (some w) v = w

module _ {W S : Type 0} (p : Ports W S) where
  -- A call of a repository that acts on the outside state alone, and its effect.
  abbrev pub act : (S → S) → Effect W → M W S (Unit {0})
  act f e = do call (λ w. (tt, f w)); record_effect e

  -- What a write answers; a successful one is recorded.
  unfoldable pub wrote : Result (Unit {0}) → Effect W → M W S (Result (Unit {0}))
  wrote (ok _) e = do record_effect e; pure (ok tt)
  wrote (err x) e = pure (err x)

  -- cacheParams
  unfoldable pub cache_params : Session W → M W S (Result (Unit {0}))
  cache_params sess = do
    r ← call (p.save_params sess.id (params_of sess))
    wrote r (saved_params sess.id (params_of sess))

  unfoldable pub start : Session W → Result (Unit {0}) → M W S (Result (Session W))
  start sess (err e) = pure (err e)
  start sess (ok _) = do add_session sess.id; pure (ok sess)

  unfoldable pub enter_session : Result (Session W) → M W S (Result (Session W))
  enter_session (err e) = pure (err e)
  enter_session (ok sess) = do record_effect (created sess); r ← cache_params sess; start sess r

  -- Stop, once the session is stopped in the database.
  unfoldable pub wind_up : Text → Dict ℤ → Result (Unit {0}) → M W S (Result (Session W))
  wind_up id stats (err e) = pure (err e)
  wind_up id stats (ok _) = do
    record_effect (stopped id stats)
    broadcast_to_nodes p id (session_ended id)
    broadcast_to_monitors p id (session_ended id)
    act (p.kick_session id) (kicked id)
    remove_session id
    act (p.clear_geo id) (cleared_geo id)
    act (p.clear_routes id) (cleared_routes id)
    act (p.clear_state id) (cleared_state id)
    call (p.session_by_id id)

  unfoldable pub stop_with : Text → Result (Dict ℤ) → M W S (Result (Session W))
  stop_with id (err e) = pure (err e)
  stop_with id (ok stats) = do r ← call (p.stop_session id stats); wind_up id stats r

  -- Stop
  unfoldable pub stop : Text → M W S (Result (Session W))
  stop id = do stats ← call (p.get_stats id); stop_with id stats

  unfoldable pub with_stats :
      Text → Result (Session W) → M W S (Result (Session W × Option (Dict ℤ)))
  with_stats id (err e) = pure (err e)
  with_stats id (ok sess) =
      if sess.is_active
      then (do live ← call (p.get_stats id); try_ok live λ l. pure (ok (sess, some l)))
      else pure (ok (sess, none))

  -- Get
  unfoldable pub get : Text → M W S (Result (Session W × Option (Dict ℤ)))
  get id = do sess ← call (p.session_by_id id); with_stats id sess

  -- List
  unfoldable pub list : ℕ → M W S (Result (List (Session W)))
  list limit = call (p.list_sessions limit)

  unfoldable pub delete_stopped : Text → Bool → M W S (Result (Unit {0}))
  delete_stopped id true = pure (err session_still_active)
  delete_stopped id false = do r ← call (p.delete_session id); wrote r (deleted id)

  unfoldable pub delete_inactive : Text → Result (Session W) → M W S (Result (Unit {0}))
  delete_inactive id (err e) = pure (err e)
  delete_inactive id (ok sess) = delete_stopped id sess.is_active

  -- Delete
  unfoldable pub delete : Text → M W S (Result (Unit {0}))
  delete id = do sess ← call (p.session_by_id id); delete_inactive id sess

  -- LiveStats
  unfoldable pub live_stats : Text → M W S (Result (Dict ℤ))
  live_stats id = do sess ← call (p.session_by_id id); try_ok sess λ _. call (p.get_stats id)

  -- A failed write ends the loop of `ResumeActive`; `later` is the rest of the loop.
  abbrev pub resume_next :
      Result (Unit {0}) → Sim W S → Result (Unit {0}) × Sim W S → Result (Unit {0}) × Sim W S
  resume_next (err e) t later = (err e, t)
  resume_next (ok _) t later = later

  -- The loop of `ResumeActive`.
  unfoldable pub resume_all : List (Session W) → M W S (Result (Unit {0}))
  resume_all [] s = (ok tt, s)
  resume_all (sess ∷ rest) s =
      let (r, t) = cache_params sess s in
      let later = resume_all rest (add_session sess.id t).1 in resume_next r t later

  -- ResumeActive
  unfoldable pub resume_active : M W S (Result (Unit {0}))
  resume_active = do active ← call p.list_active; try_ok active resume_all

module _ {W S : Type 0} ⦃fl : Float W⦄ (p : Ports W S) where
  -- Create
  unfoldable pub create : Text → ℤ → ℤ → W → M W S (Result (Session W))
  create name sf tx_power_dbm weather = try_ok (validate_spreading_factor sf) λ _.
      try_ok (validate_tx_power tx_power_dbm) λ _. try_ok (validate_weather_severity weather) λ _.
        do r ← call (p.create_session (new_session name sf tx_power_dbm weather)); enter_session p r

  unfoldable pub broadcast_params :
      Text → Session W → Result (Unit {0}) → M W S (Result (Session W))
  broadcast_params id sess (err e) = pure (err e)
  broadcast_params id sess (ok _) = do
    broadcast_to_nodes p id (env_sync (env_params_from (params_of sess)))
    broadcast_to_monitors p id (env_sync (env_params_from (params_of sess)))
    pure (ok sess)

  unfoldable pub sync_params : Text → Result (Session W) → M W S (Result (Session W))
  sync_params id (err e) = pure (err e)
  sync_params id (ok sess) = do r ← cache_params p sess; broadcast_params id sess r

  -- refreshAndBroadcast
  unfoldable pub refresh_and_broadcast : Text → M W S (Result (Session W))
  refresh_and_broadcast id = do sess ← call (p.session_by_id id); sync_params id sess

  -- The database was updated, or not.
  unfoldable pub refresh_if : Text → Effect W → Result (Unit {0}) → M W S (Result (Session W))
  refresh_if id e (err x) = pure (err x)
  refresh_if id e (ok _) = do record_effect e; refresh_and_broadcast id

  -- The severity is valid, or not.
  unfoldable pub set_weather : Text → W → Result (Unit {0}) → M W S (Result (Session W))
  set_weather id severity (err e) = pure (err e)
  set_weather id severity (ok _) = do
    r ← call (p.update_weather id severity)
    refresh_if id (updated_weather id severity) r

  -- UpdateWeather
  unfoldable pub update_weather : Text → W → M W S (Result (Session W))
  update_weather id severity = set_weather id severity (validate_weather_severity severity)

  -- Both new values are valid, or not.
  unfoldable pub store_radio :
      Text → ℤ → ℤ → Result (Unit {0}) → Result (Unit {0}) → M W S (Result (Session W))
  store_radio id sf tx_power_dbm (err e) _ = pure (err e)
  store_radio id sf tx_power_dbm (ok _) (err e) = pure (err e)
  store_radio id sf tx_power_dbm (ok _) (ok _) = do
    r ← call (p.update_radio_params id sf tx_power_dbm)
    refresh_if id (updated_radio id sf tx_power_dbm) r

  -- The new values are known.
  unfoldable pub set_radio : Text → ℤ → ℤ → M W S (Result (Session W))
  set_radio id sf tx_power_dbm =
      store_radio id sf tx_power_dbm (validate_spreading_factor sf) (validate_tx_power tx_power_dbm)

  unfoldable pub change_active :
      Text → Option ℤ → Option ℤ → Session W → Bool → M W S (Result (Session W))
  change_active id sf tx current false = pure (err session_inactive)
  change_active id sf tx current true =
      set_radio id (or_current sf current.spreading_factor) (or_current tx current.tx_power_dbm)

  unfoldable pub change_radio :
      Text → Option ℤ → Option ℤ → Result (Session W) → M W S (Result (Session W))
  change_radio id sf tx (err e) = pure (err e)
  change_radio id sf tx (ok current) = change_active id sf tx current current.is_active

  -- UpdateRadioParams
  unfoldable pub update_radio_params : Text → Option ℤ → Option ℤ → M W S (Result (Session W))
  update_radio_params id sf tx = do
    current ← call (p.session_by_id id)
    change_radio id sf tx current
