-- ===== src/Api/Handlers.antt =====
-- api/handlers.go: the handlers of the simulations. A request's body is what the JSON decoder makes
-- of it, none for an error; the test of a UUID and `strconv.Atoi` are parameters.
use maritime_simulation.Base.{
  ℕ, Bool, List, Option, none, some, if◌then◌else◌, ◌||◌, ◌&&◌, not, ltb, length,
}
use maritime_simulation.Base.Int.{ℤ, pos, pos_part}
use maritime_simulation.Base.Text.{Text}
use maritime_simulation.Base.Dict.{is_some}
use maritime_simulation.Floats.{Float}
use maritime_simulation.Domain.Errors.{Result, ok, err}
use maritime_simulation.Domain.Entities.{Edge}
use maritime_simulation.Domain.Packet.{is_empty}
use maritime_simulation.Domain.Schema.{SchemaField}
use maritime_simulation.Service.Ports.{Ports, M, call, pure, try_ok, ◌>>=◌}
use maritime_simulation.Repository.Telemetry.{TelemetryRow}
use maritime_simulation.Service.Sessions
use maritime_simulation.Service.Schemas
use maritime_simulation.Service.Topology.{snapshot}
use maritime_simulation.Api.Response.{
  Response, respond, respond_ok, respond_created, respond_error, query_int, nil, session_created,
  session_data, session_list, session_stats, session_removed, stats_data, schema_stored,
  schema_data, topology_data, telemetry_data, time_data,
}

-- What the handlers call beside the services: `uuid.Parse`, the other methods of the edge and
-- telemetry repositories, and the readiness probe.
pub record Backend (W S : Type 0) : Type 0 where
  pub is_uuid : Text → Bool
  pub create_edge : Edge W → S → Result (Edge W) × S
  pub update_edge : Text → Text → W → W → S → Result (Edge W) × S
  pub delete_edge : Text → S → Result (Unit {0}) × S
  pub list_telemetry : Text → ℤ → ℤ → S → Result (List (TelemetryRow W)) × S
  pub count_telemetry : Text → S → Result ℕ × S
  pub is_ready : S → Bool

-- createSimulationRequest
pub record CreateSimulationRequest (W : Type 0) : Type 0 where
  pub session_name : Text
  pub spreading_factor : Option ℤ
  pub tx_power_dbm : Option ℤ
  pub weather_severity : Option W

-- updateParamsRequest
pub record UpdateParamsRequest : Type 0 where
  pub spreading_factor : Option ℤ
  pub tx_power_dbm : Option ℤ

abbrev pub or_default : {A : Type 0} → Option A → A → A
or_default none d = d
or_default (some a) d = a

-- `s == "" || len(s) > n`
abbrev pub bad_length : ℕ → Text → Bool
bad_length n s = is_empty s || ltb n (length s)

module _ {W S : Type 0} ⦃fl : Float W⦄ (p : Ports W S) (b : Backend W S) where
  open fl use {lit}

  -- sessionID, and the early return where it fails.
  unfoldable pub with_session : Text → M W S (Response W) → M W S (Response W)
  with_session id m = if b.is_uuid id then m else pure (respond_error 400)

  -- decodeBody, and the early return where it fails.
  unfoldable pub with_body : {A : Type 0} → Option A → (A → M W S (Response W)) → M W S (Response W)
  with_body none f = pure (respond_error 400)
  with_body (some a) f = f a

  -- A call of a service, and the response.
  unfoldable pub answer : {A : Type 0} → M W S (Result A) → (A → Response W) → M W S (Response W)
  answer m f = do r ← m; pure (respond f r)

  -- handleCreateSimulation
  unfoldable pub create_named : CreateSimulationRequest W → M W S (Response W)
  create_named req =
      if bad_length 150 req.session_name
      then pure (respond_error 400)
      else answer
          (Sessions.create p req.session_name (or_default req.spreading_factor (pos 7))
            (or_default req.tx_power_dbm (pos 20)) (or_default req.weather_severity (lit 1 0)))
          (λ sess. respond_created (session_created sess))

  unfoldable pub handle_create_simulation : Option (CreateSimulationRequest W) → M W S (Response W)
  handle_create_simulation req = with_body req create_named

  -- handleListSimulations
  unfoldable pub handle_list_simulations : Option (Option ℤ) → M W S (Response W)
  handle_list_simulations limit =
      answer (Sessions.list p (pos_part (query_int limit (pos 50) (pos 1) (pos 200))))
        (λ ss. respond_ok (session_list ss))

  -- handleGetSimulation
  unfoldable pub handle_get_simulation : Text → M W S (Response W)
  handle_get_simulation id =
      with_session id (answer (Sessions.get p id) (λ r. respond_ok (session_stats r.0 r.1)))

  -- handleStopSimulation
  unfoldable pub handle_stop_simulation : Text → M W S (Response W)
  handle_stop_simulation id =
      with_session id (answer (Sessions.stop p id) (λ sess. respond_ok (session_data sess)))

  -- handleDeleteSession
  unfoldable pub handle_delete_session : Text → M W S (Response W)
  handle_delete_session id =
      with_session id (answer (Sessions.delete p id) (λ _. respond_ok (session_removed id)))

  -- handleUpdateWeather; the body is its one field, which may be missing.
  unfoldable pub weather_given : Text → Option W → M W S (Response W)
  weather_given id none = pure (respond_error 400)
  weather_given id (some severity) =
      answer (Sessions.update_weather p id severity) (λ sess. respond_ok (session_data sess))

  unfoldable pub handle_update_weather : Text → Option (Option W) → M W S (Response W)
  handle_update_weather id req = with_session id (with_body req (weather_given id))

  -- handleUpdateParams
  unfoldable pub params_given : Text → UpdateParamsRequest → M W S (Response W)
  params_given id req =
      if not (is_some req.spreading_factor) && not (is_some req.tx_power_dbm)
      then pure (respond_error 400)
      else answer (Sessions.update_radio_params p id req.spreading_factor req.tx_power_dbm)
          (λ sess. respond_ok (session_data sess))

  unfoldable pub handle_update_params : Text → Option UpdateParamsRequest → M W S (Response W)
  handle_update_params id req = with_session id (with_body req (params_given id))

  -- handleGetStats
  unfoldable pub handle_get_stats : Text → M W S (Response W)
  handle_get_stats id =
      with_session id (answer (Sessions.live_stats p id) (λ d. respond_ok (stats_data d)))

  -- handleSetSchema
  unfoldable pub handle_set_schema : Text → Option (List SchemaField) → M W S (Response W)
  handle_set_schema id req = with_session id (
      with_body req
        λ fields. answer (Schemas.set_schema p id fields) (λ st. respond_ok (schema_stored st)))

  -- handleGetSchema
  unfoldable pub handle_get_schema : Text → M W S (Response W)
  handle_get_schema id =
      with_session id (answer (Schemas.get_active p id) (λ sc. respond_ok (schema_data sc)))

  -- handleGetTopology
  unfoldable pub handle_get_topology : Text → M W S (Response W)
  handle_get_topology id =
      with_session id (answer (snapshot p id) (λ t. respond_ok (topology_data t)))

  -- The two reads of `handleListTelemetry`.
  unfoldable pub count_rows :
      Text → Result (List (TelemetryRow W)) → M W S (Result (List (TelemetryRow W) × ℕ))
  count_rows id (err e) = pure (err e)
  count_rows id (ok items) = do
    total ← call (b.count_telemetry id)
    try_ok total λ n. pure (ok (items, n))

  unfoldable pub telemetry_page : Text → ℤ → ℤ → M W S (Result (List (TelemetryRow W) × ℕ))
  telemetry_page id limit offset = do
    items ← call (b.list_telemetry id limit offset)
    count_rows id items

  unfoldable pub read_telemetry : Text → ℤ → ℤ → M W S (Response W)
  read_telemetry id limit offset =
      answer (telemetry_page id limit offset)
        (λ r. respond_ok (telemetry_data r.0 r.1 limit offset))

  -- handleListTelemetry
  unfoldable pub handle_list_telemetry :
      Text → Option (Option ℤ) → Option (Option ℤ) → M W S (Response W)
  handle_list_telemetry id limit offset = with_session id (
      read_telemetry id (query_int limit (pos 50) (pos 1) (pos 500))
        (query_int offset (pos 0) (pos 0) (pos 1_000_000)))

  -- handleHealthz
  unfoldable pub handle_healthz : M W S (Response W)
  handle_healthz = do t ← call p.now; pure (respond_ok (time_data t))

  -- handleReadyz
  unfoldable pub handle_readyz : M W S (Response W)
  handle_readyz s = (if b.is_ready s.world then respond_ok nil else respond_error 503, s)
