-- ===== src/Tests/Rest.antt =====
-- Requests to the REST interface over the sample's ports, and rows of the database.
use maritime_simulation.Base.{◌≡◌, ◌↔◌, refl, true, [], ◌∷◌, none, some}
use maritime_simulation.Base.Int.{pos}
use maritime_simulation.Base.Text.{codes}
use maritime_simulation.Floats.{milli_float, Milli}
use maritime_simulation.Domain.Errors.{ok, err, session_inactive, not_found}
use maritime_simulation.Domain.Lora.{
  validate_spreading_factor, validate_tx_power, validate_weather_severity,
}
use maritime_simulation.Service.Sessions
use maritime_simulation.Api.Response.{respond}
use maritime_simulation.Api.Handlers.{
  Backend, CreateSimulationRequest, handle_create_simulation, create_named, with_body, answer,
}
use maritime_simulation.Api.Edges.{
  CreateEdgeRequest, handle_create_edge, edge_given, place, with_place, within,
}
use maritime_simulation.Api.Guards.{
  IsAllowed, IsPlaced, handle_create_simulation-IsAllowed, handle_create_edge-IsPlaced,
}
use maritime_simulation.Repository.Postgres.{
  Pool, Json, done, failed, broken, update_active_weather, update_active_radio, stop_active,
  delete_session_row,
}
use maritime_simulation.Repository.Sessions.{
  update_weather, update_radio_params, stop_session, delete_session,
}
use maritime_simulation.Repository.Sessions.Rows.{updates_iff}
use maritime_simulation.Tests.Sample.{sid, ports, start}

abbrev backend : Backend Milli (Unit {0})
backend = record {
  is_uuid = λ t. true;
  create_edge = λ e w. (ok e, w);
  update_edge = λ code name lat lng w. (err not_found, w);
  delete_edge = λ code w. (ok tt, w);
  list_telemetry = λ id l o w. (ok [], w);
  count_telemetry = λ id w. (ok 0, w);
  is_ready = λ w. true;
}

abbrev drill : CreateSimulationRequest Milli
drill = record {
  session_name = codes "drill";
  spreading_factor = some (pos 9);
  tx_power_dbm = none;
  weather_severity = none;
}

handle_create_simulation-IsAllowed_example :
    (r : CreateSimulationRequest Milli) × (some drill ≡ some r) × IsAllowed (ports true) backend r
unfolding handle_create_simulation create_named with_body answer respond Sessions.create
    validate_spreading_factor validate_tx_power validate_weather_severity Sessions.enter_session
    Sessions.start Sessions.cache_params Sessions.wrote
handle_create_simulation-IsAllowed_example =
    handle_create_simulation-IsAllowed (ports true) backend (some drill) start refl

abbrev pier : CreateEdgeRequest Milli
pier = record {
  edge_code = codes "E1";
  name = codes "pier";
  latitude = some 90000;
  longitude = some 180000;
}

handle_create_edge-IsPlaced_example :
    (r : CreateEdgeRequest Milli) × (some pier ≡ some r) × IsPlaced (ports true) backend r start
unfolding handle_create_edge edge_given with_body with_place within place answer respond
handle_create_edge-IsPlaced_example =
    handle_create_edge-IsPlaced (ports true) backend (some pier) start refl

abbrev json : Json Milli
json = record {
  marshal_stats = λ d. some (7 ∷ []);
  unmarshal_stats = λ raw. some ((codes "transmit_total", pos 3) ∷ []);
  marshal_fields = λ f. none;
  unmarshal_fields = λ raw. none;
  marshal_payload = λ d. none;
  unmarshal_payload = λ raw. none;
}

-- A database without rows.
abbrev bare : Pool Milli (Unit {0})
bare = record {
  exec = λ st w. (done 0, w);
  query_row = λ st w. (failed broken, w);
  query = λ st w. (done ([], true), w);
}

updates_iff_example :
    (((update_weather json bare sid 1000 tt).0 ≡ err session_inactive)
      ↔ ((bare.exec (update_active_weather sid 1000) tt).0 ≡ done 0))
    × (((update_radio_params json bare sid (pos 7) (pos 14) tt).0 ≡ err session_inactive)
        ↔ ((bare.exec (update_active_radio sid (pos 7) (pos 14)) tt).0 ≡ done 0))
    × (((stop_session json bare sid [] tt).0 ≡ err session_inactive)
        ↔ ((bare.exec (stop_active sid (7 ∷ [])) tt).0 ≡ done 0))
    × (((delete_session json bare sid tt).0 ≡ err not_found)
        ↔ ((bare.exec (delete_session_row sid) tt).0 ≡ done 0))
updates_iff_example = updates_iff json bare sid 1000 (pos 7) (pos 14) [] (7 ∷ []) tt refl
