-- ===== src/Api/Router.antt =====
-- api/router.go: the requests that the server answers.
use maritime_simulation.Base.{List, Option}
use maritime_simulation.Base.Int.{ℤ}
use maritime_simulation.Base.Text.{Text}
use maritime_simulation.Floats.{Float}
use maritime_simulation.Domain.Schema.{SchemaField}
use maritime_simulation.Service.Ports.{Ports, M}
use maritime_simulation.Api.Response.{Response}
use maritime_simulation.Api.Handlers.{
  Backend, CreateSimulationRequest, UpdateParamsRequest, handle_create_simulation,
  handle_list_simulations, handle_get_simulation, handle_stop_simulation, handle_delete_session,
  handle_update_weather, handle_update_params, handle_get_stats, handle_set_schema,
  handle_get_schema, handle_get_topology, handle_list_telemetry, handle_healthz, handle_readyz,
}
use maritime_simulation.Api.Edges.{
  CreateEdgeRequest, UpdateEdgeRequest, handle_create_edge, handle_update_edge, handle_list_edges,
  handle_delete_edge,
}

-- A request to one of the routes of the REST interface, with its parameters.
pub data Request (W : Type 0) : Type 0 where
  create_simulation : Option (CreateSimulationRequest W) → Request W
  list_simulations : Option (Option ℤ) → Request W
  get_simulation stop_simulation delete_simulation : Text → Request W
  put_weather : Text → Option (Option W) → Request W
  put_params : Text → Option UpdateParamsRequest → Request W
  post_schema : Text → Option (List SchemaField) → Request W
  get_schema get_topology get_session_stats : Text → Request W
  get_telemetry : Text → Option (Option ℤ) → Option (Option ℤ) → Request W
  post_edge : Option (CreateEdgeRequest W) → Request W
  get_edges : Request W
  put_edge : Text → Option (UpdateEdgeRequest W) → Request W
  delete_edge : Text → Request W
  healthz readyz : Request W

module _ {W S : Type 0} ⦃fl : Float W⦄ (p : Ports W S) (b : Backend W S) where
  -- The routes that `Router` mounts, without the two of the sockets.
  unfoldable pub serve : Request W → M W S (Response W)
  serve (create_simulation req) = handle_create_simulation p b req
  serve (list_simulations limit) = handle_list_simulations p b limit
  serve (get_simulation id) = handle_get_simulation p b id
  serve (stop_simulation id) = handle_stop_simulation p b id
  serve (delete_simulation id) = handle_delete_session p b id
  serve (put_weather id req) = handle_update_weather p b id req
  serve (put_params id req) = handle_update_params p b id req
  serve (post_schema id req) = handle_set_schema p b id req
  serve (get_schema id) = handle_get_schema p b id
  serve (get_topology id) = handle_get_topology p b id
  serve (get_telemetry id limit offset) = handle_list_telemetry p b id limit offset
  serve (get_session_stats id) = handle_get_stats p b id
  serve (post_edge req) = handle_create_edge p b req
  serve get_edges = handle_list_edges p b
  serve (put_edge code req) = handle_update_edge p b code req
  serve (delete_edge code) = handle_delete_edge p b code
  serve healthz = handle_healthz p b
  serve readyz = handle_readyz p b
