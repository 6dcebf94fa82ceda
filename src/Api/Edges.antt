-- ===== src/Api/Edges.antt =====
-- api/handlers.go: the handlers of the virtual edges.
use maritime_simulation.Base.{ℕ, Option, none, some, if◌then◌else◌, ◌||◌}
use maritime_simulation.Base.Text.{Text}
use maritime_simulation.Floats.{Float}
use maritime_simulation.Domain.Entities.{Edge}
use maritime_simulation.Service.Ports.{Ports, M, call, pure}
use maritime_simulation.Api.Response.{
  Response, respond_ok, respond_created, respond_error, edge_data, edge_list, edge_removed,
}
use maritime_simulation.Api.Handlers.{Backend, bad_length, with_body, answer}

-- createEdgeRequest
pub record CreateEdgeRequest (W : Type 0) : Type 0 where
  pub edge_code : Text
  pub name : Text
  pub latitude : Option W
  pub longitude : Option W

-- updateEdgeRequest
pub record UpdateEdgeRequest (W : Type 0) : Type 0 where
  pub name : Text
  pub latitude : Option W
  pub longitude : Option W

module _ {W S : Type 0} ⦃fl : Float W⦄ (p : Ports W S) (b : Backend W S) where
  open fl use {lit, neg, lt}

  -- The cases of the coordinates, and the values if none applies: `bound` is 90 or 180.
  unfoldable pub within : ℕ → Option W → Option W
  within bound none = none
  within bound (some x) = if lt x (neg (lit bound 0)) || lt (lit bound 0) x then none else some x

  -- The switch on name, latitude and longitude, and what follows it.
  unfoldable pub place : Option W → Option W → (W → W → M W S (Response W)) → M W S (Response W)
  place none lng f = pure (respond_error 400)
  place (some lat) none f = pure (respond_error 400)
  place (some lat) (some lng) f = f lat lng

  unfoldable pub with_place :
      Text → Option W → Option W → (W → W → M W S (Response W)) → M W S (Response W)
  with_place name lat lng f =
      if bad_length 150 name
      then pure (respond_error 400)
      else place (within 90 lat) (within 180 lng) f

  -- The edge that `handleCreateEdge` builds; what it leaves out is Go's zero.
  abbrev pub new_edge : Text → Text → W → W → Edge W
  new_edge code name lat lng = record {
    id = 0;
    edge_code = code;
    name = name;
    latitude = lat;
    longitude = lng;
    created_at = 0;
    updated_at = 0;
  }

  -- handleCreateEdge
  unfoldable pub edge_given : CreateEdgeRequest W → M W S (Response W)
  edge_given req =
      if bad_length 50 req.edge_code
      then pure (respond_error 400)
      else with_place req.name req.latitude req.longitude λ lat lng.
        answer p b (call (b.create_edge (new_edge req.edge_code req.name lat lng)))
          (λ e. respond_created (edge_data e))

  unfoldable pub handle_create_edge : Option (CreateEdgeRequest W) → M W S (Response W)
  handle_create_edge req = with_body p b req edge_given

  -- handleUpdateEdge
  unfoldable pub update_given : Text → UpdateEdgeRequest W → M W S (Response W)
  update_given code req = with_place req.name req.latitude req.longitude λ lat lng.
      answer p b (call (b.update_edge code req.name lat lng)) (λ e. respond_ok (edge_data e))

  unfoldable pub handle_update_edge : Text → Option (UpdateEdgeRequest W) → M W S (Response W)
  handle_update_edge code req =
      if bad_length 50 code then pure (respond_error 400) else with_body p b req (update_given code)

  -- handleListEdges
  unfoldable pub handle_list_edges : M W S (Response W)
  handle_list_edges = answer p b (call p.list_edges) (λ es. respond_ok (edge_list es))

  -- handleDeleteEdge
  unfoldable pub handle_delete_edge : Text → M W S (Response W)
  handle_delete_edge code =
      if bad_length 50 code
      then pure (respond_error 400)
      else answer p b (call (b.delete_edge code)) (λ _. respond_ok (edge_removed code))
