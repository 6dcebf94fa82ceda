-- ===== src/Repository/Edges.antt =====
-- repository/edge_repo.go: the rows of the virtual edges.
use maritime_simulation.Base.{List, [], ◌∷◌, Option, none, some}
use maritime_simulation.Base.Text.{Text}
use maritime_simulation.Domain.Errors.{Result, ok, err, not_found, other}
use maritime_simulation.Domain.Entities.{Edge}
use maritime_simulation.Repository.State.{and_then}
use maritime_simulation.Repository.Postgres.{
  Column, text, number, real, time, insert_edge, select_edges, update_edge_row, delete_edge_row,
  select_edge, Pool, found_row, unique_row, scanned, affected, collect,
}

module _ {W : Type 0} where
  -- The three columns that `Create` reads back into its edge.
  unfoldable pub scan_inserted : Edge W → List (Column W) → Option (Edge W)
  scan_inserted e (number id ∷ time at ∷ time later ∷ []) =
      some (record e { id = id; created_at = at; updated_at = later })
  scan_inserted e _ = none

  -- The seven columns of an edge.
  unfoldable pub scan_edge : List (Column W) → Result (Edge W)
  scan_edge (number id ∷ text code ∷ text name ∷ real lat ∷ real lng ∷ time at ∷ time later ∷ []) =
      ok (record {
        id = id;
        edge_code = code;
        name = name;
        latitude = lat;
        longitude = lng;
        created_at = at;
        updated_at = later;
      })
  scan_edge _ = err other

  module _ {S : Type 0} (q : Pool W S) where
    -- Create
    unfoldable pub create_edge : Edge W → S → Result (Edge W) × S
    create_edge e w =
        let (a, v) = q.query_row (insert_edge e.edge_code e.name e.latitude e.longitude) w in
        (and_then (unique_row a) (λ row. scanned (scan_inserted e row)), v)

    -- List
    unfoldable pub list_edges : S → Result (List (Edge W)) × S
    list_edges w = let (a, v) = q.query select_edges w in (collect scan_edge a, v)

    -- Update
    unfoldable pub update_edge : Text → Text → W → W → S → Result (Edge W) × S
    update_edge code name lat lng w =
        let (a, v) = q.query_row (update_edge_row code name lat lng) w in
        (and_then (found_row a) scan_edge, v)

    -- Delete
    unfoldable pub delete_edge : Text → S → Result (Unit {0}) × S
    delete_edge code w = let (a, v) = q.exec (delete_edge_row code) w in (affected not_found a, v)

    -- GetByCode
    unfoldable pub edge_by_code : Text → S → Result (Edge W) × S
    edge_by_code code w =
        let (a, v) = q.query_row (select_edge code) w in (and_then (found_row a) scan_edge, v)
