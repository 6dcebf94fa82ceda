-- ===== src/Repository/Geo.antt =====
-- repository/geo_repo.go: the positions of the ships of a session.
use maritime_simulation.Base.{List, [], ◌∷◌, Option, none, some}
use maritime_simulation.Base.Text.{Text}
use maritime_simulation.Domain.Errors.{Result, ok, err, not_found}
use maritime_simulation.Domain.Entities.{NodePosition}
use maritime_simulation.Repository.Redis.{Redis, as_result}
use maritime_simulation.Repository.Keys.{key_geo}
use maritime_simulation.Repository.State.{and_then}

module _ {W : Type 0} where
  -- `pos[0]`, where the reply is not empty.
  unfoldable pub position_of : Text → List (Option (W × W)) → Result (NodePosition W)
  position_of node [] = err not_found
  position_of node (none ∷ rest) = err not_found
  position_of node (some (lat, lng) ∷ rest) = ok (record { id = node; lat = lat; lng = lng })

  -- The loop of `AllPositions`.
  unfoldable pub positions_of : List Text → List (Option (W × W)) → List (NodePosition W)
  positions_of [] coords = []
  positions_of (m ∷ ms) [] = []
  positions_of (m ∷ ms) (none ∷ coords) = positions_of ms coords
  positions_of (m ∷ ms) (some (lat, lng) ∷ coords) =
      record { id = m; lat = lat; lng = lng } ∷ positions_of ms coords

  module _ {S : Type 0} (r : Redis W S) where
    -- UpsertPosition
    unfoldable pub upsert_position : Text → Text → W → W → S → Result (Unit {0}) × S
    upsert_position sid node lat lng s =
        let (a, t) = r.geo_add (key_geo sid) node lat lng s in (as_result a, t)

    -- RemoveNode
    unfoldable pub remove_node : Text → Text → S → Result (Unit {0}) × S
    remove_node sid node s = let (a, t) = r.z_rem (key_geo sid) node s in (as_result a, t)

    -- Position
    unfoldable pub position : Text → Text → S → Result (NodePosition W) × S
    position sid node s =
        let (a, t) = r.geo_pos (key_geo sid) (node ∷ []) s in
        (and_then (as_result a) (position_of node), t)

    unfoldable pub positions_found :
        Text → Result (List Text) → S → Result (List (NodePosition W)) × S
    positions_found sid (err e) s = (err e, s)
    positions_found sid (ok []) s = (ok [], s)
    positions_found sid (ok (m ∷ ms)) s =
        let (a, t) = r.geo_pos (key_geo sid) (m ∷ ms) s in
        (and_then (as_result a) (λ coords. ok (positions_of (m ∷ ms) coords)), t)

    -- AllPositions
    unfoldable pub all_positions : Text → S → Result (List (NodePosition W)) × S
    all_positions sid s =
        let (a, t) = r.z_range (key_geo sid) s in positions_found sid (as_result a) t

    -- Clear
    unfoldable pub clear_geo : Text → S → Result (Unit {0}) × S
    clear_geo sid s = let (a, t) = r.del (key_geo sid ∷ []) s in (as_result a, t)
