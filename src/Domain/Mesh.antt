-- ===== src/Domain/Mesh.antt =====
-- domain/mesh.go: the routing table, built in layers outward from the edges.
pub mod Scan
pub mod Layering
pub mod Loops
pub mod Routes
pub mod Entries
use maritime_simulation.Base.{
  ℕ, zero, suc, ◌-◌, Bool, true, false, not, ◌&&◌, ◌||◌, List, [], ◌∷◌, ◌++◌, none, some,
  if◌then◌else◌, length, ltb,
}
use maritime_simulation.Base.Text.{Text, text_lt}
use maritime_simulation.Base.Dict.{Dict, lookup, insert, erase}
use maritime_simulation.Floats.{Float}
use maritime_simulation.Domain.Entities.{NodePosition, Edge, RouteEntry, routed, isolated}
use maritime_simulation.Domain.Geo.{haversine_km}
use maritime_simulation.Domain.Packet.{max_hops}

-- The best candidate of a scan: `bestDist`, `bestEdge` or `bestParent`, and `found`.
pub record Best (W : Type 0) : Type 0 where
  pub dist : W
  pub name : Text
  pub found : Bool

-- `routes`, `unrouted`, and `prevLevel` or `currLevel`.
pub record Layers (W : Type 0) : Type 0 where
  pub routes : Dict (RouteEntry W)
  pub unrouted : Dict Bool
  pub layer : List Text

-- `unrouted[id]`, which is false for a missing key.
abbrev pub is_unrouted : Text → Dict Bool → Bool
is_unrouted id d = elim (lookup id d) [ none ↦ false | some b ↦ b ]

unfoldable pub erase_all : List Text → Dict Bool → Dict Bool
erase_all [] d = d
erase_all (id ∷ rest) d = erase_all rest (erase id d)

module _ {W : Type 0} where
  -- `sort.Slice` by ID.
  unfoldable pub insert_sorted : NodePosition W → List (NodePosition W) → List (NodePosition W)
  insert_sorted n [] = n ∷ []
  insert_sorted n (m ∷ rest) =
      let later = m ∷ insert_sorted n rest in if text_lt m.id n.id then later else n ∷ m ∷ rest

  unfoldable pub sort_by_id : List (NodePosition W) → List (NodePosition W)
  sort_by_id [] = []
  sort_by_id (n ∷ rest) = insert_sorted n (sort_by_id rest)

  -- The map `positions`.
  unfoldable pub index_positions :
      List (NodePosition W) → Dict (NodePosition W) → Dict (NodePosition W)
  index_positions [] d = d
  index_positions (n ∷ rest) d = index_positions rest (insert n.id n d)

  -- The map `unrouted` before the first level.
  unfoldable pub all_unrouted : List (NodePosition W) → Dict Bool → Dict Bool
  all_unrouted [] d = d
  all_unrouted (n ∷ rest) d = all_unrouted rest (insert n.id true d)

module _ {W : Type 0} ⦃fl : Float W⦄ where
  open fl use {lit, lt, eq}

  -- `positions[pid]`, with the zero value for a missing key.
  abbrev pub position_of : Text → Dict (NodePosition W) → NodePosition W
  position_of id d = elim (lookup id d) [
    | none ↦ record { id = []; lat = lit 0 0; lng = lit 0 0 }
    | some p ↦ p
  ]

  -- One round of the scan for the nearest edge, or for the nearest node of the previous level.
  unfoldable pub consider : W → Text → W → Best W → Best W
  consider max_range_km name d best =
      if lt max_range_km d
      then best
      else if not best.found || (lt d best.dist || (eq d best.dist && text_lt name best.name))
      then record { dist = d; name = name; found = true }
      else best

  unfoldable pub scan_edges : W → NodePosition W → List (Edge W) → Best W → Best W
  scan_edges max_range_km n [] best = best
  scan_edges max_range_km n (e ∷ rest) best =
      scan_edges max_range_km n rest
        (consider max_range_km e.edge_code (haversine_km n.lat n.lng e.latitude e.longitude) best)

  unfoldable pub scan_layer :
      W → NodePosition W → Dict (NodePosition W) → List Text → Best W → Best W
  scan_layer max_range_km n positions [] best = best
  scan_layer max_range_km n positions (pid ∷ rest) best =
      let p = position_of pid positions in
      scan_layer max_range_km n positions rest
        (consider max_range_km pid (haversine_km n.lat n.lng p.lat p.lng) best)

  abbrev pub entry_of : Text → Best W → Bool → ℕ → RouteEntry W
  entry_of id best is_edge level = record {
    node_id = id;
    parent = best.name;
    parent_is_edge = is_edge;
    distance_km = best.dist;
    hop_level = level;
    status = routed;
  }

  -- What level 1 does with the node `n`, once its nearest edge is known.
  unfoldable pub attach_edge : NodePosition W → Best W → Layers W → Layers W
  attach_edge n best s =
      if best.found
      then record {
        routes = insert n.id (entry_of n.id best true 1) s.routes;
        unrouted = erase n.id s.unrouted;
        layer = s.layer ++ (n.id ∷ []);
      }
      else s

  -- The loop of level 1.
  unfoldable pub first_level : W → List (Edge W) → List (NodePosition W) → Layers W → Layers W
  first_level max_range_km edges [] s = s
  first_level max_range_km edges (n ∷ rest) s = first_level max_range_km edges rest (
      attach_edge n
        (scan_edges max_range_km n edges (record { dist = lit 0 0; name = []; found = false })) s)

  -- What a later level does with the node `n`, once its nearest parent is known.
  unfoldable pub attach_node : ℕ → NodePosition W → Best W → Layers W → Layers W
  attach_node level n best s =
      if best.found
      then record s {
        routes = insert n.id (entry_of n.id best false level) s.routes;
        layer = s.layer ++ (n.id ∷ []);
      }
      else s

  -- The loop over the nodes of one later level; `layer` is `currLevel`, and `prev` `prevLevel`.
  unfoldable pub next_level :
      W → Dict (NodePosition W) → List Text → ℕ → List (NodePosition W) → Layers W → Layers W
  next_level max_range_km positions prev level [] s = s
  next_level max_range_km positions prev level (n ∷ rest) s =
      next_level max_range_km positions prev level rest (
        if is_unrouted n.id s.unrouted
        then attach_node level n
            (scan_layer max_range_km n positions prev
              (record { dist = max_range_km; name = []; found = false }))
            s
        else s)

  -- One round of the loop over the levels.
  unfoldable pub level_round :
      W → Dict (NodePosition W) → List (NodePosition W) → ℕ → Layers W → Layers W
  level_round max_range_km positions sorted level s =
      let t = next_level max_range_km positions s.layer level sorted (record s { layer = [] }) in
      record t { unrouted = erase_all t.layer t.unrouted }

  -- The loop over the levels; the first argument counts the levels up to `max_hops` that are left.
  unfoldable pub later_levels :
      ℕ → ℕ → W → Dict (NodePosition W) → List (NodePosition W) → Layers W → Layers W
  later_levels zero level max_range_km positions sorted s = s
  later_levels (suc left) level max_range_km positions sorted s =
      let rest =
        later_levels left (suc level) max_range_km positions sorted
          (level_round max_range_km positions sorted level s) in
      if ltb 0 (length s.unrouted) && ltb 0 (length s.layer) then rest else s

  abbrev pub isolated_entry : Text → RouteEntry W
  isolated_entry id = record {
    node_id = id;
    parent = [];
    parent_is_edge = false;
    distance_km = lit 0 0;
    hop_level = 0;
    status = isolated;
  }

  -- The last loop: what is left is isolated.
  unfoldable pub isolate : Dict Bool → Dict (RouteEntry W) → Dict (RouteEntry W)
  isolate [] routes = routes
  isolate ((id, b) ∷ rest) routes = isolate rest (insert id (isolated_entry id) routes)

  -- The layers when both loops have run; levels 2 to `max_hops` are left.
  unfoldable pub build_layers : List (NodePosition W) → List (Edge W) → W → Layers W
  build_layers sorted edges max_range_km =
      let s =
        first_level max_range_km edges sorted
          (record { routes = []; unrouted = all_unrouted sorted []; layer = [] }) in
      later_levels (max_hops - 1) 2 max_range_km (index_positions sorted []) sorted s

  -- BuildTopology
  unfoldable pub build_topology : List (NodePosition W) → List (Edge W) → W → Dict (RouteEntry W)
  build_topology nodes edges max_range_km =
      let s = build_layers (sort_by_id nodes) edges max_range_km in isolate s.unrouted s.routes
