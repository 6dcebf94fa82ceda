-- ===== src/Tests/Mesh.antt =====
-- The routing table of one edge and two ships.
use maritime_simulation.Base.{All, ◌≤◌, ◌≡◌, refl, [], ◌∷◌, List, some, Any, false}
use maritime_simulation.Base.Text.{Text, text_eq, text_lt, codes}
use maritime_simulation.Base.Dict.{Has, lookup, insert, erase}
use maritime_simulation.Floats.{milli_float, Milli, Milli-IsIeee}
use maritime_simulation.Domain.Entities.{NodePosition, Edge, RouteEntry, routed}
use maritime_simulation.Domain.Geo.{haversine_km}
use maritime_simulation.Domain.Mesh.{
  build_topology, sort_by_id, index_positions, build_layers, insert_sorted, all_unrouted, consider,
  scan_edges, scan_layer, attach_edge, first_level, attach_node, next_level, level_round,
  later_levels, erase_all, isolate,
}
use maritime_simulation.Domain.Mesh.Routes.{
  IsSound, follow, build_topology-IsSound, build_topology-follow,
}
use maritime_simulation.Domain.Mesh.Entries.{build_topology-Has}
use maritime_simulation.Tests.Sample.{harbour, near_ship, far_ship}

abbrev ships : List (NodePosition Milli)
ships = far_ship ∷ near_ship ∷ []

abbrev edges : List (Edge Milli)
edges = harbour ∷ []

abbrev entry : RouteEntry Milli
entry = record {
  node_id = codes "B";
  parent = codes "A";
  parent_is_edge = false;
  distance_km = 1465331;
  hop_level = 2;
  status = routed;
}

far_entry : lookup (codes "B") (build_topology ships edges 10000000) ≡ some entry
unfolding build_topology build_layers sort_by_id insert_sorted index_positions all_unrouted consider
    scan_edges scan_layer attach_edge first_level attach_node next_level level_round later_levels
    erase_all isolate lookup insert erase text_lt text_eq haversine_km
far_entry = refl

build_topology-IsSound_example :
    IsSound 10000000
      (index_positions (sort_by_id ships) [])
      (sort_by_id ships)
      edges
      (build_topology ships edges 10000000)
      (codes "B")
      entry
build_topology-IsSound_example =
    build_topology-IsSound Milli-IsIeee ships edges 10000000 (codes "B") entry far_entry

build_topology-follow_example :
    (2 ≤ 5)
    × ((code : Text) × (follow 2 (build_topology ships edges 10000000) (codes "B") ≡ some code)
        × Any (λ e. e.edge_code ≡ code) edges)
build_topology-follow_example =
    build_topology-follow Milli-IsIeee ships edges 10000000 (codes "B") entry 1 far_entry refl

build_topology-Has_example : All (λ n. Has n.id (build_topology ships edges 10000000)) ships
build_topology-Has_example = build_topology-Has ships edges 10000000
