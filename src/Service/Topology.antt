-- ===== src/Service/Topology.antt =====
-- service/mesh_topology.go: the routing scheduler. The locks of the map `active` are left out:
-- each of its uses is one step.
pub mod Updates
use maritime_simulation.Base.{
  ℕ, ◌+◌, Bool, true, false, ◌&&◌, ◌||◌, List, [], ◌∷◌, none, some, ltb, ◌==◌, not, if◌then◌else◌,
  length, map,
}
use maritime_simulation.Base.Text.{Text, text_eq, text_lt}
use maritime_simulation.Base.Dict.{Dict, lookup, insert, erase}
use maritime_simulation.Floats.{Float}
use maritime_simulation.Domain.Errors.{Result, ok, err}
use maritime_simulation.Domain.Entities.{
  NodePosition, RouteEntry, RouteStatus, routed, isolated, Edge,
}
use maritime_simulation.Domain.Lora.{max_range_km}
use maritime_simulation.Domain.Mesh.{build_topology}
use maritime_simulation.Protocol.{RoutingUpdate, routing_update, routing_table}
use maritime_simulation.Service.Ports.{
  Ports, Sim, M, SessionParams, call, pure, done, try_ok, record_effect, log_error,
  recompute_failed, send_to_node, broadcast_to_monitors, saved_table, ◌>>=◌, ◌>>◌,
}

-- The table of a Go map, in the order of its keys as `sort` puts them.
unfoldable pub insert_text : Text → List Text → List Text
insert_text t [] = t ∷ []
insert_text t (u ∷ rest) =
    let later = u ∷ insert_text t rest in if text_lt u t then later else t ∷ u ∷ rest

-- sort.Strings
unfoldable pub sort_texts : List Text → List Text
sort_texts [] = []
sort_texts (t ∷ rest) = insert_text t (sort_texts rest)

abbrev pub has : Text → List Text → Bool
has t [] = false
has t (u ∷ rest) = text_eq u t || has t rest

abbrev pub same_status : RouteStatus → RouteStatus → Bool
same_status routed routed = true
same_status isolated isolated = true
same_status _ _ = false

-- TopologyNode
pub record TopologyNode (W : Type 0) : Type 0 where
  pub node_id : Text
  pub lat : W
  pub lng : W
  pub online : Bool

-- TopologySnapshot
pub record TopologySnapshot (W : Type 0) : Type 0 where
  pub nodes : List (TopologyNode W)
  pub routes : List (RouteEntry W)
  pub edges : List (Edge W)

module _ {W S : Type 0} where
  -- AddSession
  unfoldable pub add_session : Text → M W S (Unit {0})
  add_session sid s = (tt, record s { active = insert sid true s.active })

  -- RemoveSession
  unfoldable pub remove_session : Text → M W S (Unit {0})
  remove_session sid s = (tt, record s { active = erase sid s.active })

  -- activeSessions
  unfoldable pub active_sessions : Sim W S → List Text
  active_sessions s = sort_texts (map (λ kv. kv.0) s.active)

module _ {W : Type 0} where
  -- The nodes that hold a live socket.
  unfoldable pub live_nodes : List Text → List (NodePosition W) → List (NodePosition W)
  live_nodes online [] = []
  live_nodes online (n ∷ rest) =
      let others = live_nodes online rest in if has n.id online then n ∷ others else others

  unfoldable pub insert_entry : RouteEntry W → List (RouteEntry W) → List (RouteEntry W)
  insert_entry r [] = r ∷ []
  insert_entry r (q ∷ rest) =
      let later = q ∷ insert_entry r rest in
      if text_lt q.node_id r.node_id then later else r ∷ q ∷ rest

  unfoldable pub sort_entries : List (RouteEntry W) → List (RouteEntry W)
  sort_entries [] = []
  sort_entries (r ∷ rest) = insert_entry r (sort_entries rest)

  unfoldable pub insert_node : TopologyNode W → List (TopologyNode W) → List (TopologyNode W)
  insert_node n [] = n ∷ []
  insert_node n (m ∷ rest) =
      let later = m ∷ insert_node n rest in
      if text_lt m.node_id n.node_id then later else n ∷ m ∷ rest

  unfoldable pub sort_nodes : List (TopologyNode W) → List (TopologyNode W)
  sort_nodes [] = []
  sort_nodes (n ∷ rest) = insert_node n (sort_nodes rest)

  -- The nodes of a snapshot.
  unfoldable pub snapshot_nodes : List Text → List (NodePosition W) → List (TopologyNode W)
  snapshot_nodes online positions = sort_nodes (
      map
        (λ (n : NodePosition W). record {
          node_id = n.id;
          lat = n.lat;
          lng = n.lng;
          online = has n.id online;
        })
        positions)

module _ {W : Type 0} ⦃fl : Float W⦄ where
  open fl use {lit, sub, mul, div, abs, round, le}

  -- distanceJitterKm
  abbrev pub distance_jitter_km : W
  distance_jitter_km = lit 5 2

  -- round3
  unfoldable pub round3 : W → W
  round3 v = div (round (mul v (lit 1000 0))) (lit 1000 0)

  -- routeUnchanged
  unfoldable pub route_unchanged : Dict (RouteEntry W) → Text → RouteEntry W → Bool
  route_unchanged old node entry = elim (lookup node old) [
    | none ↦ false
    | some prev ↦
        text_eq prev.parent entry.parent
        && same_status prev.status entry.status
        && prev.hop_level == entry.hop_level
        && le (abs (sub prev.distance_km entry.distance_km)) distance_jitter_km
  ]

  -- tableEvent, without its envelope
  unfoldable pub table_routes : Dict (RouteEntry W) → List (RouteEntry W)
  table_routes table = sort_entries (
      map (λ kv. let r : RouteEntry W = kv.1 in record r { distance_km = round3 r.distance_km })
        table)

  abbrev pub update_of : RouteEntry W → RoutingUpdate W
  update_of entry = record {
    parent_target = entry.parent;
    parent_is_edge = entry.parent_is_edge;
    distance_to_parent_km = round3 entry.distance_km;
    hop_level = entry.hop_level;
    status = entry.status;
  }

module _ {W S : Type 0} ⦃fl : Float W⦄ (p : Ports W S) where
  -- The loop over the new table; the result is `changed`.
  unfoldable pub announce : Text → Dict (RouteEntry W) → Dict (RouteEntry W) → ℕ → M W S ℕ
  announce sid old [] changed s = (changed, s)
  announce sid old ((node, entry) ∷ rest) changed s =
      let (_, t) = send_to_node p sid node (routing_update (update_of entry)) s in
      let told = announce sid old rest (changed + 1) t in
      let kept = announce sid old rest changed s in
      if route_unchanged old node entry then kept else told

  -- The broadcast to the monitors at the end of `recompute`.
  unfoldable pub publish :
      Text → Dict (RouteEntry W) → Dict (RouteEntry W) → ℕ → M W S (Result (Unit {0}))
  publish sid old table changed =
      if ltb 0 changed || not (length table == length old)
      then (do broadcast_to_monitors p sid (routing_table (table_routes table)); pure (ok tt))
      else pure (ok tt)

  -- The new table is saved, or not.
  unfoldable pub spread :
      Text
      → Dict (RouteEntry W)
      → Dict (RouteEntry W)
      → Result (Unit {0})
      → M W S (Result (Unit {0}))
  spread sid old table (err e) = pure (err e)
  spread sid old table (ok _) = do
    record_effect (saved_table sid table)
    changed ← announce sid old table 0
    publish sid old table changed

  -- The old table is read, or not.
  unfoldable pub replace :
      Text → Dict (RouteEntry W) → Result (Dict (RouteEntry W)) → M W S (Result (Unit {0}))
  replace sid table (err e) = pure (err e)
  replace sid table (ok old) = do saved ← call (p.save_table sid table); spread sid old table saved

  -- From the new table on.
  unfoldable pub replace_table : Text → Dict (RouteEntry W) → M W S (Result (Unit {0}))
  replace_table sid table = do old ← call (p.get_table sid); replace sid table old

  -- recompute
  unfoldable pub recompute : Text → M W S (Result (Unit {0}))
  recompute sid = do
    params ← call (p.get_params sid)
    try_ok params λ q. do
      positions ← call (p.all_positions sid)
      try_ok positions λ ps. λ s. do_edges q ps (p.online_nodes sid s.world) s
    where
      do_edges : SessionParams W → List (NodePosition W) → List Text → M W S (Result (Unit {0}))
      do_edges q ps online = do
        edges ← call p.list_edges
        try_ok edges λ es.
            replace_table sid
              (build_topology (live_nodes online ps) es (max_range_km q.tx_power_dbm))

  -- safeRecompute
  unfoldable pub safe_recompute : Text → M W S (Unit {0})
  safe_recompute sid = do r ← recompute sid; log_result r sid
    where
      log_result : Result (Unit {0}) → Text → M W S (Unit {0})
      log_result (ok _) sid = done
      log_result (err _) sid = log_error sid recompute_failed

  unfoldable pub recompute_each : List Text → M W S (Unit {0})
  recompute_each [] = done
  recompute_each (sid ∷ rest) = do safe_recompute sid; recompute_each rest

  -- One tick of `Run`.
  unfoldable pub tick : M W S (Unit {0})
  tick s = recompute_each (active_sessions s) s

  -- Snapshot
  unfoldable pub snapshot : Text → M W S (Result (TopologySnapshot W))
  snapshot sid = do
    positions ← call (p.all_positions sid)
    try_ok positions λ ps. do
      table ← call (p.get_table sid)
      try_ok table λ t. do
        edges ← call p.list_edges
        try_ok edges λ es s. (
          ok (record {
            nodes = snapshot_nodes (p.online_nodes sid s.world) ps;
            routes = table_routes t;
            edges = es;
          }),
          s,
        )

  -- CurrentRoute
  unfoldable pub current_route : Text → Text → M W S (Result (RouteEntry W))
  current_route sid node = call (p.get_route sid node)
