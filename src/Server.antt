-- ===== src/Server.antt =====
-- cmd/server/main.go and the counter names of service/stats.go: the repositories that the server
-- hands to its services, as the methods that the services call.
pub mod Params
pub mod Sockets
pub mod Weather
use maritime_simulation.Base.{ℕ, Bool, List, Option}
use maritime_simulation.Base.Text.{Text, codes}
use maritime_simulation.Protocol.{Message}
use maritime_simulation.Service.Ports.{
  Ports, Stat, transmit_total, dropped_invalid, dropped_sf_limit, dropped_max_hops,
  dropped_air_loss, dropped_out_of_range, dropped_no_position, dropped_target_offline,
  duplicates_filtered, forwarded_to_node, delivered_to_edge, acks_relayed, acks_dropped, acks_stale,
  pings_accepted, pings_rate_limited,
}
use maritime_simulation.Repository.Redis.{Redis, Codec}
use maritime_simulation.Repository.Postgres.{Pool, Json}
use maritime_simulation.Repository.State.{
  get_params, save_params, allow_ping, mark_packet_seen, remember_ack_sender, take_ack_sender,
  incr_stat, get_stats, clear_session,
}
use maritime_simulation.Repository.Geo.{
  upsert_position, remove_node, position, all_positions, clear_geo,
}
use maritime_simulation.Repository.Routes.{save_table, get_table, get_route, clear_routes}
use maritime_simulation.Repository.Edges.{list_edges}
use maritime_simulation.Repository.Schemas.{latest_schema, create_schema}
use maritime_simulation.Repository.Telemetry.{insert_telemetry}
use maritime_simulation.Repository.Sessions.{
  create_session, session_by_id, list_sessions, list_active, update_weather, update_radio_params,
  stop_session, delete_session,
}

-- The counter names of service/stats.go.
unfoldable pub stat_name : Stat → Text
stat_name transmit_total = codes "transmit_total"
stat_name dropped_invalid = codes "dropped_invalid"
stat_name dropped_sf_limit = codes "dropped_sf_limit"
stat_name dropped_max_hops = codes "dropped_max_hops"
stat_name dropped_air_loss = codes "dropped_air_loss"
stat_name dropped_out_of_range = codes "dropped_out_of_range"
stat_name dropped_no_position = codes "dropped_no_position"
stat_name dropped_target_offline = codes "dropped_target_offline"
stat_name duplicates_filtered = codes "duplicates_filtered"
stat_name forwarded_to_node = codes "forwarded_to_node"
stat_name delivered_to_edge = codes "delivered_to_edge"
stat_name acks_relayed = codes "acks_relayed"
stat_name acks_dropped = codes "acks_dropped"
stat_name acks_stale = codes "acks_stale"
stat_name pings_accepted = codes "pings_accepted"
stat_name pings_rate_limited = codes "pings_rate_limited"

-- The hub as a `Broadcaster`, the random source, the clock and the base64 decoder, over the state
-- `H` that they keep.
pub record Outside (W H : Type 0) : Type 0 where
  pub online_nodes : Text → H → List Text
  pub kick_session : Text → H → H
  pub send_to_node : Text → Text → Message W → H → Bool × H
  pub broadcast_to_nodes : Text → Message W → H → H
  pub broadcast_to_monitors : Text → Message W → H → H
  pub node_online : Text → Text → H → Bool
  pub rand_float01 : H → W × H
  pub now : H → ℕ × H
  pub decode_base64 : Text → Option (List ℕ)

-- The state of the Redis server, of the database, and of the rest.
pub record World (R D H : Type 0) : Type 0 where
  pub stores : R
  pub rows : D
  pub outside : H

module _ {R D H : Type 0} where
  abbrev pub on_redis : {A : Type 0} → (R → A × R) → World R D H → A × World R D H
  on_redis f w = let (a, t) = f w.stores in (a, record w { stores = t })

  abbrev pub on_pool : {A : Type 0} → (D → A × D) → World R D H → A × World R D H
  on_pool f w = let (a, t) = f w.rows in (a, record w { rows = t })

  abbrev pub on_outside : {A : Type 0} → (H → A × H) → World R D H → A × World R D H
  on_outside f w = let (a, t) = f w.outside in (a, record w { outside = t })

  abbrev pub change_outside : (H → H) → World R D H → World R D H
  change_outside f w = record w { outside = f w.outside }

module _ {W R D H : Type 0} (r : Redis W R) (c : Codec W) (q : Pool W D) (j : Json W) where
  -- The repositories over the two clients, with `PingMinInterval` in milliseconds, and the hub. An
  -- error of `IncrStat`, `RemoveNode` or a `Clear` only reaches the log.
  unfoldable pub assemble : Outside W H → ℕ → Ports W (World R D H)
  assemble o interval = record {
    get_params = λ sid. on_redis (get_params r c sid);
    allow_ping = λ sid node. on_redis (allow_ping r sid node interval);
    mark_packet_seen =
        λ sid packet_id receiver. on_redis (mark_packet_seen r sid packet_id receiver);
    remember_ack_sender = λ sid packet_id receiver sender.
        on_redis (remember_ack_sender r sid packet_id receiver sender);
    take_ack_sender = λ sid packet_id receiver. on_redis (take_ack_sender r sid packet_id receiver);
    incr_stat = λ sid st w. (on_redis (incr_stat r sid (stat_name st)) w).1;
    upsert_position = λ sid node lat lng. on_redis (upsert_position r sid node lat lng);
    remove_node = λ sid node w. (on_redis (remove_node r sid node) w).1;
    position = λ sid node. on_redis (position r sid node);
    list_edges = on_pool (list_edges q);
    latest_schema = λ sid. on_pool (latest_schema j q sid);
    get_route = λ sid node. on_redis (get_route c r sid node);
    insert_telemetry = λ l. on_pool (insert_telemetry j q l);
    all_positions = λ sid. on_redis (all_positions r sid);
    get_table = λ sid. on_redis (get_table c r sid);
    save_table = λ sid table. on_redis (save_table c r sid table);
    save_params = λ sid p. on_redis (save_params r c sid p);
    get_stats = λ sid. on_redis (get_stats r c sid);
    clear_geo = λ sid w. (on_redis (clear_geo r sid) w).1;
    clear_routes = λ sid w. (on_redis (clear_routes c r sid) w).1;
    clear_state = λ sid w. (on_redis (clear_session r sid) w).1;
    create_schema = λ sid fields. on_pool (create_schema j q sid fields);
    create_session = λ sess. on_pool (create_session j q sess);
    session_by_id = λ id. on_pool (session_by_id j q id);
    list_sessions = λ limit. on_pool (list_sessions j q limit);
    list_active = on_pool (list_active j q);
    update_weather = λ id severity. on_pool (update_weather j q id severity);
    update_radio_params = λ id sf tx. on_pool (update_radio_params j q id sf tx);
    stop_session = λ id stats. on_pool (stop_session j q id stats);
    delete_session = λ id. on_pool (delete_session j q id);
    online_nodes = λ sid w. o.online_nodes sid w.outside;
    kick_session = λ sid. change_outside (o.kick_session sid);
    send_to_node = λ sid node m. on_outside (o.send_to_node sid node m);
    broadcast_to_nodes = λ sid m. change_outside (o.broadcast_to_nodes sid m);
    broadcast_to_monitors = λ sid m. change_outside (o.broadcast_to_monitors sid m);
    node_online = λ sid node w. o.node_online sid node w.outside;
    rand_float01 = on_outside o.rand_float01;
    now = on_outside o.now;
    decode_base64 = o.decode_base64;
  }
