-- ===== src/Service/Engine/Handlers.antt =====
-- The other handlers of service/simulation_engine.go: pings, acknowledgements, connections.
use maritime_simulation.Base.{Bool, true, false, ◌||◌, if◌then◌else◌}
use maritime_simulation.Base.Text.{Text}
use maritime_simulation.Floats.{Float}
use maritime_simulation.Domain.Errors.{Result, ok, err, not_found}
use maritime_simulation.Domain.Entities.{NodePosition, RouteEntry}
use maritime_simulation.Domain.Geo.{haversine_km}
use maritime_simulation.Domain.Packet.{is_empty}
use maritime_simulation.Domain.Schema.{DynamicSchema, estimate_packed_bytes}
use maritime_simulation.Protocol.{
  NodeAck, error_event, invalid_coordinates, node_ping, mesh_ack, ack_drop, ack, no_reason,
  ack_lost_in_the_air, env_sync, schema_sync, routing_update, node_status,
}
use maritime_simulation.Service.Ports.{
  Ports, SessionParams, M, call, done, log_error, incr_stat, send_to_node, broadcast_to_monitors,
  record_effect, positioned, unpositioned, pings_accepted, pings_rate_limited, acks_stale,
  acks_dropped, acks_relayed, ping_limit_failed, geo_update_failed, ack_lookup_failed, ◌>>=◌, ◌>>◌,
}
use maritime_simulation.Service.Params.{env_params_from}
use maritime_simulation.Service.Anomaly.{TraversalVerdict, evaluate}
use maritime_simulation.Service.Engine.Frames.{received, ack_event, emit_packet_event}

module _ {W S : Type 0} ⦃fl : Float W⦄ (p : Ports W S) where
  open fl use {lit, lt, neg}

  -- SessionActive
  unfoldable pub session_active : Text → M W S Bool
  session_active sid s =
      let (r, w) = p.get_params sid s.world in
      (elim r [ ok _ ↦ true | err _ ↦ false ], record s { world = w })

  -- What follows the update of the position.
  unfoldable pub accept_ping : Result (Unit {0}) → Text → Text → W → W → M W S (Unit {0})
  accept_ping (err _) sid node lat lng = log_error sid geo_update_failed
  accept_ping (ok _) sid node lat lng = do
    record_effect (positioned sid node lat lng)
    incr_stat p sid pings_accepted
    broadcast_to_monitors p sid
        (node_ping (record { node_id = node; session_id = sid; lat = lat; lng = lng }))

  -- What the rate limit leads to.
  unfoldable pub limit_ping : Result Bool → Text → Text → W → W → M W S (Unit {0})
  limit_ping (err _) sid node lat lng = log_error sid ping_limit_failed
  limit_ping (ok false) sid node lat lng = incr_stat p sid pings_rate_limited
  limit_ping (ok true) sid node lat lng = do
    r ← call (p.upsert_position sid node lat lng)
    accept_ping r sid node lat lng

  abbrev bad_coordinates : W → W → Bool
  bad_coordinates lat lng =
      lt lat (neg (lit 90 0))
      || (lt (lit 90 0) lat || (lt lng (neg (lit 180 0)) || lt (lit 180 0) lng))

  -- HandlePing
  unfoldable pub handle_ping : Text → Text → W → W → M W S (Unit {0})
  handle_ping sid node lat lng =
      if bad_coordinates lat lng
      then send_to_node p sid node (error_event invalid_coordinates)
      else (do r ← call (p.allow_ping sid node); limit_ping r sid node lat lng)

  -- The acknowledgement, once the dice are cast.
  unfoldable pub relay_ack : Text → Text → NodeAck → Text → TraversalVerdict W → M W S (Unit {0})
  relay_ack sid receiver a sender verdict =
      if verdict.dropped
      then (do
        incr_stat p sid acks_dropped
        emit_packet_event p sid (
            ack_event ack_drop ack_lost_in_the_air a.packet_id receiver sender verdict.distance_km
              verdict.loss_percent))
      else do
        send_to_node p sid sender (
            mesh_ack (record {
              packet_id = a.packet_id;
              receiver_node = receiver;
              status = if is_empty a.status then received else a.status;
              duplicate = false;
            }))
        incr_stat p sid acks_relayed
        emit_packet_event p sid
            (ack_event ack no_reason a.packet_id receiver sender (lit 0 0) (lit 0 0))

  -- Both positions are known, or the acknowledgement is dropped.
  unfoldable pub fly_ack :
      Result (NodePosition W)
      → Result (NodePosition W)
      → Text
      → Text
      → NodeAck
      → Text
      → SessionParams W
      → M W S (Unit {0})
  fly_ack (ok rx) (ok tx) sid receiver a sender params = do
    verdict ← evaluate p (haversine_km rx.lat rx.lng tx.lat tx.lng) params
    relay_ack sid receiver a sender verdict
  fly_ack (ok rx) (err _) sid receiver a sender params = incr_stat p sid acks_dropped
  fly_ack (err _) _ sid receiver a sender params = incr_stat p sid acks_dropped

  unfoldable pub admit_ack :
      Result (SessionParams W) → Text → Text → NodeAck → Text → M W S (Unit {0})
  admit_ack (err _) sid receiver a sender = done
  admit_ack (ok params) sid receiver a sender = do
    rx ← call (p.position sid receiver)
    tx ← call (p.position sid sender)
    fly_ack rx tx sid receiver a sender params

  unfoldable pub route_ack : Result Text → Text → Text → NodeAck → M W S (Unit {0})
  route_ack (err not_found) sid receiver a = incr_stat p sid acks_stale
  route_ack (err _) sid receiver a = log_error sid ack_lookup_failed
  route_ack (ok sender) sid receiver a = do
    params ← call (p.get_params sid)
    admit_ack params sid receiver a sender

  -- HandleAck
  unfoldable pub handle_ack : Text → Text → NodeAck → M W S (Unit {0})
  handle_ack sid receiver a = if is_empty a.packet_id then done else do
    sender ← call (p.take_ack_sender sid a.packet_id receiver)
    route_ack sender sid receiver a

  abbrev pub push_params : Result (SessionParams W) → Text → Text → M W S (Unit {0})
  push_params (ok q) sid node = send_to_node p sid node (env_sync (env_params_from q))
  push_params (err _) sid node = done

  abbrev pub push_schema : Result DynamicSchema → Text → Text → M W S (Unit {0})
  push_schema (ok d) sid node = send_to_node p sid node (
      schema_sync
        (record { fields = d.fields; estimated_packed_bytes = estimate_packed_bytes d.fields }))
  push_schema (err _) sid node = done

  abbrev pub push_route : Result (RouteEntry W) → Text → Text → M W S (Unit {0})
  push_route (ok r) sid node = send_to_node p sid node (
      routing_update (record {
        parent_target = r.parent;
        parent_is_edge = r.parent_is_edge;
        distance_to_parent_km = r.distance_km;
        hop_level = r.hop_level;
        status = r.status;
      }))
  push_route (err _) sid node = done

  -- NodeConnected
  unfoldable pub node_connected : Text → Text → M W S (Unit {0})
  node_connected sid node = do
    broadcast_to_monitors p sid (node_status (record { node_id = node; online = true }))
    q ← call (p.get_params sid)
    push_params q sid node
    d ← call (p.latest_schema sid)
    push_schema d sid node
    r ← call (p.get_route sid node)
    push_route r sid node

  -- NodeDisconnected
  unfoldable pub node_disconnected : Text → Text → M W S (Unit {0})
  node_disconnected sid node = do
    call (λ w. (tt, p.remove_node sid node w))
    record_effect (unpositioned sid node)
    broadcast_to_monitors p sid (node_status (record { node_id = node; online = false }))
