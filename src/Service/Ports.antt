-- ===== src/Service/Ports.antt =====
-- What the services call: the methods of the repositories, the `Broadcaster` of
-- service/broadcaster.go, the random source and the clock, as an interface over any type `S` of
-- states, and the monad in which the services run. A call changes the outside state as the
-- interface says, and the calls by which a service acts on its surroundings are recorded, latest
-- first.
use maritime_simulation.Base.{ℕ, Bool, List, ◌∷◌, Option}
use maritime_simulation.Base.Int.{ℤ}
use maritime_simulation.Base.Text.{Text}
use maritime_simulation.Base.Dict.{Dict}
use maritime_simulation.Domain.Errors.{Result, ok, err}
use maritime_simulation.Domain.Entities.{Edge, NodePosition, RouteEntry, Session}
use maritime_simulation.Domain.Schema.{DynamicSchema, Value, SchemaField}
use maritime_simulation.Protocol.{Message}

-- repository.SessionParams
pub record SessionParams (W : Type 0) : Type 0 where
  pub spreading_factor : ℤ
  pub tx_power_dbm : ℤ
  pub weather_severity : W

-- domain.TelemetryLog, as the engine fills it in before the insert.
pub record TelemetryLog (W : Type 0) : Type 0 where
  pub session_id : Text
  pub origin_node_id : Text
  pub edge_id : ℕ
  pub edge_code : Text
  pub hop_count : ℤ
  pub routing_path : Text
  pub decoded_payload : Dict (Value W)

-- The counters of service/stats.go.
pub data Stat : Type 0 where
  transmit_total dropped_invalid dropped_sf_limit dropped_max_hops dropped_air_loss : Stat
  dropped_out_of_range dropped_no_position dropped_target_offline duplicates_filtered : Stat
  forwarded_to_node delivered_to_edge acks_relayed acks_dropped acks_stale : Stat
  pings_accepted pings_rate_limited : Stat

-- The faults that the services log as errors; what they log below that level is left out.
pub data Fault : Type 0 where
  ping_limit_failed geo_update_failed edge_lookup_failed geo_read_failed : Fault
  dedup_check_failed ack_sender_failed schema_lookup_failed : Fault
  telemetry_failed ack_lookup_failed recompute_failed : Fault

-- What a service does to its surroundings.
pub data Effect (W : Type 0) : Type 0 where
  sent : Text → Text → Message W → Effect W
  sent_to_nodes : Text → Message W → Effect W
  sent_to_monitors : Text → Message W → Effect W
  kicked : Text → Effect W
  bumped : Text → Stat → Effect W
  inserted : TelemetryLog W → Effect W
  positioned : Text → Text → W → W → Effect W
  unpositioned : Text → Text → Effect W
  logged : Text → Fault → Effect W
  saved_table : Text → Dict (RouteEntry W) → Effect W
  saved_params : Text → SessionParams W → Effect W
  created : Session W → Effect W
  stopped : Text → Dict ℤ → Effect W
  deleted : Text → Effect W
  updated_weather : Text → W → Effect W
  updated_radio : Text → ℤ → ℤ → Effect W
  created_schema : Text → List SchemaField → Effect W
  cleared_geo cleared_routes cleared_state : Text → Effect W

pub record Ports (W S : Type 0) : Type 0 where
  -- StateRepository
  pub get_params : Text → S → Result (SessionParams W) × S
  pub allow_ping : Text → Text → S → Result Bool × S
  pub mark_packet_seen : Text → Text → Text → S → Result Bool × S
  pub remember_ack_sender : Text → Text → Text → Text → S → Result (Unit {0}) × S
  pub take_ack_sender : Text → Text → Text → S → Result Text × S
  pub incr_stat : Text → Stat → S → S
  -- GeoRepository
  pub upsert_position : Text → Text → W → W → S → Result (Unit {0}) × S
  pub remove_node : Text → Text → S → S
  pub position : Text → Text → S → Result (NodePosition W) × S
  -- EdgeRepository, SchemaRepository, RouteRepository and TelemetryRepository
  pub list_edges : S → Result (List (Edge W)) × S
  pub latest_schema : Text → S → Result DynamicSchema × S
  pub get_route : Text → Text → S → Result (RouteEntry W) × S
  pub insert_telemetry : TelemetryLog W → S → Result (Unit {0}) × S
  pub all_positions : Text → S → Result (List (NodePosition W)) × S
  pub get_table : Text → S → Result (Dict (RouteEntry W)) × S
  pub save_table : Text → Dict (RouteEntry W) → S → Result (Unit {0}) × S
  pub save_params : Text → SessionParams W → S → Result (Unit {0}) × S
  pub get_stats : Text → S → Result (Dict ℤ) × S
  pub clear_geo : Text → S → S
  pub clear_routes : Text → S → S
  pub clear_state : Text → S → S
  pub create_schema : Text → List SchemaField → S → Result DynamicSchema × S
  -- SessionRepository
  pub create_session : Session W → S → Result (Session W) × S
  pub session_by_id : Text → S → Result (Session W) × S
  pub list_sessions : ℕ → S → Result (List (Session W)) × S
  pub list_active : S → Result (List (Session W)) × S
  pub update_weather : Text → W → S → Result (Unit {0}) × S
  pub update_radio_params : Text → ℤ → ℤ → S → Result (Unit {0}) × S
  pub stop_session : Text → Dict ℤ → S → Result (Unit {0}) × S
  pub delete_session : Text → S → Result (Unit {0}) × S
  -- Broadcaster
  pub online_nodes : Text → S → List Text
  pub kick_session : Text → S → S
  pub send_to_node : Text → Text → Message W → S → Bool × S
  pub broadcast_to_nodes : Text → Message W → S → S
  pub broadcast_to_monitors : Text → Message W → S → S
  pub node_online : Text → Text → S → Bool
  -- rand.Float64, the clock in nanoseconds, and base64.StdEncoding.DecodeString
  pub rand_float01 : S → W × S
  pub now : S → ℕ × S
  pub decode_base64 : Text → Option (List ℕ)

-- edgeCache, without its repository and lifetime; `by_code` is none where the source's map is nil.
pub record EdgeCache (W : Type 0) : Type 0 where
  pub by_code : Option (Dict (Edge W))
  pub loaded_at : ℕ

-- What the services keep: the outside state, the edge cache of the engine, the map `active` of the
-- topology service, and the record of effects.
pub record Sim (W S : Type 0) : Type 0 where
  pub world : S
  pub cache : EdgeCache W
  pub active : Dict Bool
  pub trace : List (Effect W)

abbrev pub M : Type 0 → Type 0 → Type 0 → Type 0
M W S A = Sim W S → A × Sim W S

module _ {W S : Type 0} where
  infixl 5 ◌>>=◌ ◌>>◌
  abbrev pub ◌>>=◌ : {A B : Type 0} → M W S A → (A → M W S B) → M W S B
  ◌>>=◌ m f s = let (a, t) = m s in f a t

  abbrev pub ◌>>◌ : {B : Type 0} → M W S (Unit {0}) → M W S B → M W S B
  ◌>>◌ m k s = let (_, t) = m s in k t

  abbrev pub done : M W S (Unit {0})
  done s = (tt, s)

  abbrev pub pure : {A : Type 0} → A → M W S A
  pure a s = (a, s)

  abbrev pub record_effect : Effect W → M W S (Unit {0})
  record_effect e s = (tt, record s { trace = e ∷ s.trace })

  -- A call whose effect is not recorded: a read, or the bookkeeping of a repository.
  abbrev pub call : {A : Type 0} → (S → A × S) → M W S A
  call f s = let (a, w) = f s.world in (a, record s { world = w })

  abbrev pub log_error : Text → Fault → M W S (Unit {0})
  log_error sid f = record_effect (logged sid f)

module _ {W S : Type 0} (p : Ports W S) where
  abbrev pub incr_stat : Text → Stat → M W S (Unit {0})
  incr_stat sid st s =
      (tt, record s { world = p.incr_stat sid st s.world; trace = bumped sid st ∷ s.trace })

  abbrev pub send_to_node : Text → Text → Message W → M W S (Unit {0})
  send_to_node sid node m s = (
    tt,
    record s { world = (p.send_to_node sid node m s.world).1; trace = sent sid node m ∷ s.trace },
  )

  abbrev pub broadcast_to_monitors : Text → Message W → M W S (Unit {0})
  broadcast_to_monitors sid m s = (
    tt,
    record s {
      world = p.broadcast_to_monitors sid m s.world;
      trace = sent_to_monitors sid m ∷ s.trace;
    },
  )

  abbrev pub broadcast_to_nodes : Text → Message W → M W S (Unit {0})
  broadcast_to_nodes sid m s = (
    tt,
    record s { world = p.broadcast_to_nodes sid m s.world; trace = sent_to_nodes sid m ∷ s.trace },
  )

-- Runs `f` on the value of a successful result, and hands an error on.
abbrev pub try_ok : {W S A B : Type 0} → Result A → (A → M W S (Result B)) → M W S (Result B)
try_ok (ok a) f = f a
try_ok (err e) f = pure (err e)

-- Records the effect of a write if it succeeded.
abbrev pub note : {W S A : Type 0} → Result A → Effect W → M W S (Unit {0})
note (ok a) e = record_effect e
note (err x) e = done
