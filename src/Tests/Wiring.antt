-- ===== src/Tests/Wiring.antt =====
-- The services over the Redis in memory and a database that accepts every statement.
use maritime_simulation.Base.{refl, true, [], ◌∷◌, some, ℕ, List, Option, false, ◌≢◌, ◌≡◌}
use maritime_simulation.Base.Int.{pos}
use maritime_simulation.Base.Text.{codes, text_eq}
use maritime_simulation.Floats.{milli_float, Milli}
use maritime_simulation.Domain.Lora.{
  validate_spreading_factor, validate_tx_power, validate_weather_severity,
}
use maritime_simulation.Service.Ports.{Sim}
use maritime_simulation.Service.Engine.Cache.{new_edge_cache}
use maritime_simulation.Service.Engine.Handlers.{session_active, node_connected}
use maritime_simulation.Ws.Gateway.{is_node_id}
use maritime_simulation.Service.Sessions
use maritime_simulation.Repository.Postgres.{
  Pool, Json, done, text, flag, time, affected, failed, broken,
}
use maritime_simulation.Repository.Sessions.{
  create_session, scan_created, stop_session, stop_marshalled,
}
use maritime_simulation.Repository.Keys.{key_params, key_stats, key_routes_full}
use maritime_simulation.Repository.State.{
  save_params, get_params, params_of, params_hash, get_stats, stats_of,
}
use maritime_simulation.Server.{Outside, World, assemble}
use maritime_simulation.Server.Params.{Change, creation, make_change, IsRead, make_change-IsRead}
use maritime_simulation.Base.Dict.{lookup}
use maritime_simulation.Ws.Hub.{Hub, kind_node, new_hub, node_client}
use maritime_simulation.Server.Sockets.{Env, opened, handle_node_ws, admit_node, open_node}
use maritime_simulation.Server.Sockets.Connects.{server, Ends, hub_of, handle_node_ws-Ends}
use maritime_simulation.Protocol.{Message}
use maritime_simulation.Server.Sockets.Stops.{IsGone, stop-IsGone}
use maritime_simulation.Server.Weather
use maritime_simulation.Server.Weather.{put_weather-Ends}
use maritime_simulation.Service.Sessions.{stop}
use maritime_simulation.Domain.Errors.{ok, err, not_found}
use maritime_simulation.Api.Handlers.{Backend}
use maritime_simulation.Api.Router.{serve, put_weather}
use maritime_simulation.Repository.Routes.{get_route}
use maritime_simulation.Repository.Schemas.{latest_schema, scan_schema}
use maritime_simulation.Tests.Sample.{sid, running, calm}
use maritime_simulation.Tests.Store.{
  Memory, memory, memory-IsRedis, plain_codec, plain_codec-IsCodec, empty,
}

abbrev json : Json Milli
json = record {
  marshal_stats = λ d. some [];
  unmarshal_stats = λ t. some [];
  marshal_fields = λ f. some [];
  unmarshal_fields = λ t. some [];
  marshal_payload = λ d. some [];
  unmarshal_payload = λ t. some [];
}

abbrev pool : Pool Milli (Unit {0})
pool = record {
  exec = λ st w. (done 1, w);
  query_row = λ st w. (done (text sid ∷ flag true ∷ time 0 ∷ []), w);
  query = λ st w. (done ([], true), w);
}

abbrev quiet : Outside Milli (Unit {0})
quiet = record {
  online_nodes = λ sid w. [];
  kick_session = λ sid w. w;
  send_to_node = λ sid node m w. (true, w);
  broadcast_to_nodes = λ sid m w. w;
  broadcast_to_monitors = λ sid m w. w;
  node_online = λ sid node w. true;
  rand_float01 = λ w. (1000, w);
  now = λ w. (0, w);
  decode_base64 = λ t. some [];
}

abbrev begin : Sim Milli (World Memory (Unit {0}) (Unit {0}))
begin = record {
  world = record { stores = empty; rows = tt; outside = tt };
  cache = new_edge_cache;
  active = [];
  trace = [];
}

abbrev drill : Change Milli
drill = creation (codes "drill") (pos 7) (pos 14) 1000

make_change-IsRead_example :
    IsRead memory plain_codec pool json quiet 1000
      (running true)
      (make_change (assemble memory plain_codec pool json quiet 1000) drill begin).1.world
unfolding make_change Sessions.create validate_spreading_factor validate_tx_power
    validate_weather_severity Sessions.enter_session Sessions.start Sessions.cache_params
    Sessions.wrote assemble create_session scan_created save_params
make_change-IsRead_example =
    make_change-IsRead memory plain_codec pool json quiet 1000 plain_codec-IsCodec memory-IsRedis
      drill begin (running true) refl

abbrev env : Env Milli (Unit {0})
env = record { rand_float01 = λ x. (1000, x); now = λ x. (0, x); decode_base64 = λ t. some [] }

abbrev as_bytes : Message Milli → Option (List ℕ)
as_bytes m = some []

-- The parameters of the session are cached, and no socket is open.
abbrev anchored : Sim Milli (World Memory (Unit {0}) (Hub × Unit {0}))
anchored = record {
  world = record {
    stores = (save_params memory plain_codec sid calm empty).1;
    rows = tt;
    outside = (
      new_hub 0 (λ i. record {
        kind = kind_node;
        session_id = sid;
        node_id = [];
        send = [];
        closed = false;
      }),
      tt,
    );
  };
  cache = new_edge_cache;
  active = [];
  trace = [];
}

fresh_pointer :
    node_client sid (codes "A") (hub_of memory plain_codec pool json as_bytes env 1000 anchored)
    ≢ some 1
unfolding node_client new_hub lookup
fresh_pointer e = cc

handle_node_ws-Ends_example :
    (let x =
        handle_node_ws
          (server memory plain_codec pool json as_bytes env 1000)
          1
          true
          sid
          (codes "A")
          anchored in
      Ends memory plain_codec pool json as_bytes env 1000 1 true sid (codes "A") anchored x.0 x.1)
handle_node_ws-Ends_example =
    handle_node_ws-Ends memory plain_codec pool json as_bytes env 1000 1 true sid (codes "A")
      anchored fresh_pointer

it_opens :
    (handle_node_ws
      (server memory plain_codec pool json as_bytes env 1000)
      1
      true
      sid
      (codes "A")
      anchored).0
    ≡ opened
unfolding handle_node_ws admit_node open_node is_node_id session_active assemble get_params
    save_params params_of params_hash lookup text_eq key_params
it_opens = refl

abbrev moored : Sim Milli (World Memory (Unit {0}) (Hub × Unit {0}))
moored =
    (handle_node_ws (server memory plain_codec pool json as_bytes env 1000) 1 true sid (codes "A")
      anchored).1

stop-IsGone_example :
    IsGone memory plain_codec pool json as_bytes env 1000 sid
      (hub_of memory plain_codec pool json as_bytes env 1000 moored)
      (stop (server memory plain_codec pool json as_bytes env 1000) sid moored).1
unfolding handle_node_ws admit_node open_node is_node_id session_active assemble get_params
    save_params params_of params_hash lookup text_eq key_params get_stats stats_of key_stats
    stop_session node_connected stop_marshalled affected get_route latest_schema scan_schema
    key_routes_full
stop-IsGone_example =
    stop-IsGone memory plain_codec pool json as_bytes env 1000 memory-IsRedis (λ ks w. refl) sid []
      moored refl refl

abbrev no_rows : Pool Milli (Unit {0})
no_rows = record {
  exec = λ st w. (done 0, w);
  query_row = λ st w. (failed broken, w);
  query = λ st w. (failed broken, w);
}

abbrev probe : Backend Milli (World Memory (Unit {0}) (Unit {0}))
probe = record {
  is_uuid = λ t. true;
  create_edge = λ e w. (ok e, w);
  update_edge = λ code name lat lng w. (err not_found, w);
  delete_edge = λ code w. (ok tt, w);
  list_telemetry = λ id l o w. (ok [], w);
  count_telemetry = λ id w. (ok 0, w);
  is_ready = λ w. true;
}

put_weather-Ends_example :
    Weather.Ends memory plain_codec no_rows json quiet 1000 probe sid (some (some 1500)) begin (
      serve
        (assemble memory plain_codec no_rows json quiet 1000)
        probe
        (put_weather sid (some (some 1500)))
        begin)
put_weather-Ends_example =
    put_weather-Ends memory plain_codec no_rows json quiet 1000 probe sid (some (some 1500)) begin
