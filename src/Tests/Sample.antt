-- ===== src/Tests/Sample.antt =====
-- A session with one edge and two ships, over whole thousandths: the repositories answer from
-- constants, every socket is online, and each roll of the dice is 1.
use maritime_simulation.Base.{Bool, true, List, [], ◌∷◌, none, some}
use maritime_simulation.Base.Int.{pos}
use maritime_simulation.Base.Text.{Text, codes}
use maritime_simulation.Floats.{milli_float, Milli}
use maritime_simulation.Domain.Errors.{ok, err, not_found}
use maritime_simulation.Domain.Entities.{Session, Edge, NodePosition, TransmitPacket}
use maritime_simulation.Domain.Schema.{SchemaField, Msgpack}
use maritime_simulation.Service.Ports.{Ports, Sim, SessionParams}
use maritime_simulation.Service.Engine.Cache.{new_edge_cache}
use maritime_simulation.Ws.Gateway.{Json, Job}

abbrev pub sid : Text
sid = codes "s1"

abbrev pub harbour : Edge Milli
harbour = record {
  id = 1;
  edge_code = codes "E1";
  name = codes "harbour";
  latitude = 0;
  longitude = 0;
  created_at = 0;
  updated_at = 0;
}

abbrev pub near_ship : NodePosition Milli
near_ship = record { id = codes "A"; lat = 100000; lng = 0 }

abbrev pub far_ship : NodePosition Milli
far_ship = record { id = codes "B"; lat = 140000; lng = 0 }

abbrev pub calm : SessionParams Milli
calm = record { spreading_factor = pos 7; tx_power_dbm = pos 14; weather_severity = 1000 }

abbrev pub running : Bool → Session Milli
running b = record {
  id = sid;
  session_name = codes "drill";
  spreading_factor = pos 7;
  tx_power_dbm = pos 14;
  weather_severity = 1000;
  is_active = b;
  stats_snapshot = none;
  created_at = 0;
  ended_at = none;
}

abbrev pub fields : List SchemaField
fields = record { name = codes "lat"; type = codes "float32" } ∷ []

-- The argument says whether the session is active in the database.
abbrev pub ports : Bool → Ports Milli (Unit {0})
ports b = record {
  get_params = λ _ w. (ok calm, w);
  allow_ping = λ _ _ w. (ok true, w);
  mark_packet_seen = λ _ _ _ w. (ok true, w);
  remember_ack_sender = λ _ _ _ _ w. (ok tt, w);
  take_ack_sender = λ _ _ _ w. (ok (codes "A"), w);
  incr_stat = λ _ _ w. w;
  upsert_position = λ _ _ _ _ w. (ok tt, w);
  remove_node = λ _ _ w. w;
  position = λ _ id w. (ok (record { id = id; lat = 0; lng = 0 }), w);
  list_edges = λ w. (ok (harbour ∷ []), w);
  latest_schema = λ _ w. (err not_found, w);
  get_route = λ _ _ w. (err not_found, w);
  insert_telemetry = λ _ w. (ok tt, w);
  all_positions = λ _ w. (ok (far_ship ∷ near_ship ∷ []), w);
  get_table = λ _ w. (ok [], w);
  save_table = λ _ _ w. (ok tt, w);
  save_params = λ _ _ w. (ok tt, w);
  get_stats = λ _ w. (ok ((codes "transmit_total", pos 3) ∷ []), w);
  clear_geo = λ _ w. w;
  clear_routes = λ _ w. w;
  clear_state = λ _ w. w;
  create_schema =
      λ id fs w. (ok (record { id = 1; session_id = id; fields = fs; created_at = 0 }), w);
  create_session = λ s w. (ok s, w);
  session_by_id = λ _ w. (ok (running b), w);
  list_sessions = λ _ w. (ok (running b ∷ []), w);
  list_active = λ w. (ok (running true ∷ []), w);
  update_weather = λ _ _ w. (ok tt, w);
  update_radio_params = λ _ _ _ w. (ok tt, w);
  stop_session = λ _ _ w. (ok tt, w);
  delete_session = λ _ w. (ok tt, w);
  online_nodes = λ _ w. codes "A" ∷ codes "B" ∷ [];
  kick_session = λ _ w. w;
  send_to_node = λ _ _ _ w. (true, w);
  broadcast_to_nodes = λ _ _ w. w;
  broadcast_to_monitors = λ _ _ w. w;
  node_online = λ _ _ w. true;
  rand_float01 = λ w. (1000, w);
  now = λ w. (1, w);
  decode_base64 = λ t. some t;
}

abbrev pub start : Sim Milli (Unit {0})
start = record { world = tt; cache = new_edge_cache; active = []; trace = [] }

abbrev pub frame_to : Text → TransmitPacket
frame_to target = record {
  event = codes "node:transmit";
  packet_id = codes "p1";
  origin_node = codes "A";
  target_parent = target;
  hop_count = pos 1;
  routing_path = codes "A" ∷ [];
  binary_payload_b64 = codes "abcd";
}

abbrev pub packer : Msgpack Milli
packer = record { unmarshal_map = λ _. none; unmarshal_array = λ _. none }

-- Every frame reads as a transmission to the harbour.
abbrev pub reader : Json Milli
reader = record {
  envelope = λ _. some (codes "node:transmit");
  ping = λ _. none;
  transmit = λ _. some (frame_to (codes "E1"));
  ack = λ _. none;
}

abbrev pub job : Job
job = record { session_id = sid; node_id = codes "A"; raw = [] }
