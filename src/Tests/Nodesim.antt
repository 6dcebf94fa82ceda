-- ===== src/Tests/Nodesim.antt =====
-- A ship of the simulator that relays a frame, hears the acknowledgement, and sends a report that
-- nobody acknowledges.
use maritime_simulation.Base.{
  ℕ, suc, ◌≡◌, ◌≤◌, ◌⊎◌, arith, refl, ap, Option, true, false, some, none, List, [], ◌∷◌, All,
}
use maritime_simulation.Base.Int.{ℤ, pos}
use maritime_simulation.Base.Text.{Text, codes, text_eq}
use maritime_simulation.Base.Dict.{Dict, Has, lookup, insert}
use maritime_simulation.Floats.{milli_float, Milli}
use maritime_simulation.Domain.Packet.{validate, validate_path}
use maritime_simulation.Domain.Schema.{
  Value, Msgpack, float, string_size, validate_schema_fields, validate_each, is_field_name,
  field_byte_size, fixed_size, strip_prefix, decode_payload,
}
use maritime_simulation.Nodesim.Ship.{
  Ship, TransmitFrame, launch, first_attempt, Transmit, has_chan, waiting,
}
use maritime_simulation.Nodesim.Payload.{
  ClientLib, IsClientLib, build_payload, build_fields, field_value, field_kind,
}
use maritime_simulation.Nodesim.Payload.RoundTrip.{payload_round_trip}
use maritime_simulation.Nodesim.Link.{register, write, wake, Signal, advance}
use maritime_simulation.Nodesim.Reader.{routing_update, receive_rf, mesh_ack, relay_frame}
use maritime_simulation.Nodesim.Reader.Frames.{IsSendable, relay_frame-IsSendable}
use maritime_simulation.Nodesim.Fleet.{Event, got, handle, report_due, move_on, on_events}
use maritime_simulation.Nodesim.Fleet.Delivery.{IsSettled, on_events-IsSettled}
use maritime_simulation.Nodesim.Fleet.Channels.{IsOrderly}
use maritime_simulation.Nodesim.Fleet.Acks.{on_events-IsOrderly}
use maritime_simulation.Nodesim.Fleet.Relays.{IsThrifty, on_events-IsThrifty}
use maritime_simulation.Nodesim.Fleet.Rounds.{rank, StaysOrFalls, Falls, advance-ends}
use maritime_simulation.Tests.Sample.{fields, frame_to}

-- A codec for the maps of one number, and a random source that counts.
abbrev encode_map : Dict (Value Milli) → Option (List ℕ)
encode_map ((k, float x) ∷ []) = some (x ∷ k)
encode_map _ = none

abbrev decode_map : List ℕ → Option (Dict (Value Milli))
decode_map [] = none
decode_map (x ∷ k) = some ((k, float x) ∷ [])

abbrev read_size : Option ℕ → ℤ
read_size none = pos 0
read_size (some n) = pos n

abbrev kit : ClientLib Milli ℕ
kit = record {
  float64 = λ n. (n, suc n);
  int_n = λ m n. (0, suc n);
  to_float32 = λ x. x;
  scan_string_size = λ t. read_size (string_size t);
  marshal = encode_map;
  encode_base64 = λ raw. codes "AQ==";
  four_digits = λ n. codes "0001";
}

abbrev packer : Msgpack Milli
packer = record { unmarshal_map = decode_map; unmarshal_array = λ _. none }

decode_map-encode_map :
    (d : Dict (Value Milli)) (raw : List ℕ)
    → encode_map d ≡ some raw
    → (e : Dict (Value Milli)) × (decode_map raw ≡ some e) × ((k : Text) → lookup k e ≡ lookup k d)
decode_map-encode_map ((k, float x) ∷ []) [] h = cc
decode_map-encode_map ((k, float x) ∷ []) (y ∷ j) h = ((k, float x) ∷ [], ground arith, λ i. refl)
decode_map-encode_map d raw h = cc

kit-IsClientLib : IsClientLib kit packer
kit-IsClientLib = record { scanned = λ t n e. ap read_size e; decoded = decode_map-encode_map }

payload_round_trip_example :
    (d : Dict (Value Milli)) × (decode_payload packer (100 ∷ codes "lat") fields ≡ (some d, []))
    × All (λ f. Has f.name d) fields
unfolding validate_schema_fields validate_each is_field_name field_byte_size fixed_size strip_prefix
    build_payload build_fields field_value field_kind lookup insert text_eq
payload_round_trip_example =
    payload_round_trip kit 100 200 packer fields 0 (100 ∷ codes "lat") kit-IsClientLib refl refl

abbrev ship : Ship Milli
ship =
    launch (codes "B") (codes "s1") (record { speed_kmh = 10; ping_hours = 1; ignore_sf = false })
      100 200 0

abbrev heard_frame : TransmitFrame
heard_frame = record (frame_to (codes "B")) { packet_id = codes "p1" }

abbrev history : List (Event ℕ)
history =
    got (routing_update (codes "E1") true (codes "routed"))
    ∷ got (receive_rf heard_frame)
    ∷ handle 0 true
    ∷ move_on 0 register
    ∷ move_on 0 (write true)
    ∷ got (mesh_ack (codes "p1") false)
    ∷ move_on 0 wake
    ∷ report_due 0
    ∷ got (receive_rf heard_frame)
    ∷ handle 0 true
    ∷ []

on_events-IsSettled_example : IsSettled (on_events kit history ship)
unfolding launch
on_events-IsSettled_example =
    on_events-IsSettled kit history ship ((refl, refl, refl, refl), tt, λ k. refl)

on_events-IsThrifty_example : IsThrifty (on_events kit history ship)
unfolding launch
on_events-IsThrifty_example =
    on_events-IsThrifty kit history ship ((λ k. omega arith), refl, refl, tt)

on_events-IsOrderly_example : IsOrderly (on_events kit history ship)
unfolding launch has_chan lookup
on_events-IsOrderly_example =
    on_events-IsOrderly kit history ship (refl, (λ c e. cc), ((λ k c e. cc), (λ k j c e f. cc)), tt)

abbrev waits : Transmit
waits = record (first_attempt false heard_frame) { phase = waiting 0 2000 }

advance-ends_example :
    (rank (waiting 0 2000) 0 ≤ 12)
    × ((sig : Signal) → StaysOrFalls waits ship (advance sig waits.phase waits ship))
    × ((rank (waiting 0 2000) 0 ≡ 0)
        ⊎ ((sig : Signal) × Falls waits (advance sig waits.phase waits ship)))
advance-ends_example = advance-ends waits ship (omega arith, omega arith, omega arith)

relay_frame-IsSendable_example :
    IsSendable (codes "B") (relay_frame (codes "B") (codes "E1") heard_frame)
unfolding validate validate_path
relay_frame-IsSendable_example =
    relay_frame-IsSendable (codes "B") (codes "E1") heard_frame (omega arith, omega arith)
      (omega arith, omega arith) refl refl (omega arith)
