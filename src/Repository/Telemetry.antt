-- ===== src/Repository/Telemetry.antt =====
-- repository/telemetry_repo.go: the rows of the telemetry.
use maritime_simulation.Base.{ℕ, Bool, List, [], ◌∷◌, Option, none, some}
use maritime_simulation.Base.Int.{ℤ}
use maritime_simulation.Base.Text.{Text}
use maritime_simulation.Base.Dict.{Dict}
use maritime_simulation.Domain.Errors.{Result, ok, err, other}
use maritime_simulation.Domain.Schema.{Value}
use maritime_simulation.Service.Ports.{TelemetryLog}
use maritime_simulation.Repository.State.{and_then}
use maritime_simulation.Repository.Sessions.{scan_bytes}
use maritime_simulation.Repository.Postgres.{
  Column, text, integer, number, flag, time, null, insert_telemetry_row, select_telemetry,
  count_telemetry_rows, Pool, Json, wrapped, scanned, collect,
}

-- domain.TelemetryLog, as `ListBySession` fills it in.
pub record TelemetryRow (W : Type 0) : Type 0 where
  pub id : ℕ
  pub edge_id : Option ℕ
  pub edge_active : Bool
  pub arrived_at : ℕ
  pub session_id : Text
  pub origin_node_id : Text
  pub edge_code : Text
  pub hop_count : ℤ
  pub routing_path : Text
  pub decoded_payload : Dict (Value W)

module _ {W : Type 0} where
  -- The columns that `Insert` reads back; the caller uses neither.
  unfoldable pub scan_arrival : List (Column W) → Option (Unit {0})
  scan_arrival (number id ∷ time at ∷ []) = some tt
  scan_arrival _ = none

  -- A nullable reference to an edge.
  unfoldable pub scan_edge_id : Column W → Option (Option ℕ)
  scan_edge_id null = some none
  scan_edge_id (number id) = some (some id)
  scan_edge_id _ = none

  module _ (j : Json W) where
    -- `len(payloadRaw) > 0`, and the JSON.
    unfoldable pub read_payload : List ℕ → Result (Dict (Value W))
    read_payload [] = ok []
    read_payload (b ∷ raw) = scanned (j.unmarshal_payload (b ∷ raw))

    abbrev pub with_payload : TelemetryRow W → Result (Dict (Value W)) → Result (TelemetryRow W)
    with_payload l (err e) = err e
    with_payload l (ok d) = ok (record l { decoded_payload = d })

    unfoldable pub scan_nullable_columns :
        TelemetryRow W → Option (Option ℕ) → Option (List ℕ) → Result (TelemetryRow W)
    scan_nullable_columns l none raw = err other
    scan_nullable_columns l (some edge) none = err other
    scan_nullable_columns l (some edge) (some raw) =
        with_payload (record l { edge_id = edge }) (read_payload raw)

    -- The body of the loop of `ListBySession`.
    unfoldable pub scan_telemetry : List (Column W) → Result (TelemetryRow W)
    scan_telemetry
          (number id
            ∷ text sid
            ∷ text origin
            ∷ edge
            ∷ text code
            ∷ flag active
            ∷ integer hops
            ∷ text path
            ∷ payload
            ∷ time at
            ∷ []) =
        scan_nullable_columns
          (record {
            id = id;
            edge_id = none;
            edge_active = active;
            arrived_at = at;
            session_id = sid;
            origin_node_id = origin;
            edge_code = code;
            hop_count = hops;
            routing_path = path;
            decoded_payload = [];
          })
          (scan_edge_id edge) (scan_bytes payload)
    scan_telemetry _ = err other

    -- The one column of `CountBySession`.
    unfoldable pub scan_count : List (Column W) → Option ℕ
    scan_count (number n ∷ []) = some n
    scan_count _ = none

    module _ {S : Type 0} (q : Pool W S) where
      unfoldable pub insert_marshalled :
          TelemetryLog W → Option (List ℕ) → S → Result (Unit {0}) × S
      insert_marshalled l none w = (err other, w)
      insert_marshalled l (some raw) w =
          let (a, v) =
            q.query_row
              (insert_telemetry_row l.session_id l.origin_node_id l.edge_id l.edge_code l.hop_count
                l.routing_path raw)
              w in
          (and_then (wrapped a) (λ row. scanned (scan_arrival row)), v)

      -- Insert
      unfoldable pub insert_telemetry : TelemetryLog W → S → Result (Unit {0}) × S
      insert_telemetry l w = insert_marshalled l (j.marshal_payload l.decoded_payload) w

      -- ListBySession
      unfoldable pub list_telemetry : Text → ℤ → ℤ → S → Result (List (TelemetryRow W)) × S
      list_telemetry sid limit offset w =
          let (a, v) = q.query (select_telemetry sid limit offset) w in
          (collect scan_telemetry a, v)

      -- CountBySession
      unfoldable pub count_telemetry : Text → S → Result ℕ × S
      count_telemetry sid w =
          let (a, v) = q.query_row (count_telemetry_rows sid) w in
          (and_then (wrapped a) (λ row. scanned (scan_count row)), v)
