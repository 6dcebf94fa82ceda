-- ===== src/Repository/Postgres.antt =====
-- What the repositories call of the PostgreSQL pool, and of `encoding/json`, as interfaces. A
-- statement is its SQL text with the arguments; a row is its columns.
use Prim.Native.Nat.{zero, suc}
use maritime_simulation.Base.{ℕ, Bool, true, false, List, [], ◌∷◌, Option, none, some}
use maritime_simulation.Base.Int.{ℤ}
use maritime_simulation.Base.Text.{Text}
use maritime_simulation.Base.Dict.{Dict}
use maritime_simulation.Domain.Errors.{Result, ok, err, Error, not_found, other, validation}
use maritime_simulation.Domain.Schema.{SchemaField, Value}

-- A column, as `Scan` sees it. `null` is SQL's.
pub data Column (W : Type 0) : Type 0 where
  text : Text → Column W
  integer : ℤ → Column W
  number : ℕ → Column W
  real : W → Column W
  flag : Bool → Column W
  bytes : List ℕ → Column W
  time : ℕ → Column W
  null : Column W

-- The SQL texts of the repositories, by what they do. Their column lists are left out: that a row has
-- its columns in the order in which it is scanned is taken from the texts.
pub data Statement (W : Type 0) : Type 0 where
  insert_session : (name : Text) (sf tx : ℤ) → W → Statement W
  select_session : (id : Text) → Statement W
  select_sessions : (limit : ℕ) → Statement W
  select_active_sessions : Statement W
  update_active_weather : (id : Text) → W → Statement W
  update_active_radio : (id : Text) (sf tx : ℤ) → Statement W
  stop_active : (id : Text) (stats_json : List ℕ) → Statement W
  delete_session_row : (id : Text) → Statement W
  insert_edge : (code name : Text) (lat lng : W) → Statement W
  select_edges : Statement W
  update_edge_row : (code name : Text) (lat lng : W) → Statement W
  delete_edge_row : (code : Text) → Statement W
  select_edge : (code : Text) → Statement W
  insert_schema : (session_id : Text) (definition : List ℕ) → Statement W
  select_latest_schema : (session_id : Text) → Statement W
  insert_telemetry_row :
      (session_id origin : Text) (edge_id : ℕ) (edge_code : Text) (hop_count : ℤ)
      (routing_path : Text) (payload : List ℕ)
      → Statement W
  select_telemetry : (session_id : Text) (limit offset : ℤ) → Statement W
  count_telemetry_rows : (session_id : Text) → Statement W

-- Why a statement failed: pgx.ErrNoRows, the code 23505 of a unique index, or anything else.
pub data Failure : Type 0 where
  no_rows unique_violation broken : Failure

pub data Answer (A : Type 0) : Type 0 where
  done : A → Answer A
  failed : Failure → Answer A

-- `exec` gives the number of affected rows; `query` the rows, and whether `rows.Err` is nil.
pub record Pool (W S : Type 0) : Type 0 where
  pub exec : Statement W → S → Answer ℕ × S
  pub query_row : Statement W → S → Answer (List (Column W)) × S
  pub query : Statement W → S → Answer (List (List (Column W)) × Bool) × S

-- json.Marshal and json.Unmarshal on what the repositories store; none for an error.
pub record Json (W : Type 0) : Type 0 where
  pub marshal_stats : Dict ℤ → Option (List ℕ)
  pub unmarshal_stats : List ℕ → Option (Dict ℤ)
  pub marshal_fields : List SchemaField → Option (List ℕ)
  pub unmarshal_fields : List ℕ → Option (List SchemaField)
  pub marshal_payload : Dict (Value W) → Option (List ℕ)
  pub unmarshal_payload : List ℕ → Option (Dict (Value W))

-- An error that is wrapped without a sentinel.
abbrev pub wrapped : {A : Type 0} → Answer A → Result A
wrapped (done a) = ok a
wrapped (failed f) = err other

-- The same, where pgx.ErrNoRows becomes ErrNotFound.
abbrev pub found_row : {A : Type 0} → Answer A → Result A
found_row (done a) = ok a
found_row (failed no_rows) = err not_found
found_row (failed unique_violation) = err other
found_row (failed broken) = err other

-- The same, where a unique violation becomes a validation error.
abbrev pub unique_row : {A : Type 0} → Answer A → Result A
unique_row (done a) = ok a
unique_row (failed no_rows) = err other
unique_row (failed unique_violation) = err validation
unique_row (failed broken) = err other

-- What a `Scan` that fails returns.
abbrev pub scanned : {A : Type 0} → Option A → Result A
scanned none = err other
scanned (some a) = ok a

-- The result of an `Exec`: the error where no row was affected.
unfoldable pub affected : Error → Answer ℕ → Result (Unit {0})
affected e (failed f) = err other
affected e (done zero) = err e
affected e (done (suc n)) = ok tt

abbrev pub add_row : {A : Type 0} → Result A → Result (List A) → Result (List A)
add_row (err e) rest = err e
add_row (ok a) (err e) = err e
add_row (ok a) (ok rest) = ok (a ∷ rest)

-- The loop over the rows: it ends at the first row that does not scan, and `rows.Err` comes last.
unfoldable pub scan_rows :
    {W A : Type 0} → (List (Column W) → Result A) → List (List (Column W)) → Bool → Result (List A)
scan_rows scan [] true = ok []
scan_rows scan [] false = err other
scan_rows scan (r ∷ rs) fine = add_row (scan r) (scan_rows scan rs fine)

unfoldable pub collect :
    {W A : Type 0}
    → (List (Column W) → Result A)
    → Answer (List (List (Column W)) × Bool)
    → Result (List A)
collect scan (failed f) = err other
collect scan (done (rows, fine)) = scan_rows scan rows fine
