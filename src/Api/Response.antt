-- ===== src/Api/Response.antt =====
-- api/response.go: the envelope of a response. Its message, a text for people, is left out.
use maritime_simulation.Base.{ℕ, Bool, true, false, List, Option, none, some, if◌then◌else◌}
use maritime_simulation.Base.Int.{ℤ, ltb_ℤ}
use maritime_simulation.Base.Text.{Text}
use maritime_simulation.Base.Dict.{Dict}
use maritime_simulation.Domain.Errors.{
  Result, ok, err, Error, not_found, session_inactive, session_still_active, validation, other,
}
use maritime_simulation.Domain.Entities.{Session, Edge}
use maritime_simulation.Domain.Schema.{DynamicSchema}
use maritime_simulation.Repository.Telemetry.{TelemetryRow}
use maritime_simulation.Service.Schemas.{Stored}
use maritime_simulation.Service.Topology.{TopologySnapshot}

-- The field `data` of a response.
pub data Data (W : Type 0) : Type 0 where
  nil : Data W
  session_created session_data : Session W → Data W
  session_list : List (Session W) → Data W
  session_stats : Session W → Option (Dict ℤ) → Data W
  session_removed edge_removed : Text → Data W
  stats_data : Dict ℤ → Data W
  schema_stored : Stored → Data W
  schema_data : DynamicSchema → Data W
  topology_data : TopologySnapshot W → Data W
  telemetry_data : List (TelemetryRow W) → ℕ → (limit offset : ℤ) → Data W
  edge_data : Edge W → Data W
  edge_list : List (Edge W) → Data W
  time_data : ℕ → Data W

-- envelope, with the status code of HTTP. `is_success` is the field `status`, `body` the field `data`.
pub record Response (W : Type 0) : Type 0 where
  pub code : ℕ
  pub is_success : Bool
  pub body : Data W

module _ {W : Type 0} where
  -- respondOK
  abbrev pub respond_ok : Data W → Response W
  respond_ok d = record { code = 200; is_success = true; body = d }

  -- respondCreated
  abbrev pub respond_created : Data W → Response W
  respond_created d = record { code = 201; is_success = true; body = d }

  -- respondError
  abbrev pub respond_error : ℕ → Response W
  respond_error code = record { code = code; is_success = false; body = nil }

  -- respondDomainError
  unfoldable pub respond_domain_error : Error → Response W
  respond_domain_error validation = respond_error 400
  respond_domain_error not_found = respond_error 404
  respond_domain_error session_inactive = respond_error 409
  respond_domain_error session_still_active = respond_error 409
  respond_domain_error other = respond_error 500

  -- The end of a handler: `respondDomainError` for an error, else the data.
  unfoldable pub respond : {A : Type 0} → (A → Response W) → Result A → Response W
  respond f (err e) = respond_domain_error e
  respond f (ok a) = f a

-- queryInt, on the text of the parameter: `raw` is empty, no number, or a number.
unfoldable pub query_int : Option (Option ℤ) → (def min max : ℤ) → ℤ
query_int none def min max = def
query_int (some none) def min max = def
query_int (some (some n)) def min max = if ltb_ℤ n min then def else if ltb_ℤ max n then max else n
