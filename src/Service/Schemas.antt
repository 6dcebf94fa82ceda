-- ===== src/Service/Schemas.antt =====
-- service/schema_service.go: a new version of a session's payload schema.
pub mod Outcomes
use maritime_simulation.Base.{ℕ, Bool, true, false, List, Option, none, some, ltb, if◌then◌else◌}
use maritime_simulation.Base.Int.{ℤ}
use maritime_simulation.Base.Text.{Text}
use maritime_simulation.Domain.Errors.{Result, ok, err, session_inactive}
use maritime_simulation.Domain.Entities.{Session}
use maritime_simulation.Domain.Lora.{max_payload_bytes}
use maritime_simulation.Domain.Schema.{
  DynamicSchema, SchemaField, validate_schema_fields, estimate_packed_bytes,
}
use maritime_simulation.Protocol.{SchemaSync, schema_sync}
use maritime_simulation.Service.Ports.{
  Ports, M, call, pure, try_ok, note, broadcast_to_nodes, broadcast_to_monitors, created_schema,
  ◌>>=◌, ◌>>◌,
}

-- The values that the text of the warning names: the estimate, the spreading factor, the limit.
pub record Warning : Type 0 where
  pub estimated : ℕ
  pub spreading_factor : ℤ
  pub limit : ℕ

-- What `SetSchema` returns.
pub record Stored : Type 0 where
  pub schema : DynamicSchema
  pub estimate : ℕ
  pub warning : Option Warning

-- The warning, or none where the source's text is empty.
unfoldable pub warning_of : ℕ → ℤ → Option Warning
warning_of estimate sf =
    if ltb (max_payload_bytes sf) estimate
    then some (record { estimated = estimate; spreading_factor = sf; limit = max_payload_bytes sf })
    else none

abbrev pub sync_of : List SchemaField → SchemaSync
sync_of fields = record { fields = fields; estimated_packed_bytes = estimate_packed_bytes fields }

module _ {W S : Type 0} (p : Ports W S) where
  unfoldable pub push_new :
      Text → List SchemaField → Session W → Result DynamicSchema → M W S (Result Stored)
  push_new sid fields sess (err e) = pure (err e)
  push_new sid fields sess (ok schema) = do
    broadcast_to_nodes p sid (schema_sync (sync_of fields))
    broadcast_to_monitors p sid (schema_sync (sync_of fields))
    pure (
        ok (record {
          schema = schema;
          estimate = estimate_packed_bytes fields;
          warning = warning_of (estimate_packed_bytes fields) sess.spreading_factor;
        }))

  unfoldable pub store_active : Text → List SchemaField → Session W → Bool → M W S (Result Stored)
  store_active sid fields sess false = pure (err session_inactive)
  store_active sid fields sess true = do
    r ← call (p.create_schema sid fields)
    note r (created_schema sid fields)
    push_new sid fields sess r

  unfoldable pub store_schema : Text → List SchemaField → Result (Session W) → M W S (Result Stored)
  store_schema sid fields (err e) = pure (err e)
  store_schema sid fields (ok sess) = store_active sid fields sess sess.is_active

  unfoldable pub find_session : Text → List SchemaField → M W S (Result Stored)
  find_session sid fields = do sess ← call (p.session_by_id sid); store_schema sid fields sess

  -- SetSchema
  unfoldable pub set_schema : Text → List SchemaField → M W S (Result Stored)
  set_schema sid fields = try_ok (validate_schema_fields fields) λ _. find_session sid fields

  -- GetActive
  unfoldable pub get_active : Text → M W S (Result DynamicSchema)
  get_active sid = call (p.latest_schema sid)
