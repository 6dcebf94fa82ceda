-- ===== src/Repository/Schemas.antt =====
-- repository/schema_repo.go: the rows of the schemas.
use maritime_simulation.Base.{ℕ, List, [], ◌∷◌, Option, none, some}
use maritime_simulation.Base.Text.{Text}
use maritime_simulation.Domain.Errors.{Result, ok, err, other}
use maritime_simulation.Domain.Schema.{DynamicSchema, SchemaField}
use maritime_simulation.Repository.State.{and_then}
use maritime_simulation.Repository.Postgres.{
  Column, text, number, bytes, time, insert_schema, select_latest_schema, Pool, Json, wrapped,
  found_row, scanned,
}

module _ {W : Type 0} where
  -- The two columns that `Create` reads back.
  unfoldable pub scan_stored : Text → List SchemaField → List (Column W) → Option DynamicSchema
  scan_stored sid fields (number id ∷ time at ∷ []) =
      some (record { id = id; session_id = sid; fields = fields; created_at = at })
  scan_stored sid fields _ = none

  module _ (j : Json W) where
    -- The columns of `GetLatest`, with the definition's JSON.
    unfoldable pub read_definition : ℕ → Text → ℕ → Option (List SchemaField) → Result DynamicSchema
    read_definition id sid at none = err other
    read_definition id sid at (some fields) =
        ok (record { id = id; session_id = sid; fields = fields; created_at = at })

    unfoldable pub scan_schema : List (Column W) → Result DynamicSchema
    scan_schema (number id ∷ text sid ∷ bytes raw ∷ time at ∷ []) =
        read_definition id sid at (j.unmarshal_fields raw)
    scan_schema _ = err other

    module _ {S : Type 0} (q : Pool W S) where
      unfoldable pub create_marshalled :
          Text → List SchemaField → Option (List ℕ) → S → Result DynamicSchema × S
      create_marshalled sid fields none w = (err other, w)
      create_marshalled sid fields (some raw) w =
          let (a, v) = q.query_row (insert_schema sid raw) w in
          (and_then (wrapped a) (λ row. scanned (scan_stored sid fields row)), v)

      -- Create
      unfoldable pub create_schema : Text → List SchemaField → S → Result DynamicSchema × S
      create_schema sid fields w = create_marshalled sid fields (j.marshal_fields fields) w

      -- GetLatest
      unfoldable pub latest_schema : Text → S → Result DynamicSchema × S
      latest_schema sid w =
          let (a, v) = q.query_row (select_latest_schema sid) w in
          (and_then (found_row a) scan_schema, v)
