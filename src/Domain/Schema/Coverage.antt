-- ===== src/Domain/Schema/Coverage.antt =====
-- What a decoded payload holds of a schema's fields.
use maritime_simulation.Base.{List, [], ◌∷◌, Option, none, some, All, All-map, Bool}
use maritime_simulation.Base.Text.{Text}
use maritime_simulation.Base.Dict.{Has, insert-Has, insert-Has_self, Dict, lookup}
use maritime_simulation.Floats.{Float}
use maritime_simulation.Domain.Schema.{
  SchemaField, Value, Problem, Coerced, fits, misfit, coerce_value, store_coerced, store_value,
  keep_one, null, decode_field, decode_fields, decode_values, keep_unknown, known_names,
}

module _ {W : Type 0} ⦃fl : Float W⦄ where
  store_coerced-Has :
      (c : Coerced W) (k : Text) (v : Value W) (f : SchemaField) (d : Dict (Value W))
      (ps : List Problem)
      → Has k d
      → Has k (store_coerced c v f (d, ps)).0
  unfolding store_coerced
  store_coerced-Has (misfit e) k v f d ps h = insert-Has k f.name v d h
  store_coerced-Has (fits c) k v f d ps h = insert-Has k f.name c d h

  store_coerced-own :
      (c : Coerced W) (v : Value W) (f : SchemaField) (d : Dict (Value W)) (ps : List Problem)
      → Has f.name (store_coerced c v f (d, ps)).0
  unfolding store_coerced
  store_coerced-own (misfit e) v f d ps = insert-Has_self f.name v d
  store_coerced-own (fits c) v f d ps = insert-Has_self f.name c d

  store_value-Has :
      (o : Option (Value W)) (k : Text) (f : SchemaField) (d : Dict (Value W)) (ps : List Problem)
      → Has k d
      → Has k (store_value o f (d, ps)).0
  unfolding store_value
  store_value-Has none k f d ps h = insert-Has k f.name null d h
  store_value-Has (some v) k f d ps h = store_coerced-Has (coerce_value v f.type) k v f d ps h

  store_value-own :
      (o : Option (Value W)) (f : SchemaField) (d : Dict (Value W)) (ps : List Problem)
      → Has f.name (store_value o f (d, ps)).0
  unfolding store_value
  store_value-own none f d ps = insert-Has_self f.name null d
  store_value-own (some v) f d ps = store_coerced-own (coerce_value v f.type) v f d ps

  decode_fields-Has :
      (k : Text) (values : Dict (Value W)) (fs : List SchemaField) (d : Dict (Value W))
      (ps : List Problem)
      → Has k d
      → Has k (decode_fields values fs (d, ps)).0
  unfolding decode_fields decode_field
  decode_fields-Has k values [] d ps h = h
  decode_fields-Has k values (f ∷ fs) d ps h =
      let (e, qs) = decode_field values f (d, ps) in
      decode_fields-Has k values fs e qs (store_value-Has (lookup f.name values) k f d ps h)

  decode_fields-All :
      (values : Dict (Value W)) (fs : List SchemaField) (d : Dict (Value W)) (ps : List Problem)
      → All (λ f. Has f.name (decode_fields values fs (d, ps)).0) fs
  unfolding decode_fields decode_field
  decode_fields-All values [] d ps = tt
  decode_fields-All values (f ∷ fs) d ps =
      let (e, qs) = decode_field values f (d, ps) in
      (
        decode_fields-Has f.name values fs e qs (store_value-own (lookup f.name values) f d ps),
        decode_fields-All values fs e qs,
      )

  keep_one-Has :
      (o : Option Bool) (k j : Text) (v : Value W) (d : Dict (Value W))
      → Has k d
      → Has k (keep_one o j v d)
  keep_one-Has (some _) k j v d h = h
  keep_one-Has none k j v d h = insert-Has k j v d h

  keep_unknown-Has :
      (k : Text) (values : Dict (Value W)) (known : Dict Bool) (d : Dict (Value W))
      → Has k d
      → Has k (keep_unknown values known d)
  unfolding keep_unknown
  keep_unknown-Has k [] known d h = h
  keep_unknown-Has k ((j, v) ∷ rest) known d h =
      keep_unknown-Has k rest known _ (keep_one-Has (lookup j known) k j v d h)

  -- Whatever the payload holds: the decoded map has a value for each field of the schema, null for a
  -- missing one.
  pub decode_values-covers :
      (values : Dict (Value W)) (fields : List SchemaField)
      → All (λ f. Has f.name (decode_values values fields).0) fields
  unfolding decode_values
  decode_values-covers values fields =
      let d = (decode_fields values fields ([], [])).0 in
      All-map (λ f. Has f.name d) _
        (λ f h. keep_unknown-Has f.name values (known_names fields []) d h) fields
        (decode_fields-All values fields [] [])
