-- ===== src/Nodesim/Payload/RoundTrip.antt =====
-- The payload of a ship, decoded by the server.
use mathlib.Core.Option.{some-injective}
use maritime_simulation.Base.{
  ℕ, ◌≡◌, refl, sym, ◌∙◌, ap, subst, arith, Bool, true, false, List, [], ◌∷◌, Option, none, some,
  All, All-map,
}
use maritime_simulation.Base.Text.{Text, text_eq, text_eq_iff}
use maritime_simulation.Base.Dict.{
  Dict, lookup, insert, lookup-insert, Has, insert-Has, insert-Has_self,
}
use maritime_simulation.Floats.{Float}
use maritime_simulation.Domain.Errors.{ok}
use maritime_simulation.Domain.Schema.{
  SchemaField, Value, Msgpack, field_byte_size, validate_each, validate_schema_fields, coerce_value,
  fits, store_value, store_coerced, decode_field, decode_fields, decode_values, decode_payload,
  Problem,
}
use maritime_simulation.Domain.Schema.Coverage.{decode_values-covers}
use maritime_simulation.Nodesim.Payload.{
  ClientLib, IsClientLib, field_kind, field_value, build_fields, build_payload, keep_value,
}
use maritime_simulation.Nodesim.Payload.Fits.{Fitting, type-Serves}

-- What `validate_each` says of the first field.
first_field :
    (f : SchemaField) (fs : List SchemaField) (seen : Dict Bool)
    → validate_each (f ∷ fs) seen ≡ ok tt
    → (lookup f.name seen ≡ none)
      × ((n : ℕ) × (field_byte_size f.type ≡ ok n))
      × (validate_each fs (insert f.name true seen) ≡ ok tt)
unfolding validate_each
first_field f fs seen h = ground arith

module _ {W S : Type 0} ⦃fl : Float W⦄ (l : ClientLib W S) (lat lng : W) where
  keep_value-other :
      (k j : Text) (o : Option (Value W)) (d : Dict (Value W))
      → text_eq j k ≡ false
      → lookup k (keep_value l lat lng j o d) ≡ lookup k d
  keep_value-other k j none d h = refl
  keep_value-other k j (some v) d h = ground (arith, lookup-insert j k v d)

  keep_value-own :
      (k : Text) (o : Option (Value W)) (v : Value W) (d : Dict (Value W))
      → o ≡ some v
      → lookup k (keep_value l lat lng k o d) ≡ some v
  keep_value-own k o v d e =
      subst (λ q. lookup k (keep_value l lat lng k q d) ≡ some v) (sym e)
        (ground (arith, lookup-insert k k v d, text_eq_iff k k))

  -- A name that stands in front of the fields keeps its value.
  build_fields-other :
      (k : Text) (fs : List SchemaField) (seen : Dict Bool) (d : Dict (Value W)) (s : S)
      → validate_each fs seen ≡ ok tt
      → Has k seen
      → lookup k (build_fields l lat lng fs d s) ≡ lookup k d
  unfolding build_fields
  build_fields-other k [] seen d s h i = refl
  build_fields-other k (f ∷ fs) seen d s h i =
      let (a, b, c) = first_field f fs seen h in
      let (o, s1) = field_value l lat lng (field_kind f) f.type s in
      build_fields-other k fs (insert f.name true seen) (keep_value l lat lng f.name o d) s1 c
        (insert-Has k f.name true seen i)
      ∙ keep_value-other k f.name o d (ground (arith, text_eq_iff f.name k))

  build_fields-Fitting :
      (mp : Msgpack W) (fs : List SchemaField) (seen : Dict Bool) (d : Dict (Value W)) (s : S)
      → IsClientLib l mp
      → validate_each fs seen ≡ ok tt
      → All (λ f. Fitting l lat lng f.type (lookup f.name (build_fields l lat lng fs d s))) fs
  unfolding build_fields
  build_fields-Fitting mp [] seen d s i h = tt
  build_fields-Fitting mp (f ∷ fs) seen d s i h =
      let (a, (n, b), c) = first_field f fs seen h in
      let (o, s1) = field_value l lat lng (field_kind f) f.type s in
      let (v, w, e, g) = type-Serves l lat lng mp f.type n i b f.name s in
      (
        (
          v,
          w,
          build_fields-other f.name fs (insert f.name true seen) (keep_value l lat lng f.name o d)
                s1 c (insert-Has_self f.name true seen)
              ∙ keep_value-own f.name o v d e,
          g,
        ),
        build_fields-Fitting mp fs (insert f.name true seen) (keep_value l lat lng f.name o d) s1 i
            c,
      )

  store_value-Fitting :
      (o : Option (Value W)) (f : SchemaField) (d : Dict (Value W)) (ps : List Problem)
      → Fitting l lat lng f.type o
      → (c : Value W) × (store_value o f (d, ps) ≡ (insert f.name c d, ps))
  unfolding store_value store_coerced
  store_value-Fitting none f d ps (v, c, e, g) = cc
  store_value-Fitting (some u) f d ps (v, c, e, g) = (
    c,
    ap (λ r. store_coerced r u f (d, ps))
        (subst (λ q. coerce_value q f.type ≡ fits c) (sym (some-injective _ _ e)) g),
  )

  decode_fields-clean :
      (values : Dict (Value W)) (fs : List SchemaField) (d : Dict (Value W)) (ps : List Problem)
      → All (λ f. Fitting l lat lng f.type (lookup f.name values)) fs
      → (decode_fields values fs (d, ps)).1 ≡ ps
  unfolding decode_fields decode_field
  decode_fields-clean values [] d ps _ = refl
  decode_fields-clean values (f ∷ fs) d ps (h, hs) =
      let (c, e) = store_value-Fitting (lookup f.name values) f d ps h in
      ap (λ r. (decode_fields values fs r).1) e
      ∙ decode_fields-clean values fs (insert f.name c d) ps hs

  decode_payload-map :
      (mp : Msgpack W) (raw : List ℕ) (fs : List SchemaField) (e : Dict (Value W))
      → mp.unmarshal_map raw ≡ some e
      → decode_payload mp raw fs ≡ (some (decode_values e fs).0, (decode_values e fs).1)
  unfolding decode_payload
  decode_payload-map mp raw fs e h = ground arith

  build_payload-Fitting :
      (mp : Msgpack W) (fs : List SchemaField) (s : S)
      → IsClientLib l mp
      → validate_schema_fields fs ≡ ok tt
      → All (λ f. Fitting l lat lng f.type (lookup f.name (build_payload l lat lng fs s))) fs
  unfolding build_payload validate_schema_fields
  build_payload-Fitting mp [] s i h = tt
  build_payload-Fitting mp (f ∷ fs) s i h =
      build_fields-Fitting mp (f ∷ fs) [] [] s i (ground arith)

  -- A payload that a ship builds for an accepted schema and encodes is decoded by the server under
  -- that schema without a problem, and every field of the schema has a value.
  pub payload_round_trip :
      (mp : Msgpack W) (fields : List SchemaField) (s : S) (raw : List ℕ)
      → IsClientLib l mp
      → validate_schema_fields fields ≡ ok tt
      → l.marshal (build_payload l lat lng fields s) ≡ some raw
      → (d : Dict (Value W)) × (decode_payload mp raw fields ≡ (some d, []))
        × All (λ f. Has f.name d) fields
  unfolding decode_values
  payload_round_trip mp fields s raw i v h =
      let (e, u, same) = i.decoded (build_payload l lat lng fields s) raw h in
      let fit =
        All-map (λ f. Fitting l lat lng f.type (lookup f.name (build_payload l lat lng fields s)))
          (λ f. Fitting l lat lng f.type (lookup f.name e))
          (λ f (a, b, c, g). (a, b, same f.name ∙ c, g)) fields
          (build_payload-Fitting mp fields s i v) in
      (
        (decode_values e fields).0,
        decode_payload-map mp raw fields e u
            ∙ ap (λ ps. (some (decode_values e fields).0, ps))
                (decode_fields-clean e fields [] [] fit),
        decode_values-covers e fields,
      )
