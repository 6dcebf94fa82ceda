-- ===== src/Domain/Schema.antt =====
-- domain/schema.go: the dynamic payload schema, its size estimate and the lenient decoder.
-- The two regular expressions are written out as tests on bytes, and a schema type that both
-- `FieldByteSize` and `coerceValue` match against one of them is parsed once, by `string_size`.
pub mod Coverage
pub mod Sizes
use maritime_simulation.Base.{
  ℕ, ◌+◌, ◌-◌, ◌*◌, ◌^◌, Bool, true, false, not, ◌&&◌, ◌||◌, List, [], ◌∷◌, ◌++◌, Option, none,
  some, if◌then◌else◌, leb, ltb, ◌==◌, length,
}
use maritime_simulation.Base.Int.{ℤ, pos, negsuc}
use maritime_simulation.Base.Text.{Text, text_eq, codes}
use maritime_simulation.Base.Dict.{Dict, lookup, insert}
use maritime_simulation.Floats.{Float}
use maritime_simulation.Domain.Errors.{Result, ok, err, validation}

-- SchemaField
pub record SchemaField : Type 0 where
  pub name : Text
  pub type : Text

-- DynamicSchema
pub record DynamicSchema : Type 0 where
  pub id : ℕ
  pub session_id : Text
  pub fields : List SchemaField
  pub created_at : ℕ

abbrev pub max_schema_fields : ℕ
max_schema_fields = 32

abbrev pub max_string_field_size : ℕ
max_string_field_size = 242

abbrev pub is_digit : ℕ → Bool
is_digit c = leb b'0' c && leb c b'9'

abbrev pub is_letter : ℕ → Bool
is_letter c = (leb b'a' c && leb c b'z') || (leb b'A' c && leb c b'Z')

abbrev pub all_name_bytes : Text → Bool
all_name_bytes [] = true
all_name_bytes (c ∷ t) = (is_letter c || is_digit c || c == b'_') && all_name_bytes t

-- fieldNameRe: a letter, then at most 29 letters, digits and underscores.
unfoldable pub is_field_name : Text → Bool
is_field_name [] = false
is_field_name (c ∷ t) = is_letter c && all_name_bytes t && leb (length t) 29

abbrev pub digit : ℕ → ℕ
digit c = c - b'0'

-- The part of `stringTypeRe` behind the prefix, `[1-9][0-9]{0,2}`, with the value that
-- `strconv.Atoi` gives it.
unfoldable pub size_digits : Text → Option ℕ
size_digits [] = none
size_digits (a ∷ []) = if leb b'1' a && leb a b'9' then some (digit a) else none
size_digits (a ∷ b ∷ []) =
    if leb b'1' a && leb a b'9' && is_digit b then some (digit a * 10 + digit b) else none
size_digits (a ∷ b ∷ c ∷ []) =
    if leb b'1' a && leb a b'9' && is_digit b && is_digit c
    then some (digit a * 100 + digit b * 10 + digit c)
    else none
size_digits (a ∷ b ∷ c ∷ d ∷ t) = none

-- What stands behind a prefix.
unfoldable pub strip_prefix : Text → Text → Option Text
strip_prefix [] t = some t
strip_prefix (a ∷ p) [] = none
strip_prefix (a ∷ p) (b ∷ t) = if a == b then strip_prefix p t else none

-- stringTypeRe, `^string_([1-9][0-9]{0,2})$`, with the number that it captures.
unfoldable pub string_size : Text → Option ℕ
string_size t = elim (strip_prefix (codes "string_") t) [ none ↦ none | some r ↦ size_digits r ]

-- The map `fixedTypeSizes`.
unfoldable pub fixed_size : Text → Option ℕ
fixed_size t =
    if text_eq t (codes "float32")
    then some 4
    else if text_eq t (codes "float64")
    then some 8
    else if text_eq t (codes "int8")
    then some 1
    else if text_eq t (codes "int16")
    then some 2
    else if text_eq t (codes "int32")
    then some 4
    else if text_eq t (codes "int64")
    then some 8
    else if text_eq t (codes "uint8")
    then some 1
    else if text_eq t (codes "uint16")
    then some 2
    else if text_eq t (codes "uint32")
    then some 4
    else if text_eq t (codes "uint64")
    then some 8
    else if text_eq t (codes "bool")
    then some 1
    else none

-- FieldByteSize
unfoldable pub field_byte_size : Text → Result ℕ
field_byte_size t = elim (fixed_size t) [
  | some size ↦ ok size
  | none ↦ elim (string_size t) [
    | none ↦ err validation
    | some n ↦ if ltb n 1 || ltb max_string_field_size n then err validation else ok n
  ]
]

-- The loop of `ValidateSchemaFields`, with the map `seen`.
unfoldable pub validate_each : List SchemaField → Dict Bool → Result (Unit {0})
validate_each [] seen = ok tt
validate_each (f ∷ rest) seen =
    let later = validate_each rest (insert f.name true seen) in
    if not (is_field_name f.name) then err validation else elim (lookup f.name seen) [
      | some _ ↦ err validation
      | none ↦ elim (field_byte_size f.type) [ err e ↦ err e | ok _ ↦ later ]
    ]

-- ValidateSchemaFields
unfoldable pub validate_schema_fields : List SchemaField → Result (Unit {0})
validate_schema_fields fields =
    if length fields == 0
    then err validation
    else if ltb max_schema_fields (length fields)
    then err validation
    else validate_each fields []

-- What one field adds in `EstimatePackedBytes`.
unfoldable pub field_estimate : SchemaField → ℕ
field_estimate f = 1 + length f.name + (elim (field_byte_size f.type) [
  | err _ ↦ 0
  | ok size ↦ elim (strip_prefix (codes "string_") f.type) [ some _ ↦ 2 + size | none ↦ 1 + size ]
])

unfoldable pub estimate_from : ℕ → List SchemaField → ℕ
estimate_from total [] = total
estimate_from total (f ∷ rest) = estimate_from (total + field_estimate f) rest

-- EstimatePackedBytes
unfoldable pub estimate_packed_bytes : List SchemaField → ℕ
estimate_packed_bytes = estimate_from 3

-- Why a value does not fit its field.
pub data Misfit : Type 0 where
  expected_string expected_bool expected_number expected_integer : Misfit
  too_long : ℕ → ℕ → Misfit

-- An entry of `problems`.
pub data Problem : Type 0 where
  missing : Text → Problem
  malformed : Text → Misfit → Problem
  undecodable : Problem

-- A value of type `any`, by its dynamic type: the signed integer types, the unsigned ones and the
-- float types have a constructor each, and `opaque` stands for arrays, maps and all others.
pub data Value (W : Type 0) : Type 0 where
  null : Value W
  boolean : Bool → Value W
  signed : ℤ → Value W
  unsigned : ℕ → Value W
  float : W → Value W
  string : Text → Value W
  problems : List Problem → Value W
  opaque : ℕ → Value W

-- `int64(n)` of a `uint64`, which wraps.
unfoldable pub int64_of_uint64 : ℕ → ℤ
int64_of_uint64 n = if ltb n (2 ^ 63) then pos n else negsuc (2 ^ 64 - n - 1)

-- What `coerceValue` returns: the value, or the reason why not.
pub data Coerced (W : Type 0) : Type 0 where
  fits : Value W → Coerced W
  misfit : Misfit → Coerced W

-- msgpack.Unmarshal into a map, and into an array; none for an error.
pub record Msgpack (W : Type 0) : Type 0 where
  pub unmarshal_map : List ℕ → Option (Dict (Value W))
  pub unmarshal_array : List ℕ → Option (List (Value W))

-- The map `known`.
unfoldable pub known_names : List SchemaField → Dict Bool → Dict Bool
known_names [] d = d
known_names (f ∷ fs) d = known_names fs (insert f.name true d)

module _ {W : Type 0} ⦃fl : Float W⦄ where
  open fl use {of_int, to_int64, eq}

  -- toFloat64
  unfoldable pub to_float64 : Value W → Option W
  to_float64 (float x) = some x
  to_float64 (signed n) = some (of_int n)
  to_float64 (unsigned n) = some (of_int (pos n))
  to_float64 _ = none

  -- toInt64
  unfoldable pub to_int64_value : Value W → Option ℤ
  to_int64_value (signed n) = some n
  to_int64_value (unsigned n) = some (int64_of_uint64 n)
  to_int64_value (float x) = if eq x (of_int (to_int64 x)) then some (to_int64 x) else none
  to_int64_value _ = none

  abbrev pub coerce_string : ℕ → Value W → Coerced W
  coerce_string max_len (string s) =
      if ltb max_len (length s) then misfit (too_long (length s) max_len) else fits (string s)
  coerce_string max_len _ = misfit expected_string

  abbrev pub coerce_bool : Value W → Coerced W
  coerce_bool (boolean b) = fits (boolean b)
  coerce_bool _ = misfit expected_bool

  -- coerceValue
  unfoldable pub coerce_value : Value W → Text → Coerced W
  coerce_value v t = elim (string_size t) [
    | some max_len ↦ coerce_string max_len v
    | none ↦
        if text_eq t (codes "bool")
        then coerce_bool v
        else if text_eq t (codes "float32") || text_eq t (codes "float64")
        then elim (to_float64 v) [ some x ↦ fits (float x) | none ↦ misfit expected_number ]
        else elim (to_int64_value v) [ some n ↦ fits (signed n) | none ↦ misfit expected_integer ]
  ]

  -- The positional fallback: the values of an array under the names of the fields.
  unfoldable pub zip_fields : List SchemaField → List (Value W) → Dict (Value W) → Dict (Value W)
  zip_fields [] vs d = d
  zip_fields (f ∷ fs) [] d = d
  zip_fields (f ∷ fs) (v ∷ vs) d = zip_fields fs vs (insert f.name v d)

  -- A value that fits its field is stored coerced, any other one as it is.
  unfoldable pub store_coerced :
      Coerced W
      → Value W
      → SchemaField
      → Dict (Value W) × List Problem
      → Dict (Value W) × List Problem
  store_coerced (misfit e) v f (d, ps) = (insert f.name v d, ps ++ (malformed f.name e ∷ []))
  store_coerced (fits c) v f (d, ps) = (insert f.name c d, ps)

  unfoldable pub store_value :
      Option (Value W) → SchemaField → Dict (Value W) × List Problem → Dict (Value W) × List Problem
  store_value none f (d, ps) = (insert f.name null d, ps ++ (missing f.name ∷ []))
  store_value (some v) f acc = store_coerced (coerce_value v f.type) v f acc

  -- One round of the loop over the fields.
  unfoldable pub decode_field :
      Dict (Value W) → SchemaField → Dict (Value W) × List Problem → Dict (Value W) × List Problem
  decode_field values f acc = store_value (lookup f.name values) f acc

  unfoldable pub decode_fields :
      Dict (Value W)
      → List SchemaField
      → Dict (Value W) × List Problem
      → Dict (Value W) × List Problem
  decode_fields values [] acc = acc
  decode_fields values (f ∷ fs) acc = decode_fields values fs (decode_field values f acc)

  abbrev pub keep_one : Option Bool → Text → Value W → Dict (Value W) → Dict (Value W)
  keep_one (some _) k v d = d
  keep_one none k v d = insert k v d

  -- The loop that keeps the extra keys.
  unfoldable pub keep_unknown : Dict (Value W) → Dict Bool → Dict (Value W) → Dict (Value W)
  keep_unknown [] known d = d
  keep_unknown ((k, v) ∷ rest) known d = keep_unknown rest known (keep_one (lookup k known) k v d)

  unfoldable pub decode_values : Dict (Value W) → List SchemaField → Dict (Value W) × List Problem
  decode_values values fields =
      let (decoded, ps) = decode_fields values fields ([], []) in
      (keep_unknown values (known_names fields []) decoded, ps)

  -- DecodePayload; the map is none where the source returns nil.
  unfoldable pub decode_payload :
      Msgpack W → List ℕ → List SchemaField → Option (Dict (Value W)) × List Problem
  decode_payload mp raw fields = elim (mp.unmarshal_map raw) [
    | some values ↦ let (d, ps) = decode_values values fields in (some d, ps)
    | none ↦ elim (mp.unmarshal_array raw) [
      | none ↦ (none, undecodable ∷ [])
      | some arr ↦ let (d, ps) = decode_values (zip_fields fields arr []) fields in (some d, ps)
    ]
  ]
