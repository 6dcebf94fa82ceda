-- ===== src/Domain/Schema/Sizes.antt =====
-- The sizes of a schema's fields.
use maritime_simulation.Base.{
  ℕ, ◌+◌, ◌*◌, ◌≤◌, ◌≡◌, List, [], ◌∷◌, arith, All, refl, length, Bool, true, false,
}
use maritime_simulation.Base.Text.{Text}
use maritime_simulation.Base.Dict.{Dict, insert}
use maritime_simulation.Domain.Errors.{Result, ok, err}
use maritime_simulation.Domain.Schema.{
  SchemaField, field_byte_size, fixed_size, field_estimate, estimate_from, estimate_packed_bytes,
  validate_schema_fields, validate_each, is_field_name,
}

unfoldable pub sum_of : List SchemaField → ℕ
sum_of [] = 0
sum_of (f ∷ fs) = field_estimate f + sum_of fs

-- The size of a type that the schema allows is 1 to 242 bytes, the largest payload of the radio.
field_byte_size-bounds : (t : Text) (n : ℕ) → field_byte_size t ≡ ok n → (1 ≤ n) × (n ≤ 242)
unfolding field_byte_size fixed_size
field_byte_size-bounds t n h = ground arith

-- The estimate is the sum of what the fields add, and 3: so it does not depend on their order.
estimate_from-sum : (total : ℕ) (fs : List SchemaField) → estimate_from total fs ≡ total + sum_of fs
unfolding estimate_from sum_of
estimate_from-sum total [] = omega arith
estimate_from-sum total (f ∷ fs) = omega (arith, estimate_from-sum (total + field_estimate f) fs)

abbrev size_or_one : Result ℕ → ℕ
size_or_one (ok n) = n
size_or_one (err _) = 1

size_or_one-bounds :
    (r : Result ℕ)
    → ((n : ℕ) → r ≡ ok n → (1 ≤ n) × (n ≤ 242))
    → (1 ≤ size_or_one r) × (size_or_one r ≤ 242)
size_or_one-bounds (ok n) h = h n refl
size_or_one-bounds (err _) h = (omega arith, omega arith)

abbrev is_ok : {A : Type 0} → Result A → Bool
is_ok (ok _) = true
is_ok (err _) = false

-- A field whose name and type are allowed.
abbrev IsField : SchemaField → Type 0
IsField f = (is_field_name f.name ≡ true) × (is_ok (field_byte_size f.type) ≡ true)

validate_each-IsField :
    (fs : List SchemaField) (seen : Dict Bool) → validate_each fs seen ≡ ok tt → All IsField fs
unfolding validate_each
validate_each-IsField [] seen h = tt
validate_each-IsField (f ∷ fs) seen h =
    (ground arith, validate_each-IsField fs (insert f.name true seen) (ground arith))

name_length : (t : Text) → is_field_name t ≡ true → (1 ≤ length t) × (length t ≤ 30)
unfolding is_field_name
name_length [] h = ground arith
name_length (c ∷ t) h = ground arith

field_estimate-bounds :
    (f : SchemaField) → IsField f → (4 ≤ field_estimate f) × (field_estimate f ≤ 275)
unfolding field_estimate
field_estimate-bounds f (a, b) = ground (
  arith,
  name_length f.name a,
  size_or_one-bounds (field_byte_size f.type) (field_byte_size-bounds f.type),
)

sum_of-bounds :
    (fs : List SchemaField)
    → All IsField fs
    → (4 * length fs ≤ sum_of fs) × (sum_of fs ≤ 275 * length fs)
unfolding sum_of
sum_of-bounds [] _ = (omega arith, omega arith)
sum_of-bounds (f ∷ fs) (i, is) =
    let (a, b) = field_estimate-bounds f i in
    let (c, d) = sum_of-bounds fs is in (omega arith, omega arith)

-- A schema that `ValidateSchemaFields` accepts has 1 to 32 fields, and its estimate lies between
-- 3 bytes with 4 for each field and 3 bytes with 275 for each field.
pub validate_schema_fields-estimate :
    (fs : List SchemaField)
    → validate_schema_fields fs ≡ ok tt
    → (1 ≤ length fs)
      × (length fs ≤ 32)
      × (3 + 4 * length fs ≤ estimate_packed_bytes fs)
      × (estimate_packed_bytes fs ≤ 3 + 275 * length fs)
unfolding validate_schema_fields estimate_packed_bytes
validate_schema_fields-estimate fs h =
    let (a, b) = sum_of-bounds fs (validate_each-IsField fs [] (ground arith)) in
    let e = estimate_from-sum 3 fs in (ground arith, ground arith, omega arith, omega arith)
