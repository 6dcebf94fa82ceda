-- ===== src/Nodesim/Payload.antt =====
-- cmd/nodesim/main.go: `buildPayload`. The random source, the conversion to `float32`, the
-- `Sscanf` of a string type and the MessagePack encoder are parameters.
pub mod Fits
pub mod RoundTrip
use maritime_simulation.Base.{
  ℕ, zero, suc, ◌+◌, ◌≡◌, Bool, ◌&&◌, ◌||◌, List, [], ◌∷◌, Option, none, some, if◌then◌else◌, ltb,
  ◌==◌, length,
}
use maritime_simulation.Base.Int.{ℤ, pos, pos_part}
use maritime_simulation.Base.Text.{Text, codes, text_eq}
use maritime_simulation.Base.Dict.{Dict, insert, is_some, lookup}
use maritime_simulation.Floats.{Float}
use maritime_simulation.Domain.Schema.{
  SchemaField, Value, unsigned, float, string, boolean, strip_prefix, string_size, Msgpack,
}

-- rand.Float64 and rand.IntN; `float32(x)`, read back as a float; `Sscanf(t, "string_%d", ...)`,
-- 0 where it does not match; msgpack.Marshal, none for an error; base64 and the decimal of `%04d`.
pub record ClientLib (W S : Type 0) : Type 0 where
  pub float64 : S → W × S
  pub int_n : ℕ → S → ℕ × S
  pub to_float32 : W → W
  pub scan_string_size : Text → ℤ
  pub marshal : Dict (Value W) → Option (List ℕ)
  pub encode_base64 : List ℕ → Text
  pub four_digits : ℕ → Text

-- `Sscanf` reads the number of a string type, and what MessagePack encodes it decodes to the same
-- map, up to the order of its entries.
pub record IsClientLib {W S : Type 0} (l : ClientLib W S) (mp : Msgpack W) : Type 0 where
  pub scanned : (t : Text) (n : ℕ) → string_size t ≡ some n → l.scan_string_size t ≡ pos n
  pub decoded :
      (d : Dict (Value W)) (raw : List ℕ)
      → l.marshal d ≡ some raw
      → (e : Dict (Value W)) × (mp.unmarshal_map raw ≡ some e)
        × ((k : Text) → lookup k e ≡ lookup k d)

abbrev pub has_prefix : Text → Text → Bool
has_prefix t p = is_some (strip_prefix p t)

-- `fishNames[i]`, for the six numbers that `rand.IntN(6)` draws.
unfoldable pub fish_name : ℕ → Text
fish_name i =
    if i == 0
    then codes "tuna"
    else if i == 1
    then codes "layur"
    else if i == 2
    then codes "tongkol"
    else if i == 3
    then codes "cakalang"
    else if i == 4
    then codes "kembung"
    else codes "tenggiri"

-- `t[:n]`
unfoldable pub take : ℕ → Text → Text
take zero t = []
take (suc n) [] = []
take (suc n) (c ∷ t) = c ∷ take n t

-- The cut of a name to the size of its field.
unfoldable pub cut : ℤ → Text → Text
cut max_len name =
    if ltb 0 (pos_part max_len) && ltb (pos_part max_len) (length name)
    then take (pos_part max_len) name
    else name

-- Which case of the switch a field takes.
pub data Kind : Type 0 where
  latitude longitude real whole flag words unknown : Kind

unfoldable pub field_kind : SchemaField → Kind
field_kind f =
    if text_eq f.name (codes "lat") && has_prefix f.type (codes "float")
    then latitude
    else if text_eq f.name (codes "lng") && has_prefix f.type (codes "float")
    then longitude
    else if has_prefix f.type (codes "float")
    then real
    else if has_prefix f.type (codes "uint") || has_prefix f.type (codes "int")
    then whole
    else if text_eq f.type (codes "bool")
    then flag
    else if has_prefix f.type (codes "string_")
    then words
    else unknown

module _ {W S : Type 0} ⦃fl : Float W⦄ (l : ClientLib W S) (lat lng : W) where
  open fl use {lit, mul}

  -- The value of a field, none for a type of no case.
  unfoldable pub field_value : Kind → Text → S → Option (Value W) × S
  field_value latitude type s = (some (float (l.to_float32 lat)), s)
  field_value longitude type s = (some (float (l.to_float32 lng)), s)
  field_value real type s =
      let (x, s1) = l.float64 s in (some (float (l.to_float32 (mul x (lit 100 0)))), s1)
  field_value whole type s = let (n, s1) = l.int_n 500 s in (some (unsigned (n + 1)), s1)
  field_value flag type s = let (n, s1) = l.int_n 2 s in (some (boolean (n == 0)), s1)
  field_value words type s =
      let (n, s1) = l.int_n 6 s in (some (string (cut (l.scan_string_size type) (fish_name n))), s1)
  field_value unknown type s = (none, s)

  abbrev pub keep_value : Text → Option (Value W) → Dict (Value W) → Dict (Value W)
  keep_value k none d = d
  keep_value k (some v) d = insert k v d

  -- The loop over the fields.
  unfoldable pub build_fields : List SchemaField → Dict (Value W) → S → Dict (Value W)
  build_fields [] d s = d
  build_fields (f ∷ fs) d s =
      let (v, s1) = field_value (field_kind f) f.type s in
      build_fields fs (keep_value f.name v d) s1

  -- buildPayload
  unfoldable pub build_payload : List SchemaField → S → Dict (Value W)
  build_payload [] s =
      let (n, s1) = l.int_n 300 s in
      (codes "lat", float (l.to_float32 lat))
      ∷ (codes "lng", float (l.to_float32 lng))
      ∷ (codes "berat_kg", unsigned (n + 1))
      ∷ []
  build_payload (f ∷ fs) s = build_fields (f ∷ fs) [] s
