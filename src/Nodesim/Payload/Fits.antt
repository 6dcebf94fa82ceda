-- ===== src/Nodesim/Payload/Fits.antt =====
-- The values of a payload against the types of its fields.
use maritime_simulation.Base.{
  ℕ, zero, suc, ◌≤◌, ◌≡◌, refl, sym, ◌∙◌, subst, arith, Bool, true, false, List, [], ◌∷◌, ◌++◌,
  Option, none, some, All, length, Any, All-at, inl, inr, Option-cases, ◌||◌,
}
use maritime_simulation.Base.Int.{pos}
use maritime_simulation.Base.Text.{Text, codes, text_eq, text_eq→eq}
use maritime_simulation.Floats.{Float}
use maritime_simulation.Domain.Errors.{ok}
use maritime_simulation.Domain.Schema.{
  SchemaField, Value, unsigned, float, string, signed, strip_prefix, string_size, Msgpack,
  field_byte_size, fixed_size, coerce_value, coerce_string, fits, to_float64, to_int64_value,
  int64_of_uint64,
}
use maritime_simulation.Nodesim.Payload.{
  ClientLib, IsClientLib, has_prefix, Kind, field_kind, field_value, cut, take, fish_name, latitude,
  longitude, real, whole, flag, words, unknown,
}

length-take : (n : ℕ) (t : Text) → length (take n t) ≤ n
unfolding take
length-take zero t = omega arith
length-take (suc n) [] = omega arith
length-take (suc n) (c ∷ t) = omega (arith, length-take n t)

length-cut : (n : ℕ) (t : Text) → 1 ≤ n → length (cut (pos n) t) ≤ n
unfolding cut
length-cut n t h = ground (arith, length-take n t)

strip_prefix-append : (p t r : Text) → strip_prefix p t ≡ some r → t ≡ p ++ r
unfolding strip_prefix
strip_prefix-append [] t r h = ground arith
strip_prefix-append (a ∷ p) [] r h = cc
strip_prefix-append (a ∷ p) (b ∷ t) r h = ground (arith, strip_prefix-append p t r)

-- The keys of `fixedTypeSizes`.
abbrev fixed_types : List Text
fixed_types =
    codes "float32"
    ∷ codes "float64"
    ∷ codes "int8"
    ∷ codes "int16"
    ∷ codes "int32"
    ∷ codes "int64"
    ∷ codes "uint8"
    ∷ codes "uint16"
    ∷ codes "uint32"
    ∷ codes "uint64"
    ∷ codes "bool"
    ∷ []

named : (t u : Text) → text_eq t u ≡ true → u ≡ t
named t u e = sym (text_eq→eq t u e)

fixed_size-Any : (t : Text) (n : ℕ) → fixed_size t ≡ some n → Any (λ u. u ≡ t) fixed_types
unfolding fixed_size
fixed_size-Any t n h = ground (
  arith,
  named t (codes "float32"),
  named t (codes "float64"),
  named t (codes "int8"),
  named t (codes "int16"),
  named t (codes "int32"),
  named t (codes "int64"),
  named t (codes "uint8"),
  named t (codes "uint16"),
  named t (codes "uint32"),
  named t (codes "uint64"),
  named t (codes "bool"),
)

abbrev is_float : Kind → Bool
is_float latitude = true
is_float longitude = true
is_float real = true
is_float _ = false

module _ (f : SchemaField) where
  field_kind-float : has_prefix f.type (codes "float") ≡ true → is_float (field_kind f) ≡ true
  unfolding field_kind
  field_kind-float h = ground arith

  field_kind-whole :
      has_prefix f.type (codes "float") ≡ false
      → (has_prefix f.type (codes "uint") || has_prefix f.type (codes "int")) ≡ true
      → field_kind f ≡ whole
  unfolding field_kind
  field_kind-whole h k = ground arith

  field_kind-flag : f.type ≡ codes "bool" → field_kind f ≡ flag
  unfolding field_kind text_eq strip_prefix
  field_kind-flag e = rw e (ground arith)

  field_kind-words : (r : Text) → f.type ≡ codes "string_" ++ r → field_kind f ≡ words
  unfolding field_kind text_eq strip_prefix
  field_kind-words r e = rw e (ground arith)

module _ {W S : Type 0} ⦃fl : Float W⦄ (l : ClientLib W S) (lat lng : W) where
  -- There is a value, and it fits the type.
  abbrev pub Fitting : Text → Option (Value W) → Type 0
  Fitting t o = (v : Value W) × (c : Value W) × (o ≡ some v) × (coerce_value v t ≡ fits c)

  -- The value of a field of this type and of any name.
  abbrev pub Serves : Text → Type 0
  Serves t =
      (k : Text) (s : S)
      → Fitting t (field_value l lat lng (field_kind (record { name = k; type = t })) t s).0

  float_value-Fitting :
      (kd : Kind) (t : Text) (s : S)
      → is_float kd ≡ true
      → ((x : W) → coerce_value (float x) t ≡ fits (float x))
      → Fitting t (field_value l lat lng kd t s).0
  unfolding field_value
  float_value-Fitting latitude t s h c = (_, _, refl, c _)
  float_value-Fitting longitude t s h c = (_, _, refl, c _)
  float_value-Fitting real t s h c = (_, _, refl, c _)
  float_value-Fitting whole t s h c = cc
  float_value-Fitting flag t s h c = cc
  float_value-Fitting words t s h c = cc
  float_value-Fitting unknown t s h c = cc

  float-Serves :
      (t : Text)
      → has_prefix t (codes "float") ≡ true
      → ((x : W) → coerce_value (float x) t ≡ fits (float x))
      → Serves t
  float-Serves t e c k s =
      float_value-Fitting (field_kind (record { name = k; type = t })) t s
        (field_kind-float (record { name = k; type = t }) e) c

  -- Fitting, of a kind that is known.
  serves-of :
      (kd : Kind) (t : Text) (k : Text) (s : S)
      → field_kind (record { name = k; type = t }) ≡ kd
      → Fitting t (field_value l lat lng kd t s).0
      → Fitting t (field_value l lat lng (field_kind (record { name = k; type = t })) t s).0
  serves-of kd t k s e h = subst (λ q. Fitting t (field_value l lat lng q t s).0) (sym e) h

  integer-Serves :
      (t : Text)
      → has_prefix t (codes "float") ≡ false
      → (has_prefix t (codes "uint") || has_prefix t (codes "int")) ≡ true
      → ((n : ℕ) → coerce_value {W = W} (unsigned n) t ≡ fits (signed (int64_of_uint64 n)))
      → Serves t
  unfolding field_value
  integer-Serves t e f c k s =
      serves-of whole t k s (field_kind-whole (record { name = k; type = t }) e f) (_, _, refl, c _)

  fixed_types-All : All Serves fixed_types
  unfolding field_value coerce_value string_size strip_prefix to_float64 text_eq to_int64_value
  fixed_types-All = (
    float-Serves _ refl (λ x. refl),
    (
      float-Serves _ refl (λ x. refl),
      (
        integer-Serves _ refl refl (λ x. refl),
        (
          integer-Serves _ refl refl (λ x. refl),
          (
            integer-Serves _ refl refl (λ x. refl),
            (
              integer-Serves _ refl refl (λ x. refl),
              (
                integer-Serves _ refl refl (λ x. refl),
                (
                  integer-Serves _ refl refl (λ x. refl),
                  (
                    integer-Serves _ refl refl (λ x. refl),
                    (
                      integer-Serves _ refl refl (λ x. refl),
                      (
                        (λ k s.
                            serves-of flag _ k s
                              (field_kind-flag (record { name = k; type = codes "bool" }) refl)
                              (_, _, refl, refl)),
                        tt,
                      ),
                    ),
                  ),
                ),
              ),
            ),
          ),
        ),
      ),
    ),
  )

  string_size-prefix :
      (t : Text) (n : ℕ) → string_size t ≡ some n → (r : Text) × (t ≡ codes "string_" ++ r)
  unfolding string_size
  string_size-prefix t n h = elim (Option-cases (strip_prefix (codes "string_") t)) [
    | inl e ↦ ground arith
    | inr (r, e) ↦ (r, strip_prefix-append (codes "string_") t r e)
  ]

  cut_fits :
      (n : ℕ) (name : Text)
      → 1 ≤ n
      → coerce_string {W = W} n (string (cut (pos n) name)) ≡ fits (string (cut (pos n) name))
  cut_fits n name h = ground (arith, length-cut n name h)

  coerce_value-string :
      (t : Text) (n : ℕ) (v : Value W)
      → string_size t ≡ some n
      → coerce_value v t ≡ coerce_string n v
  unfolding coerce_value string_size strip_prefix
  coerce_value-string t n v e = rw e refl

  string-Serves :
      (mp : Msgpack W) (t : Text) (n : ℕ)
      → IsClientLib l mp
      → string_size t ≡ some n
      → 1 ≤ n
      → Serves t
  unfolding field_value
  string-Serves mp t n h e p k s =
      let (r, q) = string_size-prefix t n e in
      serves-of words t k s (field_kind-words (record { name = k; type = t }) r q) (
        _,
        string (cut (pos n) (fish_name (l.int_n 6 s).0)),
        refl,
        coerce_value-string t n _ e
            ∙ subst
                (λ z.
                  coerce_string {W = W} n (string (cut z (fish_name (l.int_n 6 s).0)))
                  ≡ fits (string (cut (pos n) (fish_name (l.int_n 6 s).0))))
                (sym (h.scanned t n e)) (cut_fits n (fish_name (l.int_n 6 s).0) p),
      )

  sized-Serves :
      (o : Option ℕ) (mp : Msgpack W) (t : Text) (n : ℕ)
      → IsClientLib l mp
      → string_size t ≡ o
      → fixed_size t ≡ none
      → field_byte_size t ≡ ok n
      → Serves t
  unfolding field_byte_size
  sized-Serves none mp t n h e f g = ground arith
  sized-Serves (some m) mp t n h e f g = string-Serves mp t m h e (ground arith)

  -- The value that a ship makes up for a field of an accepted type fits it.
  pub type-Serves :
      (mp : Msgpack W) (t : Text) (n : ℕ) → IsClientLib l mp → field_byte_size t ≡ ok n → Serves t
  type-Serves mp t n h e = elim (Option-cases (fixed_size t)) [
    | inl f ↦ sized-Serves (string_size t) mp t n h refl f e
    | inr (m, f) ↦ All-at Serves fixed_types t fixed_types-All (fixed_size-Any t m f)
  ]
