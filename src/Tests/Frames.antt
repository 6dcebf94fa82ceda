-- ===== src/Tests/Frames.antt =====
-- Frames, schemas and the limits of the radio.
use maritime_simulation.Base.{◌*◌, ◌+◌, ◌≡◌, ◌≤◌, ◌↔◌, refl, false, [], All, some, length, arith}
use maritime_simulation.Base.Int.{pos, ◌≤ℤ◌}
use maritime_simulation.Base.Text.{Text, codes, text_eq}
use maritime_simulation.Base.Dict.{Has, lookup, insert}
use maritime_simulation.Floats.{Milli, milli_float, Milli-IsIeee}
use maritime_simulation.Domain.Errors.{ok}
use maritime_simulation.Domain.Lora.{
  max_payload_bytes, ack_timeout, validate_spreading_factor, validate_tx_power,
}
use maritime_simulation.Domain.Lora.Limits.{validate_radio_iff, spreading_factor_trade}
use maritime_simulation.Domain.Packet.{validate, validate_path, transmitter}
use maritime_simulation.Domain.Packet.Validity.{
  IsEnvelope, IsId, validate_iff, validate-transmitter,
}
use maritime_simulation.Domain.PacketLoss.{final_loss_percent}
use maritime_simulation.Domain.PacketLoss.Bounds.{final_loss_percent-bounds}
use maritime_simulation.Domain.Schema.{
  decode_values, validate_schema_fields, validate_each, estimate_packed_bytes, field_byte_size,
  is_field_name, fixed_size, string_size, strip_prefix, size_digits,
}
use maritime_simulation.Domain.Schema.Coverage.{decode_values-covers}
use maritime_simulation.Domain.Schema.Sizes.{validate_schema_fields-estimate}
use maritime_simulation.Tests.Sample.{fields, frame_to}

valid_frame : validate (frame_to (codes "E1")) ≡ ok tt
unfolding validate validate_path
valid_frame = refl

validate_iff_example :
    (validate (frame_to (codes "E1")) ≡ ok tt) ↔ IsEnvelope (frame_to (codes "E1"))
validate_iff_example = validate_iff (frame_to (codes "E1"))

validate-transmitter_example :
    (tx : Text) × (transmitter (frame_to (codes "E1")) ≡ some tx) × IsId tx
validate-transmitter_example = validate-transmitter (frame_to (codes "E1")) valid_frame

decode_values-covers_example : All (λ f. Has f.name (decode_values {W = Milli} [] fields).0) fields
decode_values-covers_example = decode_values-covers [] fields

size_of_string : field_byte_size (codes "string_20") ≡ ok 20
unfolding field_byte_size fixed_size string_size strip_prefix size_digits text_eq
size_of_string = refl

valid_fields : validate_schema_fields fields ≡ ok tt
unfolding validate_schema_fields validate_each field_byte_size fixed_size is_field_name lookup
    insert text_eq
valid_fields = refl

validate_schema_fields-estimate_example :
    (1 ≤ length fields)
    × (length fields ≤ 32)
    × (3 + 4 * length fields ≤ estimate_packed_bytes fields)
    × (estimate_packed_bytes fields ≤ 3 + 275 * length fields)
validate_schema_fields-estimate_example = validate_schema_fields-estimate fields valid_fields

final_loss_percent-bounds_example :
    (milli_float.lt (final_loss_percent 3000 5000 1500) (milli_float.lit 0 0) ≡ false)
    × (milli_float.lt (milli_float.lit 100 0) (final_loss_percent 3000 5000 1500) ≡ false)
final_loss_percent-bounds_example = final_loss_percent-bounds Milli-IsIeee 3000 5000 1500

spreading_factor_trade_example :
    (max_payload_bytes (pos 9) ≤ max_payload_bytes (pos 7))
    × (ack_timeout (pos 7) ≤ ack_timeout (pos 9))
spreading_factor_trade_example = spreading_factor_trade (pos 7) (pos 9) (omega arith)

validate_radio_iff_example :
    ((validate_spreading_factor (pos 7) ≡ ok tt) ↔ ((pos 7 ≤ℤ pos 7) × (pos 7 ≤ℤ pos 12)))
    × ((validate_tx_power (pos 21) ≡ ok tt) ↔ ((pos 2 ≤ℤ pos 21) × (pos 21 ≤ℤ pos 20)))
validate_radio_iff_example = validate_radio_iff (pos 7) (pos 21)
