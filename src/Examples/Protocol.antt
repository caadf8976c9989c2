-- ===== src/Examples/Protocol.antt =====
-- The packet builders at small inputs, some of them from tests/test_protocol.py.
use gatecontrol_lora.Prelude.{
  [], false, length, negsuc, none, ok, pos, refl, some, true, ◌∷◌, ◌≡◌, ◌≤◌,
}
use gatecontrol_lora.Protocol.Struct.{Bytes}
use gatecontrol_lora.Protocol.Offset.{OffsetParams, build_offset_of, mode_vshape, parse_offset_body}
use gatecontrol_lora.Protocol.Offset.RoundTrip.{parse_offset_body-build_offset_of, body_length}
use gatecontrol_lora.Protocol.Control.{ControlFields, build_control_body}
use gatecontrol_lora.Protocol.Control.Layout.{decoded, read_control-build_control_body}
use gatecontrol_lora.Protocol.Control.Reader.{read_control}
use gatecontrol_lora.Domain.Flags.{Flags}

abbrev cascade : OffsetParams
cascade = mode_vshape (pos 40000) (negsuc 99) (pos 5)

offset_bytes : build_offset_of (pos 255) cascade ≡ ok (255 ∷ 3 ∷ 255 ∷ 127 ∷ 156 ∷ 255 ∷ 5 ∷ [])
unfolding build_offset_of
offset_bytes = refl

parse_offset_body-build_offset_of_example :
    (body : Bytes) × (build_offset_of (pos 255) cascade ≡ ok body)
    × (parse_offset_body body ≡ ok (255, mode_vshape (pos 32767) (negsuc 99) (pos 5)))
    × (length body ≡ 7)
unfolding body_length
parse_offset_body-build_offset_of_example = parse_offset_body-build_offset_of (pos 255) cascade

abbrev pub plain_fields : ControlFields
plain_fields = record {
  brightness = some (pos 128);
  mode = some (pos 2);
  speed = none;
  intensity = none;
  custom1 = none;
  custom2 = none;
  custom3 = some (pos 7);
  check1 = some true;
  check2 = none;
  check3 = none;
  palette = some (pos 11);
  color1 = some (record { red = pos 255; green = pos 0; blue = pos 16 });
  color2 = none;
  color3 = none;
}

control_bytes_test :
    build_control_body (pos 3) (pos 5) plain_fields
    ≡ ok (3 ∷ 5 ∷ 0xC3 ∷ 128 ∷ 2 ∷ 0x27 ∷ 0x03 ∷ 11 ∷ 255 ∷ 0 ∷ 16 ∷ [])
unfolding build_control_body
control_bytes_test = refl

read_control-build_control_body_example :
    (body : Bytes) × (build_control_body (pos 3) (pos 5) plain_fields ≡ ok body)
    × (read_control body ≡ some (decoded plain_fields 3 5, []))
    × (3 ≤ length body)
    × (length body ≤ 21)
read_control-build_control_body_example =
    read_control-build_control_body (pos 3) (pos 5) plain_fields

abbrev armed : Flags
armed = record {
  power_on = true;
  has_bri = true;
  arm_on_sync = true;
  force_tt0 = false;
  force_reapply = false;
  offset_mode = true;
}
