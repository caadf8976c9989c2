-- ===== src/Services/Control.antt =====
-- racelink/services/control_service.py: presets and effects sent on demand. The requests are those
-- that the transport is handed; what becomes of them is in Transport.Serial.Send. A device object
-- is changed in the host's list.
pub mod Planned
use gatecontrol_lora.Prelude.{
  ℕ, Bool, List, Option, Result, [], byte, eq_bytes, false, if◌then◌else◌, ltb, ltb_ℤ, map, none,
  ok, or_else, pos, some, true, ℤ, ◌%◌, ◌++◌, ◌==◌, ◌>>=◌, ◌∷◌,
}
use gatecontrol_lora.Protocol.Struct.{Bytes}
use gatecontrol_lora.Protocol.Control.{ControlFields}
use gatecontrol_lora.Protocol.Offset.{OffsetParams, mode_name, kwargs_of, str_mode}
use gatecontrol_lora.Domain.Flags.{FlagMapping, Flags, build_flags_byte}
use gatecontrol_lora.Domain.Device.{Device}
use gatecontrol_lora.Domain.Params.{EffectParams, PresetRef, by_id}
use gatecontrol_lora.State.Repository.{update_item}
use gatecontrol_lora.Services.WireOp.{TargetKwargs, target_group, target_device}
use gatecontrol_lora.Services.EffectPlan.{Preset, masked_fields, override_brightness}
use gatecontrol_lora.Transport.Address.{mac_last3_from_hex}
use gatecontrol_lora.Transport.Serial.Send.{SendRequest}
use gatecontrol_lora.Transport.Serial.Wrappers

-- The requests so far, and the host's devices.
pub record Sending : Type 0 where
  pub requests : List SendRequest
  pub devices : List Device

abbrev pub hand_over : SendRequest → Sending → Sending
hand_over q st = record st { requests = st.requests ++ q ∷ [] }

abbrev pub all_nodes : Bytes
all_nodes = 255 ∷ 255 ∷ 255 ∷ []

-- The receiver and the group of a target.
unfoldable pub recv3_of : TargetKwargs → Result Bytes
unfolding mac_last3_from_hex
recv3_of (target_group g) = ok all_nodes
recv3_of (target_device d) = mac_last3_from_hex d.addr

unfoldable pub group_of : TargetKwargs → ℤ
group_of (target_group g) = pos (g % 256)
group_of (target_device d) = pos (byte d.group_id)

-- `_coerce_preset_values`, with the device as the fallback
unfoldable pub coerce_preset_values : Option ℤ → Option ℤ → Option ℤ → Device → ℕ × ℕ × ℕ
coerce_preset_values flags preset brightness d = (
  byte (or_else flags (pos d.flags)),
  byte (or_else preset (pos d.preset_id)),
  byte (or_else brightness (pos d.brightness)),
)

abbrev pub set_preset : ℕ × ℕ × ℕ → Device → Device
set_preset (f, p, b) d = record d { flags = f; preset_id = p; brightness = b }

-- `_update_group_preset_cache`
unfoldable pub update_group_preset_cache : ℕ → ℕ × ℕ × ℕ → List Device → List Device
update_group_preset_cache group values devices =
    map (λ d. if byte d.group_id == group then set_preset values d else d) devices

-- `send_device_preset`
unfoldable pub send_device_preset :
    Bool → Device → Option ℤ → Option ℤ → Option ℤ → Sending → Result (Bool × Sending)
unfolding coerce_preset_values mac_last3_from_hex update_item
send_device_preset false d flags preset brightness st = ok (false, st)
send_device_preset true d flags preset brightness st = do
  recv3 ← mac_last3_from_hex d.addr
  let v = coerce_preset_values flags preset brightness d
  let q = Wrappers.send_preset recv3 (pos (byte d.group_id)) (pos v.0) (pos v.1) (pos v.2)
  ok (
    true,
    record (hand_over q st) {
      devices = update_item (λ e. eq_bytes e.addr d.addr) (set_preset v) st.devices;
    },
  )

-- `send_group_preset`
unfoldable pub send_group_preset : Bool → ℤ → ℤ → ℤ → ℤ → Sending → Bool × Sending
unfolding update_group_preset_cache
send_group_preset false group flags preset brightness st = (false, st)
send_group_preset true group flags preset brightness st =
    let g = byte group in
    let v : ℕ × ℕ × ℕ = (byte flags, byte preset, byte brightness) in
    let q =
      Wrappers.send_preset all_nodes (pos g) (pos (byte flags)) (pos (byte preset))
        (pos (byte brightness)) in
    (true, hand_over q (record st { devices = update_group_preset_cache g v st.devices }))

-- The flags byte of both kinds of packet.
unfoldable pub control_flags : Bool → FlagMapping → ℕ
unfolding build_flags_byte
control_flags power m = build_flags_byte (record {
  power_on = power;
  has_bri = true;
  arm_on_sync = or_else m.raw_arm_on_sync false;
  force_tt0 = or_else m.raw_force_tt0 false;
  force_reapply = or_else m.raw_force_reapply false;
  offset_mode = or_else m.raw_offset_mode false;
})

-- The keys of `params` that `send_wled_preset` reads.
pub record WledPresetParams : Type 0 where
  pub wled_preset_id : Option ℤ
  pub wled_brightness : Option ℤ
  pub wled_flags : FlagMapping

-- `send_wled_preset`; the brightness is not masked where the power flag is derived from it.
unfoldable pub send_wled_preset :
    Bool → Option TargetKwargs → WledPresetParams → Sending → Result (Bool × Sending)
unfolding control_flags send_group_preset send_device_preset
send_wled_preset transport none params st = ok (false, st)
send_wled_preset transport (some (target_group g)) params st =
    let brightness = or_else params.wled_brightness (pos 0) in
    ok (
      send_group_preset transport (pos g)
        (pos (control_flags (ltb_ℤ (pos 0) brightness) params.wled_flags))
        (or_else params.wled_preset_id (pos 1)) brightness st)
send_wled_preset transport (some (target_device d)) params st =
    let brightness = or_else params.wled_brightness (pos 0) in
    send_device_preset transport d
      (some (pos (control_flags (ltb_ℤ (pos 0) brightness) params.wled_flags)))
      (some (or_else params.wled_preset_id (pos 1))) (some brightness) st

-- `send_offset`
unfoldable pub send_offset :
    Bool → Option TargetKwargs → OffsetParams → Sending → Result (Bool × Sending)
unfolding recv3_of group_of
send_offset false target p st = ok (false, st)
send_offset true none p st = ok (false, st)
send_offset true (some target) p st = do
  recv3 ← recv3_of target
  q ← Wrappers.send_offset recv3 (group_of target) (str_mode (mode_name p)) (kwargs_of p)
  ok (true, hand_over q st)

-- `int(brightness) & 0xFF if brightness is not None else 0`
abbrev pub brightness_value : Option ℤ → ℕ
brightness_value none = 0
brightness_value (some b) = byte b

-- `send_wled_control`
unfoldable pub send_wled_control :
    Bool → Option TargetKwargs → EffectParams → Sending → Result (Bool × Sending)
unfolding control_flags recv3_of group_of masked_fields
send_wled_control false target params st = ok (false, st)
send_wled_control true none params st = ok (false, st)
send_wled_control true (some target) params st = do
  recv3 ← recv3_of target
  let flags = control_flags (ltb 0 (brightness_value params.fields.brightness)) params.user_flags
  q ← Wrappers.send_control recv3 (group_of target) (pos flags) (masked_fields params.fields)
  ok (true, hand_over q st)

-- `if flags_meta.get(key): merged[key] = True`
abbrev pub raise_flag : Option Bool → Option Bool → Option Bool
raise_flag none old = old
raise_flag (some false) old = old
raise_flag (some true) old = some true

unfoldable pub preset_control_params : Option ℤ → Preset → EffectParams
preset_control_params brightness preset =
    let old = preset.preset_params.user_flags in
    let meta = preset.preset_flags in
    record preset.preset_params {
      fields = override_brightness brightness preset.preset_params.fields;
      user_flags = record {
        raw_arm_on_sync = raise_flag meta.raw_arm_on_sync old.raw_arm_on_sync;
        raw_force_tt0 = raise_flag meta.raw_force_tt0 old.raw_force_tt0;
        raw_force_reapply = raise_flag meta.raw_force_reapply old.raw_force_reapply;
        raw_offset_mode = raise_flag meta.raw_offset_mode old.raw_offset_mode;
      };
    }

abbrev pub send_found_preset :
    Bool → Option Preset → Option TargetKwargs → Option ℤ → Sending → Result (Bool × Sending)
send_found_preset transport none target brightness st = ok (false, st)
send_found_preset transport (some preset) target brightness st =
    send_wled_control transport target (preset_control_params brightness preset) st

-- `send_rl_preset_by_id`, for a number
unfoldable pub send_rl_preset_by_id :
    Bool
    → Option (PresetRef → Option Preset)
    → ℤ
    → Option TargetKwargs
    → Option ℤ
    → Sending
    → Result (Bool × Sending)
unfolding send_wled_control preset_control_params
send_rl_preset_by_id transport none pid target brightness st = ok (false, st)
send_rl_preset_by_id transport (some find) pid target brightness st =
    send_found_preset transport (find (by_id pid)) target brightness st
