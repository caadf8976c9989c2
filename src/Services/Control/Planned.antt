-- ===== src/Services/Control/Planned.antt =====
-- What racelink/services/control_service.py puts on the wire for an effect that
-- racelink/services/dispatch_planner.py has planned.
use gatecontrol_lora.Prelude.{
  ℕ, length, ltb, ok, ℤ, ◌≡◌, Bool, Bool-cases, Option, [], ap, assertion_error, byte, err, false,
  if◌then◌else◌, inl, inr, leb, none, ok-injective, pos, refl, some, sym, true, ◌==◌, ◌∙◌, List,
  arith, bit, is_some, map, negsuc, not, or_else, ◌+◌, ◌*◌, ◌%◌, ◌≤◌,
}
use gatecontrol_lora.Protocol.Struct.{Bytes}
use gatecontrol_lora.Protocol.Control.{
  Rgb, ControlFields, build_control_body, assemble, Part, ext_part, main_part,
}
use gatecontrol_lora.Protocol.Control.Reader.{read_control, sent, sent_color, low_bits}
use gatecontrol_lora.Protocol.Control.Layout.{read_control-build_control_body, decoded}
use gatecontrol_lora.Domain.Flags.{build_flags_byte-weighted}
use gatecontrol_lora.Domain.Params.{EffectParams, PresetRef, by_id}
use gatecontrol_lora.Services.WireOp.{
  WireOp, Payload, TargetKwargs, target_group, target_device, effect_payload, opc_control,
}
use gatecontrol_lora.Services.Action.{EffectAction, wled_control, rl_preset}
use gatecontrol_lora.Services.EffectPlan.{
  Preset, masked_fields, build_effect_op, materialize, merge_flags, no_flags, control_body_len,
  ActionDispatchPlan, DeviceLookup, effect_op, masked, masked_color, merge_flag,
  override_brightness, plan_effect, resolve_target, sender_of,
}
use gatecontrol_lora.Transport.Serial.Send.{SendRequest}
use gatecontrol_lora.Transport.Serial.Wrappers
use gatecontrol_lora.Transport.Serial.Wrappers.{m2n, m2n_type, send_control}
use gatecontrol_lora.Services.Planner.Effects
use gatecontrol_lora.Services.Control.{
  Sending, send_wled_control, brightness_value, control_flags, group_of, hand_over,
  preset_control_params, raise_flag, recv3_of, send_rl_preset_by_id,
}

-- A body that is returned is the one assembled.
returned : (b : Bool) (x a : Bytes) → (if b then ok x else err assertion_error) ≡ ok a → x ≡ a
returned true x a h = ok-injective h
returned false x a h = cc

length-assemble :
    (g h flags other : ℕ) (main ext : Part)
    → length (assemble g flags main ext) ≡ length (assemble h other main ext)
unfolding assemble
length-assemble g h flags other main ext = elim (Bool-cases (ext.0 == 0)) [
  | inl e ↦ rw e refl
  | inr e ↦ rw e refl
]

-- The length of a body does not depend on the group and the flags.
same_length :
    (g h flags other : ℤ) (f : ControlFields) (a b : Bytes)
    → build_control_body g flags f ≡ ok a
    → build_control_body h other f ≡ ok b
    → length a ≡ length b
unfolding build_control_body
same_length g h flags other f a b p q =
    let x = assemble (byte g) (byte flags) (main_part f) (ext_part f) in
    let y = assemble (byte h) (byte other) (main_part f) (ext_part f) in
    sym (ap length (returned (leb (length x) 22) x a p))
    ∙ length-assemble (byte g) (byte h) (byte flags) (byte other) (main_part f) (ext_part f)
    ∙ ap length (returned (leb (length y) 22) y b q)

-- Whether the light is on: the brightness that is sent is not 0.
abbrev pub is_lit : Option ℤ → Bool
is_lit none = false
is_lit (some v) = not (byte v == 0)

abbrev pub is_on : Option Bool → ℕ
is_on none = 0
is_on (some b) = bit b

-- The flags byte that a node expects: power, the four user flags, and that a brightness is given.
abbrev pub sent_flags : EffectParams → ℕ
sent_flags params =
    bit (is_lit params.fields.brightness)
    + 2 * is_on params.user_flags.raw_arm_on_sync
    + 4
    + 8 * is_on params.user_flags.raw_force_tt0
    + 16 * is_on params.user_flags.raw_force_reapply
    + 32 * is_on params.user_flags.raw_offset_mode

-- The group that a node expects.
abbrev pub sent_group : TargetKwargs → ℕ
sent_group (target_group g) = byte (pos g)
sent_group (target_device d) = byte d.group_id

abbrev flags_for : EffectParams → ℕ
flags_for params =
    control_flags (ltb 0 (brightness_value params.fields.brightness)) params.user_flags

is_lit_lem : (b : Option ℤ) → ltb 0 (brightness_value b) ≡ is_lit b
is_lit_lem none = refl
is_lit_lem (some v) = positive (byte v)
  where
    positive : (n : ℕ) → ltb 0 n ≡ not (n == 0)
    positive n = ground arith

is_on_lem : (o : Option Bool) → bit (or_else o false) ≡ is_on o
is_on_lem none = refl
is_on_lem (some b) = refl

flags_for_lem : (params : EffectParams) → flags_for params ≡ sent_flags params
unfolding control_flags
flags_for_lem params =
    let m = params.user_flags in
    build_flags_byte-weighted (record {
      power_on = ltb 0 (brightness_value params.fields.brightness);
      has_bri = true;
      arm_on_sync = or_else m.raw_arm_on_sync false;
      force_tt0 = or_else m.raw_force_tt0 false;
      force_reapply = or_else m.raw_force_reapply false;
      offset_mode = or_else m.raw_offset_mode false;
    })
    ∙ rw
        (
          is_lit_lem params.fields.brightness,
          is_on_lem m.raw_arm_on_sync,
          is_on_lem m.raw_force_tt0,
          is_on_lem m.raw_force_reapply,
          is_on_lem m.raw_offset_mode,
        )
        refl

bit-le : (b : Bool) → bit b ≤ 1
bit-le true = omega arith
bit-le false = omega arith

is_on-le : (o : Option Bool) → is_on o ≤ 1
is_on-le none = omega arith
is_on-le (some b) = bit-le b

byte-sent_flags : (params : EffectParams) → byte (pos (sent_flags params)) ≡ sent_flags params
byte-sent_flags params =
    let m = params.user_flags in
    below (sent_flags params) (
      omega (
        arith,
        bit-le (is_lit params.fields.brightness),
        is_on-le m.raw_arm_on_sync,
        is_on-le m.raw_force_tt0,
        is_on-le m.raw_force_reapply,
        is_on-le m.raw_offset_mode,
      ))
  where
    below : (n : ℕ) → n ≤ 63 → n % 256 ≡ n
    below n h = omega (arith, h)

byte-byte : (v : ℤ) → byte (pos (byte v)) ≡ byte v
byte-byte (pos n) = omega arith
byte-byte (negsuc n) = omega arith

byte-group_of : (t : TargetKwargs) → byte (group_of t) ≡ sent_group t
unfolding group_of
byte-group_of (target_group g) = omega arith
byte-group_of (target_device d) = byte-byte d.group_id

-- The planner's masks change nothing of what is sent.
sent-masked : (o : Option ℤ) → sent (masked o) ≡ sent o
sent-masked none = refl
sent-masked (some v) = ap some (byte-byte v)

low_bits-masked : (o : Option ℤ) → low_bits (masked o) ≡ low_bits o
low_bits-masked none = refl
low_bits-masked (some (pos n)) = omega arith
low_bits-masked (some (negsuc n)) = omega arith

sent_color-masked : (o : Option Rgb) → sent_color (masked_color o) ≡ sent_color o
sent_color-masked none = refl
sent_color-masked (some c) = rw (byte-byte c.red, byte-byte c.green, byte-byte c.blue) refl

is_some-masked : (o : Option ℤ) → is_some (masked o) ≡ is_some o
is_some-masked none = refl
is_some-masked (some v) = refl

decoded-masked_fields :
    (f : ControlFields) (group flags : ℕ)
    → decoded (masked_fields f) group flags ≡ decoded f group flags
unfolding masked_fields
decoded-masked_fields f group flags =
    simp (sent-masked, low_bits-masked, sent_color-masked, is_some-masked)

-- The effect of a plan is sent as it was planned: for a target whose address can be read, the
-- planner makes an operation and the control service hands one request to the transport, with
-- exactly as many bytes in its body as the plan says, for the receiver, and a node that follows the
-- documented layout reads from it the target's group, a flags byte that is the sum of 1 where the
-- brightness that is sent is not 0, 4, and 2, 8, 16 and 32 for the user flags that are set, and
-- exactly the planned fields, each masked to its width.
pub send_wled_control-planned :
    (params : EffectParams) (target : TargetKwargs) (recv3 : Bytes) (st : Sending)
    → recv3_of target ≡ ok recv3
    → (op : WireOp) × (q : SendRequest) × (build_effect_op wled_control params target ≡ ok op)
      × (send_wled_control true (some target) params st ≡ ok (true, hand_over q st))
      × (q.recv3 ≡ recv3)
      × (q.type_full ≡ 8)
      × (length q.body ≡ op.body_bytes)
      × (read_control q.body
          ≡ some (decoded params.fields (sent_group target) (sent_flags params), []))
unfolding build_effect_op control_body_len send_wled_control Wrappers.send_control m2n m2n_type
send_wled_control-planned params target recv3 st reachable =
    let f = masked_fields params.fields in
    let flags = pos (flags_for params) in
    let (body, made, read, lo, hi) = read_control-build_control_body (group_of target) flags f in
    let (sized, counted, r2, lo2, hi2) = read_control-build_control_body (pos 0) (pos 0) f in
    let byte_of : byte flags ≡ sent_flags params =
      ap (λ n. byte (pos n)) (flags_for_lem params) ∙ byte-sent_flags params in
    (
      effect_op opc_control (sender_of wled_control) params target (length sized) false,
      m2n 8 recv3 body,
      rw counted refl,
      rw (reachable, made) refl,
      refl,
      refl,
      same_length (group_of target) (pos 0) flags (pos 0) f body sized made counted,
      read
          ∙ ap some (
              ap (λ d. (d, []))
                (rw (byte-group_of target, byte_of)
                  (decoded-masked_fields params.fields (sent_group target) (sent_flags params)))),
    )

-- What the planner makes of an action that applies a stored preset.
merged_flag : (p : Option Bool) → merge_flag p none ≡ raise_flag p none
merged_flag none = refl
merged_flag (some true) = refl
merged_flag (some false) = refl

abbrev pub payload_of : WireOp → Payload
payload_of op = op.payload

merged_params :
    (stored : Preset) (brightness : Option ℤ)
    → stored.preset_params.user_flags ≡ no_flags
    → merge_flags
        (record stored.preset_params {
          fields = override_brightness brightness stored.preset_params.fields;
        })
        stored.preset_flags
        no_flags
      ≡ preset_control_params brightness stored
unfolding merge_flags preset_control_params
merged_params stored brightness h =
    let m = stored.preset_flags in
    rw
      (
        h,
        merged_flag m.raw_arm_on_sync,
        merged_flag m.raw_force_tt0,
        merged_flag m.raw_force_reapply,
        merged_flag m.raw_offset_mode,
      )
      refl

-- A stored preset that keeps its flags apart from its parameters, as the preset store does: a
-- scene's action for it, without a flag override, whose target is resolved, has a plan with one
-- operation for each target, and the parameters of all of them are such that sending them to a
-- target has the same result as sending the preset by its id, with the same brightness: the same
-- request, or the same refusal.
pub send_rl_preset_by_id-planned :
    (find : PresetRef → Option Preset) (devices : DeviceLookup) (pid : ℤ) (a : EffectAction)
    (stored : Preset) (targets : List TargetKwargs) (transport : Bool)
    (target : Option TargetKwargs) (st : Sending)
    → a.effect_kind ≡ rl_preset
    → a.flags_override ≡ no_flags
    → a.params.preset_id ≡ some (by_id pid)
    → find (by_id pid) ≡ some stored
    → stored.preset_params.user_flags ≡ no_flags
    → resolve_target a.target devices ≡ some targets
    → (plan : ActionDispatchPlan) × (params : EffectParams) × (plan_effect
          (some find)
          devices
          none
          a
        ≡ ok plan)
      × (map payload_of plan.ops ≡ map (effect_payload params) targets)
      × (send_wled_control transport target params st
          ≡ send_rl_preset_by_id transport (some find) pid target a.params.fields.brightness st)
unfolding materialize send_rl_preset_by_id plan_effect
send_rl_preset_by_id-planned find devices pid a stored targets transport target st kind plain_action
      named found plain resolved =
    let base = record stored.preset_params {
      fields = override_brightness a.params.fields.brightness stored.preset_params.fields;
    } in
    let persisted = stored.preset_flags in
    let params = Effects.merged_params a none base persisted in
    let e = Effects.effect_ops a.effect_kind params in
    let made : materialize a.effect_kind a.params (some find) ≡ inr (base, persisted) =
      rw (kind, named, found) refl in
    (
      Effects.emitted a none targets base persisted,
      params,
      rw (resolved, made) (Effects.effect_plan_lem a none targets base persisted),
      Effects.map-map payload_of e.op_for (effect_payload params) targets e.payload_of,
      rw (plain_action, found, merged_params stored a.params.fields.brightness plain) refl,
    )
