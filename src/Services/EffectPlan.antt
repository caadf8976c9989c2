-- ===== src/Services/EffectPlan.antt =====
-- racelink/services/dispatch_planner.py: the plan of one effect, from its target and its preset.
use gatecontrol_lora.Protocol.Bodies.{build_preset_body}
use gatecontrol_lora.Protocol.Offset.{Mode}
use gatecontrol_lora.Prelude.{
  ℕ, Bool, List, Option, Result, Text, [], byte, false, if◌then◌else◌, inl, inr, leb, length, map,
  negsuc, none, ok, or_else, pos, some, true, ℤ, ◌>>=◌, ◌∷◌, ◌⊎◌, traverse,
}
use gatecontrol_lora.Protocol.Control.{ControlFields, Rgb, build_control_body}
use gatecontrol_lora.Domain.Flags.{FlagMapping}
use gatecontrol_lora.Domain.Device.{Device}
use gatecontrol_lora.Domain.Params.{EffectParams, PresetRef}
use gatecontrol_lora.Services.WireOp.{
  WireOp, ActionKind, Opcode, Sender, TargetKwargs, effect_payload, no_phase, opc_control,
  opc_preset, send_startblock, send_wled_control, send_wled_preset, target_device, target_group,
}
use gatecontrol_lora.Services.Optimizer.{Strategy}
use gatecontrol_lora.Services.Action.{
  EffectAction, EffectKind, Target, kind_of, other_target, rl_preset, startblock, to_broadcast,
  to_device, to_groups, wled_control, wled_preset,
}

-- A stored preset, as the lookup returns it.
pub record Preset : Type 0 where
  pub preset_params : EffectParams
  pub preset_flags : FlagMapping

pub data PlanError : Type 0 where
  target_not_found missing_preset_id preset_not_found unknown_kind_error : PlanError

-- The `detail` entries that are computed from the plan.
pub data PlanDetail : Type 0 where
  no_detail : PlanDetail
  duration : (duration_ms : ℕ) → PlanDetail
  container :
      (wire_path : Strategy) (offset_mode : Mode)
      (offset_packets offset_total_bytes child_count : ℕ)
      → PlanDetail

pub record ActionDispatchPlan : Type 0 where
  pub kind : ActionKind
  pub ops : List WireOp
  pub degraded : Bool
  pub error : Option PlanError
  pub detail : PlanDetail

abbrev pub degraded_plan : ActionKind → PlanError → ActionDispatchPlan
degraded_plan kind e = record {
  kind = kind;
  ops = [];
  degraded = true;
  error = some e;
  detail = no_detail;
}

-- One flag of `_merge_flags`: the override wins, a true flag is written, a false one is stripped.
abbrev pub merge_flag : Option Bool → Option Bool → Option Bool
merge_flag persisted override =
    if or_else override (or_else persisted false) then some true else none

unfoldable pub merge_flags : EffectParams → FlagMapping → FlagMapping → EffectParams
merge_flags base persisted override = record base {
  user_flags = record {
    raw_arm_on_sync = merge_flag persisted.raw_arm_on_sync override.raw_arm_on_sync;
    raw_force_tt0 = merge_flag persisted.raw_force_tt0 override.raw_force_tt0;
    raw_force_reapply = merge_flag persisted.raw_force_reapply override.raw_force_reapply;
    raw_offset_mode = merge_flag persisted.raw_offset_mode override.raw_offset_mode;
  };
}

abbrev pub no_flags : FlagMapping
no_flags = record {
  raw_arm_on_sync = none;
  raw_force_tt0 = none;
  raw_force_reapply = none;
  raw_offset_mode = none;
}

-- `override["offset_mode"] = bool(force_offset_flag)` unless it is `None`.
abbrev pub force_flag : Option Bool → FlagMapping → FlagMapping
force_flag none override = override
force_flag (some b) override = record override { raw_offset_mode = some b }

-- `if key in params and params[key] is not None: kwargs[key] = int(params[key]) & 0xFF`
abbrev pub masked : Option ℤ → Option ℤ
masked none = none
masked (some v) = some (pos (byte v))

abbrev pub masked_color : Option Rgb → Option Rgb
masked_color none = none
masked_color (some c) =
    some (record { red = pos (byte c.red); green = pos (byte c.green); blue = pos (byte c.blue) })

unfoldable pub masked_fields : ControlFields → ControlFields
masked_fields f = record {
  brightness = masked f.brightness;
  mode = masked f.mode;
  speed = masked f.speed;
  intensity = masked f.intensity;
  custom1 = masked f.custom1;
  custom2 = masked f.custom2;
  custom3 = masked f.custom3;
  check1 = f.check1;
  check2 = f.check2;
  check3 = f.check3;
  palette = masked f.palette;
  color1 = masked_color f.color1;
  color2 = masked_color f.color2;
  color3 = masked_color f.color3;
}

unfoldable pub control_body_len : ControlFields → Result ℕ
unfolding masked_fields
control_body_len params = do
  body ← build_control_body (pos 0) (pos 0) (masked_fields params)
  ok (length body)

-- `_target_group_for_op`: a device's stored group if it is 0..254, else the broadcast group.
unfoldable pub target_group_for_op : TargetKwargs → ℕ
target_group_for_op (target_group g) = g
target_group_for_op (target_device dev) = elim dev.group_id [
  | pos n ↦ if leb n 254 then n else 255
  | negsuc n ↦ 255
]

abbrev pub sender_of : EffectKind → Sender
sender_of startblock = send_startblock
sender_of _ = send_wled_control

abbrev pub is_startblock : EffectKind → Bool
is_startblock startblock = true
is_startblock _ = false

abbrev pub effect_op : Opcode → Sender → EffectParams → TargetKwargs → ℕ → Bool → WireOp
effect_op opcode sender params target n approximate = record {
  opcode = opcode;
  group = target_group_for_op target;
  payload = effect_payload params target;
  body_bytes = n;
  sender = some sender;
  phase = no_phase;
  approximate = approximate;
}

unfoldable pub build_effect_op : EffectKind → EffectParams → TargetKwargs → Result WireOp
unfolding control_body_len target_group_for_op
build_effect_op wled_preset params target = ok (
    effect_op opc_preset send_wled_preset params target
      (length (build_preset_body (pos 0) (pos 0) (pos 0) (pos 0))) false)
build_effect_op kind params target = do
  n ← control_body_len params.fields
  ok (effect_op opc_control (sender_of kind) params target n (is_startblock kind))

-- `merged_params["brightness"] = int(base_params["brightness"])` where the action has one.
abbrev pub override_brightness : Option ℤ → ControlFields → ControlFields
override_brightness none fields = fields
override_brightness (some b) fields = record fields { brightness = some b }

abbrev pub Resolved : Type 0
Resolved = Option (List TargetKwargs)

abbrev pub one_device : Option Device → Resolved
one_device none = none
one_device (some dev) = some (target_device dev ∷ [])

abbrev pub Materialised : Type 0
Materialised = PlanError ⊎ (EffectParams × FlagMapping)

abbrev pub found_preset : EffectParams → Option Preset → Materialised
found_preset base none = inl preset_not_found
found_preset base (some preset) = inr (
  record preset.preset_params {
    fields = override_brightness base.fields.brightness preset.preset_params.fields;
  },
  preset.preset_flags,
)

abbrev pub PresetLookup : Type 0
PresetLookup = Option (PresetRef → Option Preset)

abbrev pub DeviceLookup : Type 0
DeviceLookup = Option (Text → Option Device)

abbrev pub look_up : EffectParams → PresetRef → PresetLookup → Materialised
look_up base ref none = inr (record base { preset_id = none }, no_flags)
look_up base ref (some find) = found_preset base (find ref)

-- `_materialize_rl_preset`: merged parameters and persisted flags, or the error of the plan.
abbrev pub materialize_ref : EffectParams → Option PresetRef → PresetLookup → Materialised
materialize_ref base none lookup = inl missing_preset_id
materialize_ref base (some ref) lookup = look_up base ref lookup

unfoldable pub materialize : EffectKind → EffectParams → PresetLookup → Materialised
materialize rl_preset params lookup = materialize_ref params params.preset_id lookup
materialize wled_preset params lookup = inr (params, no_flags)
materialize wled_control params lookup = inr (params, no_flags)
materialize startblock params lookup = inr (params, no_flags)

abbrev pub find_device : Text → DeviceLookup → Resolved
find_device addr none = none
find_device addr (some find) = one_device (find addr)

-- `_resolve_target`: `none` is a target that cannot be resolved.
unfoldable pub resolve_target : Target → DeviceLookup → Resolved
resolve_target to_broadcast lookup = some (target_group 255 ∷ [])
resolve_target (to_groups []) lookup = none
resolve_target (to_groups (g ∷ gs)) lookup = some (map target_group (g ∷ gs))
resolve_target (to_device addr) lookup = find_device addr lookup
resolve_target other_target lookup = none

unfoldable pub effect_plan :
    EffectAction → Option Bool → List TargetKwargs → Materialised → Result ActionDispatchPlan
unfolding merge_flags build_effect_op
effect_plan a force targets (inl e) = ok (degraded_plan (kind_of a.effect_kind) e)
effect_plan a force targets (inr (base, persisted)) = do
  let merged = merge_flags base persisted (force_flag force a.flags_override)
  ops ← traverse (build_effect_op a.effect_kind merged) targets
  ok (record {
    kind = kind_of a.effect_kind;
    ops = ops;
    degraded = false;
    error = none;
    detail = no_detail;
  })

abbrev pub plan_resolved :
    EffectAction → Option Bool → PresetLookup → Resolved → Result ActionDispatchPlan
plan_resolved a force lookup none = ok (degraded_plan (kind_of a.effect_kind) target_not_found)
plan_resolved a force lookup (some targets) =
    effect_plan a force targets (materialize a.effect_kind a.params lookup)

-- `_plan_effect`
unfoldable pub plan_effect :
    PresetLookup → DeviceLookup → Option Bool → EffectAction → Result ActionDispatchPlan
unfolding effect_plan resolve_target materialize
plan_effect presets devices force a =
    plan_resolved a force presets (resolve_target a.target devices)
