-- ===== src/Services/Planner.antt =====
-- racelink/services/dispatch_planner.py: every wire packet that an action would emit.
pub mod Effects
pub mod Total
pub mod Container
use gatecontrol_lora.Protocol.Bodies.{build_preset_body, build_sync_body, sync_flag_trigger_armed}
use gatecontrol_lora.Protocol.Offset.{Mode}
use gatecontrol_lora.Prelude.{
  ℕ, Bool, List, Option, Result, Text, [], byte, false, if◌then◌else◌, inl, inr, leb, length, map,
  negsuc, none, ok, or_else, pos, some, true, ℤ, ◌>>=◌, ◌∷◌, ◌⊎◌, not, suc, traverse, ◌++◌, ◌||◌,
}
use gatecontrol_lora.Protocol.Control.{ControlFields, Rgb, build_control_body}
use gatecontrol_lora.Domain.Flags.{FlagMapping}
use gatecontrol_lora.Domain.Device.{Device}
use gatecontrol_lora.Domain.Params.{EffectParams, PresetRef}
use gatecontrol_lora.Domain.OffsetFormula.{OffsetSpec, spec_mode}
use gatecontrol_lora.Services.WireOp.{
  WireOp, ActionKind, Opcode, Sender, TargetKwargs, effect_payload, kind_rl_preset, kind_startblock,
  kind_wled_control, kind_wled_preset, no_phase, opc_control, opc_preset, send_startblock,
  send_wled_control, send_wled_preset, target_device, target_group, child_phase, kind_delay,
  kind_offset_group, kind_sync, kind_unknown, offset_phase, opc_sync, send_sync, sync_payload,
  send_offset,
}
use gatecontrol_lora.Services.Optimizer.{
  OptimizerPlan, ContainerTarget, Strategy, broadcast, empty_spec, is_none, packet_count,
  plan_offset_setup, total_bytes,
}
use gatecontrol_lora.Services.Action.{
  Action, Actions, EffectAction, EffectKind, Target, cons, delay, effect, kind_of, nil,
  offset_group, other_target, rl_preset, startblock, sync, to_broadcast, to_device, to_groups,
  unknown_kind, wled_control, wled_preset,
}
use gatecontrol_lora.Services.EffectPlan.{
  ActionDispatchPlan, DeviceLookup, Materialised, PlanDetail, PlanError, Preset, PresetLookup,
  Resolved, build_effect_op, control_body_len, degraded_plan, duration, effect_op, effect_plan,
  find_device, force_flag, found_preset, is_startblock, look_up, masked, masked_color,
  masked_fields, materialize, materialize_ref, merge_flag, merge_flags, missing_preset_id,
  no_detail, no_flags, one_device, override_brightness, plan_effect, plan_resolved,
  preset_not_found, resolve_target, sender_of, target_group_for_op, target_not_found,
  unknown_kind_error, container,
}

-- `_plan_sync`
unfoldable pub plan_sync : ActionDispatchPlan
unfolding build_sync_body
plan_sync = record {
  kind = kind_sync;
  ops =
      record {
        opcode = opc_sync;
        group = 255;
        payload = sync_payload 0 true;
        body_bytes = length (build_sync_body (pos 0) (pos 0) sync_flag_trigger_armed);
        sender = some send_sync;
        phase = no_phase;
        approximate = false;
      }
      ∷ [];
  degraded = false;
  error = none;
  detail = no_detail;
}

abbrev pub tag_offset : WireOp → WireOp
tag_offset op = record op { sender = some (or_else op.sender send_offset); phase = offset_phase }

abbrev pub tag_child : ℕ → ActionKind → WireOp → WireOp
tag_child index kind op = record op { phase = child_phase index kind }

-- What the loop over the children has gathered.
pub record ChildPlans : Type 0 where
  pub child_ops : List WireOp
  pub any_degraded : Bool
  pub child_count : ℕ

abbrev pub add_child : ℕ → ActionDispatchPlan → ChildPlans → ChildPlans
add_child index plan rest = record {
  child_ops = map (tag_child index plan.kind) plan.ops ++ rest.child_ops;
  any_degraded = plan.degraded || rest.any_degraded;
  child_count = suc rest.child_count;
}

abbrev pub or_broadcast : Option ContainerTarget → ContainerTarget
or_broadcast target = or_else target broadcast

abbrev pub or_no_offset : Option OffsetSpec → OffsetSpec
or_no_offset offset = or_else offset empty_spec

abbrev pub container_plan : Mode → OptimizerPlan → ChildPlans → ActionDispatchPlan
container_plan mode setup children = record {
  kind = kind_offset_group;
  ops = map tag_offset setup.ops ++ children.child_ops;
  degraded = children.any_degraded;
  error = none;
  detail =
      container setup.strategy mode (packet_count setup) (total_bytes setup) children.child_count;
}

module _ (known : List ℕ) (presets : PresetLookup) (devices : DeviceLookup) where
  unfoldable mutual
    pub plan_action : Option Bool → Action → Result ActionDispatchPlan
    plan_action force (delay ms) = ok (record {
      kind = kind_delay;
      ops = [];
      degraded = false;
      error = none;
      detail = duration ms;
    })
    plan_action force sync = ok plan_sync
    plan_action force (offset_group target offset children) = do
      let mode = spec_mode (or_no_offset offset)
      setup ← plan_offset_setup (or_broadcast target) (or_no_offset offset) known
      kids ← plan_children (not (is_none mode)) 0 children
      ok (container_plan mode setup kids)
    plan_action force (effect a) = plan_effect presets devices force a
    plan_action force unknown_kind = ok (degraded_plan kind_unknown unknown_kind_error)

    -- The children, numbered from `index`; the container forces their offset flag.
    pub plan_children : Bool → ℕ → Actions → Result ChildPlans
    plan_children force index nil =
        ok (record { child_ops = []; any_degraded = false; child_count = 0 })
    plan_children force index (cons child rest) = do
      plan ← plan_action (some force) child
      others ← plan_children force (suc index) rest
      ok (add_child index plan others)
