-- ===== src/Examples/Planner.antt =====
-- The planner on a container with one preset child and one control child.
use gatecontrol_lora.Protocol.Control.{build_control_body}
use gatecontrol_lora.Protocol.Offset.{mode_of, build_offset_of}
use gatecontrol_lora.Domain.OffsetFormula.{spec_mode, evaluate_offset_ms}
use gatecontrol_lora.Prelude.{
  ℕ, All, List, [], map, none, ok, refl, some, traverse, true, ◌++◌, ◌∷◌, ◌≡◌, ◌*ℤ◌, ◌+ℤ◌,
}
use gatecontrol_lora.Domain.Params.{EffectParams}
use gatecontrol_lora.Services.WireOp.{WireOp}
use gatecontrol_lora.Services.Optimizer.{
  OptimizerPlan, cheapest, explicit_op, groups, make_offset_op, override_b, plan_offset_setup,
  strategy_a, strategy_b, strategy_c,
}
use gatecontrol_lora.Services.Action.{
  EffectAction, Action, Actions, cons, effect, nil, offset_group, to_broadcast, to_groups,
  wled_control, wled_preset,
}
use gatecontrol_lora.Services.EffectPlan.{ActionDispatchPlan, no_flags, plan_effect}
use gatecontrol_lora.Services.Planner.{plan_action, tag_offset}
use gatecontrol_lora.Services.Planner.Effects.{group_field}
use gatecontrol_lora.Services.Planner.Container.{
  plan_action-offset_group, ChildPackets, Forced, are_effects,
}
use gatecontrol_lora.Examples.Protocol.{plain_fields}
use gatecontrol_lora.Examples.Optimizer.{cascade}

abbrev pub params : EffectParams
params = record { preset_id = none; fields = plain_fields; user_flags = no_flags }

abbrev control : EffectAction
control = record {
  effect_kind = wled_control;
  target = to_groups (1 ∷ 3 ∷ []);
  params = params;
  flags_override = record no_flags { raw_arm_on_sync = some true };
}

abbrev preset : EffectAction
preset = record {
  effect_kind = wled_preset;
  target = to_broadcast;
  params = params;
  flags_override = no_flags;
}

abbrev children : Actions
children = cons (effect control) (cons (effect preset) nil)

abbrev scene : Action
scene = offset_group (some (groups (1 ∷ 2 ∷ 3 ∷ []))) (some cascade) children

abbrev known : List ℕ
known = 1 ∷ 2 ∷ 3 ∷ 4 ∷ []

program : Unit {0}
unfolding plan_action plan_effect plan_offset_setup strategy_a strategy_b strategy_c override_b
    cheapest spec_mode mode_of traverse evaluate_offset_ms explicit_op make_offset_op
    build_offset_of ◌+ℤ◌ ◌*ℤ◌ build_control_body
program = tt

scene_groups :
    (plan : ActionDispatchPlan) × (plan_action known none none none scene ≡ ok plan)
    × (map group_field plan.ops ≡ 255 ∷ 4 ∷ 1 ∷ 3 ∷ 255 ∷ [])
unfolding program
scene_groups = (_, refl, refl)

plan_action-offset_group_example :
    (setup : OptimizerPlan) × (rest : List WireOp) × (plan_offset_setup
        (groups (1 ∷ 2 ∷ 3 ∷ []))
        cascade
        known
      ≡ ok setup)
    × ((scene_groups.0).ops ≡ map tag_offset setup.ops ++ rest)
    × ChildPackets none none true 0 children rest
    × All (Forced true) rest
unfolding are_effects spec_mode mode_of
plan_action-offset_group_example =
    plan_action-offset_group known none none none (some (groups (1 ∷ 2 ∷ 3 ∷ []))) (some cascade)
      children refl scene_groups.1
