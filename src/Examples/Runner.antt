-- ===== src/Examples/Runner.antt =====
-- A scene of four actions, run with senders that answer no to packets for group 9.
use gatecontrol_lora.Protocol.Control.{build_control_body}
use gatecontrol_lora.Prelude.{
  ℕ, List, [], false, length, none, not, refl, some, true, ◌==◌, ◌∷◌, ◌≡◌, Option, ok, ◌+◌,
  traverse, ◌*ℤ◌, ◌+ℤ◌, inl, inr,
}
use gatecontrol_lora.Services.WireOp.{WireOp}
use gatecontrol_lora.Services.Action.{
  Action, delay, effect, sync, to_device, to_groups, wled_control, Actions, cons, nil, offset_group,
}
use gatecontrol_lora.Services.EffectPlan.{ActionDispatchPlan, no_flags, plan_effect, resolve_target}
use gatecontrol_lora.Services.Planner.{plan_action, plan_sync}
use gatecontrol_lora.Services.Planner.Total.{is_plannable}
use gatecontrol_lora.Services.Runner.{
  Senders, PlannerInputs, RunState, answered, dispatch, dispatch_op, execute_plan, plan_and_execute,
  run, run_actions, send_ops, sent_result, skip_rest,
}
use gatecontrol_lora.Services.Runner.Sending.{sends, IsReliable}
use gatecontrol_lora.Services.Runner.Abort.{run-stop, StopOutcome}
use gatecontrol_lora.Services.Cost.{estimate_scene, ActionCost, SceneCost, estimate_action}
use gatecontrol_lora.Services.Planner.Container.{HasUnresolved}
use gatecontrol_lora.Services.Cost.Parity.{
  plan_of_action, estimate_scene-run, estimate_action-dispatch_degraded, IsClean,
}
use gatecontrol_lora.Services.Optimizer.{
  groups, plan_offset_setup, strategy_a, strategy_b, strategy_c, override_b, cheapest, explicit_op,
  make_offset_op, ContainerTarget,
}
use gatecontrol_lora.Domain.OffsetFormula.{spec_mode, evaluate_offset_ms}
use gatecontrol_lora.Protocol.Offset.{mode_of, build_offset_of}
use gatecontrol_lora.Protocol.Control.{build_control_body}
use gatecontrol_lora.Examples.Planner.{params}
use gatecontrol_lora.Examples.Optimizer.{cascade}

abbrev refusing : Senders (List WireOp)
refusing = record { call = λ op w. (answered (not (op.group == 9)), op ∷ w); has_startblock = true }

abbrev inputs : PlannerInputs
inputs = record { known_group_ids = 1 ∷ 2 ∷ 9 ∷ []; rl_preset_lookup = none; device_lookup = none }

abbrev control_of : List ℕ → Action
control_of ids = effect (record {
  effect_kind = wled_control;
  target = to_groups ids;
  params = params;
  flags_override = no_flags;
})

abbrev lost_device : Action
lost_device = effect (record {
  effect_kind = wled_control;
  target = to_device (1 ∷ []);
  params = params;
  flags_override = no_flags;
})

abbrev show : List Action
show = control_of (1 ∷ 2 ∷ []) ∷ delay 20 ∷ control_of (9 ∷ []) ∷ sync ∷ []

abbrev start : RunState (List WireOp)
start = record { world = []; trace = []; progress = [] }

runnable : Unit {0}
unfolding run run_actions dispatch plan_and_execute execute_plan send_ops dispatch_op sent_result
    skip_rest plan_action plan_effect build_control_body estimate_scene traverse spec_mode mode_of
    plan_offset_setup strategy_a strategy_b strategy_c override_b cheapest evaluate_offset_ms
    explicit_op make_offset_op build_offset_of ◌+ℤ◌ ◌*ℤ◌
runnable = tt

-- The third action fails, so the sync after it is skipped.
stopped :
    (run refusing inputs
      (record { stop_on_error = true; scene_actions = show })
      start).0.aborted_at_index
    ≡ some 2
unfolding runnable
stopped = refl

played_on :
    sends
      (run refusing inputs (record { stop_on_error = false; scene_actions = show }) start).1.trace
    ≡ 4
unfolding runnable
played_on = refl

run-stop_example :
    StopOutcome refusing inputs show start
      (run refusing inputs (record { stop_on_error = true; scene_actions = show }) start)
run-stop_example = run-stop refusing inputs show start

refusing-IsReliable : IsReliable refusing
refusing-IsReliable = ((λ op w. refl), refl)

control_plan :
    (plan : ActionDispatchPlan) × (plan_of_action inputs (control_of (1 ∷ 2 ∷ [])) ≡ ok plan)
    × (plan.degraded ≡ false)
unfolding runnable
control_plan = (_, refl, refl)

sync_plan :
    (plan : ActionDispatchPlan) × (plan_of_action inputs sync ≡ ok plan) × (plan.degraded ≡ false)
unfolding runnable plan_sync
sync_plan = (_, refl, refl)

control_IsClean : IsClean inputs (control_of (1 ∷ 2 ∷ []))
unfolding is_plannable
control_IsClean = (refl, control_plan.0, control_plan.1, control_plan.2)

sync_IsClean : IsClean inputs sync
unfolding is_plannable
sync_IsClean = (refl, sync_plan.0, sync_plan.1, sync_plan.2)

estimate_scene-run_example :
    (cost : SceneCost) × (estimate_scene inputs (control_of (1 ∷ 2 ∷ []) ∷ sync ∷ []) ≡ ok cost)
    × (sends
          (run refusing inputs
            (record { stop_on_error = false; scene_actions = control_of (1 ∷ 2 ∷ []) ∷ sync ∷ [] })
            start).1.trace
        ≡ 0 + cost.total.packets)
estimate_scene-run_example =
    estimate_scene-run refusing inputs (control_of (1 ∷ 2 ∷ []) ∷ sync ∷ []) start
      refusing-IsReliable (control_IsClean, (sync_IsClean, tt))

-- A container with one child for two groups and one for a device that is not there.
abbrev half_lost : Actions
half_lost = cons (control_of (1 ∷ 2 ∷ [])) (cons lost_device nil)

abbrev container_groups : Option ContainerTarget
container_groups = some (groups (1 ∷ 2 ∷ []))

half_lost_plan :
    (plan : ActionDispatchPlan) × (plan_of_action inputs
        (offset_group container_groups (some cascade) half_lost)
      ≡ ok plan)
    × (length plan.ops ≡ 4)
unfolding runnable
half_lost_plan = (_, refl, refl)

half_lost-HasUnresolved : HasUnresolved inputs.device_lookup half_lost
unfolding HasUnresolved resolve_target
half_lost-HasUnresolved = inr (inl refl)

estimate_action-dispatch_degraded_example :
    ((dispatch refusing inputs 0 (offset_group container_groups (some cascade) half_lost) start).1
      ≡ start)
    × (cost : ActionCost) × (estimate_action inputs
          (offset_group container_groups (some cascade) half_lost)
        ≡ ok cost)
    × (cost.packets ≡ length (half_lost_plan.0).ops)
estimate_action-dispatch_degraded_example =
    estimate_action-dispatch_degraded refusing inputs 0 container_groups (some cascade) half_lost
      (half_lost_plan.0) start half_lost_plan.1 half_lost-HasUnresolved
