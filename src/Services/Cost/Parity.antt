-- ===== src/Services/Cost/Parity.antt =====
-- racelink/services/scene_cost_estimator.py against racelink/services/scene_runner_service.py: the
-- packets that are predicted, and those that are sent.
use gatecontrol_lora.Domain.OffsetFormula.{OffsetSpec}
use gatecontrol_lora.Services.Optimizer.{ContainerTarget}
use gatecontrol_lora.Prelude.{
  ℕ, All, List, Result, [], arith, false, is_some, length, none, ok, refl, true, ◌+◌, ◌∷◌, ◌≡◌,
  All-weaken, ap, ok-injective, same, subst, sym, ◌++◌, ◌∙◌, ◌≤◌, suc, Option,
}
use gatecontrol_lora.Services.WireOp.{WireOp, kind_offset_group, kind_sync}
use gatecontrol_lora.Services.Action.{
  Action, delay, effect, offset_group, sync, unknown_kind, kind_of, Actions,
}
use gatecontrol_lora.Services.EffectPlan.{ActionDispatchPlan}
use gatecontrol_lora.Services.Planner.{plan_action, plan_sync}
use gatecontrol_lora.Services.Planner.Container.{HasUnresolved, plan_action-degraded}
use gatecontrol_lora.Services.Planner.Total.{plan_action_total, is_plannable, body_max}
use gatecontrol_lora.Services.Runner.{
  PlannerInputs, RunState, Senders, dispatch, plan_and_execute, execute_plan, slept, emit,
  run_actions, running, step, run,
}
use gatecontrol_lora.Services.Runner.Sending.{
  sends, IsReliable, sends-execute_plan, sends-append, execute_plan-degraded,
}
use gatecontrol_lora.Services.Cost.{
  ActionCost, add_ops, add_packet, estimate_action, no_cost, cost_of_plan, SceneCost, add_cost,
  estimate_actions, estimate_scene,
}

packets-add_ops :
    (cost : ActionCost) (ops : List WireOp) → (add_ops cost ops).packets ≡ cost.packets + length ops
unfolding add_ops add_packet
packets-add_ops cost [] = omega arith
packets-add_ops cost (op ∷ ops) =
    let ih = packets-add_ops (add_packet cost op.body_bytes) ops in omega (arith, ih)

abbrev pub plan_of_action : PlannerInputs → Action → Result ActionDispatchPlan
plan_of_action inputs action =
    plan_action inputs.known_group_ids inputs.rl_preset_lookup inputs.device_lookup none action

-- The estimate of an action with a plan: a packet for each op.
abbrev Estimated : Result ActionCost → ActionDispatchPlan → Type 0
Estimated r plan = (cost : ActionCost) × (r ≡ ok cost) × (cost.packets ≡ length plan.ops)

cost_of_plan-Estimated : (plan : ActionDispatchPlan) → Estimated (cost_of_plan (ok plan)) plan
cost_of_plan-Estimated plan =
    (add_ops no_cost plan.ops, refl, packets-add_ops no_cost plan.ops ∙ omega arith)

estimate_action-Estimated :
    (inputs : PlannerInputs) (action : Action) (plan : ActionDispatchPlan)
    → plan_of_action inputs action ≡ ok plan
    → Estimated (estimate_action inputs action) plan
unfolding estimate_action
estimate_action-Estimated inputs (delay ms) plan h =
    subst (λ p. Estimated (estimate_action inputs (delay ms)) p) (ok-injective h) (_, refl, refl)
estimate_action-Estimated inputs sync plan h =
    subst (λ p. Estimated (estimate_action inputs sync) p) (ok-injective h)
      (cost_of_plan-Estimated plan_sync)
estimate_action-Estimated inputs (offset_group t o c) plan h = rw h (cost_of_plan-Estimated plan)
estimate_action-Estimated inputs (effect a) plan h = rw h (cost_of_plan-Estimated plan)
estimate_action-Estimated inputs unknown_kind plan h =
    subst (λ p. Estimated (estimate_action inputs unknown_kind) p) (ok-injective h) (_, refl, refl)

named_ops :
    (inputs : PlannerInputs) (action : Action) (plan : ActionDispatchPlan)
    → is_plannable action ≡ true
    → plan_of_action inputs action ≡ ok plan
    → All (λ op. is_some op.sender ≡ true) plan.ops
named_ops inputs action plan h e =
    let (same, f, fits) =
      plan_action_total inputs.known_group_ids inputs.rl_preset_lookup inputs.device_lookup none
        action h in
    let eq : same ≡ plan = ok-injective (sym f ∙ e) in
    subst (λ p. All (λ op. is_some op.sender ≡ true) p.ops) eq
      (All-weaken
        (λ op. (2 ≤ op.body_bytes) × (op.body_bytes ≤ body_max) × (is_some op.sender ≡ true)) _
        same.ops (λ op w. w.2) fits)

-- The action is valid, and its plan is not degraded.
abbrev pub IsClean : PlannerInputs → Action → Type 0
IsClean inputs action =
    (is_plannable action ≡ true)
    × (plan : ActionDispatchPlan) × (plan_of_action inputs action ≡ ok plan)
    × (plan.degraded ≡ false)

module _ {W : Type 0} (senders : Senders W) (inputs : PlannerInputs)
    (reliable : IsReliable senders) where
  sends-dispatch :
      (index : ℕ) (action : Action) (plan : ActionDispatchPlan) (st : RunState W)
      → is_plannable action ≡ true
      → plan_of_action inputs action ≡ ok plan
      → plan.degraded ≡ false
      → sends (dispatch senders inputs index action st).1.trace ≡ sends st.trace + length plan.ops
  unfolding dispatch plan_and_execute plan_action
  sends-dispatch index (delay ms) plan st p h d =
      subst (λ q. sends (st.trace ++ slept ms ∷ []) ≡ sends st.trace + length q.ops)
        (ok-injective h) (sends-append st.trace (slept ms ∷ []))
  sends-dispatch index sync plan st p h d =
      let named = named_ops inputs sync plan p h in
      let same : plan ≡ plan_sync = sym (ok-injective h) in
      subst
        (λ q.
          sends (execute_plan senders inputs index kind_sync q st).1.trace
          ≡ sends st.trace + length plan.ops)
        same (sends-execute_plan senders inputs index kind_sync plan st reliable d named)
  sends-dispatch index (offset_group t o c) plan st p h d = rw h (
      sends-execute_plan senders inputs index kind_offset_group plan st reliable d
        (named_ops inputs (offset_group t o c) plan p h))
  sends-dispatch index (effect a) plan st p h d = rw h (
      sends-execute_plan senders inputs index (kind_of a.effect_kind) plan st reliable d
        (named_ops inputs (effect a) plan p h))
  sends-dispatch index unknown_kind plan st p h d =
      let bad : true ≡ false = ap (λ q. q.degraded) (ok-injective h) ∙ d in cc

  abbrev Sends : RunState W → ℕ → RunState W → Type 0
  Sends before n after = sends after.trace ≡ sends before.trace + n

  run_actions-Sends :
      (index : ℕ) (actions : List Action) (st : RunState W) (out : SceneCost)
      → All (IsClean inputs) actions
      → (n : ℕ) × (cost : SceneCost) × (estimate_actions inputs out actions ≡ ok cost)
        × (cost.total.packets ≡ out.total.packets + n)
        × Sends st n (run_actions senders inputs false index actions st).2
  unfolding run_actions estimate_actions step
  run_actions-Sends index [] st out h = (0, out, refl, omega arith, omega arith)
  run_actions-Sends index (action ∷ rest) st out ((p, plan, e, d), h) =
      let (cost, priced, counted) = estimate_action-Estimated inputs action plan e in
      let one = sends-dispatch index action plan (emit senders inputs index running st) p e d in
      let out2 : SceneCost = record {
        total = add_cost out.total cost;
        per_action = out.per_action ++ cost ∷ [];
      } in
      let st2 = (step senders inputs index action st).1 in
      let (n, final, est, total, ran) = run_actions-Sends (suc index) rest st2 out2 h in
      (
        cost.packets + n,
        final,
        rw priced est,
        omega (arith, total),
        omega (arith, ran, one, counted),
      )

-- The runner calls a sender exactly as often as the estimator counts a packet: for a scene that is not
-- stopped on an error, whose actions are valid and have plans that are not degraded, with
-- senders that do not raise, whatever they answer. The estimator returns a cost.
pub estimate_scene-run :
    {W : Type 0} (senders : Senders W) (inputs : PlannerInputs) (actions : List Action)
    (st : RunState W)
    → IsReliable senders
    → All (IsClean inputs) actions
    → (cost : SceneCost) × (estimate_scene inputs actions ≡ ok cost)
      × (sends
            (run senders inputs
              (record { stop_on_error = false; scene_actions = actions })
              st).1.trace
          ≡ sends st.trace + cost.total.packets)
unfolding estimate_scene run
estimate_scene-run senders inputs actions st reliable clean =
    let (n, cost, priced, counted, ran) =
      run_actions-Sends senders inputs reliable 0 actions st
        (record { total = no_cost; per_action = [] }) clean in
    (cost, priced, omega (arith, counted, ran))

-- A container with a child whose target cannot be resolved calls no sender at all, though the
-- estimator counts every operation of its plan: the offsets and the other children.
pub estimate_action-dispatch_degraded :
    {W : Type 0} (senders : Senders W) (inputs : PlannerInputs) (index : ℕ)
    (target : Option ContainerTarget) (offset : Option OffsetSpec) (children : Actions)
    (plan : ActionDispatchPlan) (st : RunState W)
    → plan_of_action inputs (offset_group target offset children) ≡ ok plan
    → HasUnresolved inputs.device_lookup children
    → ((dispatch senders inputs index (offset_group target offset children) st).1 ≡ st)
      × (cost : ActionCost) × (estimate_action inputs (offset_group target offset children)
          ≡ ok cost)
      × (cost.packets ≡ length plan.ops)
unfolding dispatch plan_and_execute
estimate_action-dispatch_degraded senders inputs index target offset children plan st h lost =
    let d =
      plan_action-degraded inputs.known_group_ids inputs.rl_preset_lookup inputs.device_lookup none
        target offset children lost h in
    let (cost, priced, counted) =
      estimate_action-Estimated inputs (offset_group target offset children) plan h in
    (
      rw h (execute_plan-degraded senders inputs index kind_offset_group plan st d),
      cost,
      priced,
      counted,
    )
