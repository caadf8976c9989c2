-- ===== src/Services/Runner/Abort.antt =====
-- When racelink/services/scene_runner_service.py gives up on a scene.
use gatecontrol_lora.Services.EffectPlan.{ActionDispatchPlan}
use gatecontrol_lora.Services.WireOp.{ActionKind, kind_sync, WireOp}
use gatecontrol_lora.Prelude.{
  ℕ, All, Bool, Bool-cases, List, Result, [], ap, err, false, inl, inr, length, none, ok, refl,
  some, suc, take, true, ◌++◌, ◌+◌, ◌||◌, ◌∷◌, ◌≡◌, arith, ◌∙◌, ◌⊎◌,
}
use gatecontrol_lora.Services.Action.{Action, delay, effect, offset_group, sync, unknown_kind}
use gatecontrol_lora.Services.Planner.{plan_action, plan_sync}
use gatecontrol_lora.Services.Runner.{
  Senders, ActionResult, PlannerInputs, Run, RunState, SendResult, aborts, answered, conclude,
  dispatch, emit, execute_plan, execute_planned, plan_and_execute, raised, run_actions, running,
  sent_result, skip_rest, skipped_aborted, skipped_status, step, kind_of_action, prepend, Scene,
  run, SceneRunResult,
}

-- A result for each action, numbered in the order of the scene.
abbrev pub IsNumbered : ℕ → List ActionResult → Type 0
IsNumbered i [] = Unit {0}
IsNumbered i (r ∷ rs) = (r.index ≡ i) × IsNumbered (suc i) rs

abbrev pub HasPassed : ActionResult → Type 0
HasPassed r = (r.succeeded || r.degraded) ≡ true

abbrev pub HasFailed : ActionResult → Type 0
HasFailed r = (r.succeeded ≡ false) × (r.degraded ≡ false)

abbrev pub IsSkipped : ActionResult → Type 0
IsSkipped r = (r.succeeded ≡ false) × (r.error ≡ some skipped_aborted)

module _ {W : Type 0} (senders : Senders W) (inputs : PlannerInputs) where
  conclude-index :
      (index : ℕ) (kind : ActionKind) (ops : List WireOp) (r : SendResult × RunState W)
      → (conclude senders inputs index kind ops r).0.index ≡ index
  unfolding sent_result
  conclude-index index kind ops (raised, st) = refl
  conclude-index index kind ops (answered b, st) = refl

  execute_plan-index :
      (index : ℕ) (kind : ActionKind) (plan : ActionDispatchPlan) (st : RunState W)
      → (execute_plan senders inputs index kind plan st).0.index ≡ index
  unfolding execute_plan
  execute_plan-index index kind plan st = elim (Bool-cases plan.degraded) [
    | inl e ↦ rw e refl
    | inr e ↦ rw e (conclude-index index kind plan.ops _)
  ]

  execute_planned-index :
      (index : ℕ) (kind : ActionKind) (r : Result ActionDispatchPlan) (st : RunState W)
      → (execute_planned senders inputs index kind r st).0.index ≡ index
  execute_planned-index index kind (err e) st = refl
  execute_planned-index index kind (ok plan) st = execute_plan-index index kind plan st

  plan_and_execute-index :
      (index : ℕ) (action : Action) (st : RunState W)
      → (plan_and_execute senders inputs index action st).0.index ≡ index
  unfolding plan_and_execute
  plan_and_execute-index index action st =
      execute_planned-index index (kind_of_action action)
        (plan_action inputs.known_group_ids inputs.rl_preset_lookup inputs.device_lookup none
          action)
        st

  dispatch-index :
      (index : ℕ) (action : Action) (st : RunState W)
      → (dispatch senders inputs index action st).0.index ≡ index
  unfolding dispatch
  dispatch-index index (delay ms) st = refl
  dispatch-index index sync st = execute_plan-index index kind_sync plan_sync st
  dispatch-index index (offset_group t o c) st =
      plan_and_execute-index index (offset_group t o c) st
  dispatch-index index (effect a) st = plan_and_execute-index index (effect a) st
  dispatch-index index unknown_kind st = refl

  -- The placeholders are numbered on, and leave the world and the trace alone.
  skip_rest_lem :
      (index : ℕ) (actions : List Action) (st : RunState W)
      → IsNumbered index (skip_rest senders inputs index actions st).0
        × (length (skip_rest senders inputs index actions st).0 ≡ length actions)
        × All IsSkipped (skip_rest senders inputs index actions st).0
        × ((skip_rest senders inputs index actions st).1.trace ≡ st.trace)
        × ((skip_rest senders inputs index actions st).1.world ≡ st.world)
  unfolding skip_rest
  skip_rest_lem index [] st = (tt, refl, tt, refl, refl)
  skip_rest_lem index (action ∷ rest) st =
      let (a, b, c, d, e) =
        skip_rest_lem (suc index) rest (emit senders inputs index skipped_status st) in
      ((refl, a), ap suc b, ((refl, refl), c), d, e)

  run_actions-IsNumbered :
      (stop : Bool) (index : ℕ) (actions : List Action) (st : RunState W)
      → IsNumbered index (run_actions senders inputs stop index actions st).0
        × (length (run_actions senders inputs stop index actions st).0 ≡ length actions)
  unfolding run_actions step
  run_actions-IsNumbered stop index [] st = (tt, refl)
  run_actions-IsNumbered stop index (action ∷ rest) st =
      let done = step senders inputs index action st in
      let numbered = dispatch-index index action (emit senders inputs index running st) in
      elim (Bool-cases (aborts senders inputs stop done.0)) [
        | inl e ↦
            let (a, b, c, d, w) = skip_rest_lem (suc index) rest done.1 in
            rw e ((numbered, a), ap suc b)
        | inr e ↦
            let (a, b) = run_actions-IsNumbered stop (suc index) rest done.1 in
            rw e ((numbered, a), ap suc b)
      ]

  -- How a run with the stop on errors ends.
  abbrev Completed : List Action → RunState W → ℕ → Run senders inputs → Type 0
  Completed actions st index (results, aborted, last) = (aborted ≡ none) × All HasPassed results

  abbrev Aborted : List Action → RunState W → ℕ → Run senders inputs → Type 0
  Aborted actions st index (results, aborted, last) =
      (before : List ActionResult) × (failed : ActionResult) × (after : List ActionResult)
      × (results ≡ before ++ failed ∷ after)
      × (aborted ≡ some (index + length before))
      × All HasPassed before
      × HasFailed failed
      × All IsSkipped after
      × (last.trace
          ≡ (run_actions senders inputs false index (take (suc (length before)) actions)
              st).2.trace)
      × (last.world
          ≡ (run_actions senders inputs false index (take (suc (length before)) actions)
              st).2.world)

  passed : (r : ActionResult) → aborts senders inputs true r ≡ false → HasPassed r
  passed r h = ground (arith, h)

  failed : (r : ActionResult) → aborts senders inputs true r ≡ true → HasFailed r
  failed r h = ground (arith, h)

  abbrev Ended : List Action → RunState W → ℕ → Run senders inputs → Type 0
  Ended actions st index r = Completed actions st index r ⊎ Aborted actions st index r

  -- One more action that has passed in front.
  Ended-cons :
      (action : Action) (rest : List Action) (st : RunState W) (index : ℕ)
      → HasPassed (step senders inputs index action st).0
      → (r : Run senders inputs) → Ended rest (step senders inputs index action st).1 (suc index) r
      → Ended
          (action ∷ rest)
          st
          index
          (prepend senders inputs (step senders inputs index action st).0 r)
  unfolding run_actions
  Ended-cons action rest st index h (results, aborted, last) (inl (a, b)) = inl (a, (h, b))
  Ended-cons action rest st index h (results, aborted, last)
        (inr (before, bad, after, e, at, p, f, s, t, w)) =
      let r = (step senders inputs index action st).0 in
      inr (
        r ∷ before,
        bad,
        after,
        ap (λ rs. r ∷ rs) e,
        at ∙ ap some (omega arith),
        (h, p),
        f,
        s,
        t,
        w,
      )

  run_actions-Ended :
      (index : ℕ) (actions : List Action) (st : RunState W)
      → Ended actions st index (run_actions senders inputs true index actions st)
  unfolding run_actions
  run_actions-Ended index [] st = inl (refl, tt)
  run_actions-Ended index (action ∷ rest) st =
      let done = step senders inputs index action st in
      elim (Bool-cases (aborts senders inputs true done.0)) [
        | inl e ↦
            let (a, b, c, d, w) = skip_rest_lem (suc index) rest done.1 in
            let skipped = (skip_rest senders inputs (suc index) rest done.1).0 in
            rw e (
              unfold Ended in
              inr ([], done.0, skipped, refl, ap some (omega arith), tt, failed done.0 e, c, d, w))
        | inr e ↦ rw e (
            Ended-cons action rest st index (passed done.0 e)
              (run_actions senders inputs true (suc index) rest done.1)
              (run_actions-Ended (suc index) rest done.1))
      ]

-- A run returns one result for each action of the scene, in order and numbered from 0, whether
-- or not it is given up.
pub run-IsNumbered :
    {W : Type 0} (senders : Senders W) (inputs : PlannerInputs) (scene : Scene) (st : RunState W)
    → IsNumbered 0 (run senders inputs scene st).0.results
      × (length (run senders inputs scene st).0.results ≡ length scene.scene_actions)
unfolding run
run-IsNumbered senders inputs scene st =
    run_actions-IsNumbered senders inputs scene.stop_on_error 0 scene.scene_actions st

-- How a scene that stops on errors ends: completed, or aborted at an action.
abbrev pub StopOutcome :
    {W : Type 0}
    → Senders W
    → PlannerInputs
    → List Action
    → RunState W
    → SceneRunResult × RunState W
    → Type 0
StopOutcome senders inputs actions st (result, last) =
    (result.aborted_at_index ≡ none) × All HasPassed result.results
    ⊎ ((before : List ActionResult) × (bad : ActionResult) × (after : List ActionResult)
        × (result.results ≡ before ++ bad ∷ after)
        × (result.aborted_at_index ≡ some (length before))
        × All HasPassed before
        × HasFailed bad
        × All IsSkipped after
        × (let prefix =
              run senders inputs
                (record {
                  stop_on_error = false;
                  scene_actions = take (suc (length before)) actions;
                })
                st in
            (last.trace ≡ prefix.1.trace) × (last.world ≡ prefix.1.world)))

-- A scene that stops on errors is either completed, with every action successful or degraded; or
-- it is aborted at the first action that is neither: the actions before are successful or
-- degraded, those after are marked as skipped, the index is reported, and what has been sent is
-- what a run of the actions up to the failed one sends.
pub run-stop :
    {W : Type 0} (senders : Senders W) (inputs : PlannerInputs) (actions : List Action)
    (st : RunState W)
    → StopOutcome senders inputs actions st
        (run senders inputs (record { stop_on_error = true; scene_actions = actions }) st)
unfolding run
run-stop senders inputs actions st = elim (run_actions-Ended senders inputs 0 actions st) [
  | inl (a, b) ↦ inl (a, b)
  | inr (before, bad, after, e, at, p, f, s, t, w) ↦
      inr (before, bad, after, e, at ∙ ap some (omega arith), p, f, s, (t, w))
]
