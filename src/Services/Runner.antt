-- ===== src/Services/Runner.antt =====
-- racelink/services/scene_runner_service.py: the sequential execution of a scene. Durations, and the
-- part of an action's detail that only the web interface shows, are left out. What the senders do
-- is a parameter, with a state of their own; the runner's trace says what it asked of them.
pub mod Abort
pub mod Sending
use gatecontrol_lora.Prelude.{
  ℕ, Bool, List, Option, Result, [], all, err, false, if◌then◌else◌, none, not, ok, some, suc, true,
  ◌&&◌, ◌++◌, ◌∷◌,
}
use gatecontrol_lora.Services.WireOp.{
  WireOp, ActionKind, Sender, kind_delay, kind_offset_group, kind_sync, kind_unknown,
  send_startblock, send_sync,
}
use gatecontrol_lora.Services.Action.{
  Action, delay, effect, kind_of, offset_group, sync, unknown_kind,
}
use gatecontrol_lora.Services.EffectPlan.{ActionDispatchPlan, DeviceLookup, PlanError, PresetLookup}
use gatecontrol_lora.Services.Planner.{plan_action, plan_sync}

-- What a sender's call comes to.
pub data SendResult : Type 0 where
  answered : Bool → SendResult
  raised : SendResult

-- The services behind the symbolic senders. The controller may lack the startblock method.
pub record Senders (W : Type 0) : Type 0 where
  pub call : WireOp → W → SendResult × W
  pub has_startblock : Bool

-- What the planner is given (`_planner_inputs`).
pub record PlannerInputs : Type 0 where
  pub known_group_ids : List ℕ
  pub rl_preset_lookup : PresetLookup
  pub device_lookup : DeviceLookup

pub data RunError : Type 0 where
  plan_error : PlanError → RunError
  degraded_error send_failed offset_group_partial_failure : RunError
  unknown_kind_result exception_raised skipped_aborted : RunError

pub record ActionResult : Type 0 where
  pub index : ℕ
  pub kind : ActionKind
  pub succeeded : Bool
  pub error : Option RunError
  pub degraded : Bool

-- The runner's effects, in order.
pub data Trace : Type 0 where
  sent : WireOp → Trace
  slept : (duration_ms : ℕ) → Trace

pub data Status : Type 0 where
  running succeeded_status degraded_status error_status skipped_status : Status

pub record Progress : Type 0 where
  pub at_index : ℕ
  pub status : Status

pub record RunState (W : Type 0) : Type 0 where
  pub world : W
  pub trace : List Trace
  pub progress : List Progress

pub record Scene : Type 0 where
  pub stop_on_error : Bool
  pub scene_actions : List Action

pub record SceneRunResult : Type 0 where
  pub all_succeeded : Bool
  pub results : List ActionResult
  pub aborted_at_index : Option ℕ

abbrev pub kind_of_action : Action → ActionKind
kind_of_action (delay ms) = kind_delay
kind_of_action sync = kind_sync
kind_of_action (offset_group target offset children) = kind_offset_group
kind_of_action (effect a) = kind_of a.effect_kind
kind_of_action unknown_kind = kind_unknown

abbrev pub is_container : ActionKind → Bool
is_container kind_offset_group = true
is_container _ = false

-- `plan.error or "degraded"`
abbrev pub degraded_reason : Option PlanError → RunError
degraded_reason none = degraded_error
degraded_reason (some e) = plan_error e

abbrev pub is_empty_ops : List WireOp → Bool
is_empty_ops [] = true
is_empty_ops (op ∷ ops) = false

abbrev pub failure_of : ActionKind → RunError
failure_of kind = if is_container kind then offset_group_partial_failure else send_failed

-- The result of a plan whose ops have been sent. A container without any op is not a success.
unfoldable pub sent_result : ℕ → ActionKind → List WireOp → Bool → ActionResult
sent_result index kind ops all_ok = record {
  index = index;
  kind = kind;
  succeeded = all_ok && not (is_container kind && is_empty_ops ops);
  error = if all_ok then none else some (failure_of kind);
  degraded = false;
}

abbrev pub failed_result : ℕ → ActionKind → RunError → Bool → ActionResult
failed_result index kind e degraded = record {
  index = index;
  kind = kind;
  succeeded = false;
  error = some e;
  degraded = degraded;
}

module _ {W : Type 0} (senders : Senders W) (inputs : PlannerInputs) where
  abbrev pub call_sender : WireOp → RunState W → SendResult × RunState W
  call_sender op st =
      let r = senders.call op st.world in
      (r.0, record st { world = r.1; trace = st.trace ++ sent op ∷ [] })

  -- `send_sync` reports success whatever the service answers.
  abbrev pub ignore_answer : SendResult → SendResult
  ignore_answer raised = raised
  ignore_answer (answered b) = answered true

  abbrev pub as_sync : SendResult × RunState W → SendResult × RunState W
  as_sync (r, st) = (ignore_answer r, st)

  -- `_dispatch_op`
  unfoldable pub dispatch_op : Option Sender → WireOp → RunState W → SendResult × RunState W
  dispatch_op none op st = (answered false, st)
  dispatch_op (some send_sync) op st = as_sync (call_sender op st)
  dispatch_op (some send_startblock) op st =
      if senders.has_startblock then call_sender op st else (answered false, st)
  dispatch_op (some other) op st = call_sender op st

  abbrev pub and_fold : Bool → SendResult → SendResult
  and_fold before raised = raised
  and_fold before (answered b) = answered (before && b)

  -- The next round of the loop, unless an exception leaves it.
  abbrev pub and_then :
      SendResult × RunState W → (RunState W → SendResult × RunState W) → SendResult × RunState W
  and_then (raised, st) next = (raised, st)
  and_then (answered b, st) next = (and_fold b (next st).0, (next st).1)

  -- The loop over the ops of a plan.
  unfoldable pub send_ops : List WireOp → RunState W → SendResult × RunState W
  unfolding dispatch_op
  send_ops [] st = (answered true, st)
  send_ops (op ∷ ops) st = and_then (dispatch_op op.sender op st) (λ st1. send_ops ops st1)

  abbrev pub conclude :
      ℕ → ActionKind → List WireOp → SendResult × RunState W → ActionResult × RunState W
  conclude index kind ops (raised, st) = (failed_result index kind exception_raised false, st)
  conclude index kind ops (answered all_ok, st) = (sent_result index kind ops all_ok, st)

  -- `_execute_plan`, and the handler of `_dispatch` for an exception in it.
  unfoldable pub execute_plan :
      ℕ → ActionKind → ActionDispatchPlan → RunState W → ActionResult × RunState W
  unfolding send_ops sent_result
  execute_plan index kind plan st =
      if plan.degraded
      then (failed_result index kind (degraded_reason plan.error) true, st)
      else conclude index kind plan.ops (send_ops plan.ops st)

  abbrev pub execute_planned :
      ℕ → ActionKind → Result ActionDispatchPlan → RunState W → ActionResult × RunState W
  execute_planned index kind (err e) st = (failed_result index kind exception_raised false, st)
  execute_planned index kind (ok plan) st = execute_plan index kind plan st

  -- `_plan_and_execute` and `_run_offset_group`
  unfoldable pub plan_and_execute : ℕ → Action → RunState W → ActionResult × RunState W
  unfolding execute_plan plan_action
  plan_and_execute index action st =
      execute_planned index (kind_of_action action)
        (plan_action inputs.known_group_ids inputs.rl_preset_lookup inputs.device_lookup none
          action)
        st

  -- `_dispatch`
  unfoldable pub dispatch : ℕ → Action → RunState W → ActionResult × RunState W
  unfolding plan_and_execute execute_plan plan_sync
  dispatch index (delay ms) st = (
    record { index = index; kind = kind_delay; succeeded = true; error = none; degraded = false },
    record st { trace = st.trace ++ slept ms ∷ [] },
  )
  dispatch index sync st = execute_plan index kind_sync plan_sync st
  dispatch index (offset_group target offset children) st =
      plan_and_execute index (offset_group target offset children) st
  dispatch index (effect a) st = plan_and_execute index (effect a) st
  dispatch index unknown_kind st = (failed_result index kind_unknown unknown_kind_result false, st)

  abbrev pub emit : ℕ → Status → RunState W → RunState W
  emit index status st = record st {
    progress = st.progress ++ record { at_index = index; status = status } ∷ [];
  }

  abbrev pub terminal : ActionResult → Status
  terminal r =
      if r.degraded then degraded_status else if r.succeeded then succeeded_status else error_status

  -- The placeholders for the actions after an abort.
  unfoldable pub skip_rest : ℕ → List Action → RunState W → List ActionResult × RunState W
  skip_rest index [] st = ([], st)
  skip_rest index (action ∷ rest) st =
      let later = skip_rest (suc index) rest (emit index skipped_status st) in
      (failed_result index (kind_of_action action) skipped_aborted false ∷ later.0, later.1)

  abbrev pub Run : Type 0
  Run = List ActionResult × Option ℕ × RunState W

  abbrev pub prepend : ActionResult → Run → Run
  prepend r (rs, aborted, st) = (r ∷ rs, aborted, st)

  abbrev pub aborts : Bool → ActionResult → Bool
  aborts stop r = stop && (not r.succeeded && not r.degraded)

  abbrev pub abort : ℕ → ActionResult → List ActionResult × RunState W → Run
  abort index r (skipped, st) = (r ∷ skipped, some index, st)

  -- One action, with the events before and after it.
  unfoldable pub step : ℕ → Action → RunState W → ActionResult × RunState W
  unfolding dispatch
  step index action st =
      let done = dispatch index action (emit index running st) in
      (done.0, emit index (terminal done.0) done.1)

  -- The loop of `run`, from an index.
  unfoldable pub run_actions : Bool → ℕ → List Action → RunState W → Run
  unfolding step skip_rest
  run_actions stop index [] st = ([], none, st)
  run_actions stop index (action ∷ rest) st =
      let done = step index action st in
      let next = run_actions stop (suc index) rest done.1 in
      if aborts stop done.0
      then abort index done.0 (skip_rest (suc index) rest done.1)
      else prepend done.0 next

  abbrev pub finish : Run → SceneRunResult × RunState W
  finish (rs, aborted, st) = (
    record { all_succeeded = all (λ r. r.succeeded) rs; results = rs; aborted_at_index = aborted },
    st,
  )

  unfoldable pub run : Scene → RunState W → SceneRunResult × RunState W
  unfolding run_actions
  run scene st = finish (run_actions scene.stop_on_error 0 scene.scene_actions st)
