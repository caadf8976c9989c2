-- ===== src/Services/Runner/Sending.antt =====
-- What racelink/services/scene_runner_service.py sends for a plan.
use gatecontrol_lora.Prelude.{
  ℕ, All, Bool, List, Option, [], append-nil, false, is_some, map, none, refl, some, true, ◌++◌,
  ◌∷◌, ◌≡◌, append_assoc, arith, length, suc, ◌&&◌, ◌+◌, ◌∙◌,
}
use gatecontrol_lora.Services.WireOp.{
  WireOp, Sender, send_offset, send_startblock, send_sync, send_wled_control, send_wled_preset,
  ActionKind,
}
use gatecontrol_lora.Services.EffectPlan.{ActionDispatchPlan}
use gatecontrol_lora.Services.Runner.{
  Senders, PlannerInputs, RunState, SendResult, and_then, answered, dispatch_op, raised, send_ops,
  sent, Trace, conclude, execute_plan, slept,
}

abbrev pub is_raised : SendResult → Bool
is_raised raised = true
is_raised (answered b) = false

-- No sender raises, and the controller has the startblock method.
abbrev pub IsReliable : {W : Type 0} → Senders W → Type 0
IsReliable {W} senders =
    ((op : WireOp) (w : W) → is_raised (senders.call op w).0 ≡ false)
    × (senders.has_startblock ≡ true)

answer_of : (r : SendResult) → is_raised r ≡ false → (b : Bool) × (r ≡ answered b)
answer_of raised h = cc
answer_of (answered b) h = (b, refl)

module _ {W : Type 0} (senders : Senders W) (inputs : PlannerInputs)
    (reliable : IsReliable senders) where
  abbrev Sent : WireOp → RunState W → SendResult × RunState W → Type 0
  Sent op st r = (b : Bool) × (r.0 ≡ answered b) × (r.1.trace ≡ st.trace ++ sent op ∷ [])

  dispatch_op-Sent :
      (s : Sender) (op : WireOp) (st : RunState W)
      → Sent op st (dispatch_op senders inputs (some s) op st)
  unfolding dispatch_op
  dispatch_op-Sent send_sync op st =
      let (b, e) = answer_of _ (reliable.0 op st.world) in (true, rw e refl, refl)
  dispatch_op-Sent send_startblock op st =
      let (b, e) = answer_of _ (reliable.0 op st.world) in (b, rw reliable.1 e, rw reliable.1 refl)
  dispatch_op-Sent send_offset op st =
      let (b, e) = answer_of _ (reliable.0 op st.world) in (b, e, refl)
  dispatch_op-Sent send_wled_preset op st =
      let (b, e) = answer_of _ (reliable.0 op st.world) in (b, e, refl)
  dispatch_op-Sent send_wled_control op st =
      let (b, e) = answer_of _ (reliable.0 op st.world) in (b, e, refl)

  named_op-Sent :
      (s : Option Sender) (op : WireOp) (st : RunState W)
      → is_some s ≡ true
      → Sent op st (dispatch_op senders inputs s op st)
  named_op-Sent none op st h = cc
  named_op-Sent (some s) op st h = dispatch_op-Sent s op st

  -- Every op of the list is sent, in order, also after one that has failed.
  pub send_ops_lem :
      (ops : List WireOp) (st : RunState W)
      → All (λ op. is_some op.sender ≡ true) ops
      → (b : Bool) × ((send_ops senders inputs ops st).0 ≡ answered b)
        × ((send_ops senders inputs ops st).1.trace ≡ st.trace ++ map sent ops)
  unfolding send_ops
  send_ops_lem [] st h = (true, refl, rw append-nil refl)
  send_ops_lem (op ∷ ops) st (h, hs) =
      go _ (named_op-Sent op.sender op st h) (λ st1. send_ops_lem ops st1 hs)
    where
      go :
          (r : SendResult × RunState W)
          → Sent op st r
          → ((st1 : RunState W)
              → (b : Bool) × ((send_ops senders inputs ops st1).0 ≡ answered b)
                × ((send_ops senders inputs ops st1).1.trace ≡ st1.trace ++ map sent ops))
          → (b : Bool) × ((and_then senders inputs r (λ st1. send_ops senders inputs ops st1)).0
              ≡ answered b)
            × ((and_then senders inputs r (λ st1. send_ops senders inputs ops st1)).1.trace
                ≡ st.trace ++ sent op ∷ map sent ops)
      go (raised, st1) (b, bad, t) ih = cc
      go (answered c, st1) (b, a, t) ih =
          let (d, f, u) = ih st1 in
          (c && d, rw f refl, u ∙ rw t (append_assoc st.trace (sent op ∷ []) (map sent ops)))

-- How many packets a trace has.
abbrev pub sends : List Trace → ℕ
sends [] = 0
sends (sent op ∷ rest) = suc (sends rest)
sends (slept ms ∷ rest) = sends rest

pub sends-append : (xs ys : List Trace) → sends (xs ++ ys) ≡ sends xs + sends ys
sends-append [] ys = omega arith
sends-append (sent op ∷ xs) ys = omega (arith, sends-append xs ys)
sends-append (slept ms ∷ xs) ys = omega (arith, sends-append xs ys)

pub sends-sent : (ops : List WireOp) → sends (map sent ops) ≡ length ops
sends-sent [] = refl
sends-sent (op ∷ ops) = omega (arith, sends-sent ops)

module _ {W : Type 0} (senders : Senders W) (inputs : PlannerInputs) where
  -- A degraded plan is reported, and nothing of it is sent.
  pub execute_plan-degraded :
      (index : ℕ) (kind : ActionKind) (plan : ActionDispatchPlan) (st : RunState W)
      → plan.degraded ≡ true
      → (execute_plan senders inputs index kind plan st).1 ≡ st
  unfolding execute_plan
  execute_plan-degraded index kind plan st h = rw h refl

  -- A plan that is not degraded is sent as it is.
  pub sends-execute_plan :
      (index : ℕ) (kind : ActionKind) (plan : ActionDispatchPlan) (st : RunState W)
      → IsReliable senders
      → plan.degraded ≡ false
      → All (λ op. is_some op.sender ≡ true) plan.ops
      → sends (execute_plan senders inputs index kind plan st).1.trace
        ≡ sends st.trace + length plan.ops
  unfolding execute_plan
  sends-execute_plan index kind plan st reliable h named = rw h (
      go (send_ops senders inputs plan.ops st)
        (send_ops_lem senders inputs reliable plan.ops st named))
    where
      go :
          (r : SendResult × RunState W)
          → (b : Bool) × (r.0 ≡ answered b) × (r.1.trace ≡ st.trace ++ map sent plan.ops)
          → sends (conclude senders inputs index kind plan.ops r).1.trace
            ≡ sends st.trace + length plan.ops
      go (raised, st1) (b, bad, t) = cc
      go (answered c, st1) (b, a, t) =
          rw t (sends-append st.trace (map sent plan.ops) ∙ rw (sends-sent plan.ops) refl)
