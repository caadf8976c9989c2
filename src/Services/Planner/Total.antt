-- ===== src/Services/Planner/Total.antt =====
-- `plan_action_dispatch` returns a plan for every valid action, and every planned packet fits the
-- radio body.
use gatecontrol_lora.Protocol.Offset.{none_mode, explicit, linear, vshape, modulo, unknown, Mode}
use gatecontrol_lora.Protocol.Offset.{Mode}
use gatecontrol_lora.Prelude.{
  ℕ, All, All-append, Bool, List, Option, Result, [], arith, false, inl, inr, map, none, not, ok,
  refl, some, suc, true, ◌&&◌, ◌∷◌, ◌≡◌, ◌≤◌, is_some,
}
use gatecontrol_lora.Domain.Flags.{FlagMapping}
use gatecontrol_lora.Domain.Params.{EffectParams}
use gatecontrol_lora.Domain.OffsetFormula.{spec_mode}
use gatecontrol_lora.Services.WireOp.{WireOp, ActionKind, TargetKwargs}
use gatecontrol_lora.Services.Optimizer.{ContainerTarget, broadcast, groups, is_none, unsupported}
use gatecontrol_lora.Services.Optimizer.Plans.{IsKnown}
use gatecontrol_lora.Services.Optimizer.Total.{plan_offset_setup_total, IsSupported}
use gatecontrol_lora.Services.Action.{
  EffectAction, Action, Actions, cons, delay, effect, kind_of, nil, offset_group, sync,
  unknown_kind,
}
use gatecontrol_lora.Services.EffectPlan.{
  plan_effect, ActionDispatchPlan, DeviceLookup, Materialised, PresetLookup, Resolved,
  degraded_plan, effect_plan, materialize, plan_resolved, resolve_target, target_not_found,
}
use gatecontrol_lora.Services.Planner.{
  ChildPlans, add_child, container_plan, or_broadcast, or_no_offset, plan_action, plan_children,
  plan_sync, tag_child, tag_offset,
}
use gatecontrol_lora.Services.Planner.Effects.{
  effect_ops, All-map, effect_plan_lem, emitted, merged_params,
}

-- The containers in an action have a target and a mode that the validator admits.
abbrev pub supported_target : ContainerTarget → Bool
supported_target unsupported = false
supported_target _ = true

abbrev pub known_mode : Mode → Bool
known_mode unknown = false
known_mode _ = true

unfoldable mutual
  pub is_plannable : Action → Bool
  is_plannable (delay ms) = true
  is_plannable sync = true
  is_plannable (offset_group target offset children) =
      supported_target (or_broadcast target)
      && (known_mode (spec_mode (or_no_offset offset)) && are_plannable children)
  is_plannable (effect a) = true
  is_plannable unknown_kind = true

  pub are_plannable : Actions → Bool
  are_plannable nil = true
  are_plannable (cons child rest) = is_plannable child && are_plannable rest

-- `BODY_MAX` of racelink_proto.h.
abbrev pub body_max : ℕ
body_max = 22

abbrev pub Fits : WireOp → Type 0
Fits op = (2 ≤ op.body_bytes) × (op.body_bytes ≤ body_max) × (is_some op.sender ≡ true)

Fits-of :
    (op : WireOp) → (3 ≤ op.body_bytes) → op.body_bytes ≤ 21 → is_some op.sender ≡ true → Fits op
Fits-of op h k s = (omega arith, omega arith, s)

tag_offset-Fits :
    (ops : List WireOp)
    → All (λ op. (2 ≤ op.body_bytes) × (op.body_bytes ≤ 7)) ops
    → All Fits (map tag_offset ops)
tag_offset-Fits [] h = tt
tag_offset-Fits (op ∷ ops) ((low, high), h) =
    ((low, omega (arith, high), refl), tag_offset-Fits ops h)

tag_child-Fits :
    (index : ℕ) (kind : ActionKind) (ops : List WireOp)
    → All Fits ops
    → All Fits (map (tag_child index kind) ops)
tag_child-Fits index kind [] h = tt
tag_child-Fits index kind (op ∷ ops) (hop, h) = (hop, tag_child-Fits index kind ops h)

emitted-Fits :
    (a : EffectAction) (force : Option Bool) (targets : List TargetKwargs) (base : EffectParams)
    (persisted : FlagMapping)
    → All Fits (emitted a force targets base persisted).ops
emitted-Fits a force targets base persisted =
    let e = effect_ops a.effect_kind (merged_params a force base persisted) in
    All-map Fits e.op_for targets (λ t.
      Fits-of (e.op_for t) (rw (e.size_of t) e.size_low) (rw (e.size_of t) e.size_high)
        (e.named_sender t))

abbrev Answers : Result ActionDispatchPlan → Type 0
Answers r = (plan : ActionDispatchPlan) × (r ≡ ok plan) × All Fits plan.ops

effect_plan-Answers :
    (a : EffectAction) (force : Option Bool) (targets : List TargetKwargs) (m : Materialised)
    → Answers (effect_plan a force targets m)
effect_plan-Answers a force targets (inl e) =
    (degraded_plan (kind_of a.effect_kind) e, unfold effect_plan in refl, tt)
effect_plan-Answers a force targets (inr (base, persisted)) = (
  emitted a force targets base persisted,
  effect_plan_lem a force targets base persisted,
  emitted-Fits a force targets base persisted,
)

resolved-Answers :
    (a : EffectAction) (force : Option Bool) (presets : PresetLookup) (r : Resolved)
    → Answers (plan_resolved a force presets r)
resolved-Answers a force presets none =
    (degraded_plan (kind_of a.effect_kind) target_not_found, refl, tt)
resolved-Answers a force presets (some targets) =
    effect_plan-Answers a force targets (materialize a.effect_kind a.params presets)

plan_effect-Answers :
    (presets : PresetLookup) (devices : DeviceLookup) (force : Option Bool) (a : EffectAction)
    → Answers (plan_effect presets devices force a)
unfolding plan_effect
plan_effect-Answers presets devices force a =
    resolved-Answers a force presets (resolve_target a.target devices)

plan_sync_Fits : All Fits plan_sync.ops
unfolding plan_sync
plan_sync_Fits = ((omega arith, omega arith, refl), tt)

supported→IsSupported : (t : ContainerTarget) → supported_target t ≡ true → IsSupported t
supported→IsSupported broadcast h = tt
supported→IsSupported unsupported h = cc
supported→IsSupported (groups l) h = tt

known→IsKnown : (m : Mode) → known_mode m ≡ true → IsKnown m
known→IsKnown none_mode h = tt
known→IsKnown explicit h = tt
known→IsKnown linear h = tt
known→IsKnown vshape h = tt
known→IsKnown modulo h = tt
known→IsKnown unknown h = cc

and_parts : (a b : Bool) → (a && b) ≡ true → (a ≡ true) × (b ≡ true)
and_parts a b h = ground arith

abbrev ChildAnswers : Result ChildPlans → Type 0
ChildAnswers r = (kids : ChildPlans) × (r ≡ ok kids) × All Fits kids.child_ops

module _ (known : List ℕ) (presets : PresetLookup) (devices : DeviceLookup) where
  mutual
    unfolding plan_action plan_children is_plannable are_plannable

    action-Answers :
        (action : Action) (force : Option Bool)
        → is_plannable action ≡ true
        → Answers (plan_action known presets devices force action)
    action-Answers (delay ms) force h = (_, refl, tt)
    action-Answers sync force h = (plan_sync, refl, plan_sync_Fits)
    action-Answers (offset_group target offset children) force h =
        let mode = spec_mode (or_no_offset offset) in
        let (good_target, rest) = and_parts _ _ h in
        let (good_mode, good_children) = and_parts _ _ rest in
        let (setup, set_up, small) =
          plan_offset_setup_total (or_broadcast target) (or_no_offset offset) known
            (supported→IsSupported _ good_target) (known→IsKnown _ good_mode) in
        let (kids, planned_kids, fit) =
          children_answer children (not (is_none mode)) 0 good_children in
        (
          container_plan mode setup kids,
          rw (set_up, planned_kids) refl,
          All-append Fits (map tag_offset setup.ops) kids.child_ops
              (tag_offset-Fits setup.ops small) fit,
        )
    action-Answers (effect a) force h = plan_effect-Answers presets devices force a
    action-Answers unknown_kind force h = (_, refl, tt)

    children_answer :
        (children : Actions) (force : Bool) (index : ℕ)
        → are_plannable children ≡ true
        → ChildAnswers (plan_children known presets devices force index children)
    children_answer nil force index h = (_, refl, tt)
    children_answer (cons child rest) force index h =
        let (good_child, good_rest) = and_parts _ _ h in
        let (plan, planned_child, fit) = action-Answers child (some force) good_child in
        let (kids, planned_kids, fits) = children_answer rest force (suc index) good_rest in
        (
          add_child index plan kids,
          rw (planned_child, planned_kids) refl,
          All-append Fits (map (tag_child index plan.kind) plan.ops) kids.child_ops
              (tag_child-Fits index plan.kind plan.ops fit) fits,
        )

-- Every action whose containers are valid, at any depth of nesting, gets a plan (the planner
-- never raises), and every packet of the plan has a body of 2 to 22 bytes, the radio's limit, and
-- names the sender that the runner shall call.
pub plan_action_total :
    (known : List ℕ) (presets : PresetLookup) (devices : DeviceLookup) (force : Option Bool)
    (action : Action)
    → is_plannable action ≡ true
    → (plan : ActionDispatchPlan) × (plan_action known presets devices force action ≡ ok plan)
      × All
          (λ op. (2 ≤ op.body_bytes) × (op.body_bytes ≤ body_max) × (is_some op.sender ≡ true))
          plan.ops
plan_action_total known presets devices force action h =
    action-Answers known presets devices action force h
