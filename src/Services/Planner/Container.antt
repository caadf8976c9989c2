-- ===== src/Services/Planner/Container.antt =====
-- The two phases of an offset_group container.
use gatecontrol_lora.Domain.OffsetFormula.{OffsetSpec, spec_mode}
use gatecontrol_lora.Services.Optimizer.{ContainerTarget, OptimizerPlan, plan_offset_setup, is_none}
use gatecontrol_lora.Prelude.{
  ℕ, bind_value, All, All-append, Bool, List, Result, [], err, false, if◌then◌else◌, inl, inr, map,
  none, ok, refl, some, subst, suc, sym, true, ◌∷◌, ◌≡◌, Option, ap, not, ◌++◌, ◌∙◌, ◌||◌, ◌⊎◌,
  arith,
}
use gatecontrol_lora.Domain.Flags.{FlagMapping}
use gatecontrol_lora.Domain.Params.{EffectParams}
use gatecontrol_lora.Services.WireOp.{
  WireOp, ActionKind, Payload, TargetKwargs, effect_payload, offset_payload, sync_payload,
}
use gatecontrol_lora.Services.Action.{
  Action, EffectAction, Actions, cons, delay, effect, nil, offset_group, sync, unknown_kind,
}
use gatecontrol_lora.Services.EffectPlan.{
  plan_effect, ActionDispatchPlan, DeviceLookup, Materialised, PresetLookup, Resolved, effect_plan,
  materialize, merge_flags, plan_resolved, resolve_target,
}
use gatecontrol_lora.Services.Planner.{
  ChildPlans, plan_children, tag_child, or_broadcast, or_no_offset, plan_action, tag_offset,
}
use gatecontrol_lora.Services.Planner.Effects.{
  effect_ops, All-map, effect_plan_lem, emitted, merged_params,
}

-- The op carries an effect whose `offset_mode` flag is set, or stripped, as `force` says.
abbrev pub CarriesOffset : Bool → Payload → Type 0
CarriesOffset force (effect_payload params target) =
    params.user_flags.raw_offset_mode ≡ (if force then some true else none)
CarriesOffset force (offset_payload _) = ⊥
CarriesOffset force (sync_payload _ _) = ⊥

abbrev pub Forced : Bool → WireOp → Type 0
Forced force op = CarriesOffset force op.payload

-- All children are effects, as the validator demands.
unfoldable pub are_effects : Actions → Bool
are_effects nil = true
are_effects (cons (effect a) rest) = are_effects rest
are_effects (cons (delay _) rest) = false
are_effects (cons sync rest) = false
are_effects (cons (offset_group _ _ _) rest) = false
are_effects (cons unknown_kind rest) = false

emitted-Forced :
    (a : EffectAction) (force : Bool) (targets : List TargetKwargs) (base : EffectParams)
    (persisted : FlagMapping)
    → All (Forced force) (emitted a (some force) targets base persisted).ops
unfolding merge_flags
emitted-Forced a force targets base persisted =
    let params = merged_params a (some force) base persisted in
    let e = effect_ops a.effect_kind params in
    All-map (Forced force) e.op_for targets
      (λ t. subst (CarriesOffset force) (sym (e.payload_of t)) refl)

abbrev OnPlan : Bool → Result ActionDispatchPlan → Type 0
OnPlan force (ok plan) = All (Forced force) plan.ops
OnPlan force (err e) = Unit {0}

effect_plan_Forced :
    (a : EffectAction) (force : Bool) (targets : List TargetKwargs) (m : Materialised)
    → OnPlan force (effect_plan a (some force) targets m)
effect_plan_Forced a force targets (inl e) = unfold effect_plan in tt
effect_plan_Forced a force targets (inr (base, persisted)) =
    subst (OnPlan force) (sym (effect_plan_lem a (some force) targets base persisted))
      (emitted-Forced a force targets base persisted)

resolved_Forced :
    (a : EffectAction) (force : Bool) (presets : PresetLookup) (r : Resolved)
    → OnPlan force (plan_resolved a (some force) presets r)
resolved_Forced a force presets none = tt
resolved_Forced a force presets (some targets) =
    effect_plan_Forced a force targets (materialize a.effect_kind a.params presets)

plan_effect-Forced :
    (presets : PresetLookup) (devices : DeviceLookup) (a : EffectAction) (force : Bool)
    {plan : ActionDispatchPlan}
    → plan_effect presets devices (some force) a ≡ ok plan
    → All (Forced force) plan.ops
unfolding plan_effect
plan_effect-Forced presets devices a force e =
    subst (OnPlan force) e (resolved_Forced a force presets (resolve_target a.target devices))

tag_Forced :
    (force : Bool) (index : ℕ) (kind : ActionKind) (ops : List WireOp)
    → All (Forced force) ops
    → All (Forced force) (map (tag_child index kind) ops)
tag_Forced force index kind [] h = tt
tag_Forced force index kind (op ∷ ops) (hop, h) = (hop, tag_Forced force index kind ops h)

abbrev ops_of : Result ActionDispatchPlan → List WireOp
ops_of (ok plan) = plan.ops
ops_of (err e) = []

abbrev kid_ops_of : Result ChildPlans → List WireOp
kid_ops_of (ok kids) = kids.child_ops
kid_ops_of (err e) = []

abbrev OnKids : Bool → Result ChildPlans → Type 0
OnKids force (ok kids) = All (Forced force) kids.child_ops
OnKids force (err e) = Unit {0}

module _ (known : List ℕ) (presets : PresetLookup) (devices : DeviceLookup) (force : Bool) where
  children_Forced :
      (children : Actions) (index : ℕ) {kids : ChildPlans}
      → are_effects children ≡ true
      → plan_children known presets devices force index children ≡ ok kids
      → All (Forced force) kids.child_ops
  unfolding plan_children are_effects
  children_Forced nil index h e = subst (OnKids force) e tt
  children_Forced (cons (effect a) rest) index h e =
      let (plan, planned_child, e') = bind_value _ (plan_effect presets devices (some force) a) e in
      let (kids, planned_kids, e'') =
        bind_value _ (plan_children known presets devices force (suc index) rest) e' in
      subst (OnKids force) e'' (
        All-append (Forced force) (map (tag_child index plan.kind) plan.ops) kids.child_ops
          (tag_Forced force index plan.kind plan.ops
            (plan_effect-Forced presets devices a force planned_child))
          (children_Forced rest (suc index) h planned_kids))
  children_Forced (cons (delay _) rest) index h e = cc
  children_Forced (cons sync rest) index h e = cc
  children_Forced (cons (offset_group _ _ _) rest) index h e = cc
  children_Forced (cons unknown_kind rest) index h e = cc

-- The packets of the children, from one index on: those of the plan of each child, one after
-- the other.
unfoldable pub ChildPackets :
    PresetLookup → DeviceLookup → Bool → ℕ → Actions → List WireOp → Type 0
ChildPackets presets devices force index nil ops = ops ≡ []
ChildPackets presets devices force index (cons (effect a) rest) ops =
    (plan : ActionDispatchPlan) × (later : List WireOp) × (plan_effect presets devices (some force)
        a
      ≡ ok plan)
    × (ops ≡ map (tag_child index plan.kind) plan.ops ++ later)
    × ChildPackets presets devices force (suc index) rest later
ChildPackets presets devices force index (cons (delay _) rest) ops = ⊥
ChildPackets presets devices force index (cons sync rest) ops = ⊥
ChildPackets presets devices force index (cons (offset_group _ _ _) rest) ops = ⊥
ChildPackets presets devices force index (cons unknown_kind rest) ops = ⊥

-- A child is an effect whose target cannot be resolved.
unfoldable pub HasUnresolved : DeviceLookup → Actions → Type 0
HasUnresolved devices nil = ⊥
HasUnresolved devices (cons (effect a) rest) =
    (resolve_target a.target devices ≡ none) ⊎ HasUnresolved devices rest
HasUnresolved devices (cons (delay _) rest) = HasUnresolved devices rest
HasUnresolved devices (cons sync rest) = HasUnresolved devices rest
HasUnresolved devices (cons (offset_group _ _ _) rest) = HasUnresolved devices rest
HasUnresolved devices (cons unknown_kind rest) = HasUnresolved devices rest

abbrev degraded_of : Result ActionDispatchPlan → Bool
degraded_of (ok plan) = plan.degraded
degraded_of (err e) = false

abbrev any_of : Result ChildPlans → Bool
any_of (ok kids) = kids.any_degraded
any_of (err e) = false

or_true : (a b : Bool) → b ≡ true → (a || b) ≡ true
or_true a b h = ground arith

or_first : (a b : Bool) → a ≡ true → (a || b) ≡ true
or_first a b h = ground arith

module _ (known : List ℕ) (presets : PresetLookup) (devices : DeviceLookup) (force : Bool) where
  children_Packets :
      (children : Actions) (index : ℕ) {kids : ChildPlans}
      → are_effects children ≡ true
      → plan_children known presets devices force index children ≡ ok kids
      → ChildPackets presets devices force index children kids.child_ops
  unfolding plan_children are_effects ChildPackets
  children_Packets nil index h e = sym (ap kid_ops_of e)
  children_Packets (cons (effect a) rest) index h e =
      let (plan, planned_child, e') = bind_value _ (plan_effect presets devices (some force) a) e in
      let (kids, planned_kids, e'') =
        bind_value _ (plan_children known presets devices force (suc index) rest) e' in
      (
        plan,
        kids.child_ops,
        planned_child,
        sym (ap kid_ops_of e''),
        children_Packets rest (suc index) h planned_kids,
      )
  children_Packets (cons (delay _) rest) index h e = cc
  children_Packets (cons sync rest) index h e = cc
  children_Packets (cons (offset_group _ _ _) rest) index h e = cc
  children_Packets (cons unknown_kind rest) index h e = cc

  -- The plan of an unresolved effect is degraded.
  unresolved_degraded :
      (a : EffectAction) {plan : ActionDispatchPlan}
      → resolve_target a.target devices ≡ none
      → plan_effect presets devices (some force) a ≡ ok plan
      → plan.degraded ≡ true
  unfolding plan_effect
  unresolved_degraded a lost e =
      sym (ap degraded_of e) ∙ ap (λ r. degraded_of (plan_resolved a (some force) presets r)) lost

  -- A degraded plan of the later children degrades all of them.
  later_degraded :
      (child : Action) (rest : Actions) (index : ℕ) {kids : ChildPlans}
      → ((others : ChildPlans)
          → plan_children known presets devices force (suc index) rest ≡ ok others
          → others.any_degraded ≡ true)
      → plan_children known presets devices force index (cons child rest) ≡ ok kids
      → kids.any_degraded ≡ true
  unfolding plan_children
  later_degraded child rest index h e =
      let (plan, planned_child, e') =
        bind_value _ (plan_action known presets devices (some force) child) e in
      let (kids, planned_kids, e'') =
        bind_value _ (plan_children known presets devices force (suc index) rest) e' in
      sym (ap any_of e'') ∙ or_true plan.degraded kids.any_degraded (h kids planned_kids)

  children_degraded :
      (children : Actions) (index : ℕ) {kids : ChildPlans}
      → HasUnresolved devices children
      → plan_children known presets devices force index children ≡ ok kids
      → kids.any_degraded ≡ true
  unfolding plan_children HasUnresolved plan_action
  children_degraded nil index h e = absurd h
  children_degraded (cons (effect a) rest) index h e =
      let (plan, planned_child, e') = bind_value _ (plan_effect presets devices (some force) a) e in
      let (kids, planned_kids, e'') =
        bind_value _ (plan_children known presets devices force (suc index) rest) e' in
      sym (ap any_of e'') ∙ elim h [
        | inl lost ↦
            or_first plan.degraded kids.any_degraded (unresolved_degraded a lost planned_child)
        | inr later ↦
            or_true plan.degraded kids.any_degraded
              (children_degraded rest (suc index) later planned_kids)
      ]
  children_degraded (cons (delay ms) rest) index h e =
      later_degraded (delay ms) rest index (λ others k. children_degraded rest (suc index) h k) e
  children_degraded (cons sync rest) index h e =
      later_degraded sync rest index (λ others k. children_degraded rest (suc index) h k) e
  children_degraded (cons (offset_group t o c) rest) index h e =
      later_degraded (offset_group t o c) rest index
        (λ others k. children_degraded rest (suc index) h k) e
  children_degraded (cons unknown_kind rest) index h e =
      later_degraded unknown_kind rest index (λ others k. children_degraded rest (suc index) h k) e

-- A container with a child that cannot be resolved has a degraded plan.
pub plan_action-degraded :
    (known : List ℕ) (presets : PresetLookup) (devices : DeviceLookup) (force : Option Bool)
    (target : Option ContainerTarget) (offset : Option OffsetSpec) (children : Actions)
    {plan : ActionDispatchPlan}
    → HasUnresolved devices children
    → plan_action known presets devices force (offset_group target offset children) ≡ ok plan
    → plan.degraded ≡ true
unfolding plan_action
plan_action-degraded known presets devices force target offset children h e =
    let mode = spec_mode (or_no_offset offset) in
    let (setup, set_up, e') =
      bind_value _ (plan_offset_setup (or_broadcast target) (or_no_offset offset) known) e in
    let (kids, planned_kids, e'') =
      bind_value _ (plan_children known presets devices (not (is_none mode)) 0 children) e' in
    sym (ap degraded_of e'')
    ∙ children_degraded known presets devices (not (is_none mode)) children 0 h planned_kids

-- A container whose children are all effects: its packets are the optimizer's offset sequence,
-- followed by those of the children's own plans, all of them, in the order of the children and each
-- tagged with its child's index, and every child packet has the `offset_mode` flag set if the
-- container's mode is not "none", and stripped if it is, whatever preset and override say.
pub plan_action-offset_group :
    (known : List ℕ) (presets : PresetLookup) (devices : DeviceLookup) (force : Option Bool)
    (target : Option ContainerTarget) (offset : Option OffsetSpec) (children : Actions)
    {plan : ActionDispatchPlan}
    → are_effects children ≡ true
    → plan_action known presets devices force (offset_group target offset children) ≡ ok plan
    → (setup : OptimizerPlan) × (rest : List WireOp) × (plan_offset_setup
          (or_broadcast target)
          (or_no_offset offset)
          known
        ≡ ok setup)
      × (plan.ops ≡ map tag_offset setup.ops ++ rest)
      × ChildPackets presets devices
          (not (is_none (spec_mode (or_no_offset offset))))
          0
          children
          rest
      × All (Forced (not (is_none (spec_mode (or_no_offset offset))))) rest
unfolding plan_action
plan_action-offset_group known presets devices force target offset children h e =
    let mode = spec_mode (or_no_offset offset) in
    let (setup, set_up, e') =
      bind_value _ (plan_offset_setup (or_broadcast target) (or_no_offset offset) known) e in
    let (kids, planned_kids, e'') =
      bind_value _ (plan_children known presets devices (not (is_none mode)) 0 children) e' in
    (
      setup,
      kids.child_ops,
      set_up,
      sym (ap ops_of e''),
      children_Packets known presets devices (not (is_none mode)) children 0 h planned_kids,
      children_Forced known presets devices (not (is_none mode)) children 0 h planned_kids,
    )
