-- ===== src/Services/Scenes/Validate/Planned.antt =====
-- What racelink/services/scenes_service.py accepts, racelink/services/dispatch_planner.py can plan.
use gatecontrol_lora.Services.Planner.{plan_action}
use gatecontrol_lora.Services.Scenes.Validate.{canonical_actions}
use gatecontrol_lora.Services.Scenes.Containers.{ids_of}
use gatecontrol_lora.Services.EffectPlan.{PresetLookup, DeviceLookup, ActionDispatchPlan}
use gatecontrol_lora.Services.Action.{
  Action, Actions, nil, cons, delay, sync, offset_group, effect, unknown_kind,
}
use gatecontrol_lora.Services.Optimizer.{ContainerTarget, broadcast, groups, unsupported}
use gatecontrol_lora.Services.Scenes.Raw.{Field, RawAction}
use gatecontrol_lora.Services.Planner.Total.{
  is_plannable, are_plannable, plan_action_total, body_max, supported_target,
}
use gatecontrol_lora.Services.Scenes.Validate.Sound.{
  IsCanonical, IsChild, AllActions, IsContainerTarget,
}
use gatecontrol_lora.Services.Scenes.Validate.Kept.{canonical_actions-IsCanonical}
use gatecontrol_lora.Prelude.{
  ℕ, All, Bool, List, ok, true, ◌≡◌, ◌≤◌, Option, none, some, refl, is_some,
}

IsChild→plannable :
    (parents : Option (List ℕ)) (children : Actions)
    → AllActions (IsChild parents) children
    → are_plannable children ≡ true
unfolding is_plannable are_plannable
IsChild→plannable parents nil h = refl
IsChild→plannable parents (cons (effect a) rest) (h, hs) =
    rw (IsChild→plannable parents rest hs) refl
IsChild→plannable parents (cons (delay ms) rest) (h, hs) = absurd h
IsChild→plannable parents (cons sync rest) (h, hs) = absurd h
IsChild→plannable parents (cons unknown_kind rest) (h, hs) = absurd h
IsChild→plannable parents (cons (offset_group t o cs) rest) (h, hs) = absurd h

IsContainerTarget→supported :
    (t : ContainerTarget) → IsContainerTarget t → supported_target t ≡ true
IsContainerTarget→supported broadcast h = refl
IsContainerTarget→supported (groups ids) h = refl
IsContainerTarget→supported unsupported h = absurd h

IsCanonical→plannable : (a : Action) → IsCanonical a → is_plannable a ≡ true
unfolding is_plannable are_plannable
IsCanonical→plannable (delay ms) h = refl
IsCanonical→plannable sync h = refl
IsCanonical→plannable unknown_kind h = absurd h
IsCanonical→plannable (effect a) h = refl
IsCanonical→plannable (offset_group (some t) (some o) children) (h, known, kept, kids, few) =
    rw (IsContainerTarget→supported t h, known, IsChild→plannable (ids_of t) children kids) refl
IsCanonical→plannable (offset_group none o children) h = absurd h
IsCanonical→plannable (offset_group (some t) none children) h = absurd h

-- The planner returns a plan, and each packet of it fits the radio and names its sender.
abbrev pub IsPlanned : List ℕ → PresetLookup → DeviceLookup → Option Bool → Action → Type 0
IsPlanned known presets devices force action =
    (plan : ActionDispatchPlan) × (plan_action known presets devices force action ≡ ok plan)
    × All (λ op. (2 ≤ op.body_bytes) × (op.body_bytes ≤ body_max) × (is_some op.sender ≡ true))
        plan.ops

all-IsPlanned :
    (known : List ℕ) (presets : PresetLookup) (devices : DeviceLookup) (force : Option Bool)
    (actions : Actions)
    → AllActions IsCanonical actions
    → AllActions (IsPlanned known presets devices force) actions
all-IsPlanned known presets devices force nil h = tt
all-IsPlanned known presets devices force (cons a rest) (h, hs) = (
  plan_action_total known presets devices force a (IsCanonical→plannable a h),
  all-IsPlanned known presets devices force rest hs,
)

-- Whatever is sent or read as the actions of a scene, with effect parameters of the types that
-- their keys are for (numbers, truth values, colours of three numbers), which the store copies
-- without a look: if the store accepts it, the planner makes a plan of each of the actions,
-- whatever groups, presets and devices there are, and every packet of the plans has a body of 2 to 22 bytes, the radio's limit, and names the sender that the runner
-- shall call.
pub canonical_actions-IsPlanned :
    (raw : Field (List (Option RawAction))) (actions : Actions) (known : List ℕ)
    (presets : PresetLookup) (devices : DeviceLookup) (force : Option Bool)
    → canonical_actions raw ≡ ok actions
    → AllActions (IsPlanned known presets devices force) actions
canonical_actions-IsPlanned raw actions known presets devices force h =
    all-IsPlanned known presets devices force actions
      (canonical_actions-IsCanonical raw actions h).0
