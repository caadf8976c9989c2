-- ===== src/Services/Scenes/Validate/Children.antt =====
-- The children and the target that racelink/services/scenes_service.py accepts in a container.
use gatecontrol_lora.Services.Scenes.Targets.{
  no_device, container_target, child_target, canonical_target,
}
use gatecontrol_lora.Services.Scenes.Validate.Sound.{
  child_target-IsWithin, canonical_target-IsTarget, effect_of-target, AllActions, is_flagged,
  IsChild, count_actions, IsContainerTarget, IsTarget,
}
use gatecontrol_lora.Services.Scenes.Containers.{
  action_list, canonical_child, child_of_kind, canonical_children, effect_of, too_many,
  action_kind_of, canonical_flags_override,
}
use gatecontrol_lora.Services.Action.{
  Action, Actions, to_broadcast, to_groups, to_device, other_target, EffectKind, rl_preset,
  wled_preset, wled_control, Target,
}
use gatecontrol_lora.Services.WireOp.{
  kind_rl_preset, kind_wled_preset, kind_wled_control, kind_startblock, kind_sync, kind_delay,
  kind_offset_group, kind_unknown, ActionKind,
}
use gatecontrol_lora.Services.Optimizer.{ContainerTarget, groups}
use gatecontrol_lora.Services.Scenes.Raw.{
  Field, missing, null, wrong_shape, given, RawEffect, RawTarget,
}
use gatecontrol_lora.Prelude.{
  traverse-All, ℕ, All, Bool-cases, List, [], arith, false, inl, inr, ok, true, ◌∷◌, ◌≡◌, ◌≤◌,
  bind_value, err, value_error, if◌then◌else◌, sym, length, ok-injective, subst, Option, none, some,
  refl, traverse, Result, ltb, same, ◌>>=◌,
}

All-action_list :
    (P : Action → Type 0) (list : List Action)
    → All P list
    → AllActions P (action_list list) × (count_actions (action_list list) ≡ length list)
All-action_list P [] h = (tt, refl)
All-action_list P (a ∷ list) (h, hs) =
    let (ps, n) = All-action_list P list hs in ((h, ps), omega (arith, n))

flagged-IsChild :
    (kind : EffectKind) (parents : Option (List ℕ)) (raw : RawEffect) (a : Action)
    → is_flagged kind ≡ true
    → effect_of kind
        (child_target parents raw.raw_target)
        raw.raw_params
        (canonical_flags_override raw.raw_flags)
      ≡ ok a
    → IsChild parents a
flagged-IsChild kind parents raw a f h =
    let (e, same, found, flags, k) =
      effect_of-target kind (child_target parents raw.raw_target) raw.raw_params
        (canonical_flags_override raw.raw_flags) a h in
    let (t, w) = child_target-IsWithin parents raw.raw_target e.target found in
    subst (IsChild parents) same (t, w, rw k f)

child_of_kind-IsChild :
    (kind : ActionKind) (parents : Option (List ℕ)) (raw : RawEffect) (a : Action)
    → child_of_kind kind parents raw ≡ ok a
    → IsChild parents a
child_of_kind-IsChild kind_rl_preset parents raw a h =
    flagged-IsChild rl_preset parents raw a refl h
child_of_kind-IsChild kind_wled_preset parents raw a h =
    flagged-IsChild wled_preset parents raw a refl h
child_of_kind-IsChild kind_wled_control parents raw a h =
    flagged-IsChild wled_control parents raw a refl h
child_of_kind-IsChild kind_startblock parents raw a h = cc
child_of_kind-IsChild kind_sync parents raw a h = cc
child_of_kind-IsChild kind_delay parents raw a h = cc
child_of_kind-IsChild kind_offset_group parents raw a h = cc
child_of_kind-IsChild kind_unknown parents raw a h = cc

canonical_child-IsChild :
    (parents : Option (List ℕ)) (raw : Option RawEffect) (a : Action)
    → canonical_child parents raw ≡ ok a
    → IsChild parents a
unfolding canonical_child
canonical_child-IsChild parents none a h = cc
canonical_child-IsChild parents (some raw) a h =
    child_of_kind-IsChild (action_kind_of raw.raw_kind) parents raw a h

-- A list that is not too long, whose elements are read one by one.
abbrev pub limited : {A : Type 0} → ℕ → (A → Result Action) → List A → Result Actions
limited n f raws =
    if ltb n (length raws)
    then err value_error
    else (do list ← traverse f raws; ok (action_list list))

pub limited-All :
    {A : Type 0} (n : ℕ) (f : A → Result Action) (P : Action → Type 0)
    → ((x : A) (a : Action) → f x ≡ ok a → P a)
    → (raws : List A) (actions : Actions) → limited n f raws ≡ ok actions
    → AllActions P actions × (count_actions actions ≤ n)
limited-All n f P each raws actions h = elim (Bool-cases (ltb n (length raws))) [
  | inl e ↦ let bad : err value_error ≡ ok actions = rw e at h in cc
  | inr e ↦
      let (list, g, r) = bind_value _ (traverse f raws) (rw e at h) in
      let (ps, m) = traverse-All f P each raws list g in
      let (qs, k) = All-action_list P list ps in
      subst (λ x. AllActions P x × (count_actions x ≤ n)) (ok-injective r)
        (qs, ground (arith, e, m, k))
]

pub canonical_children-IsChild :
    (parents : Option (List ℕ)) (raw : Field (List (Option RawEffect))) (children : Actions)
    → canonical_children parents raw ≡ ok children
    → AllActions (IsChild parents) children × (count_actions children ≤ 16)
unfolding canonical_children
canonical_children-IsChild parents missing children h =
    subst (λ x. AllActions (IsChild parents) x × (count_actions x ≤ 16)) (ok-injective h)
      (tt, omega arith)
canonical_children-IsChild parents null children h =
    subst (λ x. AllActions (IsChild parents) x × (count_actions x ≤ 16)) (ok-injective h)
      (tt, omega arith)
canonical_children-IsChild parents (wrong_shape made) children h = cc
canonical_children-IsChild parents (given raws) children h =
    limited-All 16 (canonical_child parents) (IsChild parents) (canonical_child-IsChild parents)
      raws children h

pub container_target-IsContainerTarget :
    (raw : Field RawTarget) (target : ContainerTarget)
    → container_target raw ≡ ok target
    → too_many target ≡ false
    → IsContainerTarget target
unfolding container_target
container_target-IsContainerTarget raw target h few =
    let (found, e, r) = bind_value _ (canonical_target raw) h in
    go found target (canonical_target-IsTarget raw found e) r few
  where
    go :
        (found : Target) (target : ContainerTarget)
        → IsTarget found
        → no_device found ≡ ok target
        → too_many target ≡ false
        → IsContainerTarget target
    go to_broadcast target t r few = subst IsContainerTarget (ok-injective r) tt
    go (to_groups ids) target t r few =
        subst IsContainerTarget (ok-injective r)
          (t, small (subst (λ x. too_many x ≡ false) (sym (ok-injective r)) few))
      where
        small : too_many (groups ids) ≡ false → length ids ≤ 64
        small f = ground (arith, f)
    go (to_device addr) target t r few = cc
    go other_target target t r few = cc
