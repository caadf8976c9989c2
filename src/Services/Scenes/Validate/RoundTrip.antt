-- ===== src/Services/Scenes/Validate/RoundTrip.antt =====
-- racelink/services/scenes_service.py: the actions that are written to the file and read again.
use gatecontrol_lora.Domain.Flags.{FlagMapping}
use gatecontrol_lora.Domain.Params.{EffectParams}
use gatecontrol_lora.Domain.OffsetFormula.{OffsetSpec}
use gatecontrol_lora.Services.Scenes.Validate.Blocks.{validate_int_ok, written_offset}
use gatecontrol_lora.Services.Scenes.Targets.{no_device, canonical_target, within_parent}
use gatecontrol_lora.Services.Scenes.Raw.{Field, given, RawAction, old_other, RawTarget}
use gatecontrol_lora.Services.Action.{
  Action, Actions, nil, cons, delay, sync, offset_group, effect, EffectKind, rl_preset, wled_preset,
  wled_control, startblock, Target, to_broadcast, to_groups, to_device, other_target, unknown_kind,
  EffectAction,
}
use gatecontrol_lora.Services.Optimizer.{ContainerTarget, broadcast, groups, unsupported}
use gatecontrol_lora.Services.Scenes.Containers.{
  canonical_children, canonical_child, canonical_offset_group, action_list, action_kind_of,
  canonical_flags_override, copied_params, ids_of, too_many, container_field,
}
use gatecontrol_lora.Services.Scenes.Validate.{
  canonical_action, canonical_actions, validate_action, legacy_target,
}
use gatecontrol_lora.Services.Scenes.Validate.Sound.{
  AreCanonical, IsCanonical, IsChild, AllActions, count_actions, IsContainerTarget, IsWithin,
  IsTarget, HasFlags,
}
use gatecontrol_lora.Services.Scenes.Validate.Kept.{canonical_actions-IsCanonical}
use gatecontrol_lora.Services.Scenes.Validate.Reload.{written_target_same}
use gatecontrol_lora.Services.Scenes.Validate.Written.{
  written_actions, written_action, written_children, written_effect, written_target, container_of,
  only_kind, plain_action,
}
use gatecontrol_lora.Services.Scenes.Targets.{child_target, container_target, within_parent}
use gatecontrol_lora.Prelude.{
  ℕ, List, Option, [], codes, none, some, pos, ◌∷◌, ◌≡◌, refl, false, ok, arith, ◌≤◌, length, ap,
  ltb, traverse, suc, same,
}

-- A target that is within the container's groups passes again.
within_same :
    (parents : Option (List ℕ)) (t : Target) → IsWithin parents t → within_parent parents t ≡ ok t
within_same none t h = refl
within_same (some ps) to_broadcast h = refl
within_same (some ps) (to_groups ids) h = rw h refl
within_same (some ps) (to_device addr) h = refl
within_same (some ps) other_target h = refl

child_target_same :
    (parents : Option (List ℕ)) (t : Target)
    → IsTarget t
    → IsWithin parents t
    → child_target parents (written_target t) ≡ ok t
unfolding child_target
child_target_same parents t h k = rw (written_target_same t h) (within_same parents t k)

abbrev effect_with : EffectKind → Target → EffectParams → FlagMapping → EffectAction
effect_with kind t params flags = record {
  effect_kind = kind;
  target = t;
  params = params;
  flags_override = flags;
}

child_same :
    (parents : Option (List ℕ)) (kind : EffectKind) (t : Target) (params : EffectParams)
    (flags : FlagMapping)
    → IsChild parents (effect (effect_with kind t params flags))
    → canonical_child parents (some (written_effect (effect_with kind t params flags)))
      ≡ ok (effect (effect_with kind t params flags))
unfolding canonical_child canonical_flags_override copied_params action_kind_of
child_same parents rl_preset t params flags (h, k, f) = rw (child_target_same parents t h k) refl
child_same parents wled_preset t params flags (h, k, f) = rw (child_target_same parents t h k) refl
child_same parents wled_control t params flags (h, k, f) = rw (child_target_same parents t h k) refl
child_same parents startblock t params flags (h, k, f) = cc

children_same :
    (parents : Option (List ℕ)) (children : Actions)
    → AllActions (IsChild parents) children
    → (kids : List Action) × (traverse (canonical_child parents) (written_children children)
        ≡ ok kids)
      × (action_list kids ≡ children)
      × (length (written_children children) ≡ count_actions children)
unfolding traverse
children_same parents nil h = ([], refl, refl, refl)
children_same parents (cons (effect a) rest) (h, hs) =
    let (kids, e, same, n) = children_same parents rest hs in
    (
      effect a ∷ kids,
      rw (child_same parents a.effect_kind a.target a.params a.flags_override h, e) refl,
      ap (cons (effect a)) same,
      ap suc n,
    )
children_same parents (cons (delay ms) rest) (h, hs) = absurd h
children_same parents (cons sync rest) (h, hs) = absurd h
children_same parents (cons unknown_kind rest) (h, hs) = absurd h
children_same parents (cons (offset_group t o cs) rest) (h, hs) = absurd h

children_field_same :
    (parents : Option (List ℕ)) (children : Actions)
    → AllActions (IsChild parents) children
    → count_actions children ≤ 16
    → canonical_children parents (given (written_children children)) ≡ ok children
unfolding canonical_children
children_field_same parents children h few =
    let (kids, e, same, n) = children_same parents children h in
    let fits : ltb 16 (length (written_children children)) ≡ false = ground (arith, n, few) in
    rw (fits, e, same) refl

container_target_ok :
    (raw : Field RawTarget) (t : Target) (c : ContainerTarget)
    → canonical_target raw ≡ ok t
    → no_device t ≡ ok c
    → container_target raw ≡ ok c
unfolding container_target
container_target_ok raw t c e f = rw e f

pub container_same :
    (t : ContainerTarget)
    → IsContainerTarget t
    → (container_target (container_of (some t)) ≡ ok t) × (too_many t ≡ false)
container_same broadcast h = (
  container_target_ok (written_target to_broadcast) to_broadcast broadcast
      (written_target_same to_broadcast tt) refl,
  refl,
)
container_same (groups ids) (h, few) = (
  container_target_ok (written_target (to_groups ids)) (to_groups ids) (groups ids)
      (written_target_same (to_groups ids) h) refl,
  ground (arith, few),
)
container_same unsupported h = absurd h

field_same :
    (t : ContainerTarget)
    → IsContainerTarget t
    → container_field (container_of (some t)) old_other ≡ container_of (some t)
field_same broadcast h = refl
field_same (groups ids) h = refl
field_same unsupported h = absurd h

group_same :
    (t : ContainerTarget) (o : OffsetSpec) (children : Actions)
    → IsCanonical (offset_group (some t) (some o) children)
    → canonical_offset_group
        (record (plain_action (only_kind (codes "offset_group") (container_of (some t)))) {
          raw_offset = some (written_offset o);
          raw_children = given (written_children children);
        })
      ≡ ok (offset_group (some t) (some o) children)
unfolding canonical_offset_group
group_same t o children (h, known, kept, kids, few) =
    let (e, fits) = container_same t h in
    rw (field_same t h, e)
      (rw fits (rw (kept, children_field_same (ids_of t) children kids few) refl))

effect_same :
    (kind : EffectKind) (t : Target) (params : EffectParams) (flags : FlagMapping)
    → IsTarget t
    → HasFlags kind flags
    → validate_action (plain_action (written_effect (effect_with kind t params flags)))
      ≡ ok (effect (effect_with kind t params flags))
unfolding validate_action canonical_flags_override copied_params action_kind_of
effect_same rl_preset t params flags h k = rw (written_target_same t h) refl
effect_same wled_preset t params flags h k = rw (written_target_same t h) refl
effect_same wled_control t params flags h k = rw (written_target_same t h) refl
effect_same startblock t params flags h k = rw (written_target_same t h) (rw k refl)

-- No dict that is written is of the old form.
not_legacy : (t : Target) → legacy_target (written_target t) ≡ none
unfolding legacy_target
not_legacy to_broadcast = refl
not_legacy (to_groups ids) = refl
not_legacy (to_device addr) = refl
not_legacy other_target = refl

container_not_legacy : (t : ContainerTarget) → legacy_target (container_of (some t)) ≡ none
unfolding legacy_target
container_not_legacy broadcast = refl
container_not_legacy (groups ids) = refl
container_not_legacy unsupported = refl

action_same : (a : Action) → IsCanonical a → canonical_action (written_action a) ≡ ok a
unfolding canonical_action legacy_target validate_action action_kind_of
action_same (delay ms) h =
    rw (validate_int_ok (pos 0) (pos 60000) (pos ms) (omega arith) (omega (arith, h))) refl
action_same sync h = refl
action_same unknown_kind h = absurd h
action_same (effect a) (h, k) =
    rw (not_legacy a.target) (effect_same a.effect_kind a.target a.params a.flags_override h k)
action_same (offset_group (some t) (some o) children) h =
    rw (container_not_legacy t) (group_same t o children h)
action_same (offset_group none o children) h = absurd h
action_same (offset_group (some t) none children) h = absurd h

actions_same :
    (actions : Actions)
    → AllActions IsCanonical actions
    → (list : List Action) × (traverse canonical_action (written_actions actions) ≡ ok list)
      × (action_list list ≡ actions)
      × (length (written_actions actions) ≡ count_actions actions)
unfolding traverse
actions_same nil h = ([], refl, refl, refl)
actions_same (cons a rest) (h, hs) =
    let (list, e, same, n) = actions_same rest hs in
    (a ∷ list, rw (action_same a h, e) refl, ap (cons a) same, ap suc n)

-- Canonical actions are accepted as they are.
pub written_actions_same :
    (actions : Actions)
    → AreCanonical actions
    → canonical_actions (given (written_actions actions)) ≡ ok actions
unfolding canonical_actions
written_actions_same actions (all_canonical, few) =
    let (list, e, same, n) = actions_same actions all_canonical in
    let fits : ltb 20 (length (written_actions actions)) ≡ false = ground (arith, n, few) in
    rw (fits, e, same) refl

-- Whatever is sent or read as the actions of a scene: if the store accepts it, it accepts what it
-- writes to its file of the result, and reads from it the same actions.
pub canonical_actions-written_actions :
    (raw : Field (List (Option RawAction))) (actions : Actions)
    → canonical_actions raw ≡ ok actions
    → canonical_actions (given (written_actions actions)) ≡ ok actions
canonical_actions-written_actions raw actions h =
    written_actions_same actions (canonical_actions-IsCanonical raw actions h)
