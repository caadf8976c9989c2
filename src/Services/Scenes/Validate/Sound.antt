-- ===== src/Services/Scenes/Validate/Sound.antt =====
-- What the actions are that the validation of racelink/services/scenes_service.py returns.
use gatecontrol_lora.Services.EffectPlan.{no_flags}
use gatecontrol_lora.Services.Scenes.Validate.Reread.{IsKept}
use gatecontrol_lora.Services.Scenes.Containers.{effect_of, ids_of, copied_params}
use gatecontrol_lora.Services.Scenes.Slug.{strip, is_space}
use gatecontrol_lora.Domain.OffsetFormula.{spec_mode}
use gatecontrol_lora.Domain.Flags.{FlagMapping}
use gatecontrol_lora.Domain.Params.{EffectParams}
use gatecontrol_lora.State.Repository.{upper}
use gatecontrol_lora.Services.Scenes.{canonical_groups}
use gatecontrol_lora.Services.Planner.Total.{known_mode}
use gatecontrol_lora.Services.Scenes.Validate.Ids.{IsIds, canonical_groups-IsIds}
use gatecontrol_lora.Services.Action.{
  Action, Actions, nil, cons, delay, sync, offset_group, effect, EffectAction, to_broadcast,
  to_groups, to_device, other_target, EffectKind, rl_preset, wled_preset, wled_control, startblock,
  unknown_kind, Target,
}
use gatecontrol_lora.Services.Optimizer.{ContainerTarget, broadcast, groups, unsupported}
use gatecontrol_lora.Services.Scenes.Targets.{
  TargetKind, kind_broadcast, kind_groups, kind_device, kind_scope, kind_group, kind_other,
  canonical_device, canonical_target, child_target, is_mac12, migrate_legacy_target, target_kind_of,
  target_of_kind, within_parent,
}
use gatecontrol_lora.Services.Scenes.Raw.{Field, missing, null, wrong_shape, given, RawTarget}
use gatecontrol_lora.Prelude.{
  ℕ, Bool, Bool-cases, List, contains, false, inl, inr, ok, true, ◌≡◌, ◌≤◌, bind_value, err,
  value_error, length, ok-injective, subst, Option, none, some, all, refl, suc, Option-cases,
  Result, Text, same,
}

abbrev pub IsTarget : Target → Type 0
IsTarget to_broadcast = Unit {0}
IsTarget (to_groups ids) = IsIds ids
IsTarget (to_device addr) = is_mac12 addr ≡ true
IsTarget other_target = ⊥

-- A group of a child is one of its container's.
abbrev pub IsWithin : Option (List ℕ) → Target → Type 0
IsWithin none target = Unit {0}
IsWithin (some parents) to_broadcast = Unit {0}
IsWithin (some parents) (to_groups ids) = all (contains parents) ids ≡ true
IsWithin (some parents) (to_device addr) = Unit {0}
IsWithin (some parents) other_target = Unit {0}

abbrev pub is_flagged : EffectKind → Bool
is_flagged rl_preset = true
is_flagged wled_preset = true
is_flagged wled_control = true
is_flagged startblock = false

abbrev pub IsChild : Option (List ℕ) → Action → Type 0
IsChild parents (effect a) =
    IsTarget a.target × IsWithin parents a.target × (is_flagged a.effect_kind ≡ true)
IsChild parents (delay ms) = ⊥
IsChild parents sync = ⊥
IsChild parents unknown_kind = ⊥
IsChild parents (offset_group target offset children) = ⊥

abbrev pub AllActions : (Action → Type 0) → Actions → Type 0
AllActions P nil = Unit {0}
AllActions P (cons a rest) = P a × AllActions P rest

abbrev pub count_actions : Actions → ℕ
count_actions nil = 0
count_actions (cons a rest) = suc (count_actions rest)

abbrev pub IsContainerTarget : ContainerTarget → Type 0
IsContainerTarget broadcast = Unit {0}
IsContainerTarget (groups ids) = IsIds ids × (length ids ≤ 64)
IsContainerTarget unsupported = ⊥

-- A kind without flags has no override.
abbrev pub HasFlags : EffectKind → FlagMapping → Type 0
HasFlags startblock flags = flags ≡ no_flags
HasFlags rl_preset flags = Unit {0}
HasFlags wled_preset flags = Unit {0}
HasFlags wled_control flags = Unit {0}

-- An action as the store keeps it.
abbrev pub IsCanonical : Action → Type 0
IsCanonical (delay ms) = ms ≤ 60000
IsCanonical sync = Unit {0}
IsCanonical unknown_kind = ⊥
IsCanonical (effect a) = IsTarget a.target × HasFlags a.effect_kind a.flags_override
IsCanonical (offset_group (some target) (some offset) children) =
    IsContainerTarget target
    × (known_mode (spec_mode offset) ≡ true)
    × IsKept (ids_of target) offset
    × AllActions (IsChild (ids_of target)) children
    × (count_actions children ≤ 16)
IsCanonical (offset_group none offset children) = ⊥
IsCanonical (offset_group (some target) none children) = ⊥

-- The actions of a scene.
abbrev pub AreCanonical : Actions → Type 0
AreCanonical actions = AllActions IsCanonical actions × (count_actions actions ≤ 20)

canonical_device-IsTarget :
    (raw : Option Text) (target : Target) → canonical_device raw ≡ ok target → IsTarget target
unfolding canonical_device
canonical_device-IsTarget none target h = cc
canonical_device-IsTarget (some t) target h =
    let v = upper (strip is_space t) in
    elim (Bool-cases (is_mac12 v)) [
      | inl e ↦ subst IsTarget (ok-injective (rw e at h)) e
      | inr e ↦ let bad : err value_error ≡ ok target = rw e at h in cc
    ]

target_of_kind-IsTarget :
    (kind : TargetKind) (raw : RawTarget) (target : Target)
    → target_of_kind kind raw ≡ ok target
    → IsTarget target
target_of_kind-IsTarget kind_broadcast raw target h = subst IsTarget (ok-injective h) tt
target_of_kind-IsTarget kind_groups raw target h = elim (Option-cases raw.value_list) [
  | inl e ↦ let bad : err value_error ≡ ok target = rw e at h in cc
  | inr (raws, e) ↦
      let (ids, f, r) = bind_value _ (canonical_groups raws) (rw e at h) in
      subst IsTarget (ok-injective r) (canonical_groups-IsIds raws ids f)
]
target_of_kind-IsTarget kind_device raw target h = canonical_device-IsTarget raw.value_text target h
target_of_kind-IsTarget kind_scope raw target h = cc
target_of_kind-IsTarget kind_group raw target h = cc
target_of_kind-IsTarget kind_other raw target h = cc

pub canonical_target-IsTarget :
    (raw : Field RawTarget) (target : Target) → canonical_target raw ≡ ok target → IsTarget target
unfolding canonical_target
canonical_target-IsTarget missing target h = cc
canonical_target-IsTarget null target h = cc
canonical_target-IsTarget (wrong_shape made) target h = cc
canonical_target-IsTarget (given raw) target h =
    let new = migrate_legacy_target raw in
    target_of_kind-IsTarget (target_kind_of new.target_kind) new target h

-- A target that passes is not changed.
within_parent-IsWithin :
    (parents : Option (List ℕ)) (found target : Target)
    → within_parent parents found ≡ ok target
    → (found ≡ target) × IsWithin parents target
within_parent-IsWithin none found target h = (ok-injective h, tt)
within_parent-IsWithin (some parents) to_broadcast target h =
    (ok-injective h, subst (IsWithin (some parents)) (ok-injective h) tt)
within_parent-IsWithin (some parents) (to_groups ids) target h =
    elim (Bool-cases (all (contains parents) ids)) [
      | inl e ↦
          let same = ok-injective (rw e at h) in (same, subst (IsWithin (some parents)) same e)
      | inr e ↦ let bad : err value_error ≡ ok target = rw e at h in cc
    ]
within_parent-IsWithin (some parents) (to_device addr) target h =
    (ok-injective h, subst (IsWithin (some parents)) (ok-injective h) tt)
within_parent-IsWithin (some parents) other_target target h =
    (ok-injective h, subst (IsWithin (some parents)) (ok-injective h) tt)

pub child_target-IsWithin :
    (parents : Option (List ℕ)) (raw : Field RawTarget) (target : Target)
    → child_target parents raw ≡ ok target
    → IsTarget target × IsWithin parents target
unfolding child_target
child_target-IsWithin parents raw target h =
    let (found, e, r) = bind_value _ (canonical_target raw) h in
    let (same, within) = within_parent-IsWithin parents found target r in
    (subst IsTarget same (canonical_target-IsTarget raw found e), within)

-- An effect has the target and the flags that were read, and the kind.
pub effect_of-target :
    (kind : EffectKind) (target : Result Target) (params : Field EffectParams)
    (flags : Result FlagMapping) (a : Action)
    → effect_of kind target params flags ≡ ok a
    → (e : EffectAction) × (effect e ≡ a)
      × (target ≡ ok e.target)
      × (flags ≡ ok e.flags_override)
      × (e.effect_kind ≡ kind)
effect_of-target kind target params flags a h =
    let (t, e, r) = bind_value _ target h in
    let (p, f, r2) = bind_value _ (copied_params params) r in
    let (m, g, r3) = bind_value _ flags r2 in
    (
      record { effect_kind = kind; target = t; params = p; flags_override = m },
      ok-injective r3,
      e,
      g,
      refl,
    )
