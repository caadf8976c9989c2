-- ===== src/Services/Scenes/Validate/Kept.antt =====
-- Whatever a client sends or the file holds, the store of racelink/services/scenes_service.py keeps
-- canonical actions.
use gatecontrol_lora.Services.Scenes.Validate.Reread.{offset_of-IsKept}
use gatecontrol_lora.Services.Scenes.Validate.Children.{
  limited-All, canonical_children-IsChild, container_target-IsContainerTarget,
}
use gatecontrol_lora.Services.EffectPlan.{no_flags}
use gatecontrol_lora.Services.Planner.Total.{known_mode}
use gatecontrol_lora.Domain.Flags.{FlagMapping}
use gatecontrol_lora.Domain.OffsetFormula.{spec_mode, OffsetSpec}
use gatecontrol_lora.Services.Scenes.Validate.{
  canonical_actions, canonical_action, unless, action_of_kind, has_effect_keys, validate_action,
  migrated, legacy_target,
}
use gatecontrol_lora.Services.Scenes.{
  canonical_block, canonical_entry, RawEntry, RawOffset, block_mode, canonical_explicit,
  canonical_offset_block, number, validate_int,
}
use gatecontrol_lora.Services.Scenes.Canonical.{canonical_block-Usable, validate_int_in}
use gatecontrol_lora.Services.Scenes.Targets.{container_target, canonical_target}
use gatecontrol_lora.Services.Scenes.Validate.Sound.{
  AreCanonical, canonical_target-IsTarget, effect_of-target, IsContainerTarget, IsCanonical,
  HasFlags,
}
use gatecontrol_lora.Services.Scenes.Containers.{
  canonical_children, effect_of, too_many, action_kind_of, canonical_flags_override,
  canonical_offset_group, container_field, ids_of, offset_of,
}
use gatecontrol_lora.Protocol.Offset.{
  Mode, none_mode, explicit, linear, vshape, modulo, unknown, mode_of,
}
use gatecontrol_lora.Services.Action.{
  Action, Actions, delay, sync, EffectKind, rl_preset, wled_preset, wled_control, startblock,
}
use gatecontrol_lora.Services.WireOp.{
  kind_rl_preset, kind_wled_preset, kind_wled_control, kind_startblock, kind_sync, kind_delay,
  kind_offset_group, kind_unknown, ActionKind,
}
use gatecontrol_lora.Services.Optimizer.{ContainerTarget}
use gatecontrol_lora.Services.Scenes.Raw.{
  Field, missing, null, wrong_shape, given, RawEffect, RawAction, is_present,
}
use gatecontrol_lora.Prelude.{
  ℕ, Bool, Bool-cases, List, arith, false, inl, inr, ok, true, ◌≡◌, ◌≤◌, bind_value, err,
  value_error, if◌then◌else◌, length, ok-injective, subst, Option, none, some, refl, traverse, pos,
  negsuc, Result, same, Option-cases, is_some, or_else, pos_part, ℤ, ◌==◌, ◌||◌, ◌≤ℤ◌, sym,
}

-- A block that is accepted has one of the five modes.
canonical_block-known_mode :
    (m : Mode) (ids : Option (List ℕ)) (raw : RawOffset) (spec : OffsetSpec)
    → canonical_block m ids raw ≡ ok spec
    → known_mode (spec_mode spec) ≡ true
unfolding canonical_block canonical_explicit spec_mode mode_of
canonical_block-known_mode none_mode ids raw spec h =
    subst (λ s. known_mode (spec_mode s) ≡ true) (ok-injective h) refl
canonical_block-known_mode unknown ids raw spec h = cc
canonical_block-known_mode explicit none raw spec h = cc
canonical_block-known_mode explicit (some ids) raw spec h = elim (Option-cases raw.raw_values) [
  | inl e ↦ let bad : err value_error ≡ ok spec = rw e at h in cc
  | inr (entries, e) ↦ listed entries (rw e at h)
]
  where
    listed :
        (entries : List RawEntry)
        → canonical_explicit (some ids) (some entries) ≡ ok spec
        → known_mode (spec_mode spec) ≡ true
    listed entries k = elim (Bool-cases (length entries == length ids)) [
      | inl f ↦
          let (values, g, r) = bind_value _ (traverse (canonical_entry ids) entries) (rw f at k) in
          subst (λ s. known_mode (spec_mode s) ≡ true) (ok-injective r) refl
      | inr f ↦ let bad : err value_error ≡ ok spec = rw f at k in cc
    ]
canonical_block-known_mode linear ids raw spec h =
    rw ((canonical_block-Usable linear ids raw spec refl refl h).1) refl
canonical_block-known_mode vshape ids raw spec h =
    rw ((canonical_block-Usable vshape ids raw spec refl refl h).1) refl
canonical_block-known_mode modulo ids raw spec h =
    rw ((canonical_block-Usable modulo ids raw spec refl refl h).1) refl

offset_of-known_mode :
    (ids : Option (List ℕ)) (raw : Option RawOffset) (spec : OffsetSpec)
    → offset_of ids raw ≡ ok spec
    → known_mode (spec_mode spec) ≡ true
unfolding canonical_offset_block
offset_of-known_mode ids none spec h = cc
offset_of-known_mode ids (some raw) spec h =
    canonical_block-known_mode (block_mode raw.raw_mode) ids raw spec h

canonical_offset_group-IsCanonical :
    (raw : RawAction) (a : Action) → canonical_offset_group raw ≡ ok a → IsCanonical a
unfolding canonical_offset_group
canonical_offset_group-IsCanonical raw a h =
    let field = container_field raw.raw_effect.raw_target raw.raw_groups in
    let (target, e, r) = bind_value _ (container_target field) h in
    let (fits, f, r2) = bind_value _ (if too_many target then err value_error else ok target) r in
    let (offset, g, r3) = bind_value _ (offset_of (ids_of fits) raw.raw_offset) r2 in
    let (children, k, r4) = bind_value _ (canonical_children (ids_of fits) raw.raw_children) r3 in
    let (few, same) = guard (too_many target) target fits f in
    let is_target =
      subst IsContainerTarget same (container_target-IsContainerTarget field target e few) in
    let (kids, n) = canonical_children-IsChild (ids_of fits) raw.raw_children children k in
    subst IsCanonical (ok-injective r4) (
      is_target,
      offset_of-known_mode (ids_of fits) raw.raw_offset offset g,
      offset_of-IsKept (ids_of fits) raw.raw_offset offset g,
      kids,
      n,
    )
  where
    guard :
        (b : Bool) (v w : ContainerTarget)
        → (if b then err value_error else ok v) ≡ ok w
        → (b ≡ false) × (v ≡ w)
    guard true v w h = cc
    guard false v w h = (refl, ok-injective h)

unless-action : (stray : Bool) (b a : Action) → unless stray b ≡ ok a → b ≡ a
unless-action true b a h = cc
unless-action false b a h = ok-injective h

plain_effect-IsCanonical :
    (kind : EffectKind) (raw : RawEffect) (flags : Result FlagMapping) (a : Action)
    → ((m : FlagMapping) → flags ≡ ok m → HasFlags kind m)
    → effect_of kind (canonical_target raw.raw_target) raw.raw_params flags ≡ ok a
    → IsCanonical a
plain_effect-IsCanonical kind raw flags a has h =
    let (e, same, found, m, k) =
      effect_of-target kind (canonical_target raw.raw_target) raw.raw_params flags a h in
    subst IsCanonical same (
      canonical_target-IsTarget raw.raw_target e.target found,
      subst (λ x. HasFlags x e.flags_override) (sym k) (has e.flags_override m),
    )

action_of_kind-IsCanonical :
    (kind : ActionKind) (raw : RawAction) (a : Action)
    → action_of_kind kind raw ≡ ok a
    → IsCanonical a
action_of_kind-IsCanonical kind_rl_preset raw a h =
    plain_effect-IsCanonical rl_preset raw.raw_effect
      (canonical_flags_override raw.raw_effect.raw_flags) a (λ m e. tt) h
action_of_kind-IsCanonical kind_wled_preset raw a h =
    plain_effect-IsCanonical wled_preset raw.raw_effect
      (canonical_flags_override raw.raw_effect.raw_flags) a (λ m e. tt) h
action_of_kind-IsCanonical kind_wled_control raw a h =
    plain_effect-IsCanonical wled_control raw.raw_effect
      (canonical_flags_override raw.raw_effect.raw_flags) a (λ m e. tt) h
action_of_kind-IsCanonical kind_startblock raw a h =
    plain_effect-IsCanonical startblock raw.raw_effect (ok no_flags) a (λ m e. sym (ok-injective e))
      h
action_of_kind-IsCanonical kind_sync raw a h =
    subst IsCanonical
      (unless-action
        (is_present raw.raw_effect.raw_target
          || (has_effect_keys raw.raw_effect || is_some raw.raw_duration))
        sync a h)
      tt
action_of_kind-IsCanonical kind_delay raw a h =
    let duration = or_else raw.raw_duration (number (pos 0)) in
    let (ms, e, r) = bind_value _ (validate_int duration (pos 0) (pos 60000)) h in
    let (low, high) = validate_int_in duration (pos 0) (pos 60000) ms e in
    subst IsCanonical
      (unless-action (is_present raw.raw_effect.raw_target || has_effect_keys raw.raw_effect)
        (delay (pos_part ms)) a r)
      (small ms high)
  where
    small : (v : ℤ) → v ≤ℤ pos 60000 → pos_part v ≤ 60000
    small (pos n) h = omega (arith, h)
    small (negsuc n) h = omega arith
action_of_kind-IsCanonical kind_offset_group raw a h =
    elim (Bool-cases (has_effect_keys raw.raw_effect || is_some raw.raw_duration)) [
      | inl e ↦ let bad : err value_error ≡ ok a = rw e at h in cc
      | inr e ↦ canonical_offset_group-IsCanonical raw a (rw e at h)
    ]
action_of_kind-IsCanonical kind_unknown raw a h = cc

canonical_action-IsCanonical :
    (raw : Option RawAction) (a : Action) → canonical_action raw ≡ ok a → IsCanonical a
unfolding canonical_action validate_action
canonical_action-IsCanonical none a h = cc
canonical_action-IsCanonical (some raw) a h =
    let (new, e, r) = bind_value _ (migrated raw (legacy_target raw.raw_effect.raw_target)) h in
    action_of_kind-IsCanonical (action_kind_of new.raw_effect.raw_kind) new a r

-- Whatever is sent or read as the actions of a scene, in the new form or an old one: if it is
-- accepted, there are at most 20 actions, and each of them is canonical. A delay is at most a
-- minute. A target is the broadcast, at least one group id below 255 in strictly ascending order,
-- or an address of 12 hexadecimal digits. A container has such a broadcast or group target with at
-- most 64 groups, an offset block of one of the five modes that is accepted again as it is, and at most 16 children, which are effects with flags, on
-- groups of the container or on such a device.
pub canonical_actions-IsCanonical :
    (raw : Field (List (Option RawAction))) (actions : Actions)
    → canonical_actions raw ≡ ok actions
    → AreCanonical actions
unfolding canonical_actions
canonical_actions-IsCanonical missing actions h =
    subst AreCanonical (ok-injective h) (tt, omega arith)
canonical_actions-IsCanonical null actions h = subst AreCanonical (ok-injective h) (tt, omega arith)
canonical_actions-IsCanonical (wrong_shape made) actions h = cc
canonical_actions-IsCanonical (given raws) actions h =
    limited-All 20 canonical_action IsCanonical canonical_action-IsCanonical raws actions h
