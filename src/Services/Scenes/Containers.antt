-- ===== src/Services/Scenes/Containers.antt =====
-- racelink/services/scenes_service.py: the validation of an offset group and of its children.
use gatecontrol_lora.Domain.OffsetFormula.{OffsetSpec}
use gatecontrol_lora.Services.Scenes.Targets.{container_target, child_target}
use gatecontrol_lora.Domain.Params.{EffectParams}
use gatecontrol_lora.Domain.Flags.{FlagMapping}
use gatecontrol_lora.Services.Scenes.{RawValue, no_number, RawOffset, canonical_offset_block}
use gatecontrol_lora.Services.Scenes.Raw.{
  Field, missing, null, wrong_shape, given, RawTarget, RawEffect, RawAction, old_all, old_other,
  old_list, OldGroups,
}
use gatecontrol_lora.Services.Action.{
  Action, Actions, nil, cons, offset_group, effect, EffectKind, rl_preset, wled_preset,
  wled_control, Target,
}
use gatecontrol_lora.Services.EffectPlan.{no_flags}
use gatecontrol_lora.Services.Optimizer.{ContainerTarget, broadcast, groups, unsupported}
use gatecontrol_lora.Services.WireOp.{
  ActionKind, kind_rl_preset, kind_wled_preset, kind_wled_control, kind_startblock, kind_sync,
  kind_delay, kind_offset_group, kind_unknown,
}
use gatecontrol_lora.Prelude.{
  type_error, ℕ, Bool, List, Option, Result, Text, [], codes, eq_bytes, err, false, if◌then◌else◌,
  length, ltb, none, ok, some, traverse, value_error, ◌>>=◌, ◌∷◌,
}

abbrev pub no_params : EffectParams
no_params = record {
  preset_id = none;
  fields = record {
    brightness = none;
    mode = none;
    speed = none;
    intensity = none;
    custom1 = none;
    custom2 = none;
    custom3 = none;
    check1 = none;
    check2 = none;
    check3 = none;
    palette = none;
    color1 = none;
    color2 = none;
    color3 = none;
  };
  user_flags = no_flags;
}

-- `_canonical_flags_override`
unfoldable pub canonical_flags_override : Field FlagMapping → Result FlagMapping
canonical_flags_override missing = ok no_flags
canonical_flags_override null = ok no_flags
canonical_flags_override (wrong_shape made) = err value_error
canonical_flags_override (given m) = ok m

-- The copy of `params`. The values are not looked at: they are of the types that the planner reads.
unfoldable pub copied_params : Field EffectParams → Result EffectParams
copied_params missing = ok no_params
copied_params null = ok no_params
copied_params (wrong_shape made) = err value_error
copied_params (given p) = ok p

unfoldable pub action_kind_of : Option Text → ActionKind
action_kind_of none = kind_unknown
action_kind_of (some t) =
    if eq_bytes t (codes "rl_preset")
    then kind_rl_preset
    else if eq_bytes t (codes "wled_preset")
    then kind_wled_preset
    else if eq_bytes t (codes "wled_control")
    then kind_wled_control
    else if eq_bytes t (codes "startblock")
    then kind_startblock
    else if eq_bytes t (codes "sync")
    then kind_sync
    else if eq_bytes t (codes "delay")
    then kind_delay
    else if eq_bytes t (codes "offset_group")
    then kind_offset_group
    else kind_unknown

-- The parts that the effects and the children share; a flagless kind ignores its override.
abbrev pub effect_of :
    EffectKind → Result Target → Field EffectParams → Result FlagMapping → Result Action
effect_of kind target params flags = do
  t ← target
  p ← copied_params params
  f ← flags
  ok (effect (record { effect_kind = kind; target = t; params = p; flags_override = f }))

abbrev pub child_of_kind : ActionKind → Option (List ℕ) → RawEffect → Result Action
child_of_kind kind_rl_preset parents raw =
    effect_of rl_preset (child_target parents raw.raw_target) raw.raw_params
      (canonical_flags_override raw.raw_flags)
child_of_kind kind_wled_preset parents raw =
    effect_of wled_preset (child_target parents raw.raw_target) raw.raw_params
      (canonical_flags_override raw.raw_flags)
child_of_kind kind_wled_control parents raw =
    effect_of wled_control (child_target parents raw.raw_target) raw.raw_params
      (canonical_flags_override raw.raw_flags)
child_of_kind kind_startblock parents raw = err value_error
child_of_kind kind_sync parents raw = err value_error
child_of_kind kind_delay parents raw = err value_error
child_of_kind kind_offset_group parents raw = err value_error
child_of_kind kind_unknown parents raw = err value_error

-- `_canonical_offset_group_child`
unfoldable pub canonical_child : Option (List ℕ) → Option RawEffect → Result Action
unfolding child_target copied_params canonical_flags_override action_kind_of
canonical_child parents none = err value_error
canonical_child parents (some raw) = child_of_kind (action_kind_of raw.raw_kind) parents raw

abbrev pub action_list : List Action → Actions
action_list [] = nil
action_list (a ∷ rest) = cons a (action_list rest)

-- The children, as `[... for child in raw_children]`.
unfoldable pub canonical_children :
    Option (List ℕ) → Field (List (Option RawEffect)) → Result Actions
unfolding canonical_child
canonical_children parents missing = ok nil
canonical_children parents null = ok nil
canonical_children parents (wrong_shape made) = err value_error
canonical_children parents (given raws) =
    if ltb 16 (length raws)
    then err value_error
    else do children ← traverse (canonical_child parents) raws; ok (action_list children)

-- `target`, or the target that the old `groups` stand for.
abbrev pub plain_target : Option Text → Option (List RawValue) → RawTarget
plain_target kind value = record {
  target_kind = kind;
  value_list = value;
  value_int = no_number;
  value_text = none;
  old_target = record {
    old_groups = old_other;
    old_entries = [];
    old_hints = record { hint_mode = none; hint_base = none; hint_step = none };
    old_offset = missing;
  };
}

abbrev pub broadcast_target : RawTarget
broadcast_target = plain_target (some (codes "broadcast")) none

abbrev pub target_of_groups : OldGroups → Field RawTarget
target_of_groups old_all = given broadcast_target
target_of_groups old_other = wrong_shape (err type_error)
target_of_groups (old_list []) = wrong_shape (err type_error)
target_of_groups (old_list (g ∷ gs)) = given (plain_target (some (codes "groups")) (some (g ∷ gs)))

abbrev pub container_field : Field RawTarget → OldGroups → Field RawTarget
container_field missing old = target_of_groups old
container_field null old = target_of_groups old
container_field (wrong_shape made) old = wrong_shape made
container_field (given raw) old = given raw

-- `canonical_ids`
abbrev pub ids_of : ContainerTarget → Option (List ℕ)
ids_of broadcast = none
ids_of unsupported = none
ids_of (groups ids) = some ids

abbrev pub too_many : ContainerTarget → Bool
too_many broadcast = false
too_many unsupported = false
too_many (groups ids) = ltb 64 (length ids)

abbrev pub offset_of : Option (List ℕ) → Option RawOffset → Result OffsetSpec
offset_of ids none = err value_error
offset_of ids (some raw) = canonical_offset_block ids raw

-- `_canonical_offset_group_action`
unfoldable pub canonical_offset_group : RawAction → Result Action
unfolding container_target canonical_offset_block canonical_children
canonical_offset_group raw = do
  target ← container_target (container_field raw.raw_effect.raw_target raw.raw_groups)
  fits ← (if too_many target then err value_error else ok target)
  offset ← offset_of (ids_of fits) raw.raw_offset
  children ← canonical_children (ids_of fits) raw.raw_children
  ok (offset_group (some fits) (some offset) children)
