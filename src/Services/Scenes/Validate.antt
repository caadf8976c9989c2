-- ===== src/Services/Scenes/Validate.antt =====
-- racelink/services/scenes_service.py: the validation of the actions of a scene, and the rewriting
-- of the old form of a container. `dict` of a value that is no dict raises TypeError.
pub mod Blocks
pub mod Children
pub mod Ids
pub mod Planned
pub mod Kept
pub mod Reload
pub mod Reread
pub mod RoundTrip
pub mod Sound
pub mod Written
use gatecontrol_lora.Services.Scenes.Targets.{canonical_target}
use gatecontrol_lora.Services.Scenes.Containers.{
  action_kind_of, action_list, broadcast_target, plain_target, canonical_offset_group, effect_of,
  canonical_flags_override, copied_params,
}
use gatecontrol_lora.Services.Scenes.{number, RawOffset, RawEntry, validate_int}
use gatecontrol_lora.Services.Scenes.Raw.{
  Field, missing, null, wrong_shape, given, RawTarget, RawEffect, RawAction, OldNumber, OldEntry,
  OldTarget, OldHints, old_number, old_none, old_text, old_all, old_other, old_list, is_present,
  OldGroups,
}
use gatecontrol_lora.Services.Action.{
  Action, Actions, nil, delay, sync, EffectKind, rl_preset, wled_preset, wled_control, startblock,
  offset_group,
}
use gatecontrol_lora.Services.EffectPlan.{no_flags}
use gatecontrol_lora.Services.WireOp.{
  ActionKind, kind_rl_preset, kind_wled_preset, kind_wled_control, kind_startblock, kind_sync,
  kind_delay, kind_offset_group, kind_unknown,
}
use gatecontrol_lora.Prelude.{
  Bool, List, Option, Result, Text, [], codes, eq_bytes, err, false, if◌then◌else◌, length, ltb,
  map, none, ok, or_else, pos, pos_part, some, traverse, type_error, value_error, ℤ, ◌>>=◌, ◌||◌,
  ◌∷◌, is_some,
}

-- `int(...)`, which is not guarded here.
abbrev pub old_int : OldNumber → Result ℤ
old_int (old_number v) = ok v
old_int old_none = err type_error
old_int old_text = err value_error

abbrev pub entry_of : OldEntry → Result RawEntry
entry_of e = do
  ident ← old_int e.old_id
  ms ← old_int e.old_ms
  ok (record { entry_id = number ident; entry_ms = number ms })

abbrev pub no_offset : RawOffset
no_offset = record {
  raw_mode = some (codes "none");
  raw_base = none;
  raw_step = none;
  raw_center = none;
  raw_cycle = none;
  raw_values = none;
}

abbrev pub is_linear_hint : Option Text → Bool
is_linear_hint none = false
is_linear_hint (some t) = eq_bytes t (codes "linear")

abbrev pub explicit_of : List OldEntry → Result RawOffset
explicit_of entries = do
  values ← traverse entry_of entries
  ok (record no_offset { raw_mode = some (codes "explicit"); raw_values = some values })

abbrev pub hinted :
    OldHints → Option OldNumber → Option OldNumber → List OldEntry → Result RawOffset
hinted hints none step entries = explicit_of entries
hinted hints (some base) none entries = explicit_of entries
hinted hints (some base) (some step) entries =
    if is_linear_hint hints.hint_mode
    then (do
      b ← old_int base
      s ← old_int step
      ok (record no_offset {
        raw_mode = some (codes "linear");
        raw_base = some (number b);
        raw_step = some (number s);
      }))
    else explicit_of entries

-- The container's target and its offset block, which is none where it is no dict.
abbrev pub Container : Type 0
Container = RawTarget × Option RawOffset

abbrev pub offset_field : Field RawOffset → Option RawOffset
offset_field missing = some no_offset
offset_field null = some no_offset
offset_field (wrong_shape made) = none
offset_field (given raw) = some raw

-- `list(groups)` raises TypeError where the groups are no list.
abbrev pub old_container : OldGroups → OldTarget → Result Container
old_container old_all old = ok (broadcast_target, offset_field old.old_offset)
old_container old_other old = err type_error
old_container (old_list raws) old =
    ok (plain_target (some (codes "groups")) (some raws), offset_field old.old_offset)

-- The list of ids and milliseconds, or the other form of the old target.
unfoldable pub migrate_container : OldTarget → Result Container
migrate_container old = elim old.old_entries [
  | [] ↦ old_container old.old_groups old
  | e ∷ es ↦ (do
    ids ← traverse (λ x. old_int x.old_id) (e ∷ es)
    offset ← hinted old.old_hints old.old_hints.hint_base old.old_hints.hint_step (e ∷ es)
    ok (plain_target (some (codes "groups")) (some (map number ids)), some offset))
]

-- `dict(... or {})`
abbrev pub dict_of : {A : Type 0} → Field A → Result (Field A)
dict_of missing = ok missing
dict_of null = ok missing
dict_of (wrong_shape made) = do dict ← made; ok (given dict)
dict_of (given a) = ok (given a)

-- `_migrate_legacy_groups_offset_action`
unfoldable pub migrate_action : RawAction → OldTarget → Result RawAction
unfolding migrate_container
migrate_action raw old = do
  new ← migrate_container old
  params ← dict_of raw.raw_effect.raw_params
  flags ← dict_of raw.raw_effect.raw_flags
  ok (record {
    raw_effect = record {
      raw_kind = some (codes "offset_group");
      raw_target = given new.0;
      raw_params = missing;
      raw_flags = missing;
    };
    raw_duration = none;
    raw_groups = old_other;
    raw_offset = new.1;
    raw_children = given (
        some (record {
          raw_kind = raw.raw_effect.raw_kind;
          raw_target = given broadcast_target;
          raw_params = params;
          raw_flags = flags;
        })
        ∷ []);
  })

abbrev pub names_old_target : RawTarget → Bool
names_old_target t = elim t.target_kind [
  | none ↦ false
  | some kind ↦ eq_bytes kind (codes "groups_offset")
]

-- `_is_legacy_groups_offset_target`, with the target that is to be rewritten.
unfoldable pub legacy_target : Field RawTarget → Option OldTarget
legacy_target missing = none
legacy_target null = none
legacy_target (wrong_shape made) = none
legacy_target (given t) = if names_old_target t then some t.old_target else none

abbrev pub unless : Bool → Action → Result Action
unless stray action = if stray then err value_error else ok action

abbrev pub has_effect_keys : RawEffect → Bool
has_effect_keys raw = is_present raw.raw_params || is_present raw.raw_flags

abbrev pub plain_effect : EffectKind → RawEffect → Result Action
plain_effect kind raw =
    effect_of kind (canonical_target raw.raw_target) raw.raw_params
      (canonical_flags_override raw.raw_flags)

abbrev pub action_of_kind : ActionKind → RawAction → Result Action
action_of_kind kind_rl_preset raw = plain_effect rl_preset raw.raw_effect
action_of_kind kind_wled_preset raw = plain_effect wled_preset raw.raw_effect
action_of_kind kind_wled_control raw = plain_effect wled_control raw.raw_effect
action_of_kind kind_startblock raw =
    effect_of startblock (canonical_target raw.raw_effect.raw_target) raw.raw_effect.raw_params
      (ok no_flags)
action_of_kind kind_sync raw =
    unless
      (is_present raw.raw_effect.raw_target
        || (has_effect_keys raw.raw_effect || is_some raw.raw_duration))
      sync
action_of_kind kind_delay raw = do
  ms ← validate_int (or_else raw.raw_duration (number (pos 0))) (pos 0) (pos 60000)
  unless (is_present raw.raw_effect.raw_target || has_effect_keys raw.raw_effect)
      (delay (pos_part ms))
action_of_kind kind_offset_group raw =
    if has_effect_keys raw.raw_effect || is_some raw.raw_duration
    then err value_error
    else canonical_offset_group raw
action_of_kind kind_unknown raw = err value_error

unfoldable pub validate_action : RawAction → Result Action
unfolding canonical_offset_group canonical_target canonical_flags_override copied_params
    action_kind_of validate_int
validate_action raw = action_of_kind (action_kind_of raw.raw_effect.raw_kind) raw

abbrev pub migrated : RawAction → Option OldTarget → Result RawAction
migrated raw none = ok raw
migrated raw (some old) = migrate_action raw old

-- `_canonical_action`; none is an action that is no dict.
unfoldable pub canonical_action : Option RawAction → Result Action
unfolding migrate_action legacy_target validate_action
canonical_action none = err value_error
canonical_action (some raw) = do
  new ← migrated raw (legacy_target raw.raw_effect.raw_target)
  validate_action new

-- `_canonical_actions`
unfoldable pub canonical_actions : Field (List (Option RawAction)) → Result Actions
unfolding canonical_action
canonical_actions missing = ok nil
canonical_actions null = ok nil
canonical_actions (wrong_shape made) = err value_error
canonical_actions (given raws) =
    if ltb 20 (length raws)
    then err value_error
    else do actions ← traverse canonical_action raws; ok (action_list actions)
