-- ===== src/Services/Scenes/Raw.antt =====
-- What a client sends, or the file holds, as the actions of a scene, before
-- racelink/services/scenes_service.py validates it: JSON values, by what the code asks of them.
use gatecontrol_lora.Prelude.{Bool, List, Option, Result, Text, false, true, ℤ}
use gatecontrol_lora.Domain.Flags.{FlagMapping}
use gatecontrol_lora.Domain.Params.{EffectParams}
use gatecontrol_lora.Services.Scenes.{RawValue, RawOffset}

-- The value of a key of a dict: the key is missing, the value is None, it has another type than the
-- one that is asked for, with what `dict` makes of it, or it has this type. Where the code writes `or {}` or `or []`, null also
-- stands for any other value that is falsy.
pub data Field (A : Type 0) : Type 0 where
  missing null : Field A
  wrong_shape : (made : Result A) → Field A
  given : A → Field A

-- `key in raw`
abbrev pub is_present : {A : Type 0} → Field A → Bool
is_present missing = false
is_present null = true
is_present (wrong_shape made) = true
is_present (given a) = true

-- A number of an old dict: what `int` returns, or raises TypeError on (None), or ValueError.
pub data OldNumber : Type 0 where
  old_number : ℤ → OldNumber
  old_none old_text : OldNumber

-- The old `groups`: "all" or 255, a list by its elements, or another value.
pub data OldGroups : Type 0 where
  old_all old_other : OldGroups
  old_list : List RawValue → OldGroups

-- A missing `offset_ms` is 0.
pub record OldEntry : Type 0 where
  pub old_id : OldNumber
  pub old_ms : OldNumber

-- `ui_hints`; none is None or a missing key.
pub record OldHints : Type 0 where
  pub hint_mode : Option Text
  pub hint_base : Option OldNumber
  pub hint_step : Option OldNumber

-- The keys of a target of the old kind "groups_offset". `old_entries` is the list of the oldest
-- form, whose first element is a dict, as all are; it is empty for another `groups`.
pub record OldTarget : Type 0 where
  pub old_groups : OldGroups
  pub old_entries : List OldEntry
  pub old_hints : OldHints
  pub old_offset : Field RawOffset

-- A target dict. Its `value` is seen as a list, as what `int` makes of it, and as a text.
pub record RawTarget : Type 0 where
  pub target_kind : Option Text
  pub value_list : Option (List RawValue)
  pub value_int : RawValue
  pub value_text : Option Text
  pub old_target : OldTarget

-- The keys that an effect and a child of a container have.
pub record RawEffect : Type 0 where
  pub raw_kind : Option Text
  pub raw_target : Field RawTarget
  pub raw_params : Field EffectParams
  pub raw_flags : Field FlagMapping

-- An action dict. `raw_duration` is none where the key is missing, `raw_offset` where it is no
-- dict, and a child where it is none.
pub record RawAction : Type 0 where
  pub raw_effect : RawEffect
  pub raw_duration : Option RawValue
  pub raw_groups : OldGroups
  pub raw_offset : Option RawOffset
  pub raw_children : Field (List (Option RawEffect))
