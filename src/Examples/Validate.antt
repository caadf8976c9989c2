-- ===== src/Examples/Validate.antt =====
-- racelink/services/scenes_service.py: the actions of a small scene, as a client sends them.
use gatecontrol_lora.Services.Scenes.{number, blank}
use gatecontrol_lora.Services.Scenes.Raw.{
  Field, missing, null, given, RawTarget, RawEffect, RawAction, OldTarget, old_list, old_number,
}
use gatecontrol_lora.Services.Scenes.Containers.{plain_target, broadcast_target, no_params}
use gatecontrol_lora.Services.Scenes.Validate.{canonical_action, canonical_actions, no_offset}
use gatecontrol_lora.Services.Scenes.Validate.Sound.{AreCanonical, AllActions}
use gatecontrol_lora.Services.Scenes.Validate.Kept.{canonical_actions-IsCanonical}
use gatecontrol_lora.Services.Scenes.Validate.Planned.{canonical_actions-IsPlanned, IsPlanned}
use gatecontrol_lora.Services.Scenes.Validate.Written.{plain_action, only_kind}
use gatecontrol_lora.Services.Action.{
  Actions, nil, cons, delay, offset_group, effect, rl_preset, wled_control, to_groups, to_device,
  to_broadcast, EffectKind, Target, EffectAction,
}
use gatecontrol_lora.Services.EffectPlan.{no_flags}
use gatecontrol_lora.Services.Optimizer.{groups}
use gatecontrol_lora.Prelude.{
  traverse, ℕ, List, Option, [], codes, none, some, pos, ◌∷◌, ◌≡◌, refl, ok, err, type_error,
  value_error,
}

-- The old form of a target of one group.
abbrev one_group : ℕ → RawTarget
one_group g = record (plain_target (some (codes "group")) none) { value_int = number (pos g) }

abbrev child : RawEffect
child = record {
  raw_kind = some (codes "wled_control");
  raw_target = given (one_group 3);
  raw_params = null;
  raw_flags = missing;
}

abbrev cascade : RawAction
cascade = record {
  raw_effect = only_kind (codes "offset_group") missing;
  raw_duration = none;
  raw_groups = old_list (number (pos 3) ∷ number (pos 1) ∷ []);
  raw_offset =
      some
        (record no_offset { raw_mode = some (codes "linear"); raw_step = some (number (pos 50)) });
  raw_children = given (some child ∷ []);
}

abbrev pause : RawAction
pause = record (plain_action (only_kind (codes "delay") missing)) {
  raw_duration = some (number (pos 250));
}

abbrev to_one : RawAction
to_one = plain_action (record {
  raw_kind = some (codes "rl_preset");
  raw_target = given (record (plain_target (some (codes "device")) none) {
    value_text = some (codes " aabbcc0a0b0c ");
  });
  raw_params = missing;
  raw_flags = null;
})

abbrev pub sent : Field (List (Option RawAction))
sent = given (some cascade ∷ some pause ∷ some to_one ∷ [])

abbrev effect_on : EffectKind → Target → EffectAction
effect_on kind t = record {
  effect_kind = kind;
  target = t;
  params = no_params;
  flags_override = no_flags;
}

abbrev pub kept : Actions
kept =
    cons
      (offset_group (some (groups (1 ∷ 3 ∷ [])))
        (some (record (blank (codes "linear")) { base_ms = some (pos 0); step_ms = some (pos 50) }))
        (cons (effect (effect_on wled_control (to_groups (3 ∷ [])))) nil))
      (cons (delay 250)
        (cons (effect (effect_on rl_preset (to_device (codes "AABBCC0A0B0C")))) nil))

accepted : canonical_actions sent ≡ ok kept
unfolding canonical_actions traverse
accepted = refl

canonical_actions-IsCanonical_example : AreCanonical kept
canonical_actions-IsCanonical_example = canonical_actions-IsCanonical sent kept accepted

canonical_actions-IsPlanned_example : AllActions (IsPlanned (1 ∷ 3 ∷ []) none none none) kept
canonical_actions-IsPlanned_example =
    canonical_actions-IsPlanned sent kept (1 ∷ 3 ∷ []) none none none accepted

-- A group of a child that its container does not have.
foreign_child_test :
    canonical_action (some (record cascade { raw_groups = old_list (number (pos 1) ∷ []) }))
    ≡ err value_error
unfolding canonical_action traverse
foreign_child_test = refl

-- An action of the old form, on the groups 2 and 5 with their milliseconds.
abbrev old_action : OldTarget → RawAction
old_action old = plain_action (record child {
  raw_target =
      given (record (plain_target (some (codes "groups_offset")) none) { old_target = old });
})

abbrev old_pair : OldTarget
old_pair = record broadcast_target.old_target {
  old_entries =
      record { old_id = old_number (pos 5); old_ms = old_number (pos 70) }
      ∷ record { old_id = old_number (pos 2); old_ms = old_number (pos 0) }
      ∷ [];
}

migrated_test :
    canonical_action (some (old_action old_pair))
    ≡ ok (
        offset_group
          (some (groups (2 ∷ 5 ∷ [])))
          (some (record (blank (codes "explicit")) { values = (2, pos 0) ∷ (5, pos 70) ∷ [] }))
          (cons (effect (effect_on wled_control to_broadcast)) nil))
unfolding canonical_action traverse
migrated_test = refl

-- An action of the old form without groups raises TypeError, which no caller catches.
no_groups_test : canonical_action (some (old_action broadcast_target.old_target)) ≡ err type_error
unfolding canonical_action
no_groups_test = refl
