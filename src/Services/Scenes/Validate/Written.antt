-- ===== src/Services/Scenes/Validate/Written.antt =====
-- The action dicts that racelink/services/scenes_service.py writes to its file, as it reads them
-- again.
use gatecontrol_lora.Domain.OffsetFormula.{OffsetSpec}
use gatecontrol_lora.Services.Scenes.{RawOffset, number}
use gatecontrol_lora.Services.Scenes.Raw.{
  Field, missing, given, RawTarget, RawEffect, RawAction, old_other,
}
use gatecontrol_lora.Services.Action.{
  Action, Actions, nil, cons, delay, sync, offset_group, effect, EffectKind, rl_preset, wled_preset,
  wled_control, startblock, Target, to_broadcast, to_groups, to_device, other_target, unknown_kind,
  EffectAction,
}
use gatecontrol_lora.Services.Optimizer.{ContainerTarget, broadcast, groups, unsupported}
use gatecontrol_lora.Services.Scenes.Containers.{plain_target, broadcast_target}
use gatecontrol_lora.Services.Scenes.Accepted.{as_raw}
use gatecontrol_lora.Services.Scenes.Validate.Blocks.{written_offset}
use gatecontrol_lora.Services.Scenes.Validate.Sound.{is_flagged}
use gatecontrol_lora.Prelude.{List, Option, Text, [], codes, none, some, pos, ◌∷◌, if◌then◌else◌}

abbrev pub written_target : Target → Field RawTarget
written_target to_broadcast = given broadcast_target
written_target (to_groups ids) = given (plain_target (some (codes "groups")) (some (as_raw ids)))
written_target (to_device addr) =
    given (record (plain_target (some (codes "device")) none) { value_text = some addr })
written_target other_target = missing

abbrev pub kind_text : EffectKind → Text
kind_text rl_preset = codes "rl_preset"
kind_text wled_preset = codes "wled_preset"
kind_text wled_control = codes "wled_control"
kind_text startblock = codes "startblock"

abbrev pub written_effect : EffectAction → RawEffect
written_effect a = record {
  raw_kind = some (kind_text a.effect_kind);
  raw_target = written_target a.target;
  raw_params = given a.params;
  raw_flags = if is_flagged a.effect_kind then given a.flags_override else missing;
}

abbrev pub plain_action : RawEffect → RawAction
plain_action e = record {
  raw_effect = e;
  raw_duration = none;
  raw_groups = old_other;
  raw_offset = none;
  raw_children = missing;
}

abbrev pub only_kind : Text → Field RawTarget → RawEffect
only_kind kind target = record {
  raw_kind = some kind;
  raw_target = target;
  raw_params = missing;
  raw_flags = missing;
}

abbrev pub written_child : Action → Option RawEffect
written_child (effect a) = some (written_effect a)
written_child (delay ms) = none
written_child sync = none
written_child unknown_kind = none
written_child (offset_group t o cs) = none

abbrev pub written_children : Actions → List (Option RawEffect)
written_children nil = []
written_children (cons a rest) = written_child a ∷ written_children rest

abbrev pub container_of : Option ContainerTarget → Field RawTarget
container_of none = missing
container_of (some broadcast) = written_target to_broadcast
container_of (some (groups ids)) = written_target (to_groups ids)
container_of (some unsupported) = missing

abbrev pub block_of : Option OffsetSpec → Option RawOffset
block_of none = none
block_of (some spec) = some (written_offset spec)

abbrev pub written_action : Action → Option RawAction
written_action (delay ms) = some (record (plain_action (only_kind (codes "delay") missing)) {
  raw_duration = some (number (pos ms));
})
written_action sync = some (plain_action (only_kind (codes "sync") missing))
written_action unknown_kind = none
written_action (effect a) = some (plain_action (written_effect a))
written_action (offset_group target offset children) =
    some (record (plain_action (only_kind (codes "offset_group") (container_of target))) {
      raw_offset = block_of offset;
      raw_children = given (written_children children);
    })

abbrev pub written_actions : Actions → List (Option RawAction)
written_actions nil = []
written_actions (cons a rest) = written_action a ∷ written_actions rest
