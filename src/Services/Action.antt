-- ===== src/Services/Action.antt =====
-- The canonical action dicts of a scene, as racelink/services/dispatch_planner.py reads them.
use gatecontrol_lora.Prelude.{ℕ, List, Option, Text}
use gatecontrol_lora.Domain.Flags.{FlagMapping}
use gatecontrol_lora.Domain.Params.{EffectParams}
use gatecontrol_lora.Domain.OffsetFormula.{OffsetSpec}
use gatecontrol_lora.Services.WireOp.{
  ActionKind, kind_rl_preset, kind_startblock, kind_wled_control, kind_wled_preset,
}
use gatecontrol_lora.Services.Optimizer.{ContainerTarget}

-- The unified `target`; `other_target` is a missing or unknown kind.
pub data Target : Type 0 where
  to_broadcast other_target : Target
  to_groups : List ℕ → Target
  to_device : (addr : Text) → Target

pub data EffectKind : Type 0 where
  rl_preset wled_preset wled_control startblock : EffectKind

abbrev pub kind_of : EffectKind → ActionKind
kind_of rl_preset = kind_rl_preset
kind_of wled_preset = kind_wled_preset
kind_of wled_control = kind_wled_control
kind_of startblock = kind_startblock

pub record EffectAction : Type 0 where
  pub effect_kind : EffectKind
  pub target : Target
  pub params : EffectParams
  pub flags_override : FlagMapping

-- A canonical action dict, by its kind.
mutual
  pub data Action : Type 0 where
    delay : (duration_ms : ℕ) → Action
    sync : Action
    offset_group : Option ContainerTarget → Option OffsetSpec → Actions → Action
    effect : EffectAction → Action
    unknown_kind : Action

  pub data Actions : Type 0 where
    nil : Actions
    cons : Action → Actions → Actions
