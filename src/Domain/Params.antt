-- ===== src/Domain/Params.antt =====
-- The parameter dictionaries of the effect actions, with the keys that the code reads.
use gatecontrol_lora.Prelude.{Option, Text, ℤ}
use gatecontrol_lora.Protocol.Control.{ControlFields}
use gatecontrol_lora.Domain.Flags.{FlagMapping}

-- A preset is referred to by its id or by its key.
pub data PresetRef : Type 0 where
  by_id : ℤ → PresetRef
  by_key : Text → PresetRef

-- An action's `params`: `presetId`, the fields of OPC_CONTROL, and the four user flags.
pub record EffectParams : Type 0 where
  pub preset_id : Option PresetRef
  pub fields : ControlFields
  pub user_flags : FlagMapping
