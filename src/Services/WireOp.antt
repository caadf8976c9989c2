-- ===== src/Services/WireOp.antt =====
-- The planned wire send that planner, runner and cost estimator share (`WireOp`).
use gatecontrol_lora.Prelude.{ℕ, Bool, Option}
use gatecontrol_lora.Protocol.Offset.{OffsetParams}
use gatecontrol_lora.Domain.Device.{Device}
use gatecontrol_lora.Domain.Params.{EffectParams}

pub data Opcode : Type 0 where
  opc_offset opc_control opc_preset opc_sync : Opcode

pub data Sender : Type 0 where
  send_offset send_sync send_wled_preset send_wled_control send_startblock : Sender

-- `{"targetGroup": g}` or `{"targetDevice": device}`.
pub data TargetKwargs : Type 0 where
  target_group : ℕ → TargetKwargs
  target_device : Device → TargetKwargs

-- The keyword arguments that are spread into the sender.
pub data Payload : Type 0 where
  offset_payload : OffsetParams → Payload
  sync_payload : (brightness : ℕ) (trigger_armed : Bool) → Payload
  effect_payload : EffectParams → TargetKwargs → Payload

pub data ActionKind : Type 0 where
  kind_rl_preset kind_wled_preset kind_wled_control kind_startblock : ActionKind
  kind_sync kind_delay kind_offset_group kind_unknown : ActionKind

-- Which phase of an offset_group container emitted the op.
pub data Phase : Type 0 where
  no_phase offset_phase : Phase
  child_phase : (child_index : ℕ) (child_kind : ActionKind) → Phase

pub record WireOp : Type 0 where
  pub opcode : Opcode
  pub group : ℕ
  pub payload : Payload
  pub body_bytes : ℕ
  pub sender : Option Sender
  pub phase : Phase
  pub approximate : Bool
