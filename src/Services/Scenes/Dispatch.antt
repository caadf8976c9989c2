-- ===== src/Services/Scenes/Dispatch.antt =====
-- From the validated offset group of racelink/services/scenes_service.py to the packets that
-- racelink/services/offset_dispatch_optimizer.py plans for it.
use gatecontrol_lora.Services.Optimizer.{
  is_formula, is_none, OptimizerPlan, groups, plan_offset_setup,
}
use gatecontrol_lora.Services.Optimizer.Receiver.{Config, active_ms, deliver_all}
use gatecontrol_lora.Domain.OffsetFormula.{OffsetSpec, evaluate_offset_ms}
use gatecontrol_lora.Prelude.{ℕ, All, List, contains, false, ok, pos, same, some, true, ℤ, ◌<◌, ◌≡◌}
use gatecontrol_lora.Services.Scenes.{
  RawOffset, RawValue, block_mode, canonical_groups, canonical_offset_block,
}
use gatecontrol_lora.Services.Scenes.Canonical.{canonical_block-Usable, canonical_groups_lt}
use gatecontrol_lora.Services.Optimizer.Outcome.{plan_offset_setup-sets}

-- A target and an offset block that pass validation reach the devices: a device of a group of
-- the target ends with the offset that the host's evaluator gives for its group, whatever it
-- stored before. The block's mode is linear, vshape or modulo, and the known groups are below
-- 255.
pub canonical_offset_block-sets :
    (raws : List RawValue) (ids : List ℕ) (raw : RawOffset) (spec : OffsetSpec) (known : List ℕ)
    (own : ℕ) (state : Config)
    → canonical_groups raws ≡ ok ids
    → canonical_offset_block (some ids) raw ≡ ok spec
    → is_formula (block_mode raw.raw_mode) ≡ true
    → is_none (block_mode raw.raw_mode) ≡ false
    → All (λ g. g < 255) known
    → contains ids own ≡ true
    → (plan : OptimizerPlan) × (plan_offset_setup (groups ids) spec known ≡ ok plan)
      × (ms : ℤ) × (evaluate_offset_ms spec (pos own) ≡ ok ms)
      × (active_ms own (deliver_all own plan.ops state) ≡ some ms)
unfolding canonical_offset_block
canonical_offset_block-sets raws ids raw spec known own state target block f n vk h =
    let m = block_mode raw.raw_mode in
    let ((kw, payload, in_range), same) = canonical_block-Usable m (some ids) raw spec f n block in
    plan_offset_setup-sets spec known ids own state kw (rw same f) (rw same n) payload in_range
      (canonical_groups_lt raws ids target) vk h
