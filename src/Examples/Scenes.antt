-- ===== src/Examples/Scenes.antt =====
-- A linear cascade as a client would send it, validated and then planned.
use gatecontrol_lora.Services.Optimizer.Receiver.{deliver_all, active_ms}
use gatecontrol_lora.Protocol.Offset.{mode_of}
use gatecontrol_lora.Services.Optimizer.{
  OptimizerPlan, is_formula, plan_offset_setup, groups, is_none,
}
use gatecontrol_lora.Prelude.{
  ℕ, List, [], arith, codes, err, false, none, ok, pos, refl, some, true, value_error, ℤ, ◌∷◌, ◌≡◌,
}
use gatecontrol_lora.Services.Scenes.{
  RawValue, RawOffset, blank, block_mode, canonical_groups, canonical_offset_block, number,
}
use gatecontrol_lora.Services.Scenes.Dispatch.{canonical_offset_block-sets}
use gatecontrol_lora.Domain.OffsetFormula.{OffsetSpec, evaluate_offset_ms}

abbrev raw_ids : List RawValue
raw_ids = number (pos 3) ∷ number (pos 1) ∷ number (pos 2) ∷ []

abbrev raw_block : RawOffset
raw_block = record {
  raw_mode = some (codes "linear");
  raw_base = some (number (pos 100));
  raw_step = some (number (pos 50));
  raw_center = none;
  raw_cycle = none;
  raw_values = none;
}

abbrev sorted_ids : List ℕ
sorted_ids = 1 ∷ 2 ∷ 3 ∷ []

abbrev block : OffsetSpec
block = record (blank (codes "linear")) { base_ms = some (pos 100); step_ms = some (pos 50) }

duplicate_id_test : canonical_groups (number (pos 1) ∷ number (pos 1) ∷ []) ≡ err value_error
unfolding canonical_groups
duplicate_id_test = refl

wide_step_test :
    canonical_offset_block none (record raw_block { raw_step = some (number (pos 32768)) })
    ≡ err value_error
unfolding canonical_offset_block
wide_step_test = refl

ids_validated : canonical_groups raw_ids ≡ ok sorted_ids
unfolding canonical_groups
ids_validated = refl

block_validated : canonical_offset_block (some sorted_ids) raw_block ≡ ok block
unfolding canonical_offset_block
block_validated = refl

block_formula :
    (is_formula (block_mode (some (codes "linear"))) ≡ true)
    × (is_none (block_mode (some (codes "linear"))) ≡ false)
unfolding mode_of
block_formula = (refl, refl)

canonical_offset_block-sets_example :
    (plan : OptimizerPlan) × (plan_offset_setup (groups sorted_ids) block (1 ∷ 2 ∷ 3 ∷ 4 ∷ [])
      ≡ ok plan)
    × (ms : ℤ) × (evaluate_offset_ms block (pos 2) ≡ ok ms)
    × (active_ms 2 (deliver_all 2 plan.ops none) ≡ some ms)
canonical_offset_block-sets_example =
    canonical_offset_block-sets raw_ids sorted_ids raw_block block (1 ∷ 2 ∷ 3 ∷ 4 ∷ []) 2 none
      ids_validated block_validated block_formula.0 block_formula.1 (omega arith) refl
