-- ===== src/Examples/Optimizer.antt =====
-- The offset optimizer on a linear cascade over three of four groups.
use gatecontrol_lora.Services.Optimizer.Receiver.{active_ms, deliver_all}
use gatecontrol_lora.Prelude.{
  ℕ, List, [], arith, codes, none, ok, pos, refl, some, ℤ, ◌∷◌, ◌≡◌, ◌⊎◌, traverse, ◌*ℤ◌, ◌+ℤ◌,
}
use gatecontrol_lora.Protocol.Offset.{
  OffsetParams, linear, mode_linear, mode_none, mode_of, build_offset_of,
}
use gatecontrol_lora.Domain.OffsetFormula.{OffsetSpec, evaluate_offset_ms, spec_mode}
use gatecontrol_lora.Services.Optimizer.{
  OptimizerPlan, cheapest, formula_plus_overrides, groups, offset_op, offset_payload_kwargs,
  override_b, per_group_explicit, plan_offset_setup, strategy_a, strategy_b, strategy_c,
  explicit_op, make_offset_op,
}
use gatecontrol_lora.Services.Optimizer.Outcome.{plan_offset_setup-sets, plan_offset_setup-spares}

abbrev pub cascade : OffsetSpec
cascade = record {
  mode = some (codes "Linear");
  offset_ms = none;
  base_ms = some (pos 100);
  step_ms = some (pos 50);
  center = none;
  cycle = none;
  values = [];
}

abbrev listed : List ℕ
listed = 1 ∷ 2 ∷ 3 ∷ []

abbrev known : List ℕ
known = 1 ∷ 2 ∷ 3 ∷ 4 ∷ []

abbrev formula : OffsetParams
formula = mode_linear (pos 100) (pos 50)

-- Strategy C: the broadcast formula and one override beat three explicit ops.
strategy_c_wins :
    plan_offset_setup (groups listed) cascade known
    ≡ ok (record {
      strategy = formula_plus_overrides;
      ops = offset_op 255 formula 6 ∷ offset_op 4 mode_none 2 ∷ [];
    })
unfolding plan_offset_setup strategy_a strategy_b strategy_c override_b cheapest spec_mode mode_of
    traverse explicit_op evaluate_offset_ms make_offset_op build_offset_of ◌+ℤ◌ ◌*ℤ◌
strategy_c_wins = refl

cascade_mode : spec_mode cascade ≡ linear
unfolding spec_mode mode_of
cascade_mode = refl

plan_offset_setup-sets_example :
    (plan : OptimizerPlan) × (plan_offset_setup (groups listed) cascade known ≡ ok plan)
    × (ms : ℤ) × (evaluate_offset_ms cascade (pos 2) ≡ ok ms)
    × (active_ms 2 (deliver_all 2 plan.ops none) ≡ some ms)
unfolding spec_mode mode_of offset_payload_kwargs
plan_offset_setup-sets_example =
    plan_offset_setup-sets cascade known listed 2 none formula refl refl refl (omega arith)
      (omega arith) (omega arith) refl

plan_offset_setup-spares_example :
    (plan : OptimizerPlan) × (plan_offset_setup (groups listed) cascade known ≡ ok plan)
    × ((deliver_all 4 plan.ops (some formula) ≡ some formula)
        ⊎ (deliver_all 4 plan.ops (some formula) ≡ none))
unfolding spec_mode mode_of offset_payload_kwargs
plan_offset_setup-spares_example =
    plan_offset_setup-spares cascade known listed 4 (some formula) formula refl refl refl
      (omega arith) (omega arith) (omega arith) refl refl

abbrev plan_of : ℕ → OptimizerPlan
plan_of n = record { strategy = per_group_explicit; ops = offset_op 1 mode_none n ∷ [] }
