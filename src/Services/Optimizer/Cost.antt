-- ===== src/Services/Optimizer/Cost.antt =====
-- How many packets the optimizer's plan takes.
use gatecontrol_lora.Prelude.{
  ℕ, List, [], ap, arith, false, length, length-map, ok, refl, suc, true, ◌+◌, ◌∙◌, ◌∷◌, ◌≡◌,
}
use Prim.Native.Nat.{min}
use mathlib.Core.Path.{ap₂}
use gatecontrol_lora.Protocol.Offset.{OffsetParams, Mode, mode_none}
use gatecontrol_lora.Domain.OffsetFormula.{OffsetSpec, spec_mode}
use gatecontrol_lora.Services.Optimizer.{
  OptimizerPlan, broadcast, cheapest, groups, is_empty, is_formula, is_none, packet_count,
  plan_offset_setup, present,
}
use gatecontrol_lora.Services.Optimizer.Selection.{cheapest-cons, cheapest-single}
use gatecontrol_lora.Services.Optimizer.Plans.{
  choose_groups, choose_broadcast, explicit_wire_op, formula_kwargs, others, plan_a, plan_b, plan_c,
  unless_empty, wire_op,
}

-- The cheaper of two plans has the smaller packet count.
count_of_two :
    (b c : OptimizerPlan)
    → packet_count (cheapest (b ∷ c ∷ [])) ≡ min (packet_count b) (packet_count c)
count_of_two b c = rw (cheapest-cons b c [], cheapest-single c) (ground arith)

-- A formula (linear, vshape or modulo) on a non-empty list of groups, with a non-empty set of
-- known groups, takes as many packets as the better of the two strategies: one for each listed
-- group, or one and one more for each known group that is not listed. The plan is one of the two.
pub packet_count-plan_offset_setup :
    (spec : OffsetSpec) (known participants : List ℕ)
    → is_formula (spec_mode spec) ≡ true
    → is_none (spec_mode spec) ≡ false
    → is_empty participants ≡ false
    → is_empty known ≡ false
    → (plan : OptimizerPlan) × (plan_offset_setup (groups participants) spec known ≡ ok plan)
      × (packet_count plan ≡ min (length participants) (1 + length (others known participants)))
unfolding plan_offset_setup
packet_count-plan_offset_setup spec known participants formula not_none some_listed some_known =
    let mode = spec_mode spec in
    let (kw, payload_ok) = formula_kwargs mode spec formula in
    let b = plan_b mode spec participants in
    let c = plan_c kw known participants in
    (
      cheapest (b ∷ c ∷ []),
      choose_groups mode spec known participants refl formula not_none payload_ok
          ∙ rw (some_listed, some_known) refl,
      count_of_two b c
          ∙ ap₂ min (length-map (explicit_wire_op mode spec) participants)
              (ap suc (length-map (wire_op mode_none) (others known participants)) ∙ omega arith),
    )

broadcast_count :
    (mode : Mode) (spec : OffsetSpec) (kw : OffsetParams) (known : List ℕ)
    → packet_count (cheapest (plan_a kw ∷ present (unless_empty known (plan_b mode spec known)) []))
      ≡ 1
broadcast_count mode spec kw [] = rw (cheapest-single (plan_a kw)) refl
broadcast_count mode spec kw (g ∷ gs) =
    count_of_two (plan_a kw) (plan_b mode spec (g ∷ gs)) ∙ omega arith

-- A formula on the broadcast target takes exactly one packet, whatever groups are known.
pub packet_count-plan_offset_setup_broadcast :
    (spec : OffsetSpec) (known : List ℕ)
    → is_formula (spec_mode spec) ≡ true
    → (plan : OptimizerPlan) × (plan_offset_setup broadcast spec known ≡ ok plan)
      × (packet_count plan ≡ 1)
unfolding plan_offset_setup
packet_count-plan_offset_setup_broadcast spec known formula =
    let mode = spec_mode spec in
    let (kw, payload_ok) = formula_kwargs mode spec formula in
    (
      cheapest (plan_a kw ∷ present (unless_empty known (plan_b mode spec known)) []),
      choose_broadcast mode spec known refl formula payload_ok,
      broadcast_count mode spec kw known,
    )
