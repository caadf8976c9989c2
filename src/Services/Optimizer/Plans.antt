-- ===== src/Services/Optimizer/Plans.antt =====
-- The candidate plans in closed form: which ops each strategy makes for a valid offset block.
use gatecontrol_lora.Prelude.{
  ℕ, List, Result, [], err, map, ok, or_else, pos, refl, traverse, ℤ, ◌%◌, ◌∷◌, ◌≡◌, Bool-cases,
  Option, contains, false, if◌then◌else◌, inl, inr, keep, none, not, some, true,
}
use gatecontrol_lora.Protocol.Offset.{
  OffsetParams, Mode, explicit, linear, mode_explicit, mode_none, modulo, none_mode, unknown,
  vshape,
}
use gatecontrol_lora.Protocol.Offset.RoundTrip.{body_length, parse_offset_body-build_offset_of}
use gatecontrol_lora.Services.Optimizer.Selection.{cheapest-single}
use gatecontrol_lora.Domain.OffsetFormula.{OffsetSpec, evaluate_mode, evaluate_offset_ms, spec_mode}
use gatecontrol_lora.Services.WireOp.{WireOp}
use gatecontrol_lora.Services.Optimizer.{
  empty_spec, explicit_op, make_offset_op, none_op, offset_op, offset_payload_kwargs, value_of,
  OptimizerPlan, broadcast_formula, cheapest, choose, formula_plus_overrides, is_empty, is_formula,
  is_none, override_b, per_group_explicit, present, strategy_a, strategy_b, strategy_c,
}

pub traverse_ok {ℓ κ} :
    {A : Type ℓ} {B : Type κ} (f : A → Result B) (g : A → B) (xs : List A)
    → ((x : A) → f x ≡ ok (g x))
    → traverse f xs ≡ ok (map g xs)
unfolding traverse
traverse_ok f g [] h = refl
traverse_ok f g (x ∷ xs) h = rw (h x, traverse_ok f g xs h) refl

-- The wire op that carries `kw` to the group `gid`.
abbrev pub wire_op : OffsetParams → ℕ → WireOp
wire_op kw gid = offset_op gid kw (body_length kw)

pub make_offset_op_lem :
    (gid : ℕ) (mode : Mode) (spec : OffsetSpec) {kw : OffsetParams}
    → offset_payload_kwargs mode spec ≡ ok kw
    → make_offset_op gid mode spec ≡ ok (wire_op kw gid)
unfolding make_offset_op
make_offset_op_lem gid mode spec {kw} h =
    let (body, built, _, len) = parse_offset_body-build_offset_of (pos gid) kw in
    rw (h, built, len) refl

pub none_op_lem : (gid : ℕ) → none_op gid ≡ ok (wire_op mode_none gid)
unfolding offset_payload_kwargs
none_op_lem gid = make_offset_op_lem gid none_mode empty_spec refl

-- The offset that a group is to have: its persisted value, or the formula at its id.
unfoldable pub intended_ms : Mode → OffsetSpec → ℕ → ℤ
intended_ms explicit spec gid = or_else (value_of spec.values gid) (pos 0)
intended_ms mode spec gid = elim (evaluate_mode mode spec (gid % 256)) [
  | ok ms ↦ ms
  | err e ↦ pos 0
]

abbrev pub IsKnown : Mode → Type 0
IsKnown unknown = ⊥
IsKnown _ = Unit {0}

pub explicit_op_lem :
    (mode : Mode) (spec : OffsetSpec) (gid : ℕ)
    → spec_mode spec ≡ mode
    → IsKnown mode
    → explicit_op mode spec gid ≡ ok (wire_op (mode_explicit (intended_ms mode spec gid)) gid)
unfolding explicit_op evaluate_offset_ms intended_ms offset_payload_kwargs
explicit_op_lem explicit spec gid e k = make_offset_op_lem gid explicit _ refl
explicit_op_lem none_mode spec gid e k = rw e (make_offset_op_lem gid explicit _ refl)
explicit_op_lem linear spec gid e k = rw e (make_offset_op_lem gid explicit _ refl)
explicit_op_lem vshape spec gid e k = rw e (make_offset_op_lem gid explicit _ refl)
explicit_op_lem modulo spec gid e k = rw e (make_offset_op_lem gid explicit _ refl)
explicit_op_lem unknown spec gid e k = absurd k

-- The three plans.
abbrev pub plan_a : OffsetParams → OptimizerPlan
plan_a kw = record { strategy = broadcast_formula; ops = wire_op kw 255 ∷ [] }

abbrev pub explicit_wire_op : Mode → OffsetSpec → ℕ → WireOp
explicit_wire_op mode spec gid = wire_op (mode_explicit (intended_ms mode spec gid)) gid

abbrev pub plan_b : Mode → OffsetSpec → List ℕ → OptimizerPlan
plan_b mode spec concrete = record {
  strategy = per_group_explicit;
  ops = map (explicit_wire_op mode spec) concrete;
}

abbrev pub plan_none : List ℕ → OptimizerPlan
plan_none concrete = record {
  strategy = per_group_explicit;
  ops = map (wire_op mode_none) concrete;
}

abbrev pub others : List ℕ → List ℕ → List ℕ
others known participants = keep (λ gid. not (contains participants gid)) known

abbrev pub plan_c : OffsetParams → List ℕ → List ℕ → OptimizerPlan
plan_c kw known participants = record {
  strategy = formula_plus_overrides;
  ops = wire_op kw 255 ∷ map (wire_op mode_none) (others known participants);
}

pub formula_kwargs :
    (mode : Mode) (spec : OffsetSpec)
    → is_formula mode ≡ true
    → (kw : OffsetParams) × (offset_payload_kwargs mode spec ≡ ok kw)
unfolding offset_payload_kwargs
formula_kwargs none_mode spec h = (_, refl)
formula_kwargs explicit spec h = cc
formula_kwargs linear spec h = (_, refl)
formula_kwargs vshape spec h = (_, refl)
formula_kwargs modulo spec h = (_, refl)
formula_kwargs unknown spec h = cc

pub formula_IsKnown : (mode : Mode) → is_formula mode ≡ true → IsKnown mode
formula_IsKnown none_mode h = tt
formula_IsKnown explicit h = tt
formula_IsKnown linear h = tt
formula_IsKnown vshape h = tt
formula_IsKnown modulo h = tt
formula_IsKnown unknown h = cc

abbrev pub unless_empty : List ℕ → OptimizerPlan → Option OptimizerPlan
unless_empty l p = if is_empty l then none else some p

pub strategy_b_lem :
    (mode : Mode) (spec : OffsetSpec) (concrete : List ℕ)
    → spec_mode spec ≡ mode
    → IsKnown mode
    → strategy_b mode spec concrete ≡ ok (unless_empty concrete (plan_b mode spec concrete))
unfolding strategy_b
strategy_b_lem mode spec [] e k = refl
strategy_b_lem mode spec (g ∷ gs) e k =
    rw
      (traverse_ok (explicit_op mode spec) (explicit_wire_op mode spec) (g ∷ gs)
        (λ gid. explicit_op_lem mode spec gid e k))
      refl

pub none_ops_lem : (l : List ℕ) → traverse none_op l ≡ ok (map (wire_op mode_none) l)
none_ops_lem l = traverse_ok none_op (wire_op mode_none) l none_op_lem

-- A formula other than "none" on a list of groups: the cheaper of B and C.
pub choose_groups :
    (mode : Mode) (spec : OffsetSpec) (known participants : List ℕ) {kw : OffsetParams}
    → spec_mode spec ≡ mode
    → is_formula mode ≡ true
    → is_none mode ≡ false
    → offset_payload_kwargs mode spec ≡ ok kw
    → choose false mode spec known participants
      ≡ ok (
          cheapest (
            present
              (unless_empty participants (plan_b mode spec participants))
              (present (unless_empty known (plan_c kw known participants)) [])))
unfolding choose strategy_a strategy_c override_b
choose_groups mode spec known participants e formula not_none payload =
    rw
      (
        strategy_b_lem mode spec participants e (formula_IsKnown mode formula),
        formula,
        not_none,
        make_offset_op_lem 255 mode spec payload,
        none_ops_lem (others known participants),
      )
      (elim (Bool-cases (is_empty known)) [ inl x ↦ rw x refl | inr x ↦ rw x refl ])

-- A formula on the broadcast target: the cheaper of A and B.
pub choose_broadcast :
    (mode : Mode) (spec : OffsetSpec) (known : List ℕ) {kw : OffsetParams}
    → spec_mode spec ≡ mode
    → is_formula mode ≡ true
    → offset_payload_kwargs mode spec ≡ ok kw
    → choose true mode spec known []
      ≡ ok (cheapest (plan_a kw ∷ present (unless_empty known (plan_b mode spec known)) []))
unfolding choose strategy_a strategy_c override_b
choose_broadcast mode spec known e formula payload =
    rw
      (
        strategy_b_lem mode spec known e (formula_IsKnown mode formula),
        formula,
        make_offset_op_lem 255 mode spec payload,
      )
      (elim (Bool-cases (is_none mode)) [ inl x ↦ rw x refl | inr x ↦ rw x refl ])

-- The mode "none" on a list of groups: one NONE op for each.
pub choose_none :
    (spec : OffsetSpec) (known participants : List ℕ)
    → spec_mode spec ≡ none_mode
    → choose false none_mode spec known participants ≡ ok (plan_none participants)
unfolding choose strategy_a strategy_c override_b
choose_none spec known participants e =
    rw (strategy_b_lem none_mode spec participants e tt, none_ops_lem participants)
      (rw (cheapest-single (plan_none participants)) refl)
