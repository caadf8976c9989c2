-- ===== src/Services/Optimizer/Total.antt =====
-- The optimizer answers for every supported target and every known mode, with small ops.
use gatecontrol_lora.Prelude.{
  ℕ, All, Bool, List, Result, [], false, if◌then◌else◌, map, none, ok, refl, some, true, ◌∷◌, ◌≡◌,
  ◌≤◌,
}
use gatecontrol_lora.Protocol.Offset.{
  OffsetParams, Mode, explicit, linear, mode_explicit, mode_none, modulo, none_mode, unknown,
  vshape,
}
use gatecontrol_lora.Protocol.Offset.RoundTrip.{body_length_bounds}
use gatecontrol_lora.Domain.OffsetFormula.{OffsetSpec, spec_mode}
use gatecontrol_lora.Services.WireOp.{WireOp}
use gatecontrol_lora.Services.Optimizer.{
  OptimizerPlan, ContainerTarget, broadcast, cheapest, choose, groups, is_empty, is_formula,
  is_none, offset_op, override_b, plan_offset_setup, present, strategy_a, strategy_c, unsupported,
}
use gatecontrol_lora.Services.Optimizer.Selection.{cheapest-All}
use gatecontrol_lora.Services.Optimizer.Plans.{
  choose_groups, IsKnown, choose_broadcast, choose_none, formula_kwargs, intended_ms, others,
  plan_b, plan_c, plan_none, strategy_b_lem, unless_empty, wire_op,
}

-- Between 2 and 7 bytes.
abbrev pub IsSmall : WireOp → Type 0
IsSmall op = (2 ≤ op.body_bytes) × (op.body_bytes ≤ 7)

abbrev pub AllSmall : OptimizerPlan → Type 0
AllSmall plan = All IsSmall plan.ops

wire_op-IsSmall : (kw : OffsetParams) (gid : ℕ) → IsSmall (wire_op kw gid)
unfolding offset_op
wire_op-IsSmall kw gid = body_length_bounds kw

map_AllSmall : (kw : ℕ → OffsetParams) (l : List ℕ) → All IsSmall (map (λ g. wire_op (kw g) g) l)
map_AllSmall kw [] = tt
map_AllSmall kw (g ∷ gs) = (wire_op-IsSmall (kw g) g, map_AllSmall kw gs)

small_b : (mode : Mode) (spec : OffsetSpec) (l : List ℕ) → AllSmall (plan_b mode spec l)
small_b mode spec l = map_AllSmall (λ g. mode_explicit (intended_ms mode spec g)) l

small_c : (kw : OffsetParams) (known l : List ℕ) → AllSmall (plan_c kw known l)
small_c kw known l = (wire_op-IsSmall kw 255, map_AllSmall (λ g. mode_none) (others known l))

small_empty : AllSmall (cheapest [])
unfolding cheapest
small_empty = tt

small_two :
    (no_b no_c : Bool) (b c : OptimizerPlan)
    → AllSmall b
    → AllSmall c
    → AllSmall (
        cheapest
          (present (if no_b then none else some b) (present (if no_c then none else some c) [])))
small_two true true b c hb hc = small_empty
small_two true false b c hb hc = cheapest-All AllSmall c [] (hc, tt)
small_two false true b c hb hc = cheapest-All AllSmall b [] (hb, tt)
small_two false false b c hb hc = cheapest-All AllSmall b (c ∷ []) (hb, (hc, tt))

small_broadcast :
    (no_b : Bool) (a b : OptimizerPlan)
    → AllSmall a
    → AllSmall b
    → AllSmall (cheapest (a ∷ present (if no_b then none else some b) []))
small_broadcast true a b ha hb = cheapest-All AllSmall a [] (ha, tt)
small_broadcast false a b ha hb = cheapest-All AllSmall a (b ∷ []) (ha, (hb, tt))

small_explicit :
    (no_b : Bool) (b : OptimizerPlan)
    → AllSmall b
    → AllSmall (cheapest (present (if no_b then none else some b) []))
small_explicit true b hb = small_empty
small_explicit false b hb = cheapest-All AllSmall b [] (hb, tt)

abbrev Answers : Result OptimizerPlan → Type 0
Answers r = (plan : OptimizerPlan) × (r ≡ ok plan) × AllSmall plan

choose_explicit :
    (is_all : Bool) (spec : OffsetSpec) (known participants : List ℕ)
    → spec_mode spec ≡ explicit
    → choose is_all explicit spec known participants
      ≡ ok (
          cheapest (
            present
              (unless_empty
                (if is_all then known else participants)
                (plan_b explicit spec (if is_all then known else participants)))
              []))
unfolding choose strategy_a strategy_c override_b
choose_explicit true spec known participants e = rw (strategy_b_lem explicit spec known e tt) refl
choose_explicit false spec known participants e =
    rw (strategy_b_lem explicit spec participants e tt) refl

Answers-formula :
    (mode : Mode) (spec : OffsetSpec) (known participants : List ℕ)
    → spec_mode spec ≡ mode
    → is_formula mode ≡ true
    → is_none mode ≡ false
    → Answers (choose false mode spec known participants)
Answers-formula mode spec known participants e formula not_none =
    let (kw, payload_ok) = formula_kwargs mode spec formula in
    (
      _,
      choose_groups mode spec known participants e formula not_none payload_ok,
      small_two (is_empty participants) (is_empty known) _ _ (small_b mode spec participants)
          (small_c kw known participants),
    )

Answers-broadcast :
    (mode : Mode) (spec : OffsetSpec) (known : List ℕ)
    → spec_mode spec ≡ mode
    → is_formula mode ≡ true
    → Answers (choose true mode spec known [])
Answers-broadcast mode spec known e formula =
    let (kw, payload_ok) = formula_kwargs mode spec formula in
    (
      _,
      choose_broadcast mode spec known e formula payload_ok,
      small_broadcast (is_empty known) _ _ (wire_op-IsSmall kw 255, tt) (small_b mode spec known),
    )

Answers-explicit :
    (is_all : Bool) (spec : OffsetSpec) (known participants : List ℕ)
    → spec_mode spec ≡ explicit
    → Answers (choose is_all explicit spec known participants)
Answers-explicit is_all spec known participants e = (
  _,
  choose_explicit is_all spec known participants e,
  small_explicit (is_empty (if is_all then known else participants)) _
      (small_b explicit spec (if is_all then known else participants)),
)

Answers-groups :
    (mode : Mode) (spec : OffsetSpec) (known participants : List ℕ)
    → spec_mode spec ≡ mode
    → IsKnown mode
    → Answers (choose false mode spec known participants)
Answers-groups none_mode spec known participants e k = (
  plan_none participants,
  choose_none spec known participants e,
  map_AllSmall (λ g. mode_none) participants,
)
Answers-groups explicit spec known participants e k =
    Answers-explicit false spec known participants e
Answers-groups linear spec known participants e k =
    Answers-formula linear spec known participants e refl refl
Answers-groups vshape spec known participants e k =
    Answers-formula vshape spec known participants e refl refl
Answers-groups modulo spec known participants e k =
    Answers-formula modulo spec known participants e refl refl
Answers-groups unknown spec known participants e k = absurd k

Answers-all :
    (mode : Mode) (spec : OffsetSpec) (known : List ℕ)
    → spec_mode spec ≡ mode
    → IsKnown mode
    → Answers (choose true mode spec known [])
Answers-all none_mode spec known e k = Answers-broadcast none_mode spec known e refl
Answers-all explicit spec known e k = Answers-explicit true spec known [] e
Answers-all linear spec known e k = Answers-broadcast linear spec known e refl
Answers-all vshape spec known e k = Answers-broadcast vshape spec known e refl
Answers-all modulo spec known e k = Answers-broadcast modulo spec known e refl
Answers-all unknown spec known e k = absurd k

abbrev pub IsSupported : ContainerTarget → Type 0
IsSupported broadcast = Unit {0}
IsSupported (groups _) = Unit {0}
IsSupported unsupported = ⊥

-- For a broadcast or groups target and a known mode the optimizer returns a plan, and never
-- raises; every op of the plan has a body of 2 to 7 bytes.
pub plan_offset_setup_total :
    (target : ContainerTarget) (spec : OffsetSpec) (known : List ℕ)
    → IsSupported target
    → IsKnown (spec_mode spec)
    → (plan : OptimizerPlan) × (plan_offset_setup target spec known ≡ ok plan)
      × All (λ op. (2 ≤ op.body_bytes) × (op.body_bytes ≤ 7)) plan.ops
unfolding plan_offset_setup
plan_offset_setup_total broadcast spec known s k = Answers-all (spec_mode spec) spec known refl k
plan_offset_setup_total (groups l) spec known s k =
    Answers-groups (spec_mode spec) spec known l refl k
plan_offset_setup_total unsupported spec known s k = absurd s
