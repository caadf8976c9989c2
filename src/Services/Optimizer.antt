-- ===== src/Services/Optimizer.antt =====
-- racelink/services/offset_dispatch_optimizer.py: the cheapest OPC_OFFSET sequence for a container.
-- Group ids are natural numbers.
pub mod Selection
pub mod Plans
pub mod Receiver
pub mod Outcome
pub mod Cost
pub mod Total
use gatecontrol_lora.Prelude.{
  ℕ, Bool, List, Option, Result, [], contains, err, false, if◌then◌else◌, keep, leb, length, ltb,
  not, ok, or_else, pos, some, traverse, true, value_error, ℤ, ◌&&◌, ◌+◌, ◌==◌, ◌||◌, ◌∷◌, ◌>>=◌,
  none,
}
use gatecontrol_lora.Protocol.Offset.{
  OffsetParams, Mode, build_offset_of, explicit, linear, mode_explicit, mode_linear, mode_modulo,
  mode_none, mode_vshape, modulo, unknown, vshape, none_mode,
}
use gatecontrol_lora.Domain.OffsetFormula.{
  OffsetSpec, evaluate_offset_ms, positive_cycle, spec_mode,
}
use gatecontrol_lora.Services.WireOp.{WireOp, no_phase, offset_payload, opc_offset, send_offset}

pub data Strategy : Type 0 where
  broadcast_formula per_group_explicit formula_plus_overrides : Strategy

pub record OptimizerPlan : Type 0 where
  pub strategy : Strategy
  pub ops : List WireOp

-- The container's `target`.
pub data ContainerTarget : Type 0 where
  broadcast unsupported : ContainerTarget
  groups : List ℕ → ContainerTarget

abbrev pub packet_count : OptimizerPlan → ℕ
packet_count p = length p.ops

abbrev pub bytes_of : List WireOp → ℕ
bytes_of [] = 0
bytes_of (op ∷ ops) = op.body_bytes + bytes_of ops

abbrev pub total_bytes : OptimizerPlan → ℕ
total_bytes p = bytes_of p.ops

abbrev pub empty_spec : OffsetSpec
empty_spec = record {
  mode = none;
  offset_ms = none;
  base_ms = none;
  step_ms = none;
  center = none;
  cycle = none;
  values = [];
}

-- `_offset_payload_kwargs`; with the mode they make the payload.
unfoldable pub offset_payload_kwargs : Mode → OffsetSpec → Result OffsetParams
offset_payload_kwargs none_mode params = ok mode_none
offset_payload_kwargs explicit params = ok (mode_explicit (or_else params.offset_ms (pos 0)))
offset_payload_kwargs linear params =
    ok (mode_linear (or_else params.base_ms (pos 0)) (or_else params.step_ms (pos 0)))
offset_payload_kwargs vshape params = ok (
    mode_vshape (or_else params.base_ms (pos 0)) (or_else params.step_ms (pos 0))
      (or_else params.center (pos 0)))
offset_payload_kwargs modulo params = ok (
    mode_modulo (or_else params.base_ms (pos 0)) (or_else params.step_ms (pos 0))
      (pos (positive_cycle (or_else params.cycle (pos 1)))))
offset_payload_kwargs unknown params = err value_error

unfoldable pub offset_op : ℕ → OffsetParams → ℕ → WireOp
offset_op gid kw n = record {
  opcode = opc_offset;
  group = gid;
  payload = offset_payload kw;
  body_bytes = n;
  sender = some send_offset;
  phase = no_phase;
  approximate = false;
}

unfoldable pub make_offset_op : ℕ → Mode → OffsetSpec → Result WireOp
unfolding offset_payload_kwargs offset_op
make_offset_op gid mode params = do
  kw ← offset_payload_kwargs mode params
  body ← build_offset_of (pos gid) kw
  ok (offset_op gid kw (length body))

abbrev pub is_formula : Mode → Bool
is_formula none_mode = true
is_formula linear = true
is_formula vshape = true
is_formula modulo = true
is_formula explicit = false
is_formula unknown = false

abbrev pub is_none : Mode → Bool
is_none none_mode = true
is_none _ = false

-- `values.get(gid, 0)` on the dict of the persisted values, in which a later entry wins.
abbrev pub value_of : List (ℕ × ℤ) → ℕ → Option ℤ
value_of [] gid = none
value_of ((i, ms) ∷ rest) gid = elim (value_of rest gid) [
  | some later ↦ some later
  | none ↦ if i == gid then some ms else none
]

-- One EXPLICIT op for a group: the persisted value, or the formula evaluated for it.
unfoldable pub explicit_op : Mode → OffsetSpec → ℕ → Result WireOp
explicit_op explicit offset gid =
    make_offset_op gid explicit
      (record empty_spec { offset_ms = some (or_else (value_of offset.values gid) (pos 0)) })
explicit_op mode offset gid = do
  ms ← evaluate_offset_ms offset (pos gid)
  make_offset_op gid explicit (record empty_spec { offset_ms = some ms })

abbrev pub none_op : ℕ → Result WireOp
none_op gid = make_offset_op gid none_mode empty_spec

abbrev pub is_empty {ℓ} : {A : Type ℓ} → List A → Bool
is_empty [] = true
is_empty (x ∷ xs) = false

abbrev pub Candidate : Type 0
Candidate = Result (Option OptimizerPlan)

abbrev pub planned : Strategy → Result (List WireOp) → Candidate
planned strategy ops = do l ← ops; ok (some (record { strategy = strategy; ops = l }))

-- Strategy A: one broadcast op that carries the formula.
unfoldable pub strategy_a : Bool → Mode → OffsetSpec → Candidate
strategy_a is_all mode offset =
    if is_all && is_formula mode
    then planned broadcast_formula (do op ← make_offset_op 255 mode offset; ok (op ∷ []))
    else ok none

-- Strategy B: one EXPLICIT op for each concrete group.
unfoldable pub strategy_b : Mode → OffsetSpec → List ℕ → Candidate
strategy_b mode offset concrete =
    if is_empty concrete
    then ok none
    else planned per_group_explicit (traverse (explicit_op mode offset) concrete)

-- Strategy C: the broadcast formula, then NONE for each known group that takes no part.
unfoldable pub strategy_c : Bool → Mode → OffsetSpec → List ℕ → List ℕ → Candidate
strategy_c is_all mode offset known participants =
    if not is_all && (is_formula mode && (not (is_none mode) && not (is_empty known)))
    then planned formula_plus_overrides (do
      op ← make_offset_op 255 mode offset
      overrides ← traverse none_op (keep (λ gid. not (contains participants gid)) known)
      ok (op ∷ overrides))
    else ok none

-- For the mode "none" on concrete groups, B is replaced by a NONE op for each of them.
unfoldable pub override_b : Bool → Mode → List ℕ → Option OptimizerPlan → Candidate
override_b is_all mode concrete b =
    if is_none mode && not is_all
    then planned per_group_explicit (traverse none_op concrete)
    else ok b

-- The sort key `(packet_count, total_bytes)`, compared as a tuple.
abbrev pub key_le : OptimizerPlan → OptimizerPlan → Bool
key_le p q =
    ltb (packet_count p) (packet_count q)
    || (packet_count p == packet_count q && leb (total_bytes p) (total_bytes q))

-- `list.sort` is stable: a plan goes before the later ones that are not smaller.
pub insert_sorted : OptimizerPlan → List OptimizerPlan → List OptimizerPlan
insert_sorted p [] = p ∷ []
insert_sorted p (q ∷ qs) = if key_le p q then p ∷ q ∷ qs else q ∷ insert_sorted p qs

pub sort_plans : List OptimizerPlan → List OptimizerPlan
unfolding insert_sorted
sort_plans [] = []
sort_plans (p ∷ ps) = insert_sorted p (sort_plans ps)

abbrev pub present : Option OptimizerPlan → List OptimizerPlan → List OptimizerPlan
present none rest = rest
present (some p) rest = p ∷ rest

-- `candidates[0]`, or the empty plan where there is no candidate.
abbrev pub first_plan : List OptimizerPlan → OptimizerPlan
first_plan [] = record { strategy = broadcast_formula; ops = [] }
first_plan (p ∷ ps) = p

unfoldable pub cheapest : List OptimizerPlan → OptimizerPlan
unfolding sort_plans
cheapest candidates = first_plan (sort_plans candidates)

-- The three candidates are built in this order; an exception in any of them leaves the function.
unfoldable pub choose : Bool → Mode → OffsetSpec → List ℕ → List ℕ → Result OptimizerPlan
choose is_all mode offset known participants =
    let concrete = if is_all then known else participants in
    do
      a ← strategy_a is_all mode offset
      b ← strategy_b mode offset concrete
      c ← strategy_c is_all mode offset known participants
      b' ← override_b is_all mode concrete b
      ok (cheapest (present a (present b' (present c []))))

unfoldable pub plan_offset_setup : ContainerTarget → OffsetSpec → List ℕ → Result OptimizerPlan
unfolding choose
plan_offset_setup broadcast offset known = choose true (spec_mode offset) offset known []
plan_offset_setup (groups value) offset known = choose false (spec_mode offset) offset known value
plan_offset_setup unsupported offset known = err value_error
