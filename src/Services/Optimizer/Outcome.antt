-- ===== src/Services/Optimizer/Outcome.antt =====
-- The optimizer's plan against the abstract receiver: which offset each group ends up with.
use gatecontrol_lora.Services.Optimizer.Selection.{cheapest_of_two}
use gatecontrol_lora.Protocol.Offset.RoundTrip.{InWireRange, clamp_params_in}
use gatecontrol_lora.Prelude.{
  ℕ, ==_iff, All, Bool, Bool-cases, List, [], ap, arith, clamp_high, clamp_in, clamp_low, contains,
  false, inl, inr, keep, negsuc, ok, pos, refl, some, suc, true, zero, ℤ, ◌&&◌, ◌==◌, ◌∷◌, ◌≡◌, ◌%◌,
  Result, err, or_else, subst, if◌then◌else◌, map, none, not, ◌<◌, ◌∙◌, ◌⊎◌,
}
use gatecontrol_lora.Protocol.Offset.{
  OffsetParams, Mode, explicit, linear, mode_explicit, modulo, none_mode, unknown, vshape, mode_of,
  mode_none,
}
use gatecontrol_lora.Domain.OffsetFormula.{
  OffsetSpec, clamp_ms, evaluate_mode, evaluate_offset_ms, positive_cycle, spec_mode, linear_ms,
  modulo_ms, vshape_ms,
}
use gatecontrol_lora.Services.Optimizer.{
  is_formula, is_none, offset_payload_kwargs, OptimizerPlan, cheapest, present, groups, is_empty,
  plan_offset_setup,
}
use gatecontrol_lora.Services.Optimizer.Plans.{
  intended_ms, others, plan_b, plan_c, wire_op, unless_empty, choose_groups,
}
use gatecontrol_lora.Services.Optimizer.Receiver.{
  active_ms, stored, Config, deliver_all, deliver_all-cons, deliver_all-explicit, deliver_all-none,
}

contains-keep :
    (p : ℕ → Bool) (xs : List ℕ) (a : ℕ) → contains (keep p xs) a ≡ (contains xs a && p a)
contains-keep p [] a = refl
contains-keep p (x ∷ xs) a = elim (Bool-cases (a == x)) [
  | inl e ↦
      let same_value = ap p ((==_iff a x).0 e) in ground (arith, contains-keep p xs a, same_value)
  | inr e ↦ ground (arith, contains-keep p xs a)
]

All-keep {κ} : (P : ℕ → Type κ) (p : ℕ → Bool) (xs : List ℕ) → All P xs → All P (keep p xs)
All-keep P p [] h = tt
All-keep P p (x ∷ xs) (hx, h) = elim (Bool-cases (p x)) [
  | inl e ↦ rw e (hx, All-keep P p xs h)
  | inr e ↦ rw e (All-keep P p xs h)
]

contains→nonempty : (xs : List ℕ) (a : ℕ) → contains xs a ≡ true → is_empty xs ≡ false
contains→nonempty [] a h = cc
contains→nonempty (x ∷ xs) a h = refl

and_false : (a b : Bool) → b ≡ false → (a && b) ≡ false
and_false a b h = ground arith

clamp_ms_idem : (v : ℤ) → clamp_ms (clamp_ms v) ≡ clamp_ms v
clamp_ms_idem v =
    clamp_in (pos 0) (pos 65535) _ (clamp_low (pos 0) (pos 65535) v)
      (clamp_high (pos 0) (pos 65535) v (omega arith))

positive_cycle_idem : (v : ℤ) → positive_cycle (pos (positive_cycle v)) ≡ positive_cycle v
positive_cycle_idem (pos zero) = refl
positive_cycle_idem (pos (suc n)) = refl
positive_cycle_idem (negsuc n) = refl

-- An EXPLICIT configuration is what it says.
active_explicit :
    (own : ℕ) (v : ℤ) → active_ms own (some (mode_explicit (clamp_ms v))) ≡ some (clamp_ms v)
unfolding active_ms evaluate_offset_ms spec_mode mode_of
active_explicit own v = rw (clamp_ms_idem v) refl

-- A formula's intended offset is the evaluator's, which is in the range of the wire.
pub intended_evaluate :
    (mode : Mode) (spec : OffsetSpec) (gid : ℕ)
    → spec_mode spec ≡ mode
    → is_formula mode ≡ true
    → evaluate_offset_ms spec (pos gid) ≡ ok (intended_ms mode spec gid)
unfolding evaluate_offset_ms intended_ms
intended_evaluate none_mode spec gid e h = rw e refl
intended_evaluate explicit spec gid e h = cc
intended_evaluate linear spec gid e h = rw e refl
intended_evaluate vshape spec gid e h = rw e refl
intended_evaluate modulo spec gid e h = rw e refl
intended_evaluate unknown spec gid e h = cc

intended_clamped :
    (mode : Mode) (spec : OffsetSpec) (gid : ℕ)
    → is_formula mode ≡ true
    → clamp_ms (intended_ms mode spec gid) ≡ intended_ms mode spec gid
unfolding intended_ms evaluate_mode
intended_clamped none_mode spec gid h = refl
intended_clamped explicit spec gid h = cc
intended_clamped linear spec gid h = clamp_ms_idem (linear_ms spec (gid % 256))
intended_clamped vshape spec gid h = clamp_ms_idem (vshape_ms spec (gid % 256))
intended_clamped modulo spec gid h = clamp_ms_idem (modulo_ms spec (gid % 256))
intended_clamped unknown spec gid h = cc

abbrev payload : Result OffsetParams → OffsetParams
payload (ok p) = p
payload (err e) = mode_none

-- A device that stores the formula evaluates it to the intended offset of its own group.
active_formula :
    (mode : Mode) (spec : OffsetSpec) (own : ℕ) (kw : OffsetParams)
    → is_formula mode ≡ true
    → is_none mode ≡ false
    → offset_payload_kwargs mode spec ≡ ok kw
    → active_ms own (stored kw) ≡ some (intended_ms mode spec own)
unfolding active_ms evaluate_offset_ms spec_mode mode_of intended_ms offset_payload_kwargs
active_formula none_mode spec own kw h n e = cc
active_formula explicit spec own kw h n e = cc
active_formula linear spec own kw h n e =
    subst (λ p. active_ms own (stored p) ≡ some (intended_ms linear spec own)) (ap payload e) refl
active_formula vshape spec own kw h n e =
    subst (λ p. active_ms own (stored p) ≡ some (intended_ms vshape spec own)) (ap payload e) refl
active_formula modulo spec own kw h n e =
    subst (λ p. active_ms own (stored p) ≡ some (intended_ms modulo spec own)) (ap payload e)
      (rw (positive_cycle_idem (or_else spec.cycle (pos 1))) refl)
active_formula unknown spec own kw h n e = cc

stored_formula :
    (mode : Mode) (spec : OffsetSpec) (kw : OffsetParams)
    → is_none mode ≡ false
    → offset_payload_kwargs mode spec ≡ ok kw
    → stored kw ≡ some kw
unfolding offset_payload_kwargs
stored_formula none_mode spec kw n e = cc
stored_formula explicit spec kw n e = subst (λ p. stored p ≡ some p) (ap payload e) refl
stored_formula linear spec kw n e = subst (λ p. stored p ≡ some p) (ap payload e) refl
stored_formula vshape spec kw n e = subst (λ p. stored p ≡ some p) (ap payload e) refl
stored_formula modulo spec kw n e = subst (λ p. stored p ≡ some p) (ap payload e) refl
stored_formula unknown spec kw n e = cc

module _ (mode : Mode) (spec : OffsetSpec) (known participants : List ℕ) (own : ℕ) (state : Config)
    (kw : OffsetParams) (is_mode : spec_mode spec ≡ mode) (formula : is_formula mode ≡ true)
    (not_none : is_none mode ≡ false) (payload_ok : offset_payload_kwargs mode spec ≡ ok kw)
    (in_range : InWireRange kw) (valid_participants : All (λ g. g < 255) participants)
    (valid_known : All (λ g. g < 255) known) where
  after_b : deliver_all own (plan_b mode spec participants).ops state ≡ (
      if contains participants own
      then some (mode_explicit (clamp_ms (intended_ms mode spec own)))
      else state)
  after_b = deliver_all-explicit (intended_ms mode spec) own participants state valid_participants

  after_c :
      deliver_all own (plan_c kw known participants).ops state
      ≡ (if contains known own && not (contains participants own) then none else stored kw)
  after_c =
      let overrides = map (wire_op mode_none) (others known participants) in
      let valid = All-keep (λ g. g < 255) (λ g. not (contains participants g)) known valid_known in
      deliver_all-cons own 255 kw overrides state (omega arith)
      ∙ (ap (λ p. deliver_all own overrides (stored p)) (clamp_params_in kw in_range)
          ∙ (deliver_all-none own (others known participants) (stored kw) valid
              ∙ ap (λ b. if b then none else stored kw)
                  (contains-keep (λ g. not (contains participants g)) known own)))

  Sets : OptimizerPlan → Type 0
  Sets plan = active_ms own (deliver_all own plan.ops state) ≡ some (intended_ms mode spec own)

  Sets-b : contains participants own ≡ true → Sets (plan_b mode spec participants)
  unfolding Sets
  Sets-b h =
      rw (after_b, h)
        (active_explicit own (intended_ms mode spec own)
          ∙ ap some (intended_clamped mode spec own formula))

  Sets-c : contains participants own ≡ true → Sets (plan_c kw known participants)
  unfolding Sets
  Sets-c h =
      rw (after_c, h)
        (elim (Bool-cases (contains known own)) [
          | inl e ↦ rw e (active_formula mode spec own kw formula not_none payload_ok)
          | inr e ↦ rw e (active_formula mode spec own kw formula not_none payload_ok)
        ])

  -- A group outside the list is left as it was, or is cleared.
  Spares : OptimizerPlan → Type 0
  Spares plan = (deliver_all own plan.ops state ≡ state) ⊎ (deliver_all own plan.ops state ≡ none)

  Spares-b : contains participants own ≡ false → Spares (plan_b mode spec participants)
  unfolding Spares
  Spares-b h = inl (after_b ∙ rw h refl)

  Spares-c :
      contains participants own ≡ false
      → contains known own ≡ true
      → Spares (plan_c kw known participants)
  unfolding Spares
  Spares-c h k = inr (after_c ∙ rw (h, k) refl)

  chosen : OptimizerPlan
  chosen = cheapest (
      present (unless_empty participants (plan_b mode spec participants))
        (present (unless_empty known (plan_c kw known participants)) []))

  chosen-Sets : contains participants own ≡ true → Sets chosen
  unfolding chosen
  chosen-Sets h =
      cheapest_of_two Sets (is_empty participants) (is_empty known) _ _ (Sets-b h) (Sets-c h)
        (rw (contains→nonempty participants own h) refl)

  chosen-Spares : contains participants own ≡ false → contains known own ≡ true → Spares chosen
  unfolding chosen
  chosen-Spares h k =
      cheapest_of_two Spares (is_empty participants) (is_empty known) _ _ (Spares-b h)
        (Spares-c h k)
        (and_false (is_empty participants) (is_empty known) (contains→nonempty known own k))

-- For a formula on a list of groups, whichever strategy is cheaper: a device of a listed group
-- ends with exactly the offset that the host's evaluator gives for its group, whatever it stored
-- before. The formula is linear, vshape or modulo, its parameters fit the wire fields, and all
-- group ids are below 255.
pub plan_offset_setup-sets :
    (spec : OffsetSpec) (known participants : List ℕ) (own : ℕ) (state : Config) (kw : OffsetParams)
    → is_formula (spec_mode spec) ≡ true
    → is_none (spec_mode spec) ≡ false
    → offset_payload_kwargs (spec_mode spec) spec ≡ ok kw
    → InWireRange kw
    → All (λ g. g < 255) participants
    → All (λ g. g < 255) known
    → contains participants own ≡ true
    → (plan : OptimizerPlan) × (plan_offset_setup (groups participants) spec known ≡ ok plan)
      × (ms : ℤ) × (evaluate_offset_ms spec (pos own) ≡ ok ms)
      × (active_ms own (deliver_all own plan.ops state) ≡ some ms)
unfolding plan_offset_setup chosen Sets
plan_offset_setup-sets spec known participants own state kw formula not_none payload_ok in_range vp
      vk h =
    let mode = spec_mode spec in
    (
      chosen mode spec known participants own state kw refl formula not_none payload_ok in_range vp
          vk,
      choose_groups mode spec known participants refl formula not_none payload_ok,
      intended_ms mode spec own,
      intended_evaluate mode spec own refl formula,
      chosen-Sets mode spec known participants own state kw refl formula not_none payload_ok
          in_range vp vk h,
    )

-- Under the same conditions a device of a known group outside the list is left as it was or ends
-- with no offset: no strategy gives it one.
pub plan_offset_setup-spares :
    (spec : OffsetSpec) (known participants : List ℕ) (own : ℕ) (state : Config) (kw : OffsetParams)
    → is_formula (spec_mode spec) ≡ true
    → is_none (spec_mode spec) ≡ false
    → offset_payload_kwargs (spec_mode spec) spec ≡ ok kw
    → InWireRange kw
    → All (λ g. g < 255) participants
    → All (λ g. g < 255) known
    → contains participants own ≡ false
    → contains known own ≡ true
    → (plan : OptimizerPlan) × (plan_offset_setup (groups participants) spec known ≡ ok plan)
      × ((deliver_all own plan.ops state ≡ state) ⊎ (deliver_all own plan.ops state ≡ none))
unfolding plan_offset_setup chosen Spares
plan_offset_setup-spares spec known participants own state kw formula not_none payload_ok in_range
      vp vk h k =
    let mode = spec_mode spec in
    (
      chosen mode spec known participants own state kw refl formula not_none payload_ok in_range vp
          vk,
      choose_groups mode spec known participants refl formula not_none payload_ok,
      chosen-Spares mode spec known participants own state kw refl formula not_none payload_ok
          in_range vp vk h k,
    )
