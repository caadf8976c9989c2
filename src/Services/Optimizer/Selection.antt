-- ===== src/Services/Optimizer/Selection.antt =====
-- How the optimizer picks among its candidate plans: fewest packets, then fewest bytes.
use gatecontrol_lora.Prelude.{
  All, Bool-cases, List, [], arith, false, if◌then◌else◌, inl, inr, refl, true, ◌∷◌, ◌≡◌, subst,
  sym, ◌∙◌, ◌⊎◌, Bool, none, some, ◌&&◌,
}
use gatecontrol_lora.Services.Optimizer.{
  OptimizerPlan, cheapest, insert_sorted, key_le, sort_plans, present,
}

key_le_refl : (p : OptimizerPlan) → key_le p p ≡ true
key_le_refl p = ground arith

key_le_trans : (p q r : OptimizerPlan) → key_le p q ≡ true → key_le q r ≡ true → key_le p r ≡ true
key_le_trans p q r h k = ground arith

key_le-total : (p q : OptimizerPlan) → key_le p q ≡ false → key_le q p ≡ true
key_le-total p q h = ground arith

insert_sorted-cons :
    (p : OptimizerPlan) (l : List OptimizerPlan)
    → (h : OptimizerPlan) × (t : List OptimizerPlan) × (insert_sorted p l ≡ h ∷ t)
unfolding insert_sorted
insert_sorted-cons p [] = (p, [], refl)
insert_sorted-cons p (q ∷ qs) = elim (Bool-cases (key_le p q)) [
  | inl e ↦ (p, q ∷ qs, rw e refl)
  | inr e ↦ (q, insert_sorted p qs, rw e refl)
]

-- The first plan wins a tie.
pub cheapest-cons :
    (p q : OptimizerPlan) (ps : List OptimizerPlan)
    → cheapest (p ∷ q ∷ ps) ≡ (if key_le p (cheapest (q ∷ ps)) then p else cheapest (q ∷ ps))
unfolding cheapest
cheapest-cons p q ps =
    let (h, t, e) = insert_sorted-cons q (sort_plans ps) in
    rw (e, cheapest)
      (elim (Bool-cases (key_le p h)) [
        | inl le ↦ rw (le, insert_sorted) refl
        | inr gt ↦ rw (gt, insert_sorted) refl
      ])

pub cheapest-single : (p : OptimizerPlan) → cheapest (p ∷ []) ≡ p
unfolding cheapest insert_sorted
cheapest-single p = refl

cheapest_cases :
    (p q : OptimizerPlan) (ps : List OptimizerPlan)
    → (cheapest (p ∷ q ∷ ps) ≡ p) × (key_le p (cheapest (q ∷ ps)) ≡ true)
      ⊎ (cheapest (p ∷ q ∷ ps) ≡ cheapest (q ∷ ps)) × (key_le (cheapest (q ∷ ps)) p ≡ true)
cheapest_cases p q ps = elim (Bool-cases (key_le p (cheapest (q ∷ ps)))) [
  | inl e ↦ inl (cheapest-cons p q ps ∙ rw e refl, e)
  | inr e ↦ inr (cheapest-cons p q ps ∙ rw e refl, key_le-total p (cheapest (q ∷ ps)) e)
]

-- What holds of every candidate holds of the plan that is picked.
pub cheapest-All {ℓ} :
    (P : OptimizerPlan → Type ℓ) (p : OptimizerPlan) (ps : List OptimizerPlan)
    → All P (p ∷ ps)
    → P (cheapest (p ∷ ps))
cheapest-All P p [] h = subst P (sym (cheapest-single p)) h.0
cheapest-All P p (q ∷ ps) h = elim (cheapest_cases p q ps) [
  | inl (e, le) ↦ subst P (sym e) h.0
  | inr (e, le) ↦ subst P (sym e) (cheapest-All P q ps h.1)
]

abbrev pub IsLeast : OptimizerPlan → List OptimizerPlan → Type 0
IsLeast c l = All (λ q. key_le c q ≡ true) l

IsLeast-trans :
    (p c : OptimizerPlan) (l : List OptimizerPlan) → key_le p c ≡ true → IsLeast c l → IsLeast p l
IsLeast-trans p c [] e h = tt
IsLeast-trans p c (r ∷ rs) e (h, hs) = (key_le_trans p c r e h, IsLeast-trans p c rs e hs)

-- No candidate has a smaller key than the plan that is picked.
pub cheapest-IsLeast :
    (p : OptimizerPlan) (ps : List OptimizerPlan) → IsLeast (cheapest (p ∷ ps)) (p ∷ ps)
cheapest-IsLeast p [] =
    subst (λ c. IsLeast c (p ∷ [])) (sym (cheapest-single p)) (key_le_refl p, tt)
cheapest-IsLeast p (q ∷ ps) = elim (cheapest_cases p q ps) [
  | inl (e, le) ↦
      subst (λ c. IsLeast c (p ∷ q ∷ ps)) (sym e)
        (key_le_refl p, IsLeast-trans p (cheapest (q ∷ ps)) (q ∷ ps) le (cheapest-IsLeast q ps))
  | inr (e, le) ↦ subst (λ c. IsLeast c (p ∷ q ∷ ps)) (sym e) (le, cheapest-IsLeast q ps)
]

-- The same where either of two candidates may be absent, but not both.
pub cheapest_of_two {ℓ} :
    (P : OptimizerPlan → Type ℓ) (no_b no_c : Bool) (b c : OptimizerPlan)
    → P b
    → P c
    → (no_b && no_c) ≡ false
    → P (
        cheapest
          (present (if no_b then none else some b) (present (if no_c then none else some c) [])))
cheapest_of_two P true true b c pb pc h = cc
cheapest_of_two P true false b c pb pc h = cheapest-All P c [] (pc, tt)
cheapest_of_two P false true b c pb pc h = cheapest-All P b [] (pb, tt)
cheapest_of_two P false false b c pb pc h = cheapest-All P b (c ∷ []) (pb, (pc, tt))
