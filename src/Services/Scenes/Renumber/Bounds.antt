-- ===== src/Services/Scenes/Renumber/Bounds.antt =====
-- After a group is deleted no action of racelink/services/scenes_service.py refers to a group that
-- is not there.
use gatecontrol_lora.Prelude.{
  ℕ, All, Bool-cases, List, Option, [], arith, contains, eq_bytes, eq_bytes→eq, false, inl, inr,
  map, none, refl, some, subst, suc, true, ℤ, ◌<◌, ◌∷◌, ◌≡◌, ==_iff, Bool, not, same, sym, ◌==◌,
  ◌||◌, ◌∙◌,
}
use gatecontrol_lora.Domain.OffsetFormula.{OffsetSpec}
use gatecontrol_lora.Services.Optimizer.{ContainerTarget, broadcast, unsupported, groups}
use gatecontrol_lora.Services.Action.{
  delay, sync, unknown_kind, Action, to_broadcast, other_target, to_device, to_groups, effect,
  offset_group, nil, cons, Actions, Target,
}
use gatecontrol_lora.Services.Scenes.Renumber.{
  shift_values, dedupe, is_explicit, shift_container, shift_group_value, shift_groups, shift_offset,
  shift_target, renumber_action, renumber_actions, with_values,
}

abbrev pub Below : ℕ → List ℕ → Type 0
Below n ids = All (λ g. g < n) ids

abbrev pub ValuesBelow : ℕ → List (ℕ × ℤ) → Type 0
ValuesBelow n values = All (λ e. e.0 < n) values

abbrev pub TargetBelow : ℕ → Target → Type 0
TargetBelow n (to_groups ids) = Below n ids
TargetBelow n _ = Unit {0}

abbrev pub ContainerBelow : ℕ → Option ContainerTarget → Type 0
ContainerBelow n (some (groups ids)) = Below n ids
ContainerBelow n _ = Unit {0}

abbrev pub OffsetBelow : ℕ → Option OffsetSpec → Type 0
OffsetBelow n none = Unit {0}
OffsetBelow n (some spec) = is_explicit spec.mode ≡ true → ValuesBelow n spec.values

-- Every group that the action refers to, in its target, its offsets or its children, is one of
-- the first `n`.
abbrev mutual
  pub RefersBelow : ℕ → Action → Type 0
  RefersBelow n (effect a) = TargetBelow n a.target
  RefersBelow n (offset_group target offset children) =
      ContainerBelow n target × OffsetBelow n offset × AllReferBelow n children
  RefersBelow n _ = Unit {0}

  pub AllReferBelow : ℕ → Actions → Type 0
  AllReferBelow n nil = Unit {0}
  AllReferBelow n (cons action rest) = RefersBelow n action × AllReferBelow n rest

module _ (n deleted : ℕ) (there : deleted < suc n) (some_left : 0 < n) where
  shift_group_value-lt : (v : ℕ) → v < suc n → shift_group_value v deleted < n
  unfolding shift_group_value
  shift_group_value-lt v h = ground arith

  map-Below :
      (ids : List ℕ) → Below (suc n) ids → Below n (map (λ g. shift_group_value g deleted) ids)
  map-Below [] h = tt
  map-Below (g ∷ gs) (h, hs) = (shift_group_value-lt g h, map-Below gs hs)

  dedupe-Below : (seen ids : List ℕ) → Below n ids → Below n (dedupe seen ids)
  unfolding dedupe
  dedupe-Below seen [] h = tt
  dedupe-Below seen (g ∷ gs) (h, hs) = elim (Bool-cases (contains seen g)) [
    | inl e ↦ rw e (dedupe-Below seen gs hs)
    | inr e ↦ rw e (h, dedupe-Below (g ∷ seen) gs hs)
  ]

  shift_groups-Below : (ids : List ℕ) → Below (suc n) ids → Below n (shift_groups deleted ids).0
  unfolding shift_groups
  shift_groups-Below ids h =
      let new = dedupe [] (map (λ g. shift_group_value g deleted) ids) in
      let new_below : Below n new = dedupe-Below [] _ (map-Below ids h) in
      elim (Bool-cases (eq_bytes new ids)) [
        | inl e ↦ rw e (subst (Below n) (eq_bytes→eq new ids e) new_below)
        | inr e ↦ rw e new_below
      ]

  shift_values-Below :
      (seen : List ℕ) (values : List (ℕ × ℤ))
      → ValuesBelow (suc n) values
      → ValuesBelow n (shift_values deleted seen values).0
  unfolding shift_values
  shift_values-Below seen [] h = tt
  shift_values-Below seen ((old, ms) ∷ rest) (h, hs) =
      elim (Bool-cases (contains seen (shift_group_value old deleted))) [
        | inl e ↦ rw e (shift_values-Below seen rest hs)
        | inr e ↦ rw e (
          shift_group_value-lt old h,
          shift_values-Below (shift_group_value old deleted ∷ seen) rest hs,
        )
      ]

  -- Where the loop reports no change it has changed nothing.
  shift_values_same :
      (seen : List ℕ) (values : List (ℕ × ℤ))
      → (shift_values deleted seen values).1 ≡ false
      → (shift_values deleted seen values).0 ≡ values
  unfolding shift_values
  shift_values_same seen [] h = refl
  shift_values_same seen ((old, ms) ∷ rest) h =
      elim (Bool-cases (contains seen (shift_group_value old deleted))) [
        | inl e ↦ let bad : true ≡ false = rw e at h in cc
        | inr e ↦
            let s = shift_group_value old deleted in
            let both : (not (s == old) || (shift_values deleted (s ∷ seen) rest).1) ≡ false =
              rw e at h in
            let same : s ≡ old = (==_iff s old).0 (ground (arith, both)) in
            let others = shift_values_same (s ∷ seen) rest (ground (arith, both)) in
            rw e (λ i. (same i, ms) ∷ others i)
      ]

  with_values-Below :
      (spec : OffsetSpec) (values : List (ℕ × ℤ)) (changed : Bool)
      → ValuesBelow n values
      → (changed ≡ false → values ≡ spec.values)
      → OffsetBelow n (with_values spec (values, changed)).0
  with_values-Below spec values true h same = λ e. h
  with_values-Below spec values false h same = λ e. subst (ValuesBelow n) (same refl) h

  shift_offset-Below :
      (offset : Option OffsetSpec)
      → OffsetBelow (suc n) offset
      → OffsetBelow n (shift_offset deleted offset).0
  unfolding shift_offset
  shift_offset-Below none h = tt
  shift_offset-Below (some spec) h = elim (Bool-cases (is_explicit spec.mode)) [
    | inl e ↦ rw e (
        with_values-Below spec _ _ (shift_values-Below [] spec.values (h e))
          (shift_values_same [] spec.values))
    | inr e ↦ rw e (λ f. absurd (let bad : true ≡ false = sym f ∙ e in cc))
  ]

  shift_target-Below :
      (target : Target) → TargetBelow (suc n) target → TargetBelow n (shift_target deleted target).0
  unfolding shift_target
  shift_target-Below (to_groups ids) h = shift_groups-Below ids h
  shift_target-Below to_broadcast h = tt
  shift_target-Below other_target h = tt
  shift_target-Below (to_device addr) h = tt

  shift_container-Below :
      (target : Option ContainerTarget)
      → ContainerBelow (suc n) target
      → ContainerBelow n (shift_container deleted target).0
  unfolding shift_container
  shift_container-Below (some (groups ids)) h = shift_groups-Below ids h
  shift_container-Below (some broadcast) h = tt
  shift_container-Below (some unsupported) h = tt
  shift_container-Below none h = tt

  mutual
    unfolding renumber_action

    action-Below :
        (a : Action) → RefersBelow (suc n) a → RefersBelow n (renumber_action deleted a).0
    action-Below (effect a) h = shift_target-Below a.target h
    action-Below (offset_group target offset children) (t, o, c) =
        (shift_container-Below target t, shift_offset-Below offset o, actions-Below children c)
    action-Below (delay ms) h = tt
    action-Below sync h = tt
    action-Below unknown_kind h = tt

    actions-Below :
        (acts : Actions)
        → AllReferBelow (suc n) acts
        → AllReferBelow n (renumber_actions deleted acts).0
    actions-Below nil h = tt
    actions-Below (cons a rest) (h, hs) = (action-Below a h, actions-Below rest hs)

-- Deletion leaves no dangling reference: if the actions of a scene refer only to the groups
-- that there are, and one of them is deleted while others stay, the rewritten actions refer
-- only to the groups that are left, in targets, in the offsets of explicit blocks, and in the
-- children of containers at any depth.
pub renumber_actions-Below :
    (n deleted : ℕ) (actions : Actions)
    → deleted < suc n
    → 0 < n
    → AllReferBelow (suc n) actions
    → AllReferBelow n (renumber_actions deleted actions).0
renumber_actions-Below n deleted actions there some_left h =
    actions-Below n deleted there some_left actions h
