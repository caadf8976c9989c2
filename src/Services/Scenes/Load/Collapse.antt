-- ===== src/Services/Scenes/Load/Collapse.antt =====
-- racelink/services/scenes_service.py: the collapse of complete group lists, which is done when a
-- scene is stored, and the validation, which is done again when the file is read.
use gatecontrol_lora.Protocol.Offset.{Mode, none_mode, explicit, linear, vshape, modulo, unknown}
use gatecontrol_lora.Domain.OffsetFormula.{OffsetSpec}
use gatecontrol_lora.Services.Action.{
  Action, Actions, nil, cons, delay, sync, offset_group, effect, Target, to_broadcast, to_groups,
  to_device, other_target, unknown_kind,
}
use gatecontrol_lora.Services.Optimizer.{broadcast, groups, unsupported}
use gatecontrol_lora.Services.Scenes.{
  canonical_block, canonical_offset_block, block_mode, RawOffset,
}
use gatecontrol_lora.Services.Scenes.Validate.Blocks.{written_offset}
use gatecontrol_lora.Services.Scenes.Validate.Reread.{IsKept}
use gatecontrol_lora.Services.Scenes.Validate.Sound.{
  AreCanonical, AllActions, IsCanonical, IsChild, IsTarget, IsWithin, count_actions,
}
use gatecontrol_lora.Services.Scenes.Store.{
  collapse_actions, collapse_action, collapse_target, covers,
}
use gatecontrol_lora.Prelude.{
  ℕ, Bool, Bool-cases, List, Option, none, some, true, false, inl, inr, arith, ◌≡◌, refl, ap, suc,
  ◌∙◌,
}

abbrev pub is_explicit : Mode → Bool
is_explicit explicit = true
is_explicit _ = false

-- Without an explicit list of its groups, a block is the same for any groups.
canonical_block-none :
    (m : Mode) (ids : Option (List ℕ)) (raw : RawOffset)
    → is_explicit m ≡ false
    → canonical_block m none raw ≡ canonical_block m ids raw
unfolding canonical_block
canonical_block-none none_mode ids raw h = refl
canonical_block-none explicit ids raw h = cc
canonical_block-none linear ids raw h = refl
canonical_block-none vshape ids raw h = refl
canonical_block-none modulo ids raw h = refl
canonical_block-none unknown ids raw h = refl

IsKept-none :
    (ids : Option (List ℕ)) (spec : OffsetSpec)
    → is_explicit (block_mode spec.mode) ≡ false
    → IsKept ids spec
    → IsKept none spec
unfolding canonical_offset_block written_offset
IsKept-none ids spec h k =
    canonical_block-none (block_mode spec.mode) ids (written_offset spec) h ∙ k

collapse_target-IsTarget :
    (known : List ℕ) (t : Target) → IsTarget t → IsTarget (collapse_target known t)
unfolding collapse_target
collapse_target-IsTarget known to_broadcast h = tt
collapse_target-IsTarget known (to_groups ids) h = elim (Bool-cases (covers ids known)) [
  | inl e ↦ rw e tt
  | inr e ↦ rw e h
]
collapse_target-IsTarget known (to_device addr) h = h
collapse_target-IsTarget known other_target h = absurd h

collapse_target-IsWithin :
    (known : List ℕ) (parents : Option (List ℕ)) (t : Target)
    → IsWithin parents t
    → IsWithin parents (collapse_target known t)
unfolding collapse_target
collapse_target-IsWithin known none t h = tt
collapse_target-IsWithin known (some ps) to_broadcast h = tt
collapse_target-IsWithin known (some ps) (to_groups ids) h = elim (Bool-cases (covers ids known)) [
  | inl e ↦ rw e tt
  | inr e ↦ rw e h
]
collapse_target-IsWithin known (some ps) (to_device addr) h = tt
collapse_target-IsWithin known (some ps) other_target h = tt

-- The children of a container, and of the broadcast that it may become.
children-IsChild :
    (known : List ℕ) (parents later : Option (List ℕ)) (children : Actions)
    → ((t : Target) → IsWithin parents t → IsWithin later t)
    → AllActions (IsChild parents) children
    → AllActions (IsChild later) (collapse_actions known children)
      × (count_actions (collapse_actions known children) ≡ count_actions children)
unfolding collapse_actions collapse_action
children-IsChild known parents later nil wider h = (tt, refl)
children-IsChild known parents later (cons (effect a) rest) wider ((t, w, f), hs) =
    let (cs, n) = children-IsChild known parents later rest wider hs in
    (
      (
        (
          collapse_target-IsTarget known a.target t,
          collapse_target-IsWithin known later a.target (wider a.target w),
          f,
        ),
        cs,
      ),
      ap suc n,
    )
children-IsChild known parents later (cons (delay ms) rest) wider (h, hs) = absurd h
children-IsChild known parents later (cons sync rest) wider (h, hs) = absurd h
children-IsChild known parents later (cons unknown_kind rest) wider (h, hs) = absurd h
children-IsChild known parents later (cons (offset_group t o cs) rest) wider (h, hs) = absurd h

-- A container with an explicit block does not have all of the known groups.
abbrev pub IsStable : List ℕ → Action → Type 0
IsStable known (offset_group (some (groups ids)) (some spec) children) =
    covers ids known ≡ true → is_explicit (block_mode spec.mode) ≡ false
IsStable known (offset_group (some broadcast) spec children) = Unit {0}
IsStable known (offset_group (some unsupported) spec children) = Unit {0}
IsStable known (offset_group (some (groups ids)) none children) = Unit {0}
IsStable known (offset_group none spec children) = Unit {0}
IsStable known (delay ms) = Unit {0}
IsStable known sync = Unit {0}
IsStable known unknown_kind = Unit {0}
IsStable known (effect a) = Unit {0}

collapse_action-IsCanonical :
    (known : List ℕ) (a : Action)
    → IsStable known a
    → IsCanonical a
    → IsCanonical (collapse_action known a)
unfolding collapse_action collapse_actions
collapse_action-IsCanonical known (delay ms) s h = h
collapse_action-IsCanonical known sync s h = tt
collapse_action-IsCanonical known unknown_kind s h = absurd h
collapse_action-IsCanonical known (effect a) s (t, f) =
    (collapse_target-IsTarget known a.target t, f)
collapse_action-IsCanonical known (offset_group none o cs) s h = absurd h
collapse_action-IsCanonical known (offset_group (some t) none cs) s h = absurd h
collapse_action-IsCanonical known (offset_group (some broadcast) (some o) cs) s
      (t, m, k, kids, few) =
    let (later, n) = children-IsChild known none none cs (λ x w. tt) kids in
    (tt, m, k, later, omega (arith, n, few))
collapse_action-IsCanonical known (offset_group (some unsupported) (some o) cs) s
      (t, m, k, kids, few) =
    absurd t
collapse_action-IsCanonical known (offset_group (some (groups ids)) (some o) cs) s
      (t, m, k, kids, few) =
    elim (Bool-cases (covers ids known)) [
      | inl e ↦
          let (later, n) = children-IsChild known (some ids) none cs (λ x w. tt) kids in
          rw e (tt, m, IsKept-none (some ids) o (s e) k, later, omega (arith, n, few))
      | inr e ↦
          let (later, n) = children-IsChild known (some ids) (some ids) cs (λ x w. w) kids in
          rw e (t, m, k, later, omega (arith, n, few))
    ]

-- Canonical actions stay canonical when complete group lists are collapsed, where no container with
-- an explicit block has all of the known groups.
pub collapse_actions-AreCanonical :
    (known : List ℕ) (actions : Actions)
    → AllActions (IsStable known) actions
    → AreCanonical actions
    → AreCanonical (collapse_actions known actions)
unfolding collapse_actions
collapse_actions-AreCanonical known actions s (h, few) =
    let (all_canonical, n) = go actions s h in (all_canonical, omega (arith, n, few))
  where
    go :
        (list : Actions)
        → AllActions (IsStable known) list
        → AllActions IsCanonical list
        → AllActions IsCanonical (collapse_actions known list)
          × (count_actions (collapse_actions known list) ≡ count_actions list)
    go nil s h = (tt, refl)
    go (cons a rest) (s, ss) (h, hs) =
        let (cs, n) = go rest ss hs in ((collapse_action-IsCanonical known a s h, cs), ap suc n)
