-- ===== src/Services/Scenes/Renumber.antt =====
-- racelink/services/scenes_service.py, deletion of a group: the ids in the scenes' actions are
-- rewritten. An action is a value here, so where nothing changes the result is the action itself;
-- the second component says whether something changed.
pub mod Bounds
use gatecontrol_lora.Prelude.{
  ℕ, Bool, List, Option, Text, [], codes, contains, eq_bytes, false, if◌then◌else◌, ltb, map, none,
  not, some, true, ℤ, ◌-◌, ◌==◌, ◌||◌, ◌∷◌,
}
use gatecontrol_lora.Domain.OffsetFormula.{OffsetSpec}
use gatecontrol_lora.Services.Optimizer.{ContainerTarget, groups}
use gatecontrol_lora.Services.Action.{
  Action, Actions, Target, cons, effect, nil, offset_group, to_groups,
}

unfoldable pub shift_group_value : ℕ → ℕ → ℕ
shift_group_value value deleted =
    if value == deleted then 0 else if ltb deleted value then value - 1 else value

-- The loop that drops an id that has been seen.
unfoldable pub dedupe : List ℕ → List ℕ → List ℕ
dedupe seen [] = []
dedupe seen (g ∷ gs) = if contains seen g then dedupe seen gs else g ∷ dedupe (g ∷ seen) gs

unfoldable pub shift_groups : ℕ → List ℕ → List ℕ × Bool
unfolding shift_group_value dedupe
shift_groups deleted ids =
    let new = dedupe [] (map (λ g. shift_group_value g deleted) ids) in
    if eq_bytes new ids then (ids, false) else (new, true)

-- `_shift_target_groups_list` on the target of an effect and on that of a container.
unfoldable pub shift_target : ℕ → Target → Target × Bool
unfolding shift_groups
shift_target deleted (to_groups ids) =
    (to_groups (shift_groups deleted ids).0, (shift_groups deleted ids).1)
shift_target deleted target = (target, false)

unfoldable pub shift_container : ℕ → Option ContainerTarget → Option ContainerTarget × Bool
unfolding shift_groups
shift_container deleted (some (groups ids)) =
    (some (groups (shift_groups deleted ids).0), (shift_groups deleted ids).1)
shift_container deleted target = (target, false)

-- The loop over `offset.values`.
unfoldable pub shift_values : ℕ → List ℕ → List (ℕ × ℤ) → List (ℕ × ℤ) × Bool
unfolding shift_group_value
shift_values deleted seen [] = ([], false)
shift_values deleted seen ((old, ms) ∷ rest) =
    let shifted = shift_group_value old deleted in
    let dropped = shift_values deleted seen rest in
    let kept = shift_values deleted (shifted ∷ seen) rest in
    if contains seen shifted
    then (dropped.0, true)
    else ((shifted, ms) ∷ kept.0, not (shifted == old) || kept.1)

abbrev pub is_explicit : Option Text → Bool
is_explicit none = false
is_explicit (some name) = eq_bytes name (codes "explicit")

abbrev pub with_values : OffsetSpec → List (ℕ × ℤ) × Bool → Option OffsetSpec × Bool
with_values spec (values, changed) =
    if changed then (some (record spec { values = values }), true) else (some spec, false)

unfoldable pub shift_offset : ℕ → Option OffsetSpec → Option OffsetSpec × Bool
unfolding shift_values
shift_offset deleted none = (none, false)
shift_offset deleted (some spec) =
    if is_explicit spec.mode
    then with_values spec (shift_values deleted [] spec.values)
    else (some spec, false)

unfoldable mutual
  unfolding shift_target shift_container shift_offset

  -- `_renumber_action`
  pub renumber_action : ℕ → Action → Action × Bool
  renumber_action deleted (effect a) =
      let t = shift_target deleted a.target in (effect (record a { target = t.0 }), t.1)
  renumber_action deleted (offset_group target offset children) =
      let t = shift_container deleted target in
      let c = renumber_actions deleted children in
      let o = shift_offset deleted offset in (offset_group t.0 o.0 c.0, t.1 || (c.1 || o.1))
  renumber_action deleted action = (action, false)

  -- `_renumber_actions_for_deleted_group`
  pub renumber_actions : ℕ → Actions → Actions × Bool
  renumber_actions deleted nil = (nil, false)
  renumber_actions deleted (cons action rest) =
      let x = renumber_action deleted action in
      let xs = renumber_actions deleted rest in (cons x.0 xs.0, x.1 || xs.1)
