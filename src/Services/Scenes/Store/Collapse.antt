-- ===== src/Services/Scenes/Store/Collapse.antt =====
-- The targets of stored scenes of racelink/services/scenes_service.py: a list of all groups is a
-- broadcast.
use gatecontrol_lora.Prelude.{ℕ, Bool-cases, List, Option, ap, inl, inr, none, refl, some, ◌≡◌}
use gatecontrol_lora.Services.Action.{
  Action, Actions, nil, cons, delay, sync, offset_group, effect, unknown_kind, Target, to_broadcast,
  to_groups, to_device, other_target,
}
use gatecontrol_lora.Services.Optimizer.{ContainerTarget, broadcast, groups, unsupported}
use gatecontrol_lora.Services.Scenes.Store.{
  covers, collapse_target, collapse_action, collapse_actions, collapse_container,
}

collapse_target_again :
    (known : List ℕ) (t : Target)
    → collapse_target known (collapse_target known t) ≡ collapse_target known t
unfolding collapse_target
collapse_target_again known to_broadcast = refl
collapse_target_again known other_target = refl
collapse_target_again known (to_device addr) = refl
collapse_target_again known (to_groups value) = elim (Bool-cases (covers value known)) [
  | inl e ↦ rw (collapse_target, e) refl
  | inr e ↦ rw (collapse_target, e) (rw (collapse_target, e) refl)
]

collapse_container_again :
    (known : List ℕ) (t : Option ContainerTarget)
    → collapse_container known (collapse_container known t) ≡ collapse_container known t
collapse_container_again known none = refl
collapse_container_again known (some broadcast) = refl
collapse_container_again known (some unsupported) = refl
collapse_container_again known (some (groups value)) = elim (Bool-cases (covers value known)) [
  | inl e ↦ rw e refl
  | inr e ↦ rw e (rw e refl)
]

mutual
  unfolding collapse_action

  collapse_action_again :
      (known : List ℕ) (a : Action)
      → collapse_action known (collapse_action known a) ≡ collapse_action known a
  collapse_action_again known (delay ms) = refl
  collapse_action_again known sync = refl
  collapse_action_again known unknown_kind = refl
  collapse_action_again known (effect a) =
      ap (λ t. effect (record a { target = t })) (collapse_target_again known a.target)
  collapse_action_again known (offset_group target offset children) = λ i.
      offset_group (collapse_container_again known target i) offset
        (collapse_actions_again known children i)

  collapse_actions_again :
      (known : List ℕ) (actions : Actions)
      → collapse_actions known (collapse_actions known actions) ≡ collapse_actions known actions
  collapse_actions_again known nil = refl
  collapse_actions_again known (cons action rest) =
      λ i. cons (collapse_action_again known action i) (collapse_actions_again known rest i)

-- Saving actions once more, with the same groups known, leaves them as they are saved.
pub collapse_actions_twice :
    (known : List ℕ) (actions : Actions)
    → collapse_actions known (collapse_actions known actions) ≡ collapse_actions known actions
collapse_actions_twice known actions = collapse_actions_again known actions
