-- ===== src/Examples/Renumber.antt =====
-- A scene over four groups, of which group 2 is deleted.
use gatecontrol_lora.Prelude.{[], arith, codes, pos, refl, some, true, ◌∷◌, ◌≡◌, ◌<◌}
use gatecontrol_lora.Domain.OffsetFormula.{OffsetSpec}
use gatecontrol_lora.Services.Action.{Actions, sync, cons, nil, offset_group}
use gatecontrol_lora.Services.Optimizer.{groups}
use gatecontrol_lora.Services.Scenes.{blank}
use gatecontrol_lora.Services.Scenes.Renumber.{renumber_actions}
use gatecontrol_lora.Services.Scenes.Renumber.Bounds.{renumber_actions-Below, AllReferBelow}

abbrev explicit_offsets : OffsetSpec
explicit_offsets = record (blank (codes "explicit")) {
  values = (1, pos 10) ∷ (2, pos 20) ∷ (3, pos 30) ∷ [];
}

abbrev scene : Actions
scene =
    cons (offset_group (some (groups (1 ∷ 2 ∷ 3 ∷ []))) (some explicit_offsets) nil) (cons sync nil)

abbrev shifted_offsets : OffsetSpec
shifted_offsets = record (blank (codes "explicit")) {
  values = (1, pos 10) ∷ (0, pos 20) ∷ (2, pos 30) ∷ [];
}

abbrev shifted_scene : Actions
shifted_scene =
    cons (offset_group (some (groups (1 ∷ 0 ∷ 2 ∷ []))) (some shifted_offsets) nil) (cons sync nil)

renumbered : renumber_actions 2 scene ≡ (shifted_scene, true)
unfolding renumber_actions
renumbered = refl

listed_below : (1 < 4) × ((2 < 4) × ((3 < 4) × Unit {0}))
listed_below = (omega arith, (omega arith, (omega arith, tt)))

renumber_actions-Below_example : AllReferBelow 3 (renumber_actions 2 scene).0
renumber_actions-Below_example =
    renumber_actions-Below 3 2 scene (omega arith) (omega arith)
      ((listed_below, (λ e. listed_below), tt), (tt, tt))
