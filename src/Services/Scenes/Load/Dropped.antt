-- ===== src/Services/Scenes/Load/Dropped.antt =====
-- racelink/services/scenes_service.py: a scene that loses its actions between two calls.
use gatecontrol_lora.Services.Scenes.Slug.{strip, is_space, slugify}
use gatecontrol_lora.Protocol.Offset.{explicit}
use gatecontrol_lora.Domain.OffsetFormula.{OffsetSpec}
use gatecontrol_lora.Services.Action.{Action, Actions, nil, cons, offset_group}
use gatecontrol_lora.Services.Optimizer.{broadcast, groups}
use gatecontrol_lora.Services.Scenes.{
  canonical_block, canonical_offset_block, block_mode, canonical_explicit,
}
use gatecontrol_lora.Services.Scenes.Raw.{given}
use gatecontrol_lora.Services.Scenes.Containers.{canonical_offset_group, action_kind_of}
use gatecontrol_lora.Services.Scenes.Validate.{
  canonical_action, canonical_actions, validate_action, legacy_target,
}
use gatecontrol_lora.Services.Scenes.Validate.Blocks.{written_offset}
use gatecontrol_lora.Services.Scenes.Validate.Written.{
  written_actions, written_action, container_of, only_kind, plain_action, written_children,
}
use gatecontrol_lora.Services.Scenes.Store.{
  collapse_actions, collapse_action, covers, StoredScene, Store, NewScene, create, store_scene,
  key_or,
}
use gatecontrol_lora.Services.Scenes.Load.{
  load, load_scenes, empty_store, coerce_bool, next_after, free_id,
}
use gatecontrol_lora.Services.Scenes.Load.RoundTrip.{written_file}
use gatecontrol_lora.Prelude.{
  ℕ, Bool, Bool-cases, List, [], ◌∷◌, none, some, ok, err, value_error, true, inl, inr, ◌≡◌, refl,
  subst, sym, traverse, length, ltb, bind_value, ok-injective, ◌==◌, Text, or_else, ◌∙◌, codes,
}

-- An explicit block needs the groups that a broadcast does not list.
explicit_needs_groups :
    (spec : OffsetSpec)
    → block_mode spec.mode ≡ explicit
    → canonical_offset_block none (written_offset spec) ≡ err value_error
unfolding canonical_offset_block canonical_block canonical_explicit written_offset
explicit_needs_groups spec h = rw h refl

group_refused :
    (spec : OffsetSpec) (children : Actions)
    → block_mode spec.mode ≡ explicit
    → canonical_offset_group
        (record (plain_action (only_kind (codes "offset_group") (container_of (some broadcast)))) {
          raw_offset = some (written_offset spec);
          raw_children = given (written_children children);
        })
      ≡ err value_error
unfolding canonical_offset_group
group_refused spec children h = rw (explicit_needs_groups spec h) refl

broadcast_refused :
    (spec : OffsetSpec) (children : Actions)
    → block_mode spec.mode ≡ explicit
    → canonical_action (written_action (offset_group (some broadcast) (some spec) children))
      ≡ err value_error
unfolding canonical_action legacy_target validate_action action_kind_of
broadcast_refused spec children h = group_refused spec children h

-- The first of the actions is refused, and so are all of them.
refused_first :
    (a : Action) (rest : Actions)
    → canonical_action (written_action a) ≡ err value_error
    → canonical_actions (given (written_actions (cons a rest))) ≡ err value_error
unfolding canonical_actions traverse
refused_first a rest h = elim (Bool-cases (ltb 20 (length (written_actions (cons a rest))))) [
  | inl e ↦ rw e refl
  | inr e ↦ rw (e, h) refl
]

collapsed_refused :
    (known ids : List ℕ) (spec : OffsetSpec) (children rest : Actions)
    → covers ids known ≡ true
    → block_mode spec.mode ≡ explicit
    → canonical_actions (
        given (
          written_actions (
            collapse_actions known
              (cons (offset_group (some (groups ids)) (some spec) children) rest))))
      ≡ err value_error
unfolding collapse_actions collapse_action
collapsed_refused known ids spec children rest c h =
    refused_first (collapse_action known (offset_group (some (groups ids)) (some spec) children))
      (collapse_actions known rest)
      (rw c (broadcast_refused spec (collapse_actions known children) h))

-- The only scene of a store, whose actions are refused.
dropped :
    (now later : ℕ) (label : Text) (actions : Actions) (stop : Bool) (key : Text)
    → canonical_actions (given (written_actions actions)) ≡ err value_error
    → let (s, st) = store_scene now label actions stop empty_store key in
      load later (some (written_file st))
      ≡ ok (record st { scenes = record s { actions = nil } ∷ [] })
unfolding load load_scenes written_file coerce_bool next_after free_id
dropped now later label actions stop key h = rw (load_scenes, h) refl

-- A scene is created in an empty store. Its first action is a container with an explicit offset for
-- each of its groups, and these are all of the known groups. Then the scene has no actions any more
-- when the file is read next, though nothing else of it is changed.
pub create-dropped :
    (known ids : List ℕ) (now later : ℕ) (req : NewScene) (spec : OffsetSpec)
    (children rest : Actions) (s : StoredScene) (st : Store)
    → req.validated ≡ ok (cons (offset_group (some (groups ids)) (some spec) children) rest)
    → covers ids known ≡ true
    → block_mode spec.mode ≡ explicit
    → create known now req empty_store ≡ ok (s, st)
    → load later (some (written_file st))
      ≡ ok (record st { scenes = record s { actions = nil } ∷ [] })
unfolding create
create-dropped known ids now later req spec children rest s st v c h made =
    let label = strip is_space req.new_label in
    elim (Bool-cases (length label == 0)) [
      | inl e ↦ let bad : err value_error ≡ ok (s, st) = rw e at made in cc
      | inr e ↦
          let (actions, f, r) = bind_value _ req.validated (rw e at made) in
          let key = slugify (key_or req.new_key label) in
          let same : actions ≡ cons (offset_group (some (groups ids)) (some spec) children) rest =
            ok-injective (sym f ∙ v) in
          let stored = collapse_actions known actions in
          let gone : canonical_actions (given (written_actions stored)) ≡ err value_error =
            rw same (collapsed_refused known ids spec children rest c h) in
          subst
            (λ p.
              load later (some (written_file p.1))
              ≡ ok (record p.1 { scenes = record p.0 { actions = nil } ∷ [] }))
            (ok-injective r) (dropped now later label stored (or_else req.new_stop true) key gone)
    ]
