-- ===== src/Services/Scenes/Store/Bulk.antt =====
-- racelink/services/scenes_service.py: the bulk operations of the scene store keep its invariant.
use gatecontrol_lora.Prelude.{
  ℕ, All, All-append, All-weaken, Bool, List, Result, Text, [], ap, arith, eq_bytes, err, false,
  ◌>>=◌, if◌then◌else◌, ok, refl, subst, suc, true, ◌<◌, ◌≤◌, ◌∷◌, ◌≡◌, ◌≢◌, bind_value,
  ok-injective,
}
use gatecontrol_lora.Services.Keyed
use gatecontrol_lora.Services.Action.{Actions}
use gatecontrol_lora.Services.Scenes.Slug.{has_text, or_text, slugify, unique_key}
use gatecontrol_lora.Services.Scenes.Renumber.{renumber_actions}
use gatecontrol_lora.Services.Scenes.Store.{
  ImportScene, Store, StoredScene, after_call, after_validation, import_key_of, import_one,
  import_scene, import_scenes, keys, renumber_group_references, renumber_scenes, replace_all,
}
use gatecontrol_lora.Services.Scenes.Store.Distinct.{
  DistinctKeys, DistinctIds, IsWellFormed, unique_key-free,
}

-- The list so far is well formed, and no id was given back.
abbrev Grown : Store → Store → Type 0
Grown before after = IsWellFormed after × (before.next_id ≤ after.next_id)

import_scene-IsWellFormed :
    (now : ℕ) (e : ImportScene) (key : Text) (acc : Store) (actions : Actions)
    → IsWellFormed acc
    → has_text (keys acc.scenes) key ≡ false
    → IsWellFormed (import_scene now e key acc actions)
import_scene-IsWellFormed now e key acc actions (d, i, below) free = (
  Keyed.DistinctKeys-append (λ s. s.key) acc.scenes _ d free,
  Keyed.DistinctIds-append (λ s. s.scene_id) acc.scenes _ i below,
  All-append (λ s. s.scene_id < suc acc.next_id) acc.scenes _
      (All-weaken (λ s. s.scene_id < acc.next_id) (λ s. s.scene_id < suc acc.next_id) acc.scenes
        (λ s h. omega (arith, h)) below)
      (omega arith, tt),
)

after_validation-Grown :
    (now : ℕ) (e : ImportScene) (key : Text) (acc : Store) (r : Result Actions)
    → IsWellFormed acc
    → has_text (keys acc.scenes) key ≡ false
    → Grown acc (after_validation now e key acc r).0
after_validation-Grown now e key acc (err x) (d, i, below) free = (
  (
    d,
    i,
    All-weaken (λ s. s.scene_id < acc.next_id) (λ s. s.scene_id < suc acc.next_id) acc.scenes
        (λ s h. omega (arith, h)) below,
  ),
  omega arith,
)
after_validation-Grown now e key acc (ok actions) h free =
    (import_scene-IsWellFormed now e key acc actions h free, omega arith)

-- The key of an entry is not taken.
import_key_of-free :
    (e : ImportScene) (taken : List Text) (key : Text)
    → import_key_of e taken ≡ ok key
    → has_text taken key ≡ false
import_key_of-free e taken key h =
    let slug = slugify (or_text e.import_key e.import_label) in go (has_text taken slug) refl h
  where
    go :
        (b : Bool)
        → has_text taken (slugify (or_text e.import_key e.import_label)) ≡ b
        → (if b
            then unique_key (slugify (or_text e.import_key e.import_label)) taken
            else ok (slugify (or_text e.import_key e.import_label)))
          ≡ ok key
        → has_text taken key ≡ false
    go true e' h = unique_key-free (slugify (or_text e.import_key e.import_label)) taken key h
    go false e' h = subst (λ t. has_text taken t ≡ false) (ok-injective h) e'

import_one-Grown :
    (now : ℕ) (e : ImportScene) (acc : Store) (r : Result Text)
    → ((key : Text) → r ≡ ok key → has_text (keys acc.scenes) key ≡ false)
    → IsWellFormed acc
    → Grown acc (import_one now e acc r).0
import_one-Grown now e acc (err x) free h = (h, omega arith)
import_one-Grown now e acc (ok key) free h =
    after_validation-Grown now e key acc e.import_actions h (free key refl)

if-Grown :
    (b : Bool) (st : Store) (x y : Store × Bool)
    → Grown st x.0
    → Grown st y.0
    → Grown st (if b then x else y).0
if-Grown true st x y h k = h
if-Grown false st x y h k = k

import_scenes-Grown :
    (now : ℕ) (es : List ImportScene) (acc : Store)
    → IsWellFormed acc
    → Grown acc (import_scenes now es acc).0
unfolding import_scenes
import_scenes-Grown now [] acc h = (h, omega arith)
import_scenes-Grown now (e ∷ es) acc h =
    let one = import_one now e acc (import_key_of e (keys acc.scenes)) in
    let (formed, more) =
      import_one-Grown now e acc (import_key_of e (keys acc.scenes))
        (import_key_of-free e (keys acc.scenes)) h in
    let (last, most) = import_scenes-Grown now es one.0 formed in
    if-Grown one.1 acc (import_scenes now es one.0) one (last, omega (arith, more, most))
      (formed, more)

pub replace_all-IsWellFormed :
    (now : ℕ) (es : List ImportScene) (st : Store)
    → IsWellFormed st
    → IsWellFormed (replace_all now es st)
unfolding replace_all
replace_all-IsWellFormed now es st (d, i, below) =
    let start : Store = record st { scenes = [] } in
    let r = import_scenes now es start in
    let (formed, more) = import_scenes-Grown now es start (tt, tt, tt) in
    either r.1 r.0 (record st { next_id = r.0.next_id }) formed
      (
        d,
        i,
        All-weaken (λ s. s.scene_id < st.next_id) (λ s. s.scene_id < r.0.next_id) st.scenes
            (λ s h. omega (arith, h, more)) below,
      )
  where
    either :
        (b : Bool) (x y : Store)
        → IsWellFormed x
        → IsWellFormed y
        → IsWellFormed (if b then x else y)
    either true x y h k = h
    either false x y h k = k

-- The same keys and ids, in the same order.
SameNames : List StoredScene → List StoredScene → Type 0
SameNames [] [] = Unit
SameNames [] (r ∷ rs) = ⊥
SameNames (s ∷ ss) [] = ⊥
SameNames (s ∷ ss) (r ∷ rs) = (s.key ≡ r.key) × (s.scene_id ≡ r.scene_id) × SameNames ss rs

SameNames-All :
    (P : Text → ℕ → Type 0) (ss rs : List StoredScene)
    → SameNames ss rs
    → All (λ s. P s.key s.scene_id) ss
    → All (λ s. P s.key s.scene_id) rs
unfolding SameNames
SameNames-All P [] [] same h = tt
SameNames-All P [] (r ∷ rs) same h = absurd same
SameNames-All P (s ∷ ss) [] same h = absurd same
SameNames-All P (s ∷ ss) (r ∷ rs) (k, n, same) (h, hs) =
    (subst (P r.key) n (subst (λ t. P t s.scene_id) k h), SameNames-All P ss rs same hs)

SameNames-Distinct :
    (ss rs : List StoredScene)
    → SameNames ss rs
    → DistinctKeys ss
    → DistinctIds ss
    → DistinctKeys rs × DistinctIds rs
unfolding SameNames
SameNames-Distinct [] [] same d i = (tt, tt)
SameNames-Distinct [] (r ∷ rs) same d i = absurd same
SameNames-Distinct (s ∷ ss) [] same d i = absurd same
SameNames-Distinct (s ∷ ss) (r ∷ rs) (k, n, same) (a, d) (b, i) =
    let (d', i') = SameNames-Distinct ss rs same d i in
    (
      (
        SameNames-All (λ t m. eq_bytes r.key t ≡ false) ss rs same
            (subst (λ t. All (λ x. eq_bytes t x.key ≡ false) ss) k a),
        d',
      ),
      (
        SameNames-All (λ t m. r.scene_id ≢ m) ss rs same
            (subst (λ m. All (λ x. m ≢ x.scene_id) ss) n b),
        i',
      ),
    )

renumbered_same :
    (b : Bool) (now : ℕ) (actions : Actions) (s : StoredScene)
    → (s.key ≡ (if b then record s { actions = actions; updated = now } else s).key)
      × (s.scene_id ≡ (if b then record s { actions = actions; updated = now } else s).scene_id)
renumbered_same true now actions s = (refl, refl)
renumbered_same false now actions s = (refl, refl)

renumber_scenes-SameNames :
    (now : ℕ) (canonical : Actions → Result Actions) (deleted : ℕ) (ss rs : List StoredScene)
    (n : ℕ)
    → renumber_scenes now canonical deleted ss ≡ ok (rs, n)
    → SameNames ss rs
unfolding renumber_scenes SameNames
renumber_scenes-SameNames now canonical deleted [] rs n h =
    subst (SameNames []) (ap (λ r. r.0) (ok-injective h)) tt
renumber_scenes-SameNames now canonical deleted (s ∷ ss) rs n h =
    let (actions, made, h') =
      bind_value _
        (if (renumber_actions deleted s.actions).1
          then canonical (renumber_actions deleted s.actions).0
          else ok s.actions)
        h in
    let (others, renumbered, h'') = bind_value _ (renumber_scenes now canonical deleted ss) h' in
    let (k, m) = renumbered_same (renumber_actions deleted s.actions).1 now actions s in
    subst (SameNames (s ∷ ss)) (ap (λ r. r.0) (ok-injective h''))
      (k, m, renumber_scenes-SameNames now canonical deleted ss others.0 others.1 renumbered)

pub renumber_group_references-IsWellFormed :
    (now : ℕ) (canonical : Actions → Result Actions) (deleted : ℕ) (st : Store)
    → IsWellFormed st
    → IsWellFormed (after_call (renumber_group_references now canonical deleted st) st)
unfolding renumber_group_references
renumber_group_references-IsWellFormed now canonical deleted st (d, i, below) =
    go (renumber_scenes now canonical deleted st.scenes) refl
  where
    go :
        (r : Result (List StoredScene × ℕ))
        → renumber_scenes now canonical deleted st.scenes ≡ r
        → IsWellFormed (after_call (r >>= λ x. ok (x.1, record st { scenes = x.0 })) st)
    go (err e) h = (d, i, below)
    go (ok (rs, n)) h =
        let same = renumber_scenes-SameNames now canonical deleted st.scenes rs n h in
        let (d', i') = SameNames-Distinct st.scenes rs same d i in
        (d', i', SameNames-All (λ t m. m < st.next_id) st.scenes rs same below)
