-- ===== src/Services/Scenes/Store/WellFormed.antt =====
-- The invariant of the scene store of racelink/services/scenes_service.py, and what a created
-- scene is found by.
use gatecontrol_lora.Prelude.{
  ℕ, All-append, All-weaken, Bool, Bool-cases, List, Option, Result, Text, [], arith, eq_bytes,
  eq_bytes_refl, err, false, if◌then◌else◌, inl, inr, keep, length, none, not, ok, or_else, refl,
  some, subst, suc, sym, true, value_error, ◌++◌, ◌<◌, ◌==◌, ◌>>=◌, ◌∷◌, ◌≡◌, bind_value,
  ok-injective,
}
use gatecontrol_lora.Services.Keyed
use gatecontrol_lora.Services.Action.{Actions}
use gatecontrol_lora.Services.Scenes.Store.{
  StoredScene, NewScene, SceneChange, Store, StoreCall, actions_of, after_call, call_create,
  call_delete, call_duplicate, call_replace_all, call_renumber, call_update, changed_scene,
  collapse_actions, copy_label, create, created_some, delete, duplicate, duplicate_found, get,
  key_or, keys, label_of, store_run, store_scene, store_step, update, update_found,
}
use gatecontrol_lora.Services.Scenes.Slug.{has_text, is_space, slugify, strip, unique_key}
use gatecontrol_lora.Services.Scenes.Store.Bulk.{
  replace_all-IsWellFormed, renumber_group_references-IsWellFormed,
}
use gatecontrol_lora.Services.Scenes.Store.Distinct.{
  IsWellFormed, change_scene-All, change_scene-distinct, unique_key-free,
}

-- A call that raises changes nothing, and one that returns goes on from its value.
after-bind :
    {A B : Type 0} (r : Result A) (rest : A → Result (B × Store)) (st : Store)
    → IsWellFormed st
    → ((v : A) → r ≡ ok v → IsWellFormed (after_call (rest v) st))
    → IsWellFormed (after_call (r >>= rest) st)
after-bind (err e) rest st h k = h
after-bind (ok v) rest st h k = k v refl

after-if :
    {B : Type 0} (b : Bool) (x y : Result (B × Store)) (st : Store)
    → IsWellFormed (after_call x st)
    → IsWellFormed (after_call y st)
    → IsWellFormed (after_call (if b then x else y) st)
after-if true x y st h k = h
after-if false x y st h k = k

store_scene-IsWellFormed :
    (now : ℕ) (label : Text) (actions : Actions) (stop : Bool) (st : Store) (key : Text)
    → IsWellFormed st
    → has_text (keys st.scenes) key ≡ false
    → IsWellFormed (store_scene now label actions stop st key).1
store_scene-IsWellFormed now label actions stop st key (d, e, below) free =
    let new = (store_scene now label actions stop st key).0 in
    (
      Keyed.DistinctKeys-append (λ s. s.key) st.scenes new d free,
      Keyed.DistinctIds-append (λ s. s.scene_id) st.scenes new e below,
      All-append (λ s. s.scene_id < suc st.next_id) st.scenes (new ∷ [])
          (All-weaken (λ s. s.scene_id < st.next_id) (λ s. s.scene_id < suc st.next_id) st.scenes
            (λ s h. omega (arith, h)) below)
          (omega arith, tt),
    )

create-IsWellFormed :
    (known : List ℕ) (now : ℕ) (req : NewScene) (st : Store)
    → IsWellFormed st
    → IsWellFormed (after_call (create known now req st) st)
unfolding create
create-IsWellFormed known now req st h =
    let label = strip is_space req.new_label in
    after-if (length label == 0) (err value_error) _ st h (
      after-bind req.validated _ st h (λ actions e.
        after-bind (unique_key (slugify (key_or req.new_key label)) (keys st.scenes)) _ st h
          (λ key free.
            store_scene-IsWellFormed now label (collapse_actions known actions)
              (or_else req.new_stop true) st key h
              (unique_key-free (slugify (key_or req.new_key label)) (keys st.scenes) key free))))

update_found-IsWellFormed :
    (now : ℕ) (k : Text) (change : SceneChange) (actions : Option Actions) (st : Store)
    (found : Option StoredScene)
    → IsWellFormed st
    → IsWellFormed (after_call (update_found now k change actions st found) st)
update_found-IsWellFormed now k change actions st none h = h
update_found-IsWellFormed now k change actions st (some s) (d, e, below) =
    after-bind (label_of change.set_label s.label) _ st (d, e, below)
      (λ label p.
        let entry = changed_scene now label actions change.set_stop in
        let (x, y) = change_scene-distinct entry (λ s. refl) (λ s. refl) k st.scenes d e in
        (
          x,
          y,
          change_scene-All entry (λ s. refl) (λ s. refl) (λ key id. id < st.next_id) k st.scenes
              below,
        ))

update-IsWellFormed :
    (known : List ℕ) (now : ℕ) (k : Text) (change : SceneChange) (st : Store)
    → IsWellFormed st
    → IsWellFormed (after_call (update known now k change st) st)
unfolding update
update-IsWellFormed known now k change st h =
    after-bind (actions_of known change.set_actions) _ st h
      (λ actions e. update_found-IsWellFormed now k change actions st (get k st.scenes) h)

delete-IsWellFormed : (k : Text) (st : Store) → IsWellFormed st → IsWellFormed (delete k st).1
unfolding delete
delete-IsWellFormed k st (d, e, below) =
    let p : StoredScene → Bool = λ s. not (eq_bytes s.key k) in
    elim (Bool-cases (length (keep p st.scenes) == length st.scenes)) [
      | inl f ↦ rw (delete, f) (d, e, below)
      | inr f ↦
          rw (delete, f)
            (
              Keyed.DistinctKeys-keep (λ s. s.key) p st.scenes d,
              Keyed.DistinctIds-keep (λ s. s.scene_id) p st.scenes e,
              Keyed.All-keep (λ s. s.scene_id < st.next_id) p st.scenes below,
            )
    ]

created_some-after :
    (r : Result (StoredScene × Store)) (st : Store)
    → after_call (created_some r) st ≡ after_call r st
created_some-after (err e) st = refl
created_some-after (ok v) st = refl

duplicate_found-IsWellFormed :
    (known : List ℕ) (now : ℕ) (label : Option Text) (validated : Result Actions) (st : Store)
    (found : Option StoredScene)
    → IsWellFormed st
    → IsWellFormed (after_call (duplicate_found known now label validated st found) st)
unfolding duplicate_found
duplicate_found-IsWellFormed known now label validated st none h = h
duplicate_found-IsWellFormed known now label validated st (some source) h =
    let req : NewScene = record {
      new_label = strip is_space (copy_label label source.label);
      new_key = none;
      validated = validated;
      new_stop = some source.stop_on_error;
    } in
    subst IsWellFormed (sym (created_some-after (create known now req st) st))
      (create-IsWellFormed known now req st h)

store_step-IsWellFormed :
    (known : List ℕ) (now : ℕ) (call : StoreCall) (st : Store)
    → IsWellFormed st
    → IsWellFormed (store_step known now call st)
unfolding store_step duplicate
store_step-IsWellFormed known now (call_create req) st h = create-IsWellFormed known now req st h
store_step-IsWellFormed known now (call_update k change) st h =
    update-IsWellFormed known now k change st h
store_step-IsWellFormed known now (call_delete k) st h = delete-IsWellFormed k st h
store_step-IsWellFormed known now (call_duplicate k label validated) st h =
    duplicate_found-IsWellFormed known now label validated st (get k st.scenes) h
store_step-IsWellFormed known now (call_replace_all entries) st h =
    replace_all-IsWellFormed now entries st h
store_step-IsWellFormed known now (call_renumber canonical deleted) st h =
    renumber_group_references-IsWellFormed now canonical deleted st h

-- Whatever calls the store has seen that change it (`create`, `update`, `delete`, `duplicate`,
-- `replace_all` and `renumber_group_references`), returned from or raised in: no two scenes share a
-- key or an id, and the id that comes next has not been given to any of them, if that holds at the start.
pub store_run-IsWellFormed :
    (calls : List (List ℕ × ℕ × StoreCall)) (st : Store)
    → IsWellFormed st
    → IsWellFormed (store_run calls st)
unfolding store_run
store_run-IsWellFormed [] st h = h
store_run-IsWellFormed ((known, now, call) ∷ rest) st h =
    store_run-IsWellFormed rest (store_step known now call st)
      (store_step-IsWellFormed known now call st h)

get-append :
    (ss : List StoredScene) (new : StoredScene)
    → has_text (keys ss) new.key ≡ false
    → get new.key (ss ++ new ∷ []) ≡ some new
unfolding get
get-append [] new h = rw (get, eq_bytes_refl new.key) refl
get-append (s ∷ rest) new h = elim (Bool-cases (eq_bytes s.key new.key)) [
  | inl e ↦ cc (rw e at h)
  | inr e ↦ rw (get, e) (get-append rest new (rw e at h))
]

-- A scene that the store has created is found by its key, which no scene had before, and carries
-- the id that was next; the label is that of the request without the blanks around it. The scenes
-- before it are as they were.
pub create-get :
    (known : List ℕ) (now : ℕ) (req : NewScene) (st last : Store) (s : StoredScene)
    → create known now req st ≡ ok (s, last)
    → (get s.key last.scenes ≡ some s)
      × (has_text (keys st.scenes) s.key ≡ false)
      × (s.scene_id ≡ st.next_id)
      × (last.next_id ≡ suc st.next_id)
      × (s.label ≡ strip is_space req.new_label)
      × (last.scenes ≡ st.scenes ++ s ∷ [])
unfolding create
create-get known now req st last s h =
    elim (Bool-cases (length (strip is_space req.new_label) == 0)) [
      | inl e ↦ cc (rw (create, e) at h)
      | inr e ↦
          let label = strip is_space req.new_label in
          let (actions, v, h1) = bind_value _ req.validated (rw (create, e) at h) in
          let (key, u, h2) =
            bind_value _ (unique_key (slugify (key_or req.new_key label)) (keys st.scenes)) h1 in
          let free = unique_key-free (slugify (key_or req.new_key label)) (keys st.scenes) key u in
          let made =
            store_scene now label (collapse_actions known actions) (or_else req.new_stop true) st
              key in
          let same : made ≡ (s, last) = ok-injective h2 in
          subst
            (λ p.
              (get p.0.key p.1.scenes ≡ some p.0)
              × (has_text (keys st.scenes) p.0.key ≡ false)
              × (p.0.scene_id ≡ st.next_id)
              × (p.1.next_id ≡ suc st.next_id)
              × (p.0.label ≡ label)
              × (p.1.scenes ≡ st.scenes ++ p.0 ∷ []))
            same (get-append st.scenes made.0 free, free, refl, refl, refl, refl)
    ]
