-- ===== src/Services/Scenes/Load/Ids.antt =====
-- What the store of racelink/services/scenes_service.py holds after its file is read.
use gatecontrol_lora.Services.Scenes.Raw.{Field, RawAction}
use gatecontrol_lora.Services.Scenes.Validate.{canonical_actions, old_int}
use gatecontrol_lora.Services.Scenes.Validate.Sound.{AreCanonical}
use gatecontrol_lora.Services.Scenes.Validate.Kept.{canonical_actions-IsCanonical}
use gatecontrol_lora.Services.Action.{Actions}
use gatecontrol_lora.Services.Scenes.Store.{StoredScene, Store}
use gatecontrol_lora.Services.Scenes.Store.Distinct.{DistinctIds}
use gatecontrol_lora.Services.Scenes.Load.{
  load, load_scenes, load_list, next_after, free_id, entry_texts, Loaded, RawScene, RawFile,
  loaded_scene, actions_or_none, next_of, add_scene,
}
use gatecontrol_lora.Prelude.{
  ℕ, ℤ, All, All-weaken, Bool-cases, List, Option, Result, value_error, type_error, struct_error,
  index_error, assertion_error, runtime_error, Text, [], ◌∷◌, none, some, ok, err, true, false,
  contains, suc, zero, or_else, pos, negsuc, bind_value, ok-injective, subst, inl, inr, arith, ◌≡◌,
  ◌≢◌, ◌<◌, ◌≤◌, ◌+◌, refl, Option-cases, ◌==◌, ◌>>=◌,
}

next_after-cons :
    (v : ℕ) (us : List ℕ) → (v < next_after (v ∷ us)) × (next_after us ≤ next_after (v ∷ us))
unfolding next_after
next_after-cons v us = (ground arith, ground arith)

pub next_after-above : (us : List ℕ) → All (λ u. u < next_after us) us
next_after-above [] = tt
next_after-above (v ∷ us) =
    let (here, more) = next_after-cons v us in
    (
      here,
      All-weaken (λ u. u < next_after us) (λ u. u < next_after (v ∷ us)) us
          (λ u h. omega (arith, h, more)) (next_after-above us),
    )

-- What is in the list is below the bound.
contained_below : (b : ℕ) (us : List ℕ) (v : ℕ) → All (λ u. u < b) us → contains us v ≡ true → v < b
contained_below b [] v h c = cc
contained_below b (u ∷ us) v (h, hs) c = elim (Bool-cases (v == u)) [
  | inl e ↦ ground (arith, e, h)
  | inr e ↦ contained_below b us v hs (rw e at c)
]

not_contained : (b : ℕ) (us : List ℕ) → All (λ u. u < b) us → contains us b ≡ false
not_contained b [] h = refl
not_contained b (u ∷ us) (h, hs) = ground (arith, h, not_contained b us hs)

free_id-free :
    (turns : ℕ) (used : List ℕ) (n : ℕ)
    → All (λ u. u < n + turns) used
    → contains used (free_id turns used n) ≡ false
unfolding free_id
free_id-free zero used n h =
    not_contained n used (All-weaken (λ u. u < n + 0) (λ u. u < n) used (λ u k. omega (arith, k)) h)
free_id-free (suc turns) used n h = elim (Bool-cases (contains used n)) [
  | inl e ↦ rw e (
      free_id-free turns used (suc n) (
        All-weaken (λ u. u < n + suc turns) (λ u. u < suc n + turns) used (λ u k. omega (arith, k))
          h))
  | inr e ↦ rw e e
]

-- The turns are enough: the search ends at an id that is not used.
pub free_id_lem : (used : List ℕ) (n : ℕ) → contains used (free_id (next_after used) used n) ≡ false
free_id_lem used n = free_id-free (next_after used) used n (
    All-weaken (λ u. u < next_after used) (λ u. u < n + next_after used) used
      (λ u h. omega (arith, h)) (next_after-above used))

-- An action list that is dropped is canonical too.
actions_or_none-IsCanonical :
    (raw : Field (List (Option RawAction))) (actions : Actions)
    → actions_or_none (canonical_actions raw) ≡ ok actions
    → AreCanonical actions
actions_or_none-IsCanonical raw actions h = go (canonical_actions raw) refl h
  where
    go :
        (r : Result Actions)
        → canonical_actions raw ≡ r
        → actions_or_none r ≡ ok actions
        → AreCanonical actions
    go (ok found) e k =
        subst AreCanonical (ok-injective k) (canonical_actions-IsCanonical raw found e)
    go (err value_error) e k = subst AreCanonical (ok-injective k) (tt, omega arith)
    go (err type_error) e k = cc
    go (err struct_error) e k = cc
    go (err index_error) e k = cc
    go (err assertion_error) e k = cc
    go (err runtime_error) e k = cc

-- From the ids used before to those used after.
abbrev IsLoaded : List ℕ → Loaded → Type 0
IsLoaded used (scenes, after) =
    All (λ s. contains used s.scene_id ≡ false) scenes
    × DistinctIds scenes
    × All (λ s. contains after s.scene_id ≡ true) scenes
    × ((u : ℕ) → contains used u ≡ true → contains after u ≡ true)
    × All (λ s. AreCanonical s.actions) scenes

apart : (a b : ℕ) (used : List ℕ) → contains (a ∷ used) b ≡ false → a ≢ b
apart a b used h e = absurd (ground (arith, h, e))

unused : (a b : ℕ) (used : List ℕ) → contains (a ∷ used) b ≡ false → contains used b ≡ false
unused a b used h = ground (arith, h)

in_front : (a : ℕ) (used : List ℕ) → contains (a ∷ used) a ≡ true
in_front a used = ground arith

behind : (a u : ℕ) (used : List ℕ) → contains used u ≡ true → contains (a ∷ used) u ≡ true
behind a u used h = ground (arith, h)

add_scene-IsLoaded :
    (used : List ℕ) (s : StoredScene) (others : Loaded)
    → contains used s.scene_id ≡ false
    → AreCanonical s.actions
    → IsLoaded (s.scene_id ∷ used) others
    → IsLoaded used (add_scene s others)
add_scene-IsLoaded used s (scenes, after) free canonical (fresh, distinct, known, grows, good) = (
  (
    free,
    All-weaken (λ r. contains (s.scene_id ∷ used) r.scene_id ≡ false)
        (λ r. contains used r.scene_id ≡ false) scenes (λ r h. unused s.scene_id r.scene_id used h)
        fresh,
  ),
  (
    All-weaken (λ r. contains (s.scene_id ∷ used) r.scene_id ≡ false) (λ r. s.scene_id ≢ r.scene_id)
        scenes (λ r h. apart s.scene_id r.scene_id used h) fresh,
    distinct,
  ),
  (grows s.scene_id (in_front s.scene_id used), known),
  (λ u h. grows u (behind s.scene_id u used h)),
  (canonical, good),
)

load_scenes-IsLoaded :
    (now index : ℕ) (used : List ℕ) (raws : List (Option RawScene)) (out : Loaded)
    → load_scenes now index used raws ≡ ok out
    → IsLoaded used out
unfolding load_scenes
load_scenes-IsLoaded now index used [] out h =
    subst (IsLoaded used) (ok-injective h) (tt, tt, tt, (λ u k. k), tt)
load_scenes-IsLoaded now index used (raw ∷ rest) out h = elim (Option-cases (entry_texts raw)) [
  | inl e ↦ load_scenes-IsLoaded now (suc index) used rest out (rw (load_scenes, e) at h)
  | inr ((s, key, label), e) ↦
      read s key label
        (λ ident others k. load_scenes-IsLoaded now (suc index) (ident ∷ used) rest others k)
        (rw (load_scenes, e) at h)
]
  where
    read :
        (s : RawScene) (key label : Text)
        → ((ident : ℕ) (others : Loaded)
            → load_scenes now (suc index) (ident ∷ used) rest ≡ ok others
            → IsLoaded (ident ∷ used) others)
        → (do
          let ident = free_id (next_after used) used (or_else s.file_id index)
          actions ← actions_or_none (canonical_actions s.file_actions)
          others ← load_scenes now (suc index) (ident ∷ used) rest
          ok (add_scene (loaded_scene now s ident key label actions) others))
          ≡ ok out
        → IsLoaded used out
    read s key label later k =
        let ident = free_id (next_after used) used (or_else s.file_id index) in
        let (actions, f, r) = bind_value _ (actions_or_none (canonical_actions s.file_actions)) k in
        let (others, g, r2) = bind_value _ (load_scenes now (suc index) (ident ∷ used) rest) r in
        subst (IsLoaded used) (ok-injective r2) (
          add_scene-IsLoaded used (loaded_scene now s ident key label actions) others
            (free_id_lem used (or_else s.file_id index))
            (actions_or_none-IsCanonical s.file_actions actions f) (later ident others g))

next_of-least : (next : Option ℤ) (least : ℕ) → least ≤ next_of next least
next_of-least none least = omega arith
next_of-least (some (negsuc n)) least = omega arith
next_of-least (some (pos n)) least = ground arith

-- What holds of the ids and the actions of a store that has been read.
abbrev pub IsSound : Store → Type 0
IsSound st =
    DistinctIds st.scenes
    × All (λ s. s.scene_id < st.next_id) st.scenes
    × All (λ s. AreCanonical s.actions) st.scenes

load_list-IsSound :
    (now : ℕ) (next : Option ℤ) (raws : Option (List (Option RawScene))) (st : Store)
    → load_list now next raws ≡ ok st
    → IsSound st
unfolding load_scenes
load_list-IsSound now next none st h = subst IsSound (ok-injective h) (tt, tt, tt)
load_list-IsSound now next (some raws) st h =
    let (out, e, r) = bind_value _ (load_scenes now 0 [] raws) h in
    let (fresh, distinct, known, grows, good) = load_scenes-IsLoaded now 0 [] raws out e in
    let least = next_after out.1 in
    let above = next_of-least next least in
    subst IsSound (ok-injective r) (
      distinct,
      All-weaken (λ s. contains out.1 s.scene_id ≡ true) (λ s. s.scene_id < next_of next least)
          out.0
          (λ s k.
            omega (arith, above, contained_below least out.1 s.scene_id (next_after-above out.1) k))
          known,
      good,
    )

-- Whatever the file holds: once it is read, no two scenes share an id, the id that comes next is
-- above all of them, and the actions of every scene are canonical.
pub load-IsSound :
    (now : ℕ) (file : Option RawFile) (st : Store) → load now file ≡ ok st → IsSound st
unfolding load
load-IsSound now none st h = subst IsSound (ok-injective h) (tt, tt, tt)
load-IsSound now (some file) st h =
    let (schema, e, r) = bind_value _ (old_int file.file_schema) h in
    load_list-IsSound now file.file_next file.file_scenes st r
