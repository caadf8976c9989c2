-- ===== src/Services/Scenes/Load/RoundTrip.antt =====
-- The file that the store of racelink/services/scenes_service.py has written, read again.
use gatecontrol_lora.Services.Scenes.Raw.{given, old_number}
use gatecontrol_lora.Services.Scenes.Validate.Sound.{AreCanonical}
use gatecontrol_lora.Services.Scenes.Validate.Written.{written_actions}
use gatecontrol_lora.Services.Scenes.Validate.RoundTrip.{written_actions_same}
use gatecontrol_lora.Services.Scenes.Store.{StoredScene, Store}
use gatecontrol_lora.Services.Scenes.Store.Distinct.{DistinctIds}
use gatecontrol_lora.Services.Scenes.Load.{
  load, load_scenes, next_after, free_id, RawScene, RawFile, raw_bool, coerce_bool,
}
use gatecontrol_lora.Services.Scenes.Load.Ids.{IsSound}
use gatecontrol_lora.Prelude.{
  ℕ, All, Bool-cases, List, [], ◌∷◌, some, ok, true, false, contains, leb, suc, zero, pos, inl, inr,
  arith, ◌≡◌, ◌≢◌, ◌<◌, ◌≤◌, refl, map, ◌==◌,
}

abbrev pub written_scene : StoredScene → RawScene
written_scene s = record {
  file_id = some s.scene_id;
  file_key = some s.key;
  file_label = some s.label;
  file_created = some s.created;
  file_updated = some s.updated;
  file_actions = given (written_actions s.actions);
  file_stop = raw_bool s.stop_on_error;
}

-- `_write_atomic`
unfoldable pub written_file : Store → RawFile
written_file st = record {
  file_schema = old_number (pos 1);
  file_scenes = some (map (λ s. some (written_scene s)) st.scenes);
  file_next = some (pos st.next_id);
}

-- The ids that are used after the scenes are read.
abbrev used_after : List ℕ → List StoredScene → List ℕ
used_after used [] = used
used_after used (s ∷ ss) = used_after (s.scene_id ∷ used) ss

free_id_same :
    (turns : ℕ) (used : List ℕ) (n : ℕ) → contains used n ≡ false → free_id turns used n ≡ n
unfolding free_id
free_id_same zero used n h = refl
free_id_same (suc turns) used n h = rw h refl

Unused-cons :
    (a : ℕ) (used : List ℕ) (ss : List StoredScene)
    → All (λ s. a ≢ s.scene_id) ss
    → All (λ s. contains used s.scene_id ≡ false) ss
    → All (λ s. contains (a ∷ used) s.scene_id ≡ false) ss
Unused-cons a used [] h k = tt
Unused-cons a used (s ∷ ss) (h, hs) (k, ks) = (rw (apart, k) refl, Unused-cons a used ss hs ks)
  where
    apart : (s.scene_id == a) ≡ false
    apart = elim (Bool-cases (s.scene_id == a)) [
      | inl e ↦ absurd (h (ground (arith, e)))
      | inr e ↦ e
    ]

load_scenes_same :
    (now index : ℕ) (used : List ℕ) (ss : List StoredScene)
    → DistinctIds ss
    → All (λ s. contains used s.scene_id ≡ false) ss
    → All (λ s. AreCanonical s.actions) ss
    → load_scenes now index used (map (λ s. some (written_scene s)) ss)
      ≡ ok (ss, used_after used ss)
unfolding load_scenes coerce_bool
load_scenes_same now index used [] d u c = refl
load_scenes_same now index used (s ∷ ss) (far, d) (u, us) (c, cs) =
    rw
      (
        load_scenes,
        written_actions_same s.actions c,
        free_id_same (next_after used) used s.scene_id u,
      )
      (rw
        (load_scenes_same now (suc index) (s.scene_id ∷ used) ss d
          (Unused-cons s.scene_id used ss far us) cs)
        refl)

next_after-bound : (b : ℕ) (us : List ℕ) → All (λ u. u < b) us → next_after us ≤ b
unfolding next_after
next_after-bound b [] h = omega arith
next_after-bound b (u ∷ us) (h, hs) = ground (arith, h, next_after-bound b us hs)

used_after-below :
    (b : ℕ) (used : List ℕ) (ss : List StoredScene)
    → All (λ u. u < b) used
    → All (λ s. s.scene_id < b) ss
    → All (λ u. u < b) (used_after used ss)
used_after-below b used [] h k = h
used_after-below b used (s ∷ ss) h (k, ks) = used_after-below b (s.scene_id ∷ used) ss (k, h) ks

no_ids : (ss : List StoredScene) → All (λ s. contains [] s.scene_id ≡ false) ss
no_ids [] = tt
no_ids (s ∷ ss) = (refl, no_ids ss)

-- A store whose scenes share no id, whose next id is above all of them, and whose actions are
-- canonical, is written to the file and read back as it was, at whatever time.
pub load-written_file :
    (now : ℕ) (st : Store) → IsSound st → load now (some (written_file st)) ≡ ok st
unfolding load written_file
load-written_file now st (d, below, c) =
    let ids = used_after [] st.scenes in
    let fits : leb (next_after ids) st.next_id ≡ true = ground (
      arith,
      next_after-bound st.next_id ids (used_after-below st.next_id [] st.scenes tt below),
    ) in
    rw (load_scenes_same now 0 [] st.scenes d (no_ids st.scenes) c) (rw fits refl)
