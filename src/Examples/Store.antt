-- ===== src/Examples/Store.antt =====
-- Scenes that are stored, renamed, copied and deleted.
use gatecontrol_lora.Prelude.{
  ℕ, List, Result, Text, [], codes, err, none, ok, refl, some, true, value_error, ◌++◌, ◌∷◌, ◌≡◌,
}
use gatecontrol_lora.Services.Action.{Actions, cons, nil, sync, offset_group}
use gatecontrol_lora.Services.Optimizer.{groups}
use gatecontrol_lora.Services.Scenes.Store.{
  StoredScene, call_create, call_delete, call_duplicate, call_replace_all, call_renumber,
  ImportScene, replace_all, import_scenes, renumber_group_references, renumber_scenes, NewScene,
  Store, StoreCall, collapse_actions, covers, create, delete, duplicate, duplicate_found, get, keys,
  store_run, store_step, update,
}
use gatecontrol_lora.Services.Scenes.Renumber.{
  renumber_actions, shift_container, shift_groups, shift_group_value, dedupe,
}
use gatecontrol_lora.Services.Scenes.Slug.{free_key, slugify, sub_words, unique_key}
use gatecontrol_lora.Services.Scenes.Store.Distinct.{IsWellFormed}
use gatecontrol_lora.Services.Scenes.Store.WellFormed.{store_run-IsWellFormed}

abbrev container : Actions
container = cons (offset_group (some (groups (2 ∷ 1 ∷ []))) none nil) (cons sync nil)

abbrev request : NewScene
request = record {
  new_label = codes " Race Start! ";
  new_key = none;
  validated = ok container;
  new_stop = none;
}

abbrev empty : Store
empty = record { scenes = []; next_id = 0 }

abbrev calls : List (List ℕ × ℕ × StoreCall)
calls =
    (1 ∷ 2 ∷ [], 10, call_create request)
    ∷ ([], 20, call_duplicate (codes "race_start") (some (codes "Race Start")) (ok container))
    ∷ ([], 30, call_create (record request { new_label = codes "  " }))
    ∷ ([], 40, call_delete (codes "race_start"))
    ∷ ([], 50, call_create request)
    ∷ []

two_keys : keys (store_run calls empty).scenes ≡ codes "race_start_2" ∷ codes "race_start" ∷ []
unfolding store_run store_step create update delete duplicate duplicate_found get unique_key
    free_key slugify sub_words
two_keys = refl

-- The id of the deleted scene is not given again.
ids_go_on : (store_run calls empty).next_id ≡ 3
unfolding store_run store_step create update delete duplicate duplicate_found get unique_key
    free_key slugify sub_words
ids_go_on = refl

-- The second entry has the key of the first, and the third is refused.
abbrev entry : Text → Result Actions → ImportScene
entry label actions = record {
  import_key = [];
  import_label = label;
  import_created = none;
  import_updated = none;
  import_actions = actions;
}

abbrev bulk_calls : List (List ℕ × ℕ × StoreCall)
bulk_calls =
    ([], 60, call_replace_all (entry (codes "A") (ok nil) ∷ entry (codes "A") (ok container) ∷ []))
    ∷ ([], 70, call_renumber (λ actions. ok actions) 1)
    ∷ ([], 80, call_replace_all (entry (codes "B") (ok nil) ∷ entry [] (err value_error) ∷ []))
    ∷ []

-- The refused list leaves the scenes, and spends two ids.
bulk_keys :
    (keys (store_run bulk_calls empty).scenes ≡ codes "a" ∷ codes "a_2" ∷ [])
    × ((store_run bulk_calls empty).next_id ≡ 4)
unfolding store_run store_step replace_all import_scenes renumber_group_references renumber_scenes
    renumber_actions shift_container shift_groups shift_group_value dedupe unique_key free_key
    slugify sub_words
bulk_keys = (refl, refl)

store_run-IsWellFormed_example : IsWellFormed (store_run (calls ++ bulk_calls) empty)
store_run-IsWellFormed_example = store_run-IsWellFormed (calls ++ bulk_calls) empty (tt, tt, tt)

abbrev first_scene : StoredScene
first_scene = record {
  scene_id = 0;
  key = codes "race_start";
  label = codes "Race Start!";
  created = 10;
  updated = 10;
  actions = cons (offset_group (some (groups (2 ∷ 1 ∷ []))) none nil) (cons sync nil);
  stop_on_error = true;
}

abbrev one_scene : Store
one_scene = record { scenes = first_scene ∷ []; next_id = 1 }

created_one : create (3 ∷ []) 10 request empty ≡ ok (first_scene, one_scene)
unfolding create unique_key slugify sub_words collapse_actions covers
created_one = refl
