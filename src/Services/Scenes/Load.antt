-- ===== src/Services/Scenes/Load.antt =====
-- racelink/services/scenes_service.py: the reading of the store's file. Its ids are natural numbers,
-- its times are numbers.
pub mod Collapse
pub mod Dropped
pub mod Ids
pub mod RoundTrip
use gatecontrol_lora.Services.Scenes.Raw.{Field, RawAction, OldNumber}
use gatecontrol_lora.Services.Scenes.Validate.{canonical_actions, old_int}
use gatecontrol_lora.Services.Action.{Actions, nil}
use gatecontrol_lora.Services.Scenes.Store.{StoredScene, Store}
use gatecontrol_lora.Services.Scenes.Slug.{strip, is_space, has_text}
use gatecontrol_lora.Protocol.Offset.{lower}
use gatecontrol_lora.Prelude.{
  ℕ, ℤ, Bool, List, Option, Result, value_error, type_error, Text, [], ◌∷◌, codes, none, some, ok,
  err, true, false, if◌then◌else◌, contains, leb, suc, zero, or_else, pos, negsuc, ◌>>=◌,
}

-- The value of `stop_on_error`; other stands for None and for a missing key too.
pub data RawBool : Type 0 where
  raw_bool : Bool → RawBool
  raw_int : ℤ → RawBool
  raw_text : Text → RawBool
  raw_other : RawBool

abbrev pub is_nonzero : ℤ → Bool
is_nonzero (pos zero) = false
is_nonzero (pos (suc n)) = true
is_nonzero (negsuc n) = true

abbrev pub true_texts : List Text
true_texts = codes "true" ∷ codes "1" ∷ codes "yes" ∷ codes "on" ∷ []

abbrev pub false_texts : List Text
false_texts = codes "false" ∷ codes "0" ∷ codes "no" ∷ codes "off" ∷ []

-- `_coerce_bool`
unfoldable pub coerce_bool : Bool → RawBool → Bool
coerce_bool default (raw_bool b) = b
coerce_bool default (raw_int v) = is_nonzero v
coerce_bool default (raw_text t) =
    let s = lower (strip is_space t) in
    if has_text true_texts s then true else if has_text false_texts s then false else default
coerce_bool default raw_other = default

-- An entry of the file. A key or a label is none where it is no text, an id where it is None or no
-- number, a time where it is missing or empty.
pub record RawScene : Type 0 where
  pub file_id : Option ℕ
  pub file_key : Option Text
  pub file_label : Option Text
  pub file_created : Option ℕ
  pub file_updated : Option ℕ
  pub file_actions : Field (List (Option RawAction))
  pub file_stop : RawBool

-- The file; `file_scenes` is none where it is no list, `file_next` where it is no int.
pub record RawFile : Type 0 where
  pub file_schema : OldNumber
  pub file_scenes : Option (List (Option RawScene))
  pub file_next : Option ℤ

-- `max(used_ids) + 1 if used_ids else 0`
unfoldable pub next_after : List ℕ → ℕ
next_after [] = 0
next_after (u ∷ us) = let rest = next_after us in if leb rest u then suc u else rest

-- `while scene_id in used_ids: scene_id += 1`, for so many turns.
unfoldable pub free_id : ℕ → List ℕ → ℕ → ℕ
free_id zero used n = n
free_id (suc turns) used n =
    let later = free_id turns used (suc n) in if contains used n then later else n

-- Malformed actions are dropped; only ValueError is caught.
abbrev pub actions_or_none : Result Actions → Result Actions
actions_or_none (ok actions) = ok actions
actions_or_none (err value_error) = ok nil
actions_or_none (err type_error) = err type_error
actions_or_none (err e) = err e

abbrev pub loaded_scene : ℕ → RawScene → ℕ → Text → Text → Actions → StoredScene
loaded_scene now e ident key label actions = record {
  scene_id = ident;
  key = key;
  label = label;
  created = or_else e.file_created now;
  updated = or_else e.file_updated (or_else e.file_created now);
  actions = actions;
  stop_on_error = coerce_bool true e.file_stop;
}

-- The entries that count: dicts with a key and a label.
abbrev pub entry_texts : Option RawScene → Option (RawScene × Text × Text)
entry_texts none = none
entry_texts (some e) = elim e.file_key [
  | none ↦ none
  | some key ↦ elim e.file_label [ none ↦ none | some label ↦ some (e, key, label) ]
]

abbrev pub Loaded : Type 0
Loaded = List StoredScene × List ℕ

abbrev pub add_scene : StoredScene → Loaded → Loaded
add_scene s (scenes, used) = (s ∷ scenes, used)

-- The loop over the entries: the scenes, and the ids that are used in the end.
unfoldable pub load_scenes : ℕ → ℕ → List ℕ → List (Option RawScene) → Result Loaded
unfolding free_id next_after canonical_actions coerce_bool
load_scenes now index used [] = ok ([], used)
load_scenes now index used (raw ∷ rest) = elim (entry_texts raw) [
  | none ↦ load_scenes now (suc index) used rest
  | some (e, key, label) ↦ (do
    let ident = free_id (next_after used) used (or_else e.file_id index)
    actions ← actions_or_none (canonical_actions e.file_actions)
    others ← load_scenes now (suc index) (ident ∷ used) rest
    ok (add_scene (loaded_scene now e ident key label actions) others))
]

abbrev pub next_of : Option ℤ → ℕ → ℕ
next_of none least = least
next_of (some (pos n)) least = if leb least n then n else least
next_of (some (negsuc n)) least = least

abbrev pub empty_store : Store
empty_store = record { scenes = []; next_id = 0 }

abbrev pub load_list : ℕ → Option ℤ → Option (List (Option RawScene)) → Result Store
load_list now next none = ok empty_store
load_list now next (some raws) = do
  loaded ← load_scenes now 0 [] raws
  ok (record { scenes = loaded.0; next_id = next_of next (next_after loaded.1) })

-- `_load`; none is a file that is missing, or cannot be read, or holds no dict.
unfoldable pub load : ℕ → Option RawFile → Result Store
unfolding load_scenes next_after
load now none = ok empty_store
load now (some file) = do
  schema ← old_int file.file_schema
  load_list now file.file_next file.file_scenes
