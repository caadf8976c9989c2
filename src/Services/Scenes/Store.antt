-- ===== src/Services/Scenes/Store.antt =====
-- racelink/services/scenes_service.py: the operations of the scene store. The file that keeps the
-- list between two calls is left out: a call begins with the list that the last one wrote, and
-- the lock makes it one step. The canonical form of a request's actions is an argument, with the
-- error where they are refused. Labels and keys are ASCII text.
pub mod Bulk
pub mod Collapse
pub mod Distinct
pub mod WellFormed
use gatecontrol_lora.Prelude.{
  ℕ, Bool, List, Option, Result, Text, [], all, codes, contains, eq_bytes, err, false,
  if◌then◌else◌, keep, leb, length, ltb, map, none, not, ok, or_else, runtime_error, some, suc,
  true, value_error, zero, ◌%◌, ◌&&◌, ◌++◌, ◌+◌, ◌/◌, ◌==◌, ◌>>=◌, ◌||◌, ◌∷◌,
}
use gatecontrol_lora.Services.Scenes.Renumber.{renumber_actions}
use gatecontrol_lora.Services.Scenes.Slug.{has_text, slugify, is_space, or_text, strip, unique_key}
use gatecontrol_lora.Services.Action.{
  Action, Actions, nil, cons, delay, sync, offset_group, effect, unknown_kind, Target, to_broadcast,
  to_groups, to_device, other_target,
}
use gatecontrol_lora.Services.Optimizer.{ContainerTarget, broadcast, groups, unsupported}

pub record StoredScene : Type 0 where
  pub scene_id : ℕ
  pub key : Text
  pub label : Text
  pub created : ℕ
  pub updated : ℕ
  pub actions : Actions
  pub stop_on_error : Bool

pub record Store : Type 0 where
  pub scenes : List StoredScene
  pub next_id : ℕ

-- `set(value).issuperset(known_set)`, for a value and a set that are not empty.
unfoldable pub covers : List ℕ → List ℕ → Bool
covers value [] = false
covers [] known = false
covers (v ∷ vs) (k ∷ ks) = all (contains (v ∷ vs)) (k ∷ ks)

unfoldable pub collapse_target : List ℕ → Target → Target
unfolding covers
collapse_target known to_broadcast = to_broadcast
collapse_target known other_target = other_target
collapse_target known (to_device addr) = to_device addr
collapse_target known (to_groups value) =
    if covers value known then to_broadcast else to_groups value

abbrev pub collapse_container : List ℕ → Option ContainerTarget → Option ContainerTarget
collapse_container known none = none
collapse_container known (some broadcast) = some broadcast
collapse_container known (some unsupported) = some unsupported
collapse_container known (some (groups value)) =
    some (if covers value known then broadcast else groups value)

unfoldable mutual
  unfolding collapse_target covers

  pub collapse_action : List ℕ → Action → Action
  collapse_action known (delay ms) = delay ms
  collapse_action known sync = sync
  collapse_action known unknown_kind = unknown_kind
  collapse_action known (effect a) = effect (record a { target = collapse_target known a.target })
  collapse_action known (offset_group target offset children) =
      offset_group (collapse_container known target) offset (collapse_actions known children)

  -- Without known groups every target is left as it is.
  pub collapse_actions : List ℕ → Actions → Actions
  collapse_actions known nil = nil
  collapse_actions known (cons action rest) =
      cons (collapse_action known action) (collapse_actions known rest)

abbrev pub keys : List StoredScene → List Text
keys = map (λ s. s.key)

unfoldable pub get : Text → List StoredScene → Option StoredScene
get k [] = none
get k (s ∷ rest) = if eq_bytes s.key k then some s else get k rest

unfoldable pub get_by_id : ℕ → List StoredScene → Option StoredScene
get_by_id n [] = none
get_by_id n (s ∷ rest) = if s.scene_id == n then some s else get_by_id n rest

-- What a request to create a scene carries.
pub record NewScene : Type 0 where
  pub new_label : Text
  pub new_key : Option Text
  pub validated : Result Actions
  pub new_stop : Option Bool

abbrev pub store_scene : ℕ → Text → Actions → Bool → Store → Text → StoredScene × Store
store_scene now label actions stop st key =
    let scene : StoredScene = record {
      scene_id = st.next_id;
      key = key;
      label = label;
      created = now;
      updated = now;
      actions = actions;
      stop_on_error = stop;
    } in
    (scene, record { scenes = st.scenes ++ scene ∷ []; next_id = suc st.next_id })

-- `key or label`
abbrev pub key_or : Option Text → Text → Text
key_or none label = label
key_or (some k) label = or_text k label

unfoldable pub create : List ℕ → ℕ → NewScene → Store → Result (StoredScene × Store)
unfolding unique_key slugify
create known now req st =
    let label = strip is_space req.new_label in
    if length label == 0 then err value_error else do
      actions ← req.validated
      key ← unique_key (slugify (key_or req.new_key label)) (keys st.scenes)
      ok (store_scene now label (collapse_actions known actions) (or_else req.new_stop true) st key)

-- What a request to change a scene carries.
pub record SceneChange : Type 0 where
  pub set_label : Option Text
  pub set_actions : Option (Result Actions)
  pub set_stop : Option Bool

abbrev pub label_of : Option Text → Text → Result Text
label_of none old = ok old
label_of (some l) old =
    if length (strip is_space l) == 0 then err value_error else ok (strip is_space l)

abbrev pub actions_of : List ℕ → Option (Result Actions) → Result (Option Actions)
actions_of known none = ok none
actions_of known (some r) = do actions ← r; ok (some (collapse_actions known actions))

-- The first scene of the key is changed.
unfoldable pub change_scene :
    (StoredScene → StoredScene) → Text → List StoredScene → List StoredScene
change_scene f k [] = []
change_scene f k (s ∷ rest) = if eq_bytes s.key k then f s ∷ rest else s ∷ change_scene f k rest

abbrev pub changed_scene : ℕ → Text → Option Actions → Option Bool → StoredScene → StoredScene
changed_scene now label actions stop s = record s {
  label = label;
  actions = or_else actions s.actions;
  stop_on_error = or_else stop s.stop_on_error;
  updated = now;
}

abbrev pub update_found :
    ℕ
    → Text
    → SceneChange
    → Option Actions
    → Store
    → Option StoredScene
    → Result (Option StoredScene × Store)
update_found now k change actions st none = ok (none, st)
update_found now k change actions st (some s) = do
  label ← label_of change.set_label s.label
  let entry = changed_scene now label actions change.set_stop
  ok (some (entry s), record st { scenes = change_scene entry k st.scenes })

unfoldable pub update :
    List ℕ → ℕ → Text → SceneChange → Store → Result (Option StoredScene × Store)
unfolding get change_scene
update known now k change st = do
  actions ← actions_of known change.set_actions
  update_found now k change actions st (get k st.scenes)

unfoldable pub delete : Text → Store → Bool × Store
delete k st =
    let left = keep (λ s. not (eq_bytes s.key k)) st.scenes in
    if length left == length st.scenes then (false, st) else (true, record st { scenes = left })

abbrev pub copy_label : Option Text → Text → Text
copy_label none label = label ++ codes " copy"
copy_label (some l) label = or_text l (label ++ codes " copy")

abbrev pub created_some : Result (StoredScene × Store) → Result (Option StoredScene × Store)
created_some (err e) = err e
created_some (ok (s, st)) = ok (some s, st)

unfoldable pub duplicate_found :
    List ℕ
    → ℕ
    → Option Text
    → Result Actions
    → Store
    → Option StoredScene
    → Result (Option StoredScene × Store)
unfolding create
duplicate_found known now label validated st none = ok (none, st)
duplicate_found known now label validated st (some source) = created_some (
    create known now
      (record {
        new_label = strip is_space (copy_label label source.label);
        new_key = none;
        validated = validated;
        new_stop = some source.stop_on_error;
      })
      st)

-- The actions of the source are validated once more.
unfoldable pub duplicate :
    List ℕ → ℕ → Text → Option Text → Result Actions → Store → Result (Option StoredScene × Store)
unfolding get duplicate_found
duplicate known now k label validated st =
    duplicate_found known now label validated st (get k st.scenes)

-- An entry of `replace_all`; a missing key or label is empty.
pub record ImportScene : Type 0 where
  pub import_key : Text
  pub import_label : Text
  pub import_created : Option ℕ
  pub import_updated : Option ℕ
  pub import_actions : Result Actions

-- `_slugify(entry.get("key") or entry.get("label") or "")`, made unique where it is taken.
abbrev pub import_key_of : ImportScene → List Text → Result Text
import_key_of e taken =
    let key = slugify (or_text e.import_key e.import_label) in
    if has_text taken key then unique_key key taken else ok key

-- An entry with its key: the id is taken before the actions are validated. The flag
-- `stop_on_error` of the entry is not kept, and is read again as true.
abbrev pub import_scene : ℕ → ImportScene → Text → Store → Actions → Store
import_scene now e key acc actions = record {
  scenes =
      acc.scenes
      ++ record {
        scene_id = acc.next_id;
        key = key;
        label = strip is_space (or_text e.import_label key);
        created = or_else e.import_created now;
        updated = or_else e.import_updated now;
        actions = actions;
        stop_on_error = true;
      }
        ∷ [];
  next_id = suc acc.next_id;
}

-- What an entry makes of the list so far, and whether it raises.
abbrev pub after_validation : ℕ → ImportScene → Text → Store → Result Actions → Store × Bool
after_validation now e key acc (err x) = (record acc { next_id = suc acc.next_id }, false)
after_validation now e key acc (ok actions) = (import_scene now e key acc actions, true)

abbrev pub import_one : ℕ → ImportScene → Store → Result Text → Store × Bool
import_one now e acc (err x) = (acc, false)
import_one now e acc (ok key) = after_validation now e key acc e.import_actions

-- The loop over the entries.
unfoldable pub import_scenes : ℕ → List ImportScene → Store → Store × Bool
unfolding unique_key slugify
import_scenes now [] acc = (acc, true)
import_scenes now (e ∷ es) acc =
    let one = import_one now e acc (import_key_of e (keys acc.scenes)) in
    let rest = import_scenes now es one.0 in if one.1 then rest else one

-- `replace_all`: where an entry raises, the list stays, but the ids are spent.
unfoldable pub replace_all : ℕ → List ImportScene → Store → Store
unfolding import_scenes
replace_all now entries st =
    let (acc, done) = import_scenes now entries (record st { scenes = [] }) in
    if done then acc else record st { next_id = acc.next_id }

-- The loop of `renumber_group_references`, with the number of the scenes that changed.
-- `_canonical_actions` of the renumbered actions is an argument.
unfoldable pub renumber_scenes :
    ℕ → (Actions → Result Actions) → ℕ → List StoredScene → Result (List StoredScene × ℕ)
unfolding renumber_actions
renumber_scenes now canonical deleted [] = ok ([], 0)
renumber_scenes now canonical deleted (s ∷ rest) = do
  actions ←
      if (renumber_actions deleted s.actions).1
      then canonical (renumber_actions deleted s.actions).0
      else ok s.actions
  others ← renumber_scenes now canonical deleted rest
  ok (
    (if (renumber_actions deleted s.actions).1
          then record s { actions = actions; updated = now }
          else s)
        ∷ others.0,
    if (renumber_actions deleted s.actions).1 then suc others.1 else others.1,
  )

-- `renumber_group_references`
unfoldable pub renumber_group_references :
    ℕ → (Actions → Result Actions) → ℕ → Store → Result (ℕ × Store)
unfolding renumber_scenes
renumber_group_references now canonical deleted st = do
  r ← renumber_scenes now canonical deleted st.scenes
  ok (r.1, record st { scenes = r.0 })

pub data StoreCall : Type 0 where
  call_create : NewScene → StoreCall
  call_update : Text → SceneChange → StoreCall
  call_delete : Text → StoreCall
  call_duplicate : Text → Option Text → Result Actions → StoreCall
  call_replace_all : List ImportScene → StoreCall
  call_renumber : (Actions → Result Actions) → ℕ → StoreCall

-- A call that raises leaves the store as it was.
abbrev pub after_call : {A : Type 0} → Result (A × Store) → Store → Store
after_call (err e) st = st
after_call (ok (value, after)) st = after

unfoldable pub store_step : List ℕ → ℕ → StoreCall → Store → Store
unfolding create update delete duplicate replace_all renumber_group_references
store_step known now (call_create req) st = after_call (create known now req st) st
store_step known now (call_update k change) st = after_call (update known now k change st) st
store_step known now (call_delete k) st = (delete k st).1
store_step known now (call_duplicate k label validated) st =
    after_call (duplicate known now k label validated st) st
store_step known now (call_replace_all entries) st = replace_all now entries st
store_step known now (call_renumber canonical deleted) st =
    after_call (renumber_group_references now canonical deleted st) st

-- Calls with the groups that are known then, and their times.
unfoldable pub store_run : List (List ℕ × ℕ × StoreCall) → Store → Store
unfolding store_step
store_run [] st = st
store_run ((known, now, call) ∷ rest) st = store_run rest (store_step known now call st)
