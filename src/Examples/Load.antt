-- ===== src/Examples/Load.antt =====
-- racelink/services/scenes_service.py: a file with two scenes of one id, and a scene that loses its
-- actions.
use gatecontrol_lora.Protocol.Offset.{mode_of, explicit}
use gatecontrol_lora.Domain.OffsetFormula.{OffsetSpec}
use gatecontrol_lora.Services.Scenes.{blank, block_mode}
use gatecontrol_lora.Services.Scenes.Raw.{wrong_shape, given, old_number}
use gatecontrol_lora.Services.Scenes.Store.{
  collapse_actions, StoredScene, Store, NewScene, create, covers,
}
use gatecontrol_lora.Services.Scenes.Load.{
  load, RawScene, RawFile, raw_text, raw_other, empty_store,
}
use gatecontrol_lora.Services.Scenes.Load.Ids.{load-IsSound, IsSound}
use gatecontrol_lora.Services.Scenes.Load.RoundTrip.{load-written_file, written_file}
use gatecontrol_lora.Services.Scenes.Load.Dropped.{create-dropped}
use gatecontrol_lora.Services.Action.{nil, cons, offset_group, sync}
use gatecontrol_lora.Services.Optimizer.{groups, broadcast}
use gatecontrol_lora.Examples.Validate.{sent, kept}
use gatecontrol_lora.Prelude.{
  type_error, err, Text, [], codes, none, some, pos, ◌∷◌, ◌≡◌, refl, ok, true, false, traverse,
}

abbrev entry : Text → RawScene
entry key = record {
  file_id = some 3;
  file_key = some key;
  file_label = some (codes "Start");
  file_created = some 40;
  file_updated = none;
  file_actions = given [];
  file_stop = raw_text (codes " Off ");
}

-- The actions of the second scene are malformed.
abbrev file : RawFile
file = record {
  file_schema = old_number (pos 1);
  file_scenes = some (
      some (record (entry (codes "start")) { file_actions = sent })
      ∷ none
      ∷ some (record (entry (codes "end")) {
        file_actions = wrong_shape (err type_error);
        file_stop = raw_other;
      })
      ∷ []);
  file_next = some (pos 2);
}

abbrev loaded : Store
loaded = record {
  scenes =
      record {
        scene_id = 3;
        key = codes "start";
        label = codes "Start";
        created = 40;
        updated = 40;
        actions = kept;
        stop_on_error = false;
      }
      ∷ record {
        scene_id = 4;
        key = codes "end";
        label = codes "Start";
        created = 40;
        updated = 40;
        actions = nil;
        stop_on_error = true;
      }
      ∷ [];
  next_id = 5;
}

loaded_test : load 90 (some file) ≡ ok loaded
unfolding load traverse
loaded_test = refl

load-IsSound_example : IsSound loaded
load-IsSound_example = load-IsSound 90 (some file) loaded loaded_test

load-written_file_example : load 95 (some (written_file loaded)) ≡ ok loaded
load-written_file_example =
    load-written_file 95 loaded (load-IsSound 90 (some file) loaded loaded_test)

abbrev each_offset : OffsetSpec
each_offset = record (blank (codes "explicit")) { values = (1, pos 0) ∷ (2, pos 80) ∷ [] }

abbrev request : NewScene
request = record {
  new_label = codes "Wave";
  new_key = none;
  validated =
      ok (cons (offset_group (some (groups (1 ∷ 2 ∷ []))) (some each_offset) nil) (cons sync nil));
  new_stop = none;
}

abbrev made : StoredScene
made = record {
  scene_id = 0;
  key = codes "wave";
  label = codes "Wave";
  created = 50;
  updated = 50;
  actions = cons (offset_group (some broadcast) (some each_offset) nil) (cons sync nil);
  stop_on_error = true;
}

abbrev one_scene : Store
one_scene = record { scenes = made ∷ []; next_id = 1 }

made_test : create (1 ∷ 2 ∷ []) 50 request empty_store ≡ ok (made, one_scene)
unfolding create collapse_actions
made_test = refl

all_groups : covers (1 ∷ 2 ∷ []) (1 ∷ 2 ∷ []) ≡ true
unfolding covers
all_groups = refl

explicit_mode : block_mode (some (codes "explicit")) ≡ explicit
unfolding mode_of
explicit_mode = refl

create-dropped_example :
    load 60 (some (written_file one_scene))
    ≡ ok (record one_scene { scenes = record made { actions = nil } ∷ [] })
create-dropped_example =
    create-dropped (1 ∷ 2 ∷ []) (1 ∷ 2 ∷ []) 50 60 request each_offset nil (cons sync nil) made
      one_scene refl all_groups explicit_mode made_test
