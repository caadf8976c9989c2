-- ===== src/Examples/Presets.antt =====
-- racelink/services/rl_presets_service.py on small inputs.
use gatecontrol_lora.Services.Scenes.Slug.{unique_key, sub_words, free_key}
use gatecontrol_lora.Prelude.{ℕ, List, [], codes, map, none, pos, refl, some, ◌∷◌, ◌≡◌}
use gatecontrol_lora.Domain.Flags.{flags_from_mapping}
use gatecontrol_lora.Services.EffectPlan.{no_flags}
use gatecontrol_lora.Services.Presets.{
  PresetStore, RawParams, PresetCall, call_create, call_update, call_delete, call_duplicate,
  call_replace_all, NewPreset, ImportEntry, add_preset, build_entries, build_entry, canonical_color,
  canonical_params, changed_preset, create, delete, duplicate, entry_key_in, get, preset_run,
  preset_slug, preset_step, replace_all, replace_preset, update,
}
use gatecontrol_lora.Services.Presets.WellFormed.{IsWellFormed, preset_run-IsWellFormed}

abbrev plain : RawParams
plain = record {
  raw_brightness = some (pos 300);
  raw_mode = none;
  raw_speed = none;
  raw_intensity = none;
  raw_custom1 = none;
  raw_custom2 = none;
  raw_custom3 = none;
  raw_check1 = none;
  raw_check2 = none;
  raw_check3 = none;
  raw_palette = none;
  raw_color1 = none;
  raw_color2 = none;
  raw_color3 = none;
}

-- A colour with two components is refused.
abbrev two_components : RawParams
two_components = record plain { raw_color1 = some (pos 1 ∷ pos 2 ∷ []) }

abbrev request : RawParams → NewPreset
request params = record {
  new_label = codes " Red Run ";
  new_key = none;
  new_params = params;
  new_flags = no_flags;
}

abbrev entry : ImportEntry
entry = record {
  entry_key = [];
  entry_label = codes "Blue";
  entry_created = none;
  entry_updated = none;
  entry_params = plain;
  entry_flags = no_flags;
}

abbrev no_presets : PresetStore
no_presets = record { presets = []; next_id = 0 }

abbrev calls : List (ℕ × PresetCall)
calls =
    (1, call_create (request plain))
    ∷ (2, call_create (request two_components))
    ∷ (3, call_create (request plain))
    ∷ (
      4,
      call_update (codes "red_run")
          (record { set_label = some (codes "Walk"); set_params = none; set_flags = none }),
    )
    ∷ (5, call_duplicate (codes "red_run_2") none)
    ∷ (6, call_delete (codes "red_run"))
    ∷ (7, call_replace_all (entry ∷ entry ∷ []))
    ∷ []

preset_run-IsWellFormed_example : IsWellFormed (preset_run calls no_presets)
preset_run-IsWellFormed_example = preset_run-IsWellFormed calls no_presets (tt, tt, tt)

-- The ids of the replaced presets go on from those that were taken, also by the refused request.
replaced_ids : map (λ p. p.preset_id) (preset_run calls no_presets).presets ≡ 4 ∷ 5 ∷ []
unfolding preset_run preset_step create update delete duplicate replace_all build_entries
    build_entry entry_key_in add_preset canonical_params canonical_color preset_slug get
    changed_preset replace_preset unique_key sub_words free_key flags_from_mapping
replaced_ids = refl
