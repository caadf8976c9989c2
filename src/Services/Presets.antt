-- ===== src/Services/Presets.antt =====
-- racelink/services/rl_presets_service.py: the store of the RaceLink presets. As for the scenes, the
-- file is left out: a call begins with the list that the last one wrote, and the lock makes it one
-- step. A refused call may have taken an id, so a call returns the store in any case.
pub mod WellFormed
use gatecontrol_lora.Prelude.{
  ℕ, Bool, List, Option, Result, Text, [], byte, codes, eq_bytes, err, false, if◌then◌else◌, keep,
  length, map, none, not, ok, or_else, pos, some, suc, true, value_error, ℤ, ◌++◌, ◌==◌, ◌>>=◌, ◌∷◌,
}
use gatecontrol_lora.Protocol.Control.{ControlFields, Rgb}
use gatecontrol_lora.Protocol.Offset.{lower}
use gatecontrol_lora.Domain.Flags.{FlagMapping, UserFlags, flags_from_mapping}
use gatecontrol_lora.Services.EffectPlan.{masked}
use gatecontrol_lora.Services.Scenes.Slug.{
  has_text, is_space, or_text, strip, sub_words, unique_key,
}

-- The values of a `params` dict; a colour is a list of any length.
pub record RawParams : Type 0 where
  pub raw_brightness : Option ℤ
  pub raw_mode : Option ℤ
  pub raw_speed : Option ℤ
  pub raw_intensity : Option ℤ
  pub raw_custom1 : Option ℤ
  pub raw_custom2 : Option ℤ
  pub raw_custom3 : Option ℤ
  pub raw_check1 : Option Bool
  pub raw_check2 : Option Bool
  pub raw_check3 : Option Bool
  pub raw_palette : Option ℤ
  pub raw_color1 : Option (List ℤ)
  pub raw_color2 : Option (List ℤ)
  pub raw_color3 : Option (List ℤ)

-- `_canonical_color`
unfoldable pub canonical_color : Option (List ℤ) → Result (Option Rgb)
canonical_color none = ok none
canonical_color (some (r ∷ g ∷ b ∷ [])) =
    ok (some (record { red = pos (byte r); green = pos (byte g); blue = pos (byte b) }))
canonical_color (some other) = err value_error

-- `_canonical_params`; the colours are the only values that are refused.
unfoldable pub canonical_params : RawParams → Result ControlFields
unfolding canonical_color
canonical_params raw = do
  c1 ← canonical_color raw.raw_color1
  c2 ← canonical_color raw.raw_color2
  c3 ← canonical_color raw.raw_color3
  ok (record {
    brightness = masked raw.raw_brightness;
    mode = masked raw.raw_mode;
    speed = masked raw.raw_speed;
    intensity = masked raw.raw_intensity;
    custom1 = masked raw.raw_custom1;
    custom2 = masked raw.raw_custom2;
    custom3 = masked raw.raw_custom3;
    check1 = raw.raw_check1;
    check2 = raw.raw_check2;
    check3 = raw.raw_check3;
    palette = masked raw.raw_palette;
    color1 = c1;
    color2 = c2;
    color3 = c3;
  })

abbrev pub color_list : Option Rgb → Option (List ℤ)
color_list none = none
color_list (some c) = some (c.red ∷ c.green ∷ c.blue ∷ [])

-- Stored parameters, as they are handed to `create` again.
abbrev pub raw_of : ControlFields → RawParams
raw_of f = record {
  raw_brightness = f.brightness;
  raw_mode = f.mode;
  raw_speed = f.speed;
  raw_intensity = f.intensity;
  raw_custom1 = f.custom1;
  raw_custom2 = f.custom2;
  raw_custom3 = f.custom3;
  raw_check1 = f.check1;
  raw_check2 = f.check2;
  raw_check3 = f.check3;
  raw_palette = f.palette;
  raw_color1 = color_list f.color1;
  raw_color2 = color_list f.color2;
  raw_color3 = color_list f.color3;
}

pub record StoredPreset : Type 0 where
  pub preset_id : ℕ
  pub preset_key : Text
  pub preset_label : Text
  pub created : ℕ
  pub updated : ℕ
  pub params : ControlFields
  pub flags : UserFlags

pub record PresetStore : Type 0 where
  pub presets : List StoredPreset
  pub next_id : ℕ

abbrev pub preset_keys : List StoredPreset → List Text
preset_keys = map (λ p. p.preset_key)

-- `_slugify`
unfoldable pub preset_slug : Text → Text
unfolding sub_words
preset_slug text =
    or_text (strip (λ c. c == 95) (sub_words false (lower (strip is_space text)))) (codes "preset")

unfoldable pub get : Text → List StoredPreset → Option StoredPreset
get k [] = none
get k (p ∷ rest) = if eq_bytes p.preset_key k then some p else get k rest

unfoldable pub get_by_id : ℕ → List StoredPreset → Option StoredPreset
get_by_id n [] = none
get_by_id n (p ∷ rest) = if p.preset_id == n then some p else get_by_id n rest

-- What a request to create a preset carries.
pub record NewPreset : Type 0 where
  pub new_label : Text
  pub new_key : Option Text
  pub new_params : RawParams
  pub new_flags : FlagMapping

abbrev pub key_or_label : Option Text → Text → Text
key_or_label none label = label
key_or_label (some k) label = or_text k label

abbrev pub Outcome : Type 0 → Type 0
Outcome A = Result A × PresetStore

abbrev pub preset_with : ℕ → ℕ → Text → Text → ControlFields → UserFlags → StoredPreset
preset_with now ident key label params flags = record {
  preset_id = ident;
  preset_key = key;
  preset_label = label;
  created = now;
  updated = now;
  params = params;
  flags = flags;
}

-- The id is taken before the parameters are read.
unfoldable pub add_preset :
    ℕ → Text → Text → Result ControlFields → UserFlags → PresetStore → Outcome StoredPreset
add_preset now key label (err e) flags st = (err e, record st { next_id = suc st.next_id })
add_preset now key label (ok params) flags st =
    let p = preset_with now st.next_id key label params flags in
    (ok p, record { presets = st.presets ++ p ∷ []; next_id = suc st.next_id })

abbrev pub create_keyed : ℕ → Text → NewPreset → Result Text → PresetStore → Outcome StoredPreset
create_keyed now label req (err e) st = (err e, st)
create_keyed now label req (ok key) st =
    add_preset now key label (canonical_params req.new_params) (flags_from_mapping req.new_flags) st

unfoldable pub create : ℕ → NewPreset → PresetStore → Outcome StoredPreset
unfolding add_preset preset_slug unique_key canonical_params flags_from_mapping
create now req st =
    let label = strip is_space req.new_label in
    if length label == 0
    then (err value_error, st)
    else create_keyed now label req
        (unique_key (preset_slug (key_or_label req.new_key label)) (preset_keys st.presets)) st

-- What a request to change a preset carries.
pub record PresetChange : Type 0 where
  pub set_label : Option Text
  pub set_params : Option RawParams
  pub set_flags : Option FlagMapping

abbrev pub label_of : Option Text → Text → Result Text
label_of none old = ok old
label_of (some l) old =
    if length (strip is_space l) == 0 then err value_error else ok (strip is_space l)

abbrev pub params_of : Option RawParams → ControlFields → Result ControlFields
params_of none old = ok old
params_of (some raw) old = canonical_params raw

abbrev pub flags_or : Option FlagMapping → UserFlags → UserFlags
flags_or none old = old
flags_or (some m) old = flags_from_mapping m

unfoldable pub changed_preset : ℕ → PresetChange → StoredPreset → Result StoredPreset
unfolding canonical_params flags_from_mapping
changed_preset now change p = do
  label ← label_of change.set_label p.preset_label
  params ← params_of change.set_params p.params
  ok (record p {
    preset_label = label;
    params = params;
    flags = flags_or change.set_flags p.flags;
    updated = now;
  })

-- The first preset of the key is replaced.
unfoldable pub replace_preset : StoredPreset → Text → List StoredPreset → List StoredPreset
replace_preset new k [] = []
replace_preset new k (p ∷ rest) =
    let others = replace_preset new k rest in
    if eq_bytes p.preset_key k then new ∷ rest else p ∷ others

abbrev pub update_with : Text → PresetStore → Result StoredPreset → Outcome (Option StoredPreset)
update_with k st (err e) = (err e, st)
update_with k st (ok new) = (ok (some new), record st { presets = replace_preset new k st.presets })

abbrev pub update_found :
    ℕ → Text → PresetChange → PresetStore → Option StoredPreset → Outcome (Option StoredPreset)
update_found now k change st none = (ok none, st)
update_found now k change st (some p) = update_with k st (changed_preset now change p)

unfoldable pub update : ℕ → Text → PresetChange → PresetStore → Outcome (Option StoredPreset)
unfolding get changed_preset replace_preset
update now k change st = update_found now k change st (get k st.presets)

unfoldable pub delete : Text → PresetStore → Bool × PresetStore
delete k st =
    let left = keep (λ p. not (eq_bytes p.preset_key k)) st.presets in
    if length left == length st.presets then (false, st) else (true, record st { presets = left })

abbrev pub copy_label : Option Text → Text → Text
copy_label none label = label ++ codes " copy"
copy_label (some l) label = or_text l (label ++ codes " copy")

-- The stored flags as a mapping.
abbrev pub mapping_of : UserFlags → FlagMapping
mapping_of f = record {
  raw_arm_on_sync = some f.user_arm_on_sync;
  raw_force_tt0 = some f.user_force_tt0;
  raw_force_reapply = some f.user_force_reapply;
  raw_offset_mode = some f.user_offset_mode;
}

abbrev pub duplicate_found :
    ℕ → Option Text → PresetStore → Option StoredPreset → Option (Outcome StoredPreset)
duplicate_found now label st none = none
duplicate_found now label st (some source) = some (
    create now
      (record {
        new_label = strip is_space (copy_label label source.preset_label);
        new_key = none;
        new_params = raw_of source.params;
        new_flags = mapping_of source.flags;
      })
      st)

-- `duplicate`; `none` where the source is not there.
unfoldable pub duplicate : ℕ → Text → Option Text → PresetStore → Option (Outcome StoredPreset)
unfolding get create
duplicate now k label st = duplicate_found now label st (get k st.presets)

-- An entry of `replace_all`.
pub record ImportEntry : Type 0 where
  pub entry_key : Text
  pub entry_label : Text
  pub entry_created : Option ℕ
  pub entry_updated : Option ℕ
  pub entry_params : RawParams
  pub entry_flags : FlagMapping

abbrev pub entry_preset : ℕ → ImportEntry → ℕ → Text → ControlFields → StoredPreset
entry_preset now e ident key params = record {
  preset_id = ident;
  preset_key = key;
  preset_label = strip is_space (or_text e.entry_label key);
  created = or_else e.entry_created now;
  updated = or_else e.entry_updated now;
  params = params;
  flags = flags_from_mapping e.entry_flags;
}

-- What the loop has built: the new list, of which the keys are those seen, and the next id.
abbrev pub add_entry :
    ℕ → ImportEntry → Result Text → Result ControlFields → PresetStore → Outcome Unit
add_entry now e (err x) params st = (err x, st)
add_entry now e (ok key) (err x) st = (err x, record st { next_id = suc st.next_id })
add_entry now e (ok key) (ok params) st = (
  ok tt,
  record {
    presets = st.presets ++ entry_preset now e st.next_id key params ∷ [];
    next_id = suc st.next_id;
  },
)

-- `if key in seen_keys: key = self._unique_key(key, seen_keys)`
unfoldable pub entry_key_in : ImportEntry → List Text → Result Text
unfolding preset_slug unique_key
entry_key_in e seen =
    let key = preset_slug (or_text e.entry_key e.entry_label) in
    if has_text seen key then unique_key key seen else ok key

unfoldable pub build_entry : ℕ → ImportEntry → PresetStore → Outcome Unit
unfolding entry_key_in canonical_params flags_from_mapping
build_entry now e st =
    add_entry now e (entry_key_in e (preset_keys st.presets)) (canonical_params e.entry_params) st

abbrev pub go_on : (PresetStore → Outcome Unit) → Outcome Unit → Outcome Unit
go_on rest (err e, st) = (err e, st)
go_on rest (ok u, st) = rest st

unfoldable pub build_entries : ℕ → List ImportEntry → PresetStore → Outcome Unit
unfolding build_entry
build_entries now [] st = (ok tt, st)
build_entries now (e ∷ es) st = go_on (build_entries now es) (build_entry now e st)

-- The ids that are taken stay taken; the list is replaced where no entry is refused.
abbrev pub replaced : PresetStore → Outcome Unit → PresetStore
replaced st (err e, built) = record st { next_id = built.next_id }
replaced st (ok u, built) = built

unfoldable pub replace_all : ℕ → List ImportEntry → PresetStore → PresetStore
unfolding build_entries
replace_all now entries st = replaced st (build_entries now entries (record st { presets = [] }))

pub data PresetCall : Type 0 where
  call_create : NewPreset → PresetCall
  call_update : Text → PresetChange → PresetCall
  call_delete : Text → PresetCall
  call_duplicate : Text → Option Text → PresetCall
  call_replace_all : List ImportEntry → PresetCall

abbrev pub after_duplicate : PresetStore → Option (Outcome StoredPreset) → PresetStore
after_duplicate st none = st
after_duplicate st (some r) = r.1

unfoldable pub preset_step : ℕ → PresetCall → PresetStore → PresetStore
unfolding create update delete duplicate replace_all
preset_step now (call_create req) st = (create now req st).1
preset_step now (call_update k change) st = (update now k change st).1
preset_step now (call_delete k) st = (delete k st).1
preset_step now (call_duplicate k label) st = after_duplicate st (duplicate now k label st)
preset_step now (call_replace_all entries) st = replace_all now entries st

-- Calls with their times.
unfoldable pub preset_run : List (ℕ × PresetCall) → PresetStore → PresetStore
unfolding preset_step
preset_run [] st = st
preset_run ((now, call) ∷ rest) st = preset_run rest (preset_step now call st)
