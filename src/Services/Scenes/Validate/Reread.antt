-- ===== src/Services/Scenes/Validate/Reread.antt =====
-- racelink/services/scenes_service.py accepts a block that it has accepted again, as it is.
use gatecontrol_lora.Protocol.Offset.{
  Mode, none_mode, explicit, linear, vshape, modulo, unknown, mode_of,
}
use gatecontrol_lora.Protocol.Struct.{IsI16}
use gatecontrol_lora.Domain.OffsetFormula.{OffsetSpec, spec_mode}
use gatecontrol_lora.Services.Scenes.{
  RawEntry, RawOffset, canonical_offset_block, canonical_block, canonical_entry, canonical_explicit,
  sort_entries, number, validate_int, validate_i16, group_id_max, block_mode,
}
use gatecontrol_lora.Services.Scenes.Canonical.{validate_int_in, validate_i16_in}
use gatecontrol_lora.Services.Scenes.Validate.Blocks.{
  written_offset, All-sort_entries, IsEntry, canonical_entry-IsEntry, sort_entries-IsSorted,
  sort_entries_same, validate_int_ok, written_entries_ok, written_entry,
}
use gatecontrol_lora.Services.Scenes.Containers.{offset_of}
use gatecontrol_lora.Prelude.{
  traverse-All, ℕ, ℤ, Bool-cases, List, arith, inl, inr, ok, true, ◌≡◌, bind_value, err,
  value_error, length, ok-injective, subst, Option, none, some, refl, traverse, pos, negsuc, map,
  ◌==◌, Option-cases, or_else, length-map, Result, ◌>>=◌,
}

-- The block passes as it is written.
abbrev pub IsKept : Option (List ℕ) → OffsetSpec → Type 0
IsKept ids spec = canonical_offset_block ids (written_offset spec) ≡ ok spec

i16_ok : (v : ℤ) → IsI16 v → validate_i16 (some (number v)) ≡ ok v
i16_ok v (low, high) = validate_int_ok (negsuc 32767) (pos 32767) v low high

explicit-IsKept :
    (ids : List ℕ) (entries : List RawEntry) (spec : OffsetSpec)
    → canonical_explicit (some ids) (some entries) ≡ ok spec
    → IsKept (some ids) spec
unfolding canonical_explicit canonical_offset_block canonical_block written_offset spec_mode mode_of
explicit-IsKept ids entries spec h = elim (Bool-cases (length entries == length ids)) [
  | inr e ↦ let bad : err value_error ≡ ok spec = rw e at h in cc
  | inl e ↦
      let (values, f, r) = bind_value _ (traverse (canonical_entry ids) entries) (rw e at h) in
      let (each, n) =
        traverse-All (canonical_entry ids) (IsEntry ids) (canonical_entry-IsEntry ids) entries
          values f in
      let (kept, m) = All-sort_entries (IsEntry ids) values each in
      let long : (length (map written_entry (sort_entries values)) == length ids) ≡ true =
        ground (arith, e, n, m, length-map written_entry (sort_entries values)) in
      subst (IsKept (some ids)) (ok-injective r) (
        rw long (
          rw (written_entries_ok ids (sort_entries values) kept)
            (rw (sort_entries_same (sort_entries values) (sort_entries-IsSorted values)) refl)))
]

formula_parts :
    (raw : RawOffset) {A : Type 0} (rest : ℤ → ℤ → Result A) (a : A)
    → (do base ← validate_i16 raw.raw_base; step ← validate_i16 raw.raw_step; rest base step) ≡ ok a
    → (base step : ℤ) × IsI16 base × IsI16 step × (rest base step ≡ ok a)
formula_parts raw rest a h =
    let (base, e, r) = bind_value _ (validate_i16 raw.raw_base) h in
    let (step, f, r2) = bind_value _ (validate_i16 raw.raw_step) r in
    (base, step, validate_i16_in raw.raw_base base e, validate_i16_in raw.raw_step step f, r2)

canonical_block-IsKept :
    (m : Mode) (ids : Option (List ℕ)) (raw : RawOffset) (spec : OffsetSpec)
    → canonical_block m ids raw ≡ ok spec
    → IsKept ids spec
unfolding canonical_block canonical_explicit canonical_offset_block written_offset spec_mode mode_of
canonical_block-IsKept none_mode ids raw spec h = subst (IsKept ids) (ok-injective h) refl
canonical_block-IsKept unknown ids raw spec h = cc
canonical_block-IsKept explicit none raw spec h = cc
canonical_block-IsKept explicit (some ids) raw spec h = elim (Option-cases raw.raw_values) [
  | inl e ↦ let bad : err value_error ≡ ok spec = rw e at h in cc
  | inr (entries, e) ↦ explicit-IsKept ids entries spec (rw e at h)
]
canonical_block-IsKept linear ids raw spec h =
    let (base, step, b, s, r) = formula_parts raw _ spec h in
    subst (IsKept ids) (ok-injective r) (rw (i16_ok base b, i16_ok step s) refl)
canonical_block-IsKept vshape ids raw spec h =
    let (base, step, b, s, r) = formula_parts raw _ spec h in
    let given = or_else raw.raw_center (number (pos 0)) in
    let (center, c, r2) = bind_value _ (validate_int given (pos 0) group_id_max) r in
    let (low, high) = validate_int_in given (pos 0) group_id_max center c in
    subst (IsKept ids) (ok-injective r2)
      (rw (i16_ok base b, i16_ok step s, validate_int_ok (pos 0) group_id_max center low high) refl)
canonical_block-IsKept modulo ids raw spec h =
    let (base, step, b, s, r) = formula_parts raw _ spec h in
    let given = or_else raw.raw_cycle (number (pos 1)) in
    let (cycle, c, r2) = bind_value _ (validate_int given (pos 1) (pos 255)) r in
    let (low, high) = validate_int_in given (pos 1) (pos 255) cycle c in
    subst (IsKept ids) (ok-injective r2)
      (rw (i16_ok base b, i16_ok step s, validate_int_ok (pos 1) (pos 255) cycle low high) refl)

pub offset_of-IsKept :
    (ids : Option (List ℕ)) (raw : Option RawOffset) (spec : OffsetSpec)
    → offset_of ids raw ≡ ok spec
    → IsKept ids spec
unfolding canonical_offset_block
offset_of-IsKept ids none spec h = cc
offset_of-IsKept ids (some raw) spec h =
    canonical_block-IsKept (block_mode raw.raw_mode) ids raw spec h
