-- ===== src/Services/Scenes.antt =====
-- racelink/services/scenes_service.py: the canonical form of an offset group's target and offset
-- block, and the rewriting of group ids when a group is deleted.
pub mod Canonical
pub mod Accepted
pub mod Containers
pub mod Dispatch
pub mod Load
pub mod Raw
pub mod Renumber
pub mod Slug
pub mod Store
pub mod Targets
pub mod Validate
use gatecontrol_lora.Prelude.{
  ℕ, List, Option, Result, Text, [], codes, contains, err, if◌then◌else◌, leb, length, ltb_ℤ,
  negsuc, none, ok, or_else, pos, pos_part, some, traverse, value_error, ℤ, ◌==◌, ◌>>=◌, ◌||◌, ◌∷◌,
}
use gatecontrol_lora.Protocol.Offset.{
  Mode, explicit, linear, mode_of, modulo, none_mode, unknown, vshape,
}
use gatecontrol_lora.Domain.OffsetFormula.{OffsetSpec}

-- A value of a persisted block: one that `int` accepts, or another (None included).
pub data RawValue : Type 0 where
  number : ℤ → RawValue
  no_number : RawValue

-- `_validate_int`
unfoldable pub validate_int : RawValue → ℤ → ℤ → Result ℤ
validate_int no_number lo hi = err value_error
validate_int (number v) lo hi = if ltb_ℤ v lo || ltb_ℤ hi v then err value_error else ok v

abbrev pub group_id_max : ℤ
group_id_max = pos 254

-- A group id of `_canonical_target`, between 0 and 254.
unfoldable pub canonical_id : RawValue → Result ℕ
unfolding validate_int
canonical_id raw = do v ← validate_int raw (pos 0) group_id_max; ok (pos_part v)

-- The loop over the ids of a groups target; `seen` are the ids before.
unfoldable pub collect_ids : List ℕ → List RawValue → Result (List ℕ)
unfolding canonical_id
collect_ids seen [] = ok []
collect_ids seen (raw ∷ rest) = do
  v ← canonical_id raw
  fresh ← (if contains seen v then err value_error else ok v)
  ids ← collect_ids (v ∷ seen) rest
  ok (fresh ∷ ids)

unfoldable pub insert_id : ℕ → List ℕ → List ℕ
insert_id a [] = a ∷ []
insert_id a (b ∷ bs) = if leb a b then a ∷ b ∷ bs else b ∷ insert_id a bs

unfoldable pub sort_ids : List ℕ → List ℕ
unfolding insert_id
sort_ids [] = []
sort_ids (a ∷ rest) = insert_id a (sort_ids rest)

-- The branch of `_canonical_target` for groups: a non-empty list without duplicates, sorted.
unfoldable pub canonical_groups : List RawValue → Result (List ℕ)
unfolding collect_ids sort_ids
canonical_groups [] = err value_error
canonical_groups (raw ∷ rest) = do ids ← collect_ids [] (raw ∷ rest); ok (sort_ids ids)

pub record RawEntry : Type 0 where
  pub entry_id : RawValue
  pub entry_ms : RawValue

-- The block before validation. `raw_values` is absent where it is no list.
pub record RawOffset : Type 0 where
  pub raw_mode : Option Text
  pub raw_base : Option RawValue
  pub raw_step : Option RawValue
  pub raw_center : Option RawValue
  pub raw_cycle : Option RawValue
  pub raw_values : Option (List RawEntry)

abbrev pub blank : Text → OffsetSpec
blank name = record {
  mode = some name;
  offset_ms = none;
  base_ms = none;
  step_ms = none;
  center = none;
  cycle = none;
  values = [];
}

-- One entry of an explicit block: its id is a group of the target.
unfoldable pub canonical_entry : List ℕ → RawEntry → Result (ℕ × ℤ)
unfolding canonical_id
canonical_entry ids entry = do
  gid ← canonical_id entry.entry_id
  known ← (if contains ids gid then ok gid else err value_error)
  ms ← validate_int entry.entry_ms (pos 0) (pos 65535)
  ok (known, ms)

unfoldable pub insert_entry : ℕ × ℤ → List (ℕ × ℤ) → List (ℕ × ℤ)
insert_entry e [] = e ∷ []
insert_entry e (f ∷ fs) = if leb e.0 f.0 then e ∷ f ∷ fs else f ∷ insert_entry e fs

unfoldable pub sort_entries : List (ℕ × ℤ) → List (ℕ × ℤ)
unfolding insert_entry
sort_entries [] = []
sort_entries (e ∷ rest) = insert_entry e (sort_entries rest)

-- The branch for the mode "explicit": a list as long as the list of groups.
unfoldable pub canonical_explicit : Option (List ℕ) → Option (List RawEntry) → Result OffsetSpec
unfolding canonical_entry sort_entries
canonical_explicit none entries = err value_error
canonical_explicit (some ids) none = err value_error
canonical_explicit (some ids) (some entries) =
    if length entries == length ids
    then (do
      values ← traverse (canonical_entry ids) entries
      ok (record (blank (codes "explicit")) { values = sort_entries values }))
    else err value_error

abbrev pub validate_i16 : Option RawValue → Result ℤ
validate_i16 raw = validate_int (or_else raw (number (pos 0))) (negsuc 32767) (pos 32767)

-- `_canonical_offset_block` for a mode; `ids` is absent for a broadcast target.
unfoldable pub canonical_block : Mode → Option (List ℕ) → RawOffset → Result OffsetSpec
unfolding canonical_explicit validate_int
canonical_block none_mode ids raw = ok (blank (codes "none"))
canonical_block explicit ids raw = canonical_explicit ids raw.raw_values
canonical_block linear ids raw = do
  base ← validate_i16 raw.raw_base
  step ← validate_i16 raw.raw_step
  ok (record (blank (codes "linear")) { base_ms = some base; step_ms = some step })
canonical_block vshape ids raw = do
  base ← validate_i16 raw.raw_base
  step ← validate_i16 raw.raw_step
  center ← validate_int (or_else raw.raw_center (number (pos 0))) (pos 0) group_id_max
  ok (record (blank (codes "vshape")) {
    base_ms = some base;
    step_ms = some step;
    center = some center;
  })
canonical_block modulo ids raw = do
  base ← validate_i16 raw.raw_base
  step ← validate_i16 raw.raw_step
  cycle ← validate_int (or_else raw.raw_cycle (number (pos 1))) (pos 1) (pos 255)
  ok (record (blank (codes "modulo")) {
    base_ms = some base;
    step_ms = some step;
    cycle = some cycle;
  })
canonical_block unknown ids raw = err value_error

abbrev pub block_mode : Option Text → Mode
block_mode none = unknown
block_mode (some name) = mode_of name

unfoldable pub canonical_offset_block : Option (List ℕ) → RawOffset → Result OffsetSpec
unfolding canonical_block mode_of
canonical_offset_block ids raw = canonical_block (block_mode raw.raw_mode) ids raw
