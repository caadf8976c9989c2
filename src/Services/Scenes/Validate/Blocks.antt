-- ===== src/Services/Scenes/Validate/Blocks.antt =====
-- The offset blocks that racelink/services/scenes_service.py has accepted: it accepts them again, as
-- they are.
use gatecontrol_lora.Protocol.Offset.{Mode, explicit}
use gatecontrol_lora.Domain.OffsetFormula.{OffsetSpec, spec_mode}
use gatecontrol_lora.Services.Scenes.{
  RawEntry, RawOffset, canonical_entry, insert_entry, sort_entries, RawValue, number, validate_int,
  canonical_id,
}
use gatecontrol_lora.Services.Scenes.Canonical.{validate_int_in, canonical_id_lt}
use gatecontrol_lora.Services.Scenes.Accepted.{canonical_id_ok}
use gatecontrol_lora.Prelude.{
  ℕ, ℤ, All, Bool, Bool-cases, List, [], arith, contains, false, inl, inr, ok, true, ◌∷◌, ◌≡◌, ◌≤◌,
  bind_value, err, value_error, if◌then◌else◌, length, ok-injective, subst, Option, none, some,
  refl, suc, traverse, pos, map, leb, ◌<◌, ◌≤ℤ◌, same,
}

-- A block as it is written.
abbrev pub written_entry : ℕ × ℤ → RawEntry
written_entry e = record { entry_id = number (pos e.0); entry_ms = number e.1 }

abbrev pub written_number : Option ℤ → Option RawValue
written_number none = none
written_number (some v) = some (number v)

abbrev pub written_values : Mode → List (ℕ × ℤ) → Option (List RawEntry)
written_values explicit values = some (map written_entry values)
written_values _ values = none

unfoldable pub written_offset : OffsetSpec → RawOffset
unfolding spec_mode
written_offset spec = record {
  raw_mode = spec.mode;
  raw_base = written_number spec.base_ms;
  raw_step = written_number spec.step_ms;
  raw_center = written_number spec.center;
  raw_cycle = written_number spec.cycle;
  raw_values = written_values (spec_mode spec) spec.values;
}

pub validate_int_ok : (lo hi v : ℤ) → lo ≤ℤ v → v ≤ℤ hi → validate_int (number v) lo hi ≡ ok v
unfolding validate_int
validate_int_ok lo hi v h k = ground (arith, h, k)

-- An entry of an explicit block for these groups.
abbrev pub IsEntry : List ℕ → ℕ × ℤ → Type 0
IsEntry ids e = (e.0 < 255) × (contains ids e.0 ≡ true) × (pos 0 ≤ℤ e.1) × (e.1 ≤ℤ pos 65535)

pub canonical_entry-IsEntry :
    (ids : List ℕ) (raw : RawEntry) (e : ℕ × ℤ) → canonical_entry ids raw ≡ ok e → IsEntry ids e
unfolding canonical_entry
canonical_entry-IsEntry ids raw e h =
    let (gid, f, r) = bind_value _ (canonical_id raw.entry_id) h in
    let (known, g, r2) = bind_value _ (if contains ids gid then ok gid else err value_error) r in
    let (ms, k, r3) = bind_value _ (validate_int raw.entry_ms (pos 0) (pos 65535)) r2 in
    let (found, same) = guard (contains ids gid) gid known g in
    let (low, high) = validate_int_in raw.entry_ms (pos 0) (pos 65535) ms k in
    subst (IsEntry ids) (ok-injective r3) (
      subst (λ n. n < 255) same (canonical_id_lt raw.entry_id gid f),
      subst (λ n. contains ids n ≡ true) same found,
      low,
      high,
    )
  where
    guard :
        (b : Bool) (v w : ℕ) → (if b then ok v else err value_error) ≡ ok w → (b ≡ true) × (v ≡ w)
    guard false v w h = cc
    guard true v w h = (refl, ok-injective h)

written_entry_ok :
    (ids : List ℕ) (e : ℕ × ℤ) → IsEntry ids e → canonical_entry ids (written_entry e) ≡ ok e
unfolding canonical_entry
written_entry_ok ids e (small, found, low, high) =
    rw (canonical_id_ok e.0 small, found, validate_int_ok (pos 0) (pos 65535) e.1 low high) refl

pub written_entries_ok :
    (ids : List ℕ) (es : List (ℕ × ℤ))
    → All (IsEntry ids) es
    → traverse (canonical_entry ids) (map written_entry es) ≡ ok es
unfolding traverse
written_entries_ok ids [] h = refl
written_entries_ok ids (e ∷ es) (h, hs) =
    rw (written_entry_ok ids e h, written_entries_ok ids es hs) refl

-- In ascending order of the ids.
abbrev IsSorted : List (ℕ × ℤ) → Type 0
IsSorted [] = Unit {0}
IsSorted (e ∷ es) = All (λ f. e.0 ≤ f.0) es × IsSorted es

All-insert_entry :
    (P : ℕ × ℤ → Type 0) (e : ℕ × ℤ) (es : List (ℕ × ℤ))
    → P e
    → All P es
    → All P (insert_entry e es) × (length (insert_entry e es) ≡ suc (length es))
unfolding insert_entry
All-insert_entry P e [] h hs = ((h, tt), refl)
All-insert_entry P e (f ∷ fs) h (k, ks) = elim (Bool-cases (leb e.0 f.0)) [
  | inl c ↦ rw c ((h, (k, ks)), refl)
  | inr c ↦ let (ps, n) = All-insert_entry P e fs h ks in rw c ((k, ps), omega (arith, n))
]

pub All-sort_entries :
    (P : ℕ × ℤ → Type 0) (es : List (ℕ × ℤ))
    → All P es
    → All P (sort_entries es) × (length (sort_entries es) ≡ length es)
unfolding sort_entries
All-sort_entries P [] h = (tt, refl)
All-sort_entries P (e ∷ es) (h, hs) =
    let (ps, n) = All-sort_entries P es hs in
    let (qs, m) = All-insert_entry P e (sort_entries es) h ps in (qs, omega (arith, n, m))

from_first :
    (e f : ℕ × ℤ) (fs : List (ℕ × ℤ))
    → e.0 ≤ f.0
    → All (λ g. f.0 ≤ g.0) fs
    → All (λ g. e.0 ≤ g.0) fs
from_first e f [] h hs = tt
from_first e f (g ∷ gs) h (k, ks) = (omega (arith, h, k), from_first e f gs h ks)

insert_entry-IsSorted : (e : ℕ × ℤ) (es : List (ℕ × ℤ)) → IsSorted es → IsSorted (insert_entry e es)
unfolding insert_entry
insert_entry-IsSorted e [] h = (tt, tt)
insert_entry-IsSorted e (f ∷ fs) (h, hs) = elim (Bool-cases (leb e.0 f.0)) [
  | inl c ↦ let le : e.0 ≤ f.0 = ground (arith, c) in rw c ((le, from_first e f fs le h), (h, hs))
  | inr c ↦
      let le : f.0 ≤ e.0 = ground (arith, c) in
      rw c ((All-insert_entry (λ g. f.0 ≤ g.0) e fs le h).0, insert_entry-IsSorted e fs hs)
]

pub sort_entries-IsSorted : (es : List (ℕ × ℤ)) → IsSorted (sort_entries es)
unfolding sort_entries
sort_entries-IsSorted [] = tt
sort_entries-IsSorted (e ∷ es) =
    insert_entry-IsSorted e (sort_entries es) (sort_entries-IsSorted es)

pub sort_entries_same : (es : List (ℕ × ℤ)) → IsSorted es → sort_entries es ≡ es
unfolding sort_entries insert_entry
sort_entries_same [] h = refl
sort_entries_same (e ∷ []) h = refl
sort_entries_same (e ∷ f ∷ fs) ((le, more), hs) =
    let first : leb e.0 f.0 ≡ true = ground (arith, le) in
    rw (sort_entries_same (f ∷ fs) hs) (rw first refl)
