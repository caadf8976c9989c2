-- ===== src/Services/Scenes/Canonical.antt =====
-- What the validation of racelink/services/scenes_service.py guarantees of what it returns.
use gatecontrol_lora.Prelude.{
  ℕ, ok, ℤ, ◌≡◌, ◌≤ℤ◌, All, Bool-cases, List, [], arith, bind_value, contains, err, false,
  if◌then◌else◌, inl, inr, leb, ltb_ℤ, pos, sym, value_error, ◌<◌, ◌||◌, ◌∷◌, Bool, codes, negsuc,
  pos_part, refl, some, subst, suc, true, zero, Option, or_else, ok-injective,
}
use gatecontrol_lora.Protocol.Offset.{
  OffsetParams, linear, mode_linear, mode_modulo, mode_of, mode_vshape, modulo, vshape, Mode,
  explicit, none_mode, unknown,
}
use gatecontrol_lora.Protocol.Offset.RoundTrip.{InWireRange}
use gatecontrol_lora.Domain.OffsetFormula.{OffsetSpec, spec_mode}
use gatecontrol_lora.Services.Optimizer.{offset_payload_kwargs, is_formula, is_none}
use gatecontrol_lora.Protocol.Struct.{IsI16}
use gatecontrol_lora.Services.Scenes.{
  RawValue, no_number, number, validate_int, canonical_groups, canonical_id, collect_ids,
  group_id_max, insert_id, sort_ids, blank, RawOffset, canonical_block, validate_i16,
}

in_bounds : (lo hi w : ℤ) → (ltb_ℤ w lo || ltb_ℤ hi w) ≡ false → (lo ≤ℤ w) × (w ≤ℤ hi)
in_bounds lo hi w h = ground (arith, h)

pub validate_int_in :
    (raw : RawValue) (lo hi v : ℤ) → validate_int raw lo hi ≡ ok v → (lo ≤ℤ v) × (v ≤ℤ hi)
unfolding validate_int
validate_int_in no_number lo hi v h = cc
validate_int_in (number w) lo hi v h = elim (Bool-cases (ltb_ℤ w lo || ltb_ℤ hi w)) [
  | inl e ↦ let bad : err value_error ≡ ok v = rw e at h in cc
  | inr e ↦ let same : w ≡ v = ok-injective (rw e at h) in rw (sym same) (in_bounds lo hi w e)
]

group_bound : (v : ℤ) → pos 0 ≤ℤ v → v ≤ℤ group_id_max → pos_part v < 255
group_bound (pos n) h k = omega (arith, k)
group_bound (negsuc n) h k = omega arith

-- A guard that raises returns its value otherwise.
guarded : (b : Bool) (v w : ℕ) → (if b then err value_error else ok v) ≡ ok w → v ≡ w
guarded true v w h = cc
guarded false v w h = ok-injective h

pub canonical_id_lt : (raw : RawValue) (g : ℕ) → canonical_id raw ≡ ok g → g < 255
unfolding canonical_id
canonical_id_lt raw g h =
    let (v, e, r) = bind_value _ (validate_int raw (pos 0) group_id_max) h in
    let bounds = validate_int_in raw (pos 0) group_id_max v e in
    rw (sym (ok-injective r)) (group_bound v bounds.0 bounds.1)

pub All-insert_id : (P : ℕ → Type 0) (a : ℕ) (bs : List ℕ) → P a → All P bs → All P (insert_id a bs)
unfolding insert_id
All-insert_id P a [] p ps = (p, tt)
All-insert_id P a (b ∷ bs) p (q, qs) = elim (Bool-cases (leb a b)) [
  | inl e ↦ rw e (p, (q, qs))
  | inr e ↦ rw e (q, All-insert_id P a bs p qs)
]

All-sort_ids : (P : ℕ → Type 0) (xs : List ℕ) → All P xs → All P (sort_ids xs)
unfolding sort_ids
All-sort_ids P [] ps = ps
All-sort_ids P (a ∷ rest) (p, ps) = All-insert_id P a (sort_ids rest) p (All-sort_ids P rest ps)

collect_ids_lt :
    (seen : List ℕ) (raws : List RawValue) (ids : List ℕ)
    → collect_ids seen raws ≡ ok ids
    → All (λ g. g < 255) ids
unfolding collect_ids
collect_ids_lt seen [] ids h = rw (sym (ok-injective h)) tt
collect_ids_lt seen (raw ∷ rest) ids h =
    let (v, e, r) = bind_value _ (canonical_id raw) h in
    let (w, f, r2) = bind_value _ (if contains seen v then err value_error else ok v) r in
    let (others, g, r3) = bind_value _ (collect_ids (v ∷ seen) rest) r2 in
    rw (sym (ok-injective r3)) (
      subst (λ g. g < 255) (guarded (contains seen v) v w f) (canonical_id_lt raw v e),
      collect_ids_lt (v ∷ seen) rest others g,
    )

-- The ids of a validated groups target are below 255.
pub canonical_groups_lt :
    (raws : List RawValue) (ids : List ℕ) → canonical_groups raws ≡ ok ids → All (λ g. g < 255) ids
unfolding canonical_groups
canonical_groups_lt [] ids h = cc
canonical_groups_lt (raw ∷ rest) ids h =
    let (found, e, r) = bind_value _ (collect_ids [] (raw ∷ rest)) h in
    rw (sym (ok-injective r))
      (All-sort_ids (λ g. g < 255) found (collect_ids_lt [] (raw ∷ rest) found e))

-- The parameters of a validated formula, as the optimizer hands them to the wire.
abbrev pub Usable : OffsetSpec → Type 0
Usable spec =
    (kw : OffsetParams) × (offset_payload_kwargs (spec_mode spec) spec ≡ ok kw) × InWireRange kw

Usable-linear :
    (base step : ℤ)
    → IsI16 base
    → IsI16 step
    → Usable (record (blank (codes "linear")) { base_ms = some base; step_ms = some step })
unfolding spec_mode mode_of offset_payload_kwargs
Usable-linear base step b s = (mode_linear base step, refl, (b, s))

Usable-vshape :
    (base step center : ℤ)
    → IsI16 base
    → IsI16 step
    → pos 0 ≤ℤ center
    → center ≤ℤ pos 254
    → Usable (record (blank (codes "vshape")) {
      base_ms = some base;
      step_ms = some step;
      center = some center;
    })
unfolding spec_mode mode_of offset_payload_kwargs
Usable-vshape base step center b s l u = (mode_vshape base step center, refl, (b, s, l, u))

Usable-modulo :
    (base step cycle : ℤ)
    → IsI16 base
    → IsI16 step
    → pos 1 ≤ℤ cycle
    → cycle ≤ℤ pos 255
    → Usable (record (blank (codes "modulo")) {
      base_ms = some base;
      step_ms = some step;
      cycle = some cycle;
    })
unfolding spec_mode mode_of offset_payload_kwargs
Usable-modulo base step (pos zero) b s l u = absurd (omega (arith, l))
Usable-modulo base step (pos (suc n)) b s l u =
    (mode_modulo base step (pos (suc n)), refl, (b, s, l, u))
Usable-modulo base step (negsuc n) b s l u = absurd (omega (arith, l))

pub validate_i16_in : (raw : Option RawValue) (v : ℤ) → validate_i16 raw ≡ ok v → IsI16 v
validate_i16_in raw v h =
    validate_int_in (or_else raw (number (pos 0))) (negsuc 32767) (pos 32767) v h

-- A validated block of a formula has parameters that every field can carry.
pub canonical_block-Usable :
    (m : Mode) (ids : Option (List ℕ)) (raw : RawOffset) (spec : OffsetSpec)
    → is_formula m ≡ true
    → is_none m ≡ false
    → canonical_block m ids raw ≡ ok spec
    → Usable spec × (spec_mode spec ≡ m)
unfolding canonical_block spec_mode mode_of
canonical_block-Usable none_mode ids raw spec f n h = cc
canonical_block-Usable explicit ids raw spec f n h = cc
canonical_block-Usable unknown ids raw spec f n h = cc
canonical_block-Usable linear ids raw spec f n h =
    let (base, e, r) = bind_value _ (validate_i16 raw.raw_base) h in
    let (step, g, r2) = bind_value _ (validate_i16 raw.raw_step) r in
    subst (λ s. Usable s × (spec_mode s ≡ linear)) (ok-injective r2)
      (
        Usable-linear base step (validate_i16_in raw.raw_base base e)
            (validate_i16_in raw.raw_step step g),
        refl,
      )
canonical_block-Usable vshape ids raw spec f n h =
    let (base, e, r) = bind_value _ (validate_i16 raw.raw_base) h in
    let (step, g, r2) = bind_value _ (validate_i16 raw.raw_step) r in
    let (center, c, r3) =
      bind_value _ (validate_int (or_else raw.raw_center (number (pos 0))) (pos 0) group_id_max)
        r2 in
    let (l, u) =
      validate_int_in (or_else raw.raw_center (number (pos 0))) (pos 0) group_id_max center c in
    subst (λ s. Usable s × (spec_mode s ≡ vshape)) (ok-injective r3)
      (
        Usable-vshape base step center (validate_i16_in raw.raw_base base e)
            (validate_i16_in raw.raw_step step g) l u,
        refl,
      )
canonical_block-Usable modulo ids raw spec f n h =
    let (base, e, r) = bind_value _ (validate_i16 raw.raw_base) h in
    let (step, g, r2) = bind_value _ (validate_i16 raw.raw_step) r in
    let (cycle, c, r3) =
      bind_value _ (validate_int (or_else raw.raw_cycle (number (pos 1))) (pos 1) (pos 255)) r2 in
    let (l, u) =
      validate_int_in (or_else raw.raw_cycle (number (pos 1))) (pos 1) (pos 255) cycle c in
    subst (λ s. Usable s × (spec_mode s ≡ modulo)) (ok-injective r3)
      (
        Usable-modulo base step cycle (validate_i16_in raw.raw_base base e)
            (validate_i16_in raw.raw_step step g) l u,
        refl,
      )
