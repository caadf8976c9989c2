-- ===== src/Domain/OffsetFormula.antt =====
-- racelink/domain/offset_formula.py: the host's evaluator of OPC_OFFSET formulas.
use gatecontrol_lora.Prelude.{
  ℕ, zero, suc, ◌-◌, ◌%◌, List, [], ◌∷◌, Option, none, some, or_else, Text, codes, ℤ, pos, negsuc,
  ◌+ℤ◌, ◌*ℤ◌, leb, clamp, byte, if◌then◌else◌, Result, ok, err, ◌>>=◌, traverse, value_error,
}
use gatecontrol_lora.Protocol.Offset.{
  Mode, explicit, linear, vshape, modulo, unknown, mode_of, lower, none_mode,
}

-- The persisted `offset` block: a mapping in which each key may be missing.
pub record OffsetSpec : Type 0 where
  pub mode : Option Text
  pub offset_ms : Option ℤ
  pub base_ms : Option ℤ
  pub step_ms : Option ℤ
  pub center : Option ℤ
  pub cycle : Option ℤ
  pub values : List (ℕ × ℤ)

-- `(spec.get("mode") or "none").lower()`; an empty text is false too.
abbrev pub text_or_none : Option Text → Text
text_or_none none = codes "none"
text_or_none (some []) = codes "none"
text_or_none (some (c ∷ cs)) = c ∷ cs

unfoldable pub spec_mode : OffsetSpec → Mode
spec_mode spec = mode_of (lower (text_or_none spec.mode))

abbrev pub clamp_ms : ℤ → ℤ
clamp_ms = clamp (pos 0) (pos 65535)

-- `abs(gid - center)` of two bytes.
abbrev pub distance : ℕ → ℕ → ℕ
distance a b = if leb b a then a - b else b - a

-- `raw_cycle if raw_cycle > 0 else 1`
abbrev pub positive_cycle : ℤ → ℕ
positive_cycle (pos zero) = 1
positive_cycle (pos (suc n)) = suc n
positive_cycle (negsuc n) = 1

-- The value of each formula before the clamp.
abbrev pub linear_ms : OffsetSpec → ℕ → ℤ
linear_ms spec gid = or_else spec.base_ms (pos 0) +ℤ pos gid *ℤ or_else spec.step_ms (pos 0)

abbrev pub vshape_ms : OffsetSpec → ℕ → ℤ
vshape_ms spec gid =
    let center = byte (or_else spec.center (pos 0)) in
    or_else spec.base_ms (pos 0) +ℤ pos (distance gid center) *ℤ or_else spec.step_ms (pos 0)

abbrev pub modulo_ms : OffsetSpec → ℕ → ℤ
modulo_ms spec gid =
    let cycle = positive_cycle (or_else spec.cycle (pos 1)) in
    or_else spec.base_ms (pos 0) +ℤ pos (gid % cycle) *ℤ or_else spec.step_ms (pos 0)

-- The branch for each mode.
unfoldable pub evaluate_mode : Mode → OffsetSpec → ℕ → Result ℤ
evaluate_mode none_mode spec gid = ok (pos 0)
evaluate_mode explicit spec gid = ok (clamp_ms (or_else spec.offset_ms (pos 0)))
evaluate_mode linear spec gid = ok (clamp_ms (linear_ms spec gid))
evaluate_mode vshape spec gid = ok (clamp_ms (vshape_ms spec gid))
evaluate_mode modulo spec gid = ok (clamp_ms (modulo_ms spec gid))
evaluate_mode unknown spec gid = err value_error

unfoldable pub evaluate_offset_ms : OffsetSpec → ℤ → Result ℤ
unfolding evaluate_mode
evaluate_offset_ms spec group_id = evaluate_mode (spec_mode spec) spec (byte group_id)

unfoldable pub evaluate_for_groups : OffsetSpec → List ℤ → Result (List (ℕ × ℤ))
evaluate_for_groups spec group_ids =
    traverse (λ g. do ms ← evaluate_offset_ms spec g; ok (byte g, ms)) group_ids
