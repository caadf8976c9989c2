-- ===== src/Protocol/Control/Checks.antt =====
-- The byte of `custom3` and the checks that racelink/protocol/packets.py packs, as the receiver
-- reads it.
use gatecontrol_lora.Prelude.{
  ℕ, Bool, Bool-cases, Option, ℤ, arith, inl, inr, none, pos, negsuc, refl, some, suc, zero, true,
  wrap, false, both, both_sound, both2, both2_sound, or_else, subst, sym, ==_iff, ◌<◌, ◌&&◌, ◌==◌,
  ◌≡◌,
}
use gatecontrol_lora.Protocol.Control.{ControlFields, low5, packed_checks}
use gatecontrol_lora.Protocol.Control.Masks.{set_bit}
use gatecontrol_lora.Protocol.Control.Reader.{weighted_checks, low_bits}

low5_lem : (o : Option ℤ) → low5 o ≡ low_bits o
low5_lem none = refl
low5_lem (some v) = refl

wrap-lt : (v : ℤ) → wrap 32 v < 32
wrap-lt (pos n) = ground arith
wrap-lt (negsuc n) = ground arith

low_bits-lt : (o : Option ℤ) → low_bits o < 32
low_bits-lt none = omega arith
low_bits-lt (some v) = wrap-lt v

abbrev set_checks : ℕ → Bool → Bool → Bool → ℕ
set_checks n a b c = set_bit c 0x80 (set_bit b 0x40 (set_bit a 0x20 n))

abbrev checks_agree : ℕ → Bool
checks_agree n = both2 (λ a b. both (λ c. set_checks n a b c == weighted_checks n a b c))

-- All bytes of five bits below `n` agree.
all_below : ℕ → Bool
all_below zero = true
all_below (suc n) = checks_agree n && all_below n

all_below_sound : (n k : ℕ) → all_below n ≡ true → k < n → checks_agree k ≡ true
unfolding all_below
all_below_sound zero k h lt = absurd (omega arith)
all_below_sound (suc n) k h lt = elim (Bool-cases (k == n)) [
  | inl e ↦ subst (λ j. checks_agree j ≡ true) (sym ((==_iff k n).0 e)) (ground (arith, h))
  | inr e ↦ all_below_sound n k (ground (arith, h)) (ground (arith, e, lt))
]

checks_table : all_below 32 ≡ true
unfolding all_below
checks_table = refl

set_checks-weighted : (n : ℕ) (a b c : Bool) → n < 32 → set_checks n a b c ≡ weighted_checks n a b c
set_checks-weighted n a b c lt = (==_iff _ _).0 (
    both_sound (λ c. set_checks n a b c == weighted_checks n a b c) c
      (both2_sound (λ a b. both (λ c. set_checks n a b c == weighted_checks n a b c))
        (all_below_sound 32 n checks_table lt) a b))

pub packed_checks-weighted :
    (f : ControlFields)
    → packed_checks f
      ≡ weighted_checks
          (low_bits f.custom3)
          (or_else f.check1 false)
          (or_else f.check2 false)
          (or_else f.check3 false)
unfolding packed_checks
packed_checks-weighted f = rw (low5_lem f.custom3) (
    set_checks-weighted (low_bits f.custom3) (or_else f.check1 false) (or_else f.check2 false)
      (or_else f.check3 false) (low_bits-lt f.custom3))
