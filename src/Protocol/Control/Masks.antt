-- ===== src/Protocol/Control/Masks.antt =====
-- The presence masks of OPC_CONTROL: how the builder sets the bits, and how a bit is read.
use gatecontrol_lora.Prelude.{
  ℕ, ◌/◌, ◌%◌, ◌^◌, ◌≡◌, refl, bit_or, Bool, true, false, if◌then◌else◌, ◌==◌, both8, same,
  both4_sound, both8_sound, same→eq, ◌||◌,
}
use mathlib.Core.Bool.{not}

-- `mask & (1 << k)` as a truth value.
abbrev pub test_bit : ℕ → ℕ → Bool
test_bit k n = n / 2 ^ k % 2 == 1

-- `if present: mask |= flag`
abbrev pub set_bit : Bool → ℕ → ℕ → ℕ
set_bit b flag mask = if b then bit_or mask flag else mask

abbrev pub mask7 : Bool → Bool → Bool → Bool → Bool → Bool → Bool → ℕ
mask7 a b c d e f g = set_bit g 0x40 (
    set_bit f 0x20
      (set_bit e 0x10 (set_bit d 0x08 (set_bit c 0x04 (set_bit b 0x02 (set_bit a 0x01 0))))))

abbrev pub mask4 : Bool → Bool → Bool → Bool → ℕ
mask4 a b c d = set_bit d 0x08 (set_bit c 0x04 (set_bit b 0x02 (set_bit a 0x01 0)))

unfoldable pub mask8 : Bool → Bool → Bool → Bool → Bool → Bool → Bool → Bool → ℕ
mask8 a b c d e f g ext = set_bit ext 0x80 (mask7 a b c d e f g)

-- The eight bits of a mask, read one by one.
pub record Bits (n : ℕ) (a b c d e f g ext : Bool) : Type 0 where
  pub bit0 : test_bit 0 n ≡ a
  pub bit1 : test_bit 1 n ≡ b
  pub bit2 : test_bit 2 n ≡ c
  pub bit3 : test_bit 3 n ≡ d
  pub bit4 : test_bit 4 n ≡ e
  pub bit5 : test_bit 5 n ≡ f
  pub bit6 : test_bit 6 n ≡ g
  pub bit7 : test_bit 7 n ≡ ext

abbrev Pick : Type 0
Pick = (a b c d e f g ext : Bool) → Bool

-- Bit `k` of every mask is the presence that `pick` names.
abbrev reads : ℕ → Pick → Bool
reads k pick =
    both8 (λ a b c d e f g x. same (test_bit k (mask8 a b c d e f g x)) (pick a b c d e f g x))

mask8_bit :
    (k : ℕ) (pick : Pick)
    → reads k pick ≡ true
    → (a b c d e f g x : Bool) → test_bit k (mask8 a b c d e f g x) ≡ pick a b c d e f g x
mask8_bit k pick h a b c d e f g x = same→eq _ _ (
    both8_sound
      (λ a b c d e f g x. same (test_bit k (mask8 a b c d e f g x)) (pick a b c d e f g x)) h a b c
      d e f g x)

pub mask8-Bits : (a b c d e f g x : Bool) → Bits (mask8 a b c d e f g x) a b c d e f g x
unfolding mask8
mask8-Bits a b c d e f g x = record {
  bit0 = mask8_bit 0 (λ a b c d e f g x. a) refl a b c d e f g x;
  bit1 = mask8_bit 1 (λ a b c d e f g x. b) refl a b c d e f g x;
  bit2 = mask8_bit 2 (λ a b c d e f g x. c) refl a b c d e f g x;
  bit3 = mask8_bit 3 (λ a b c d e f g x. d) refl a b c d e f g x;
  bit4 = mask8_bit 4 (λ a b c d e f g x. e) refl a b c d e f g x;
  bit5 = mask8_bit 5 (λ a b c d e f g x. f) refl a b c d e f g x;
  bit6 = mask8_bit 6 (λ a b c d e f g x. g) refl a b c d e f g x;
  bit7 = mask8_bit 7 (λ a b c d e f g x. x) refl a b c d e f g x;
}

-- The mask of the extended block, as a mask whose upper bits are clear.
pub mask4-mask8 : (a b c d : Bool) → mask4 a b c d ≡ mask8 a b c d false false false false
unfolding mask8
mask4-mask8 a b c d = refl

abbrev zero_iff : Bool → Bool → Bool → Bool → Bool
zero_iff a b c d = same (mask4 a b c d == 0) (not (a || (b || (c || d))))

-- The extended block is empty exactly when none of its four fields is present.
pub mask4_zero : (a b c d : Bool) → (mask4 a b c d == 0) ≡ not (a || (b || (c || d)))
mask4_zero a b c d = same→eq _ _ (both4_sound zero_iff refl a b c d)
