-- ===== src/Prelude/Int.antt =====
-- Python's integers: sums, products, order and clamping over a sign and a native number.
use Prim.Native.Nat.{ℕ, suc, ◌+◌, ◌-◌, ◌*◌, ◌%◌, ◌≤◌, ◌<◌}
use mathlib.Core.Path.{◌≡◌}
use mathlib.Core.Bool.{Bool}
use native.Mathlib.Omega.{arith}
use gatecontrol_lora.Prelude.Tests.{ltb, leb, if◌then◌else◌}

-- `negsuc n` is -(n + 1).
pub data ℤ : Type 0 where
  pos : ℕ → ℤ
  negsuc : ℕ → ℤ

abbrev pub pos_part : ℤ → ℕ
pos_part (pos n) = n
pos_part (negsuc n) = 0

abbrev pub neg_part : ℤ → ℕ
neg_part (pos n) = 0
neg_part (negsuc n) = suc n

-- a - b of two natural numbers, as an integer.
abbrev pub sub_ℕ : ℕ → ℕ → ℤ
sub_ℕ a b = if leb b a then pos (a - b) else negsuc (b - a - 1)

infixl 65 ◌+ℤ◌
infixl 70 ◌*ℤ◌
infix 50 ◌≤ℤ◌
unfoldable pub ◌+ℤ◌ : ℤ → ℤ → ℤ
a +ℤ b = sub_ℕ (pos_part a + pos_part b) (neg_part a + neg_part b)

unfoldable pub ◌*ℤ◌ : ℤ → ℤ → ℤ
a *ℤ b =
    sub_ℕ (pos_part a * pos_part b + neg_part a * neg_part b)
      (pos_part a * neg_part b + neg_part a * pos_part b)

abbrev pub ◌≤ℤ◌ : ℤ → ℤ → Type 0
a ≤ℤ b = pos_part a + neg_part b ≤ pos_part b + neg_part a

abbrev pub ltb_ℤ : ℤ → ℤ → Bool
ltb_ℤ a b = ltb (pos_part a + neg_part b) (pos_part b + neg_part a)

-- `max(lo, min(hi, v))`
abbrev pub clamp : ℤ → ℤ → ℤ → ℤ
clamp lo hi v = let low = if ltb_ℤ v hi then v else hi in if ltb_ℤ lo low then low else lo

-- `v & (m - 1)` for `m` a power of two, on a signed integer of any size.
abbrev pub wrap : ℕ → ℤ → ℕ
wrap m (pos n) = n % m
wrap m (negsuc n) = m - 1 - n % m

-- `v & 0xFF`
abbrev pub byte : ℤ → ℕ
byte = wrap 256

pub byte-lt : (v : ℤ) → byte v < 256
byte-lt (pos n) = omega arith
byte-lt (negsuc n) = omega arith

pub clamp_in : (lo hi v : ℤ) → lo ≤ℤ v → v ≤ℤ hi → clamp lo hi v ≡ v
clamp_in (pos a) (pos b) (pos c) h k = ground arith
clamp_in (pos a) (pos b) (negsuc c) h k = ground arith
clamp_in (pos a) (negsuc b) (pos c) h k = ground arith
clamp_in (pos a) (negsuc b) (negsuc c) h k = ground arith
clamp_in (negsuc a) (pos b) (pos c) h k = ground arith
clamp_in (negsuc a) (pos b) (negsuc c) h k = ground arith
clamp_in (negsuc a) (negsuc b) (pos c) h k = ground arith
clamp_in (negsuc a) (negsuc b) (negsuc c) h k = ground arith

pub clamp_low : (lo hi v : ℤ) → lo ≤ℤ clamp lo hi v
clamp_low lo hi v = ground arith

pub clamp_high : (lo hi v : ℤ) → lo ≤ℤ hi → clamp lo hi v ≤ℤ hi
clamp_high lo hi v h = ground arith
