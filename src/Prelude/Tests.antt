-- ===== src/Prelude/Tests.antt =====
-- Boolean tests on the native numbers, the conditional, and case lemmas that keep the equation.
use Prim.Native.Nat.{ℕ, ◌≤◌, ◌<◌, compare, Ordering}
use mathlib.Core.Path.{◌≡◌, refl}
use mathlib.Core.Logic.{◌↔◌, ◌⊎◌, inl, inr}
use mathlib.Core.Bool.{Bool, true, false, ◌&&◌}
use mathlib.Core.Option.{Option, none, some}
use native.Mathlib.Omega.{arith}

abbrev pub ltb : ℕ → ℕ → Bool
ltb a b = elim (compare a b) [ Ordering.lt ↦ true | _ ↦ false ]

abbrev pub leb : ℕ → ℕ → Bool
leb a b = elim (compare a b) [ Ordering.gt ↦ false | _ ↦ true ]

infix 50 ◌==◌
abbrev pub ◌==◌ : ℕ → ℕ → Bool
a == b = elim (compare a b) [ Ordering.eq ↦ true | _ ↦ false ]

infix 1 if◌then◌else◌
abbrev pub if◌then◌else◌ {ℓ} : {A : Type ℓ} → Bool → A → A → A
if true then x else y = x
if false then x else y = y

pub ltb→lt : (a b : ℕ) → ltb a b ≡ true → a < b
ltb→lt a b h = ground arith

pub lt→ltb : (a b : ℕ) → a < b → ltb a b ≡ true
lt→ltb a b h = ground arith

pub leb→le : (a b : ℕ) → leb a b ≡ true → a ≤ b
leb→le a b h = ground arith

pub ==_iff : (a b : ℕ) → ((a == b) ≡ true) ↔ (a ≡ b)
==_iff a b = ground arith

pub ==-refl : (a : ℕ) → (a == a) ≡ true
==-refl a = ground arith

pub ruleset tests = (arith, ltb→lt, lt→ltb, leb→le)

pub Bool-cases : (b : Bool) → (b ≡ true) ⊎ (b ≡ false)
Bool-cases true = inl refl
Bool-cases false = inr refl

pub Option-cases {ℓ} : {A : Type ℓ} (o : Option A) → (o ≡ none) ⊎ ((a : A) × (o ≡ some a))
Option-cases none = inl refl
Option-cases (some a) = inr (a, refl)

-- The value of a bit.
abbrev pub bit : Bool → ℕ
bit true = 1
bit false = 0

abbrev pub is_some {ℓ} : {A : Type ℓ} → Option A → Bool
is_some none = false
is_some (some a) = true

abbrev pub or_else {ℓ} : {A : Type ℓ} → Option A → A → A
or_else none d = d
or_else (some a) d = a

-- A statement about a Boolean that holds at both values holds at every value.
abbrev pub both : (Bool → Bool) → Bool
both p = p true && p false

pub both_sound : (p : Bool → Bool) (b : Bool) → both p ≡ true → p b ≡ true
both_sound p true h = ground arith
both_sound p false h = ground arith

abbrev pub both2 : (Bool → Bool → Bool) → Bool
both2 p = both (λ a. both (p a))

abbrev pub both4 : (Bool → Bool → Bool → Bool → Bool) → Bool
both4 p = both2 (λ a b. both2 (p a b))

abbrev pub both6 : (Bool → Bool → Bool → Bool → Bool → Bool → Bool) → Bool
both6 p = both2 (λ a b. both4 (p a b))

abbrev pub both8 : (Bool → Bool → Bool → Bool → Bool → Bool → Bool → Bool → Bool) → Bool
both8 p = both4 (λ a b c d. both4 (p a b c d))

pub both2_sound : (p : Bool → Bool → Bool) → both2 p ≡ true → (a b : Bool) → p a b ≡ true
both2_sound p h a b = both_sound (p a) b (both_sound (λ x. both (p x)) a h)

pub both4_sound :
    (p : Bool → Bool → Bool → Bool → Bool) → both4 p ≡ true → (a b c d : Bool) → p a b c d ≡ true
both4_sound p h a b c d = both2_sound (p a b) (both2_sound (λ x y. both2 (p x y)) h a b) c d

pub both6_sound :
    (p : Bool → Bool → Bool → Bool → Bool → Bool → Bool)
    → both6 p ≡ true
    → (a b c d e f : Bool) → p a b c d e f ≡ true
both6_sound p h a b c d e f = both4_sound (p a b) (both2_sound (λ x y. both4 (p x y)) h a b) c d e f

pub both8_sound :
    (p : Bool → Bool → Bool → Bool → Bool → Bool → Bool → Bool → Bool)
    → both8 p ≡ true
    → (a b c d e f g h : Bool) → p a b c d e f g h ≡ true
both8_sound p all a b c d e f g h =
    both4_sound (p a b c d) (both4_sound (λ x y z w. both4 (p x y z w)) all a b c d) e f g h

-- Equality of truth values.
abbrev pub same : Bool → Bool → Bool
same true b = b
same false true = false
same false false = true

pub same→eq : (a b : Bool) → same a b ≡ true → a ≡ b
same→eq a b h = ground arith
