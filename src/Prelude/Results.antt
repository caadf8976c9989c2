-- ===== src/Prelude/Results.antt =====
-- What a Python call does: it returns a value or raises. Only the exceptions that occur are named.
use mathlib.Core.Path.{◌≡◌, refl, ap}
use Prim.Native.Nat.{suc}
use native.Mathlib.Omega.{arith}
use mathlib.Core.List.{List, [], ◌∷◌}
use mathlib.Core.Path.{subst}
use gatecontrol_lora.Prelude.Lists.{All, length}

pub data Error : Type 0 where
  value_error type_error struct_error index_error assertion_error runtime_error : Error

pub data Result {ℓ} (A : Type ℓ) : Type ℓ where
  ok : A → Result A
  err : Error → Result A

module _ {ℓ κ} {A : Type ℓ} {B : Type κ} where
  infixl 5 ◌>>=◌
  -- A raised exception skips the rest of the statements.
  abbrev pub ◌>>=◌ : Result A → (A → Result B) → Result B
  ◌>>=◌ r rest = elim r [ ok value ↦ rest value | err e ↦ err e ]

  -- Where a sequence returns, its first statement did, and so did the rest on its value.
  pub bind_value :
      (rest : A → Result B) (r : Result A) {last : B}
      → (r >>= rest) ≡ ok last
      → (value : A) × (r ≡ ok value) × (rest value ≡ ok last)
  bind_value rest (err e) returned = cc
  bind_value rest (ok value) returned = (value, refl, returned)

module _ {ℓ κ} {A : Type ℓ} {B : Type κ} where
  -- A list comprehension whose element expression may raise.
  unfoldable pub traverse : (A → Result B) → List A → Result (List B)
  traverse f [] = ok []
  traverse f (x ∷ xs) = do y ← f x; ys ← traverse f xs; ok (y ∷ ys)

pub ok-injective {ℓ} : {A : Type ℓ} {a b : A} → ok a ≡ ok b → a ≡ b
ok-injective {a = a} h = ap (λ r. elim r [ ok v ↦ v | err e ↦ a ]) h

-- What holds of each value, and how many there are.
pub traverse-All :
    {A B : Type 0} (f : A → Result B) (P : B → Type 0)
    → ((x : A) (y : B) → f x ≡ ok y → P y)
    → (xs : List A) (ys : List B) → traverse f xs ≡ ok ys
    → All P ys × (length ys ≡ length xs)
unfolding traverse
traverse-All f P each [] ys h = subst (λ zs. All P zs × (length zs ≡ 0)) (ok-injective h) (tt, refl)
traverse-All f P each (x ∷ xs) ys h =
    let (y, e, r) = bind_value _ (f x) h in
    let (rest, g, r2) = bind_value _ (traverse f xs) r in
    let (ps, n) = traverse-All f P each xs rest g in
    subst (λ zs. All P zs × (length zs ≡ suc (length xs))) (ok-injective r2)
      ((each x y e, ps), omega (arith, n))
