-- ===== src/Services/Keyed.antt =====
-- Lists of entries with a key and an id, as the stores of racelink/services keep them: when no two
-- share one, and what keeps it so.
use gatecontrol_lora.Prelude.{
  ℕ, All, All-append, Bool, Bool-cases, List, Text, [], arith, eq_bytes, false, inl, inr, keep, map,
  ◌++◌, ◌<◌, ◌∷◌, ◌≡◌, ◌≢◌,
}
use gatecontrol_lora.Services.Scenes.Slug.{has_text}

module _ {A : Type 0} where
  -- Leaving entries out.
  pub All-keep : (P : A → Type 0) (p : A → Bool) (xs : List A) → All P xs → All P (keep p xs)
  All-keep P p [] h = tt
  All-keep P p (x ∷ rest) (k, h) = elim (Bool-cases (p x)) [
    | inl e ↦ rw e (k, All-keep P p rest h)
    | inr e ↦ rw e (All-keep P p rest h)
  ]

module _ {A : Type 0} (key_of : A → Text) where
  abbrev pub DistinctKeys : List A → Type 0
  DistinctKeys [] = Unit {0}
  DistinctKeys (x ∷ rest) =
      All (λ r. eq_bytes (key_of x) (key_of r) ≡ false) rest × DistinctKeys rest

  pub DistinctKeys-append :
      (xs : List A) (new : A)
      → DistinctKeys xs
      → has_text (map key_of xs) (key_of new) ≡ false
      → DistinctKeys (xs ++ new ∷ [])
  DistinctKeys-append [] new d h = (tt, tt)
  DistinctKeys-append (x ∷ rest) new (a, d) h =
      elim (Bool-cases (eq_bytes (key_of x) (key_of new))) [
        | inl e ↦ cc (rw e at h)
        | inr e ↦ (
          All-append (λ r. eq_bytes (key_of x) (key_of r) ≡ false) rest (new ∷ []) a (e, tt),
          DistinctKeys-append rest new d (rw e at h),
        )
      ]

  pub DistinctKeys-keep : (p : A → Bool) (xs : List A) → DistinctKeys xs → DistinctKeys (keep p xs)
  DistinctKeys-keep p [] d = tt
  DistinctKeys-keep p (x ∷ rest) (a, d) = elim (Bool-cases (p x)) [
    | inl f ↦ rw f (
      All-keep (λ r. eq_bytes (key_of x) (key_of r) ≡ false) p rest a,
      DistinctKeys-keep p rest d,
    )
    | inr f ↦ rw f (DistinctKeys-keep p rest d)
  ]

module _ {A : Type 0} (id_of : A → ℕ) where
  abbrev pub DistinctIds : List A → Type 0
  DistinctIds [] = Unit {0}
  DistinctIds (x ∷ rest) = All (λ r. id_of x ≢ id_of r) rest × DistinctIds rest

  pub DistinctIds-append :
      (xs : List A) (new : A)
      → DistinctIds xs
      → All (λ x. id_of x < id_of new) xs
      → DistinctIds (xs ++ new ∷ [])
  DistinctIds-append [] new d h = (tt, tt)
  DistinctIds-append (x ∷ rest) new (a, d) (k, h) = (
    All-append (λ r. id_of x ≢ id_of r) rest (new ∷ []) a ((λ e. absurd (omega (arith, k, e))), tt),
    DistinctIds-append rest new d h,
  )

  pub DistinctIds-keep : (p : A → Bool) (xs : List A) → DistinctIds xs → DistinctIds (keep p xs)
  DistinctIds-keep p [] d = tt
  DistinctIds-keep p (x ∷ rest) (a, d) = elim (Bool-cases (p x)) [
    | inl f ↦ rw f (All-keep (λ r. id_of x ≢ id_of r) p rest a, DistinctIds-keep p rest d)
    | inr f ↦ rw f (DistinctIds-keep p rest d)
  ]
