-- ===== src/Services/Scenes/Validate/Ids.antt =====
-- The ids of a validated target: below 255, in strictly ascending order, at least one.
use gatecontrol_lora.Services.Scenes.Canonical.{All-insert_id, canonical_groups_lt}
use gatecontrol_lora.Services.Scenes.{
  insert_id, collect_ids, canonical_groups, sort_ids, RawValue, canonical_id,
}
use gatecontrol_lora.Services.Scenes.Accepted.{distinct, contains-sort_ids}
use gatecontrol_lora.Prelude.{
  ℕ, All, Bool, Bool-cases, List, [], arith, contains, false, inl, inr, leb, ok, true, ◌<◌, ◌∷◌,
  ◌≡◌, ◌≤◌, bind_value, err, value_error, if◌then◌else◌, sym, length, ok-injective, subst, refl,
  same, suc, ◌==◌,
}

abbrev pub IsStrict : List ℕ → Type 0
IsStrict [] = Unit {0}
IsStrict (x ∷ xs) = All (λ y. x < y) xs × IsStrict xs

abbrev pub IsIds : List ℕ → Type 0
IsIds ids = All (λ g. g < 255) ids × (1 ≤ length ids) × IsStrict ids

above : (a b : ℕ) (bs : List ℕ) → a < b → All (λ y. b < y) bs → All (λ y. a < y) bs
above a b [] h hs = tt
above a b (c ∷ cs) h (k, ks) = (omega (arith, h, k), above a b cs h ks)

insert_id-IsStrict :
    (a : ℕ) (bs : List ℕ) → contains bs a ≡ false → IsStrict bs → IsStrict (insert_id a bs)
unfolding insert_id
insert_id-IsStrict a [] n h = (tt, tt)
insert_id-IsStrict a (b ∷ bs) n (h, hs) = elim (Bool-cases (leb a b)) [
  | inl e ↦ let lt : a < b = ground (arith, e, n) in rw e ((lt, above a b bs lt h), (h, hs))
  | inr e ↦
      let lt : b < a = ground (arith, e) in
      let others : contains bs a ≡ false = ground (arith, n) in
      rw e (All-insert_id (λ y. b < y) a bs lt h, insert_id-IsStrict a bs others hs)
]

-- What has been seen does not come again.
distinct-unseen :
    (v : ℕ) (seen xs : List ℕ)
    → contains seen v ≡ true
    → distinct seen xs ≡ true
    → contains xs v ≡ false
distinct-unseen v seen [] s d = refl
distinct-unseen v seen (x ∷ xs) s d =
    let fresh : contains seen x ≡ false = ground (arith, d) in
    let later : distinct (x ∷ seen) xs ≡ true = ground (arith, d) in
    let kept : contains (x ∷ seen) v ≡ true = ground (arith, s) in
    let rest = distinct-unseen v (x ∷ seen) xs kept later in
    elim (Bool-cases (v == x)) [ inl e ↦ absurd (clash e fresh) | inr e ↦ rw (e, rest) refl ]
  where
    clash : (v == x) ≡ true → contains seen x ≡ false → ⊥
    clash e f =
        let same : v ≡ x = ground (arith, e) in
        let t : contains seen x ≡ true = subst (λ y. contains seen y ≡ true) same s in cc

sort_ids-IsStrict : (seen xs : List ℕ) → distinct seen xs ≡ true → IsStrict (sort_ids xs)
unfolding sort_ids
sort_ids-IsStrict seen [] d = tt
sort_ids-IsStrict seen (x ∷ xs) d =
    let later : distinct (x ∷ seen) xs ≡ true = ground (arith, d) in
    let here : contains (x ∷ seen) x ≡ true = ground arith in
    insert_id-IsStrict x (sort_ids xs)
      (rw (contains-sort_ids x xs) (distinct-unseen x (x ∷ seen) xs here later))
      (sort_ids-IsStrict (x ∷ seen) xs later)

collect_ids-distinct :
    (seen : List ℕ) (raws : List RawValue) (ids : List ℕ)
    → collect_ids seen raws ≡ ok ids
    → (distinct seen ids ≡ true) × (length ids ≡ length raws)
unfolding collect_ids
collect_ids-distinct seen [] ids h = rw (sym (ok-injective h)) (refl, refl)
collect_ids-distinct seen (raw ∷ rest) ids h =
    let (v, e, r) = bind_value _ (canonical_id raw) h in
    let (w, f, r2) = bind_value _ (if contains seen v then err value_error else ok v) r in
    let (others, g, r3) = bind_value _ (collect_ids (v ∷ seen) rest) r2 in
    let (d, n) = collect_ids-distinct (v ∷ seen) rest others g in
    let (fresh, same) = guard (contains seen v) v w f in
    rw (sym (ok-injective r3)) (rw (sym same) (rw (fresh, d) refl, omega (arith, n)))
  where
    guard :
        (b : Bool) (v w : ℕ) → (if b then err value_error else ok v) ≡ ok w → (b ≡ false) × (v ≡ w)
    guard true v w h = cc
    guard false v w h = (refl, ok-injective h)

length-insert_id : (a : ℕ) (bs : List ℕ) → length (insert_id a bs) ≡ suc (length bs)
unfolding insert_id
length-insert_id a [] = refl
length-insert_id a (b ∷ bs) = ground (arith, length-insert_id a bs)

-- The ids of a validated list.
pub canonical_groups-IsIds :
    (raws : List RawValue) (ids : List ℕ) → canonical_groups raws ≡ ok ids → IsIds ids
unfolding canonical_groups sort_ids
canonical_groups-IsIds [] ids h = cc
canonical_groups-IsIds (raw ∷ rest) ids h =
    let (found, e, r) = bind_value _ (collect_ids [] (raw ∷ rest)) h in
    let (d, n) = collect_ids-distinct [] (raw ∷ rest) found e in
    (
      canonical_groups_lt (raw ∷ rest) ids h,
      subst (λ xs. 1 ≤ length xs) (ok-injective r) (some_left found (omega (arith, n))),
      subst IsStrict (ok-injective r) (sort_ids-IsStrict [] found d),
    )
  where
    some_left : (xs : List ℕ) → 1 ≤ length xs → 1 ≤ length (sort_ids xs)
    some_left [] h = absurd (omega (arith, h))
    some_left (x ∷ xs) h = omega (arith, length-insert_id x (sort_ids xs))
