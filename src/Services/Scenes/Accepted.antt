-- ===== src/Services/Scenes/Accepted.antt =====
-- The group lists that racelink/services/scenes_service.py accepts, and their canonical form.
use gatecontrol_lora.Prelude.{
  ℕ, All, Bool, Bool-cases, List, [], arith, contains, false, inl, inr, leb, leb→le, map, not, ok,
  pos, refl, true, ◌&&◌, ◌<◌, ◌==◌, ◌||◌, ◌∷◌, ◌≡◌, ◌≤◌,
}
use gatecontrol_lora.Services.Scenes.{
  canonical_groups, RawValue, canonical_id, collect_ids, insert_id, number, sort_ids,
}
use gatecontrol_lora.Services.Scenes.Canonical.{All-insert_id}

abbrev pub distinct : List ℕ → List ℕ → Bool
distinct seen [] = true
distinct seen (x ∷ xs) = not (contains seen x) && distinct (x ∷ seen) xs

abbrev pub IsAscending : List ℕ → Type 0
IsAscending [] = Unit {0}
IsAscending (x ∷ xs) = All (λ y. x ≤ y) xs × IsAscending xs

abbrev pub as_raw : List ℕ → List RawValue
as_raw = map (λ g. number (pos g))

pub canonical_id_ok : (g : ℕ) → g < 255 → canonical_id (number (pos g)) ≡ ok g
unfolding canonical_id
canonical_id_ok g h = ground arith

pub collect_ids_ok :
    (seen ids : List ℕ)
    → All (λ g. g < 255) ids
    → distinct seen ids ≡ true
    → collect_ids seen (as_raw ids) ≡ ok ids
unfolding collect_ids
collect_ids_ok seen [] h d = refl
collect_ids_ok seen (g ∷ gs) (h, hs) d =
    let fresh : contains seen g ≡ false = ground (arith, d) in
    let later : distinct (g ∷ seen) gs ≡ true = ground (arith, d) in
    rw (canonical_id_ok g h) (rw fresh (rw (collect_ids_ok (g ∷ seen) gs hs later) refl))

at_least : (a b : ℕ) (bs : List ℕ) → a ≤ b → All (λ y. b ≤ y) bs → All (λ y. a ≤ y) bs
at_least a b [] h hs = tt
at_least a b (c ∷ cs) h (k, ks) = (omega (arith, h, k), at_least a b cs h ks)

insert_id-IsAscending : (a : ℕ) (bs : List ℕ) → IsAscending bs → IsAscending (insert_id a bs)
unfolding insert_id
insert_id-IsAscending a [] h = (tt, tt)
insert_id-IsAscending a (b ∷ bs) (h, hs) = elim (Bool-cases (leb a b)) [
  | inl e ↦ let le : a ≤ b = leb→le a b e in rw e ((le, at_least a b bs le h), (h, hs))
  | inr e ↦
      let le : b ≤ a = ground (arith, e) in
      rw e (All-insert_id (λ y. b ≤ y) a bs le h, insert_id-IsAscending a bs hs)
]

sort_ids-IsAscending : (xs : List ℕ) → IsAscending (sort_ids xs)
unfolding sort_ids
sort_ids-IsAscending [] = tt
sort_ids-IsAscending (x ∷ xs) = insert_id-IsAscending x (sort_ids xs) (sort_ids-IsAscending xs)

contains-insert_id :
    (a g : ℕ) (bs : List ℕ) → contains (insert_id a bs) g ≡ (g == a || contains bs g)
unfolding insert_id
contains-insert_id a g [] = refl
contains-insert_id a g (b ∷ bs) = elim (Bool-cases (leb a b)) [
  | inl e ↦ rw e refl
  | inr e ↦ rw e (rw (contains-insert_id a g bs) (ground arith))
]

pub contains-sort_ids : (g : ℕ) (xs : List ℕ) → contains (sort_ids xs) g ≡ contains xs g
unfolding sort_ids
contains-sort_ids g [] = refl
contains-sort_ids g (x ∷ xs) =
    rw (contains-insert_id x g (sort_ids xs)) (rw (contains-sort_ids g xs) refl)

-- Every non-empty list of distinct group ids below 255 is accepted; the canonical list is in
-- ascending order and has the same ids.
pub canonical_groups-IsAscending :
    (x : ℕ) (xs : List ℕ)
    → All (λ g. g < 255) (x ∷ xs)
    → distinct [] (x ∷ xs) ≡ true
    → (ids : List ℕ) × (canonical_groups (as_raw (x ∷ xs)) ≡ ok ids)
      × IsAscending ids
      × ((g : ℕ) → contains ids g ≡ contains (x ∷ xs) g)
unfolding canonical_groups
canonical_groups-IsAscending x xs h d = (
  sort_ids (x ∷ xs),
  rw (collect_ids_ok [] (x ∷ xs) h d) refl,
  sort_ids-IsAscending (x ∷ xs),
  λ g. contains-sort_ids g (x ∷ xs),
)
