-- ===== src/Services/Scenes/Validate/Reload.antt =====
-- What the store of racelink/services/scenes_service.py has written, it reads back as it was.
use gatecontrol_lora.Services.Scenes.Validate.Written.{written_target}
use gatecontrol_lora.Services.Scenes.Validate.Ids.{IsIds, IsStrict}
use gatecontrol_lora.Services.Scenes.Validate.Sound.{IsTarget}
use gatecontrol_lora.Services.Action.{Target, to_broadcast, to_groups, to_device, other_target}
use gatecontrol_lora.Services.Scenes.{canonical_groups, insert_id, sort_ids}
use gatecontrol_lora.Services.Scenes.Accepted.{as_raw, distinct, collect_ids_ok}
use gatecontrol_lora.Services.Scenes.Targets.{
  canonical_target, canonical_device, is_mac12, migrate_legacy_target, target_kind_of,
}
use gatecontrol_lora.Services.Scenes.Slug.{is_space, lstrip, rstrip}
use gatecontrol_lora.State.Repository.{upper, upper_code}
use gatecontrol_lora.Transport.Address.{hex_value}
use gatecontrol_lora.Prelude.{
  ℕ, All, Bool, List, Text, [], some, ◌∷◌, ◌≡◌, refl, true, false, ok, arith, all, is_some,
  contains, ◌&&◌, ◌<◌, length, leb, same, ◌==◌,
}

sort_ids_same : (ids : List ℕ) → IsStrict ids → sort_ids ids ≡ ids
unfolding sort_ids insert_id
sort_ids_same [] h = refl
sort_ids_same (a ∷ []) h = refl
sort_ids_same (a ∷ b ∷ bs) ((lt, more), hs) =
    let first : leb a b ≡ true = ground (arith, lt) in
    rw (sort_ids_same (b ∷ bs) hs) (rw first refl)

-- No id that is below the others is among them.
below_others : (a : ℕ) (bs : List ℕ) → All (λ y. a < y) bs → contains bs a ≡ false
below_others a [] h = refl
below_others a (b ∷ bs) (h, hs) = ground (arith, h, below_others a bs hs)

abbrev Apart : List ℕ → List ℕ → Type 0
Apart seen ids = All (λ g. contains seen g ≡ false) ids

Apart-cons :
    (a : ℕ) (seen ids : List ℕ) → All (λ y. a < y) ids → Apart seen ids → Apart (a ∷ seen) ids
Apart-cons a seen [] h k = tt
Apart-cons a seen (b ∷ bs) (h, hs) (k, ks) = (ground (arith, h, k), Apart-cons a seen bs hs ks)

distinct_ok : (seen ids : List ℕ) → IsStrict ids → Apart seen ids → distinct seen ids ≡ true
distinct_ok seen [] h k = refl
distinct_ok seen (a ∷ as') (h, hs) (k, ks) =
    rw (k, distinct_ok (a ∷ seen) as' hs (Apart-cons a seen as' h ks)) refl

Apart-none : (ids : List ℕ) → Apart [] ids
Apart-none [] = tt
Apart-none (a ∷ rest) = (refl, Apart-none rest)

canonical_groups_same : (ids : List ℕ) → IsIds ids → canonical_groups (as_raw ids) ≡ ok ids
unfolding canonical_groups
canonical_groups_same [] (small, some_id, h) = absurd (omega (arith, some_id))
canonical_groups_same (a ∷ rest) (small, some_id, h) =
    rw (collect_ids_ok [] (a ∷ rest) small (distinct_ok [] (a ∷ rest) h (Apart-none (a ∷ rest))))
      (rw (sort_ids_same (a ∷ rest) h) refl)

hex_code : (c : ℕ) → is_some (hex_value c) ≡ true → (is_space c ≡ false) × (upper_code c ≡ c)
unfolding hex_value
hex_code c h = (ground (arith, h), ground (arith, h))

hex_text :
    (t : Text)
    → all (λ c. is_some (hex_value c)) t ≡ true
    → (rstrip is_space t ≡ t) × (lstrip is_space t ≡ t) × (upper t ≡ t)
hex_text [] h = (refl, refl, refl)
hex_text (c ∷ cs) h =
    let (here, rest) = both (is_some (hex_value c)) (all (λ d. is_some (hex_value d)) cs) h in
    let (plain, same) = hex_code c here in
    let (r, l, u) = hex_text cs rest in (rw (plain, r) refl, rw plain refl, rw (same, u) refl)
  where
    both : (a b : Bool) → (a && b) ≡ true → (a ≡ true) × (b ≡ true)
    both true b h = (refl, h)
    both false b h = cc

canonical_device_same :
    (addr : Text) → is_mac12 addr ≡ true → canonical_device (some addr) ≡ ok (to_device addr)
unfolding canonical_device
canonical_device_same addr h =
    let (r, l, u) =
      hex_text addr (hex_part (length addr == 12) (all (λ c. is_some (hex_value c)) addr) h) in
    rw (r, l, u, h) refl
  where
    hex_part : (a b : Bool) → (a && b) ≡ true → b ≡ true
    hex_part true b h = h
    hex_part false b h = cc

pub written_target_same : (t : Target) → IsTarget t → canonical_target (written_target t) ≡ ok t
unfolding canonical_target migrate_legacy_target target_kind_of
written_target_same to_broadcast h = refl
written_target_same (to_groups ids) h = rw (canonical_groups_same ids h) refl
written_target_same (to_device addr) h = canonical_device_same addr h
written_target_same other_target h = absurd h
