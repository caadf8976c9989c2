-- ===== src/Services/Scenes/Store/Distinct.antt =====
-- The keys and ids of the scene store of racelink/services/scenes_service.py.
use gatecontrol_lora.Prelude.{
  ℕ, All, Bool-cases, List, Text, [], eq_bytes, false, inl, inr, ok, ok-injective, subst, suc, zero,
  ◌++◌, ◌<◌, ◌∷◌, ◌≡◌, ◌≢◌,
}
use gatecontrol_lora.Services.Scenes.Store.{StoredScene, Store, change_scene}
use gatecontrol_lora.Services.Keyed
use gatecontrol_lora.Services.Scenes.Slug.{free_key, has_text, index_text, unique_key}

abbrev pub DistinctKeys : List StoredScene → Type 0
DistinctKeys = Keyed.DistinctKeys (λ s. s.key)

abbrev pub DistinctIds : List StoredScene → Type 0
DistinctIds = Keyed.DistinctIds (λ s. s.scene_id)

-- No two scenes share a key or an id, and the next id is above all of them.
abbrev pub IsWellFormed : Store → Type 0
IsWellFormed st =
    DistinctKeys st.scenes × DistinctIds st.scenes × All (λ s. s.scene_id < st.next_id) st.scenes

-- Changing a scene that keeps its key and id.
module _ (f : StoredScene → StoredScene) (same_key : (s : StoredScene) → (f s).key ≡ s.key)
    (same_id : (s : StoredScene) → (f s).scene_id ≡ s.scene_id) where
  pub change_scene-All :
      (P : Text → ℕ → Type 0) (k : Text) (ss : List StoredScene)
      → All (λ s. P s.key s.scene_id) ss
      → All (λ s. P s.key s.scene_id) (change_scene f k ss)
  unfolding change_scene
  change_scene-All P k [] h = tt
  change_scene-All P k (s ∷ rest) (a, h) = elim (Bool-cases (eq_bytes s.key k)) [
    | inl e ↦ rw (change_scene, e, same_key s, same_id s) (a, h)
    | inr e ↦ rw (change_scene, e) (a, change_scene-All P k rest h)
  ]

  pub change_scene-distinct :
      (k : Text) (ss : List StoredScene)
      → DistinctKeys ss
      → DistinctIds ss
      → DistinctKeys (change_scene f k ss) × DistinctIds (change_scene f k ss)
  unfolding change_scene
  change_scene-distinct k [] d e = (tt, tt)
  change_scene-distinct k (s ∷ rest) (a, d) (b, e) = elim (Bool-cases (eq_bytes s.key k)) [
    | inl g ↦ rw (change_scene, g, same_key s, same_id s) ((a, d), (b, e))
    | inr g ↦
        let (x, y) = change_scene-distinct k rest d e in
        rw (change_scene, g)
          (
            (change_scene-All (λ key id. eq_bytes s.key key ≡ false) k rest a, x),
            (change_scene-All (λ key id. s.scene_id ≢ id) k rest b, y),
          )
  ]

free_key-free :
    (left index : ℕ) (desired : Text) (taken : List Text) (k : Text)
    → free_key left index desired taken ≡ ok k
    → has_text taken k ≡ false
unfolding free_key
free_key-free zero index desired taken k h = cc
free_key-free (suc left) index desired taken k h =
    let candidate = desired ++ 95 ∷ index_text index in
    elim (Bool-cases (has_text taken candidate)) [
      | inl e ↦ free_key-free left (suc index) desired taken k (rw (free_key, e) at h)
      | inr e ↦
          let same : candidate ≡ k = ok-injective (rw (free_key, e) at h) in
          subst (λ t. has_text taken t ≡ false) same e
    ]

pub unique_key-free :
    (desired : Text) (taken : List Text) (k : Text)
    → unique_key desired taken ≡ ok k
    → has_text taken k ≡ false
unfolding unique_key
unique_key-free desired taken k h = elim (Bool-cases (has_text taken desired)) [
  | inl e ↦ free_key-free 998 2 desired taken k (rw (unique_key, e) at h)
  | inr e ↦
      let same : desired ≡ k = ok-injective (rw (unique_key, e) at h) in
      subst (λ t. has_text taken t ≡ false) same e
]
