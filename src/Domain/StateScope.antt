-- ===== src/Domain/StateScope.antt =====
-- racelink/domain/state_scope.py: the tokens of a state change, and the topics that a browser is
-- told to refresh. A set of tokens is a list here; only membership is read of it.
use gatecontrol_lora.Prelude.{
  ℕ, Bool, List, Option, Text, [], codes, eq_bytes, false, if◌then◌else◌, none, refl, some, true,
  ◌&&◌, ◌++◌, ◌==◌, ◌||◌, ◌∷◌, ◌≡◌, Bool-cases, arith, inl, inr, sym, ◌∙◌,
}

pub data Scope : Type 0 where
  devices device_membership device_specials groups presets scenes full no_change : Scope

pub data Topic : Type 0 where
  topic_devices topic_groups topic_presets topic_scenes : Topic

-- `str(s) in ALL`
unfoldable pub scope_of : Text → Option Scope
scope_of t =
    if eq_bytes t (codes "devices")
    then some devices
    else if eq_bytes t (codes "device_membership")
    then some device_membership
    else if eq_bytes t (codes "device_specials")
    then some device_specials
    else if eq_bytes t (codes "groups")
    then some groups
    else if eq_bytes t (codes "presets")
    then some presets
    else if eq_bytes t (codes "scenes")
    then some scenes
    else if eq_bytes t (codes "full")
    then some full
    else if eq_bytes t (codes "none")
    then some no_change
    else none

abbrev pub add_known : Option Scope → List Scope → List Scope
add_known none scopes = scopes
add_known (some s) scopes = s ∷ scopes

unfoldable pub known_scopes : List Text → List Scope
unfolding scope_of
known_scopes [] = []
known_scopes (t ∷ ts) = add_known (scope_of t) (known_scopes ts)

abbrev pub or_full : List Scope → List Scope
or_full [] = full ∷ []
or_full (s ∷ rest) = s ∷ rest

-- Without tokens, or without a known one, the scope is the full one.
unfoldable pub normalize_scopes : List Text → List Scope
unfolding known_scopes
normalize_scopes tokens = or_full (known_scopes tokens)

abbrev pub scope_code : Scope → ℕ
scope_code devices = 0
scope_code device_membership = 1
scope_code device_specials = 2
scope_code groups = 3
scope_code presets = 4
scope_code scenes = 5
scope_code full = 6
scope_code no_change = 7

unfoldable pub has : Scope → List Scope → Bool
has s [] = false
has s (r ∷ rest) = scope_code r == scope_code s || has s rest

-- `resolved == {NONE}`; the set is not empty.
unfoldable pub only_none : List Scope → Bool
only_none [] = true
only_none (r ∷ rest) = scope_code r == 7 && only_none rest

abbrev pub topic_if : Bool → Topic → List Topic
topic_if b t = if b then t ∷ [] else []

unfoldable pub topics_of : List Scope → List Topic
unfolding has only_none
topics_of resolved =
    if has full resolved
    then topic_groups ∷ topic_devices ∷ []
    else if only_none resolved
    then []
    else topic_if
        (has devices resolved || (has device_membership resolved || has device_specials resolved))
        topic_devices
      ++ (topic_if (has groups resolved || has device_membership resolved) topic_groups
          ++ (topic_if (has presets resolved) topic_presets
              ++ topic_if (has scenes resolved) topic_scenes))

unfoldable pub sse_what_from_scopes : List Text → List Topic
unfolding topics_of normalize_scopes
sse_what_from_scopes tokens = topics_of (normalize_scopes tokens)

-- What one scope changes in the browser.
abbrev pub announces : Scope → Topic → Bool
announces devices topic_devices = true
announces device_membership topic_devices = true
announces device_membership topic_groups = true
announces device_specials topic_devices = true
announces groups topic_groups = true
announces presets topic_presets = true
announces scenes topic_scenes = true
announces _ _ = false

abbrev pub eq_topic : Topic → Topic → Bool
eq_topic topic_devices topic_devices = true
eq_topic topic_groups topic_groups = true
eq_topic topic_presets topic_presets = true
eq_topic topic_scenes topic_scenes = true
eq_topic _ _ = false

abbrev pub has_topic : Topic → List Topic → Bool
has_topic t [] = false
has_topic t (u ∷ us) = eq_topic u t || has_topic t us

abbrev pub any_announces : Topic → List Scope → Bool
any_announces t [] = false
any_announces t (s ∷ rest) = announces s t || any_announces t rest

any_devices :
    (rs : List Scope)
    → any_announces topic_devices rs
      ≡ (has devices rs || (has device_membership rs || has device_specials rs))
unfolding has
any_devices [] = refl
any_devices (r ∷ rest) = ground (arith, any_devices rest)

any_groups :
    (rs : List Scope) → any_announces topic_groups rs ≡ (has groups rs || has device_membership rs)
unfolding has
any_groups [] = refl
any_groups (r ∷ rest) = ground (arith, any_groups rest)

any_presets : (rs : List Scope) → any_announces topic_presets rs ≡ has presets rs
unfolding has
any_presets [] = refl
any_presets (r ∷ rest) = ground (arith, any_presets rest)

any_scenes : (rs : List Scope) → any_announces topic_scenes rs ≡ has scenes rs
unfolding has
any_scenes [] = refl
any_scenes (r ∷ rest) = ground (arith, any_scenes rest)

quiet : (t : Topic) (rs : List Scope) → only_none rs ≡ true → any_announces t rs ≡ false
unfolding only_none
quiet t [] h = refl
quiet t (r ∷ rest) h = ground (arith, quiet t rest)

listed :
    (d g p s : Bool) (t : Topic)
    → has_topic t (
        topic_if d topic_devices
        ++ (topic_if g topic_groups ++ (topic_if p topic_presets ++ topic_if s topic_scenes)))
      ≡ (elim t [ topic_devices ↦ d | topic_groups ↦ g | topic_presets ↦ p | topic_scenes ↦ s ])
listed d g p s t = ground arith

has_topic-topics_of :
    (rs : List Scope) (t : Topic)
    → has full rs ≡ false
    → has_topic t (topics_of rs) ≡ any_announces t rs
unfolding topics_of
has_topic-topics_of rs t h = elim (Bool-cases (only_none rs)) [
  | inl e ↦ rw (h, e) (sym (quiet t rs e))
  | inr e ↦ rw (h, e) (listed _ _ _ _ t ∙ announced t)
]
  where
    announced :
        (u : Topic)
        → (elim u [
          | topic_devices ↦ has devices rs || (has device_membership rs || has device_specials rs)
          | topic_groups ↦ has groups rs || has device_membership rs
          | topic_presets ↦ has presets rs
          | topic_scenes ↦ has scenes rs
        ])
          ≡ any_announces u rs
    announced topic_devices = sym (any_devices rs)
    announced topic_groups = sym (any_groups rs)
    announced topic_presets = sym (any_presets rs)
    announced topic_scenes = sym (any_scenes rs)

-- Without the full scope a topic is refreshed exactly when one of the known tokens announces a
-- change of it: no change is lost, and no other topic is refreshed.
pub has_topic-sse_what_from_scopes :
    (tokens : List Text) (t : Topic)
    → has full (normalize_scopes tokens) ≡ false
    → has_topic t (sse_what_from_scopes tokens) ≡ any_announces t (normalize_scopes tokens)
unfolding sse_what_from_scopes
has_topic-sse_what_from_scopes tokens t h = has_topic-topics_of (normalize_scopes tokens) t h
