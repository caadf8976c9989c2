-- ===== src/Examples/StateScope.antt =====
-- Tokens of a membership change, with one that is not known.
use gatecontrol_lora.Prelude.{List, Text, [], codes, false, refl, ◌∷◌, ◌≡◌}
use gatecontrol_lora.Domain.StateScope.{
  normalize_scopes, sse_what_from_scopes, has, full, topic_groups, topic_devices,
}

abbrev tokens : List Text
tokens = codes "device_membership" ∷ codes "colour" ∷ []

refreshed : sse_what_from_scopes tokens ≡ topic_devices ∷ topic_groups ∷ []
unfolding sse_what_from_scopes
refreshed = refl

no_tokens : sse_what_from_scopes [] ≡ topic_groups ∷ topic_devices ∷ []
unfolding sse_what_from_scopes
no_tokens = refl

not_full : has full (normalize_scopes tokens) ≡ false
unfolding has normalize_scopes
not_full = refl
