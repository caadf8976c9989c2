-- ===== src/Examples/Pending.antt =====
-- Two waits on the registry of pending requests: one for an ACK, one for a reply of its own.
use gatecontrol_lora.Prelude.{ℕ, List, [], pos, refl, some, true, ◌∷◌, ◌≡◌, none}
use gatecontrol_lora.Services.Pending.{
  Event, PendingRequest, Registry, append_request, candidates, completed, discard, first_match,
  get_bucket, key_of, matches, new_request, register, remove_request, resp_ack, resp_specific,
  try_match,
}

abbrev node : List ℕ
node = 10 ∷ 11 ∷ 12 ∷ []

abbrev ack_wait : PendingRequest
ack_wait = new_request 1 node (pos 4) resp_ack

abbrev status_wait : PendingRequest
status_wait = new_request 2 node (pos 3) resp_specific

abbrev ack_event : Event
ack_event = record { sender3 = some node; opc = some (pos 254); ack_of = some (pos 4) }

abbrev two_waits : Registry
two_waits = (key_of status_wait, status_wait ∷ []) ∷ (key_of ack_wait, ack_wait ∷ []) ∷ []

abbrev one_wait : Registry
one_wait = (key_of status_wait, status_wait ∷ []) ∷ []

registered : register ack_wait (register status_wait []) ≡ two_waits
unfolding register append_request
registered = refl

matched : try_match ack_event two_waits ≡ (some (completed ack_wait ack_event), one_wait)
unfolding try_match first_match candidates discard matches get_bucket remove_request
matched = refl

nobody_waits : try_match ack_event one_wait ≡ (none, one_wait)
unfolding try_match first_match candidates matches get_bucket
nobody_waits = refl

ack_wait-matches : matches ack_wait ack_event ≡ true
unfolding matches
ack_wait-matches = refl
