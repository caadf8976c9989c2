-- ===== src/Examples/Unicast.antt =====
-- Waits for replies: to a frame for all nodes, and to a request for one.
use gatecontrol_lora.State.Repository.{get_by_addr, find_item, has_addr, update_item}
use gatecontrol_lora.Services.Gateway.{to_hex, handle_ack_event}
use gatecontrol_lora.Services.Replies.{event_of}
use gatecontrol_lora.Protocol.Rules.{response_policy, find_rule, response_opcode}
use gatecontrol_lora.Services.Gateway.Events.{
  acks, ack_of_reply, on_transport_event, on_transport_tx,
}
use gatecontrol_lora.Prelude.{
  ℕ, Bool, List, [], arith, false, none, pos, refl, some, suc, true, zero, ◌==◌, ◌∷◌, ◌≡◌, ◌*◌, ◌+◌,
  ◌-◌, ◌≤◌,
}
use gatecontrol_lora.Protocol.Codec.{ReplyEvent}
use gatecontrol_lora.Services.Pending.{
  candidates, first_match, get_bucket, matches, try_match, append_request, cancel, discard,
  register, remove_request,
}
use gatecontrol_lora.Services.Collect.{
  Arrival, Window, check, collect_loop, count, send_and_collect, wake,
}
use gatecontrol_lora.Services.Unicast.{
  Channel, Request, pending_of, send_and_wait_for_reply, send_and_wait_with_retries, Answer, listen,
  retry_loop, wait_done,
}
use gatecontrol_lora.Services.Unicast.Retries.{send_and_wait_with_retries-bounds, IsHonest}
use gatecontrol_lora.Services.Unicast.Answered.{send_and_wait_for_reply-answered}
use gatecontrol_lora.Examples.Gateway.{host, config_ack, status_event}

abbrev acks_config : ReplyEvent → Bool
acks_config ev = acks (ack_of_reply ev.reply) 5

abbrev arrival : ℕ → ReplyEvent → Arrival
arrival t ev = record { at_ms = t; event = ev }

abbrev two_of_three : List Arrival
two_of_three = arrival 300 config_ack ∷ arrival 500 status_event ∷ arrival 800 config_ack ∷ []

abbrev window : Window
window = record { expected = some 2; idle_timeout = 600; hard_deadline = 5000 }

heard :
    (send_and_collect window acks_config two_of_three)
    ≡ some (record {
      events = config_ack ∷ config_ack ∷ [];
      reason = count;
      elapsed = 800;
      unheard = [];
    })
unfolding send_and_collect collect_loop check wake
heard = refl

-- A node that is silent at first.
abbrev replies_in : ℕ → List Arrival × ℕ
replies_in zero = (arrival 200 config_ack ∷ [], 0)
replies_in (suc n) = ([], n)

abbrev request : Request ℕ
request = record {
  recv3 = 10 ∷ 11 ∷ 12 ∷ [];
  opcode = 5;
  send_ms = 40;
  settle_ms = 0;
  send_fn = replies_in;
}

abbrev channel : ℕ → Channel ℕ
channel n = record { world = n; host = host; clock = 0; frames_sent = 0; next_ident = 1 }

abbrev tried : Answer × Channel ℕ
tried = send_and_wait_with_retries (pos 3) 1500 100 request (channel 1)

send_and_wait_with_retries-bounds_example :
    (tried.0.1 ≡ false → tried.1.frames_sent ≡ 0 + 3)
    × (tried.1.frames_sent ≤ 0 + 3)
    × (tried.1.clock ≤ 0 + 3 * (40 + 1500 + 0) + (3 - 1) * 100)
    × IsHonest tried.0
send_and_wait_with_retries-bounds_example =
    send_and_wait_with_retries-bounds (pos 3) 1500 100 request (channel 1)

has_policy : (response_policy 5 == 0) ≡ false
unfolding response_policy find_rule
has_policy = refl

unawaited : try_match (event_of config_ack) [] ≡ (none, [])
unfolding try_match candidates get_bucket first_match
unawaited = refl

awaited : matches (pending_of request (channel 0)) (event_of config_ack) ≡ true
unfolding matches response_policy find_rule
awaited = refl

send_and_wait_for_reply-answered_example :
    (send_and_wait_for_reply 1500 request (channel 0)).0 ≡ (config_ack ∷ [], true)
send_and_wait_for_reply-answered_example =
    send_and_wait_for_reply-answered 1500 request (channel 0) (arrival 200 config_ack) [] has_policy
      refl refl (omega arith) awaited unawaited

-- The second attempt is answered, after a timeout and a pause.
second_attempt :
    (tried.0 ≡ (config_ack ∷ [], true)) × (tried.1.frames_sent ≡ 2) × (tried.1.clock ≡ 1880)
unfolding send_and_wait_with_retries retry_loop send_and_wait_for_reply response_policy find_rule
    response_opcode listen wait_done on_transport_event on_transport_tx register append_request
    cancel discard try_match candidates get_bucket first_match matches to_hex remove_request
    handle_ack_event get_by_addr find_item has_addr update_item
second_attempt = (refl, refl, refl)
