-- ===== src/Services/Gateway/Reconnect.antt =====
-- The reconnections of racelink/services/gateway_service.py: how often one is started.
use gatecontrol_lora.Domain.Device.{Device, mark_offline, mark_online}
use gatecontrol_lora.Services.Pending.{eq_ℤ, try_match}
use gatecontrol_lora.Services.Replies.{event_of}
use gatecontrol_lora.Protocol.Codec.{
  ReplyEvent, Reply, ack_raw, ack_reply, identify_raw, identify_reply, other_reply, status_raw,
  status_reply,
}
use gatecontrol_lora.State.Repository.{get_by_addr, upper}
use gatecontrol_lora.Protocol.Struct.{Bytes}
use gatecontrol_lora.Services.Gateway.{
  Host, gateway_error, state_event, received, tx_rejected, tx_done, unknown_event, start_reconnect,
  notify_disconnect, restore_group, Effect, PendingConfig, TransportEvent, add_effect, apply_config,
  auto_reassign_suppressed, change_device, change_object, for_some, handle_ack_event, identify,
  prune_auto_reassign, restore_known_device_group, stash_pending_config, take_pending_config,
  to_hex, value_at,
}
use gatecontrol_lora.Services.Gateway.Events.{
  host_run, hear, transmit, configure, reconnected, Input, awaits_reply, clear_pending_expect_if,
  handle_identify, handle_reply, host_step, identify_found, last6, meets, missing_reply,
  notify_error, on_transport_event, on_transport_tx, pending_try_match, pending_window_closed,
  reconnect_done, schedule_reconnect, set_pending_expect,
}
use gatecontrol_lora.Prelude.{
  ℕ, All, All-weaken, Bool-cases, List, [], arith, inl, inr, ltb, refl, ◌+◌, ◌-◌, ◌==◌, ◌||◌, ◌∷◌,
  ◌≡◌, ◌≤◌, Bool, Option, Text, byte, false, if◌then◌else◌, leb, length, none, not, pos, some, true,
  ℤ, ◌%◌, ◌&&◌, ◌∙◌,
}

-- The times of the reconnections, the latest first.
abbrev pub reconnects : List Effect → List ℕ
reconnects [] = []
reconnects (start_reconnect t ∷ es) = t ∷ reconnects es
reconnects (notify_disconnect r ∷ es) = reconnects es
reconnects (restore_group a g ∷ es) = reconnects es

abbrev pub NotAfter : List ℕ → ℕ → Type 0
NotAfter [] last = Unit {0}
NotAfter (t ∷ ts) last = t ≤ last

abbrev pub IsSpaced : List ℕ → Type 0
IsSpaced [] = Unit {0}
IsSpaced (t ∷ ts) = All (λ s. s + 5000 ≤ t) ts × IsSpaced ts

abbrev pub IsThrottled : Host → Type 0
IsThrottled st =
    All (λ t. t ≤ st.last_reconnect_ts) (reconnects st.effects) × IsSpaced (reconnects st.effects)

-- Two hosts that agree on what is said of the reconnections, and on the pending requests.
abbrev pub Agrees : Host → Host → Type 0
Agrees a b =
    (a.last_reconnect_ts ≡ b.last_reconnect_ts)
    × (reconnects a.effects ≡ reconnects b.effects)
    × (a.registry ≡ b.registry)

carry : (a b : Host) → Agrees a b → IsThrottled b → IsThrottled a
carry a b (p, q, r) h = rw (p, q) h

schedule_reconnect-IsThrottled :
    (now : ℕ) (st : Host) → IsThrottled st → IsThrottled (schedule_reconnect now st)
unfolding schedule_reconnect
schedule_reconnect-IsThrottled now st (before, spaced) =
    elim (Bool-cases (st.reconnect_in_progress || ltb (now - st.last_reconnect_ts) 5000)) [
      | inl e ↦ rw e (before, spaced)
      | inr e ↦
          let late : st.last_reconnect_ts + 5000 ≤ now = ground (arith, e) in
          let apart =
            All-weaken (λ t. t ≤ st.last_reconnect_ts) (λ s. s + 5000 ≤ now) (reconnects st.effects)
              (λ s h. omega (arith, late, h)) before in
          let old =
            All-weaken (λ t. t ≤ st.last_reconnect_ts) (λ s. s ≤ now) (reconnects st.effects)
              (λ s h. omega (arith, late, h)) before in
          rw e ((omega arith, old), (apart, spaced))
    ]

if-Agrees : (b : Bool) (x y st : Host) → Agrees x st → Agrees y st → Agrees (if b then x else y) st
if-Agrees true x y st h k = h
if-Agrees false x y st h k = k

Agrees-trans : (a b c : Host) → Agrees a b → Agrees b c → Agrees a c
Agrees-trans a b c (h, k, n) (l, m, o) = (h ∙ l, k ∙ m, n ∙ o)

for_some-Agrees :
    {A : Type 0} (o : Option A) (f : A → Host → Host) (st : Host)
    → ((a : A) → Agrees (f a st) st)
    → Agrees (for_some o f st) st
for_some-Agrees none f st h = (refl, refl, refl)
for_some-Agrees (some a) f st h = h a

clear_pending_expect_if-Agrees : (n : ℕ) (st : Host) → Agrees (clear_pending_expect_if n st) st
unfolding clear_pending_expect_if
clear_pending_expect_if-Agrees n st =
    for_some-Agrees st.pending_expect _ st
      (λ p. if-Agrees (p.stamp == n) _ st st (refl, refl, refl) (refl, refl, refl))

pending_try_match-Agrees :
    (now : ℕ) (ev : ReplyEvent) (st : Host) → Agrees (pending_try_match now ev st) st
unfolding pending_try_match
pending_try_match-Agrees now ev st = for_some-Agrees st.pending_expect _ st (λ p.
    let marked = change_object p.expect_dev (mark_online now) st in
    if-Agrees (meets p ev) (clear_pending_expect_if p.stamp marked) st st
      (clear_pending_expect_if-Agrees p.stamp marked) (refl, refl, refl))

pending_window_closed-Agrees : (now : ℕ) (st : Host) → Agrees (pending_window_closed now st) st
unfolding pending_window_closed
pending_window_closed-Agrees now st = for_some-Agrees st.pending_expect _ st (λ p.
    clear_pending_expect_if-Agrees p.stamp
      (change_object p.expect_dev (mark_offline now (missing_reply p.expect_opcode7)) st))

apply_config-Agrees :
    (key : Text) (p : Option PendingConfig) (st : Host) → Agrees (apply_config key (p, st)) st
apply_config-Agrees key none st = (refl, refl, refl)
apply_config-Agrees key (some c) st = (refl, refl, refl)

handle_ack_event-Agrees :
    (now : ℕ) (sender : Text) (ack_of status : ℕ) (seq : Option ℕ) (rssi snr : ℤ) (st : Host)
    → Agrees (handle_ack_event now sender ack_of status seq rssi snr st) st
unfolding handle_ack_event take_pending_config
handle_ack_event-Agrees now sender ack_of status seq rssi snr st =
    for_some-Agrees (get_by_addr sender st.devices) _ st (λ dev.
      if-Agrees (ack_of == 5 && status == 0) _ _ st
        (apply_config-Agrees sender (value_at sender st.pending_config) _) (refl, refl, refl))

restore_known_device_group-Agrees :
    (now : ℕ) (dev : Device) (group : ℕ) (st : Host)
    → Agrees (restore_known_device_group now dev group st) st
unfolding restore_known_device_group
restore_known_device_group-Agrees now dev group st =
    let stored = byte dev.group_id in
    let recent = prune_auto_reassign now st.auto_reassign_recent in
    if-Agrees (not (group % 256 == 0)) st _ st (refl, refl, refl)
      (if-Agrees st.discovery_active st _ st (refl, refl, refl)
        (if-Agrees (leb st.group_count stored) _ _ st (refl, refl, refl)
          (if-Agrees (stored == 0) st _ st (refl, refl, refl)
            (if-Agrees (length dev.addr == 0) st _ st (refl, refl, refl)
              (if-Agrees (auto_reassign_suppressed now (upper dev.addr) recent) _ _ st
                (refl, refl, refl) (refl, refl, refl))))))

identify_found-Agrees :
    (now : ℕ) (mac : Text) (version caps group : ℕ) (rssi snr : ℤ) (st : Host)
    (found : Option Device)
    → Agrees (identify_found now mac version caps group rssi snr st found) st
identify_found-Agrees now mac version caps group rssi snr st none = (refl, refl, refl)
identify_found-Agrees now mac version caps group rssi snr st (some dev) =
    restore_known_device_group-Agrees now (identify now version caps group rssi snr dev) group
      (change_device mac (identify now version caps group rssi snr) st)

handle_reply-Agrees :
    (now : ℕ) (ev : ReplyEvent) (r : Reply) (st : Host) → Agrees (handle_reply now ev r st) st
unfolding handle_reply handle_identify
handle_reply-Agrees now ev (ack_reply a s q) st =
    handle_ack_event-Agrees now (to_hex ev.sender3) a s q ev.host_rssi ev.host_snr st
handle_reply-Agrees now ev (status_reply s) st = (refl, refl, refl)
handle_reply-Agrees now ev (identify_reply v c g mac) st =
    if-Agrees (length mac == 6) _ st st
      (identify_found-Agrees now (to_hex mac) v c g ev.host_rssi ev.host_snr st
        (get_by_addr (to_hex mac) st.devices))
      (refl, refl, refl)
handle_reply-Agrees now ev (identify_raw b) st = (refl, refl, refl)
handle_reply-Agrees now ev (status_raw b) st = (refl, refl, refl)
handle_reply-Agrees now ev (ack_raw b) st = (refl, refl, refl)
handle_reply-Agrees now ev (other_reply b) st = (refl, refl, refl)

pub on_transport_tx-Agrees :
    (recv3 : Bytes) (opcode : ℕ) (st : Host) → Agrees (on_transport_tx recv3 opcode st) st
unfolding on_transport_tx set_pending_expect
on_transport_tx-Agrees recv3 opcode st =
    if-Agrees (awaits_reply recv3 (opcode % 128)) _ st st
      (for_some-Agrees (get_by_addr (to_hex recv3) st.devices)
        (λ dev. set_pending_expect dev.addr (opcode % 128) (last6 (upper dev.addr))) st
        (λ dev. (refl, refl, refl)))
      (refl, refl, refl)

notify_error-Agrees : (now : ℕ) (reason : Text) (st : Host) → Agrees (notify_error now reason st) st
notify_error-Agrees now reason st =
    if-Agrees (ltb 2000 (now - st.last_error_notify_ts))
      (add_effect (notify_disconnect reason) (record st { last_error_notify_ts = now })) st st
      (refl, refl, refl) (refl, refl, refl)

-- A reply completes the request it matches; nothing else of the handler touches the registry.
pub received-Agrees :
    (now : ℕ) (ev : ReplyEvent) (st : Host)
    → Agrees
        (on_transport_event now (received ev) st)
        (record st { registry = (try_match (event_of ev) st.registry).1 })
unfolding on_transport_event
received-Agrees now ev st =
    let matched : Host = record st { registry = (try_match (event_of ev) st.registry).1 } in
    let handled = handle_reply now ev ev.reply matched in
    Agrees-trans (pending_try_match now ev handled) handled matched
      (pending_try_match-Agrees now ev handled) (handle_reply-Agrees now ev ev.reply matched)

on_transport_event-IsThrottled :
    (now : ℕ) (ev : TransportEvent) (st : Host)
    → IsThrottled st
    → IsThrottled (on_transport_event now ev st)
unfolding on_transport_event
on_transport_event-IsThrottled now (gateway_error reason) st h =
    let down : Host = record st { ready = false } in
    let told = notify_error now reason down in
    schedule_reconnect-IsThrottled now told (carry told st (notify_error-Agrees now reason down) h)
on_transport_event-IsThrottled now (state_event b) st h =
    let closed = pending_window_closed now st in
    carry (if eq_ℤ b (pos 2) then st else closed) st
      (if-Agrees (eq_ℤ b (pos 2)) st closed st (refl, refl, refl)
        (pending_window_closed-Agrees now st))
      h
on_transport_event-IsThrottled now tx_rejected st h = h
on_transport_event-IsThrottled now tx_done st h = h
on_transport_event-IsThrottled now unknown_event st h = h
on_transport_event-IsThrottled now (received ev) st h =
    carry (on_transport_event now (received ev) st)
      (record st { registry = (try_match (event_of ev) st.registry).1 }) (received-Agrees now ev st)
      h

host_step-IsThrottled : (i : Input) (st : Host) → IsThrottled st → IsThrottled (host_step i st)
unfolding host_step stash_pending_config reconnect_done
host_step-IsThrottled (hear now ev) st h = on_transport_event-IsThrottled now ev st h
host_step-IsThrottled (transmit r o) st h =
    carry (on_transport_tx r o st) st (on_transport_tx-Agrees r o st) h
host_step-IsThrottled (configure k o d) st h = h
host_step-IsThrottled reconnected st h = h

-- Whatever the service hears and sends, and however the clock jumps: of any two reconnections
-- that it has started, one comes at least five seconds after the other, if that holds at the
-- start, and none is later than the time that is kept for the guard.
pub host_run-IsThrottled :
    (inputs : List Input) (st : Host) → IsThrottled st → IsThrottled (host_run inputs st)
unfolding host_run
host_run-IsThrottled [] st h = h
host_run-IsThrottled (i ∷ is) st h = host_run-IsThrottled is _ (host_step-IsThrottled i st h)
