-- ===== src/Services/Gateway/Unique.antt =====
-- The addresses of the devices under racelink/services/gateway_service.py stay distinct.
use mathlib.Core.List.{map-append}
use gatecontrol_lora.Services.Gateway.{
  Host, gateway_error, state_event, received, tx_rejected, tx_done, unknown_event,
  notify_disconnect, TransportEvent, add_effect, change_device, identify, stash_pending_config,
  status_fields, to_hex,
}
use gatecontrol_lora.Services.Gateway.Events.{
  host_run, hear, transmit, configure, reconnected, Input, awaits_reply, handle_identify,
  handle_reply, host_step, identify_found, last6, notify_error, on_transport_event, on_transport_tx,
  pending_try_match, pending_window_closed, reconnect_done, schedule_reconnect, set_pending_expect,
}
use gatecontrol_lora.Prelude.{
  ℕ, All-append, Bool, Bool-cases, List, Option, Text, [], arith, eq_bytes, false, if◌then◌else◌,
  inl, inr, length, length-map, ltb, none, pos, refl, some, true, ℤ, ◌%◌, ◌*◌, ◌++◌, ◌-◌, ◌==◌,
  ◌||◌, ◌∙◌, ◌∷◌, ◌≡◌, ◌⊎◌,
}
use gatecontrol_lora.Protocol.Struct.{Bytes}
use gatecontrol_lora.Domain.Device.{Device, new_device, update_from_identify, update_from_status}
use gatecontrol_lora.Protocol.Codec.{
  ReplyEvent, Reply, ack_reply, status_reply, identify_reply, identify_raw, status_raw, ack_raw,
  other_reply,
}
use gatecontrol_lora.State.Repository.{get_by_addr, find_item, has_addr, upper, upper_code}
use gatecontrol_lora.Services.Pending.{eq_ℤ, try_match}
use gatecontrol_lora.Services.Replies.{event_of}
use gatecontrol_lora.Services.Gateway.Devices.{
  addrs, IsFresh, IsUnique, addrs-update_item, for_some-same, handle_ack_event-same, if-same,
  pending_try_match-same, pending_window_closed-same, restore_known_device_group-same,
}

-- A step leaves the addresses alone, or adds one that is new at the end.
abbrev pub Grown : Host → Host → Type 0
Grown a b =
    (addrs a.devices ≡ addrs b.devices)
    ⊎ ((new : Text) × IsFresh new (addrs b.devices)
        × (addrs a.devices ≡ addrs b.devices ++ new ∷ []))

-- A lookup that fails says that the address is new.
get_by_addr-IsFresh :
    (a : Text) (ds : List Device)
    → length a ≡ 12
    → find_item (has_addr a) ds ≡ none
    → IsFresh a (addrs ds)
unfolding find_item has_addr
get_by_addr-IsFresh a [] l h = tt
get_by_addr-IsFresh a (d ∷ ds) l h = elim (Bool-cases (eq_bytes (upper d.addr) a)) [
  | inl e ↦ cc (rw (l, e) at h)
  | inr e ↦ (e, get_by_addr-IsFresh a ds l (rw (l, e) at h))
]

eq_bytes_sym : (xs ys : Text) → eq_bytes xs ys ≡ eq_bytes ys xs
eq_bytes_sym [] [] = refl
eq_bytes_sym (x ∷ xs) (y ∷ ys) = ground (arith, eq_bytes_sym xs ys)
eq_bytes_sym [] (y ∷ ys) = refl
eq_bytes_sym (x ∷ xs) [] = refl

IsUnique-append :
    (rest : List Text) (new : Text) → IsUnique rest → IsFresh new rest → IsUnique (rest ++ new ∷ [])
IsUnique-append [] new h f = (tt, tt)
IsUnique-append (a ∷ rest) new (h, u) (f, g) =
    (All-append (λ b. eq_bytes a b ≡ false) rest (new ∷ []) h (f, tt), IsUnique-append rest new u g)

length-to_hex : (b : Bytes) → length (to_hex b) ≡ 2 * length b
unfolding to_hex
length-to_hex [] = refl
length-to_hex (x ∷ xs) = omega (arith, length-to_hex xs)

identify_found-Grown :
    (now : ℕ) (mac : Text) (version caps group : ℕ) (rssi snr : ℤ) (st : Host)
    (found : Option Device)
    → get_by_addr mac st.devices ≡ found
    → length mac ≡ 12
    → Grown (identify_found now mac version caps group rssi snr st found) st
unfolding get_by_addr update_from_identify
identify_found-Grown now mac version caps group rssi snr st none h l =
    let d = identify now version caps group rssi snr (new_device mac (pos caps)) in
    inr (
      upper mac,
      get_by_addr-IsFresh (upper mac) st.devices (length-map upper_code mac ∙ l) h,
      map-append (λ d. upper d.addr) st.devices (d ∷ []),
    )
identify_found-Grown now mac version caps group rssi snr st (some dev) h l =
    let update = identify now version caps group rssi snr in
    inl (
      restore_known_device_group-same now (update dev) group (change_device mac update st)
      ∙ addrs-update_item (has_addr (upper mac)) update st.devices (λ d. refl))

if-Grown :
    (b : Bool) (x y st : Host)
    → (b ≡ true → Grown x st)
    → Grown y st
    → Grown (if b then x else y) st
if-Grown true x y st h k = h refl
if-Grown false x y st h k = k

handle_reply-Grown :
    (now : ℕ) (ev : ReplyEvent) (r : Reply) (st : Host) → Grown (handle_reply now ev r st) st
unfolding handle_reply handle_identify update_from_status
handle_reply-Grown now ev (ack_reply a s q) st =
    inl (handle_ack_event-same now (to_hex ev.sender3) a s q ev.host_rssi ev.host_snr st)
handle_reply-Grown now ev (status_reply s) st = inl (
    addrs-update_item (has_addr (upper (to_hex ev.sender3)))
      (update_from_status now (status_fields s) (some ev.host_rssi) (some ev.host_snr)) st.devices
      (λ d. refl))
handle_reply-Grown now ev (identify_reply v c g mac) st =
    if-Grown (length mac == 6) (handle_identify now (to_hex mac) v c g ev.host_rssi ev.host_snr st)
      st st
      (λ e.
        identify_found-Grown now (to_hex mac) v c g ev.host_rssi ev.host_snr st
          (get_by_addr (to_hex mac) st.devices) refl
          (let six : length mac ≡ 6 = ground (arith, e) in omega (arith, six, length-to_hex mac)))
      (inl refl)
handle_reply-Grown now ev (identify_raw b) st = inl refl
handle_reply-Grown now ev (status_raw b) st = inl refl
handle_reply-Grown now ev (ack_raw b) st = inl refl
handle_reply-Grown now ev (other_reply b) st = inl refl

-- What the devices of two hosts have in common carries over.
same_left : (a b c : Host) → addrs a.devices ≡ addrs b.devices → Grown b c → Grown a c
same_left a b c h (inl k) = inl (h ∙ k)
same_left a b c h (inr (new, f, k)) = inr (new, f, h ∙ k)

on_transport_tx-same :
    (recv3 : Bytes) (opcode : ℕ) (st : Host)
    → addrs (on_transport_tx recv3 opcode st).devices ≡ addrs st.devices
unfolding on_transport_tx set_pending_expect
on_transport_tx-same recv3 opcode st =
    if-same (awaits_reply recv3 (opcode % 128)) _ st st
      (for_some-same (get_by_addr (to_hex recv3) st.devices)
        (λ dev. set_pending_expect dev.addr (opcode % 128) (last6 (upper dev.addr))) st
        (λ dev. refl))
      refl

schedule_reconnect-same :
    (now : ℕ) (st : Host) → addrs (schedule_reconnect now st).devices ≡ addrs st.devices
unfolding schedule_reconnect
schedule_reconnect-same now st =
    if-same (st.reconnect_in_progress || ltb (now - st.last_reconnect_ts) 5000) st _ st refl refl

notify_error-same :
    (now : ℕ) (reason : Text) (st : Host)
    → addrs (notify_error now reason st).devices ≡ addrs st.devices
notify_error-same now reason st =
    if-same (ltb 2000 (now - st.last_error_notify_ts))
      (add_effect (notify_disconnect reason) (record st { last_error_notify_ts = now })) st st refl
      refl

on_transport_event-Grown :
    (now : ℕ) (ev : TransportEvent) (st : Host) → Grown (on_transport_event now ev st) st
unfolding on_transport_event
on_transport_event-Grown now (gateway_error reason) st =
    let down : Host = record st { ready = false } in
    inl (
      schedule_reconnect-same now (notify_error now reason down)
      ∙ notify_error-same now reason down)
on_transport_event-Grown now (state_event b) st = inl (
    if-same (eq_ℤ b (pos 2)) st (pending_window_closed now st) st refl
      (pending_window_closed-same now st))
on_transport_event-Grown now tx_rejected st = inl refl
on_transport_event-Grown now tx_done st = inl refl
on_transport_event-Grown now unknown_event st = inl refl
on_transport_event-Grown now (received ev) st =
    let matched : Host = record st { registry = (try_match (event_of ev) st.registry).1 } in
    let handled = handle_reply now ev ev.reply matched in
    same_left (pending_try_match now ev handled) handled st (pending_try_match-same now ev handled)
      (handle_reply-Grown now ev ev.reply matched)

host_step-Grown : (i : Input) (st : Host) → Grown (host_step i st) st
unfolding host_step stash_pending_config reconnect_done
host_step-Grown (hear now ev) st = on_transport_event-Grown now ev st
host_step-Grown (transmit r o) st = inl (on_transport_tx-same r o st)
host_step-Grown (configure k o d) st = inl refl
host_step-Grown reconnected st = inl refl

Grown-IsUnique : (a b : Host) → Grown a b → IsUnique (addrs b.devices) → IsUnique (addrs a.devices)
Grown-IsUnique a b (inl e) h = rw e h
Grown-IsUnique a b (inr (new, f, e)) h = rw e (IsUnique-append (addrs b.devices) new h f)

-- Whatever the service hears and sends, no address is stored for two devices, if none is at the
-- start. Addresses are compared without regard to case.
pub host_run-IsUnique :
    (inputs : List Input) (st : Host)
    → IsUnique (addrs st.devices)
    → IsUnique (addrs (host_run inputs st).devices)
unfolding host_run
host_run-IsUnique [] st h = h
host_run-IsUnique (i ∷ is) st h =
    host_run-IsUnique is (host_step i st)
      (Grown-IsUnique (host_step i st) st (host_step-Grown i st) h)
