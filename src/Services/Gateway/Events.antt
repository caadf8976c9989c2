-- ===== src/Services/Gateway/Events.antt =====
-- The event handlers of racelink/services/gateway_service.py, and what can happen to the service.
use gatecontrol_lora.Prelude.{
  ℕ, Bool, List, Option, Text, [], codes, drop, eq_bytes, false, if◌then◌else◌, is_some, length,
  ltb, none, not, pos, some, suc, true, ℤ, ◌%◌, ◌&&◌, ◌++◌, ◌-◌, ◌==◌, ◌||◌, ◌∷◌,
}
use gatecontrol_lora.Protocol.Struct.{Bytes}
use gatecontrol_lora.Domain.Device.{
  Device, mark_offline, mark_online, new_device, update_from_status,
}
use gatecontrol_lora.Protocol.Rules.{
  PacketRule, find_rule, request_direction, response_opcode, response_policy,
}
use gatecontrol_lora.Protocol.Codec.{
  ReplyEvent, Reply, ack_reply, status_reply, identify_reply, identify_raw, status_raw, ack_raw,
  other_reply,
}
use gatecontrol_lora.State.Repository.{get_by_addr, update_item, upper}
use gatecontrol_lora.Services.Pending.{eq_ℤ, try_match}
use gatecontrol_lora.Services.Replies.{event_of}
use gatecontrol_lora.Services.Gateway.{
  Host, Expect, TransportEvent, gateway_error, state_event, received, tx_rejected, tx_done,
  unknown_event, add_effect, change_device, change_object, for_some, handle_ack_event, identify,
  notify_disconnect, restore_known_device_group, start_reconnect, stash_pending_config,
  status_fields, to_hex,
}

-- An IDENTIFY: an unknown device is added.
abbrev pub identify_found : ℕ → Text → ℕ → ℕ → ℕ → ℤ → ℤ → Host → Option Device → Host
identify_found now mac12 version caps group rssi snr st none = record st {
  devices =
      st.devices ++ identify now version caps group rssi snr (new_device mac12 (pos caps)) ∷ [];
}
identify_found now mac12 version caps group rssi snr st (some dev) =
    restore_known_device_group now (identify now version caps group rssi snr dev) group
      (change_device mac12 (identify now version caps group rssi snr) st)

unfoldable pub handle_identify : ℕ → Text → ℕ → ℕ → ℕ → ℤ → ℤ → Host → Host
unfolding get_by_addr update_item
handle_identify now mac12 version caps group rssi snr st = elim (get_by_addr mac12 st.devices) [
  | none ↦ record st {
    devices =
        st.devices ++ identify now version caps group rssi snr (new_device mac12 (pos caps)) ∷ [];
  }
  | some dev ↦
      restore_known_device_group now (identify now version caps group rssi snr dev) group
        (change_device mac12 (identify now version caps group rssi snr) st)
]

-- The branches on the opcode of a reply, each with the keys that its body has.
unfoldable pub handle_reply : ℕ → ReplyEvent → Reply → Host → Host
unfolding handle_ack_event handle_identify to_hex update_item
handle_reply now ev (ack_reply ack_of status seq) st =
    handle_ack_event now (to_hex ev.sender3) ack_of status seq ev.host_rssi ev.host_snr st
handle_reply now ev (status_reply s) st =
    change_device (to_hex ev.sender3)
      (update_from_status now (status_fields s) (some ev.host_rssi) (some ev.host_snr)) st
handle_reply now ev (identify_reply version caps group mac6) st =
    if length mac6 == 6
    then handle_identify now (to_hex mac6) version caps group ev.host_rssi ev.host_snr st
    else st
handle_reply now ev (identify_raw body) st = st
handle_reply now ev (status_raw body) st = st
handle_reply now ev (ack_raw body) st = st
handle_reply now ev (other_reply body) st = st

-- Compare and clear.
unfoldable pub clear_pending_expect_if : ℕ → Host → Host
clear_pending_expect_if expected st =
    for_some st.pending_expect
      (λ p st. if p.stamp == expected then record st { pending_expect = none } else st) st

unfoldable pub set_pending_expect : Text → ℕ → Text → Host → Host
set_pending_expect dev opcode sender st = record st {
  pending_expect = some (record {
    stamp = st.next_stamp;
    expect_dev = dev;
    expect_opcode7 = opcode;
    expect_sender = upper sender;
  });
  next_stamp = suc st.next_stamp;
}

abbrev pub last6 : Text → Text
last6 t = drop (length t - 6) t

-- The early returns: a broadcast, an opcode without a rule, of the other direction, without a
-- reply.
unfoldable pub awaits_reply : Bytes → ℕ → Bool
unfolding response_policy find_rule request_direction
awaits_reply recv3 opcode =
    length recv3 == 3
    && not (eq_bytes recv3 (255 ∷ 255 ∷ 255 ∷ []))
    && is_some (find_rule opcode)
    && request_direction opcode == 0
    && not (response_policy opcode == 0)

-- A unicast request on the wire for a known device is expected to be answered.
unfoldable pub on_transport_tx : Bytes → ℕ → Host → Host
unfolding set_pending_expect get_by_addr to_hex awaits_reply
on_transport_tx recv3 opcode st =
    if awaits_reply recv3 (opcode % 128)
    then for_some (get_by_addr (to_hex recv3) st.devices)
        (λ dev. set_pending_expect dev.addr (opcode % 128) (last6 (upper dev.addr))) st
    else st

abbrev pub ack_of_reply : Reply → Option ℕ
ack_of_reply (ack_reply op status seq) = some op
ack_of_reply reply = none

abbrev pub acks : Option ℕ → ℕ → Bool
acks none opcode = false
acks (some op) opcode = op == opcode

-- The reply that an expectation asks for.
unfoldable pub meets : Expect → ReplyEvent → Bool
unfolding response_policy response_opcode to_hex
meets p ev =
    let opcode = p.expect_opcode7 % 128 in
    not (length ev.sender3 == 0)
    && eq_bytes (to_hex ev.sender3) (upper p.expect_sender)
    && (if response_policy opcode == 1
        then ev.opc == 126 && acks (ack_of_reply ev.reply) opcode
        else if response_policy opcode == 2
        then eq_ℤ (pos ev.opc) (response_opcode opcode)
        else false)

unfoldable pub pending_try_match : ℕ → ReplyEvent → Host → Host
unfolding clear_pending_expect_if meets mark_online update_item
pending_try_match now ev st =
    for_some st.pending_expect
      (λ p st.
        if meets p ev
        then clear_pending_expect_if p.stamp (change_object p.expect_dev (mark_online now) st)
        else st)
      st

abbrev pub missing_text : ℕ → Option PacketRule → Text
missing_text opcode none = codes "Missing reply (opc=0x" ++ to_hex (opcode % 128 ∷ []) ++ codes ")"
missing_text opcode (some r) = codes "Missing reply (" ++ r.rule_name ++ codes ")"

unfoldable pub missing_reply : ℕ → Text
unfolding find_rule to_hex
missing_reply opcode = missing_text opcode (find_rule opcode)

unfoldable pub pending_window_closed : ℕ → Host → Host
unfolding clear_pending_expect_if mark_offline missing_reply update_item
pending_window_closed now st =
    for_some st.pending_expect
      (λ p st.
        clear_pending_expect_if p.stamp
          (change_object p.expect_dev (mark_offline now (missing_reply p.expect_opcode7)) st))
      st

unfoldable pub schedule_reconnect : ℕ → Host → Host
schedule_reconnect now st =
    if st.reconnect_in_progress || ltb (now - st.last_reconnect_ts) 5000
    then st
    else add_effect (start_reconnect now) (record st {
      last_reconnect_ts = now;
      reconnect_in_progress = true;
      link_recovery_pending = true;
    })

-- The end of the thread that `schedule_reconnect` starts, as far as the service's guard is concerned.
unfoldable pub reconnect_done : Host → Host
reconnect_done st = record st { reconnect_in_progress = false }

abbrev pub notify_error : ℕ → Text → Host → Host
notify_error now reason st =
    if ltb 2000 (now - st.last_error_notify_ts)
    then add_effect (notify_disconnect reason) (record st { last_error_notify_ts = now })
    else st

unfoldable pub on_transport_event : ℕ → TransportEvent → Host → Host
unfolding schedule_reconnect pending_window_closed handle_reply pending_try_match try_match
on_transport_event now (gateway_error reason) st =
    schedule_reconnect now (notify_error now reason (record st { ready = false }))
on_transport_event now (state_event state_byte) st =
    if eq_ℤ state_byte (pos 2) then st else pending_window_closed now st
on_transport_event now tx_rejected st = st
on_transport_event now tx_done st = st
on_transport_event now unknown_event st = st
on_transport_event now (received ev) st = pending_try_match now ev (
    handle_reply now ev ev.reply (record st { registry = (try_match (event_of ev) st.registry).1 }))

-- What happens to the service: an event, a frame sent, a configuration about to be sent, the end
-- of a reconnection.
pub data Input : Type 0 where
  hear : (now : ℕ) → TransportEvent → Input
  transmit : (recv3 : Bytes) (opcode : ℕ) → Input
  configure : (key : Text) (option data0 : ℕ) → Input
  reconnected : Input

unfoldable pub host_step : Input → Host → Host
unfolding on_transport_event on_transport_tx stash_pending_config reconnect_done
host_step (hear now ev) st = on_transport_event now ev st
host_step (transmit recv3 opcode) st = on_transport_tx recv3 opcode st
host_step (configure key option data0) st = stash_pending_config key option data0 st
host_step reconnected st = reconnect_done st

unfoldable pub host_run : List Input → Host → Host
unfolding host_step
host_run [] st = st
host_run (i ∷ is) st = host_run is (host_step i st)
