-- ===== src/Examples/Gateway.antt =====
-- A host with one device behind the gateway.
use gatecontrol_lora.Prelude.{
  List, [], ap, arith, codes, eq_bytes, false, length, negsuc, none, pos, pos_part, refl, some,
  true, ◌∷◌, ◌≡◌, ◌≢◌,
}
use gatecontrol_lora.Protocol.Codec.{
  ReplyEvent, ack_reply, status_reply, StatusReply, identify_reply, Reply,
}
use gatecontrol_lora.Domain.Device.{Device, new_device, mark_online, update_from_identify}
use gatecontrol_lora.State.Repository.{get_by_addr, find_item, has_addr, update_item}
use gatecontrol_lora.Services.Gateway.{
  Host, received, state_event, gateway_error, Expect, restore_known_device_group, to_hex,
  auto_reassign_suppressed, prune_auto_reassign, restore_group,
}
use gatecontrol_lora.Services.Gateway.Events.{
  Input, host_run, hear, transmit, awaits_reply, reconnected, handle_identify, handle_reply,
  host_step, meets, missing_reply, on_transport_event, pending_try_match, reconnect_done,
  schedule_reconnect,
}
use gatecontrol_lora.Services.Gateway.Devices.{addrs, IsUnique}
use gatecontrol_lora.Services.Gateway.Unique.{host_run-IsUnique}
use gatecontrol_lora.Services.Gateway.Reconnect.{host_run-IsThrottled, IsThrottled, reconnects}
use gatecontrol_lora.Services.Gateway.Recorded.{state_event-offline}

abbrev node : Device
node = new_device (codes "AABBCC0A0B0C") (pos 1)

abbrev expected : Expect
expected = record {
  stamp = 0;
  expect_dev = codes "AABBCC0A0B0C";
  expect_opcode7 = 5;
  expect_sender = codes "0A0B0C";
}

abbrev pub host : Host
host = record {
  registry = [];
  devices = node ∷ [];
  group_count = 3;
  discovery_active = false;
  pending_expect = some expected;
  next_stamp = 1;
  pending_config = (codes "0A0B0C", record { config_option = 4; config_data0 = 1 }) ∷ [];
  auto_reassign_recent = [];
  ready = true;
  last_error_notify_ts = 0;
  reconnect_in_progress = false;
  last_reconnect_ts = 0;
  link_recovery_pending = false;
  effects = [];
}

abbrev reply_event : Reply → ReplyEvent
reply_event r = record {
  type_byte = 254;
  dir = 128;
  opc = 126;
  sender3 = 10 ∷ 11 ∷ 12 ∷ [];
  receiver3 = 1 ∷ 2 ∷ 3 ∷ [];
  host_rssi = negsuc 79;
  host_snr = pos 9;
  reply = r;
}

abbrev pub config_ack : ReplyEvent
config_ack = reply_event (ack_reply 5 0 (some 7))

abbrev status : StatusReply
status = record {
  status_flags = 1;
  config_byte = 4;
  effect_id = 9;
  brightness = 70;
  vbat_mv = 3700;
  node_rssi = negsuc 60;
  node_snr = pos 8;
}

abbrev pub status_event : ReplyEvent
status_event = reply_event (status_reply status)

known : get_by_addr (to_hex (10 ∷ 11 ∷ 12 ∷ [])) (node ∷ []) ≡ some node
unfolding get_by_addr find_item has_addr to_hex
known = refl

-- An unknown node reports itself twice, and the gateway fails twice within five seconds.
abbrev inputs : List Input
inputs =
    hear 6000 (received (reply_event (identify_reply 2 1 0 (1 ∷ 2 ∷ 3 ∷ 4 ∷ 5 ∷ 6 ∷ []))))
    ∷ hear 6100 (received (reply_event (identify_reply 2 1 0 (1 ∷ 2 ∷ 3 ∷ 4 ∷ 5 ∷ 6 ∷ []))))
    ∷ hear 7000 (gateway_error (codes "gone"))
    ∷ reconnected
    ∷ hear 8000 (gateway_error (codes "gone"))
    ∷ []

two_devices : length (host_run inputs host).devices ≡ 2
unfolding host_run host_step on_transport_event handle_reply handle_identify get_by_addr find_item
    has_addr to_hex update_item restore_known_device_group pending_try_match meets
    schedule_reconnect reconnect_done update_from_identify mark_online
two_devices = refl

one_reconnection : reconnects (host_run inputs host).effects ≡ 7000 ∷ []
unfolding host_run host_step on_transport_event handle_reply handle_identify get_by_addr find_item
    has_addr to_hex update_item restore_known_device_group pending_try_match meets
    schedule_reconnect reconnect_done update_from_identify mark_online
one_reconnection = refl

host_run-IsUnique_example : IsUnique (addrs (host_run inputs host).devices)
host_run-IsUnique_example = host_run-IsUnique inputs host (tt, tt)

host_run-IsThrottled_example : IsThrottled (host_run inputs host)
host_run-IsThrottled_example = host_run-IsThrottled inputs host (tt, tt)

transmitting_is_no_window : pos 1 ≢ pos 2
transmitting_is_no_window e = absurd (ground (arith, ap pos_part e))

-- The gateway says that it transmits, before a reply can come.
asks : awaits_reply (10 ∷ 11 ∷ 12 ∷ []) 5 ≡ true
unfolding awaits_reply
asks = refl

first_node : find_item (λ e. eq_bytes e.addr node.addr) host.devices ≡ some node
unfolding find_item
first_node = refl

abbrev unanswered : Host
unanswered = host_run (transmit (10 ∷ 11 ∷ 12 ∷ []) 5 ∷ hear 50 (state_event (pos 1)) ∷ []) host

state_event-offline_example :
    (unanswered.pending_expect ≡ none)
    × (find_item (λ e. eq_bytes e.addr node.addr) unanswered.devices
        ≡ some (record node {
          link_online = some false;
          link_ts = 50;
          link_error = some (missing_reply 5);
        }))
state_event-offline_example =
    state_event-offline 50 5 (10 ∷ 11 ∷ 12 ∷ []) (pos 1) host node transmitting_is_no_window asks
      known first_node

-- A known node that has lost its group is given the stored one.
abbrev grouped : Host
grouped = record host { devices = record node { group_id = pos 2 } ∷ [] }

abbrev lost_group : ReplyEvent
lost_group = reply_event (identify_reply 2 1 0 (170 ∷ 187 ∷ 204 ∷ 10 ∷ 11 ∷ 12 ∷ []))

restored :
    (on_transport_event 9000 (received lost_group) grouped).effects
    ≡ restore_group (codes "AABBCC0A0B0C") 2 ∷ []
unfolding on_transport_event handle_reply handle_identify get_by_addr find_item has_addr to_hex
    update_item restore_known_device_group update_from_identify mark_online prune_auto_reassign
    auto_reassign_suppressed
restored = refl
