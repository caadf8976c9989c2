-- ===== src/Services/Gateway.antt =====
-- racelink/services/gateway_service.py: what the gateway service does with the events of the
-- transport. A method that runs under the state lock is one step; times are in milliseconds. A
-- thread that is started is an effect of the state, and so is a message to the user; a device
-- object that is kept is named by its address.
pub mod Events
pub mod Devices
pub mod Unique
pub mod Reconnect
pub mod Heard
pub mod Recorded
use gatecontrol_lora.Prelude.{
  ℕ, Bool, List, Option, Text, [], bit_and, bit_or, byte, codes, drop, eq_bytes, false,
  if◌then◌else◌, is_some, keep, leb, length, ltb, none, not, or_else, pos, some, suc, true, ℤ, ◌%◌,
  ◌&&◌, ◌++◌, ◌+◌, ◌-◌, ◌/◌, ◌==◌, ◌||◌, ◌∷◌,
}
use gatecontrol_lora.Domain.Device.{
  Device, StatusFields, ack_update, mark_offline, mark_online, new_device, update_from_identify,
  update_from_status,
}
use gatecontrol_lora.Protocol.Struct.{Bytes}
use gatecontrol_lora.Protocol.Rules.{response_policy, find_rule, request_direction, response_opcode}
use gatecontrol_lora.Protocol.Codec.{
  ReplyEvent, StatusReply, Reply, ack_reply, status_reply, identify_reply, identify_raw, status_raw,
  ack_raw, other_reply,
}
use gatecontrol_lora.State.Repository.{get_by_addr, has_addr, update_item, upper}
use gatecontrol_lora.Services.Pending.{Registry, try_match, eq_ℤ}
use gatecontrol_lora.Services.Replies.{event_of}

-- `_pending_expect`; the stamp stands for the identity of the dict.
pub record Expect : Type 0 where
  pub stamp : ℕ
  pub expect_dev : Text
  pub expect_opcode7 : ℕ
  pub expect_sender : Text

pub record PendingConfig : Type 0 where
  pub config_option : ℕ
  pub config_data0 : ℕ

pub data Effect : Type 0 where
  notify_disconnect : (reason : Text) → Effect
  start_reconnect : (at_ms : ℕ) → Effect
  restore_group : (addr : Text) (stored_group : ℕ) → Effect

-- The state of the service and of the controller that its handlers touch.
pub record Host : Type 0 where
  pub registry : Registry
  pub devices : List Device
  pub group_count : ℕ
  pub discovery_active : Bool
  pub pending_expect : Option Expect
  pub next_stamp : ℕ
  pub pending_config : List (Text × PendingConfig)
  pub auto_reassign_recent : List (Text × ℕ)
  pub ready : Bool
  pub last_error_notify_ts : ℕ
  pub reconnect_in_progress : Bool
  pub last_reconnect_ts : ℕ
  pub link_recovery_pending : Bool
  pub effects : List Effect

pub data TransportEvent : Type 0 where
  gateway_error : (reason : Text) → TransportEvent
  state_event : (state_byte : ℤ) → TransportEvent
  tx_rejected tx_done unknown_event : TransportEvent
  received : ReplyEvent → TransportEvent

abbrev pub hex_digit : ℕ → ℕ
hex_digit n = if ltb n 10 then 48 + n else 55 + n

-- `bytes(b).hex().upper()`
unfoldable pub to_hex : Bytes → Text
to_hex [] = []
to_hex (b ∷ bs) = hex_digit (b / 16) ∷ hex_digit (b % 16) ∷ to_hex bs

abbrev pub value_at : {V : Type 0} → Text → List (Text × V) → Option V
value_at key [] = none
value_at key ((k, v) ∷ rest) = if eq_bytes k key then some v else value_at key rest

abbrev pub without : {V : Type 0} → Text → List (Text × V) → List (Text × V)
without key [] = []
without key ((k, v) ∷ rest) =
    let others = without key rest in if eq_bytes k key then others else (k, v) ∷ others

abbrev pub int_or_none : Option ℕ → Option ℤ
int_or_none none = none
int_or_none (some n) = some (pos n)

-- `if x: ...`, for a value that may be absent.
abbrev pub for_some : {A : Type 0} → Option A → (A → Host → Host) → Host → Host
for_some none f st = st
for_some (some a) f st = f a st

abbrev pub change_device : Text → (Device → Device) → Host → Host
change_device addr f st = record st { devices = update_item (has_addr (upper addr)) f st.devices }

-- The change of a device whose object is at hand.
abbrev pub change_object : Text → (Device → Device) → Host → Host
change_object addr f st = record st {
  devices = update_item (λ d. eq_bytes d.addr addr) f st.devices;
}

unfoldable pub stash_pending_config : Text → ℕ → ℕ → Host → Host
stash_pending_config key option data0 st = record st {
  pending_config =
      (key, record { config_option = option % 256; config_data0 = data0 % 256 })
      ∷ without key st.pending_config;
}

unfoldable pub take_pending_config : Text → Host → Option PendingConfig × Host
take_pending_config key st =
    (value_at key st.pending_config, record st { pending_config = without key st.pending_config })

-- `apply_config_update` of the config service: the bit of the config byte that an option stands
-- for.
abbrev pub config_mask : ℕ → Option ℕ
config_mask option =
    if option == 1
    then some 1
    else if option == 3
    then some 2
    else if option == 4
    then some 4
    else none

abbrev pub set_config_bit : Option ℕ → ℕ → Device → Device
set_config_bit none data0 d = d
set_config_bit (some mask) data0 d = record d {
  config_byte =
      if data0 == 0 then bit_and d.config_byte (255 - mask) else bit_or d.config_byte mask;
}

unfoldable pub apply_config_update : ℕ → ℕ → Device → Device
apply_config_update option data0 = set_config_bit (config_mask option) data0

abbrev pub apply_config : Text → Option PendingConfig × Host → Host
apply_config key (none, st) = st
apply_config key (some c, st) =
    change_device key (apply_config_update c.config_option c.config_data0) st

abbrev pub confirm_config : Text → ℕ → ℕ → Host → Host
confirm_config key ack_of status st =
    if ack_of == 5 && status == 0 then apply_config key (take_pending_config key st) else st

-- `handle_ack_event`, with the keys of an ACK.
unfoldable pub handle_ack_event : ℕ → Text → ℕ → ℕ → Option ℕ → ℤ → ℤ → Host → Host
handle_ack_event now sender ack_of status seq rssi snr st =
    for_some (get_by_addr sender st.devices)
      (λ dev st. confirm_config sender ack_of status (
        change_device sender
          (ack_update now (pos ack_of) (pos status) (int_or_none seq) (some rssi) (some snr)) st))
      st

abbrev pub status_fields : StatusReply → StatusFields
status_fields s = record {
  st_flags = some (pos s.status_flags);
  st_config = some (pos s.config_byte);
  st_effect = some (pos s.effect_id);
  st_brightness = some (pos s.brightness);
  st_vbat = some (pos s.vbat_mv);
  st_rssi = some s.node_rssi;
  st_snr = some s.node_snr;
}

-- Entries of at least four times the cooldown of two seconds are dropped.
unfoldable pub prune_auto_reassign : ℕ → List (Text × ℕ) → List (Text × ℕ)
prune_auto_reassign now recent = keep (λ e. ltb (now - e.1) 8000) recent

unfoldable pub auto_reassign_suppressed : ℕ → Text → List (Text × ℕ) → Bool
auto_reassign_suppressed now mac recent = ltb (now - or_else (value_at mac recent) 0) 2000

abbrev pub add_effect : Effect → Host → Host
add_effect e st = record st { effects = e ∷ st.effects }

-- The last step: the worker is started, unless one for the device was a moment ago.
abbrev pub restore_unless_suppressed : ℕ → Text → ℕ → Host → Host
restore_unless_suppressed now mac stored st =
    let recent = prune_auto_reassign now st.auto_reassign_recent in
    if auto_reassign_suppressed now mac recent
    then record st { auto_reassign_recent = recent }
    else add_effect (restore_group mac stored)
        (record st { auto_reassign_recent = (mac, now) ∷ without mac recent })

-- A stored group that does not exist is reset to 0, and then agrees with the node.
abbrev pub restore_stored : ℕ → Text → ℕ → Host → Host
restore_stored now addr stored st =
    if leb st.group_count stored
    then change_object addr (λ d. record d { group_id = pos 0 }) st
    else if stored == 0
    then st
    else if length addr == 0
    then st
    else restore_unless_suppressed now (upper addr) stored st

-- A known node that reports no group is given its stored one, outside of a discovery.
unfoldable pub restore_known_device_group : ℕ → Device → ℕ → Host → Host
restore_known_device_group now dev reported st =
    if not (reported % 256 == 0)
    then st
    else if st.discovery_active
    then st
    else restore_stored now dev.addr (byte dev.group_id) st

abbrev pub identify : ℕ → ℕ → ℕ → ℕ → ℤ → ℤ → Device → Device
identify now version caps group rssi snr =
    update_from_identify now (some (pos version)) (some (pos caps)) (some (pos group)) (some rssi)
      (some snr)
