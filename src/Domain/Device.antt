-- ===== src/Domain/Device.antt =====
-- racelink/domain/models.py: the host's record of a device.
use gatecontrol_lora.Prelude.{
  Option, Bool, Text, ℕ, ℤ, [], byte, false, if◌then◌else◌, negsuc, none, not, or_else, pos, some,
  true, ◌&&◌, ◌==◌, ◌∷◌,
}

-- `last_ack`; the opcode, status and seq are absent after `ack_clear`.
pub record Ack : Type 0 where
  pub ack_ok : Bool
  pub ack_opcode : Option ℤ
  pub ack_status : Option ℤ
  pub ack_seq : Option ℤ
  pub ack_ts : ℕ

-- The fields of `RL_Device` that the modelled code reads or writes.
pub record Device : Type 0 where
  pub addr : Text
  pub dev_type : ℤ
  pub version : ℤ
  pub caps : ℤ
  pub group_id : ℤ
  pub flags : ℕ
  pub preset_id : ℕ
  pub effect_id : ℕ
  pub brightness : ℕ
  pub config_byte : ℕ
  pub voltage_mv : ℤ
  pub node_rssi : ℤ
  pub node_snr : ℤ
  pub host_rssi : ℤ
  pub host_snr : ℤ
  pub last_seen_ts : ℕ
  pub link_online : Option Bool
  pub link_ts : ℕ
  pub link_error : Option Text
  pub last_ack : Ack

abbrev pub no_ack : Ack
no_ack = record { ack_ok = false; ack_opcode = none; ack_status = none; ack_seq = none; ack_ts = 0 }

-- A new device, with the defaults of the constructor; flags has the power-on bit.
abbrev pub new_device : Text → ℤ → Device
new_device addr dev_type = record {
  addr = addr;
  dev_type = dev_type;
  version = pos 0;
  caps = pos 0;
  group_id = pos 0;
  flags = 1;
  preset_id = 1;
  effect_id = 0;
  brightness = 70;
  config_byte = 0;
  voltage_mv = pos 0;
  node_rssi = pos 0;
  node_snr = pos 0;
  host_rssi = pos 0;
  host_snr = pos 0;
  last_seen_ts = 0;
  link_online = none;
  link_ts = 0;
  link_error = none;
  last_ack = no_ack;
}

unfoldable pub mark_online : ℕ → Device → Device
mark_online now d = record d { link_online = some true; link_ts = now; link_error = none }

-- `reason or None`
abbrev pub reason_or_none : Text → Option Text
reason_or_none [] = none
reason_or_none (c ∷ cs) = some (c ∷ cs)

unfoldable pub mark_offline : ℕ → Text → Device → Device
mark_offline now reason d = record d {
  link_online = some false;
  link_ts = now;
  link_error = reason_or_none reason;
}

unfoldable pub ack_clear : Device → Device
ack_clear d = record d { last_ack = no_ack }

abbrev pub is_zero : ℤ → Bool
is_zero (pos n) = n == 0
is_zero (negsuc n) = false

abbrev pub heard : ℕ → Option ℤ → Option ℤ → Device → Device
heard now rssi snr d = record d {
  host_rssi = or_else rssi d.host_rssi;
  host_snr = or_else snr d.host_snr;
  last_seen_ts = now;
}

unfoldable pub ack_update : ℕ → ℤ → ℤ → Option ℤ → Option ℤ → Option ℤ → Device → Device
unfolding mark_online
ack_update now opcode status seq rssi snr d = mark_online now (
    heard now rssi snr (record d {
      last_ack = record {
        ack_ok = is_zero status;
        ack_opcode = some opcode;
        ack_status = some status;
        ack_seq = seq;
        ack_ts = now;
      };
    }))

-- `int(v) & 0xFF if v is not None else self.v`
abbrev pub byte_or : Option ℤ → ℕ → ℕ
byte_or none old = old
byte_or (some v) old = byte v

-- The group a node reports is taken over where the host has none.
abbrev pub group_from : ℤ → Option ℤ → ℤ
group_from stored none = stored
group_from stored (some reported) =
    if is_zero stored && not (is_zero reported) then pos (byte reported) else stored

unfoldable pub update_from_identify :
    ℕ → Option ℤ → Option ℤ → Option ℤ → Option ℤ → Option ℤ → Device → Device
unfolding mark_online
update_from_identify now version dev_type group rssi snr d = mark_online now (
    heard now rssi snr (record d {
      version = or_else version d.version;
      caps = or_else dev_type d.caps;
      dev_type = or_else dev_type d.dev_type;
      group_id = group_from d.group_id group;
    }))

-- What a status reply carries.
pub record StatusFields : Type 0 where
  pub st_flags : Option ℤ
  pub st_config : Option ℤ
  pub st_effect : Option ℤ
  pub st_brightness : Option ℤ
  pub st_vbat : Option ℤ
  pub st_rssi : Option ℤ
  pub st_snr : Option ℤ

unfoldable pub update_from_status : ℕ → StatusFields → Option ℤ → Option ℤ → Device → Device
unfolding mark_online
update_from_status now s rssi snr d = mark_online now (
    heard now rssi snr (record d {
      flags = byte_or s.st_flags d.flags;
      config_byte = byte_or s.st_config d.config_byte;
      effect_id = byte_or s.st_effect d.effect_id;
      brightness = byte_or s.st_brightness d.brightness;
      voltage_mv = or_else s.st_vbat d.voltage_mv;
      node_rssi = or_else s.st_rssi d.node_rssi;
      node_snr = or_else s.st_snr d.node_snr;
    }))
