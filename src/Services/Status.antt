-- ===== src/Services/Status.antt =====
-- racelink/services/status_service.py: the status sweep. The replies after the request are an
-- argument, and so are the host's devices before the window and after it, since the listeners of
-- the gateway service change them meanwhile. The events of the transport carry no mac6 with a
-- status reply. The transport is there.
pub mod Swept
use gatecontrol_lora.Prelude.{
  ℕ, Bool, List, Text, [], codes, drop, eq_bytes, false, if◌then◌else◌, keep, length, map, none,
  pos, some, true, ℤ, ◌&&◌, ◌++◌, ◌-◌, ◌==◌, ◌||◌, ◌∷◌,
}
use gatecontrol_lora.Protocol.Struct.{Bytes}
use gatecontrol_lora.Protocol.Codec.{
  Reply, ReplyEvent, status_reply, identify_reply, identify_raw, status_raw, ack_reply, ack_raw,
  other_reply,
}
use gatecontrol_lora.Domain.Device.{Device, mark_offline}
use gatecontrol_lora.State.Repository.{upper}
use gatecontrol_lora.Services.Pending.{eq_ℤ}
use gatecontrol_lora.Services.Gateway.{to_hex}
use gatecontrol_lora.Services.Scenes.Slug.{has_text}
use gatecontrol_lora.Services.Collect.{
  Arrival, Collection, Window, compute_collect_max_timeout, send_and_collect, after,
}
use gatecontrol_lora.Services.Unicast.{replies_of}

-- Whom the request is for: one device, or the filter of a group, where 255 is every group.
pub data StatusTarget : Type 0 where
  one_device : (addr : Text) (recv3 : Bytes) → StatusTarget
  group_filter : ℤ → StatusTarget

abbrev pub is_status : Reply → Bool
is_status (status_reply s) = true
is_status (status_raw b) = false
is_status (identify_reply v c g m) = false
is_status (identify_raw b) = false
is_status (ack_reply a s q) = false
is_status (ack_raw b) = false
is_status (other_reply b) = false

-- `_collect`
unfoldable pub status_pred : StatusTarget → ReplyEvent → Bool
unfolding to_hex
status_pred (one_device addr recv3) ev =
    ev.opc == 3 && is_status ev.reply && eq_bytes (to_hex ev.sender3) (to_hex recv3)
status_pred (group_filter gid) ev = ev.opc == 3 && is_status ev.reply

-- `set.add`
unfoldable pub add_text : Text → List Text → List Text
add_text t ts = if has_text ts t then ts else ts ++ t ∷ []

unfoldable pub status_responders : List ReplyEvent → List Text
unfolding add_text to_hex
status_responders [] = []
status_responders (ev ∷ evs) =
    let rest = status_responders evs in
    if length ev.sender3 == 3 then add_text (to_hex ev.sender3) rest else rest

-- The devices a filter is about.
unfoldable pub in_filter : ℤ → Device → Bool
unfolding eq_ℤ
in_filter gid d = eq_ℤ gid (pos 255) || eq_ℤ d.group_id gid

unfoldable pub expected_count : StatusTarget → List Device → ℕ
unfolding in_filter
expected_count (one_device addr recv3) devices = 1
expected_count (group_filter gid) devices = length (keep (in_filter gid) devices)

-- `expected_count if expected_count > 0 else None`, with the timeouts of the call
unfoldable pub status_window : ℕ → Window
unfolding compute_collect_max_timeout
status_window n = record {
  expected = if n == 0 then none else some n;
  idle_timeout = 600;
  hard_deadline = compute_collect_max_timeout (pos n) 5000;
}

abbrev pub last6 : Text → Text
last6 t = drop (length t - 6) t

abbrev pub missing_status : Text
missing_status = codes "Missing reply (STATUS)"

-- The body of the loop over the targets.
unfoldable pub sweep_device : ℕ → List Text → Device → Device
unfolding mark_offline
sweep_device now responders d =
    let mac = upper d.addr in
    if length mac == 0 || (has_text responders mac || has_text responders (last6 mac))
    then d
    else mark_offline now missing_status d

unfoldable pub sweep : StatusTarget → ℕ → List ReplyEvent → List Device → List Device
unfolding sweep_device in_filter status_responders mark_offline
sweep (one_device addr recv3) now [] devices =
    map (λ d. if eq_bytes d.addr addr then mark_offline now missing_status d else d) devices
sweep (one_device addr recv3) now (ev ∷ evs) devices = devices
sweep (group_filter gid) now evs devices =
    map (λ d. if in_filter gid d then sweep_device now (status_responders evs) d else d) devices

pub record StatusResult : Type 0 where
  pub updated : ℕ
  pub responders : List Text
  pub devices_after : List Device

-- `get_status`, in a window that ends at `now`
unfoldable pub get_status :
    StatusTarget → ℕ → List Arrival → List Device → List Device → StatusResult
unfolding status_window expected_count status_pred sweep status_responders send_and_collect
get_status target now arrivals before after =
    let w = status_window (expected_count target before) in
    let events = (replies_of (send_and_collect w (status_pred target) arrivals)).0 in
    record {
      updated = length events;
      responders = status_responders events;
      devices_after = sweep target now events after;
    }
