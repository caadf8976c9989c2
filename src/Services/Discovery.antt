-- ===== src/Services/Discovery.antt =====
-- racelink/services/discovery_service.py: the search for devices. The replies after each request
-- are an argument; the SET_GROUP that goes to a device found is kept as its address.
pub mod Found
use gatecontrol_lora.Prelude.{
  ℕ, Bool, List, Option, Text, [], false, if◌then◌else◌, leb, length, ltb_ℤ, negsuc, none, pos,
  some, true, ℤ, ◌&&◌, ◌++◌, ◌+◌, ◌==◌, ◌∷◌,
}
use gatecontrol_lora.Protocol.Struct.{Bytes}
use gatecontrol_lora.Protocol.Codec.{
  Reply, ReplyEvent, status_reply, identify_reply, identify_raw, status_raw, ack_reply, ack_raw,
  other_reply,
}
use gatecontrol_lora.Domain.Device.{Device}
use gatecontrol_lora.State.Repository.{get_by_addr, has_addr, update_item, upper}
use gatecontrol_lora.Services.Gateway.{to_hex}
use gatecontrol_lora.Services.Scenes.Slug.{has_text}
use gatecontrol_lora.Services.Collect.{Arrival, Window, send_and_collect}
use gatecontrol_lora.Services.Unicast.{replies_of}
use gatecontrol_lora.Services.Status.{add_text}

abbrev pub is_identify : Reply → Bool
is_identify (identify_reply v c g m) = true
is_identify (identify_raw b) = false
is_identify (status_reply s) = false
is_identify (status_raw b) = false
is_identify (ack_reply a s q) = false
is_identify (ack_raw b) = false
is_identify (other_reply b) = false

unfoldable pub discover_pred : ReplyEvent → Bool
discover_pred ev = ev.opc == 1 && is_identify ev.reply

-- The address that a reply adds to the responders: the MAC, or else the sender.
unfoldable pub responder_of : ReplyEvent → Text
unfolding to_hex
responder_of ev = elim ev.reply [
  | identify_reply v c g mac6 ↦ if length mac6 == 6 then to_hex mac6 else to_hex ev.sender3
  | _ ↦ to_hex ev.sender3
]

-- The set after the replies; an empty address is not added.
unfoldable pub add_responders : List ReplyEvent → List Text → List Text
unfolding add_text responder_of
add_responders [] found = found
add_responders (ev ∷ evs) found =
    let t = responder_of ev in
    add_responders evs (if length t == 0 then found else add_text t found)

-- No count is expected, so the ceiling is the whole budget.
abbrev pub discover_window : Window
discover_window = record { expected = none; idle_timeout = 600; hard_deadline = 5000 }

pub record DiscoveryResult : Type 0 where
  pub found : ℕ
  pub responders : List Text
  pub assigned_group : Option ℤ

-- The devices of the host and the addresses that were sent a SET_GROUP.
pub record Assigned : Type 0 where
  pub devices : List Device
  pub set_groups : List Text

abbrev pub assign_one : ℤ → Text → Option Device → Assigned → Assigned
assign_one gid addr none st = st
assign_one gid addr (some d) st = record {
  devices = update_item (has_addr (upper addr)) (λ e. record e { group_id = gid }) st.devices;
  set_groups = st.set_groups ++ d.addr ∷ [];
}

-- `for addr in responders`
unfoldable pub assign_group : ℤ → List Text → Assigned → Assigned
unfolding get_by_addr update_item has_addr
assign_group gid [] st = st
assign_group gid (addr ∷ rest) st =
    assign_group gid rest (assign_one gid addr (get_by_addr addr st.devices) st)

-- `if add_to_group > 0 and add_to_group < 255`
unfoldable pub group_to_assign : ℤ → Option ℤ
group_to_assign g = if ltb_ℤ (pos 0) g && ltb_ℤ g (pos 255) then some g else none

abbrev pub assign_if : Option ℤ → List Text → Assigned → Assigned
assign_if none responders st = st
assign_if (some gid) responders st = assign_group gid responders st

-- `discover_devices`
unfoldable pub discover_devices : ℤ → List Arrival → Assigned → DiscoveryResult × Assigned
unfolding discover_pred add_responders group_to_assign assign_group send_and_collect
discover_devices add_to_group arrivals st =
    let events = (replies_of (send_and_collect discover_window discover_pred arrivals)).0 in
    let responders = add_responders events [] in
    let group = group_to_assign add_to_group in
    (
      record { found = length events; responders = responders; assigned_group = group },
      assign_if group responders st,
    )

abbrev pub nothing_found : DiscoveryResult
nothing_found = record { found = 0; responders = []; assigned_group = none }

unfoldable pub union_texts : List Text → List Text → List Text
unfolding add_text
union_texts [] merged = merged
union_texts (t ∷ ts) merged = union_texts ts (add_text t merged)

abbrev pub later_group : Option ℤ → Option ℤ → Option ℤ
later_group old none = old
later_group old (some g) = some g

unfoldable pub merge_found : DiscoveryResult → DiscoveryResult → DiscoveryResult
unfolding union_texts
merge_found total r = record {
  found = total.found + r.found;
  responders = union_texts r.responders total.responders;
  assigned_group = later_group total.assigned_group r.assigned_group;
}

-- `int(gid)`, where it is a number from 0 to 254
unfoldable pub is_group_filter : Option ℤ → Bool
is_group_filter none = false
is_group_filter (some (pos g)) = leb g 254
is_group_filter (some (negsuc g)) = false

-- The loop of `discover_devices_in_groups`, over the ids with the replies to each request.
unfoldable pub discover_in_groups :
    ℤ → List (Option ℤ × List Arrival) → DiscoveryResult → Assigned → DiscoveryResult × Assigned
unfolding discover_devices merge_found is_group_filter
discover_in_groups add_to_group [] total st = (total, st)
discover_in_groups add_to_group ((gid, arrivals) ∷ rest) total st =
    let r = discover_devices add_to_group arrivals st in
    elim (is_group_filter gid) [
      | true ↦ discover_in_groups add_to_group rest (merge_found total r.0) r.1
      | false ↦ discover_in_groups add_to_group rest total st
    ]
