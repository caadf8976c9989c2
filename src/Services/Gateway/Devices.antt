-- ===== src/Services/Gateway/Devices.antt =====
-- The device list under racelink/services/gateway_service.py.
use gatecontrol_lora.Services.Gateway.{
  Host, PendingConfig, apply_config, apply_config_update, auto_reassign_suppressed, change_device,
  change_object, config_mask, for_some, handle_ack_event, int_or_none, prune_auto_reassign,
  restore_known_device_group, set_config_bit, take_pending_config, value_at,
}
use gatecontrol_lora.Services.Gateway.Events.{
  clear_pending_expect_if, meets, missing_reply, pending_try_match, pending_window_closed,
}
use gatecontrol_lora.Prelude.{
  ℕ, All, Bool, Bool-cases, List, Option, Text, [], ap, byte, eq_bytes, false, if◌then◌else◌, inl,
  inr, leb, length, map, none, not, pos, refl, some, true, ℤ, ◌%◌, ◌&&◌, ◌==◌, ◌∙◌, ◌∷◌, ◌≡◌,
}
use gatecontrol_lora.Domain.Device.{Device, ack_update, mark_offline, mark_online}
use gatecontrol_lora.State.Repository.{get_by_addr, has_addr, update_item, upper}
use gatecontrol_lora.Protocol.Codec.{ReplyEvent}

abbrev pub addrs : List Device → List Text
addrs = map (λ d. upper d.addr)

abbrev pub IsFresh : Text → List Text → Type 0
IsFresh a = All (λ b. eq_bytes b a ≡ false)

-- No two addresses are the same.
abbrev pub IsUnique : List Text → Type 0
IsUnique [] = Unit {0}
IsUnique (a ∷ rest) = All (λ b. eq_bytes a b ≡ false) rest × IsUnique rest

pub addrs-update_item :
    (p : Device → Bool) (f : Device → Device) (ds : List Device)
    → ((d : Device) → (f d).addr ≡ d.addr)
    → addrs (update_item p f ds) ≡ addrs ds
unfolding update_item
addrs-update_item p f [] h = refl
addrs-update_item p f (d ∷ ds) h = elim (Bool-cases (p d)) [
  | inl e ↦ rw (e, h d) refl
  | inr e ↦ rw e (ap (λ rest. upper d.addr ∷ rest) (addrs-update_item p f ds h))
]

pub if-same :
    (b : Bool) (x y st : Host)
    → addrs x.devices ≡ addrs st.devices
    → addrs y.devices ≡ addrs st.devices
    → addrs (if b then x else y).devices ≡ addrs st.devices
if-same true x y st h k = h
if-same false x y st h k = k

pub for_some-same :
    {A : Type 0} (o : Option A) (f : A → Host → Host) (st : Host)
    → ((a : A) → addrs (f a st).devices ≡ addrs st.devices)
    → addrs (for_some o f st).devices ≡ addrs st.devices
for_some-same none f st h = refl
for_some-same (some a) f st h = h a

pub clear_pending_expect_if-same :
    (n : ℕ) (st : Host) → addrs (clear_pending_expect_if n st).devices ≡ addrs st.devices
unfolding clear_pending_expect_if
clear_pending_expect_if-same n st =
    for_some-same st.pending_expect _ st (λ p. if-same (p.stamp == n) _ st st refl refl)

pub pending_try_match-same :
    (now : ℕ) (ev : ReplyEvent) (st : Host)
    → addrs (pending_try_match now ev st).devices ≡ addrs st.devices
unfolding pending_try_match mark_online
pending_try_match-same now ev st = for_some-same st.pending_expect _ st (λ p.
    let marked = change_object p.expect_dev (mark_online now) st in
    if-same (meets p ev) (clear_pending_expect_if p.stamp marked) st st
      (clear_pending_expect_if-same p.stamp marked
        ∙ addrs-update_item (λ d. eq_bytes d.addr p.expect_dev) (mark_online now) st.devices
            (λ d. refl))
      refl)

pub pending_window_closed-same :
    (now : ℕ) (st : Host) → addrs (pending_window_closed now st).devices ≡ addrs st.devices
unfolding pending_window_closed mark_offline
pending_window_closed-same now st = for_some-same st.pending_expect _ st (λ p.
    let mark = mark_offline now (missing_reply p.expect_opcode7) in
    clear_pending_expect_if-same p.stamp (change_object p.expect_dev mark st)
    ∙ addrs-update_item (λ d. eq_bytes d.addr p.expect_dev) mark st.devices (λ d. refl))

pub set_config_bit-addr :
    (mask : Option ℕ) (data0 : ℕ) (d : Device) → (set_config_bit mask data0 d).addr ≡ d.addr
set_config_bit-addr none data0 d = refl
set_config_bit-addr (some mask) data0 d = refl

pub apply_config-same :
    (key : Text) (p : Option PendingConfig) (st : Host)
    → addrs (apply_config key (p, st)).devices ≡ addrs st.devices
unfolding apply_config_update
apply_config-same key none st = refl
apply_config-same key (some c) st =
    addrs-update_item (has_addr (upper key)) (apply_config_update c.config_option c.config_data0)
      st.devices (set_config_bit-addr (config_mask c.config_option) c.config_data0)

pub handle_ack_event-same :
    (now : ℕ) (sender : Text) (ack_of status : ℕ) (seq : Option ℕ) (rssi snr : ℤ) (st : Host)
    → addrs (handle_ack_event now sender ack_of status seq rssi snr st).devices ≡ addrs st.devices
unfolding handle_ack_event take_pending_config ack_update
handle_ack_event-same now sender ack_of status seq rssi snr st =
    let update =
      ack_update now (pos ack_of) (pos status) (int_or_none seq) (some rssi) (some snr) in
    let changed = change_device sender update st in
    let same = addrs-update_item (has_addr (upper sender)) update st.devices (λ d. refl) in
    for_some-same (get_by_addr sender st.devices) _ st (λ dev.
      if-same (ack_of == 5 && status == 0)
        (apply_config sender (take_pending_config sender changed)) changed st
        (apply_config-same sender (value_at sender st.pending_config)
            (take_pending_config sender changed).1
          ∙ same)
        same)

pub restore_known_device_group-same :
    (now : ℕ) (dev : Device) (group : ℕ) (st : Host)
    → addrs (restore_known_device_group now dev group st).devices ≡ addrs st.devices
unfolding restore_known_device_group
restore_known_device_group-same now dev group st =
    let stored = byte dev.group_id in
    let recent = prune_auto_reassign now st.auto_reassign_recent in
    let reset : Device → Device = λ d. record d { group_id = pos 0 } in
    if-same (not (group % 256 == 0)) st _ st refl (
      if-same st.discovery_active st _ st refl (
        if-same (leb st.group_count stored) (change_object dev.addr reset st) _ st
          (addrs-update_item (λ d. eq_bytes d.addr dev.addr) reset st.devices (λ d. refl))
          (if-same (stored == 0) st _ st refl (
            if-same (length dev.addr == 0) st _ st refl
              (if-same (auto_reassign_suppressed now (upper dev.addr) recent) _ _ st refl refl)))))
