-- ===== src/Services/Gateway/Recorded.antt =====
-- What racelink/services/gateway_service.py records of a node that answers, and of one that does
-- not.
use gatecontrol_lora.Services.Gateway.{
  Host, state_event, received, Expect, PendingConfig, apply_config_update, change_object, for_some,
  status_fields, to_hex,
}
use gatecontrol_lora.Services.Gateway.Events.{
  hear, transmit, host_run, host_step, on_transport_tx, set_pending_expect, awaits_reply, last6,
  missing_text, clear_pending_expect_if, handle_reply, missing_reply, on_transport_event,
  pending_window_closed,
}
use gatecontrol_lora.Prelude.{
  ℕ, ==-refl, Bool, Bool-cases, Option, ap, arith, eq_bytes, false, if◌then◌else◌, inl, inr, [],
  bit_and, bit_or, suc, ◌%◌, ◌∷◌, negsuc, none, pos, refl, some, true, ℤ, ◌==◌, ◌∙◌, ◌≡◌, ◌≢◌,
}
use gatecontrol_lora.Domain.Device.{
  Device, reason_or_none, mark_offline, mark_online, update_from_status,
}
use gatecontrol_lora.Protocol.Struct.{Bytes}
use gatecontrol_lora.Protocol.Rules.{PacketRule, find_rule}
use gatecontrol_lora.Protocol.Codec.{ReplyEvent, status_reply, StatusReply}
use gatecontrol_lora.State.Repository.{get_by_addr, find_item, upper}
use gatecontrol_lora.Services.Pending.{eq_ℤ, try_match}
use gatecontrol_lora.Services.Replies.{event_of}
use gatecontrol_lora.Services.Gateway.Heard.{
  find_item-update_item, clear-devices, get_by_addr-change_device, map_option,
  pending_try_match-heard,
}

-- The status reply of a known node is recorded at that node's device, which is online with it.
pub status_reply-recorded :
    (now : ℕ) (ev : ReplyEvent) (s : StatusReply) (st : Host) (d : Device)
    → ev.reply ≡ status_reply s
    → get_by_addr (to_hex ev.sender3) st.devices ≡ some d
    → get_by_addr (to_hex ev.sender3) (on_transport_event now (received ev) st).devices
      ≡ some (update_from_status now (status_fields s) (some ev.host_rssi) (some ev.host_snr) d)
unfolding on_transport_event handle_reply update_from_status mark_online
status_reply-recorded now ev s st d is found =
    let matched : Host = record st { registry = (try_match (event_of ev) st.registry).1 } in
    let update = update_from_status now (status_fields s) (some ev.host_rssi) (some ev.host_snr) in
    pending_try_match-heard now ev (handle_reply now ev ev.reply matched) (to_hex ev.sender3)
      (update d) refl
      (rw is (get_by_addr-change_device (to_hex ev.sender3) update matched d (λ d. refl) found))

-- The configuration that an ACK confirms, where one was sent.
abbrev pub confirmed : Bool → Option PendingConfig → Device → Device
confirmed false c d = d
confirmed true none d = d
confirmed true (some c) d = apply_config_update c.config_option c.config_data0 d

-- The config byte after the confirmation of an option: bit 0, 1 or 2 for the options 1, 3 and 4.
abbrev pub written : Option PendingConfig → ℕ → ℕ
written none b = b
written (some c) b =
    if c.config_option == 1
    then (if c.config_data0 == 0 then bit_and b 254 else bit_or b 1)
    else if c.config_option == 3
    then (if c.config_data0 == 0 then bit_and b 253 else bit_or b 2)
    else if c.config_option == 4
    then (if c.config_data0 == 0 then bit_and b 251 else bit_or b 4)
    else b

eq_ℤ-refuted : (b : ℤ) → b ≢ pos 2 → eq_ℤ b (pos 2) ≡ false
eq_ℤ-refuted (pos n) h = elim (Bool-cases (n == 2)) [
  | inl e ↦ absurd (h (ap pos (ground (arith, e))))
  | inr e ↦ e
]
eq_ℤ-refuted (negsuc n) h = refl

expectation_after :
    (n : ℕ) (st : Host) (p : Expect)
    → st.pending_expect ≡ some p
    → p.stamp ≡ n
    → (clear_pending_expect_if n st).pending_expect ≡ none
unfolding clear_pending_expect_if
expectation_after n st p e s =
    ap
      (λ o.
        (for_some o (λ p st. if p.stamp == n then record st { pending_expect = none } else st)
          st).pending_expect)
      e
    ∙ rw (s, ==-refl n) refl

-- A report of the gateway's state but that of a reply window ends the wait for a reply.
expectation_closed :
    (now : ℕ) (b : ℤ) (st : Host) (p : Expect)
    → b ≢ pos 2
    → st.pending_expect ≡ some p
    → ((on_transport_event now (state_event b) st).pending_expect ≡ none)
      × (find_item
            (λ d. eq_bytes d.addr p.expect_dev)
            (on_transport_event now (state_event b) st).devices
          ≡ map_option
              (mark_offline now (missing_reply p.expect_opcode7))
              (find_item (λ d. eq_bytes d.addr p.expect_dev) st.devices))
unfolding on_transport_event pending_window_closed mark_offline
expectation_closed now b st p h e =
    let mark = mark_offline now (missing_reply p.expect_opcode7) in
    let marked = change_object p.expect_dev mark st in
    let f : Expect → Host → Host = λ p st.
      clear_pending_expect_if p.stamp
        (change_object p.expect_dev (mark_offline now (missing_reply p.expect_opcode7)) st) in
    let closed = ap (λ o. for_some o f st) e in
    rw (eq_ℤ-refuted b h) (
      ap (λ s. s.pending_expect) closed ∙ expectation_after p.stamp marked p e refl,
      ap (λ s. find_item (λ d. eq_bytes d.addr p.expect_dev) s.devices) closed
          ∙ ap (find_item (λ d. eq_bytes d.addr p.expect_dev)) (clear-devices p.stamp marked)
          ∙ find_item-update_item (λ d. eq_bytes d.addr p.expect_dev) mark st.devices (λ d. refl),
    )

missing_text_lem :
    (opcode : ℕ) (o : Option PacketRule)
    → reason_or_none (missing_text opcode o) ≡ some (missing_text opcode o)
missing_text_lem opcode none = refl
missing_text_lem opcode (some r) = refl

missing_reply_lem :
    (opcode : ℕ) → reason_or_none (missing_reply opcode) ≡ some (missing_reply opcode)
unfolding missing_reply
missing_reply_lem opcode = missing_text_lem opcode (find_rule opcode)

-- A unicast request that asks for a reply goes out to a known device, and the next thing the
-- gateway reports is a state that is no reply window: nothing is expected any more, and the device
-- is offline since then, with the missing reply to that opcode as its error; all else that the host
-- knows of it is kept. The device is the first of the host's list with its address.
pub state_event-offline :
    (now opcode : ℕ) (recv3 : Bytes) (b : ℤ) (st : Host) (d : Device)
    → b ≢ pos 2
    → awaits_reply recv3 (opcode % 128) ≡ true
    → get_by_addr (to_hex recv3) st.devices ≡ some d
    → find_item (λ e. eq_bytes e.addr d.addr) st.devices ≡ some d
    → let after = host_run (transmit recv3 opcode ∷ hear now (state_event b) ∷ []) st in
      (after.pending_expect ≡ none)
      × (find_item (λ e. eq_bytes e.addr d.addr) after.devices
          ≡ some (record d {
            link_online = some false;
            link_ts = now;
            link_error = some (missing_reply (opcode % 128));
          }))
unfolding host_run host_step on_transport_tx set_pending_expect mark_offline
state_event-offline now opcode recv3 b st d h asks known first =
    let p : Expect = record {
      stamp = st.next_stamp;
      expect_dev = d.addr;
      expect_opcode7 = opcode % 128;
      expect_sender = upper (last6 (upper d.addr));
    } in
    let sent : Host = record st { pending_expect = some p; next_stamp = suc st.next_stamp } in
    let goes_out : on_transport_tx recv3 opcode st ≡ sent = rw (asks, known) refl in
    let (dropped, marked) = expectation_closed now b sent p h refl in
    let said = missing_reply_lem (opcode % 128) in
    (
      ap (λ s. (on_transport_event now (state_event b) s).pending_expect) goes_out ∙ dropped,
      ap
            (λ s.
              find_item (λ e. eq_bytes e.addr d.addr)
                (on_transport_event now (state_event b) s).devices)
            goes_out
          ∙ (marked ∙ rw (first, said) refl),
    )
