-- ===== src/Transport/Serial/Send.antt =====
-- racelink/transport/gateway_serial.py, `_send_m2n` and `send_state_request`: a frame is written,
-- and the sender waits while the reader handles what comes in.
use gatecontrol_lora.Prelude.{
  ℕ, Bool, List, Option, Result, [], bit_and, err, false, if◌then◌else◌, length, ltb, none, not, ok,
  or_else, some, true, value_error, ◌%◌, ◌++◌, ◌==◌, ◌∷◌,
}
use gatecontrol_lora.Protocol.Struct.{Bytes}
use gatecontrol_lora.Transport.Serial.{
  Link, handle_buffer, SendOutcome, TxEvent, emit_tx, handle_disconnect, reason_name, timeout,
  tx_m2n, tx_outcome, usb_error,
}
use gatecontrol_lora.Transport.Serial.Outcome.{outcome_of}

-- The arguments of `_send_m2n`.
pub record SendRequest : Type 0 where
  pub type_full : ℕ
  pub recv3 : Bytes
  pub body : Bytes

-- What happens to the reader while the sender waits: a frame, or a failed read.
pub data Inbound : Type 0 where
  frame_in : Bytes → Inbound
  port_lost : Inbound

unfoldable pub receive : Inbound → Link → Link
unfolding handle_buffer handle_disconnect
receive (frame_in buf) l = if l.stopped then l else handle_buffer buf l
receive port_lost l = if l.stopped then l else handle_disconnect l

-- From the write until the sender has the lock again: all that the reader handled.
unfoldable pub wait_for : List Inbound → Link → Link
unfolding receive
wait_for [] l = l
wait_for (i ∷ rest) l = wait_for rest (receive i l)

-- The slot's content when the wait is over; without one it timed out.
abbrev pub awaited : Option (Option SendOutcome) → SendOutcome
awaited (some (some o)) = o
awaited slot = timeout

unfoldable pub tx_event_of : SendRequest → TxEvent
tx_event_of q =
    tx_m2n q.type_full (bit_and q.type_full 0x80) (q.type_full % 128) q.recv3 (length q.body)

unfoldable pub outcome_event_of : SendRequest → SendOutcome → TxEvent
unfolding reason_name
outcome_event_of q o =
    tx_outcome q.type_full (bit_and q.type_full 0x80) (q.type_full % 128) q.recv3 o.code o.reason
      (reason_name o)

abbrev pub register_slot : Link → Link
register_slot l = record l { slot = some none }

abbrev pub clear_slot : Link → Link
clear_slot l = record l { slot = none }

abbrev pub write_frame : Bytes → Link → Link
write_frame bytes l = record l { written = l.written ++ bytes ∷ [] }

-- After a write that succeeded.
unfoldable pub send_written : SendRequest → Bytes → List Inbound → Link → SendOutcome × Link
unfolding wait_for emit_tx tx_event_of outcome_event_of
send_written q bytes during l =
    let waited = wait_for during (write_frame bytes (register_slot l)) in
    let o = awaited waited.slot in
    (o, emit_tx (outcome_event_of q o) (emit_tx (tx_event_of q) (clear_slot waited)))

-- After a write that raised `SerialException`.
unfoldable pub send_failed : SendRequest → Link → SendOutcome × Link
unfolding handle_disconnect emit_tx outcome_event_of
send_failed q l = (
  usb_error,
  emit_tx (outcome_event_of q usb_error) (handle_disconnect (clear_slot (register_slot l))),
)

-- `_send_m2n`; the flag is whether `ser.write` succeeds. `bytes([0x00, len(payload)])` raises for
-- a payload of more than 255 bytes.
unfoldable pub send_m2n : SendRequest → Bool → List Inbound → Link → Result (SendOutcome × Link)
unfolding send_written send_failed
send_m2n q written during l =
    let payload = q.type_full ∷ (q.recv3 ++ q.body) in
    if not (length q.recv3 == 3)
    then err value_error
    else if ltb 255 (length payload)
    then err value_error
    else ok (
        if written then send_written q (0 ∷ length payload ∷ payload) during l else send_failed q l)

-- `send_state_request`
unfoldable pub send_state_request : Bool → Link → Bool × Link
unfolding handle_disconnect
send_state_request true l = (true, write_frame (0 ∷ 1 ∷ 0x7F ∷ []) l)
send_state_request false l = (false, handle_disconnect l)

-- The first outcome among the frames of the wait, before the port is lost; else a timeout.
abbrev pub first_outcome : Bool → List Inbound → SendOutcome
first_outcome true during = timeout
first_outcome false [] = timeout
first_outcome false (port_lost ∷ rest) = timeout
first_outcome false (frame_in buf ∷ rest) = or_else (outcome_of buf) (first_outcome false rest)
