-- ===== src/Transport/Serial/Outcome.antt =====
-- racelink/transport/gateway_serial.py: the frames that decide the outcome of a send.
use gatecontrol_lora.Prelude.{Option, [], arith, if◌then◌else◌, none, refl, some, ◌==◌, ◌∷◌, ◌≡◌}
use gatecontrol_lora.Protocol.Struct.{Bytes}
use gatecontrol_lora.Transport.Serial.{
  Link, handle_buffer, SendOutcome, byte_at, emit, fulfill_pending_outcome, fulfilled, handle_frame,
  handle_rejected, handle_reply, handle_state, rejected, success, update_gateway_state, usb_error,
}

-- The outcome that a frame brings: EV_TX_DONE, EV_TX_REJECTED with its reason, EV_ERROR.
abbrev pub outcome_of : Bytes → Option SendOutcome
outcome_of [] = none
outcome_of (t ∷ bytes) =
    if t == 0xF3
    then some success
    else if t == 0xF4
    then some (rejected (byte_at bytes 1 0xFF))
    else if t == 0xF0
    then some usb_error
    else none

abbrev pub fill : Option SendOutcome → Option (Option SendOutcome) → Option (Option SendOutcome)
fill none slot = slot
fill (some o) slot = fulfilled o slot

-- A frame changes the slot by its outcome only.
pub handle_buffer-slot :
    (buf : Bytes) (l : Link) → (handle_buffer buf l).slot ≡ fill (outcome_of buf) l.slot
unfolding handle_buffer handle_frame handle_rejected handle_state handle_reply emit
    fulfill_pending_outcome update_gateway_state
handle_buffer-slot [] l = refl
handle_buffer-slot (t ∷ bytes) l = ground arith

-- A frame writes nothing, and no TX listener hears of it.
pub handle_buffer-written :
    (buf : Bytes) (l : Link)
    → ((handle_buffer buf l).written ≡ l.written) × ((handle_buffer buf l).tx_heard ≡ l.tx_heard)
unfolding handle_buffer handle_frame handle_rejected handle_state handle_reply emit
    fulfill_pending_outcome update_gateway_state
handle_buffer-written [] l = (refl, refl)
handle_buffer-written (t ∷ bytes) l = ground arith
