-- ===== src/Transport/Serial/Queue.antt =====
-- racelink/transport/gateway_serial.py: what a frame leaves as it was, and the bounds of the link.
use gatecontrol_lora.Prelude.{ℕ, [], arith, length, length-append, ◌<◌, ◌∷◌, ◌≡◌, ◌≢◌, ◌≤◌, ◌⊎◌}
use gatecontrol_lora.Protocol.Struct.{Bytes}
use gatecontrol_lora.Transport.Serial.{
  Link, handle_buffer, RxEvent, SendOutcome, emit, fulfill_pending_outcome, handle_frame,
  handle_rejected, handle_reply, handle_state, new_link, qmax, update_gateway_state,
}

-- What holds of a link at all times: the queue is bounded, the mirrored state fits its fields.
pub record Inv (l : Link) : Type 0 where
  pub queue_bounded : length l.queue ≤ qmax
  pub state_in_byte : l.state_byte < 256
  pub metadata_in_word : l.metadata_ms < 65536

pub new_link-Inv : Inv new_link
new_link-Inv = record {
  queue_bounded = omega arith;
  state_in_byte = omega arith;
  metadata_in_word = omega arith;
}

pub emit-Inv : (ev : RxEvent) (l : Link) → Inv l → Inv (emit ev l)
unfolding emit
emit-Inv ev l h = ground (arith, length-append l.queue (ev ∷ []))

fulfill-Inv : (o : SendOutcome) (l : Link) → Inv l → Inv (fulfill_pending_outcome o l)
unfolding fulfill_pending_outcome
fulfill-Inv o l h = ground arith

update-Inv : (s m : ℕ) (l : Link) → Inv l → Inv (update_gateway_state s m l)
unfolding update_gateway_state
update-Inv s m l h = ground arith

-- Every frame, whatever its bytes are, keeps the bounds.
pub handle_buffer-Inv : (buf : Bytes) (l : Link) → Inv l → Inv (handle_buffer buf l)
unfolding handle_buffer handle_frame handle_rejected handle_state handle_reply
handle_buffer-Inv [] l h = h
handle_buffer-Inv (t ∷ bytes) l h = grind (arith, emit-Inv, fulfill-Inv, update-Inv)

-- The bytes of a frame that reports the state of the gateway.
abbrev pub IsStateType : ℕ → Type 0
IsStateType t = (t ≡ 0xF1) ⊎ (t ≡ 0xF5)

-- A frame of any other type than the two state events leaves the mirrored state of the gateway as
-- it was.
pub handle_frame-other_state :
    (t : ℕ) (bytes : Bytes) (l : Link)
    → t ≢ 0xF1
    → t ≢ 0xF5
    → ((handle_frame t bytes l).state_byte ≡ l.state_byte)
      × ((handle_frame t bytes l).metadata_ms ≡ l.metadata_ms)
unfolding handle_frame handle_rejected handle_reply emit fulfill_pending_outcome
handle_frame-other_state t bytes l h k = ground arith
