-- ===== src/Transport/Serial/Ack.antt =====
-- The way of a node's ACK from the bytes of the serial port to the request that waits for it:
-- racelink/transport/gateway_serial.py, racelink/protocol/codec.py and
-- racelink/services/pending_requests.py together.
use gatecontrol_lora.Prelude.{
  ℕ, All, List, Option, [], ap, arith, false, length, map, none, refl, some, ◌++◌, ◌<◌, ◌∙◌, ◌∷◌,
  ◌≡◌,
}
use gatecontrol_lora.Protocol.Struct.{Bytes, unpack_i16, unpack_i8}
use gatecontrol_lora.Protocol.Codec.{ReplyEvent, parse_reply_event}
use gatecontrol_lora.Protocol.Codec.Replies.{ack_body, frame}
use gatecontrol_lora.Services.Pending.{Registry, completed, pending_count, register, try_match}
use gatecontrol_lora.Services.Replies.{AckFrame, ack_wait, event_of, try_match-ack_frame}
use gatecontrol_lora.Transport.Serial.{
  Link, handle_buffer, emit, handle_frame, handle_reply, reply_event, trailer_signal,
}
use gatecontrol_lora.Transport.Serial.Reader.{Receiver, chunk, reader}
use gatecontrol_lora.Transport.Serial.Framing.{
  LineFrame, reader-line, NonZero, concat, handle_all, line_of,
}

-- The ACK with the signal values that its last three bytes carry.
abbrev pub with_signal : AckFrame → AckFrame
with_signal a = record a {
  type_byte = 0xFE;
  rssi = unpack_i16 (a.trailer.0) (a.trailer.1);
  snr = unpack_i8 (a.trailer.2);
}

-- The payload of the gateway's USB frame: the type byte, then the node's frame.
abbrev pub usb_payload : AckFrame → Bytes
usb_payload a = 0xFE ∷ frame a.node a.host 0xFE (ack_body a.acked a.ack_status a.seq) a.trailer

abbrev pub ack_reply_event : AckFrame → ReplyEvent
ack_reply_event a =
    parse_reply_event 0xFE
      (frame a.node a.host 0xFE (ack_body a.acked a.ack_status a.seq) a.trailer)
      (unpack_i16 (a.trailer.0) (a.trailer.1)) (unpack_i8 (a.trailer.2))

ack_heard :
    (n h : ℕ × ℕ × ℕ) (op st : ℕ) (seq : Option ℕ) (t : ℕ × ℕ × ℕ) (l : Link)
    → handle_buffer (0xFE ∷ frame n h 0xFE (ack_body op st seq) t) l
      ≡ emit
          (reply_event (
            parse_reply_event 0xFE
              (frame n h 0xFE (ack_body op st seq) t)
              (unpack_i16 (t.0) (t.1))
              (unpack_i8 (t.2))))
          l
unfolding handle_buffer handle_frame handle_reply trailer_signal
ack_heard n h op st none t l = refl
ack_heard n h op st (some seq) t l = refl

usb_payload-length : (a : AckFrame) → (0 < length (usb_payload a)) × (length (usb_payload a) < 256)
usb_payload-length a = bounds a.seq
  where
    bounds :
        (seq : Option ℕ)
        → (0
            < length
                (0xFE ∷ frame a.node a.host 0xFE (ack_body a.acked a.ack_status seq) a.trailer))
          × (length (0xFE ∷ frame a.node a.host 0xFE (ack_body a.acked a.ack_status seq) a.trailer)
              < 256)
    bounds none = (omega arith, omega arith)
    bounds (some seq) = (omega arith, omega arith)

abbrev pub line_frame : Bytes → AckFrame → LineFrame
line_frame noise a = record { noise = noise; payload = usb_payload a }

-- A node's ACK comes in on the serial port as a frame behind any bytes other than 0, cut into
-- chunks in any way, while no frame is open and the reader is not stopped. Then the listeners hear
-- exactly one new event, and it completes the wait for the ACK of that opcode at that node, when
-- the event would have matched nothing but that wait. As many requests are pending after it as
-- before the wait, and the outcome of a send in flight is not touched.
pub reader-ack :
    (r : Receiver) (a : AckFrame) (noise : Bytes) (chunks : List Bytes) (ident : ℕ) (reg : Registry)
    → r.framer.in_frame ≡ false
    → r.link.stopped ≡ false
    → All NonZero noise
    → concat chunks ≡ line_of (line_frame noise a ∷ [])
    → try_match (event_of (ack_reply_event a)) reg ≡ (none, reg)
    → ((reader r (map chunk chunks)).link.heard
        ≡ r.link.heard ++ reply_event (ack_reply_event a) ∷ [])
      × ((reader r (map chunk chunks)).link.slot ≡ r.link.slot)
      × ((try_match (event_of (ack_reply_event a)) (register (ack_wait ident a) reg)).0
          ≡ some (completed (ack_wait ident a) (event_of (ack_reply_event a))))
      × (pending_count
            (try_match (event_of (ack_reply_event a)) (register (ack_wait ident a) reg)).1
          ≡ pending_count reg)
reader-ack r a noise chunks ident reg closed running clean whole free =
    let read : (reader r (map chunk chunks)).link ≡ handle_buffer (usb_payload a) r.link =
      (reader-line r (line_frame noise a ∷ []) chunks closed running
        ((clean, (usb_payload-length a).0, (usb_payload-length a).1), tt) whole).0
      ∙ unfold handle_all in refl in
    let heard = read ∙ ack_heard a.node a.host a.acked a.ack_status a.seq a.trailer r.link in
    let (matched, count) = try_match-ack_frame (with_signal a) ident reg refl free in
    (
      ap (λ m. m.heard) heard ∙ unfold emit in refl,
      ap (λ m. m.slot) heard ∙ unfold emit in refl,
      matched,
      count,
    )
