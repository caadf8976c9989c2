-- ===== src/Services/Replies.antt =====
-- The reply of a node on its way to the waiter: the event that racelink/protocol/codec.py makes of
-- a frame, in the hands of racelink/services/pending_requests.py.
use gatecontrol_lora.Prelude.{
  ℕ, Option, [], arith, eq_bytes_refl, none, pos, refl, some, subst, sym, true, ℤ, ◌%◌, ◌∷◌, ◌≡◌,
}
use gatecontrol_lora.Protocol.Struct.{Bytes}
use gatecontrol_lora.Protocol.Codec.{Reply, ReplyEvent, ack_reply, parse_reply_event}
use gatecontrol_lora.Protocol.Codec.Replies.{parse_reply_event-ack, ack_body, frame}
use gatecontrol_lora.Services.Pending.{
  Event, Registry, completed, matches, new_request, pending_count, register, resp_ack, try_match,
  PendingRequest,
}
use gatecontrol_lora.Services.Pending.Reply.{try_match-register}

abbrev pub ack_key_of : Reply → Option ℤ
ack_key_of (ack_reply op status seq) = some (pos op)
ack_key_of reply = none

-- The keys of the event that the registry reads.
abbrev pub event_of : ReplyEvent → Event
event_of ev = record {
  sender3 = some ev.sender3;
  opc = some (pos ev.opc);
  ack_of = ack_key_of ev.reply;
}

abbrev pub bytes3 : ℕ × ℕ × ℕ → Bytes
bytes3 s = s.0 ∷ s.1 ∷ s.2 ∷ []

-- A node's ACK: the acknowledged opcode, a status, perhaps a sequence number, and what the
-- gateway adds.
pub record AckFrame : Type 0 where
  pub node : ℕ × ℕ × ℕ
  pub host : ℕ × ℕ × ℕ
  pub type_byte : ℕ
  pub acked : ℕ
  pub ack_status : ℕ
  pub seq : Option ℕ
  pub trailer : ℕ × ℕ × ℕ
  pub rssi : ℤ
  pub snr : ℤ

abbrev pub ack_event : AckFrame → Event
ack_event a = event_of (
    parse_reply_event a.type_byte
      (frame a.node a.host a.type_byte (ack_body a.acked a.ack_status a.seq) a.trailer) a.rssi
      a.snr)

-- The wait for the ACK, as the gateway service registers it.
abbrev pub ack_wait : ℕ → AckFrame → PendingRequest
ack_wait ident a = new_request ident (bytes3 a.node) (pos (a.acked % 128)) resp_ack

abbrev plain_event : AckFrame → Event
plain_event a = record {
  sender3 = some (bytes3 a.node);
  opc = some (pos 126);
  ack_of = some (pos (a.acked % 128));
}

event_of-ack : (a : AckFrame) → a.type_byte % 128 ≡ 126 → ack_event a ≡ plain_event a
unfolding parse_reply_event
event_of-ack a o =
    let p =
      parse_reply_event-ack a.node a.host a.type_byte a.acked a.ack_status a.seq a.trailer a.rssi
        a.snr o in
    λ i. record {
      sender3 = some (bytes3 a.node);
      opc = some (pos (o i));
      ack_of = ack_key_of (p i);
    }

matches-ack : (ident : ℕ) (a : AckFrame) → matches (ack_wait ident a) (plain_event a) ≡ true
unfolding matches
matches-ack ident a = rw (eq_bytes_refl (bytes3 a.node)) (ground arith)

-- A node's ACK frame, with or without a sequence number, completes the wait for the ACK of that
-- opcode at that node, when the wait is registered and the frame would have matched nothing
-- before. As many requests are pending after it as before the wait.
pub try_match-ack_frame :
    (a : AckFrame) (ident : ℕ) (reg : Registry)
    → a.type_byte % 128 ≡ 126
    → try_match (ack_event a) reg ≡ (none, reg)
    → ((try_match (ack_event a) (register (ack_wait ident a) reg)).0
        ≡ some (completed (ack_wait ident a) (ack_event a)))
      × (pending_count (try_match (ack_event a) (register (ack_wait ident a) reg)).1
          ≡ pending_count reg)
try_match-ack_frame a ident reg o free =
    try_match-register (ack_event a) (ack_wait ident a) (a.acked % 128) reg refl (omega arith)
      (subst (λ e. matches (ack_wait ident a) e ≡ true) (sym (event_of-ack a o))
        (matches-ack ident a))
      free
