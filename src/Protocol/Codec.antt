-- ===== src/Protocol/Codec.antt =====
-- racelink/protocol/codec.py: the reply of a node, out of the frame that the gateway forwards. The
-- time stamp that the caller adds to the event is left out.
pub mod Replies
use gatecontrol_lora.Prelude.{
  ℕ, Option, [], bit_and, drop, if◌then◌else◌, length, none, some, take, ℤ, ◌%◌, ◌-◌, ◌==◌, ◌∷◌,
}
use gatecontrol_lora.Protocol.Struct.{Bytes, unpack_i8, unpack_u16}

pub record StatusReply : Type 0 where
  pub status_flags : ℕ
  pub config_byte : ℕ
  pub effect_id : ℕ
  pub brightness : ℕ
  pub vbat_mv : ℕ
  pub node_rssi : ℤ
  pub node_snr : ℤ

-- The keys that depend on the opcode; each "raw" is a body of another length than expected.
pub data Reply : Type 0 where
  identify_reply : (version caps group_id : ℕ) (mac6 : Bytes) → Reply
  identify_raw : Bytes → Reply
  status_reply : StatusReply → Reply
  status_raw : Bytes → Reply
  ack_reply : (ack_of ack_status : ℕ) (ack_seq : Option ℕ) → Reply
  ack_raw : Bytes → Reply
  other_reply : Bytes → Reply

pub record ReplyEvent : Type 0 where
  pub type_byte : ℕ
  pub dir : ℕ
  pub opc : ℕ
  pub sender3 : Bytes
  pub receiver3 : Bytes
  pub host_rssi : ℤ
  pub host_snr : ℤ
  pub reply : Reply

unfoldable pub identify_of : Bytes → Reply
identify_of (v ∷ c ∷ g ∷ m0 ∷ m1 ∷ m2 ∷ m3 ∷ m4 ∷ m5 ∷ []) =
    identify_reply v c g (m0 ∷ m1 ∷ m2 ∷ m3 ∷ m4 ∷ m5 ∷ [])
identify_of body = identify_raw body

-- `struct.unpack("<BBBBHbb", body)`, and "<BBBHbb" for the older body without a config byte.
unfoldable pub status_of : Bytes → Reply
status_of (f ∷ c ∷ e ∷ b ∷ lo ∷ hi ∷ r ∷ s ∷ []) = status_reply (record {
  status_flags = f;
  config_byte = c;
  effect_id = e;
  brightness = b;
  vbat_mv = unpack_u16 lo hi;
  node_rssi = unpack_i8 r;
  node_snr = unpack_i8 s;
})
status_of (f ∷ e ∷ b ∷ lo ∷ hi ∷ r ∷ s ∷ []) = status_reply (record {
  status_flags = f;
  config_byte = 0;
  effect_id = e;
  brightness = b;
  vbat_mv = unpack_u16 lo hi;
  node_rssi = unpack_i8 r;
  node_snr = unpack_i8 s;
})
status_of body = status_raw body

unfoldable pub ack_of_body : Bytes → Reply
ack_of_body (a ∷ s ∷ []) = ack_reply (a % 128) s none
ack_of_body (a ∷ s ∷ q ∷ rest) = ack_reply (a % 128) s (some q)
ack_of_body body = ack_raw body

-- The chain of tests on the opcode.
unfoldable pub reply_of : ℕ → Bytes → Reply
unfolding identify_of status_of ack_of_body
reply_of opcode body =
    if opcode == 0x01
    then identify_of body
    else if opcode == 0x03
    then status_of body
    else if opcode == 0x7E
    then ack_of_body body
    else other_reply body

-- `data[7:-3]`: without the header and the three bytes that the gateway appends.
unfoldable pub frame_body : Bytes → Bytes
frame_body bytes = drop 7 (take (length bytes - 3) bytes)

unfoldable pub parse_reply_event : ℕ → Bytes → ℤ → ℤ → ReplyEvent
unfolding reply_of frame_body
parse_reply_event type_byte bytes rssi snr = record {
  type_byte = type_byte;
  dir = bit_and type_byte 0x80;
  opc = type_byte % 128;
  sender3 = take 3 (take 7 bytes);
  receiver3 = take 3 (drop 3 (take 7 bytes));
  host_rssi = rssi;
  host_snr = snr;
  reply = reply_of (type_byte % 128) (frame_body bytes);
}
