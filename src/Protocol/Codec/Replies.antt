-- ===== src/Protocol/Codec/Replies.antt =====
-- What racelink/protocol/codec.py reads from the frames of a node that packs its replies by the
-- layouts of racelink_proto.h.
use gatecontrol_lora.Prelude.{
  ℕ, [], ap, length, length-append, refl, take, ◌++◌, ◌+◌, ◌∷◌, ◌≡◌, Option, arith, byte, negsuc,
  none, pos, some, suc, ℤ, ◌%◌, ◌-◌, ◌/◌, ◌≤ℤ◌,
}
use gatecontrol_lora.Protocol.Struct.{Bytes, unpack_i8, unpack_u16}
use gatecontrol_lora.Protocol.Codec.{
  frame_body, StatusReply, ack_of_body, ack_reply, parse_reply_event, reply_of, status_of,
  status_reply,
}

-- A frame: sender, receiver, type byte, body, and what the gateway appends.
abbrev pub frame : ℕ × ℕ × ℕ → ℕ × ℕ × ℕ → ℕ → Bytes → ℕ × ℕ × ℕ → Bytes
frame (a, b, c) (d, e, f) type_byte body (x, y, z) =
    a ∷ b ∷ c ∷ d ∷ e ∷ f ∷ type_byte ∷ (body ++ x ∷ y ∷ z ∷ [])

length-frame_tail : (body : Bytes) (x y z : ℕ) → length (body ++ x ∷ y ∷ z ∷ []) ≡ length body + 3
length-frame_tail body x y z = length-append body (x ∷ y ∷ z ∷ [])

take_body : (body tail : Bytes) → take (length body) (body ++ tail) ≡ body
take_body [] tail = refl
take_body (b ∷ bs) tail = ap (λ t. b ∷ t) (take_body bs tail)

frame_body-frame :
    (s r : ℕ × ℕ × ℕ) (type_byte : ℕ) (body : Bytes) (t : ℕ × ℕ × ℕ)
    → frame_body (frame s r type_byte body t) ≡ body
unfolding frame_body
frame_body-frame s r type_byte body (x, y, z) =
    let n = length body in
    let e : suc (suc (suc (suc (suc (suc (suc (n + 3))))))) - 3
        ≡ suc (suc (suc (suc (suc (suc (suc n)))))) =
      omega arith in
    rw (length-frame_tail body x y z) (rw e (take_body body (x ∷ y ∷ z ∷ [])))

-- The node's P_StatusReply: "<BBBBHbb".
abbrev pub status_body : StatusReply → Bytes
status_body st =
    st.status_flags
    ∷ st.config_byte
    ∷ st.effect_id
    ∷ st.brightness
    ∷ (st.vbat_mv % 256)
    ∷ (st.vbat_mv / 256)
    ∷ byte st.node_rssi
    ∷ byte st.node_snr
    ∷ []

abbrev pub IsI8 : ℤ → Type 0
IsI8 v = (negsuc 127 ≤ℤ v) × (v ≤ℤ pos 127)

unpack_i8-byte : (v : ℤ) → IsI8 v → unpack_i8 (byte v) ≡ v
unpack_i8-byte (pos n) h = ground arith
unpack_i8-byte (negsuc n) h = ground arith

unpack_u16-halves : (n : ℕ) → unpack_u16 (n % 256) (n / 256) ≡ n
unpack_u16-halves n = omega arith

-- A status reply that a node packs by the layout of P_StatusReply is read back as it was, with
-- the node's address as the sender, whatever the direction bit of the type byte. The signal
-- values are signed bytes.
pub parse_reply_event-status :
    (s r : ℕ × ℕ × ℕ) (type_byte : ℕ) (st : StatusReply) (t : ℕ × ℕ × ℕ) (rssi snr : ℤ)
    → type_byte % 128 ≡ 3
    → IsI8 st.node_rssi
    → IsI8 st.node_snr
    → ((parse_reply_event type_byte (frame s r type_byte (status_body st) t) rssi snr).reply
        ≡ status_reply st)
      × ((parse_reply_event type_byte (frame s r type_byte (status_body st) t) rssi snr).sender3
          ≡ s.0 ∷ s.1 ∷ s.2 ∷ [])
unfolding parse_reply_event reply_of status_of
parse_reply_event-status s r type_byte st t rssi snr o a b = (
  rw (frame_body-frame s r type_byte (status_body st) t) (
      rw o (
        rw
          (
            unpack_u16-halves st.vbat_mv,
            unpack_i8-byte st.node_rssi a,
            unpack_i8-byte st.node_snr b,
          )
          refl)),
  refl,
)

-- The body of an ACK: the acknowledged opcode, a status, and perhaps a sequence number.
abbrev pub ack_body : ℕ → ℕ → Option ℕ → Bytes
ack_body op status none = op ∷ status ∷ []
ack_body op status (some seq) = op ∷ status ∷ seq ∷ []

pub parse_reply_event-ack :
    (s r : ℕ × ℕ × ℕ) (type_byte op status : ℕ) (seq : Option ℕ) (t : ℕ × ℕ × ℕ) (rssi snr : ℤ)
    → type_byte % 128 ≡ 126
    → (parse_reply_event type_byte (frame s r type_byte (ack_body op status seq) t) rssi snr).reply
      ≡ ack_reply (op % 128) status seq
unfolding parse_reply_event reply_of ack_of_body
parse_reply_event-ack s r type_byte op status none t rssi snr o =
    rw (frame_body-frame s r type_byte (ack_body op status none) t) (rw o refl)
parse_reply_event-ack s r type_byte op status (some seq) t rssi snr o =
    rw (frame_body-frame s r type_byte (ack_body op status (some seq)) t) (rw o refl)
