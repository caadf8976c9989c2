-- ===== src/Transport/Serial.antt =====
-- racelink/transport/gateway_serial.py: the state of the link that its reader thread and its
-- senders share, and what the reader does with a whole frame. Left out are time stamps, log lines
-- and the `detail` texts of an outcome; what the listeners hear is kept as a list.
pub mod Reader
pub mod Framing
pub mod Outcome
pub mod Queue
pub mod Send
pub mod Sent
pub mod Wrappers
pub mod Ack
use gatecontrol_lora.Prelude.{
  ℕ, Bool, List, Option, [], bit_and, drop, false, get_elem?, if◌then◌else◌, length, ltb, none, not,
  or_else, pos, some, true, ℤ, ◌%◌, ◌*◌, ◌++◌, ◌+◌, ◌-◌, ◌==◌, ◌||◌, ◌∷◌,
}
use gatecontrol_lora.Protocol.Struct.{Bytes, unpack_i16, unpack_i8}
use gatecontrol_lora.Protocol.Codec.{ReplyEvent, parse_reply_event}

-- `SendOutcome.code`
pub data OutcomeCode : Type 0 where
  success_code rejected_code timeout_code usb_error_code : OutcomeCode

-- `SendOutcome`
pub record SendOutcome : Type 0 where
  pub is_ok : Bool
  pub code : OutcomeCode
  pub reason : ℕ

abbrev pub success : SendOutcome
success = record { is_ok = true; code = success_code; reason = 0 }

abbrev pub rejected : ℕ → SendOutcome
rejected reason = record { is_ok = false; code = rejected_code; reason = reason % 256 }

abbrev pub timeout : SendOutcome
timeout = record { is_ok = false; code = timeout_code; reason = 0 }

abbrev pub usb_error : SendOutcome
usb_error = record { is_ok = false; code = usb_error_code; reason = 0 }

-- `TX_REJECT_REASON_NAME`
pub data RejectName : Type 0 where
  tx_pending oversize zero_len unknown : RejectName

-- `TX_REJECT_REASON_NAME.get(reason, "unknown")`
unfoldable pub reject_name : ℕ → RejectName
reject_name reason =
    if reason == 1
    then tx_pending
    else if reason == 2
    then oversize
    else if reason == 3
    then zero_len
    else unknown

-- `SendOutcome.reason_name`; `none` is the empty text.
unfoldable pub reason_name : SendOutcome → Option RejectName
unfolding reject_name
reason_name o = elim o.code [ rejected_code ↦ some (reject_name o.reason) | _ ↦ none ]

-- `GATEWAY_STATE_NAME`
pub data StateName : Type 0 where
  idle_name tx_name rx_window_name rx_name error_name unknown_name : StateName

-- `GATEWAY_STATE_NAME.get(state_byte, "UNKNOWN")`
unfoldable pub gateway_state_name : ℕ → StateName
gateway_state_name b =
    if b == 0
    then idle_name
    else if b == 1
    then tx_name
    else if b == 2
    then rx_window_name
    else if b == 3
    then rx_name
    else if b == 0xFE
    then error_name
    else unknown_name

-- An event for the RX listeners; `link_lost` is the one of `_handle_disconnect`.
pub data RxEvent : Type 0 where
  tx_done : (last_len : ℕ) → RxEvent
  tx_rejected : (type_full opc reason : ℕ) → RejectName → RxEvent
  state_event : (type_byte state_byte : ℕ) → StateName → (metadata_ms : ℕ) → RxEvent
  gateway_error : Bytes → RxEvent
  link_lost : RxEvent
  reply_event : ReplyEvent → RxEvent

-- An event for the TX listeners.
pub data TxEvent : Type 0 where
  tx_m2n : (type_full dir opc : ℕ) (recv3 : Bytes) (body_len : ℕ) → TxEvent
  tx_outcome :
      (type_full dir opc : ℕ) (recv3 : Bytes)
      → OutcomeCode
      → (reason : ℕ) → Option RejectName
      → TxEvent

-- `GatewaySerialTransport`: the outcome slot is `none` with no send in flight, and holds `none`
-- until the outcome is known; `heard` and `tx_heard` are what the listeners were given.
pub record Link : Type 0 where
  pub slot : Option (Option SendOutcome)
  pub queue : List RxEvent
  pub heard : List RxEvent
  pub tx_heard : List TxEvent
  pub written : List Bytes
  pub state_byte : ℕ
  pub metadata_ms : ℕ
  pub stopped : Bool

-- `self._qmax`
abbrev pub qmax : ℕ
qmax = 1000

-- `__init__`, with `_reader` started
abbrev pub new_link : Link
new_link = record {
  slot = none;
  queue = [];
  heard = [];
  tx_heard = [];
  written = [];
  state_byte = 0xFF;
  metadata_ms = 0;
  stopped = false;
}

-- `_emit`: a full queue drops the event, the listeners hear it all the same.
unfoldable pub emit : RxEvent → Link → Link
emit ev l = record l {
  queue = if ltb (length l.queue) qmax then l.queue ++ ev ∷ [] else l.queue;
  heard = l.heard ++ ev ∷ [];
}

-- `_emit_tx`
unfoldable pub emit_tx : TxEvent → Link → Link
emit_tx ev l = record l { tx_heard = l.tx_heard ++ ev ∷ [] }

-- The slot after an outcome: dropped with no send in flight, kept where one is already there.
unfoldable pub fulfilled : SendOutcome → Option (Option SendOutcome) → Option (Option SendOutcome)
fulfilled o none = none
fulfilled o (some none) = some (some o)
fulfilled o (some (some first)) = some (some first)

-- `_fulfill_pending_outcome`
unfoldable pub fulfill_pending_outcome : SendOutcome → Link → Link
unfolding fulfilled
fulfill_pending_outcome o l = record l { slot = fulfilled o l.slot }

-- `_update_gateway_state`
unfoldable pub update_gateway_state : ℕ → ℕ → Link → Link
update_gateway_state state metadata l = record l {
  state_byte = state % 256;
  metadata_ms = metadata % 65536;
}

-- `_parse_state_event_body`
unfoldable pub parse_state_event_body : Bytes → ℕ × ℕ
parse_state_event_body [] = (0xFF, 0)
parse_state_event_body (s ∷ []) = (s, 0)
parse_state_event_body (s ∷ m ∷ []) = (s, m)
parse_state_event_body (s ∷ lo ∷ hi ∷ rest) = (s, lo + hi * 256)

-- `data[i] if len(data) > i else default`
abbrev pub byte_at : Bytes → ℕ → ℕ → ℕ
byte_at bytes i default = or_else (get_elem? bytes i) default

unfoldable pub handle_rejected : Bytes → Link → Link
unfolding emit fulfill_pending_outcome reject_name
handle_rejected bytes l =
    let type_full = byte_at bytes 0 0 in
    let reason = byte_at bytes 1 0xFF in
    emit (tx_rejected type_full (type_full % 128) reason (reject_name reason))
      (fulfill_pending_outcome (rejected reason) l)

unfoldable pub handle_state : ℕ → Bytes → Link → Link
unfolding emit update_gateway_state parse_state_event_body gateway_state_name
handle_state type_byte bytes l =
    let state = (parse_state_event_body bytes).0 in
    let metadata = (parse_state_event_body bytes).1 in
    emit (state_event type_byte state (gateway_state_name state) metadata)
      (update_gateway_state state metadata l)

-- The signal values that the gateway appends to a node's frame: `u16le(data[-3:-1])` read as a
-- signed word, and a signed byte.
unfoldable pub trailer_signal : Bytes → ℤ × ℤ
trailer_signal (lo ∷ hi ∷ snr ∷ []) = (unpack_i16 lo hi, unpack_i8 snr)
trailer_signal _ = (pos 0, pos 0)

unfoldable pub handle_reply : ℕ → Bytes → Link → Link
unfolding emit trailer_signal
handle_reply type_byte bytes l =
    let signal = trailer_signal (drop (length bytes - 3) bytes) in
    if not (bit_and type_byte 0x80 == 0x80)
    then l
    else if ltb (length bytes) 10
    then l
    else emit (reply_event (parse_reply_event type_byte bytes (signal.0) (signal.1))) l

-- `_handle_frame`
unfoldable pub handle_frame : ℕ → Bytes → Link → Link
unfolding emit fulfill_pending_outcome handle_rejected handle_state handle_reply
handle_frame type_byte bytes l =
    if type_byte == 0xF3
    then emit (tx_done (byte_at bytes 0 0)) (fulfill_pending_outcome success l)
    else if type_byte == 0xF4
    then handle_rejected bytes l
    else if type_byte == 0xF1 || type_byte == 0xF5
    then handle_state type_byte bytes l
    else if type_byte == 0xF0
    then emit (gateway_error bytes) (fulfill_pending_outcome usb_error l)
    else handle_reply type_byte bytes l

-- `self._handle_frame(buf[0], buf[1:])`
unfoldable pub handle_buffer : Bytes → Link → Link
unfolding handle_frame
handle_buffer [] l = l
handle_buffer (type_byte ∷ bytes) l = handle_frame type_byte bytes l

-- `_handle_disconnect`
unfoldable pub handle_disconnect : Link → Link
unfolding emit
handle_disconnect l = record (emit link_lost l) { stopped = true }
