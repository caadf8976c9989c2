-- ===== src/Services/Stream.antt =====
-- racelink/services/gateway_service.py, `send_stream`, and services/stream_service.py, which passes
-- its arguments on. The replies after each attempt are an argument. The pause between two attempts
-- changes nothing here, the events drained before the first one have had their listeners, and
-- no reply is heard between the end of a window and the removal of its listener.
pub mod Attempts
use gatecontrol_lora.Protocol.Codec.{
  Reply, ReplyEvent, ack_reply, ack_raw, status_reply, status_raw, identify_reply, identify_raw,
  other_reply,
}
use gatecontrol_lora.Transport.Serial.Wrappers
use gatecontrol_lora.Services.Unicast.{replies_of}
use gatecontrol_lora.Services.Scenes.Slug.{has_text}
use gatecontrol_lora.Services.Control.{all_nodes}
use gatecontrol_lora.Protocol.Struct.{Bytes}
use gatecontrol_lora.Domain.Device.{Device}
use gatecontrol_lora.Transport.Address.{mac_last3_from_hex}
use gatecontrol_lora.Transport.Serial.Send.{SendRequest}
use gatecontrol_lora.Services.Pending.{eq_ℤ}
use gatecontrol_lora.Services.Status.{add_text}
use gatecontrol_lora.Protocol.Codec.{Reply, ReplyEvent}
use gatecontrol_lora.Services.Collect.{
  compute_collect_max_timeout, send_and_collect, Window, Arrival, after,
}
use gatecontrol_lora.Prelude.{
  ℕ, Bool, List, Option, Result, [], false, if◌then◌else◌, keep, leb, length, none, not, ok, err,
  some, suc, zero, ℤ, ◌&&◌, ◌++◌, ◌∷◌, ◌==◌, ◌>>=◌, pos, pos_part, ltb, value_error, eq_bytes, all,
  true,
}

-- The addresses of the targets, as a set.
unfoldable pub last3_set : List Device → Result (List Bytes)
unfolding mac_last3_from_hex add_text
last3_set [] = ok []
last3_set (d ∷ ds) = do
  rest ← last3_set ds
  mac ← mac_last3_from_hex d.addr
  ok (if length d.addr == 0 then rest else add_text mac rest)

unfoldable pub stream_targets : Option Device → Option ℤ → List Device → Result (List Device)
unfolding eq_ℤ
stream_targets none none devices = err value_error
stream_targets none (some g) devices = ok (keep (λ d. eq_ℤ d.group_id g) devices)
stream_targets (some d) group devices = ok (d ∷ [])

-- `target_last3.discard(b"\xFF\xFF\xFF")`
unfoldable pub discard_broadcast : List Bytes → List Bytes
discard_broadcast = keep (λ t. not (eq_bytes t all_nodes))

abbrev pub is_stream_ack : Reply → Bool
is_stream_ack (ack_reply a s q) = a == 7
is_stream_ack (ack_raw b) = false
is_stream_ack (status_reply s) = false
is_stream_ack (status_raw b) = false
is_stream_ack (identify_reply v c g m) = false
is_stream_ack (identify_raw b) = false
is_stream_ack (other_reply b) = false

-- `_collect`
unfoldable pub stream_pred : List Bytes → ReplyEvent → Bool
stream_pred targets ev = ev.opc == 126 && is_stream_ack ev.reply && has_text targets ev.sender3

unfoldable pub add_acked : List ReplyEvent → List Bytes → List Bytes
unfolding add_text
add_acked [] acked = acked
add_acked (ev ∷ evs) acked = add_acked evs (add_text ev.sender3 acked)

unfoldable pub stream_window : ℕ → ℕ → Window
unfolding compute_collect_max_timeout
stream_window expected ceiling = record {
  expected = some expected;
  idle_timeout = 600;
  hard_deadline = compute_collect_max_timeout (pos expected) ceiling;
}

-- The frames handed over, and the nodes that have acknowledged one.
pub record Streaming : Type 0 where
  pub frames : List SendRequest
  pub acked : List Bytes

-- One attempt.
unfoldable pub stream_attempt :
    Window → List Bytes → SendRequest → List Arrival → Streaming → Streaming
unfolding stream_pred add_acked send_and_collect
stream_attempt w targets frame arrivals st = record {
  frames = frame ∷ st.frames;
  acked = add_acked (replies_of (send_and_collect w (stream_pred targets) arrivals)).0 st.acked;
}

-- The attempts that are left; `arrivals` has the replies after each one.
unfoldable pub stream_attempts :
    ℕ → ℕ → Window → List Bytes → SendRequest → (ℕ → List Arrival) → Streaming → Streaming
unfolding stream_attempt
stream_attempts zero attempt w targets frame arrivals st = st
stream_attempts (suc left) attempt w targets frame arrivals st =
    let after = stream_attempt w targets frame (arrivals attempt) st in
    let rest = stream_attempts left (suc attempt) w targets frame arrivals after in
    if leb (length targets) (length after.acked) then after else rest

pub data StreamResult : Type 0 where
  stream_not_ready : StreamResult
  streamed : (expected : ℕ) → Streaming → StreamResult

abbrev pub no_frames : Streaming
no_frames = record { frames = []; acked = [] }

-- The receiver of the frames; `none` where the device's address is the broadcast one.
abbrev pub stream_receiver : Option Device → Result (Option Bytes)
stream_receiver none = ok (some all_nodes)
stream_receiver (some d) = do
  mac ← mac_last3_from_hex d.addr
  ok (if eq_bytes mac all_nodes then none else some mac)

abbrev pub stream_to : ℕ → ℕ → Bytes → List Bytes → (ℕ → List Arrival) → Option Bytes → StreamResult
stream_to retries timeout payload targets arrivals none = streamed (length targets) no_frames
stream_to retries timeout payload targets arrivals (some recv3) = streamed (length targets) (
    stream_attempts (suc retries) 0 (stream_window (length targets) timeout) targets
      (Wrappers.send_stream recv3 payload) arrivals no_frames)

-- `send_stream`
unfoldable pub send_stream :
    Bool
    → Bytes
    → Option ℤ
    → Option Device
    → ℕ
    → ℕ
    → List Device
    → (ℕ → List Arrival)
    → Result StreamResult
unfolding stream_targets last3_set discard_broadcast stream_attempts stream_window
    mac_last3_from_hex
send_stream false payload group device retries timeout devices arrivals = ok stream_not_ready
send_stream true payload group device retries timeout devices arrivals =
    if ltb 128 (length payload) then err value_error else do
      targets ← stream_targets device group devices
      all ← last3_set targets
      recv3 ← stream_receiver device
      let known = discard_broadcast all
      ok (
          if length known == 0
          then streamed 0 no_frames
          else stream_to retries timeout payload known arrivals recv3)
