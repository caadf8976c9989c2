-- ===== src/Services/Unicast.antt =====
-- racelink/services/gateway_service.py: `send_and_wait_for_reply` and its retries. What the frame
-- brings about is a parameter, with a state of its own: the replies that the transport delivers
-- after it, with the milliseconds until each from the return of the send function, which blocks for
-- `send_ms`. After a match the service rests for `settle_ms`. The window of a broadcast opens, in
-- the model, when the send function returns. The transport is there, and its hooks are installed.
pub mod Retries
pub mod Answered
use gatecontrol_lora.Prelude.{
  ℕ, Bool, List, Option, Text, [], eq_bytes, false, if◌then◌else◌, leb, length, none, not, pos,
  pos_part, some, suc, true, wrap, zero, ℤ, ◌%◌, ◌&&◌, ◌+◌, ◌==◌, ◌||◌, ◌∷◌,
}
use gatecontrol_lora.Protocol.Struct.{Bytes}
use gatecontrol_lora.Protocol.Rules.{response_policy, response_opcode}
use gatecontrol_lora.Protocol.Codec.{ReplyEvent}
use gatecontrol_lora.Domain.Device.{Device, heard, mark_online}
use gatecontrol_lora.State.Repository.{get_by_addr}
use gatecontrol_lora.Services.Pending.{
  Registry, try_match, PendingRequest, cancel, eq_ℤ, new_request, register, resp_ack, resp_specific,
}
use gatecontrol_lora.Services.Replies.{event_of}
use gatecontrol_lora.Services.Gateway.{Host, received, change_device, to_hex}
use gatecontrol_lora.Services.Gateway.Events.{
  on_transport_event, ack_of_reply, acks, on_transport_tx,
}
use gatecontrol_lora.Services.Collect.{Arrival, Collection, Window, send_and_collect}

pub record Channel (W : Type 0) : Type 0 where
  pub world : W
  pub host : Host
  pub clock : ℕ
  pub frames_sent : ℕ
  pub next_ident : ℕ

-- A unicast request: the receiver, the opcode, and the frame on the air.
pub record Request (W : Type 0) : Type 0 where
  pub recv3 : Bytes
  pub opcode : ℕ
  pub send_ms : ℕ
  pub settle_ms : ℕ
  pub send_fn : W → List Arrival × W

-- The listener of the gateway service hears every reply.
unfoldable pub listen : ℕ → List Arrival → Host → Host
unfolding on_transport_event
listen clock [] host = host
listen clock (a ∷ rest) host =
    listen clock rest (on_transport_event (clock + a.at_ms) (received a.event) host)

abbrev pub is_for : ℕ → Option PendingRequest → Bool
is_for ident none = false
is_for ident (some r) = r.ident == ident

-- The wait for the event of the request: the reply and its time, and what is yet to come.
unfoldable pub wait_done : ℕ → ℕ → ℕ → List Arrival → Host → Option Arrival × Host × List Arrival
unfolding on_transport_event
wait_done clock timeout ident [] host = (none, host, [])
wait_done clock timeout ident (a ∷ rest) host =
    let heard = on_transport_event (clock + a.at_ms) (received a.event) host in
    let later = wait_done clock timeout ident rest heard in
    if leb a.at_ms timeout
    then (if is_for ident (try_match (event_of a.event) host.registry).0
        then (some a, heard, rest)
        else later)
    else (none, host, a ∷ rest)

-- The event loop's replies and whether there are any.
abbrev pub Answer : Type 0
Answer = List ReplyEvent × Bool

abbrev pub is_broadcast : Bytes → Bool
is_broadcast recv3 = length recv3 == 0 || eq_bytes recv3 (255 ∷ 255 ∷ 255 ∷ [])

-- The key under which the reply is awaited.
abbrev pub expected_key_of : ℕ → ℤ
expected_key_of opcode =
    if response_policy opcode == 1 then pos opcode else pos (wrap 128 (response_opcode opcode))

-- The predicate for a reply of any sender.
abbrev pub broadcast_pred : ℕ → ReplyEvent → Bool
broadcast_pred opcode ev =
    if response_policy opcode == 1
    then ev.opc == 126 && acks (ack_of_reply ev.reply) opcode
    else if response_policy opcode == 2
    then eq_ℤ (pos ev.opc) (response_opcode opcode)
    else false

abbrev pub replies_of : Option Collection → List ReplyEvent × ℕ
replies_of none = ([], 0)
replies_of (some c) = (c.events, c.elapsed)

abbrev pub first_within : ℕ → Window
first_within timeout = record { expected = some 1; idle_timeout = 600; hard_deadline = timeout }

-- The device that was looked up before the frame was sent is online now.
abbrev pub mark_known : Option Text → ℕ → Host → Host
mark_known none now host = host
mark_known (some sender) now host = change_device sender (mark_online now) host

-- The receiver, where the host knows it.
abbrev pub known_sender : Text → Option Device → Option Text
known_sender sender none = none
known_sender sender (some dev) = some sender

module _ {W : Type 0} where
  -- The frame goes out, and the listener of sent frames hears of it.
  abbrev pub transmit : Request W → Channel W → List Arrival × Channel W
  transmit req st =
      let (arrivals, world) = req.send_fn st.world in
      (
        arrivals,
        record st {
          world = world;
          clock = st.clock + req.send_ms;
          host = on_transport_tx req.recv3 req.opcode st.host;
          frames_sent = suc st.frames_sent;
        },
      )

  -- The end of a wait: the request is cancelled in any case, a node that has answered is online.
  abbrev pub conclude_wait :
      PendingRequest
      → Option Text
      → (timeout settle : ℕ) → Channel W
      → Option Arrival × Host × List Arrival
      → Answer × Channel W
  conclude_wait req sender timeout settle st (none, host, rest) = (
    ([], false),
    record st {
      host = listen st.clock rest (record host { registry = cancel req host.registry });
      clock = st.clock + timeout;
    },
  )
  conclude_wait req sender timeout settle st (some a, host, rest) = (
    (a.event ∷ [], true),
    record st {
      host = listen st.clock rest (
          mark_known sender (st.clock + a.at_ms)
            (record host { registry = cancel req host.registry }));
      clock = st.clock + a.at_ms + settle;
    },
  )

  abbrev pub receiver_of : Request W → Channel W → Option Text
  receiver_of req st =
      known_sender (to_hex req.recv3) (get_by_addr (to_hex req.recv3) st.host.devices)

  abbrev pub wait_registered : PendingRequest → ℕ → Request W → Channel W → Answer × Channel W
  wait_registered pending timeout req st =
      let registered : Channel W = record st {
        host = record st.host { registry = register pending st.host.registry };
        next_ident = suc st.next_ident;
      } in
      let (arrivals, sent) = transmit req registered in
      conclude_wait pending (receiver_of req st) timeout req.settle_ms sent
        (wait_done sent.clock timeout pending.ident arrivals sent.host)

  abbrev pub pending_of : Request W → Channel W → PendingRequest
  pending_of req st =
      let opcode = req.opcode % 128 in
      new_request st.next_ident req.recv3 (expected_key_of opcode)
        (if response_policy opcode == 1 then resp_ack else resp_specific)

  abbrev pub conclude_broadcast :
      List Arrival → Channel W → List ReplyEvent × ℕ → Answer × Channel W
  conclude_broadcast arrivals sent (replies, elapsed) = (
    (replies, not (length replies == 0)),
    record sent { host = listen sent.clock arrivals sent.host; clock = sent.clock + elapsed },
  )

  abbrev pub wait_broadcast : ℕ → Request W → Channel W → Answer × Channel W
  wait_broadcast timeout req st =
      let (arrivals, sent) = transmit req st in
      conclude_broadcast arrivals sent (
        replies_of
          (send_and_collect (first_within timeout) (broadcast_pred (req.opcode % 128)) arrivals))

  abbrev pub send_only : Request W → Channel W → Answer × Channel W
  send_only req st =
      let (arrivals, sent) = transmit req st in
      (([], false), record sent { host = listen sent.clock arrivals sent.host })

  unfoldable pub send_and_wait_for_reply : ℕ → Request W → Channel W → Answer × Channel W
  unfolding response_policy response_opcode listen wait_done send_and_collect on_transport_tx
      register cancel mark_online to_hex get_by_addr
  send_and_wait_for_reply timeout req st =
      if response_policy (req.opcode % 128) == 0
      then send_only req st
      else if is_broadcast req.recv3
      then wait_broadcast timeout req st
      else wait_registered (pending_of req st) timeout req st

  -- The loop over the attempts; the delay is slept between two of them.
  unfoldable pub retry_loop :
      ℕ → ℕ → ℕ → Request W → List ReplyEvent → Channel W → Answer × Channel W
  unfolding send_and_wait_for_reply
  retry_loop zero per delay req last st = ((last, false), st)
  retry_loop (suc left) per delay req last st =
      let (answer, tried) = send_and_wait_for_reply per req st in
      let slept : Channel W =
        if left == 0 then tried else record tried { clock = tried.clock + delay } in
      let rest = retry_loop left per delay req answer.0 slept in
      if answer.1 then (answer, tried) else rest

  unfoldable pub send_and_wait_with_retries : ℤ → ℕ → ℕ → Request W → Channel W → Answer × Channel W
  unfolding retry_loop
  send_and_wait_with_retries attempts per delay req st =
      retry_loop (if leb (pos_part attempts) 0 then 1 else pos_part attempts) per delay req [] st
