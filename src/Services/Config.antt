-- ===== src/Services/Config.antt =====
-- racelink/services/gateway_service.py, `send_config`, and services/config_service.py, which passes
-- its arguments on: a register of a node is set. What follows a frame is a parameter, as for the
-- waits of Services.Unicast. A numeric value is any integer.
pub mod Waits
use gatecontrol_lora.Services.Unicast.{
  Answer, Channel, Request, send_and_wait_with_retries, send_only,
}
use gatecontrol_lora.Services.Control.{all_nodes}
use gatecontrol_lora.Services.Collect.{Arrival}
use gatecontrol_lora.State.Repository.{get_by_addr}
use gatecontrol_lora.Services.Gateway.{stash_pending_config, Host, to_hex, change_object}
use gatecontrol_lora.Domain.Device.{Device, ack_clear}
use gatecontrol_lora.Transport.Serial.Send.{SendRequest}
use gatecontrol_lora.Protocol.Struct.{Bytes}
use gatecontrol_lora.Protocol.Codec.{
  Reply, ReplyEvent, ack_reply, ack_raw, status_reply, status_raw, identify_reply, identify_raw,
  other_reply,
}
use gatecontrol_lora.Prelude.{
  ℕ, Bool, List, Option, [], false, if◌then◌else◌, none, some, suc, true, ℤ, ◌∷◌, ◌==◌, pos, byte,
  or_else, eq_bytes, length, ◌&&◌, not,
}
use gatecontrol_lora.Transport.Serial.Wrappers

-- The six values of a configuration packet.
pub record ConfigValues : Type 0 where
  pub option : ℤ
  pub data0 : ℤ
  pub data1 : ℤ
  pub data2 : ℤ
  pub data3 : ℤ

unfoldable pub config_frame : Bytes → ConfigValues → SendRequest
config_frame recv3 v =
    Wrappers.send_config recv3 (pos (byte v.option)) (pos (byte v.data0)) (pos (byte v.data1))
      (pos (byte v.data2)) (pos (byte v.data3))

-- `bool(int(ev.get("ack_status", 1)) == 0)`
abbrev pub is_accepted : Reply → Bool
is_accepted (ack_reply a s q) = s == 0
is_accepted (ack_raw b) = false
is_accepted (status_reply s) = false
is_accepted (status_raw b) = false
is_accepted (identify_reply v c g m) = false
is_accepted (identify_raw b) = false
is_accepted (other_reply b) = false

-- The last of the replies.
unfoldable pub accepted_last : List ReplyEvent → Bool
accepted_last [] = false
accepted_last (ev ∷ []) = is_accepted ev.reply
accepted_last (ev ∷ ev' ∷ evs) = accepted_last (ev' ∷ evs)

-- The frame is for one node: `recv3_hex and recv3_hex != "FFFFFF"`.
abbrev pub is_one_node : Bytes → Bool
is_one_node recv3 = not (length recv3 == 0) && not (eq_bytes recv3 all_nodes)

abbrev pub known_device : Bytes → Host → Option Device
known_device recv3 host =
    if is_one_node recv3 then get_by_addr (to_hex recv3) host.devices else none

abbrev pub clear_known : Bool → Option Device → Host → Host
clear_known wait none host = host
clear_known wait (some dev) host = if wait then change_object dev.addr ack_clear host else host

-- The value stashed for the ACK, and the old ACK cleared.
unfoldable pub prepare_config : Bool → Bytes → ConfigValues → Host → Host
unfolding stash_pending_config get_by_addr ack_clear to_hex
prepare_config wait recv3 v host =
    if is_one_node recv3
    then clear_known wait (known_device recv3 host)
        (stash_pending_config (to_hex recv3) (byte v.option) (byte v.data0) host)
    else host

-- The time that a send blocks, and the rest after a match, are arguments.
module _ {W : Type 0} (send_ms settle_ms : ℕ) (send : SendRequest → W → List Arrival × W) where
  abbrev pub config_request : Bytes → ConfigValues → Request W
  config_request recv3 v = record {
    recv3 = recv3;
    opcode = 5;
    send_ms = send_ms;
    settle_ms = settle_ms;
    send_fn = send (config_frame recv3 v);
  }

  -- The result of the wait, which is for 1.5 seconds where the call gives no time.
  abbrev pub concluded : Answer × Channel W → Option Bool × Channel W
  concluded ((events, flag), st) = (some (accepted_last events), st)

  abbrev pub config_waited :
      Option ℕ → Bytes → ConfigValues → Option Device → Channel W → Option Bool × Channel W
  config_waited timeout recv3 v none st = (some false, (send_only (config_request recv3 v) st).1)
  config_waited timeout recv3 v (some dev) st =
      concluded
        (send_and_wait_with_retries (pos 3) (or_else timeout 1500) 100 (config_request recv3 v) st)

  -- `send_config`
  unfoldable pub send_config :
      Bool → Bool → Option ℕ → Bytes → ConfigValues → Channel W → Option Bool × Channel W
  unfolding prepare_config config_frame accepted_last send_and_wait_with_retries
  send_config false false timeout recv3 v st = (none, st)
  send_config false true timeout recv3 v st = (some false, st)
  send_config true false timeout recv3 v st =
      let ready : Channel W = record st { host = prepare_config false recv3 v st.host } in
      (some true, (send_only (config_request recv3 v) ready).1)
  send_config true true timeout recv3 v st =
      let ready : Channel W = record st { host = prepare_config true recv3 v st.host } in
      config_waited timeout recv3 v (known_device recv3 st.host) ready
