-- ===== src/Services/Config/Waits.antt =====
-- How long racelink/services/gateway_service.py, `send_config`, keeps its caller.
use gatecontrol_lora.Domain.Device.{Device}
use gatecontrol_lora.Services.Config.{
  ConfigValues, config_request, config_waited, known_device, prepare_config, send_config,
}
use gatecontrol_lora.Protocol.Struct.{Bytes}
use gatecontrol_lora.Services.Collect.{Arrival, after}
use gatecontrol_lora.Transport.Serial.Send.{SendRequest}
use gatecontrol_lora.Services.Unicast.{Channel}
use gatecontrol_lora.Prelude.{
  ℕ, Bool, List, Option, all, arith, false, none, or_else, pos, some, true, ◌*◌, ◌+◌, ◌≤◌,
}
use gatecontrol_lora.Services.Unicast.Retries.{send_and_wait_with_retries-bounds}

-- At most three frames go out, and the call is over after the time of three attempts and two pauses.
abbrev pub IsBrief : {W : Type 0} → ℕ → Channel W → Channel W → Type 0
IsBrief per st after =
    (after.frames_sent ≤ st.frames_sent + 3) × (after.clock ≤ st.clock + 3 * per + 200)

module _ {W : Type 0} (send_ms settle_ms : ℕ) (send : SendRequest → W → List Arrival × W) where
  config_waited-IsBrief :
      (timeout : Option ℕ) (recv3 : Bytes) (v : ConfigValues) (dev : Option Device) (st : Channel W)
      → IsBrief
          (send_ms + or_else timeout 1500 + settle_ms)
          st
          (config_waited send_ms settle_ms send timeout recv3 v dev st).1
  config_waited-IsBrief timeout recv3 v none st = (omega arith, omega arith)
  config_waited-IsBrief timeout recv3 v (some dev) st =
      let (all, few, soon, honest) =
        send_and_wait_with_retries-bounds (pos 3) (or_else timeout 1500) 100
          (config_request send_ms settle_ms send recv3 v) st in
      (few, omega (arith, soon))

  -- A configuration packet is sent at most three times, whether its ACK is awaited or not, and the
  -- caller is kept no longer than 200 ms and three times the time that a send blocks, the timeout,
  -- which is 1.5 seconds where none is given, and the rest after a match.
  pub send_config-IsBrief :
      (ready wait : Bool) (timeout : Option ℕ) (recv3 : Bytes) (v : ConfigValues) (st : Channel W)
      → IsBrief
          (send_ms + or_else timeout 1500 + settle_ms)
          st
          (send_config send_ms settle_ms send ready wait timeout recv3 v st).1
  unfolding send_config
  send_config-IsBrief false false timeout recv3 v st = (omega arith, omega arith)
  send_config-IsBrief false true timeout recv3 v st = (omega arith, omega arith)
  send_config-IsBrief true false timeout recv3 v st = (omega arith, omega arith)
  send_config-IsBrief true true timeout recv3 v st =
      config_waited-IsBrief timeout recv3 v (known_device recv3 st.host)
        (record st { host = prepare_config true recv3 v st.host })
