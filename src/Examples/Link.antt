-- ===== src/Examples/Link.antt =====
-- controller.py: the supervision of the gateway link on small inputs.
use gatecontrol_lora.Prelude.{List, [], codes, false, none, refl, some, true, ◌∷◌, ◌≡◌}
use gatecontrol_lora.Transport.Ports.{Discovery, discovered, raised}
use gatecontrol_lora.Controller.Gateway.{
  new_supervisor, probes, fires, retries, link_down, reconnects, shuts_down, auto, host_error,
  classify_gateway_error, SupervisorCall, call_run, call_step,
}
use gatecontrol_lora.Controller.Gateway.Inv.{Inv, call_run-Inv, new_supervisor-Inv}
use gatecontrol_lora.Controller.Gateway.Polling.{fires-found, timer_for, searches}

abbrev absent : Discovery
absent = record { opened = none; mac = none; had_busy_port = false }

abbrev held_port : Discovery
held_port = record { opened = none; mac = none; had_busy_port = true }

abbrev plugged : Discovery
plugged = record { opened = some (codes "COM3"); mac = none; had_busy_port = false }

abbrev calls : List SupervisorCall
calls =
    probes auto (discovered plugged)
    ∷ link_down true
    ∷ reconnects (discovered absent)
    ∷ fires (discovered held_port)
    ∷ retries (raised (codes "read error"))
    ∷ fires (discovered plugged)
    ∷ shuts_down
    ∷ []

call_run-Inv_example : Inv (call_run new_supervisor calls)
call_run-Inv_example = call_run-Inv new_supervisor calls new_supervisor-Inv

fires-found_example :
    ((call_run new_supervisor (searches absent (held_port ∷ absent ∷ []))).retry_timer
      ≡ some (timer_for 2))
    × ((call_step
          (call_run new_supervisor (searches absent (held_port ∷ absent ∷ [])))
          (fires (discovered plugged))).ready
        ≡ true)
    × ((call_step
          (call_run new_supervisor (searches absent (held_port ∷ absent ∷ [])))
          (fires (discovered plugged))).last_gateway_error
        ≡ none)
    × ((call_step
          (call_run new_supervisor (searches absent (held_port ∷ absent ∷ [])))
          (fires (discovered plugged))).retry_timer
        ≡ none)
    × ((call_step
          (call_run new_supervisor (searches absent (held_port ∷ absent ∷ [])))
          (fires (discovered plugged))).retry_attempt
        ≡ 0)
fires-found_example =
    fires-found new_supervisor absent (held_port ∷ absent ∷ []) plugged (codes "COM3") refl refl
      (refl, (refl, tt)) refl

-- The text of pyserial for a configured port that is unplugged is no code that is tried again.
unplugged_test :
    classify_gateway_error (
      codes
        "SerialException: could not open port /dev/ttyACM0: No such file or directory: '/dev/ttyACM0'")
    ≡ host_error
unfolding classify_gateway_error
unplugged_test = refl
