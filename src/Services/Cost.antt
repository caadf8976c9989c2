-- ===== src/Services/Cost.antt =====
-- racelink/services/scene_cost_estimator.py: the packets, bytes and time that a scene will take.
-- Times are whole microseconds, in which the formula is exact at the parameters of the code
-- (SF 7, 125 kHz, CR 4/5, 8 preamble symbols, explicit header, CRC); the code rounds to floats.
pub mod Parity
use gatecontrol_lora.Prelude.{
  ℕ, List, Result, [], err, if◌then◌else◌, leb, none, ok, ◌*◌, ◌++◌, ◌+◌, ◌-◌, ◌/◌, ◌>>=◌, ◌∷◌,
}
use gatecontrol_lora.Services.WireOp.{WireOp}
use gatecontrol_lora.Services.Action.{Action, delay}
use gatecontrol_lora.Services.EffectPlan.{ActionDispatchPlan}
use gatecontrol_lora.Services.Planner.{plan_action}
use gatecontrol_lora.Services.Runner.{PlannerInputs}

abbrev pub radio_header_bytes : ℕ
radio_header_bytes = 7

abbrev pub usb_framing_bytes : ℕ
usb_framing_bytes = 2

abbrev pub wire_overhead_us : ℕ
wire_overhead_us = 12000

abbrev pub max_ℕ : ℕ → ℕ → ℕ
max_ℕ a b = if leb a b then b else a

-- `lora_airtime_ms`: a quarter symbol is 256 µs; 12.25 symbols and the payload's.
unfoldable pub lora_airtime_us : ℕ → ℕ
lora_airtime_us payload_bytes =
    let payload = max_ℕ 1 payload_bytes in
    let num = 8 * payload + 28 + 16 - 4 * 7 in
    let n_payload = (num + 27) / 28 * 5 + 8 in (49 + 4 * n_payload) * 256

pub record ActionCost : Type 0 where
  pub packets : ℕ
  pub total_bytes : ℕ
  pub airtime_us : ℕ
  pub wall_clock_us : ℕ

abbrev pub no_cost : ActionCost
no_cost = record { packets = 0; total_bytes = 0; airtime_us = 0; wall_clock_us = 0 }

unfoldable pub add_packet : ActionCost → ℕ → ActionCost
unfolding lora_airtime_us
add_packet cost body_bytes =
    let frame = body_bytes + radio_header_bytes in
    let airtime = lora_airtime_us frame in
    record {
      packets = cost.packets + 1;
      total_bytes = cost.total_bytes + (frame + usb_framing_bytes);
      airtime_us = cost.airtime_us + airtime;
      wall_clock_us = cost.wall_clock_us + (airtime + wire_overhead_us);
    }

-- The loop over the ops of a plan.
unfoldable pub add_ops : ActionCost → List WireOp → ActionCost
unfolding add_packet
add_ops cost [] = cost
add_ops cost (op ∷ ops) = add_ops (add_packet cost op.body_bytes) ops

abbrev pub cost_of_plan : Result ActionDispatchPlan → Result ActionCost
cost_of_plan (err e) = err e
cost_of_plan (ok plan) = ok (add_ops no_cost plan.ops)

-- A delay takes no packet and its own time.
unfoldable pub estimate_action : PlannerInputs → Action → Result ActionCost
unfolding plan_action add_ops
estimate_action inputs (delay ms) =
    ok (record { packets = 0; total_bytes = 0; airtime_us = ms * 1000; wall_clock_us = ms * 1000 })
estimate_action inputs action =
    cost_of_plan
      (plan_action inputs.known_group_ids inputs.rl_preset_lookup inputs.device_lookup none action)

abbrev pub add_cost : ActionCost → ActionCost → ActionCost
add_cost a b = record {
  packets = a.packets + b.packets;
  total_bytes = a.total_bytes + b.total_bytes;
  airtime_us = a.airtime_us + b.airtime_us;
  wall_clock_us = a.wall_clock_us + b.wall_clock_us;
}

pub record SceneCost : Type 0 where
  pub total : ActionCost
  pub per_action : List ActionCost

unfoldable pub estimate_actions : PlannerInputs → SceneCost → List Action → Result SceneCost
unfolding estimate_action
estimate_actions inputs out [] = ok out
estimate_actions inputs out (action ∷ rest) = do
  cost ← estimate_action inputs action
  estimate_actions inputs
      (record { total = add_cost out.total cost; per_action = out.per_action ++ cost ∷ [] }) rest

unfoldable pub estimate_scene : PlannerInputs → List Action → Result SceneCost
unfolding estimate_actions
estimate_scene inputs actions =
    estimate_actions inputs (record { total = no_cost; per_action = [] }) actions
