-- ===== src/Examples/Control.antt =====
-- racelink/services/control_service.py on small inputs.
use gatecontrol_lora.Protocol.Control.Layout.{decoded}
use gatecontrol_lora.Protocol.Control.Reader.{read_control}
use gatecontrol_lora.Transport.Serial.Send.{SendRequest}
use gatecontrol_lora.Transport.Address.{mac_last3_from_hex, from_hex, hex_value}
use gatecontrol_lora.Prelude.{
  Option, [], codes, false, length, map, none, ok, pos, refl, some, true, ◌∷◌, ◌≡◌,
}
use gatecontrol_lora.Protocol.Control.{ControlFields}
use gatecontrol_lora.Domain.Flags.{FlagMapping}
use gatecontrol_lora.Domain.Device.{Device, new_device}
use gatecontrol_lora.Domain.Params.{EffectParams, PresetRef, by_id, by_key}
use gatecontrol_lora.Services.WireOp.{WireOp, effect_payload, target_group, target_device}
use gatecontrol_lora.Services.Action.{EffectAction, wled_control, rl_preset, to_groups}
use gatecontrol_lora.Services.EffectPlan.{
  ActionDispatchPlan, Preset, no_flags, build_effect_op, plan_effect, resolve_target,
}
use gatecontrol_lora.Services.Control.{
  Sending, send_wled_control, send_rl_preset_by_id, recv3_of, hand_over,
}
use gatecontrol_lora.Services.Control.Planned.{
  send_wled_control-planned, send_rl_preset_by_id-planned, sent_flags, sent_group, payload_of,
}

abbrev lamp : Device
lamp = record (new_device (codes "aabbcc:0a0b0c") (pos 11)) { group_id = pos 3 }

abbrev red : ControlFields
red = record {
  brightness = some (pos 200);
  mode = some (pos 9);
  speed = none;
  intensity = some (pos 300);
  custom1 = none;
  custom2 = none;
  custom3 = none;
  check1 = some true;
  check2 = none;
  check3 = none;
  palette = none;
  color1 = some (record { red = pos 255; green = pos 0; blue = pos 0 });
  color2 = none;
  color3 = none;
}

abbrev red_params : EffectParams
red_params = record { preset_id = some (by_id (pos 7)); fields = red; user_flags = no_flags }

abbrev nothing_sent : Sending
nothing_sent = record { requests = []; devices = lamp ∷ [] }

lamp_address : recv3_of (target_device lamp) ≡ ok (10 ∷ 11 ∷ 12 ∷ [])
unfolding recv3_of mac_last3_from_hex from_hex hex_value
lamp_address = refl

send_wled_control-planned_example :
    (op : WireOp) × (q : SendRequest) × (build_effect_op wled_control red_params
        (target_device lamp)
      ≡ ok op)
    × (send_wled_control true (some (target_device lamp)) red_params nothing_sent
        ≡ ok (true, hand_over q nothing_sent))
    × (q.recv3 ≡ 10 ∷ 11 ∷ 12 ∷ [])
    × (q.type_full ≡ 8)
    × (length q.body ≡ op.body_bytes)
    × (read_control q.body
        ≡ some (
          decoded red_params.fields (sent_group (target_device lamp)) (sent_flags red_params),
          [],
        ))
send_wled_control-planned_example =
    send_wled_control-planned red_params (target_device lamp) (10 ∷ 11 ∷ 12 ∷ []) nothing_sent
      lamp_address

abbrev armed : FlagMapping
armed = record no_flags { raw_arm_on_sync = some true; raw_force_tt0 = some false }

abbrev stored_red : Preset
stored_red = record {
  preset_params = record { preset_id = none; fields = red; user_flags = no_flags };
  preset_flags = armed;
}

abbrev finds_red : PresetRef → Option Preset
finds_red (by_id n) = some stored_red
finds_red (by_key k) = none

abbrev apply_red : EffectAction
apply_red = record {
  effect_kind = rl_preset;
  target = to_groups (3 ∷ 5 ∷ []);
  params = red_params;
  flags_override = no_flags;
}

red_targets : resolve_target apply_red.target none ≡ some (target_group 3 ∷ target_group 5 ∷ [])
unfolding resolve_target
red_targets = refl

send_rl_preset_by_id-planned_example :
    (plan : ActionDispatchPlan) × (params : EffectParams) × (plan_effect
        (some finds_red)
        none
        none
        apply_red
      ≡ ok plan)
    × (map payload_of plan.ops ≡ map (effect_payload params) (target_group 3 ∷ target_group 5 ∷ []))
    × (send_wled_control true (some (target_group 3)) params nothing_sent
        ≡ send_rl_preset_by_id true
            (some finds_red)
            (pos 7)
            (some (target_group 3))
            (some (pos 200))
            nothing_sent)
send_rl_preset_by_id-planned_example =
    send_rl_preset_by_id-planned finds_red none (pos 7) apply_red stored_red
      (target_group 3 ∷ target_group 5 ∷ []) true (some (target_group 3)) nothing_sent refl refl
      refl refl refl red_targets
