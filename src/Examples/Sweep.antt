-- ===== src/Examples/Sweep.antt =====
-- racelink/services/status_service.py and discovery_service.py on small inputs.
use gatecontrol_lora.Services.Gateway.{to_hex}
use gatecontrol_lora.Services.Pending.{eq_ℤ}
use gatecontrol_lora.Prelude.{ℕ, List, [], arith, codes, pos, refl, ◌+◌, ◌∷◌, ◌≡◌}
use gatecontrol_lora.Protocol.Struct.{Bytes}
use gatecontrol_lora.Protocol.Codec.{Reply, ReplyEvent, status_reply, StatusReply, identify_reply}
use gatecontrol_lora.Domain.Device.{Device, new_device, mark_offline}
use gatecontrol_lora.Services.Collect.{Arrival, compute_collect_max_timeout}
use gatecontrol_lora.Services.Status.{
  group_filter, sweep, sweep_device, in_filter, status_responders, expected_count, get_status,
  status_pred, status_window,
}
use gatecontrol_lora.Services.Status.Swept.{get_status-answered}

abbrev device : Device
device = new_device (codes "AABBCC0A0B0C") (pos 11)

abbrev plain_status : StatusReply
plain_status = record {
  status_flags = 1;
  config_byte = 0;
  effect_id = 0;
  brightness = 70;
  vbat_mv = 3700;
  node_rssi = pos 0;
  node_snr = pos 0;
}

abbrev event_from : Bytes → ℕ → Reply → ReplyEvent
event_from sender opc reply = record {
  type_byte = 128 + opc;
  dir = 128;
  opc = opc;
  sender3 = sender;
  receiver3 = [];
  host_rssi = pos 0;
  host_snr = pos 0;
  reply = reply;
}

abbrev arrivals : List Arrival
arrivals =
    record { at_ms = 100; event = event_from (1 ∷ 2 ∷ 3 ∷ []) 1 (identify_reply 4 11 0 []) }
    ∷ record { at_ms = 300; event = event_from (10 ∷ 11 ∷ 12 ∷ []) 3 (status_reply plain_status) }
    ∷ []

get_status-answered_example :
    (get_status (group_filter (pos 0)) 5000 arrivals (device ∷ []) (device ∷ [])).devices_after
    ≡ device ∷ []
unfolding expected_count in_filter eq_ℤ status_window compute_collect_max_timeout status_pred to_hex
get_status-answered_example =
    get_status-answered (pos 0) 5000 0 arrivals (device ∷ []) (device ∷ []) refl (omega arith)
      ((λ h. refl), tt)

-- A device that has answered nothing.
silent_test :
    (sweep (group_filter (pos 255)) 5000 [] (device ∷ []))
    ≡ mark_offline 5000 (codes "Missing reply (STATUS)") device ∷ []
unfolding sweep sweep_device in_filter status_responders
silent_test = refl
