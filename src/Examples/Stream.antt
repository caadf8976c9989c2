-- ===== src/Examples/Stream.antt =====
-- racelink/services/gateway_service.py, `send_stream`, for a group of two devices. One node
-- acknowledges the first attempt, the other one the second.
use gatecontrol_lora.Services.Control.{all_nodes}
use gatecontrol_lora.Services.Stream.Attempts.{IsStreamed, send_stream-group}
use gatecontrol_lora.Services.Collect.{Arrival}
use gatecontrol_lora.Protocol.Struct.{Bytes}
use gatecontrol_lora.Services.Stream.{
  send_stream, last3_set, Streaming, discard_broadcast, streamed,
}
use gatecontrol_lora.Domain.Device.{Device, new_device}
use gatecontrol_lora.Prelude.{
  ℕ, List, [], ◌∷◌, ◌≡◌, refl, codes, pos, arith, length, some, none, true, zero, suc, ok,
}
use gatecontrol_lora.Protocol.Codec.{ack_reply}
use gatecontrol_lora.Transport.Serial.Wrappers

abbrev in_group : Device → Device
in_group d = record d { group_id = pos 3 }

abbrev two_devices : List Device
two_devices =
    in_group (new_device (codes "AABBCC0A0B0C") (pos 11))
    ∷ in_group (new_device (codes "AABBCC010203") (pos 11))
    ∷ new_device (codes "AABBCC040506") (pos 11)
    ∷ []

abbrev two_macs : List Bytes
two_macs = (1 ∷ 2 ∷ 3 ∷ []) ∷ (10 ∷ 11 ∷ 12 ∷ []) ∷ []

abbrev stream_ack : ℕ → Bytes → Arrival
stream_ack t sender = record {
  at_ms = t;
  event = record {
    type_byte = 254;
    dir = 128;
    opc = 126;
    sender3 = sender;
    receiver3 = [];
    host_rssi = pos 0;
    host_snr = pos 0;
    reply = ack_reply 7 0 none;
  };
}

abbrev acks_after : ℕ → List Arrival
acks_after zero = stream_ack 100 (10 ∷ 11 ∷ 12 ∷ []) ∷ []
acks_after (suc n) = stream_ack 80 (10 ∷ 11 ∷ 12 ∷ []) ∷ stream_ack 120 (1 ∷ 2 ∷ 3 ∷ []) ∷ []

last3_test : last3_set two_devices ≡ ok ((4 ∷ 5 ∷ 6 ∷ []) ∷ two_macs)
unfolding last3_set
last3_test = refl

send_stream_test :
    (send_stream true (9 ∷ []) (some (pos 3)) none 2 6000 two_devices acks_after)
    ≡ ok (
        streamed 2 (record {
          frames =
              Wrappers.send_stream all_nodes (9 ∷ [])
              ∷ Wrappers.send_stream all_nodes (9 ∷ [])
              ∷ [];
          acked = (10 ∷ 11 ∷ 12 ∷ []) ∷ (1 ∷ 2 ∷ 3 ∷ []) ∷ [];
        }))
unfolding send_stream
send_stream_test = refl

send_stream-group_example :
    (st : Streaming) × (send_stream true (9 ∷ []) (some (pos 3)) none 2 6000 two_devices acks_after
      ≡ ok (streamed (length (discard_broadcast two_macs)) st))
    × IsStreamed 0 3 (discard_broadcast two_macs) (Wrappers.send_stream all_nodes (9 ∷ [])) st
unfolding last3_set
send_stream-group_example =
    send_stream-group (9 ∷ []) (pos 3) 2 6000 two_devices acks_after two_macs (omega arith) refl
