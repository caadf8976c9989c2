-- ===== src/Examples/Transport.antt =====
-- racelink/transport/gateway_serial.py on small inputs.
use gatecontrol_lora.Services.Pending.{try_match, register, completed, pending_count}
use gatecontrol_lora.Prelude.{
  List, [], arith, codes, false, length, map, negsuc, none, ok, pos, refl, some, true, ◌++◌, ◌∷◌,
  ◌≡◌, ◌≤◌,
}
use gatecontrol_lora.Protocol.Struct.{Bytes}
use gatecontrol_lora.Transport.Serial.{
  Link, rejected, new_link, handle_frame, handle_buffer, emit, fulfill_pending_outcome,
  update_gateway_state, handle_state, parse_state_event_body, gateway_state_name, SendOutcome,
  reply_event, timeout,
}
use gatecontrol_lora.Transport.Serial.Reader.{
  Receiver, idle, reader, read_chunk, read_byte, feed, chunk,
}
use gatecontrol_lora.Transport.Serial.Framing.{
  LineFrame, reader-line, concat, frame_bytes, handle_all, line_of,
}
use gatecontrol_lora.Transport.Serial.Send.{
  SendRequest, send_m2n, first_outcome, frame_in, port_lost, Inbound, outcome_event_of, tx_event_of,
}
use gatecontrol_lora.Transport.Serial.Sent.{send_m2n-first_outcome}
use gatecontrol_lora.Transport.Serial.Ack.{reader-ack, ack_reply_event, usb_payload}
use gatecontrol_lora.Transport.Serial.Wrappers.{request_of_lem, preset, request_of}
use gatecontrol_lora.Transport.Ports.{
  search_ports_lem, PortInfo, PortReply, answers, Searched, ident, ident_mac_of, is_lock_text,
  is_usb_port, locked, mac_of, open_raised, replied, search_ports,
}
use gatecontrol_lora.Services.Pending.{
  pending_count, try_match, first_match, candidates, get_bucket,
}
use gatecontrol_lora.Protocol.Codec.{parse_reply_event}
use gatecontrol_lora.Services.Replies.{AckFrame, ack_wait, event_of}

abbrev fresh_receiver : Receiver
fresh_receiver = record { framer = idle 0 []; link = new_link }

-- EV_TX_DONE of a frame of 4 bytes, then EV_STATE_CHANGED to RX_WINDOW for 300 ms.
abbrev done_payload : Bytes
done_payload = 0xF3 ∷ 4 ∷ []

abbrev state_payload : Bytes
state_payload = 0xF1 ∷ 2 ∷ 44 ∷ 1 ∷ []

abbrev frames : List LineFrame
frames =
    record { noise = 7 ∷ 9 ∷ []; payload = done_payload }
    ∷ record { noise = []; payload = state_payload }
    ∷ []

abbrev cut : List Bytes
cut = (7 ∷ []) ∷ (9 ∷ 0 ∷ []) ∷ (2 ∷ 0xF3 ∷ 4 ∷ 0 ∷ 4 ∷ 0xF1 ∷ []) ∷ [] ∷ (2 ∷ 44 ∷ 1 ∷ []) ∷ []

-- The mirrored state after the frames.
mirrored_test :
    ((reader fresh_receiver (map chunk cut)).link.state_byte ≡ 2)
    × ((reader fresh_receiver (map chunk cut)).link.metadata_ms ≡ 300)
unfolding reader read_chunk read_byte feed handle_buffer handle_frame handle_state emit
    fulfill_pending_outcome update_gateway_state parse_state_event_body gateway_state_name
mirrored_test = (refl, refl)

reader-line_example :
    ((reader fresh_receiver (map chunk cut)).link ≡ handle_all new_link frames)
    × ((reader fresh_receiver (map chunk cut)).framer.in_frame ≡ false)
unfolding concat line_of frame_bytes
reader-line_example = reader-line fresh_receiver frames cut refl refl (omega arith) refl

abbrev preset_request : SendRequest
preset_request = record { type_full = 4; recv3 = 10 ∷ 11 ∷ 12 ∷ []; body = 1 ∷ 2 ∷ 3 ∷ 4 ∷ [] }

-- A state event, then the rejection of an oversized body, then a success that comes too late.
abbrev during : List Inbound
during = frame_in state_payload ∷ frame_in (0xF4 ∷ 4 ∷ 2 ∷ []) ∷ frame_in done_payload ∷ []

send_m2n-first_outcome_example :
    (o : SendOutcome) × (m : Link) × (send_m2n preset_request true during new_link ≡ ok (o, m))
    × (o ≡ rejected 2)
    × (m.slot ≡ none)
    × (m.written ≡ (0 ∷ 8 ∷ 4 ∷ 10 ∷ 11 ∷ 12 ∷ 1 ∷ 2 ∷ 3 ∷ 4 ∷ []) ∷ [])
    × (m.tx_heard ≡ (tx_event_of preset_request ∷ []) ++ outcome_event_of preset_request o ∷ [])
unfolding frame_bytes
send_m2n-first_outcome_example =
    send_m2n-first_outcome preset_request during new_link refl (omega arith)

-- A reader that loses the port leaves the send to its timeout, not to a USB error.
lost_port_test : first_outcome false (port_lost ∷ frame_in done_payload ∷ []) ≡ timeout
lost_port_test = refl

abbrev node_ack : AckFrame
node_ack = record {
  node = (10, 11, 12);
  host = (1, 2, 3);
  type_byte = 0xFE;
  acked = 4;
  ack_status = 0;
  seq = none;
  trailer = (216, 255, 7);
  rssi = pos 0;
  snr = pos 0;
}

nobody_waits_yet : try_match (event_of (ack_reply_event node_ack)) [] ≡ (none, [])
unfolding try_match first_match candidates get_bucket parse_reply_event
nobody_waits_yet = refl

reader-ack_example :
    ((reader fresh_receiver
        (map chunk ((5 ∷ 0 ∷ []) ∷ (13 ∷ usb_payload node_ack) ∷ []))).link.heard
      ≡ reply_event (ack_reply_event node_ack) ∷ [])
    × ((reader fresh_receiver
          (map chunk ((5 ∷ 0 ∷ []) ∷ (13 ∷ usb_payload node_ack) ∷ []))).link.slot
        ≡ none)
    × ((try_match (event_of (ack_reply_event node_ack)) (register (ack_wait 1 node_ack) [])).0
        ≡ some (completed (ack_wait 1 node_ack) (event_of (ack_reply_event node_ack))))
    × (pending_count
          (try_match (event_of (ack_reply_event node_ack)) (register (ack_wait 1 node_ack) [])).1
        ≡ 0)
unfolding concat line_of frame_bytes pending_count
reader-ack_example =
    reader-ack fresh_receiver node_ack (5 ∷ []) ((5 ∷ 0 ∷ []) ∷ (13 ∷ usb_payload node_ack) ∷ []) 1
      [] refl refl (omega arith) refl nobody_waits_yet

request_of_lem_example :
    (q : SendRequest) × (request_of (preset (10 ∷ 11 ∷ 12 ∷ []) (pos 1) (pos 2) (pos 3) (negsuc 0))
      ≡ ok q)
    × (q.recv3 ≡ 10 ∷ 11 ∷ 12 ∷ [])
    × (q.type_full ≡ 4)
    × (1 ≤ length q.body)
    × (length q.body ≤ 21)
request_of_lem_example =
    request_of_lem (preset (10 ∷ 11 ∷ 12 ∷ []) (pos 1) (pos 2) (pos 3) (negsuc 0))

-- A port that is busy, one that is no USB port, and the gateway's.
abbrev other_port : PortInfo
other_port = record { device = codes "/dev/ttyACM0"; vid = none; pid = none; description = [] }

abbrev board_port : PortInfo
board_port = record {
  device = codes "/dev/ttyS0";
  vid = none;
  pid = none;
  description = codes "board";
}

abbrev gateway_port : PortInfo
gateway_port = record { device = codes "COM3"; vid = some 4292; pid = none; description = [] }

abbrev ports : List (PortInfo × PortReply)
ports =
    (other_port, open_raised (codes "Could not exclusively lock port"))
    ∷ (board_port, replied ident)
    ∷ (gateway_port, replied (ident ++ codes "AABBCC"))
    ∷ []

search_ports_lem_example : Searched ports (search_ports ports)
search_ports_lem_example = search_ports_lem ports

search_ports_test :
    ((search_ports ports).opened ≡ some (codes "COM3"))
    × ((search_ports ports).mac ≡ some (codes "AABBCC"))
    × ((search_ports ports).had_busy_port ≡ true)
unfolding search_ports answers locked mac_of ident_mac_of is_usb_port is_lock_text
search_ports_test = (refl, refl, refl)
