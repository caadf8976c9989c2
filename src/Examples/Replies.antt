-- ===== src/Examples/Replies.antt =====
-- Frames of a node at 0A:0B:0C, as the gateway forwards them.
use gatecontrol_lora.Prelude.{ℕ, [], arith, negsuc, pos, refl, ◌∷◌, ◌≡◌}
use gatecontrol_lora.Protocol.Codec.{
  StatusReply, parse_reply_event, status_of, status_raw, status_reply,
}
use gatecontrol_lora.Protocol.Codec.Replies.{parse_reply_event-status, frame, status_body}

abbrev node_addr : ℕ × ℕ × ℕ
node_addr = (10, 11, 12)

abbrev host_addr : ℕ × ℕ × ℕ
host_addr = (1, 2, 3)

abbrev appended : ℕ × ℕ × ℕ
appended = (0, 0, 0)

abbrev status : StatusReply
status = record {
  status_flags = 1;
  config_byte = 2;
  effect_id = 9;
  brightness = 128;
  vbat_mv = 3712;
  node_rssi = negsuc 79;
  node_snr = pos 7;
}

-- A body of seven bytes, the older form, and one of six, which is neither.
short_status_test :
    (status_of (1 ∷ 9 ∷ 128 ∷ 128 ∷ 14 ∷ 176 ∷ 7 ∷ [])
      ≡ status_reply (record status { config_byte = 0 }))
    × (status_of (1 ∷ 9 ∷ 128 ∷ 128 ∷ 14 ∷ 176 ∷ [])
        ≡ status_raw (1 ∷ 9 ∷ 128 ∷ 128 ∷ 14 ∷ 176 ∷ []))
unfolding status_of
short_status_test = (refl, refl)

parse_reply_event-status_example :
    ((parse_reply_event 131
        (frame node_addr host_addr 131 (status_body status) appended)
        (negsuc 60)
        (pos 9)).reply
      ≡ status_reply status)
    × ((parse_reply_event 131
          (frame node_addr host_addr 131 (status_body status) appended)
          (negsuc 60)
          (pos 9)).sender3
        ≡ 10 ∷ 11 ∷ 12 ∷ [])
parse_reply_event-status_example =
    parse_reply_event-status node_addr host_addr 131 status appended (negsuc 60) (pos 9) refl
      (omega arith) (omega arith)
