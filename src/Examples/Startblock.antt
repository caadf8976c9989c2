-- ===== src/Examples/Startblock.antt =====
-- racelink/services/startblock_service.py on small inputs.
use gatecontrol_lora.Prelude.{
  All, List, [], codes, false, length, map, none, pos, refl, some, true, ◌∷◌, ◌≡◌, ◌≤◌,
}
use gatecontrol_lora.Services.Startblock.{
  sanitize_pilot_name, replace_umlauts, upper_text, upper_char, blank_others, is_allowed,
  single_blanks, replace2, SlotEntry, StartDevice, build_startblock_payload_v1, device_range,
  send_startblock_control, unicast_sent,
}
use gatecontrol_lora.Services.Startblock.Program.{
  read_startblock-build_startblock_payload_v1, Allowed, ascii_or_mark, channel_of, read_startblock,
}
use gatecontrol_lora.Services.Startblock.Slots.{
  send_startblock_control-devices, Fits, InEight, eight, wanted,
}

-- The text that stands for an a with two dots in the source's table, and the letter itself.
umlaut_test :
    (sanitize_pilot_name (74 ∷ 0xC3 ∷ 0xA4 ∷ 103 ∷ []) 32 ≡ codes "JAEG")
    × (sanitize_pilot_name (74 ∷ 0xE4 ∷ 103 ∷ []) 32 ≡ codes "J G")
unfolding sanitize_pilot_name replace_umlauts replace2 upper_text upper_char blank_others is_allowed
    single_blanks
umlaut_test = (refl, refl)

-- A dotted capital I passes, and is sent as a question mark.
dotted_test :
    map ascii_or_mark (sanitize_pilot_name (0x130 ∷ 122 ∷ 0x131 ∷ 0x416 ∷ []) 32) ≡ codes "?ZI"
unfolding sanitize_pilot_name replace_umlauts replace2 upper_text upper_char blank_others is_allowed
    single_blanks
dotted_test = refl

read_startblock-build_startblock_payload_v1_example :
    (read_startblock (build_startblock_payload_v1 (pos 300) (codes "r") (codes " max  m. ") 32)
      ≡ some (record {
        version = 1;
        program_slot = 255;
        channel = channel_of (codes "r");
        pilot = map ascii_or_mark (sanitize_pilot_name (codes " max  m. ") 32);
      }))
    × All Allowed (sanitize_pilot_name (codes " max  m. ") 32)
    × (length (sanitize_pilot_name (codes " max  m. ") 32) ≤ 32)
    × (length (build_startblock_payload_v1 (pos 300) (codes "r") (codes " max  m. ") 32) ≤ 37)
read_startblock-build_startblock_payload_v1_example =
    read_startblock-build_startblock_payload_v1 (pos 300) (codes "r") (codes " max  m. ")

-- Two blocks of which the second overlaps the first, and a device that is none.
abbrev block1 : StartDevice
block1 = record {
  device_id = codes "A";
  has_startblock = true;
  group_id = pos 1;
  startblock_slots = some (pos 4);
  startblock_first_slot = some (pos 1);
}

abbrev block2 : StartDevice
block2 = record {
  device_id = codes "B";
  has_startblock = true;
  group_id = pos 1;
  startblock_slots = some (pos 20);
  startblock_first_slot = some (pos 3);
}

abbrev lamp : StartDevice
lamp = record {
  device_id = codes "C";
  has_startblock = false;
  group_id = pos 1;
  startblock_slots = none;
  startblock_first_slot = none;
}

abbrev heat : List SlotEntry
heat = (pos 0, codes "Ann", codes "R1") ∷ (pos 6, codes "Bob", codes "R7") ∷ []

send_startblock_control-devices_example :
    (send_startblock_control true (lamp ∷ block1 ∷ block2 ∷ []) none none heat
      ≡ unicast_sent
          (map device_range (block1 ∷ block2 ∷ []))
          (wanted eight (map device_range (block1 ∷ block2 ∷ [])) heat))
    × All InEight (map device_range (block1 ∷ block2 ∷ []))
    × All Fits (wanted eight (map device_range (block1 ∷ block2 ∷ [])) heat)
send_startblock_control-devices_example =
    send_startblock_control-devices (lamp ∷ block1 ∷ block2 ∷ []) heat
