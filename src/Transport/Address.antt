-- ===== src/Transport/Address.antt =====
-- racelink/transport/framing.py: the receiver of a frame, out of a device's address.
use gatecontrol_lora.Prelude.{
  ℕ, Option, Result, Text, [], codes, drop, err, if◌then◌else◌, keep, leb, length, ltb, none, not,
  ok, some, value_error, ◌&&◌, ◌*◌, ◌+◌, ◌-◌, ◌==◌, ◌∷◌,
}
use gatecontrol_lora.Protocol.Struct.{Bytes}
use gatecontrol_lora.State.Repository.{upper}
use gatecontrol_lora.Services.Scenes.Slug.{is_space, strip}

-- The value of a hexadecimal digit, in upper case.
unfoldable pub hex_value : ℕ → Option ℕ
hex_value c =
    if leb 48 c && leb c 57
    then some (c - 48)
    else if leb 65 c && leb c 70
    then some (c - 55)
    else none

abbrev pub pair_byte : Option ℕ → Option ℕ → Result Bytes → Result Bytes
pair_byte (some hi) (some lo) (ok bytes) = ok ((16 * hi + lo) ∷ bytes)
pair_byte (some hi) (some lo) (err e) = err e
pair_byte none lo rest = err value_error
pair_byte (some hi) none rest = err value_error

-- `bytes.fromhex`, on a text without blanks
unfoldable pub from_hex : Text → Result Bytes
unfolding hex_value
from_hex [] = ok []
from_hex (a ∷ []) = err value_error
from_hex (a ∷ b ∷ rest) = pair_byte (hex_value a) (hex_value b) (from_hex rest)

-- `mac_last3_from_hex`
unfoldable pub mac_last3_from_hex : Text → Result Bytes
unfolding from_hex
mac_last3_from_hex mac12 =
    let mac = upper (keep (λ c. not (c == 58)) (strip is_space mac12)) in
    let known = if ltb (length mac) 6 then codes "FFFFFF" else mac in
    from_hex (drop (length known - 6) known)
