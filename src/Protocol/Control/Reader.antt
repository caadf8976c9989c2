-- ===== src/Protocol/Control/Reader.antt =====
-- A receiver of OPC_CONTROL bodies: the layout documented above the RL_CTRL_ constants in
-- racelink/protocol/packets.py, as a reader of its own.
use gatecontrol_lora.Prelude.{
  ℕ, Bool, Option, [], bit, byte, false, if◌then◌else◌, is_some, none, or_else, some, true, wrap, ℤ,
  ◌*◌, ◌+◌, ◌||◌, ◌∷◌,
}
use gatecontrol_lora.Protocol.Struct.{Bytes}
use gatecontrol_lora.Protocol.Control.{Rgb, ControlFields}
use gatecontrol_lora.Protocol.Control.Masks.{test_bit}

-- What a receiver reads.
pub record Decoded : Type 0 where
  pub group_id : ℕ
  pub flags : ℕ
  pub brightness : Option ℕ
  pub mode : Option ℕ
  pub speed : Option ℕ
  pub intensity : Option ℕ
  pub custom1 : Option ℕ
  pub custom2 : Option ℕ
  pub checks : Option ℕ
  pub palette : Option ℕ
  pub color1 : Option (ℕ × ℕ × ℕ)
  pub color2 : Option (ℕ × ℕ × ℕ)
  pub color3 : Option (ℕ × ℕ × ℕ)

abbrev pub Reader : Type 0 → Type 0
Reader A = Bytes → Option (A × Bytes)

infixl 5 ◌>>=◌
abbrev pub ◌>>=◌ : {A B : Type 0} → Reader A → (A → Reader B) → Reader B
◌>>=◌ m f bs = elim (m bs) [ none ↦ none | some (a, rest) ↦ f a rest ]

abbrev pub pure : {A : Type 0} → A → Reader A
pure a bs = some (a, bs)

unfoldable pub next_byte : Reader ℕ
next_byte [] = none
next_byte (b ∷ bs) = some (b, bs)

-- A field that is there if its mask bit is set.
unfoldable pub byte_if : Bool → Reader (Option ℕ)
byte_if false bs = some (none, bs)
byte_if true [] = none
byte_if true (b ∷ bs) = some (some b, bs)

unfoldable pub color_if : Bool → Reader (Option (ℕ × ℕ × ℕ))
color_if false bs = some (none, bs)
color_if true (r ∷ g ∷ b ∷ bs) = some (some (r, g, b), bs)
color_if true _ = none

-- The extended block: a mask of its own, a palette and three colours.
unfoldable pub read_ext :
    Bool → Reader (Option ℕ × Option (ℕ × ℕ × ℕ) × Option (ℕ × ℕ × ℕ) × Option (ℕ × ℕ × ℕ))
unfolding next_byte
read_ext false bs = some ((none, none, none, none), bs)
read_ext true bs =
    (do
      ext_mask ← next_byte
      palette ← byte_if (test_bit 0 ext_mask)
      color1 ← color_if (test_bit 1 ext_mask)
      color2 ← color_if (test_bit 2 ext_mask)
      color3 ← color_if (test_bit 3 ext_mask)
      pure (palette, color1, color2, color3))
      bs

unfoldable pub read_control : Reader Decoded
unfolding next_byte
read_control = do
  group_id ← next_byte
  flags ← next_byte
  mask ← next_byte
  brightness ← byte_if (test_bit 0 mask)
  mode ← byte_if (test_bit 1 mask)
  speed ← byte_if (test_bit 2 mask)
  intensity ← byte_if (test_bit 3 mask)
  custom1 ← byte_if (test_bit 4 mask)
  custom2 ← byte_if (test_bit 5 mask)
  checks ← byte_if (test_bit 6 mask)
  ext ← read_ext (test_bit 7 mask)
  pure (record {
    group_id = group_id;
    flags = flags;
    brightness = brightness;
    mode = mode;
    speed = speed;
    intensity = intensity;
    custom1 = custom1;
    custom2 = custom2;
    checks = checks;
    palette = ext.0;
    color1 = ext.1;
    color2 = ext.2;
    color3 = ext.3;
  })

-- The bytes of one field.
abbrev pub sent : Option ℤ → Option ℕ
sent none = none
sent (some v) = some (byte v)

abbrev pub sent_color : Option Rgb → Option (ℕ × ℕ × ℕ)
sent_color none = none
sent_color (some c) = some (byte c.red, byte c.green, byte c.blue)

-- `custom3` in the low five bits, and a bit for each check that is set.
abbrev pub weighted_checks : ℕ → Bool → Bool → Bool → ℕ
weighted_checks c3 check1 check2 check3 = c3 + 32 * bit check1 + 64 * bit check2 + 128 * bit check3

abbrev pub low_bits : Option ℤ → ℕ
low_bits none = 0
low_bits (some v) = wrap 32 v

abbrev pub sent_checks : ControlFields → Option ℕ
sent_checks f =
    if is_some f.custom3 || (is_some f.check1 || (is_some f.check2 || is_some f.check3))
    then some (
        weighted_checks (low_bits f.custom3) (or_else f.check1 false) (or_else f.check2 false)
          (or_else f.check3 false))
    else none

abbrev pub block : Option ℕ → Bytes
block none = []
block (some b) = b ∷ []

abbrev pub color_block : Option (ℕ × ℕ × ℕ) → Bytes
color_block none = []
color_block (some (r, g, b)) = r ∷ g ∷ b ∷ []
