-- ===== src/Protocol/Control.antt =====
-- racelink/protocol/packets.py, OPC_CONTROL: the variable-length body behind two presence masks.
pub mod Masks
pub mod Reader
pub mod Checks
pub mod Layout
use gatecontrol_lora.Prelude.{
  ℕ, zero, suc, ◌+◌, ◌-◌, ◌*◌, ◌/◌, ◌%◌, ◌^◌, ◌≤◌, ◌<◌, ◌≡◌, refl, arith, bit_or, Bool, true, false,
  ◌&&◌, ◌||◌, List, [], ◌∷◌, ◌++◌, Option, none, some, is_some, or_else, ℤ, pos, negsuc, wrap, byte,
  if◌then◌else◌, ◌==◌, leb, length, Result, ok, err, assertion_error,
}
use gatecontrol_lora.Protocol.Struct.{Bytes}

pub record Rgb : Type 0 where
  pub red : ℤ
  pub green : ℤ
  pub blue : ℤ

-- The keyword arguments of `build_control_body`; `none` is a field that is not sent.
pub record ControlFields : Type 0 where
  pub brightness : Option ℤ
  pub mode : Option ℤ
  pub speed : Option ℤ
  pub intensity : Option ℤ
  pub custom1 : Option ℤ
  pub custom2 : Option ℤ
  pub custom3 : Option ℤ
  pub check1 : Option Bool
  pub check2 : Option Bool
  pub check3 : Option Bool
  pub palette : Option ℤ
  pub color1 : Option Rgb
  pub color2 : Option Rgb
  pub color3 : Option Rgb

-- A mask and the bytes behind it, as the builder collects them.
abbrev pub Part : Type 0
Part = ℕ × Bytes

-- `if value is not None: mask |= flag; tail.append(int(value) & 0xFF)`
unfoldable pub add_byte : Option ℤ → ℕ → Part → Part
add_byte none flag part = part
add_byte (some value) flag (mask, tail) = (bit_or mask flag, tail ++ byte value ∷ [])

-- `_rgb_bytes`
unfoldable pub rgb_bytes : Rgb → Bytes
rgb_bytes c = byte c.red ∷ byte c.green ∷ byte c.blue ∷ []

unfoldable pub add_color : Option Rgb → ℕ → Part → Part
unfolding rgb_bytes
add_color none flag part = part
add_color (some c) flag (mask, tail) = (bit_or mask flag, tail ++ rgb_bytes c)

-- `any(v is not None for v in (custom3, check1, check2, check3))`
abbrev pub has_c3_or_checks : ControlFields → Bool
has_c3_or_checks f =
    is_some f.custom3 || (is_some f.check1 || (is_some f.check2 || is_some f.check3))

-- `if check: packed |= flag`
abbrev pub or_check : Option Bool → ℕ → ℕ → ℕ
or_check check flag packed = if or_else check false then bit_or packed flag else packed

abbrev pub low5 : Option ℤ → ℕ
low5 none = 0
low5 (some c3) = wrap 32 c3

unfoldable pub packed_checks : ControlFields → ℕ
packed_checks f =
    or_check f.check3 0x80 (or_check f.check2 0x40 (or_check f.check1 0x20 (low5 f.custom3)))

unfoldable pub add_checks : ControlFields → Part → Part
unfolding packed_checks
add_checks f (mask, tail) =
    if has_c3_or_checks f then (bit_or mask 0x40, tail ++ packed_checks f ∷ []) else (mask, tail)

unfoldable pub main_part : ControlFields → Part
main_part f =
    let p1 = add_byte f.brightness 0x01 (0, []) in
    let p2 = add_byte f.mode 0x02 p1 in
    let p3 = add_byte f.speed 0x04 p2 in
    let p4 = add_byte f.intensity 0x08 p3 in
    let p5 = add_byte f.custom1 0x10 p4 in let p6 = add_byte f.custom2 0x20 p5 in add_checks f p6

unfoldable pub ext_part : ControlFields → Part
ext_part f =
    let p1 = add_byte f.palette 0x01 (0, []) in
    let p2 = add_color f.color1 0x02 p1 in
    let p3 = add_color f.color2 0x04 p2 in add_color f.color3 0x08 p3

-- The assembled bytes, before the `assert` on their number.
unfoldable pub assemble : ℕ → ℕ → Part → Part → Bytes
assemble g flags main ext =
    if ext.0 == 0
    then g ∷ flags ∷ main.0 ∷ main.1
    else g ∷ flags ∷ bit_or main.0 0x80 ∷ (main.1 ++ (ext.0 ∷ ext.1))

unfoldable pub build_control_body : ℤ → ℤ → ControlFields → Result Bytes
unfolding main_part ext_part assemble add_byte add_color add_checks
build_control_body group_id flags f =
    let body = assemble (byte group_id) (byte flags) (main_part f) (ext_part f) in
    if leb (length body) 22 then ok body else err assertion_error
