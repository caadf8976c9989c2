-- ===== src/Domain/Flags.antt =====
-- racelink/domain/flags.py: the flags byte of OPC_PRESET and OPC_CONTROL.
use gatecontrol_lora.Prelude.{
  ℕ, ◌+◌, ◌*◌, ◌%◌, bit_or, Bool, false, bit, if◌then◌else◌, ◌==◌, or_else, Option, ==_iff, both6,
  both6_sound, refl, true, ◌≡◌,
}

-- The keyword arguments of `build_flags_byte`.
pub record Flags : Type 0 where
  pub power_on : Bool
  pub has_bri : Bool
  pub arm_on_sync : Bool
  pub force_tt0 : Bool
  pub force_reapply : Bool
  pub offset_mode : Bool

-- `if flag: out |= value`
abbrev pub set_flag : Bool → ℕ → ℕ → ℕ
set_flag b v out = if b then bit_or out v else out

unfoldable pub build_flags_byte : Flags → ℕ
build_flags_byte f =
    let out1 = set_flag f.power_on 0x01 0 in
    let out2 = set_flag f.arm_on_sync 0x02 out1 in
    let out3 = set_flag f.has_bri 0x04 out2 in
    let out4 = set_flag f.force_tt0 0x08 out3 in
    let out5 = set_flag f.force_reapply 0x10 out4 in set_flag f.offset_mode 0x20 out5 % 256

-- The four user flags of a preset, as `flags_from_mapping` reads them from a mapping.
pub record UserFlags : Type 0 where
  pub user_arm_on_sync : Bool
  pub user_force_tt0 : Bool
  pub user_force_reapply : Bool
  pub user_offset_mode : Bool

pub record FlagMapping : Type 0 where
  pub raw_arm_on_sync : Option Bool
  pub raw_force_tt0 : Option Bool
  pub raw_force_reapply : Option Bool
  pub raw_offset_mode : Option Bool

unfoldable pub flags_from_mapping : FlagMapping → UserFlags
flags_from_mapping m = record {
  user_arm_on_sync = or_else m.raw_arm_on_sync false;
  user_force_tt0 = or_else m.raw_force_tt0 false;
  user_force_reapply = or_else m.raw_force_reapply false;
  user_offset_mode = or_else m.raw_offset_mode false;
}

abbrev flags_of : Bool → Bool → Bool → Bool → Bool → Bool → Flags
flags_of p a h t r o = record {
  power_on = p;
  has_bri = h;
  arm_on_sync = a;
  force_tt0 = t;
  force_reapply = r;
  offset_mode = o;
}

-- The flags byte as a sum of bit values.
abbrev pub weighted_flags : Flags → ℕ
weighted_flags f =
    bit f.power_on
    + 2 * bit f.arm_on_sync
    + 4 * bit f.has_bri
    + 8 * bit f.force_tt0
    + 16 * bit f.force_reapply
    + 32 * bit f.offset_mode

abbrev agrees : Bool → Bool → Bool → Bool → Bool → Bool → Bool
unfolding build_flags_byte
agrees p a h t r o = let f = flags_of p a h t r o in build_flags_byte f == weighted_flags f

flags_table : both6 agrees ≡ true
unfolding build_flags_byte
flags_table = refl

-- The byte is the sum of the six bit values: no flag disturbs another, and bits 6 and 7 stay 0.
pub build_flags_byte-weighted : (f : Flags) → build_flags_byte f ≡ weighted_flags f
unfolding build_flags_byte
build_flags_byte-weighted f = (==_iff _ _).0 (
    both6_sound agrees flags_table f.power_on f.arm_on_sync f.has_bri f.force_tt0 f.force_reapply
      f.offset_mode)
