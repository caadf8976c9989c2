-- ===== src/Protocol/Offset/RoundTrip.antt =====
-- racelink/protocol/packets.py: `build_offset_body` against `parse_offset_body`.
use gatecontrol_lora.Prelude.{
  ℕ, ◌≡◌, refl, arith, [], ◌∷◌, ℤ, pos, negsuc, ◌≤ℤ◌, clamp, clamp_in, clamp_low, clamp_high, byte,
  ok, length, ◌≤◌,
}
use gatecontrol_lora.Protocol.Struct.{Bytes, IsI16, IsU16, pack_u16_lem, pack_i16_lem}
use gatecontrol_lora.Protocol.Offset.{
  OffsetParams, mode_none, mode_explicit, mode_linear, mode_vshape, mode_modulo, parse_offset_body,
  build_offset_of, clamp_base,
}

-- What the wire carries for a set of parameters: each one clamped to its field.
abbrev pub clamp_params : OffsetParams → OffsetParams
clamp_params mode_none = mode_none
clamp_params (mode_explicit ms) = mode_explicit (clamp (pos 0) (pos 65535) ms)
clamp_params (mode_linear b s) = mode_linear (clamp_base b) (clamp_base s)
clamp_params (mode_vshape b s c) =
    mode_vshape (clamp_base b) (clamp_base s) (clamp (pos 0) (pos 254) c)
clamp_params (mode_modulo b s c) =
    mode_modulo (clamp_base b) (clamp_base s) (clamp (pos 1) (pos 255) c)

-- Parameters that every field can carry.
abbrev pub InWireRange : OffsetParams → Type 0
InWireRange mode_none = Unit {0}
InWireRange (mode_explicit ms) = IsU16 ms
InWireRange (mode_linear b s) = IsI16 b × IsI16 s
InWireRange (mode_vshape b s c) = IsI16 b × IsI16 s × (pos 0 ≤ℤ c) × (c ≤ℤ pos 254)
InWireRange (mode_modulo b s c) = IsI16 b × IsI16 s × (pos 1 ≤ℤ c) × (c ≤ℤ pos 255)

unfoldable pub body_length : OffsetParams → ℕ
body_length mode_none = 2
body_length (mode_explicit _) = 4
body_length (mode_linear _ _) = 6
body_length (mode_vshape _ _ _) = 7
body_length (mode_modulo _ _ _) = 7

pub body_length_bounds : (p : OffsetParams) → (2 ≤ body_length p) × (body_length p ≤ 7)
unfolding body_length
body_length_bounds p = ground arith

clamp_base-IsI16 : (v : ℤ) → IsI16 (clamp_base v)
clamp_base-IsI16 v =
    (clamp_low (negsuc 32767) (pos 32767) v, clamp_high (negsuc 32767) (pos 32767) v (omega arith))

clamp-IsU16 : (v : ℤ) → IsU16 (clamp (pos 0) (pos 65535) v)
clamp-IsU16 v = (clamp_low (pos 0) (pos 65535) v, clamp_high (pos 0) (pos 65535) v (omega arith))

byte_of_range : (v : ℤ) → pos 0 ≤ℤ v → v ≤ℤ pos 255 → pos (byte v) ≡ v
byte_of_range (pos n) h k = ground arith
byte_of_range (negsuc n) h k = absurd (omega arith)

byte_center : (v : ℤ) → pos (byte (clamp (pos 0) (pos 254) v)) ≡ clamp (pos 0) (pos 254) v
byte_center v =
    byte_of_range _ (clamp_low (pos 0) (pos 254) v)
      (omega (arith, clamp_high (pos 0) (pos 254) v (omega arith)))

byte_cycle : (v : ℤ) → pos (byte (clamp (pos 1) (pos 255) v)) ≡ clamp (pos 1) (pos 255) v
byte_cycle v =
    byte_of_range _ (omega (arith, clamp_low (pos 1) (pos 255) v))
      (clamp_high (pos 1) (pos 255) v (omega arith))

-- For every group id and every set of parameters the builder returns a body, of 2, 4, 6 or 7
-- bytes by the mode, and the parser reads from it the group id modulo 256 and the parameters,
-- each clamped to the range of its field.
pub parse_offset_body-build_offset_of :
    (g : ℤ) (p : OffsetParams)
    → (body : Bytes) × (build_offset_of g p ≡ ok body)
      × (parse_offset_body body ≡ ok (byte g, clamp_params p))
      × (length body ≡ body_length p)
unfolding build_offset_of parse_offset_body body_length
parse_offset_body-build_offset_of g mode_none = (byte g ∷ 0 ∷ [], refl, refl, refl)
parse_offset_body-build_offset_of g (mode_explicit ms) =
    let (lo, hi, packed, read) = pack_u16_lem _ (clamp-IsU16 ms) in
    (byte g ∷ 1 ∷ lo ∷ hi ∷ [], rw packed refl, rw read refl, refl)
parse_offset_body-build_offset_of g (mode_linear b s) =
    let (b0, b1, pb, rb) = pack_i16_lem _ (clamp_base-IsI16 b) in
    let (s0, s1, ps, rs) = pack_i16_lem _ (clamp_base-IsI16 s) in
    (byte g ∷ 2 ∷ b0 ∷ b1 ∷ s0 ∷ s1 ∷ [], rw (pb, ps) refl, rw (rb, rs) refl, refl)
parse_offset_body-build_offset_of g (mode_vshape b s c) =
    let (b0, b1, pb, rb) = pack_i16_lem _ (clamp_base-IsI16 b) in
    let (s0, s1, ps, rs) = pack_i16_lem _ (clamp_base-IsI16 s) in
    (
      byte g ∷ 3 ∷ b0 ∷ b1 ∷ s0 ∷ s1 ∷ byte (clamp (pos 0) (pos 254) c) ∷ [],
      rw (pb, ps) refl,
      rw (rb, rs, byte_center c) refl,
      refl,
    )
parse_offset_body-build_offset_of g (mode_modulo b s c) =
    let (b0, b1, pb, rb) = pack_i16_lem _ (clamp_base-IsI16 b) in
    let (s0, s1, ps, rs) = pack_i16_lem _ (clamp_base-IsI16 s) in
    (
      byte g ∷ 4 ∷ b0 ∷ b1 ∷ s0 ∷ s1 ∷ byte (clamp (pos 1) (pos 255) c) ∷ [],
      rw (pb, ps) refl,
      rw (rb, rs, byte_cycle c) refl,
      refl,
    )

pub clamp_params_in : (p : OffsetParams) → InWireRange p → clamp_params p ≡ p
clamp_params_in mode_none h = refl
clamp_params_in (mode_explicit ms) (l, u) = rw (clamp_in _ _ ms l u) refl
clamp_params_in (mode_linear b s) (b_in, s_in) =
    rw (clamp_in _ _ b b_in.0 b_in.1, clamp_in _ _ s s_in.0 s_in.1) refl
clamp_params_in (mode_vshape b s c) (b_in, s_in, l, u) =
    rw (clamp_in _ _ b b_in.0 b_in.1, clamp_in _ _ s s_in.0 s_in.1, clamp_in _ _ c l u) refl
clamp_params_in (mode_modulo b s c) (b_in, s_in, l, u) =
    rw (clamp_in _ _ b b_in.0 b_in.1, clamp_in _ _ s s_in.0 s_in.1, clamp_in _ _ c l u) refl
