-- ===== src/Protocol/Offset.antt =====
-- racelink/protocol/packets.py, OPC_OFFSET: the mode enum, the body builder and its parser.
pub mod RoundTrip
use gatecontrol_lora.Prelude.{
  ℕ, ◌+◌, [], ◌∷◌, ◌++◌, map, leb, ◌==◌, ◌&&◌, if◌then◌else◌, ℤ, pos, negsuc, clamp, byte, Result,
  ok, err, ◌>>=◌, value_error, type_error, assertion_error, Text, codes, eq_bytes, none,
}
use gatecontrol_lora.Protocol.Struct.{Bytes, pack_u16, pack_i16, unpack_u16, unpack_i16}

-- A mode together with the keyword arguments that go with it.
pub data OffsetParams : Type 0 where
  mode_none : OffsetParams
  mode_explicit : (offset_ms : ℤ) → OffsetParams
  mode_linear : (base_ms step_ms : ℤ) → OffsetParams
  mode_vshape mode_modulo : (base_ms step_ms extra : ℤ) → OffsetParams

-- The keyword arguments of `build_offset_body`.
pub record OffsetKwargs : Type 0 where
  pub offset_ms : ℤ
  pub base_ms : ℤ
  pub step_ms : ℤ
  pub center : ℤ
  pub cycle : ℤ

abbrev pub default_kwargs : OffsetKwargs
default_kwargs = record {
  offset_ms = pos 0;
  base_ms = pos 0;
  step_ms = pos 0;
  center = pos 0;
  cycle = pos 1;
}

-- The `mode` argument: an int, a string, or a value of another type.
pub data ModeArg : Type 0 where
  int_mode : ℤ → ModeArg
  str_mode : Text → ModeArg
  other_mode : ModeArg

-- `str.lower` on ASCII. A letter beyond ASCII never turns a text into the name of a mode.
abbrev pub lower_code : ℕ → ℕ
lower_code c = if leb b'A' c && leb c b'Z' then c + 32 else c

abbrev pub lower : Text → Text
lower = map lower_code

-- The names that the code compares a lowered mode with.
pub data Mode : Type 0 where
  none_mode explicit linear vshape modulo unknown : Mode

unfoldable pub mode_of : Text → Mode
mode_of m =
    if eq_bytes m (codes "none")
    then none_mode
    else if eq_bytes m (codes "explicit")
    then explicit
    else if eq_bytes m (codes "linear")
    then linear
    else if eq_bytes m (codes "vshape")
    then vshape
    else if eq_bytes m (codes "modulo")
    then modulo
    else unknown

-- `OFFSET_MODE_VALUES`, and the exception for a name that it lacks.
abbrev pub mode_value : Mode → Result ℕ
mode_value none_mode = ok 0
mode_value explicit = ok 1
mode_value linear = ok 2
mode_value vshape = ok 3
mode_value modulo = ok 4
mode_value unknown = err value_error

unfoldable pub coerce_mode : ModeArg → Result ℕ
unfolding mode_of
coerce_mode (int_mode (pos n)) = if leb n 4 then ok n else err value_error
coerce_mode (int_mode (negsuc n)) = err value_error
coerce_mode (str_mode name) = mode_value (mode_of (lower name))
coerce_mode other_mode = err type_error

abbrev pub clamp_base : ℤ → ℤ
clamp_base = clamp (negsuc 32767) (pos 32767)

-- The body for a mode byte, as the chain of `if m == OFFSET_MODE_...` builds it.
unfoldable pub offset_body_of_mode : ℕ → ℕ → OffsetKwargs → Result Bytes
offset_body_of_mode g m kw =
    if m == 0
    then ok (g ∷ m ∷ [])
    else if m == 1
    then (do ms ← pack_u16 (clamp (pos 0) (pos 65535) kw.offset_ms); ok (g ∷ m ∷ ms))
    else if m == 2
    then (do
      b ← pack_i16 (clamp_base kw.base_ms)
      s ← pack_i16 (clamp_base kw.step_ms)
      ok (g ∷ m ∷ b ++ s))
    else if m == 3
    then (do
      b ← pack_i16 (clamp_base kw.base_ms)
      s ← pack_i16 (clamp_base kw.step_ms)
      ok (g ∷ m ∷ b ++ s ++ byte (clamp (pos 0) (pos 254) kw.center) ∷ []))
    else if m == 4
    then (do
      b ← pack_i16 (clamp_base kw.base_ms)
      s ← pack_i16 (clamp_base kw.step_ms)
      ok (g ∷ m ∷ b ++ s ++ byte (clamp (pos 1) (pos 255) kw.cycle) ∷ []))
    else err assertion_error

unfoldable pub build_offset_body : ℤ → ModeArg → OffsetKwargs → Result Bytes
unfolding coerce_mode offset_body_of_mode
build_offset_body group_id mode kw = do
  m ← coerce_mode mode
  offset_body_of_mode (byte group_id) m kw

-- `struct.unpack` on the payload behind the two header bytes, after the length test.
unfoldable pub parse_offset_payload : ℕ → ℕ → Bytes → Result (ℕ × OffsetParams)
parse_offset_payload g m [] = if m == 0 then ok (g, mode_none) else err value_error
parse_offset_payload g m (a ∷ b ∷ []) =
    if m == 1 then ok (g, mode_explicit (pos (unpack_u16 a b))) else err value_error
parse_offset_payload g m (a ∷ b ∷ c ∷ d ∷ []) =
    if m == 2 then ok (g, mode_linear (unpack_i16 a b) (unpack_i16 c d)) else err value_error
parse_offset_payload g m (a ∷ b ∷ c ∷ d ∷ e ∷ []) =
    if m == 3
    then ok (g, mode_vshape (unpack_i16 a b) (unpack_i16 c d) (pos e))
    else if m == 4
    then ok (g, mode_modulo (unpack_i16 a b) (unpack_i16 c d) (pos e))
    else err value_error
parse_offset_payload g m _ = err value_error

unfoldable pub parse_offset_body : Bytes → Result (ℕ × OffsetParams)
unfolding parse_offset_payload
parse_offset_body (g ∷ m ∷ payload) = parse_offset_payload g m payload
parse_offset_body _ = err value_error

-- A call `build_offset_body(group_id, mode, **kw)` with the keyword arguments of one mode.
abbrev pub mode_name : OffsetParams → Text
mode_name mode_none = codes "none"
mode_name (mode_explicit _) = codes "explicit"
mode_name (mode_linear _ _) = codes "linear"
mode_name (mode_vshape _ _ _) = codes "vshape"
mode_name (mode_modulo _ _ _) = codes "modulo"

abbrev pub kwargs_of : OffsetParams → OffsetKwargs
kwargs_of mode_none = default_kwargs
kwargs_of (mode_explicit ms) = record default_kwargs { offset_ms = ms }
kwargs_of (mode_linear b s) = record default_kwargs { base_ms = b; step_ms = s }
kwargs_of (mode_vshape b s c) = record default_kwargs { base_ms = b; step_ms = s; center = c }
kwargs_of (mode_modulo b s c) = record default_kwargs { base_ms = b; step_ms = s; cycle = c }

unfoldable pub build_offset_of : ℤ → OffsetParams → Result Bytes
unfolding build_offset_body
build_offset_of group_id p = build_offset_body group_id (str_mode (mode_name p)) (kwargs_of p)
