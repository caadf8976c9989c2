-- ===== src/Protocol/Struct.antt =====
-- The formats of Python's `struct` that the protocol uses: little-endian bytes and 16-bit words.
-- A byte string is a list of numbers; every number that is packed as `B` is masked before.
use gatecontrol_lora.Prelude.{
  ℕ, ◌+◌, ◌-◌, ◌*◌, ◌/◌, ◌%◌, ◌<◌, ◌≡◌, arith, List, [], ◌∷◌, ltb, if◌then◌else◌, ℤ, pos, negsuc,
  ◌≤ℤ◌, Result, ok, err, struct_error, All,
}

abbrev pub Bytes : Type 0
Bytes = List ℕ

abbrev pub IsByte : ℕ → Type 0
IsByte b = b < 256

abbrev pub IsBytes : Bytes → Type 0
IsBytes bs = All IsByte bs

-- The two bytes of a 16-bit word, the low one first.
abbrev pub word : ℕ → Bytes
word n = (n % 256) ∷ (n / 256) ∷ []

-- `struct.pack("<H", v)` and `struct.pack("<h", v)`; `struct.error` outside the range.
abbrev pub pack_u16 : ℤ → Result Bytes
pack_u16 (pos n) = if ltb n 65536 then ok (word n) else err struct_error
pack_u16 (negsuc n) = err struct_error

abbrev pub pack_i16 : ℤ → Result Bytes
pack_i16 (pos n) = if ltb n 32768 then ok (word n) else err struct_error
pack_i16 (negsuc n) = if ltb n 32768 then ok (word (65535 - n)) else err struct_error

-- The inverses on two bytes.
abbrev pub unpack_u16 : ℕ → ℕ → ℕ
unpack_u16 lo hi = lo + hi * 256

abbrev pub signed : ℕ → ℕ → ℤ
signed half u = if ltb u half then pos u else negsuc (2 * half - 1 - u)

abbrev pub unpack_i16 : ℕ → ℕ → ℤ
unpack_i16 lo hi = signed 32768 (unpack_u16 lo hi)

-- `struct.unpack("<b", ...)`
abbrev pub unpack_i8 : ℕ → ℤ
unpack_i8 b = signed 128 b

abbrev pub IsU16 : ℤ → Type 0
IsU16 v = (pos 0 ≤ℤ v) × (v ≤ℤ pos 65535)

abbrev pub IsI16 : ℤ → Type 0
IsI16 v = (negsuc 32767 ≤ℤ v) × (v ≤ℤ pos 32767)

-- A word in range is packed into two bytes, from which it is read back.
pub pack_u16_lem :
    (v : ℤ)
    → IsU16 v
    → (lo : ℕ) × (hi : ℕ) × (pack_u16 v ≡ ok (lo ∷ hi ∷ [])) × (pos (unpack_u16 lo hi) ≡ v)
pack_u16_lem (pos n) h = (n % 256, n / 256, ground arith, ground arith)
pack_u16_lem (negsuc n) h = absurd (omega arith)

pub pack_i16_lem :
    (v : ℤ)
    → IsI16 v
    → (lo : ℕ) × (hi : ℕ) × (pack_i16 v ≡ ok (lo ∷ hi ∷ [])) × (unpack_i16 lo hi ≡ v)
pack_i16_lem (pos n) h = (n % 256, n / 256, ground arith, ground arith)
pack_i16_lem (negsuc n) h = ((65535 - n) % 256, (65535 - n) / 256, ground arith, ground arith)

-- Reading a word and packing it gives the two bytes back.
pub pack_u16-unpack :
    (lo hi : ℕ) → IsByte lo → IsByte hi → pack_u16 (pos (unpack_u16 lo hi)) ≡ ok (lo ∷ hi ∷ [])
pack_u16-unpack lo hi h k = ground arith

pub pack_i16-unpack :
    (lo hi : ℕ) → IsByte lo → IsByte hi → pack_i16 (unpack_i16 lo hi) ≡ ok (lo ∷ hi ∷ [])
pack_i16-unpack lo hi h k = ground arith
