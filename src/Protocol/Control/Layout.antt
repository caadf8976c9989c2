-- ===== src/Protocol/Control/Layout.antt =====
-- What the builder of racelink/protocol/packets.py puts into an OPC_CONTROL body, in closed form,
-- and what a receiver reads from it.
use gatecontrol_lora.Prelude.{
  ℕ, Bool, Bool-cases, Option, [], append-nil, byte, false, if◌then◌else◌, inl, inr, is_some, none,
  refl, some, true, ℤ, ◌++◌, ◌∷◌, ◌≡◌, append_assoc, ◌||◌, not, ◌==◌, arith, leb, length,
  length-append, ok, ◌+◌, ◌∙◌, ◌≤◌,
}
use gatecontrol_lora.Protocol.Struct.{Bytes}
use gatecontrol_lora.Protocol.Control.{
  Rgb, ControlFields, add_byte, add_checks, add_color, ext_part, has_c3_or_checks, main_part,
  assemble, build_control_body,
}
use gatecontrol_lora.Protocol.Control.Checks.{packed_checks-weighted}
use gatecontrol_lora.Protocol.Control.Masks.{
  mask4, mask7, set_bit, mask8, mask8-Bits, mask4-mask8, mask4_zero,
}
use gatecontrol_lora.Protocol.Control.Reader.{
  Decoded, Reader, block, byte_if, color_block, color_if, pure, read_control, read_ext, sent,
  sent_checks, sent_color, ◌>>=◌,
}

bind_of :
    {A B : Type 0} (m : Reader A) (k : A → Reader B) (bs : Bytes) {a : A} {rest : Bytes}
    → m bs ≡ some (a, rest)
    → (m >>= k) bs ≡ k a rest
bind_of m k bs e = rw (e, ◌>>=◌)

>>=-block :
    {B : Type 0} (o : Option ℕ) (rest : Bytes) (k : Option ℕ → Reader B)
    → (byte_if (is_some o) >>= k) (block o ++ rest) ≡ k o rest
unfolding byte_if
>>=-block none rest k = refl
>>=-block (some b) rest k = refl

>>=-color_block :
    {B : Type 0} (o : Option (ℕ × ℕ × ℕ)) (rest : Bytes) (k : Option (ℕ × ℕ × ℕ) → Reader B)
    → (color_if (is_some o) >>= k) (color_block o ++ rest) ≡ k o rest
unfolding color_if
>>=-color_block none rest k = refl
>>=-color_block (some (r, g, b)) rest k = refl

-- The last field of a block, with nothing behind it.
>>=-color_block_end :
    {B : Type 0} (o : Option (ℕ × ℕ × ℕ)) (k : Option (ℕ × ℕ × ℕ) → Reader B)
    → (color_if (is_some o) >>= k) (color_block o) ≡ k o []
unfolding color_if
>>=-color_block_end none k = refl
>>=-color_block_end (some (r, g, b)) k = refl

add_byte_lem :
    (o : Option ℤ) (flag mask : ℕ) (tail : Bytes)
    → add_byte o flag (mask, tail) ≡ (set_bit (is_some (sent o)) flag mask, tail ++ block (sent o))
unfolding add_byte
add_byte_lem none flag mask tail = rw append-nil refl
add_byte_lem (some v) flag mask tail = refl

add_color_lem :
    (o : Option Rgb) (flag mask : ℕ) (tail : Bytes)
    → add_color o flag (mask, tail)
      ≡ (set_bit (is_some (sent_color o)) flag mask, tail ++ color_block (sent_color o))
unfolding add_color
add_color_lem none flag mask tail = rw append-nil refl
add_color_lem (some c) flag mask tail = refl

add_checks_lem :
    (f : ControlFields) (mask : ℕ) (tail : Bytes)
    → add_checks f (mask, tail)
      ≡ (set_bit (is_some (sent_checks f)) 0x40 mask, tail ++ block (sent_checks f))
unfolding add_checks
add_checks_lem f mask tail = elim (Bool-cases (has_c3_or_checks f)) [
  | inl e ↦ rw (e, packed_checks-weighted f) refl
  | inr e ↦ rw (e, append-nil) refl
]

module _ (f : ControlFields) where
  abbrev main_mask : ℕ
  main_mask =
      mask7 (is_some (sent f.brightness)) (is_some (sent f.mode)) (is_some (sent f.speed))
        (is_some (sent f.intensity)) (is_some (sent f.custom1)) (is_some (sent f.custom2))
        (is_some (sent_checks f))

  abbrev main_bytes : Bytes → Bytes
  main_bytes rest =
      block (sent f.brightness)
      ++ (block (sent f.mode)
          ++ (block (sent f.speed)
              ++ (block (sent f.intensity)
                  ++ (block (sent f.custom1)
                      ++ (block (sent f.custom2) ++ (block (sent_checks f) ++ rest))))))

  abbrev ext_mask : ℕ
  ext_mask =
      mask4 (is_some (sent f.palette)) (is_some (sent_color f.color1))
        (is_some (sent_color f.color2)) (is_some (sent_color f.color3))

  abbrev ext_bytes : Bytes
  ext_bytes =
      block (sent f.palette)
      ++ (color_block (sent_color f.color1)
          ++ (color_block (sent_color f.color2) ++ color_block (sent_color f.color3)))

  main_part_lem : main_part f ≡ (main_mask, main_bytes [])
  unfolding main_part
  main_part_lem = simp (add_byte_lem, add_checks_lem, append_assoc, append-nil)

  ext_part_lem : ext_part f ≡ (ext_mask, ext_bytes)
  unfolding ext_part
  ext_part_lem = simp (add_byte_lem, add_color_lem, append_assoc)

  abbrev has_ext : Bool
  has_ext =
      is_some (sent f.palette)
      || (is_some (sent_color f.color1)
          || (is_some (sent_color f.color2) || is_some (sent_color f.color3)))

  abbrev full_mask : Bool → ℕ
  full_mask ext =
      mask8 (is_some (sent f.brightness)) (is_some (sent f.mode)) (is_some (sent f.speed))
        (is_some (sent f.intensity)) (is_some (sent f.custom1)) (is_some (sent f.custom2))
        (is_some (sent_checks f)) ext

  -- The builder's bytes in closed form.
  abbrev control_bytes : ℕ → ℕ → Bytes
  control_bytes g flags =
      g ∷ flags ∷ full_mask has_ext ∷ main_bytes (if has_ext then ext_mask ∷ ext_bytes else [])

  assemble_lem : (g flags : ℕ) → assemble g flags (main_part f) (ext_part f) ≡ control_bytes g flags
  unfolding assemble mask8
  assemble_lem g flags =
      rw (main_part_lem, ext_part_lem)
        (rw ext_zero
          (elim (Bool-cases has_ext) [ inl e ↦ rw e (simp (append_assoc)) | inr e ↦ rw e refl ]))
    where
      ext_zero : (ext_mask == 0) ≡ not has_ext
      ext_zero =
          mask4_zero (is_some (sent f.palette)) (is_some (sent_color f.color1))
            (is_some (sent_color f.color2)) (is_some (sent_color f.color3))

  abbrev pub decoded : ℕ → ℕ → Decoded
  decoded g flags = record {
    group_id = g;
    flags = flags;
    brightness = sent f.brightness;
    mode = sent f.mode;
    speed = sent f.speed;
    intensity = sent f.intensity;
    custom1 = sent f.custom1;
    custom2 = sent f.custom2;
    checks = sent_checks f;
    palette = sent f.palette;
    color1 = sent_color f.color1;
    color2 = sent_color f.color2;
    color3 = sent_color f.color3;
  }

  abbrev Ext : Type 0
  Ext = Option ℕ × Option (ℕ × ℕ × ℕ) × Option (ℕ × ℕ × ℕ) × Option (ℕ × ℕ × ℕ)

  abbrev sent_ext : Ext
  sent_ext = (sent f.palette, sent_color f.color1, sent_color f.color2, sent_color f.color3)

  read_ext_block : read_ext true (ext_mask ∷ ext_bytes) ≡ some (sent_ext, [])
  unfolding read_ext
  read_ext_block =
      let b =
        mask8-Bits (is_some (sent f.palette)) (is_some (sent_color f.color1))
          (is_some (sent_color f.color2)) (is_some (sent_color f.color3)) false false false false in
      rw mask4-mask8
        (simp (b.bit0, b.bit1, b.bit2, b.bit3, >>=-block, >>=-color_block, >>=-color_block_end))

  read_main_lem :
      (g flags : ℕ) (x : Bool) (rest : Bytes)
      → read_control (g ∷ flags ∷ full_mask x ∷ main_bytes rest)
        ≡ (read_ext x >>= λ e. pure (record (decoded g flags) {
          palette = e.0;
          color1 = e.1;
          color2 = e.2;
          color3 = e.3;
        }))
            rest
  unfolding read_control
  read_main_lem g flags x rest =
      let b =
        mask8-Bits (is_some (sent f.brightness)) (is_some (sent f.mode)) (is_some (sent f.speed))
          (is_some (sent f.intensity)) (is_some (sent f.custom1)) (is_some (sent f.custom2))
          (is_some (sent_checks f)) x in
      simp (b.bit0, b.bit1, b.bit2, b.bit3, b.bit4, b.bit5, b.bit6, b.bit7, >>=-block)

  no_ext : has_ext ≡ false → sent_ext ≡ (none, none, none, none)
  no_ext e = ground arith

  read_ext_lem :
      read_ext has_ext (if has_ext then ext_mask ∷ ext_bytes else []) ≡ some (sent_ext, [])
  unfolding read_ext
  read_ext_lem = elim (Bool-cases has_ext) [
    | inl e ↦ rw e read_ext_block
    | inr e ↦ rw (e, no_ext e) refl
  ]

  read_control_bytes :
      (g flags : ℕ) → read_control (control_bytes g flags) ≡ some (decoded g flags, [])
  read_control_bytes g flags =
      read_main_lem g flags has_ext _ ∙ bind_of (read_ext has_ext) _ _ read_ext_lem

  length-block : (o : Option ℕ) → length (block o) ≤ 1
  length-block o = ground arith

  length-color_block : (o : Option (ℕ × ℕ × ℕ)) → length (color_block o) ≤ 3
  length-color_block o = ground arith

  length-main_bytes : (rest : Bytes) → length (main_bytes rest) ≤ 7 + length rest
  length-main_bytes rest = simp length-append (
      omega (
        arith,
        length-block (sent f.brightness),
        length-block (sent f.mode),
        length-block (sent f.speed),
        length-block (sent f.intensity),
        length-block (sent f.custom1),
        length-block (sent f.custom2),
        length-block (sent_checks f),
      ))

  length-ext_bytes : length ext_bytes ≤ 10
  length-ext_bytes = simp length-append (
      omega (
        arith,
        length-block (sent f.palette),
        length-color_block (sent_color f.color1),
        length-color_block (sent_color f.color2),
        length-color_block (sent_color f.color3),
      ))

  length-control_bytes : (g flags : ℕ) → length (control_bytes g flags) ≤ 21
  length-control_bytes g flags = elim (Bool-cases has_ext) [
    | inl e ↦ rw e (omega (arith, length-main_bytes (ext_mask ∷ ext_bytes), length-ext_bytes))
    | inr e ↦ rw e (omega (arith, length-main_bytes []))
  ]

-- For every combination of fields the builder returns a body of 3 to 21 bytes (its assertion
-- never fires), and a receiver that follows the documented layout reads from it exactly the
-- fields that were given, each masked to its width, with nothing left over; the byte of `custom3`
-- and the checks is the low five bits of `custom3` plus 32, 64 and 128 for the checks that are set.
pub read_control-build_control_body :
    (group_id flags : ℤ) (f : ControlFields)
    → (body : Bytes) × (build_control_body group_id flags f ≡ ok body)
      × (read_control body ≡ some (decoded f (byte group_id) (byte flags), []))
      × (3 ≤ length body)
      × (length body ≤ 21)
unfolding build_control_body
read_control-build_control_body group_id flags f =
    let body = control_bytes f (byte group_id) (byte flags) in
    let short : length body ≤ 21 = length-control_bytes f (byte group_id) (byte flags) in
    (
      body,
      rw (assemble_lem f (byte group_id) (byte flags)) (rw (within _ short) refl),
      read_control_bytes f (byte group_id) (byte flags),
      omega arith,
      short,
    )
  where
    within : (n : ℕ) → n ≤ 21 → leb n 22 ≡ true
    within n h = ground arith
