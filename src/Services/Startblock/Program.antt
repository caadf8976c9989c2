-- ===== src/Services/Startblock/Program.antt =====
-- racelink/services/startblock_service.py: what a start block reads from its payload.
use gatecontrol_lora.Prelude.{
  ℕ, All, Bool, Bool-cases, Text, [], arith, false, if◌then◌else◌, inl, inr, length, refl, suc,
  take, true, zero, ◌&&◌, ◌==◌, ◌∷◌, ◌≡◌, ==-refl, Option, ap, length-take-le, ltb, none, some, ℤ,
  ◌++◌, ◌∙◌, ◌≤◌, leb, map, sym, ◌||◌,
}
use gatecontrol_lora.Protocol.Struct.{Bytes}
use gatecontrol_lora.Services.Scenes.Slug.{strip, lstrip, rstrip}
use gatecontrol_lora.Services.Startblock.{
  sanitize_pilot_name, blank_others, encode_ascii, is_allowed, is_blank, single_blanks,
  build_startblock_payload_v1, encode_channel_fixed2, slot_byte, upper_text, replace_umlauts,
}

-- A letter, a digit or one of the other five characters of a name, or one of the four that the
-- comparison without case takes for i, s and k.
abbrev pub is_name_char : ℕ → Bool
is_name_char c =
    ((leb 65 c && leb c 90) || (leb 97 c && leb c 122))
    || ((leb 48 c && leb c 57) || (c == 32 || (c == 95 || (c == 45 || (c == 46 || c == 43)))))
    || (c == 304 || (c == 305 || (c == 383 || c == 8490)))

abbrev pub Allowed : ℕ → Type 0
Allowed c = is_name_char c ≡ true

is_allowed_lem : (c : ℕ) → is_allowed c ≡ is_name_char c
unfolding is_allowed
is_allowed_lem c = ground arith

module _ {κ} (P : ℕ → Type κ) where
  All-take : (n : ℕ) (t : Text) → All P t → All P (take n t)
  All-take zero t h = tt
  All-take (suc n) [] h = tt
  All-take (suc n) (c ∷ cs) (h, hs) = (h, All-take n cs hs)

  All-lstrip : (p : ℕ → Bool) (t : Text) → All P t → All P (lstrip p t)
  All-lstrip p [] h = tt
  All-lstrip p (c ∷ cs) (h, hs) = elim (Bool-cases (p c)) [
    | inl e ↦ rw e (All-lstrip p cs hs)
    | inr e ↦ rw e (h, hs)
  ]

  All-rstrip : (p : ℕ → Bool) (t : Text) → All P t → All P (rstrip p t)
  All-rstrip p [] h = tt
  All-rstrip p (c ∷ cs) (h, hs) = elim (Bool-cases (p c && length (rstrip p cs) == 0)) [
    | inl e ↦ rw e tt
    | inr e ↦ rw e (h, All-rstrip p cs hs)
  ]

  All-strip : (p : ℕ → Bool) (t : Text) → All P t → All P (strip p t)
  All-strip p t h = All-lstrip p (rstrip p t) (All-rstrip p t h)

Allowed-or_blank : (b : Bool) (c : ℕ) → is_allowed c ≡ b → Allowed (if b then c else 32)
Allowed-or_blank true c h = sym (is_allowed_lem c) ∙ h
Allowed-or_blank false c h = refl

blank_others-Allowed : (t : Text) → All Allowed (blank_others t)
unfolding blank_others
blank_others-Allowed [] = tt
blank_others-Allowed (c ∷ cs) = (Allowed-or_blank (is_allowed c) c refl, blank_others-Allowed cs)

blank_Allowed : Allowed 32
blank_Allowed = refl

after_blank :
    (before : Bool) (t : Text) → All Allowed t → All Allowed (if before then t else 32 ∷ t)
after_blank true t h = h
after_blank false t h = (blank_Allowed, h)

single_blanks-Allowed :
    (before : Bool) (t : Text) → All Allowed t → All Allowed (single_blanks before t)
unfolding single_blanks
single_blanks-Allowed before [] h = tt
single_blanks-Allowed before (c ∷ cs) (h, hs) = elim (Bool-cases (is_blank c)) [
  | inl e ↦ rw e (after_blank before (single_blanks true cs) (single_blanks-Allowed true cs hs))
  | inr e ↦ rw e (h, single_blanks-Allowed false cs hs)
]

-- What a character is sent as.
abbrev pub ascii_or_mark : ℕ → ℕ
ascii_or_mark c = if ltb c 128 then c else 63

encode_ascii_lem : (t : Text) → encode_ascii t ≡ map ascii_or_mark t
unfolding encode_ascii
encode_ascii_lem t = refl

length-marked : (t : Text) → length (map ascii_or_mark t) ≡ length t
length-marked [] = refl
length-marked (c ∷ cs) = ap suc (length-marked cs)

shortened : (n : ℕ) (t : Text) → All Allowed t → All Allowed (if n == 0 then t else take n t)
shortened n t h = elim (Bool-cases (n == 0)) [
  | inl e ↦ rw e h
  | inr e ↦ rw e (All-take Allowed n t h)
]

sanitize_pilot_name-Allowed : (name : Text) (n : ℕ) → All Allowed (sanitize_pilot_name name n)
unfolding sanitize_pilot_name
sanitize_pilot_name-Allowed name n =
    let upper = upper_text (strip is_blank (replace_umlauts name)) in
    let single = single_blanks false (blank_others upper) in
    shortened n (strip is_blank single) (
      All-strip Allowed is_blank single
        (single_blanks-Allowed false (blank_others upper) (blank_others-Allowed upper)))

sanitize_pilot_name-length : (name : Text) → length (sanitize_pilot_name name 32) ≤ 32
unfolding sanitize_pilot_name
sanitize_pilot_name-length name = length-take-le 32 _

take_all : (n : ℕ) (t : Text) → length t ≤ n → take n t ≡ t
take_all zero [] h = refl
take_all zero (c ∷ cs) h = absurd (omega arith)
take_all (suc n) [] h = refl
take_all (suc n) (c ∷ cs) h = ap (λ t. c ∷ t) (take_all n cs (omega arith))

-- What a start block reads: version, slot, two characters of the channel, and a counted name.
pub record StartblockProgram : Type 0 where
  pub version : ℕ
  pub program_slot : ℕ
  pub channel : ℕ × ℕ
  pub pilot : Bytes

unfoldable pub read_startblock : Bytes → Option StartblockProgram
read_startblock (v ∷ s ∷ a ∷ b ∷ n ∷ name) =
    if length name == n
    then some (record { version = v; program_slot = s; channel = (a, b); pilot = name })
    else none
read_startblock _ = none

-- The channel in two characters: two of the label, or `-` where it has fewer.
unfoldable pub two_of : Text → ℕ × ℕ
two_of [] = (45, 45)
two_of (a ∷ []) = (a, 45)
two_of (a ∷ b ∷ rest) = (a, b)

abbrev pub channel_of : Text → ℕ × ℕ
channel_of label =
    let c = two_of (upper_text (strip is_blank label)) in (ascii_or_mark c.0, ascii_or_mark c.1)

encode_channel_lem :
    (t : Text)
    → encode_ascii (take 2 (t ++ (45 ∷ 45 ∷ [])))
      ≡ ascii_or_mark (two_of t).0 ∷ ascii_or_mark (two_of t).1 ∷ []
unfolding encode_ascii two_of
encode_channel_lem [] = refl
encode_channel_lem (a ∷ []) = refl
encode_channel_lem (a ∷ b ∷ rest) = refl

-- From the payload for any slot, channel and name, a start block reads version 1, the slot clamped
-- to a byte, the channel's two characters, and the cleaned name, of at most 32 characters. Each of
-- them is a letter, a digit or one of the blank, `_`, `-`, `.` and `+`, and is read as it is, or one
-- of the four characters outside ASCII that the regular expression takes for i, s and k, and is
-- read as a question mark. The payload has at most 37 bytes.
pub read_startblock-build_startblock_payload_v1 :
    (slot : ℤ) (label name : Text)
    → (read_startblock (build_startblock_payload_v1 slot label name 32)
        ≡ some (record {
          version = 1;
          program_slot = slot_byte slot;
          channel = channel_of label;
          pilot = map ascii_or_mark (sanitize_pilot_name name 32);
        }))
      × All Allowed (sanitize_pilot_name name 32)
      × (length (sanitize_pilot_name name 32) ≤ 32)
      × (length (build_startblock_payload_v1 slot label name 32) ≤ 37)
unfolding build_startblock_payload_v1 encode_channel_fixed2 read_startblock
read_startblock-build_startblock_payload_v1 slot label name =
    let n = sanitize_pilot_name name 32 in
    let short : length n ≤ 32 = sanitize_pilot_name-length name in
    let sized : length (map ascii_or_mark n) ≡ length n = length-marked n in
    let same_name : take 255 (encode_ascii n) ≡ map ascii_or_mark n =
      ap (take 255) (encode_ascii_lem n) ∙ take_all 255 (map ascii_or_mark n) (omega arith) in
    (
      rw (same_name, encode_channel_lem (upper_text (strip is_blank label)))
          (rw (==-refl (length (map ascii_or_mark n))) refl),
      sanitize_pilot_name-Allowed name 32,
      short,
      rw (same_name, encode_channel_lem (upper_text (strip is_blank label))) (omega arith),
    )
