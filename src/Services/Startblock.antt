-- ===== src/Services/Startblock.antt =====
-- racelink/services/startblock_service.py: the payload of a start block, and which block gets it.
-- `upper_text` is Python's `str.upper` as far as the bytes that are sent show it: a character whose
-- upper case has no ASCII letter stands for that itself, and twice where it is longer than one;
-- device objects are records of the fields that are read.
pub mod Program
pub mod Slots
use gatecontrol_lora.Prelude.{
  ℕ, Bool, List, Option, Text, [], clamp, codes, false, if◌then◌else◌, is_some, keep, leb, length,
  ltb, ltb_ℤ, map, none, not, pos, pos_part, some, suc, take, true, zero, ℤ, ◌&&◌, ◌++◌, ◌+◌, ◌-◌,
  ◌==◌, ◌||◌, ◌∷◌,
}
use gatecontrol_lora.Protocol.Struct.{Bytes}
use gatecontrol_lora.Services.Scenes.Slug.{strip, or_text}

-- `name.replace(old, new)` for the keys of `_DE_UMLAUT_MAP`, which have two characters.
unfoldable pub replace2 : ℕ → ℕ → Text → Text → Text
replace2 a b new [] = []
replace2 a b new (x ∷ []) = x ∷ []
replace2 a b new (x ∷ y ∷ rest) = elim (x == a && y == b) [
  | true ↦ new ++ replace2 a b new rest
  | false ↦ x ∷ replace2 a b new (y ∷ rest)
]

-- The loop over `_DE_UMLAUT_MAP`, with its keys as the source has them.
unfoldable pub replace_umlauts : Text → Text
unfolding replace2
replace_umlauts name = replace2 0xC3 0x153 (codes "UE") (
    replace2 0xC3 0x2013 (codes "OE") (
      replace2 0xC3 0x201E (codes "AE") (
        replace2 0xC3 0x178 (codes "ss") (
          replace2 0xC3 0xBC (codes "ue")
            (replace2 0xC3 0xB6 (codes "oe") (replace2 0xC3 0xA4 (codes "ae") name))))))

abbrev pub between : ℕ → ℕ → ℕ → Bool
between lo hi c = leb lo c && leb c hi

-- The characters beyond Latin-1 with an ASCII letter in their upper case: the dotless i, the long
-- s, and those that are upper-cased to more than one character.
abbrev ascii_uppers : List (ℕ × Text)
ascii_uppers =
    (0x131, 0x49 ∷ [])
    ∷ (0x149, 0x2BC ∷ 0x4E ∷ [])
    ∷ (0x17F, 0x53 ∷ [])
    ∷ (0x1F0, 0x4A ∷ 0x30C ∷ [])
    ∷ (0x1E96, 0x48 ∷ 0x331 ∷ [])
    ∷ (0x1E97, 0x54 ∷ 0x308 ∷ [])
    ∷ (0x1E98, 0x57 ∷ 0x30A ∷ [])
    ∷ (0x1E99, 0x59 ∷ 0x30A ∷ [])
    ∷ (0x1E9A, 0x41 ∷ 0x2BE ∷ [])
    ∷ (0xFB00, 0x46 ∷ 0x46 ∷ [])
    ∷ (0xFB01, 0x46 ∷ 0x49 ∷ [])
    ∷ (0xFB02, 0x46 ∷ 0x4C ∷ [])
    ∷ (0xFB03, 0x46 ∷ 0x46 ∷ 0x49 ∷ [])
    ∷ (0xFB04, 0x46 ∷ 0x46 ∷ 0x4C ∷ [])
    ∷ (0xFB05, 0x53 ∷ 0x54 ∷ [])
    ∷ (0xFB06, 0x53 ∷ 0x54 ∷ [])
    ∷ []

-- Those whose upper case has more than one character, and no ASCII letter.
abbrev long_uppers : List ℕ
long_uppers =
    0x390 ∷ 0x3B0 ∷ 0x587 ∷ 0x1F50 ∷ 0x1F52 ∷ 0x1F54 ∷ 0x1F56 ∷ 0x1FB2 ∷ 0x1FB3 ∷ 0x1FB4 ∷ 0x1FB6
    ∷ 0x1FB7 ∷ 0x1FBC ∷ 0x1FC2 ∷ 0x1FC3 ∷ 0x1FC4 ∷ 0x1FC6 ∷ 0x1FC7 ∷ 0x1FCC ∷ 0x1FD2 ∷ 0x1FD3
    ∷ 0x1FD6 ∷ 0x1FD7 ∷ 0x1FE2 ∷ 0x1FE3 ∷ 0x1FE4 ∷ 0x1FE6 ∷ 0x1FE7 ∷ 0x1FF2 ∷ 0x1FF3 ∷ 0x1FF4
    ∷ 0x1FF6 ∷ 0x1FF7 ∷ 0x1FFC ∷ []

abbrev listed : ℕ → List ℕ → Bool
listed c [] = false
listed c (x ∷ xs) = x == c || listed c xs

abbrev upper_in : ℕ → List (ℕ × Text) → Text
upper_in c [] =
    if listed c long_uppers || (between 0x1F80 0x1FAF c || between 0xFB13 0xFB17 c)
    then c ∷ c ∷ []
    else c ∷ []
upper_in c ((x, upper) ∷ rest) = if x == c then upper else upper_in c rest

unfoldable pub upper_char : ℕ → Text
upper_char c =
    if between 97 122 c
    then (c - 32) ∷ []
    else if c == 0xDF
    then codes "SS"
    else if c == 0xB5
    then 0x39C ∷ []
    else if c == 0xFF
    then 0x178 ∷ []
    else if between 0xE0 0xFE c && not (c == 0xF7)
    then (c - 32) ∷ []
    else if ltb c 256
    then c ∷ []
    else upper_in c ascii_uppers

unfoldable pub upper_text : Text → Text
unfolding upper_char
upper_text [] = []
upper_text (c ∷ cs) = upper_char c ++ upper_text cs

abbrev pub is_blank : ℕ → Bool
is_blank c =
    (between 9 13 c || (between 28 32 c || (c == 0x85 || c == 0xA0)))
    || ((c == 0x1680 || between 0x2000 0x200A c)
        || (between 0x2028 0x2029 c || (c == 0x202F || (c == 0x205F || c == 0x3000))))

-- `[A-Z0-9 _\-\.\+]`, which ignores case: by its rules also the dotted and the dotless i, the long s
-- and the sign of Kelvin are letters.
unfoldable pub is_allowed : ℕ → Bool
is_allowed c =
    (between 65 90 c || between 97 122 c)
    || (between 48 57 c || (c == 32 || (c == 95 || (c == 45 || (c == 46 || c == 43)))))
    || (between 0x130 0x131 c || (c == 0x17F || c == 0x212A))

-- `_ALLOWED_NAME_RE.sub(" ", name)`
unfoldable pub blank_others : Text → Text
unfolding is_allowed
blank_others = map (λ c. if is_allowed c then c else 32)

-- `re.sub(r"\s+", " ", name)`; the flag is whether the character before was a blank.
unfoldable pub single_blanks : Bool → Text → Text
single_blanks before [] = []
single_blanks before (c ∷ cs) =
    let rest = single_blanks (is_blank c) cs in
    if is_blank c then (if before then rest else 32 ∷ rest) else c ∷ rest

-- `sanitize_pilot_name`
unfoldable pub sanitize_pilot_name : Text → ℕ → Text
unfolding replace_umlauts upper_text blank_others single_blanks
sanitize_pilot_name name max_len =
    let clean =
      strip is_blank
        (single_blanks false (blank_others (upper_text (strip is_blank (replace_umlauts name))))) in
    if max_len == 0 then clean else take max_len clean

-- `encode("ascii", errors="replace")`
unfoldable pub encode_ascii : Text → Bytes
encode_ascii = map (λ c. if ltb c 128 then c else 63)

-- `encode_channel_fixed2`
unfoldable pub encode_channel_fixed2 : Text → Bytes
unfolding upper_text encode_ascii
encode_channel_fixed2 label =
    encode_ascii (take 2 (upper_text (strip is_blank label) ++ (45 ∷ 45 ∷ [])))

-- `max(0, min(255, int(slot)))`
abbrev pub slot_byte : ℤ → ℕ
slot_byte slot = pos_part (clamp (pos 0) (pos 255) slot)

-- `build_startblock_payload_v1`, with the default encoding of the name
unfoldable pub build_startblock_payload_v1 : ℤ → Text → Text → ℕ → Bytes
unfolding encode_channel_fixed2 sanitize_pilot_name encode_ascii
build_startblock_payload_v1 slot channel_label pilot_name max_name_len =
    let name_bytes = take 255 (encode_ascii (sanitize_pilot_name pilot_name max_name_len)) in
    1 ∷ slot_byte slot ∷ (encode_channel_fixed2 channel_label ++ length name_bytes ∷ name_bytes)

-- What the code reads of a device.
pub record StartDevice : Type 0 where
  pub device_id : Text
  pub has_startblock : Bool
  pub group_id : ℤ
  pub startblock_slots : Option ℤ
  pub startblock_first_slot : Option ℤ

abbrev pub eq_int : ℤ → ℤ → Bool
eq_int a b = not (ltb_ℤ a b) && not (ltb_ℤ b a)

-- `iter_startblock_devices`
unfoldable pub iter_startblock_devices :
    List StartDevice → Option StartDevice → Option ℤ → List StartDevice
iter_startblock_devices devices (some d) group = if d.has_startblock then d ∷ [] else []
iter_startblock_devices devices none (some gid) =
    keep (λ d. d.has_startblock && eq_int d.group_id gid) devices
iter_startblock_devices devices none none = keep (λ d. d.has_startblock) devices

-- The slot count and the first slot; both are the defaults where one is missing.
unfoldable pub slots_of : Option ℤ → Option ℤ → ℤ × ℤ
slots_of (some count) (some first) = (count, first)
slots_of none first = (pos 8, pos 1)
slots_of (some count) none = (pos 8, pos 1)

-- `max(1, min(8, v))`
unfoldable pub one_to_eight : ℤ → ℕ
one_to_eight v = pos_part (clamp (pos 1) (pos 8) v)

-- An entry of `dev_ranges`.
pub record DeviceRange : Type 0 where
  pub range_device : StartDevice
  pub first_slot : ℕ
  pub last_slot : ℕ

unfoldable pub device_range : StartDevice → DeviceRange
unfolding slots_of one_to_eight
device_range d =
    let count = one_to_eight (slots_of d.startblock_slots d.startblock_first_slot).0 in
    let first = one_to_eight (slots_of d.startblock_slots d.startblock_first_slot).1 in
    let last = first + count - 1 in
    record { range_device = d; first_slot = first; last_slot = if ltb last 8 then last else 8 }

-- `slot_to_dev`
abbrev pub SlotMap : Type 0
SlotMap = List (ℕ × StartDevice)

unfoldable pub get_slot : ℕ → SlotMap → Option StartDevice
get_slot slot [] = none
get_slot slot ((k, d) ∷ rest) = if k == slot then some d else get_slot slot rest

-- `slot_to_dev.setdefault(slot, dev)`
unfoldable pub set_default : ℕ → StartDevice → SlotMap → SlotMap
unfolding get_slot
set_default slot d m = if is_some (get_slot slot m) then m else m ++ (slot, d) ∷ []

-- `for slot in range(first, first + n)`
unfoldable pub set_range : ℕ → ℕ → StartDevice → SlotMap → SlotMap
unfolding set_default
set_range first zero d m = m
set_range first (suc n) d m = set_range (suc first) n d (set_default first d m)

unfoldable pub add_range : DeviceRange → SlotMap → SlotMap
unfolding set_range
add_range r m = set_range r.first_slot (r.last_slot + 1 - r.first_slot) r.range_device m

unfoldable pub add_ranges : List DeviceRange → SlotMap → SlotMap
unfolding add_range
add_ranges [] m = m
add_ranges (r ∷ rs) m = add_ranges rs (add_range r m)

-- `_build_device_slot_mapping`
unfoldable pub build_device_slot_mapping : List StartDevice → SlotMap × List DeviceRange
unfolding device_range add_ranges
build_device_slot_mapping devices =
    let ranges = map device_range devices in (add_ranges ranges [], ranges)

-- An entry of a slot list: slot (from 0), callsign, race channel.
abbrev pub SlotEntry : Type 0
SlotEntry = ℤ × Text × Text

unfoldable pub has_entry : ℕ → List SlotEntry → Bool
has_entry slot [] = false
has_entry slot ((k, callsign, channel) ∷ rest) = eq_int k (pos slot) || has_entry slot rest

-- `slot_map.get(slot, ("", "--"))` of the dict of the entries, where a later entry of a slot wins.
unfoldable pub slot_names : ℕ → List SlotEntry → Text × Text
unfolding has_entry
slot_names slot [] = ([], codes "--")
slot_names slot ((k, callsign, channel) ∷ rest) =
    let later = slot_names slot rest in
    if eq_int k (pos slot) && not (has_entry slot rest)
    then (callsign, or_text channel (codes "--"))
    else later

-- A call of the stream service for one slot (from 1), to a device or to the group.
pub record StreamCall : Type 0 where
  pub slot : ℕ
  pub to_device : Option StartDevice
  pub payload : Bytes

pub data ControlResult : Type 0 where
  not_ready no_capability : ControlResult
  group_sent : ℤ → List StreamCall → ControlResult
  unicast_sent : List DeviceRange → List StreamCall → ControlResult

unfoldable pub slot_payload : ℕ → List SlotEntry → Bytes
unfolding slot_names build_startblock_payload_v1
slot_payload slot0 entries =
    build_startblock_payload_v1 (pos (slot0 + 1)) (slot_names slot0 entries).1
      (slot_names slot0 entries).0 32

-- `range(8)`
abbrev pub slots0 : List ℕ
slots0 = 0 ∷ 1 ∷ 2 ∷ 3 ∷ 4 ∷ 5 ∷ 6 ∷ 7 ∷ []

unfoldable pub group_calls : List ℕ → List SlotEntry → List StreamCall
unfolding slot_payload
group_calls [] entries = []
group_calls (s ∷ ss) entries =
    record { slot = s + 1; to_device = none; payload = slot_payload s entries }
    ∷ group_calls ss entries

abbrev pub call_for : ℕ → Option StartDevice → List SlotEntry → List StreamCall → List StreamCall
call_for s none entries rest = rest
call_for s (some d) entries rest =
    record { slot = s + 1; to_device = some d; payload = slot_payload s entries } ∷ rest

unfoldable pub device_calls : List ℕ → SlotMap → List SlotEntry → List StreamCall
unfolding slot_payload get_slot
device_calls [] m entries = []
device_calls (s ∷ ss) m entries =
    call_for s (get_slot (s + 1) m) entries (device_calls ss m entries)

unfoldable pub send_to_devices : List StartDevice → List SlotEntry → ControlResult
unfolding build_device_slot_mapping device_calls
send_to_devices [] entries = unicast_sent [] []
send_to_devices (d ∷ ds) entries =
    let (m, ranges) = build_device_slot_mapping (d ∷ ds) in
    unicast_sent ranges (device_calls slots0 m entries)

-- `send_startblock_control`, for the slot list of the current heat or of the parameters
unfoldable pub send_startblock_control :
    Bool → List StartDevice → Option StartDevice → Option ℤ → List SlotEntry → ControlResult
unfolding group_calls send_to_devices iter_startblock_devices
send_startblock_control false devices device group entries = not_ready
send_startblock_control true devices device (some gid) entries =
    group_sent gid (group_calls slots0 entries)
send_startblock_control true devices (some d) none entries =
    if d.has_startblock then send_to_devices (d ∷ []) entries else no_capability
send_startblock_control true devices none none entries =
    send_to_devices (iter_startblock_devices devices none none) entries
