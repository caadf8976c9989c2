-- ===== src/Services/Startblock/Slots.antt =====
-- racelink/services/startblock_service.py: which device gets a slot.
use gatecontrol_lora.Prelude.{
  ℕ, Bool, Bool-cases, List, Option, Text, [], codes, not, ◌||◌, if◌then◌else◌, inl, inr, leb, ltb,
  none, refl, some, suc, zero, ◌&&◌, ◌++◌, ◌+◌, ◌==◌, ◌∷◌, ◌≡◌, ==_iff, All, ap, arith, false,
  is_some, length, map, negsuc, pos, subst, sym, true, ℤ, ◌-◌, ◌∙◌, ◌≤◌, keep,
}
use gatecontrol_lora.Services.Startblock.{
  StartDevice, DeviceRange, SlotMap, get_slot, set_default, set_range, SlotEntry, StreamCall,
  add_range, add_ranges, build_device_slot_mapping, call_for, device_calls, device_range,
  one_to_eight, slot_names, slot_payload, slots_of, iter_startblock_devices, has_entry, eq_int,
  build_startblock_payload_v1, send_startblock_control, send_to_devices, slots0, unicast_sent,
}
use gatecontrol_lora.Protocol.Struct.{Bytes}
use gatecontrol_lora.Services.Scenes.Slug.{or_text}
use gatecontrol_lora.Services.Startblock.Program.{read_startblock-build_startblock_payload_v1}

-- The first range that has the slot.
abbrev pub in_range : ℕ → DeviceRange → Bool
in_range slot r = leb r.first_slot slot && leb slot r.last_slot

abbrev pub first_in_range : ℕ → List DeviceRange → Option StartDevice
first_in_range slot [] = none
first_in_range slot (r ∷ rs) =
    let rest = first_in_range slot rs in if in_range slot r then some r.range_device else rest

abbrev pub first_some {ℓ} : {A : Type ℓ} → Option A → Option A → Option A
first_some none o = o
first_some (some a) o = some a

get_slot-append :
    (slot k : ℕ) (d : StartDevice) (m : SlotMap)
    → get_slot slot (m ++ (k, d) ∷ [])
      ≡ first_some (get_slot slot m) (if k == slot then some d else none)
unfolding get_slot
get_slot-append slot k d [] = refl
get_slot-append slot k d ((j, e) ∷ m) = elim (Bool-cases (j == slot)) [
  | inl h ↦ rw h refl
  | inr h ↦ rw h (get_slot-append slot k d m)
]

first_some-none : (o : Option StartDevice) → first_some o none ≡ o
first_some-none none = refl
first_some-none (some a) = refl

first_some-kept : (o p : Option StartDevice) → is_some o ≡ true → first_some o p ≡ o
first_some-kept none p h = cc
first_some-kept (some a) p h = refl

-- A slot that has a device keeps it.
taken_kept :
    (slot k : ℕ) (d : StartDevice) (m : SlotMap)
    → is_some (get_slot k m) ≡ true
    → get_slot slot m ≡ first_some (get_slot slot m) (if k == slot then some d else none)
taken_kept slot k d m h = elim (Bool-cases (k == slot)) [
  | inr e ↦ rw e (sym (first_some-none (get_slot slot m)))
  | inl e ↦ sym (
      first_some-kept (get_slot slot m) _
        (subst (λ j. is_some (get_slot j m) ≡ true) ((==_iff k slot).0 e) h))
]

get_slot-set_default :
    (slot k : ℕ) (d : StartDevice) (m : SlotMap)
    → get_slot slot (set_default k d m)
      ≡ first_some (get_slot slot m) (if k == slot then some d else none)
unfolding set_default
get_slot-set_default slot k d m = elim (Bool-cases (is_some (get_slot k m))) [
  | inl e ↦ rw e (taken_kept slot k d m e)
  | inr e ↦ rw e (get_slot-append slot k d m)
]

-- One more slot at the front of a range.
widened :
    (o : Option StartDevice) (slot first n : ℕ) (d : StartDevice)
    → first_some
        (first_some o (if first == slot then some d else none))
        (if leb (suc first) slot && ltb slot (suc first + n) then some d else none)
      ≡ first_some o (if leb first slot && ltb slot (first + suc n) then some d else none)
widened none slot first n d = ground arith
widened (some a) slot first n d = refl

get_slot-set_range :
    (slot first n : ℕ) (d : StartDevice) (m : SlotMap)
    → get_slot slot (set_range first n d m)
      ≡ first_some
          (get_slot slot m)
          (if leb first slot && ltb slot (first + n) then some d else none)
unfolding set_range
get_slot-set_range slot first zero d m = empty (get_slot slot m)
  where
    empty :
        (o : Option StartDevice)
        → o ≡ first_some o (if leb first slot && ltb slot (first + 0) then some d else none)
    empty none = ground arith
    empty (some a) = refl
get_slot-set_range slot first (suc n) d m =
    get_slot-set_range slot (suc first) n d (set_default first d m)
    ∙ ap
        (λ o.
          first_some o (if leb (suc first) slot && ltb slot (suc first + n) then some d else none))
        (get_slot-set_default slot first d m)
    ∙ widened (get_slot slot m) slot first n d

get_slot-add_range :
    (slot : ℕ) (r : DeviceRange) (m : SlotMap)
    → get_slot slot (add_range r m)
      ≡ first_some (get_slot slot m) (if in_range slot r then some r.range_device else none)
unfolding add_range
get_slot-add_range slot r m =
    get_slot-set_range slot r.first_slot (r.last_slot + 1 - r.first_slot) r.range_device m
    ∙ ap (λ b. first_some (get_slot slot m) (if b then some r.range_device else none))
        (same_test r.first_slot r.last_slot)
  where
    same_test :
        (first last : ℕ)
        → (leb first slot && ltb slot (first + (last + 1 - first)))
          ≡ (leb first slot && leb slot last)
    same_test first last = ground arith

first_some_assoc :
    (o p q : Option StartDevice) → first_some (first_some o p) q ≡ first_some o (first_some p q)
first_some_assoc none p q = refl
first_some_assoc (some a) p q = refl

get_slot-add_ranges :
    (slot : ℕ) (rs : List DeviceRange) (m : SlotMap)
    → get_slot slot (add_ranges rs m) ≡ first_some (get_slot slot m) (first_in_range slot rs)
unfolding add_ranges
get_slot-add_ranges slot [] m = sym (first_some-none (get_slot slot m))
get_slot-add_ranges slot (r ∷ rs) m =
    get_slot-add_ranges slot rs (add_range r m)
    ∙ ap (λ o. first_some o (first_in_range slot rs)) (get_slot-add_range slot r m)
    ∙ first_some_assoc (get_slot slot m) (if in_range slot r then some r.range_device else none)
        (first_in_range slot rs)
    ∙ ap (first_some (get_slot slot m)) (joined (in_range slot r))
  where
    joined :
        (b : Bool)
        → first_some (if b then some r.range_device else none) (first_in_range slot rs)
          ≡ (if b then some r.range_device else first_in_range slot rs)
    joined true = refl
    joined false = refl

-- The range of a device lies in the slots 1 to 8 and is not empty.
abbrev pub InEight : DeviceRange → Type 0
InEight r = (1 ≤ r.first_slot) × (r.first_slot ≤ r.last_slot) × (r.last_slot ≤ 8)

one_to_eight_bounds : (v : ℤ) → (1 ≤ one_to_eight v) × (one_to_eight v ≤ 8)
unfolding one_to_eight
one_to_eight_bounds (pos n) = ground arith
one_to_eight_bounds (negsuc n) = ground arith

device_range-InEight : (d : StartDevice) → InEight (device_range d)
unfolding device_range
device_range-InEight d = ground (
  arith,
  one_to_eight_bounds (slots_of d.startblock_slots d.startblock_first_slot).0,
  one_to_eight_bounds (slots_of d.startblock_slots d.startblock_first_slot).1,
)

ranges-InEight : (ds : List StartDevice) → All InEight (map device_range ds)
ranges-InEight [] = tt
ranges-InEight (d ∷ ds) = (device_range-InEight d, ranges-InEight ds)

-- A slot belongs to the first device of the list whose range has it.
pub get_slot-build_device_slot_mapping :
    (devices : List StartDevice) (slot : ℕ)
    → All InEight (build_device_slot_mapping devices).1
      × (get_slot slot (build_device_slot_mapping devices).0
          ≡ first_in_range slot (build_device_slot_mapping devices).1)
unfolding build_device_slot_mapping get_slot
get_slot-build_device_slot_mapping devices slot =
    (ranges-InEight devices, get_slot-add_ranges slot (map device_range devices) [])

-- A payload that the gateway service takes.
abbrev pub Fits : StreamCall → Type 0
Fits c = length c.payload ≤ 128

-- The last entry of a slot (from 0).
abbrev pub last_entry : ℕ → List SlotEntry → Option (Text × Text)
last_entry slot [] = none
last_entry slot ((k, callsign, channel) ∷ rest) =
    first_some (last_entry slot rest)
      (if eq_int k (pos slot) then some (callsign, channel) else none)

-- Callsign and channel; no callsign and `--` where there is no entry, `--` for an empty channel.
abbrev pub names_of : Option (Text × Text) → Text × Text
names_of none = ([], codes "--")
names_of (some (callsign, channel)) = (callsign, or_text channel (codes "--"))

has_entry_lem :
    (slot : ℕ) (entries : List SlotEntry)
    → has_entry slot entries ≡ is_some (last_entry slot entries)
unfolding has_entry
has_entry_lem slot [] = refl
has_entry_lem slot ((k, callsign, channel) ∷ rest) =
    rw (has_entry_lem slot rest) (either (eq_int k (pos slot)) (last_entry slot rest))
  where
    either :
        (b : Bool) (o : Option (Text × Text))
        → (b || is_some o) ≡ is_some (first_some o (if b then some (callsign, channel) else none))
    either true none = refl
    either false none = refl
    either true (some a) = refl
    either false (some a) = refl

slot_names_lem :
    (slot : ℕ) (entries : List SlotEntry)
    → slot_names slot entries ≡ names_of (last_entry slot entries)
unfolding slot_names
slot_names_lem slot [] = refl
slot_names_lem slot ((k, callsign, channel) ∷ rest) =
    rw (has_entry_lem slot rest, slot_names_lem slot rest)
      (either (eq_int k (pos slot)) (last_entry slot rest))
  where
    either :
        (b : Bool) (o : Option (Text × Text))
        → (if b && not (is_some o) then (callsign, or_text channel (codes "--")) else names_of o)
          ≡ names_of (first_some o (if b then some (callsign, channel) else none))
    either true none = refl
    either false none = refl
    either true (some a) = refl
    either false (some a) = refl

-- What a slot (from 1) is sent.
abbrev pub program_of : ℕ → List SlotEntry → Bytes
program_of n entries =
    let names = names_of (last_entry (n - 1) entries) in
    build_startblock_payload_v1 (pos n) names.1 names.0 32

slot_payload_lem :
    (s : ℕ) (entries : List SlotEntry) → slot_payload s entries ≡ program_of (s + 1) entries
unfolding slot_payload
slot_payload_lem s entries =
    let same : s + 1 - 1 ≡ s = omega arith in rw (slot_names_lem s entries, same) refl

program_of-fits : (n : ℕ) (entries : List SlotEntry) → length (program_of n entries) ≤ 128
program_of-fits n entries =
    let names = names_of (last_entry (n - 1) entries) in
    let built = read_startblock-build_startblock_payload_v1 (pos n) names.1 names.0 in
    omega (arith, built.3)

-- The calls that are made for a list of slots (from 1): one for each slot that a range has, to
-- the first such device.
abbrev pub wanted_for : ℕ → Option StartDevice → List SlotEntry → List StreamCall → List StreamCall
wanted_for n none entries rest = rest
wanted_for n (some d) entries rest =
    record { slot = n; to_device = some d; payload = program_of n entries } ∷ rest

abbrev pub wanted : List ℕ → List DeviceRange → List SlotEntry → List StreamCall
wanted [] ranges entries = []
wanted (n ∷ ns) ranges entries =
    wanted_for n (first_in_range n ranges) entries (wanted ns ranges entries)

call_for_lem :
    (s : ℕ) (o : Option StartDevice) (entries : List SlotEntry) (rest : List StreamCall)
    → call_for s o entries rest ≡ wanted_for (s + 1) o entries rest
call_for_lem s none entries rest = refl
call_for_lem s (some d) entries rest = rw (slot_payload_lem s entries) refl

device_calls-wanted :
    (ss : List ℕ) (ds : List StartDevice) (entries : List SlotEntry)
    → device_calls ss (build_device_slot_mapping ds).0 entries
      ≡ wanted (map (λ s. s + 1) ss) (build_device_slot_mapping ds).1 entries
unfolding device_calls
device_calls-wanted [] ds entries = refl
device_calls-wanted (s ∷ ss) ds entries =
    rw ((get_slot-build_device_slot_mapping ds (s + 1)).1, device_calls-wanted ss ds entries)
      (call_for_lem s (first_in_range (s + 1) (build_device_slot_mapping ds).1) entries _)

wanted_for-Fits :
    (n : ℕ) (o : Option StartDevice) (entries : List SlotEntry) (rest : List StreamCall)
    → All Fits rest
    → All Fits (wanted_for n o entries rest)
wanted_for-Fits n none entries rest h = h
wanted_for-Fits n (some d) entries rest h = (program_of-fits n entries, h)

wanted-Fits :
    (ns : List ℕ) (ranges : List DeviceRange) (entries : List SlotEntry)
    → All Fits (wanted ns ranges entries)
wanted-Fits [] ranges entries = tt
wanted-Fits (n ∷ ns) ranges entries =
    wanted_for-Fits n (first_in_range n ranges) entries (wanted ns ranges entries)
      (wanted-Fits ns ranges entries)

-- The slots 1 to 8.
abbrev pub eight : List ℕ
eight = 1 ∷ 2 ∷ 3 ∷ 4 ∷ 5 ∷ 6 ∷ 7 ∷ 8 ∷ []

abbrev pub startblocks : List StartDevice → List StartDevice
startblocks devices = keep (λ d. d.has_startblock) devices

sent_to_devices :
    (ds : List StartDevice) (entries : List SlotEntry)
    → send_to_devices ds entries
      ≡ unicast_sent (map device_range ds) (wanted eight (map device_range ds) entries)
unfolding send_to_devices
sent_to_devices [] entries = refl
sent_to_devices (d ∷ ds) entries =
    rw (device_calls-wanted slots0 (d ∷ ds) entries) (unfold build_device_slot_mapping in refl)

-- Without a device or a group, each slot from 1 to 8 is sent once, in order, to the first start
-- block in the host's list whose range has the slot, and is not sent where no range has it. What is
-- sent is the program of that slot with the names of the last entry of the heat for it. The
-- range of every start block is not empty and lies in 1 to 8, whatever numbers are stored, and no
-- payload is longer than the 128 bytes that the gateway service takes.
pub send_startblock_control-devices :
    (devices : List StartDevice) (entries : List SlotEntry)
    → (send_startblock_control true devices none none entries
        ≡ unicast_sent
            (map device_range (startblocks devices))
            (wanted eight (map device_range (startblocks devices)) entries))
      × All InEight (map device_range (startblocks devices))
      × All Fits (wanted eight (map device_range (startblocks devices)) entries)
unfolding send_startblock_control iter_startblock_devices
send_startblock_control-devices devices entries =
    let ds = startblocks devices in
    (sent_to_devices ds entries, ranges-InEight ds, wanted-Fits eight (map device_range ds) entries)
