-- ===== src/State/Repository.antt =====
-- racelink/state/repository.py: the devices in the order they were added, and their lookup by
-- address. A device object is changed in place, so a change is one of the list's element.
-- Addresses are ASCII text, and an argument comes without surrounding blanks.
use gatecontrol_lora.Prelude.{
  ℕ, Text, Bool, List, Option, [], drop, eq_bytes, false, if◌then◌else◌, leb, length, map, none,
  some, ◌&&◌, ◌++◌, ◌-◌, ◌==◌, ◌∷◌,
}
use gatecontrol_lora.Domain.Device.{Device}

abbrev pub upper_code : ℕ → ℕ
upper_code c = if leb 97 c && leb c 122 then c - 32 else c

abbrev pub upper : Text → Text
upper = map upper_code

abbrev pub ends_with : Text → Text → Bool
ends_with t s = leb (length s) (length t) && eq_bytes (drop (length t - length s) t) s

unfoldable pub find_item : (Device → Bool) → List Device → Option Device
find_item p [] = none
find_item p (d ∷ ds) = if p d then some d else find_item p ds

-- The test that the lookup makes: a full MAC of 12 digits or its last 6.
unfoldable pub has_addr : Text → Device → Bool
has_addr s d =
    if length s == 12
    then eq_bytes (upper d.addr) s
    else if length s == 6
    then ends_with (upper d.addr) s
    else false

unfoldable pub get_by_addr : Text → List Device → Option Device
unfolding find_item has_addr
get_by_addr addr devices = find_item (has_addr (upper addr)) devices

-- Changes the device that the same lookup finds.
unfoldable pub update_item : (Device → Bool) → (Device → Device) → List Device → List Device
update_item p f [] = []
update_item p f (d ∷ ds) = if p d then f d ∷ ds else d ∷ update_item p f ds

unfoldable pub upsert : Device → List Device → List Device
unfolding get_by_addr update_item
upsert device devices = elim (get_by_addr device.addr devices) [
  | none ↦ devices ++ device ∷ []
  | some existing ↦ update_item (has_addr (upper device.addr)) (λ d. device) devices
]
