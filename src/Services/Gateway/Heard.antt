-- ===== src/Services/Gateway/Heard.antt =====
-- Changes of the device list of racelink/services/gateway_service.py, as a lookup sees them.
use gatecontrol_lora.Services.Gateway.{Host, Expect, change_device, change_object, for_some}
use gatecontrol_lora.Services.Gateway.Events.{clear_pending_expect_if, meets, pending_try_match}
use gatecontrol_lora.Prelude.{
  ℕ, Bool, Bool-cases, List, Option, Text, [], ap, eq_bytes, false, if◌then◌else◌, inl, inr, length,
  none, refl, some, some-injective, true, ◌==◌, ◌∙◌, ◌∷◌, ◌≡◌,
}
use gatecontrol_lora.Domain.Device.{Device, mark_online}
use gatecontrol_lora.State.Repository.{
  get_by_addr, ends_with, find_item, has_addr, update_item, upper,
}
use gatecontrol_lora.Protocol.Codec.{ReplyEvent}

abbrev pub map_option : (Device → Device) → Option Device → Option Device
map_option f none = none
map_option f (some d) = some (f d)

-- A change that the lookup cannot see changes what it finds, and nothing else.
pub find_item-update_item :
    (p : Device → Bool) (f : Device → Device) (ds : List Device)
    → ((d : Device) → p (f d) ≡ p d)
    → find_item p (update_item p f ds) ≡ map_option f (find_item p ds)
unfolding find_item update_item
find_item-update_item p f [] h = refl
find_item-update_item p f (d ∷ ds) h = elim (Bool-cases (p d)) [
  | inl e ↦ rw (e, h d, e) refl
  | inr e ↦ rw (e, e) (find_item-update_item p f ds h)
]

-- A change of another item, or one that has been made before, does not show.
pub find_item-unchanged :
    (p q : Device → Bool) (f : Device → Device) (ds : List Device) (found : Device)
    → ((d : Device) → p (f d) ≡ p d)
    → f found ≡ found
    → find_item p ds ≡ some found
    → find_item p (update_item q f ds) ≡ some found
unfolding find_item update_item
find_item-unchanged p q f [] found h k e = e
find_item-unchanged p q f (d ∷ ds) found h k e = elim (Bool-cases (q d)) [
  | inl g ↦ elim (Bool-cases (p d)) [
    | inl i ↦
        let here : d ≡ found = some-injective _ _ (rw i at e) in
        rw (g, h d, i) (ap some (ap f here ∙ k))
    | inr i ↦ rw (g, h d, i) (rw i at e)
  ]
  | inr g ↦ elim (Bool-cases (p d)) [
    | inl i ↦ rw (g, i) (rw i at e)
    | inr i ↦ rw (g, i) (find_item-unchanged p q f ds found h k (rw i at e))
  ]
]

pub if-devices :
    (b : Bool) (x y : Host) (p : Device → Bool) (o : Option Device)
    → find_item p x.devices ≡ o
    → find_item p y.devices ≡ o
    → find_item p (if b then x else y).devices ≡ o
if-devices true x y p o h k = h
if-devices false x y p o h k = k

pub clear-devices : (n : ℕ) (st : Host) → (clear_pending_expect_if n st).devices ≡ st.devices
unfolding clear_pending_expect_if
clear-devices n st = go st.pending_expect
  where
    go :
        (o : Option Expect)
        → (for_some o
            (λ p st. if p.stamp == n then record st { pending_expect = none } else st)
            st).devices
          ≡ st.devices
    go none = refl
    go (some p) = elim (Bool-cases (p.stamp == n)) [ inl e ↦ rw e refl | inr e ↦ rw e refl ]

-- The match of the expectation leaves a device alone that has just been heard.
pub pending_try_match-heard :
    (now : ℕ) (ev : ReplyEvent) (st : Host) (addr : Text) (d : Device)
    → mark_online now d ≡ d
    → get_by_addr addr st.devices ≡ some d
    → get_by_addr addr (pending_try_match now ev st).devices ≡ some d
unfolding pending_try_match get_by_addr mark_online has_addr
pending_try_match-heard now ev st addr d online found = go st.pending_expect
  where
    go :
        (o : Option Expect)
        → find_item
            (has_addr (upper addr))
            (for_some o
              (λ p st.
                if meets p ev
                then clear_pending_expect_if p.stamp
                    (change_object p.expect_dev (mark_online now) st)
                else st)
              st).devices
          ≡ some d
    go none = found
    go (some p) =
        let marked = change_object p.expect_dev (mark_online now) st in
        if-devices (meets p ev) (clear_pending_expect_if p.stamp marked) st (has_addr (upper addr))
          (some d)
          (rw (clear-devices p.stamp marked) (
            find_item-unchanged (has_addr (upper addr)) (λ d. eq_bytes d.addr p.expect_dev)
              (mark_online now) st.devices d (λ d. refl) online found))
          found

-- A lookup after a change of the same device.
pub get_by_addr-change_device :
    (addr : Text) (f : Device → Device) (st : Host) (d : Device)
    → ((d : Device) → (f d).addr ≡ d.addr)
    → get_by_addr addr st.devices ≡ some d
    → get_by_addr addr (change_device addr f st).devices ≡ some (f d)
unfolding get_by_addr has_addr
get_by_addr-change_device addr f st d h e =
    find_item-update_item (has_addr (upper addr)) f st.devices (λ d.
      ap
        (λ a.
          if length (upper addr) == 12
          then eq_bytes (upper a) (upper addr)
          else if length (upper addr) == 6
          then ends_with (upper a) (upper addr)
          else false)
        (h d))
    ∙ ap (map_option f) e
