-- ===== src/Services/Status/Swept.antt =====
-- racelink/services/status_service.py: whom a status sweep marks offline.
use gatecontrol_lora.Prelude.{
  ℕ, All, Bool, Bool-cases, List, Text, [], ap, eq_bytes, eq_bytes→eq, false, if◌then◌else◌, inl,
  inr, keep, length, map, none, refl, some, subst, suc, take, true, ℤ, ◌&&◌, ◌++◌, ◌<◌, ◌==◌, ◌||◌,
  ◌∙◌, ◌∷◌, ◌≡◌, arith,
}
use gatecontrol_lora.Protocol.Codec.{ReplyEvent}
use gatecontrol_lora.Domain.Device.{Device, mark_offline, heard}
use gatecontrol_lora.State.Repository.{upper}
use gatecontrol_lora.Services.Gateway.{to_hex}
use gatecontrol_lora.Services.Scenes.Slug.{has_text}
use gatecontrol_lora.Services.Collect.{Arrival, after, compute_collect_max_timeout}
use gatecontrol_lora.Services.Collect.Total.{events_of}
use gatecontrol_lora.Services.Collect.Prompt.{IsPrompt, send_and_collect-prompt}
use gatecontrol_lora.Services.Status.{
  group_filter, add_text, expected_count, get_status, in_filter, last6, missing_status, status_pred,
  status_responders, status_window, sweep, sweep_device,
}

-- Whether one of the replies comes from the address, as its last three bytes in hex.
abbrev pub sent_by : Text → List ReplyEvent → Bool
sent_by t [] = false
sent_by t (ev ∷ evs) = length ev.sender3 == 3 && eq_bytes (to_hex ev.sender3) t || sent_by t evs

or_assoc : (a b c : Bool) → (a || (b || c)) ≡ ((a || b) || c)
or_assoc true b c = refl
or_assoc false b c = refl

has_text-append :
    (ts : List Text) (x t : Text) → has_text (ts ++ x ∷ []) t ≡ (has_text ts t || eq_bytes x t)
has_text-append [] x t = swap (eq_bytes x t)
  where
    swap : (b : Bool) → (b || false) ≡ b
    swap true = refl
    swap false = refl
has_text-append (y ∷ ts) x t =
    ap (λ b. eq_bytes y t || b) (has_text-append ts x t)
    ∙ or_assoc (eq_bytes y t) (has_text ts t) (eq_bytes x t)

or_swap : (a b : Bool) → (a || b) ≡ (b || a)
or_swap true true = refl
or_swap true false = refl
or_swap false true = refl
or_swap false false = refl

-- A text that is in the set already stays in it.
or_known :
    (b : Bool) (ts : List Text) (x t : Text)
    → has_text ts x ≡ true
    → eq_bytes x t ≡ b
    → has_text ts t ≡ (b || has_text ts t)
or_known false ts x t h e = refl
or_known true ts x t h e = subst (λ u. has_text ts u ≡ true) (eq_bytes→eq x t e) h

has_text-add_text :
    (x : Text) (ts : List Text) (t : Text)
    → has_text (add_text x ts) t ≡ (eq_bytes x t || has_text ts t)
unfolding add_text
has_text-add_text x ts t = elim (Bool-cases (has_text ts x)) [
  | inl e ↦ rw e (or_known (eq_bytes x t) ts x t e refl)
  | inr e ↦ rw e (has_text-append ts x t ∙ or_swap (has_text ts t) (eq_bytes x t))
]

pub has_text-status_responders :
    (evs : List ReplyEvent) (t : Text) → has_text (status_responders evs) t ≡ sent_by t evs
unfolding status_responders
has_text-status_responders [] t = refl
has_text-status_responders (ev ∷ evs) t = elim (Bool-cases (length ev.sender3 == 3)) [
  | inr e ↦ rw e (has_text-status_responders evs t)
  | inl e ↦ rw e (
      has_text-add_text (to_hex ev.sender3) (status_responders evs) t
      ∙ ap (λ b. eq_bytes (to_hex ev.sender3) t || b) (has_text-status_responders evs t))
]

-- The node of a device answers: one of the replies is sent by the last three bytes of its address.
abbrev pub Answers : ℤ → List ReplyEvent → Device → Type 0
Answers gid evs d = in_filter gid d ≡ true → sent_by (last6 (upper d.addr)) evs ≡ true

sweep_device-heard :
    (now : ℕ) (evs : List ReplyEvent) (d : Device)
    → sent_by (last6 (upper d.addr)) evs ≡ true
    → sweep_device now (status_responders evs) d ≡ d
unfolding sweep_device
sweep_device-heard now evs d h =
    rw (has_text-status_responders evs (last6 (upper d.addr)) ∙ h)
      (chosen (length (upper d.addr) == 0) (has_text (status_responders evs) (upper d.addr)))
  where
    chosen : (a b : Bool) → (if a || (b || true) then d else mark_offline now missing_status d) ≡ d
    chosen true b = refl
    chosen false true = refl
    chosen false false = refl

swept_one :
    (gid : ℤ) (now : ℕ) (evs : List ReplyEvent) (d : Device)
    → Answers gid evs d
    → (if in_filter gid d then sweep_device now (status_responders evs) d else d) ≡ d
swept_one gid now evs d h = elim (Bool-cases (in_filter gid d)) [
  | inl e ↦ rw e (sweep_device-heard now evs d (h e))
  | inr e ↦ rw e refl
]

sweep-Answers :
    (gid : ℤ) (now : ℕ) (evs : List ReplyEvent) (devices : List Device)
    → All (Answers gid evs) devices
    → sweep (group_filter gid) now evs devices ≡ devices
unfolding sweep
sweep-Answers gid now evs [] h = refl
sweep-Answers gid now evs (d ∷ ds) (h, hs) =
    ap
      (λ e.
        e ∷ map (λ x. if in_filter gid x then sweep_device now (status_responders evs) x else x) ds)
      (swept_one gid now evs d h)
    ∙ ap (λ es. d ∷ es) (sweep-Answers gid now evs ds hs)

abbrev pub status_matches : ℤ → List Arrival → List Arrival
status_matches gid arrivals = keep (λ a. status_pred (group_filter gid) a.event) arrivals

status_window-expected : (m : ℕ) → (status_window (suc m)).expected ≡ some (suc m)
unfolding status_window
status_window-expected m = ground arith

status_window-deadline : (n : ℕ) → 0 < (status_window n).hard_deadline
unfolding status_window compute_collect_max_timeout
status_window-deadline n = ground arith

-- The host expects replies of `suc m` devices to a sweep over a group or over all groups, and as
-- many status replies come, each within the idle time of the one before it and before the
-- deadline. Where each device in the filter is the sender of one of them, the sweep marks nobody
-- offline: the devices are after it what they were at the end of the window.
pub get_status-answered :
    (gid : ℤ) (now m : ℕ) (arrivals : List Arrival) (before after : List Device)
    → expected_count (group_filter gid) before ≡ suc m
    → IsPrompt (status_window (suc m)) none (suc m) (status_matches gid arrivals)
    → All (Answers gid (events_of (take (suc m) (status_matches gid arrivals)))) after
    → (get_status (group_filter gid) now arrivals before after).devices_after ≡ after
unfolding get_status
get_status-answered gid now m arrivals before after e prompt answers =
    let (r, got, heard, why) =
      send_and_collect-prompt (status_window (suc m)) m (status_pred (group_filter gid)) arrivals
        (status_window-expected m) (status_window-deadline (suc m)) prompt in
    rw (e, got)
      (ap (λ evs. sweep (group_filter gid) now evs after) heard
        ∙ sweep-Answers gid now (events_of (take (suc m) (status_matches gid arrivals))) after
            answers)
