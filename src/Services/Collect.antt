-- ===== src/Services/Collect.antt =====
-- racelink/services/gateway_service.py, `send_and_collect`: the wait for the replies to a frame.
-- Times are milliseconds since the frame was sent; the send function is taken to return at once. A
-- waiter that is notified wakes at once, and the listener ends with the wait; the replies that the
-- predicate refuses do not wake it.
pub mod Total
pub mod Prompt
use gatecontrol_lora.Prelude.{
  ℕ, Bool, List, Option, [], false, if◌then◌else◌, keep, leb, length, none, not, pos_part, some,
  suc, zero, ℤ, ◌&&◌, ◌*◌, ◌++◌, ◌+◌, ◌==◌, ◌∷◌,
}
use gatecontrol_lora.Protocol.Codec.{ReplyEvent}

-- A reply that the transport delivers.
pub record Arrival : Type 0 where
  pub at_ms : ℕ
  pub event : ReplyEvent

pub data Reason : Type 0 where
  count max_timeout no_reply idle : Reason

-- What the loop knows when it looks at the clock.
pub record Window : Type 0 where
  pub expected : Option ℕ
  pub idle_timeout : ℕ
  pub hard_deadline : ℕ

pub record Collecting : Type 0 where
  pub now : ℕ
  pub collected : List ReplyEvent
  pub last_match : Option ℕ

pub data Verdict : Type 0 where
  stop : Reason → Verdict
  wait_until : ℕ → Verdict

-- The flag is set by a match only.
abbrev pub is_full : Option ℕ → ℕ → Bool
is_full none n = false
is_full (some e) n = not (n == 0) && leb e n

abbrev pub min : ℕ → ℕ → ℕ
min a b = if leb a b then a else b

abbrev pub late : Option ℕ → Reason
late none = no_reply
late (some t) = max_timeout

abbrev pub deadline : Window → ℕ → Option ℕ → Verdict
deadline w now none = wait_until w.hard_deadline
deadline w now (some t) =
    let end = min (t + w.idle_timeout) w.hard_deadline in
    if leb end now then stop idle else wait_until end

-- One turn of the loop, before it waits.
unfoldable pub check : Window → Collecting → Verdict
check w c =
    if is_full w.expected (length c.collected)
    then stop count
    else if leb w.hard_deadline c.now
    then stop (late c.last_match)
    else deadline w c.now c.last_match

pub record Collection : Type 0 where
  pub events : List ReplyEvent
  pub reason : Reason
  pub elapsed : ℕ
  pub unheard : List Arrival

-- The next match, where it comes before the wait is over.
unfoldable pub wake : ℕ → List Arrival → Option (Arrival × List Arrival)
wake until [] = none
wake until (a ∷ rest) = if leb a.at_ms until then some (a, rest) else none

abbrev pub after : ℕ → ℕ → ℕ
after now t = if leb now t then t else now

abbrev pub notified : Arrival → Collecting → Collecting
notified a c = record {
  now = after c.now a.at_ms;
  collected = c.collected ++ a.event ∷ [];
  last_match = some a.at_ms;
}

-- The loop, over the matches still to come.
unfoldable pub collect_loop : ℕ → Window → Collecting → List Arrival → Option Collection
unfolding check wake
collect_loop zero w c arrivals = none
collect_loop (suc fuel) w c arrivals = elim (check w c) [
  | stop reason ↦
      some (record { events = c.collected; reason = reason; elapsed = c.now; unheard = arrivals })
  | wait_until end ↦ elim (wake end arrivals) [
    | none ↦ collect_loop fuel w (record c { now = end }) arrivals
    | some (a, rest) ↦ collect_loop fuel w (notified a c) rest
  ]
]

abbrev pub fresh : Collecting
fresh = record { now = 0; collected = []; last_match = none }

-- After each match the loop turns once, and twice more at the end.
unfoldable pub send_and_collect : Window → (ReplyEvent → Bool) → List Arrival → Option Collection
unfolding collect_loop
send_and_collect w pred arrivals =
    let matches = keep (λ a. pred a.event) arrivals in
    collect_loop (suc (suc (length matches))) w fresh matches

-- `compute_collect_max_timeout`, with the default base and increment per device.
unfoldable pub compute_collect_max_timeout : ℤ → ℕ → ℕ
compute_collect_max_timeout expected ceiling = min ceiling (1000 + pos_part expected * 150)
