-- ===== src/Services/Collect/Prompt.antt =====
-- Nodes that answer without long pauses are all heard by `send_and_collect`.
use gatecontrol_lora.Prelude.{
  ℕ, List, Option, [], all, append-nil, append_assoc, arith, false, leb, length, length-append,
  none, refl, some, suc, sym, take, true, zero, ◌++◌, ◌+◌, ◌<◌, ◌∙◌, ◌∷◌, ◌≡◌, ◌≤◌, Bool, keep,
}
use gatecontrol_lora.Protocol.Codec.{ReplyEvent}
use gatecontrol_lora.Services.Collect.{
  Arrival, Collection, Window, after, check, collect_loop, count, is_full, min, wait_until, wake,
  send_and_collect,
}
use gatecontrol_lora.Services.Collect.Total.{events_of}

abbrev pub Soon : Window → Option ℕ → ℕ → Type 0
Soon w none t = Unit {0}
Soon w (some s) t = (s ≤ t) × (t < s + w.idle_timeout)

-- The next replies come one after another, each before the idle time after the one before it is
-- over, and before the hard deadline.
abbrev pub IsPrompt : Window → Option ℕ → ℕ → List Arrival → Type 0
IsPrompt w last zero arrivals = Unit {0}
IsPrompt w last (suc k) [] = ⊥
IsPrompt w last (suc k) (a ∷ rest) =
    Soon w last a.at_ms × (a.at_ms < w.hard_deadline) × IsPrompt w (some a.at_ms) k rest

-- The loop looks at the clock at the start, and at each match.
abbrev Started : Option ℕ → ℕ → Type 0
Started none now = now ≡ 0
Started (some s) now = s ≡ now

in_order : (w : Window) (last : Option ℕ) (now t : ℕ) → Started last now → Soon w last t → now ≤ t
in_order w none now t h s = omega (arith, h)
in_order w (some u) now t h (s, s') = omega (arith, h, s)

-- The loop waits where a reply comes soon.
waits :
    (w : Window) (got : List ReplyEvent) (last : Option ℕ) (now t : ℕ)
    → is_full w.expected (length got) ≡ false
    → now < w.hard_deadline
    → Started last now
    → Soon w last t
    → t < w.hard_deadline
    → (end : ℕ) × (check w (record { now = now; collected = got; last_match = last })
        ≡ wait_until end)
      × (t ≤ end)
unfolding check
waits w got none now t f h l s k =
    let open_ : leb w.hard_deadline now ≡ false = ground (arith, h) in
    (w.hard_deadline, rw (f, open_) refl, omega arith)
waits w got (some u) now t f h here (s, s') k =
    let open_ : leb w.hard_deadline now ≡ false = ground (arith, h) in
    let end = min (u + w.idle_timeout) w.hard_deadline in
    let early : leb end now ≡ false = ground (arith, h, here, s, s') in
    (end, rw (f, open_, early) refl, ground (arith, s', k))

not_full : (m n : ℕ) → n < m → is_full (some m) n ≡ false
not_full m n h = ground (arith, h)

full : (m n : ℕ) → n ≡ m → 1 ≤ n → is_full (some m) n ≡ true
full m n h k = ground (arith, h, k)

abbrev Heard : Window → List ReplyEvent → Option Collection → Type 0
Heard w all o = (r : Collection) × (o ≡ some r) × (r.events ≡ all) × (r.reason ≡ count)

collect_loop-Heard :
    (w : Window) (m k fuel : ℕ) (arrivals : List Arrival) (now : ℕ) (got : List ReplyEvent)
    (last : Option ℕ)
    → w.expected ≡ some m
    → length got + k ≡ m
    → 1 ≤ m
    → k < fuel
    → now < w.hard_deadline
    → Started last now
    → IsPrompt w last k arrivals
    → Heard w
        (got ++ events_of (take k arrivals))
        (collect_loop fuel w (record { now = now; collected = got; last_match = last }) arrivals)
unfolding collect_loop check wake
collect_loop-Heard w m k zero arrivals now got last e l p x h s q = absurd (omega (arith, x))
collect_loop-Heard w m zero (suc fuel) arrivals now got last e l p x h s q =
    let done : is_full w.expected (length got) ≡ true =
      rw e (full m (length got) (omega (arith, l)) (omega (arith, l, p))) in
    let r : Collection = record {
      events = got;
      reason = count;
      elapsed = now;
      unheard = arrivals;
    } in
    rw (collect_loop, check, done) (r, refl, sym (append-nil got), refl)
collect_loop-Heard w m (suc k) (suc fuel) [] now got last e l p x h s q = absurd q
collect_loop-Heard w m (suc k) (suc fuel) (a ∷ rest) now got last e l p x h s (soon, d, q) =
    let open_ : is_full w.expected (length got) ≡ false =
      rw e (not_full m (length got) (omega (arith, l))) in
    let (end, c, b) = waits w got last now a.at_ms open_ h s soon d in
    let in_time : leb a.at_ms end ≡ true = ground (arith, b) in
    let same : a.at_ms ≡ after now a.at_ms = ground (arith, in_order w last now a.at_ms s soon) in
    let (r, eq, all, why) =
      collect_loop-Heard w m k fuel rest (after now a.at_ms) (got ++ a.event ∷ []) (some a.at_ms) e
        (omega (arith, l, length-append got (a.event ∷ []))) p (omega (arith, x))
        (ground (arith, h, d)) same q in
    rw (collect_loop, c, wake, in_time)
      (r, eq, all ∙ append_assoc got (a.event ∷ []) (events_of (take k rest)), why)

enough :
    (w : Window) (last : Option ℕ) (k : ℕ) (arrivals : List Arrival)
    → IsPrompt w last k arrivals
    → k ≤ length arrivals
enough w last zero arrivals q = omega arith
enough w last (suc k) [] q = absurd q
enough w last (suc k) (a ∷ rest) (s, d, q) = omega (arith, enough w (some a.at_ms) k rest q)

-- When as many replies as asked for come promptly, they are all collected, in order, and the
-- wait ends with the last of them.
pub send_and_collect-prompt :
    (w : Window) (m : ℕ) (pred : ReplyEvent → Bool) (arrivals : List Arrival)
    → w.expected ≡ some (suc m)
    → 0 < w.hard_deadline
    → IsPrompt w none (suc m) (keep (λ a. pred a.event) arrivals)
    → (r : Collection) × (send_and_collect w pred arrivals ≡ some r)
      × (r.events ≡ events_of (take (suc m) (keep (λ a. pred a.event) arrivals)))
      × (r.reason ≡ count)
unfolding send_and_collect
send_and_collect-prompt w m pred arrivals e h q =
    let matches = keep (λ a. pred a.event) arrivals in
    collect_loop-Heard w (suc m) (suc m) (suc (suc (length matches))) matches 0 [] none e
      (omega arith) (omega arith) (omega (arith, enough w none (suc m) matches q)) h refl q
