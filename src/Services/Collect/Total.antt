-- ===== src/Services/Collect/Total.antt =====
-- The loop of `send_and_collect` ends, in time and with no more replies than asked for.
use gatecontrol_lora.Prelude.{
  ℕ, List, Option, all, length, map, none, some, suc, zero, ◌++◌, ◌≡◌, ◌≤◌, Bool-cases,
  Option-cases, arith, false, inl, inr, leb, refl, true, ◌+◌, ◌⊎◌, Bool, [], append_assoc, keep,
  length-append, subst, sym, ◌∷◌,
}
use gatecontrol_lora.Protocol.Codec.{ReplyEvent}
use gatecontrol_lora.Services.Collect.{
  Arrival, Collecting, Collection, Reason, Window, check, count, stop, wait_until, idle, is_full,
  max_timeout, min, no_reply, after, collect_loop, notified, send_and_collect, wake,
}

-- The events of arrivals.
abbrev pub events_of : List Arrival → List ReplyEvent
events_of = map (λ a. a.event)

-- No more than is asked for, where something is.
abbrev pub Within : Option ℕ → ℕ → Type 0
Within none n = Unit {0}
Within (some zero) n = Unit {0}
Within (some (suc e)) n = n ≤ suc e

abbrev pub Counted : Option ℕ → Reason → ℕ → Type 0
Counted (some (suc e)) count n = n ≡ suc e
Counted expected reason n = Unit {0}

leb_refl : (n : ℕ) → leb n n ≡ true
leb_refl n = ground arith

-- The result of a wait for the matches given: the first of them, in time.
abbrev pub IsCollection : Window → List ReplyEvent → Collection → Type 0
IsCollection w all r =
    (r.events ++ events_of r.unheard ≡ all)
    × (r.elapsed ≤ w.hard_deadline)
    × Within w.expected (length r.events)

Full : Window → ℕ → Reason → Type 0
Full w n count = is_full w.expected n ≡ true
Full w n reason = Unit {0}

abbrev state : ℕ → List ReplyEvent → Option ℕ → Collecting
state now got last = record { now = now; collected = got; last_match = last }

-- The loop either stops, or waits; and after a wait that no match has ended, it stops.
abbrev Turns : Window → ℕ → List ReplyEvent → Option ℕ → Type 0
Turns w now got last =
    ((reason : Reason) × (check w (state now got last) ≡ stop reason) × Full w (length got) reason)
    ⊎ ((end : ℕ) × (reason : Reason) × (check w (state now got last) ≡ wait_until end)
        × (end ≤ w.hard_deadline)
        × (is_full w.expected (length got) ≡ false)
        × (check w (state end got last) ≡ stop reason)
        × Full w (length got) reason)

deadline-Turns :
    (w : Window) (now : ℕ) (got : List ReplyEvent) (last : Option ℕ)
    → is_full w.expected (length got) ≡ false
    → leb w.hard_deadline now ≡ false
    → Turns w now got last
unfolding check Full
deadline-Turns w now got none f g = inr (
  w.hard_deadline,
  no_reply,
  rw (f, g) refl,
  omega arith,
  f,
  rw (f, leb_refl w.hard_deadline) refl,
  tt,
)
deadline-Turns w now got (some t) f g =
    let end = min (t + w.idle_timeout) w.hard_deadline in
    elim (Bool-cases (leb end now)) [
      | inl h ↦ inl (idle, rw (f, g, h) refl, tt)
      | inr h ↦ elim (Bool-cases (leb w.hard_deadline end)) [
        | inl k ↦ inr (end, max_timeout, rw (f, g, h) refl, ground arith, f, rw (f, k) refl, tt)
        | inr k ↦
            inr (end, idle, rw (f, g, h) refl, ground arith, f, rw (f, k, leb_refl end) refl, tt)
      ]
    ]

check-Turns :
    (w : Window) (now : ℕ) (got : List ReplyEvent) (last : Option ℕ) → Turns w now got last
unfolding check Full
check-Turns w now got last = elim (Bool-cases (is_full w.expected (length got))) [
  | inl f ↦ inl (count, rw f refl, f)
  | inr f ↦ elim (Bool-cases (leb w.hard_deadline now)) [
    | inl g ↦ elim (Option-cases last) [
      | inl e ↦ rw e (inl (no_reply, rw (f, g) refl, tt))
      | inr (t, e) ↦ rw e (inl (max_timeout, rw (f, g) refl, tt))
    ]
    | inr g ↦ deadline-Turns w now got last f g
  ]
]

counted :
    (w : Window) (reason : Reason) (n : ℕ)
    → Full w n reason
    → Within w.expected n
    → Counted w.expected reason n
unfolding Full
counted w reason n f h = go w.expected reason f h
  where
    go :
        (expected : Option ℕ) (reason : Reason)
        → Full (record w { expected = expected }) n reason
        → Within expected n
        → Counted expected reason n
    go none reason f h = tt
    go (some zero) reason f h = tt
    go (some (suc e)) count f h = ground (arith, f, h)
    go (some (suc e)) max_timeout f h = tt
    go (some (suc e)) no_reply f h = tt
    go (some (suc e)) idle f h = tt

Within-next : (o : Option ℕ) (n : ℕ) → is_full o n ≡ false → Within o (n + 1)
Within-next none n h = tt
Within-next (some zero) n h = tt
Within-next (some (suc e)) n h = ground (arith, h)

abbrev Outcome : Window → List ReplyEvent → Option Collection → Type 0
Outcome w all o =
    (r : Collection) × (o ≡ some r)
    × IsCollection w all r
    × Counted w.expected r.reason (length r.events)

-- The loop stops at once.
loop_stops :
    (w : Window) (arrivals : List Arrival) (fuel now : ℕ) (got : List ReplyEvent) (last : Option ℕ)
    (reason : Reason)
    → now ≤ w.hard_deadline
    → Within w.expected (length got)
    → check w (state now got last) ≡ stop reason
    → Full w (length got) reason
    → Outcome w
        (got ++ events_of arrivals)
        (collect_loop (suc fuel) w (state now got last) arrivals)
unfolding collect_loop
loop_stops w arrivals fuel now got last reason h room e f =
    let r : Collection = record {
      events = got;
      reason = reason;
      elapsed = now;
      unheard = arrivals;
    } in
    rw (collect_loop, e) (r, refl, (refl, h, room), counted w reason (length got) f room)

collect_loop-Outcome :
    (w : Window) (arrivals : List Arrival) (now : ℕ) (got : List ReplyEvent) (last : Option ℕ)
    → now ≤ w.hard_deadline
    → Within w.expected (length got)
    → Outcome w
        (got ++ events_of arrivals)
        (collect_loop (suc (suc (length arrivals))) w (state now got last) arrivals)
unfolding collect_loop wake
collect_loop-Outcome w [] now got last h room = elim (check-Turns w now got last) [
  | inl (reason, e, f) ↦ loop_stops w [] 1 now got last reason h room e f
  | inr (end, reason, e, le, nf, e', f) ↦
      rw (collect_loop, e) (loop_stops w [] 0 end got last reason le room e' f)
]
collect_loop-Outcome w (a ∷ rest) now got last h room = elim (check-Turns w now got last) [
  | inl (reason, e, f) ↦
      loop_stops w (a ∷ rest) (suc (suc (length rest))) now got last reason h room e f
  | inr (end, reason, e, le, nf, e', f) ↦ elim (Bool-cases (leb a.at_ms end)) [
    | inl k ↦
        let next =
          collect_loop-Outcome w rest (after now a.at_ms) (got ++ a.event ∷ []) (some a.at_ms)
            (ground (arith, h, le, k))
            (subst (Within w.expected) (sym (length-append got (a.event ∷ [])))
              (Within-next w.expected (length got) nf)) in
        rw (collect_loop, e, wake, k)
          (subst
            (λ all.
              Outcome w all
                (collect_loop (suc (suc (length rest))) w (notified a (state now got last)) rest))
            (append_assoc got (a.event ∷ []) (events_of rest)) next)
    | inr k ↦
        rw (collect_loop, e, wake, k)
          (loop_stops w (a ∷ rest) (suc (length rest)) end got last reason le room e' f)
  ]
]

-- The wait for replies ends, whatever arrives: by the hard deadline, with the first of the
-- matching replies in order, with no more of them than were asked for, and with exactly that
-- many if the count is the reason.
pub send_and_collect_total :
    (w : Window) (pred : ReplyEvent → Bool) (arrivals : List Arrival)
    → (r : Collection) × (send_and_collect w pred arrivals ≡ some r)
      × IsCollection w (events_of (keep (λ a. pred a.event) arrivals)) r
      × Counted w.expected r.reason (length r.events)
unfolding send_and_collect
send_and_collect_total w pred arrivals =
    collect_loop-Outcome w (keep (λ a. pred a.event) arrivals) 0 [] none (omega arith)
      (within_none w.expected)
  where
    within_none : (o : Option ℕ) → Within o 0
    within_none none = tt
    within_none (some zero) = tt
    within_none (some (suc e)) = omega arith
