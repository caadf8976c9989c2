-- ===== src/Services/Unicast/Retries.antt =====
-- How often and how long racelink/services/gateway_service.py tries a unicast request.
use gatecontrol_lora.Services.Replies.{event_of}
use gatecontrol_lora.Services.Gateway.Events.{on_transport_event}
use gatecontrol_lora.Prelude.{
  ℕ, Bool-cases, List, Option, Text, [], arith, inl, inr, leb, length, none, refl, some, suc, true,
  ◌%◌, ◌+◌, ◌==◌, ◌↔◌, ◌∷◌, ◌≡◌, ◌≤◌, Bool, all, false, if◌then◌else◌, not, subst, sym, ◌*◌, ◌-◌,
  zero, ap, pos_part, ℤ,
}
use gatecontrol_lora.Protocol.Rules.{response_policy}
use gatecontrol_lora.Services.Pending.{PendingRequest, try_match, register}
use gatecontrol_lora.Services.Gateway.{Host, received}
use gatecontrol_lora.Services.Collect.{Arrival, after}
use gatecontrol_lora.Services.Collect.Total.{send_and_collect_total}
use gatecontrol_lora.Services.Unicast.{
  Channel, Answer, Request, conclude_wait, is_broadcast, is_for, send_and_wait_for_reply, wait_done,
  broadcast_pred, conclude_broadcast, first_within, pending_of, replies_of, send_only, transmit,
  wait_broadcast, wait_registered, retry_loop, send_and_wait_with_retries, receiver_of,
}
use gatecontrol_lora.Protocol.Codec.{ReplyEvent}

-- A flag that says whether there are replies.
abbrev pub IsHonest : Answer → Type 0
IsHonest (replies, flag) = (flag ≡ true) ↔ (1 ≤ length replies)

-- One attempt: a frame is sent, and the time that passes is bounded.
abbrev Attempt : {W : Type 0} → ℕ → Channel W → Answer × Channel W → Type 0
Attempt timeout st (answer, after) =
    (after.frames_sent ≡ suc st.frames_sent) × (after.clock ≤ st.clock + timeout) × IsHonest answer

InTime : ℕ → Option Arrival → Type 0
InTime timeout none = Unit
InTime timeout (some a) = a.at_ms ≤ timeout

wait_done-InTime :
    (clock timeout ident : ℕ) (arrivals : List Arrival) (host : Host)
    → InTime timeout (wait_done clock timeout ident arrivals host).0
unfolding wait_done InTime
wait_done-InTime clock timeout ident [] host = tt
wait_done-InTime clock timeout ident (a ∷ rest) host =
    let heard = on_transport_event (clock + a.at_ms) (received a.event) host in
    elim (Bool-cases (leb a.at_ms timeout)) [
      | inr e ↦ rw (wait_done, e) tt
      | inl e ↦ elim (Bool-cases (is_for ident (try_match (event_of a.event) host.registry).0)) [
        | inl f ↦ rw (wait_done, e, f) (ground (arith, e))
        | inr f ↦ rw (wait_done, e, f) (wait_done-InTime clock timeout ident rest heard)
      ]
    ]

not_empty : (n : ℕ) → (not (n == 0) ≡ true) ↔ (1 ≤ n)
not_empty n = ground arith

-- The pause before the next attempt, where there is one.
abbrev pause : ℕ → ℕ → ℕ
pause zero delay = 0
pause (suc left) delay = delay

suc-times : (n m : ℕ) → suc n * m ≡ m + n * m
suc-times n m = omega arith

bound_one : (left per delay a s : ℕ) → a ≤ s + per → a ≤ s + suc left * per + (suc left - 1) * delay
bound_one left per delay a s h = omega (arith, h, suc-times left per)

before_suc : (n m : ℕ) → (suc n - 1) * m ≡ n * m
before_suc n m = ap (λ k. k * m) (omega arith)

bound_more :
    (left per delay a b s r : ℕ)
    → a ≤ s + per
    → b ≡ a + pause left delay
    → r ≤ b + left * per + (left - 1) * delay
    → r ≤ s + suc left * per + (suc left - 1) * delay
bound_more zero per delay a b s r h e k = omega (arith, h, e, k)
bound_more (suc left) per delay a b s r h e k = omega (
  arith,
  h,
  e,
  k,
  suc-times (suc left) per,
  suc-times left delay,
  before_suc left delay,
  before_suc (suc left) delay,
)

-- The number of attempts that the caller is given.
abbrev pub attempts_of : ℤ → ℕ
attempts_of attempts = if leb (pos_part attempts) 0 then 1 else pos_part attempts

module _ {W : Type 0} where
  -- What one attempt may take.
  abbrev time_of : ℕ → Request W → ℕ
  time_of timeout req = req.send_ms + timeout + req.settle_ms

  if-Attempt :
      (b : Bool) (timeout : ℕ) (st : Channel W) (x y : Answer × Channel W)
      → Attempt timeout st x
      → Attempt timeout st y
      → Attempt timeout st (if b then x else y)
  if-Attempt true timeout st x y h k = h
  if-Attempt false timeout st x y h k = k

  conclude_wait-attempt :
      (req : PendingRequest) (sender : Option Text) (timeout settle : ℕ) (st : Channel W)
      (r : Option Arrival × Host × List Arrival)
      → InTime timeout r.0
      → ((conclude_wait req sender timeout settle st r).1.frames_sent ≡ st.frames_sent)
        × ((conclude_wait req sender timeout settle st r).1.clock ≤ st.clock + timeout + settle)
        × IsHonest (conclude_wait req sender timeout settle st r).0
  unfolding InTime
  conclude_wait-attempt req sender timeout settle st (none, host, rest) h =
      (refl, omega arith, (λ e. cc, λ e. absurd (omega (arith, e))))
  conclude_wait-attempt req sender timeout settle st (some a, host, rest) h =
      (refl, omega (arith, h), (λ e. omega arith, λ e. refl))

  wait_registered-Attempt :
      (pending : PendingRequest) (timeout : ℕ) (req : Request W) (st : Channel W)
      → Attempt (time_of timeout req) st (wait_registered pending timeout req st)
  wait_registered-Attempt pending timeout req st =
      let registered : Channel W = record st {
        host = record st.host { registry = register pending st.host.registry };
        next_ident = suc st.next_ident;
      } in
      let (arrivals, sent) = transmit req registered in
      let (once, soon, honest) =
        conclude_wait-attempt pending (receiver_of req st) timeout req.settle_ms sent
          (wait_done sent.clock timeout pending.ident arrivals sent.host)
          (wait_done-InTime sent.clock timeout pending.ident arrivals sent.host) in
      (once, omega (arith, soon), honest)

  wait_broadcast-Attempt :
      (timeout : ℕ) (req : Request W) (st : Channel W)
      → Attempt (time_of timeout req) st (wait_broadcast timeout req st)
  wait_broadcast-Attempt timeout req st =
      let (arrivals, sent) = transmit req st in
      let pred = broadcast_pred (req.opcode % 128) in
      let (r, e, (all, soon, few), c) =
        send_and_collect_total (first_within timeout) pred arrivals in
      subst
        (λ o. Attempt (time_of timeout req) st (conclude_broadcast arrivals sent (replies_of o)))
        (sym e) (refl, omega (arith, soon), not_empty (length r.events))

  -- Every call sends one frame, takes no longer than the send, its timeout and the rest after a
  -- match, and says truly whether there
  -- is a reply.
  send_and_wait_for_reply-Attempt :
      (timeout : ℕ) (req : Request W) (st : Channel W)
      → Attempt (time_of timeout req) st (send_and_wait_for_reply timeout req st)
  unfolding send_and_wait_for_reply
  send_and_wait_for_reply-Attempt timeout req st =
      if-Attempt (response_policy (req.opcode % 128) == 0) (time_of timeout req) st
        (send_only req st) _ (refl, omega arith, (λ x. cc, λ x. absurd (omega (arith, x))))
        (if-Attempt (is_broadcast req.recv3) (time_of timeout req) st
          (wait_broadcast timeout req st) (wait_registered (pending_of req st) timeout req st)
          (wait_broadcast-Attempt timeout req st)
          (wait_registered-Attempt (pending_of req st) timeout req st))

  -- What the loop may spend with so many attempts left.
  abbrev Spent : ℕ → ℕ → ℕ → Channel W → Answer × Channel W → Type 0
  Spent left per delay st (answer, after) =
      (answer.1 ≡ false → after.frames_sent ≡ st.frames_sent + left)
      × (after.frames_sent ≤ st.frames_sent + left)
      × (after.clock ≤ st.clock + left * per + (left - 1) * delay)
      × IsHonest answer

  if-Spent :
      (left per delay : ℕ) (st : Channel W) (tried rest : Answer × Channel W) (slept : Channel W)
      → Attempt per st tried
      → slept.frames_sent ≡ tried.1.frames_sent
      → slept.clock ≡ tried.1.clock + pause left delay
      → (tried.0.1 ≡ false → Spent left per delay slept rest)
      → Spent (suc left) per delay st (if tried.0.1 then tried else rest)
  if-Spent left per delay st ((replies, true), after) rest slept (f, c, h) s t more =
      (λ e. cc, omega (arith, f), bound_one left per delay after.clock st.clock c, h)
  if-Spent left per delay st ((replies, false), after) (answer, last) slept (f, c, h) s t more =
      let (a, b, d, g) = more refl in
      (
        λ e. omega (arith, f, s, a e),
        omega (arith, f, s, b),
        bound_more left per delay after.clock slept.clock st.clock last.clock c t d,
        g,
      )

  after_pause :
      (left delay : ℕ) (tried : Channel W)
      → ((if left == 0 then tried else record tried { clock = tried.clock + delay }).frames_sent
          ≡ tried.frames_sent)
        × ((if left == 0 then tried else record tried { clock = tried.clock + delay }).clock
            ≡ tried.clock + pause left delay)
  after_pause zero delay tried = (refl, omega arith)
  after_pause (suc left) delay tried =
      let more : (suc left == 0) ≡ false = ground arith in rw more (refl, refl)

  retry_loop-Spent :
      (left per delay : ℕ) (req : Request W) (last : List ReplyEvent) (st : Channel W)
      → IsHonest (last, false)
      → Spent left (time_of per req) delay st (retry_loop left per delay req last st)
  unfolding retry_loop
  retry_loop-Spent zero per delay req last st h = (λ e. omega arith, omega arith, omega arith, h)
  retry_loop-Spent (suc left) per delay req last st h =
      let tried = send_and_wait_for_reply per req st in
      let one = send_and_wait_for_reply-Attempt per req st in
      let slept : Channel W =
        if left == 0 then tried.1 else record tried.1 { clock = tried.1.clock + delay } in
      if-Spent left (time_of per req) delay st tried (retry_loop left per delay req tried.0.0 slept)
        slept one (after_pause left delay tried.1).0 (after_pause left delay tried.1).1
        (λ e.
          retry_loop-Spent left per delay req tried.0.0 slept
            (subst (λ b. IsHonest (tried.0.0, b)) e one.2))

  -- A request with retries sends no more frames than it has attempts, and one for each of them
  -- if none is answered; it has at least one. It takes no longer than, for each attempt, the time
  -- that the send function blocks, the timeout and the rest after a match, and the delays between
  -- the attempts; and it says that it is answered exactly if it returns a reply.
  pub send_and_wait_with_retries-bounds :
      (attempts : ℤ) (per delay : ℕ) (req : Request W) (st : Channel W)
      → let n = attempts_of attempts in
        let (answer, after) = send_and_wait_with_retries attempts per delay req st in
        (answer.1 ≡ false → after.frames_sent ≡ st.frames_sent + n)
        × (after.frames_sent ≤ st.frames_sent + n)
        × (after.clock ≤ st.clock + n * (req.send_ms + per + req.settle_ms) + (n - 1) * delay)
        × IsHonest answer
  unfolding send_and_wait_with_retries
  send_and_wait_with_retries-bounds attempts per delay req st =
      retry_loop-Spent (attempts_of attempts) per delay req [] st
        (λ e. cc, λ e. absurd (omega (arith, e)))
