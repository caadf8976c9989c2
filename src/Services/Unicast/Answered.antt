-- ===== src/Services/Unicast/Answered.antt =====
-- A unicast request that is answered at once, through the handlers and the registry of
-- racelink/services/gateway_service.py.
use gatecontrol_lora.Prelude.{
  ℕ, ==-refl, Bool-cases, List, Option, Text, [], ap, arith, false, inl, inr, leb, negsuc, none,
  pos, refl, some, some-injective, subst, sym, true, wrap, ℤ, ◌%◌, ◌-◌, ◌<◌, ◌==◌, ◌∙◌, ◌∷◌, ◌≡◌,
  ◌≤◌, Bool, if◌then◌else◌, suc,
}
use gatecontrol_lora.Protocol.Rules.{response_policy, response_opcode}
use gatecontrol_lora.Services.Pending.{
  try_match, Event, PendingRequest, completed, matches, register,
}
use gatecontrol_lora.Services.Pending.Reply.{try_match-register}
use gatecontrol_lora.Services.Replies.{event_of}
use gatecontrol_lora.Services.Gateway.{Host}
use gatecontrol_lora.Services.Gateway.Reconnect.{on_transport_tx-Agrees}
use gatecontrol_lora.Services.Collect.{Arrival}
use gatecontrol_lora.Services.Unicast.{
  Channel, Request, conclude_wait, expected_key_of, is_broadcast, is_for, pending_of,
  send_and_wait_for_reply, wait_done, Answer, send_only, transmit, wait_broadcast, wait_registered,
  receiver_of,
}

wrap_128 : (v : ℤ) → (n : ℕ) × (pos (wrap 128 v) ≡ pos n) × (n < 128)
wrap_128 (pos n) = (n % 128, refl, omega arith)
wrap_128 (negsuc n) = (128 - 1 - n % 128, refl, omega arith)

expected_key_small : (opcode : ℕ) → (n : ℕ) × (expected_key_of (opcode % 128) ≡ pos n) × (n < 128)
expected_key_small opcode = elim (Bool-cases (response_policy (opcode % 128) == 1)) [
  | inl e ↦ rw e (opcode % 128, refl, omega arith)
  | inr e ↦ rw e (wrap_128 (response_opcode (opcode % 128)))
]

is_for-completed :
    (r : PendingRequest) (ev : Event) (o : Option PendingRequest)
    → o ≡ some (completed r ev)
    → is_for r.ident o ≡ true
is_for-completed r ev o e = rw e (==-refl r.ident)

wait_done-hit :
    (clock timeout ident : ℕ) (a : Arrival) (rest arrivals : List Arrival) (host : Host)
    → arrivals ≡ a ∷ rest
    → a.at_ms ≤ timeout
    → is_for ident (try_match (event_of a.event) host.registry).0 ≡ true
    → (wait_done clock timeout ident arrivals host).0 ≡ some a
unfolding wait_done
wait_done-hit clock timeout ident a rest arrivals host e h f =
    let soon : leb a.at_ms timeout ≡ true = ground (arith, h) in
    ap (λ l. (wait_done clock timeout ident l host).0) e ∙ rw (wait_done, soon, f) refl

module _ {W : Type 0} where
  conclude_wait-hit :
      (pending : PendingRequest) (sender : Option Text) (timeout settle : ℕ) (st : Channel W)
      (a : Arrival) (r : Option Arrival × Host × List Arrival)
      → r.0 ≡ some a
      → (conclude_wait pending sender timeout settle st r).0 ≡ (a.event ∷ [], true)
  conclude_wait-hit pending sender timeout settle st a (none, host, rest) e = cc
  conclude_wait-hit pending sender timeout settle st a (some b, host, rest) e =
      ap (λ x. (x.event ∷ [], true)) (some-injective _ _ e)

  otherwise :
      (b : Bool) (x y : Answer × Channel W) (o : Answer)
      → b ≡ false
      → y.0 ≡ o
      → (if b then x else y).0 ≡ o
  otherwise true x y o e h = cc
  otherwise false x y o e h = h

  -- A unicast request of an opcode with a reply, to which the first event within the timeout is
  -- the reply asked for, is answered with that event, if nobody else waits for such a reply.
  pub send_and_wait_for_reply-answered :
      (timeout : ℕ) (req : Request W) (st : Channel W) (a : Arrival) (rest : List Arrival)
      → (response_policy (req.opcode % 128) == 0) ≡ false
      → is_broadcast req.recv3 ≡ false
      → (req.send_fn st.world).0 ≡ a ∷ rest
      → a.at_ms ≤ timeout
      → matches (pending_of req st) (event_of a.event) ≡ true
      → try_match (event_of a.event) st.host.registry ≡ (none, st.host.registry)
      → (send_and_wait_for_reply timeout req st).0 ≡ (a.event ∷ [], true)
  unfolding send_and_wait_for_reply
  send_and_wait_for_reply-answered timeout req st a rest p b e h m free =
      let pending = pending_of req st in
      let (n, key, small) = expected_key_small req.opcode in
      let waiting : Host = record st.host { registry = register pending st.host.registry } in
      let same = (on_transport_tx-Agrees req.recv3 req.opcode waiting).2 in
      let hit =
        subst (λ reg. is_for pending.ident (try_match (event_of a.event) reg).0 ≡ true) (sym same)
          (is_for-completed pending (event_of a.event)
            (try_match (event_of a.event) (register pending st.host.registry)).0
            (try_match-register (event_of a.event) pending n st.host.registry key small m
              free).0) in
      let registered : Channel W = record st { host = waiting; next_ident = suc st.next_ident } in
      let sent = (transmit req registered).1 in
      let arrivals = (req.send_fn st.world).0 in
      otherwise (response_policy (req.opcode % 128) == 0) (send_only req st) _ (a.event ∷ [], true)
        p
        (otherwise (is_broadcast req.recv3) (wait_broadcast timeout req st)
          (wait_registered pending timeout req st) (a.event ∷ [], true) b
          (conclude_wait-hit pending (receiver_of req st) timeout req.settle_ms sent a
            (wait_done sent.clock timeout pending.ident arrivals sent.host)
            (wait_done-hit sent.clock timeout pending.ident a rest arrivals sent.host e h hit)))
