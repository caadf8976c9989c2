-- ===== src/Services/Pending/Waiting.antt =====
-- A waiter of racelink/services/pending_requests.py, from `register` over the reply or the timeout
-- to `cancel`.
use gatecontrol_lora.Prelude.{
  ℕ, Bool-cases, List, [], arith, inl, inr, refl, some, true, ◌++◌, ◌==◌, ◌∷◌, ◌≡◌, none, sym, ◌⊎◌,
  ap, some-injective, suc, ◌∙◌, Option, append-nil, subst, ℤ,
}
use gatecontrol_lora.Protocol.Struct.{Bytes}
use gatecontrol_lora.Services.Pending.{
  Event, Key, PendingRequest, Registry, append_request, cancel, first_match, get_bucket, key_of,
  matches, pending_count, register, with_key, candidates, try_match, ack_candidates, ack_key,
  complete, completed, discard, match_sender, opc_ack, opcode7, spec_key,
}
use gatecontrol_lora.Services.Pending.Matching.{
  pending_count-discard, get_bucket-append_request, holds, pending_count-append_request,
}

holds-append :
    (rs : List PendingRequest) (req : PendingRequest) → holds req.ident (rs ++ req ∷ []) ≡ true
holds-append [] req = ground arith
holds-append (r ∷ rs) req = elim (Bool-cases (r.ident == req.ident)) [
  | inl e ↦ rw e refl
  | inr e ↦ rw e (holds-append rs req)
]

-- Registering a request and cancelling it, as a wait that times out does, leaves as many
-- requests pending as before.
pub pending_count-cancel :
    (req : PendingRequest) (reg : Registry)
    → pending_count (cancel req (register req reg)) ≡ pending_count reg
unfolding cancel register
pending_count-cancel req reg =
    let k = key_of req in
    let found : holds req.ident (get_bucket k (append_request k req reg)) ≡ true =
      rw (get_bucket-append_request k req reg) (holds-append (get_bucket k reg) req) in
    omega (
      arith,
      pending_count-discard k req.ident (append_request k req reg) found,
      pending_count-append_request k req reg,
    )

holds_head : (q : PendingRequest) (rs : List PendingRequest) → holds q.ident (q ∷ rs) ≡ true
holds_head q rs = ground arith

holds_tail :
    (ident : ℕ) (q : PendingRequest) (rs : List PendingRequest)
    → holds ident rs ≡ true
    → holds ident (q ∷ rs) ≡ true
holds_tail ident q rs h = ground (arith, h)

-- Where the loop finds its request: in the first bucket, or else in the rest.
first_match-with_key :
    (ev : Event) (k j : Key) (r : PendingRequest) (rs : List PendingRequest)
    (cs : List (Key × PendingRequest))
    → first_match ev (with_key k rs ++ cs) ≡ some (j, r)
    → (k ≡ j) × (holds r.ident rs ≡ true) × (matches r ev ≡ true)
      ⊎ (first_match ev cs ≡ some (j, r))
unfolding first_match
first_match-with_key ev k j r [] cs h = inr h
first_match-with_key ev k j r (q ∷ rs) cs h = elim (Bool-cases (matches q ev)) [
  | inl e ↦
      let found : (k, q) ≡ (j, r) = some-injective _ _ (rw e at h) in
      let same : q ≡ r = ap (λ p. p.1) found in
      inl (
        ap (λ p. p.0) found,
        ap (λ p. holds p.ident (q ∷ rs)) (sym same) ∙ holds_head q rs,
        rw (sym same) e,
      )
  | inr e ↦ elim (first_match-with_key ev k j r rs cs (rw e at h)) [
    | inl (p, m, g) ↦ inl (p, holds_tail r.ident q rs m, g)
    | inr p ↦ inr p
  ]
]

-- What the loop finds in the first bucket stands there.
in_bucket :
    (k j : Key) (r : PendingRequest) (reg : Registry)
    → k ≡ j
    → holds r.ident (get_bucket k reg) ≡ true
    → holds r.ident (get_bucket j reg) ≡ true
in_bucket k j r reg e h = subst (λ i. holds r.ident (get_bucket i reg) ≡ true) e h

spec_found :
    (ev : Event) (k j : Key) (r : PendingRequest) (reg : Registry)
    → first_match ev (with_key k (get_bucket k reg)) ≡ some (j, r)
    → (holds r.ident (get_bucket j reg) ≡ true) × (matches r ev ≡ true)
unfolding first_match
spec_found ev k j r reg h =
    elim (first_match-with_key ev k j r (get_bucket k reg) [] (rw append-nil h)) [
      | inl (e, m, g) ↦ (in_bucket k j r reg e m, g)
      | inr p ↦ let bad : none ≡ some (j, r) = p in cc
    ]

candidate_found :
    (sender : Bytes) (opc : ℕ) (ack_of : Option ℤ) (ev : Event) (reg : Registry) (k : Key)
    (r : PendingRequest)
    → first_match ev (
        ack_candidates sender opc ack_of reg
        ++ with_key (spec_key sender opc) (get_bucket (spec_key sender opc) reg))
      ≡ some (k, r)
    → (holds r.ident (get_bucket k reg) ≡ true) × (matches r ev ≡ true)
candidate_found sender opc none ev reg k r h = spec_found ev (spec_key sender opc) k r reg h
candidate_found sender opc (some ack) ev reg k r h = elim (Bool-cases (opc == opc_ack)) [
  | inl e ↦
      elim (first_match-with_key ev (ack_key sender ack) k r (get_bucket (ack_key sender ack) reg) _
        (rw e at h)) [
          | inl (p, m, g) ↦ (in_bucket (ack_key sender ack) k r reg p m, g)
          | inr p ↦ spec_found ev (spec_key sender opc) k r reg p
        ]
  | inr e ↦ spec_found ev (spec_key sender opc) k r reg (rw e at h)
]

-- What `complete` does with the request that was found.
complete_lem :
    (ev : Event) (reg rest : Registry) (k : Key) (r req : PendingRequest)
    → holds r.ident (get_bucket k reg) ≡ true
    → matches r ev ≡ true
    → complete ev reg (some (k, r)) ≡ (some req, rest)
    → (matches req ev ≡ true)
      × (req.done ≡ true)
      × (req.reply ≡ some ev)
      × (suc (pending_count rest) ≡ pending_count reg)
unfolding matches
complete_lem ev reg rest k r req m g h =
    let same : completed r ev ≡ req = some-injective _ _ (ap (λ p. p.0) h) in
    let left : discard k r.ident reg ≡ rest = ap (λ p. p.1) h in
    (
      subst (λ q. matches q ev ≡ true) same g,
      subst (λ q. q.done ≡ true) same refl,
      subst (λ q. q.reply ≡ some ev) same refl,
      subst (λ x. suc (pending_count x) ≡ pending_count reg) left
          (pending_count-discard k r.ident reg m),
    )

-- A reply that finds a request takes exactly one out of the registry. The request returned
-- matches the event, is done, and carries the event as its reply.
pub try_match-takes_one :
    (ev : Event) (reg rest : Registry) (req : PendingRequest)
    → try_match ev reg ≡ (some req, rest)
    → (matches req ev ≡ true)
      × (req.done ≡ true)
      × (req.reply ≡ some ev)
      × (suc (pending_count rest) ≡ pending_count reg)
unfolding try_match candidates
try_match-takes_one ev reg rest req h = go ev.sender3 h
  where
    found :
        (sender : Bytes) (o : Option (Key × PendingRequest))
        → first_match ev (candidates sender ev reg) ≡ o
        → complete ev reg o ≡ (some req, rest)
        → (matches req ev ≡ true)
          × (req.done ≡ true)
          × (req.reply ≡ some ev)
          × (suc (pending_count rest) ≡ pending_count reg)
    found sender none e g = let bad : none ≡ some req = ap (λ p. p.0) g in cc
    found sender (some (k, r)) e g =
        let (m, q) = candidate_found sender (opcode7 ev) ev.ack_of ev reg k r e in
        complete_lem ev reg rest k r req m q g

    go :
        (o : Option Bytes)
        → match_sender o ev reg ≡ (some req, rest)
        → (matches req ev ≡ true)
          × (req.done ≡ true)
          × (req.reply ≡ some ev)
          × (suc (pending_count rest) ≡ pending_count reg)
    go none g = let bad : none ≡ some req = ap (λ p. p.0) g in cc
    go (some sender) g = found sender _ refl g
