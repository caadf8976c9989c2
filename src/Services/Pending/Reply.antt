-- ===== src/Services/Pending/Reply.antt =====
-- The reply that a registered request waits for: racelink/services/pending_requests.py, from
-- `register` to `try_match`.
use gatecontrol_lora.Services.Pending.Waiting.{try_match-takes_one}
use gatecontrol_lora.Prelude.{
  ℕ, Bool-cases, List, Option, [], false, inl, inr, none, refl, some, true, ◌++◌, ◌∷◌, ◌≡◌, arith,
  eq_bytes→eq, pos, subst, sym, wrap, ◌<◌, ℤ, ◌==◌, eq_bytes_refl, ap, if◌then◌else◌, negsuc,
  or_else, ◌&&◌, ◌⊎◌, ◌∙◌,
}
use gatecontrol_lora.Protocol.Struct.{Bytes}
use gatecontrol_lora.Services.Pending.{
  Event, Key, PendingRequest, Registry, append_request, eq_key, first_match, get_bucket, matches,
  key_of, register, with_key, ack_candidates, ack_key, opc_ack, spec_key, candidates, completed,
  opcode_matches, pending_count, try_match, eq_ℤ, resp_ack, resp_specific, complete, discard,
  match_sender, opcode7, sender_matches,
}
use gatecontrol_lora.Services.Pending.Matching.{
  eq_ℤ→eq, get_bucket-append_request, pending_count-append_request,
}

eq_key→eq : (a b : Key) → eq_key a b ≡ true → a ≡ b
eq_key→eq a b h =
    let s : a.key_sender ≡ b.key_sender = eq_bytes→eq _ _ (ground (arith, h)) in
    let p : a.key_policy ≡ b.key_policy = eq_ℤ→eq _ _ (ground (arith, h)) in
    let e : a.key_expected ≡ b.key_expected = eq_ℤ→eq _ _ (ground (arith, h)) in
    λ i. record { key_sender = s i; key_policy = p i; key_expected = e i }

-- Registering leaves the other buckets as they are.
get_bucket-append_request_other :
    (k j : Key) (req : PendingRequest) (reg : Registry)
    → eq_key k j ≡ false
    → get_bucket j (append_request k req reg) ≡ get_bucket j reg
unfolding get_bucket append_request
get_bucket-append_request_other k j req [] e = rw e refl
get_bucket-append_request_other k j req ((i, bucket) ∷ rest) e = elim (Bool-cases (eq_key i k)) [
  | inl f ↦ let other : eq_key i j ≡ false = rw (eq_key→eq i k f) e in rw f (rw other refl)
  | inr f ↦ rw f (rw (get_bucket-append_request_other k j req rest e) refl)
]

-- The first of two results that is there.
abbrev or_next :
    Option (Key × PendingRequest) → Option (Key × PendingRequest) → Option (Key × PendingRequest)
or_next none o = o
or_next (some c) o = some c

first_match-append :
    (ev : Event) (cs ds : List (Key × PendingRequest))
    → first_match ev (cs ++ ds) ≡ or_next (first_match ev cs) (first_match ev ds)
unfolding first_match
first_match-append ev [] ds = refl
first_match-append ev ((k, r) ∷ cs) ds = elim (Bool-cases (matches r ev)) [
  | inl e ↦ rw e refl
  | inr e ↦ rw e (first_match-append ev cs ds)
]

first_match-with_key-none :
    (ev : Event) (k : Key) (rs : List PendingRequest) (req : PendingRequest)
    → first_match ev (with_key k rs) ≡ none
    → matches req ev ≡ true
    → first_match ev (with_key k (rs ++ req ∷ [])) ≡ some (k, req)
unfolding first_match
first_match-with_key-none ev k [] req h m = rw m refl
first_match-with_key-none ev k (r ∷ rs) req h m = elim (Bool-cases (matches r ev)) [
  | inl e ↦ let found : some (k, r) ≡ none = rw e at h in cc
  | inr e ↦ rw e (first_match-with_key-none ev k rs req (rw e at h) m)
]

or_next-none : (o p : Option (Key × PendingRequest)) → or_next o p ≡ none → (o ≡ none) × (p ≡ none)
or_next-none none p h = (refl, h)
or_next-none (some c) p h = cc

-- A new request is found in its own bucket.
first_match-register :
    (ev : Event) (k : Key) (req : PendingRequest) (reg : Registry)
    → key_of req ≡ k
    → matches req ev ≡ true
    → first_match ev (with_key k (get_bucket k reg)) ≡ none
    → first_match ev (with_key k (get_bucket k (register req reg))) ≡ some (k, req)
unfolding register
first_match-register ev k req reg e m h =
    let j = key_of req in
    let before : first_match ev (with_key j (get_bucket j reg)) ≡ none =
      subst (λ i. first_match ev (with_key i (get_bucket i reg)) ≡ none) (sym e) h in
    subst
      (λ i. first_match ev (with_key i (get_bucket i (append_request j req reg))) ≡ some (i, req)) e
      (rw (get_bucket-append_request j req reg)
        (first_match-with_key-none ev j (get_bucket j reg) req before m))

wrap128 : (n : ℕ) → n < 128 → wrap 128 (pos n) ≡ n
wrap128 n h = omega (arith, h)

-- The candidates of an event: the bucket of the ACK, then that of the reply.
abbrev all_candidates : Bytes → ℕ → Option ℤ → Registry → List (Key × PendingRequest)
all_candidates sender opc ack reg =
    ack_candidates sender opc ack reg
    ++ with_key (spec_key sender opc) (get_bucket (spec_key sender opc) reg)

ack_found :
    (sender : Bytes) (opc : ℕ) (a : ℤ) (ev : Event) (req : PendingRequest) (reg : Registry)
    → key_of req ≡ ack_key sender a
    → (opc == opc_ack) ≡ true
    → matches req ev ≡ true
    → first_match ev (ack_candidates sender opc (some a) reg) ≡ none
    → first_match ev (all_candidates sender opc (some a) (register req reg))
      ≡ some (ack_key sender a, req)
ack_found sender opc a ev req reg e o m h =
    let k = ack_key sender a in
    let before : first_match ev (with_key k (get_bucket k reg)) ≡ none = rw o at h in
    rw o (
      rw
        (first_match-append ev (with_key k (get_bucket k (register req reg)))
          (with_key (spec_key sender opc) (get_bucket (spec_key sender opc) (register req reg))))
        (rw (first_match-register ev k req reg e m before) refl))

ack_candidates-register :
    (sender : Bytes) (opc : ℕ) (ack : Option ℤ) (req : PendingRequest) (reg : Registry)
    → key_of req ≡ spec_key sender opc
    → ack_candidates sender opc ack (register req reg) ≡ ack_candidates sender opc ack reg
unfolding register
ack_candidates-register sender opc none req reg e = refl
ack_candidates-register sender opc (some a) req reg e =
    let k = ack_key sender a in
    let other : eq_key (key_of req) k ≡ false =
      subst (λ j. eq_key j k ≡ false) (sym e) (rw (eq_bytes_refl sender) refl) in
    elim (Bool-cases (opc == opc_ack)) [
      | inl o ↦ rw o (rw (get_bucket-append_request_other (key_of req) k req reg other) refl)
      | inr o ↦ rw o refl
    ]

spec_found :
    (sender : Bytes) (opc : ℕ) (ack : Option ℤ) (ev : Event) (req : PendingRequest) (reg : Registry)
    → key_of req ≡ spec_key sender opc
    → matches req ev ≡ true
    → first_match ev (ack_candidates sender opc ack reg) ≡ none
    → first_match ev (with_key (spec_key sender opc) (get_bucket (spec_key sender opc) reg)) ≡ none
    → first_match ev (all_candidates sender opc ack (register req reg))
      ≡ some (spec_key sender opc, req)
spec_found sender opc ack ev req reg e m h g =
    let k = spec_key sender opc in
    rw
      (first_match-append ev (ack_candidates sender opc ack (register req reg))
        (with_key k (get_bucket k (register req reg))))
      (rw (ack_candidates-register sender opc ack req reg e)
        (rw h (first_match-register ev k req reg e m g)))

-- The test on the opcode says in which of the two buckets the request is registered.
module _ (sender : Bytes) (opc : ℕ) (req : PendingRequest) (n : ℕ) (s : req.sender_last3 ≡ sender)
    (x : req.expected_key ≡ pos n) (b : n < 128) where
  spec_route :
      (if eq_ℤ req.policy resp_specific then eq_ℤ (pos opc) req.expected_key else false) ≡ true
      → key_of req ≡ spec_key sender opc
  spec_route h = elim (Bool-cases (eq_ℤ req.policy resp_specific)) [
    | inl p ↦
        let v : pos opc ≡ req.expected_key = eq_ℤ→eq _ _ (rw p at h) in
        let u : req.expected_key ≡ pos opc = sym v in
        let w : req.policy ≡ resp_specific = eq_ℤ→eq _ _ p in
        λ i. record { key_sender = s i; key_policy = w i; key_expected = u i }
    | inr p ↦ let bad : false ≡ true = rw p at h in cc
  ]

  route :
      (ack : Option ℤ)
      → (if eq_ℤ req.policy resp_ack
          then opc == opc_ack && eq_ℤ (or_else ack (negsuc 0)) req.expected_key
          else if eq_ℤ req.policy resp_specific
          then eq_ℤ (pos opc) req.expected_key
          else false)
        ≡ true
      → ((a : ℤ) × (ack ≡ some a) × ((opc == opc_ack) ≡ true) × (key_of req ≡ ack_key sender a))
        ⊎ (key_of req ≡ spec_key sender opc)
  route none h = elim (Bool-cases (eq_ℤ req.policy resp_ack)) [
    | inl p ↦
        let both : (opc == opc_ack && eq_ℤ (negsuc 0) req.expected_key) ≡ true = rw p at h in
        let e : negsuc 0 ≡ req.expected_key = eq_ℤ→eq _ _ (ground (arith, both)) in
        let bad : negsuc 0 ≡ pos n = e ∙ x in cc
    | inr p ↦ inr (spec_route (rw p at h))
  ]
  route (some a) h = elim (Bool-cases (eq_ℤ req.policy resp_ack)) [
    | inl p ↦
        let both : (opc == opc_ack && eq_ℤ a req.expected_key) ≡ true = rw p at h in
        let e : a ≡ req.expected_key = eq_ℤ→eq _ _ (ground (arith, both)) in
        let v : req.expected_key ≡ pos (wrap 128 a) = rw (e, x) (sym (ap pos (wrap128 n b))) in
        let w : req.policy ≡ resp_ack = eq_ℤ→eq _ _ p in
        inl (
          a,
          refl,
          ground (arith, both),
          λ i. record { key_sender = s i; key_policy = w i; key_expected = v i },
        )
    | inr p ↦ inr (spec_route (rw p at h))
  ]

  -- Along either route the new request is what the loop finds.
  first_match-candidates :
      (ev : Event) (reg : Registry) (ack : Option ℤ)
      → matches req ev ≡ true
      → first_match ev (all_candidates sender opc ack reg) ≡ none
      → ((a : ℤ) × (ack ≡ some a) × ((opc == opc_ack) ≡ true) × (key_of req ≡ ack_key sender a))
        ⊎ (key_of req ≡ spec_key sender opc)
      → (k : Key) × (first_match ev (all_candidates sender opc ack (register req reg))
          ≡ some (k, req))
  first_match-candidates ev reg ack m h r =
      let k = spec_key sender opc in
      let split = or_next-none _ _ (
        sym (
          first_match-append ev (ack_candidates sender opc ack reg) (with_key k (get_bucket k reg)))
        ∙ h) in
      elim r [
        | inl (a, e, o, q) ↦ (
          ack_key sender a,
          subst
              (λ t.
                first_match ev (all_candidates sender opc t (register req reg))
                ≡ some (ack_key sender a, req))
              (sym e)
              (ack_found sender opc a ev req reg q o m
                (subst (λ t. first_match ev (ack_candidates sender opc t reg) ≡ none) e split.0)),
        )
        | inr q ↦ (k, spec_found sender opc ack ev req reg q m split.0 split.1)
      ]

none_found :
    (ev : Event) (reg : Registry) (o : Option (Key × PendingRequest))
    → complete ev reg o ≡ (none, reg)
    → o ≡ none
none_found ev reg none h = refl
none_found ev reg (some (k, r)) h = let bad : some (completed r ev) ≡ none = ap (λ p. p.0) h in cc

-- The step on the sender: the new request is the one that is completed.
match_sender-register :
    (o : Option Bytes) (ev : Event) (req : PendingRequest) (n : ℕ) (reg : Registry)
    → req.expected_key ≡ pos n
    → n < 128
    → matches req ev ≡ true
    → (sender_matches req o && opcode_matches req ev) ≡ true
    → match_sender o ev reg ≡ (none, reg)
    → (rest : Registry) × (match_sender o ev (register req reg) ≡ (some (completed req ev), rest))
unfolding candidates
match_sender-register none ev req n reg x b m h g = cc
match_sender-register (some sender) ev req n reg x b m h g =
    let s : req.sender_last3 ≡ sender = sym (eq_bytes→eq _ _ (ground (arith, h))) in
    let o : opcode_matches req ev ≡ true = ground (arith, h) in
    let r = route sender (opcode7 ev) req n s x b ev.ack_of o in
    let (k, f) =
      first_match-candidates sender (opcode7 ev) req n s x b ev reg ev.ack_of m
        (none_found ev reg _ g) r in
    (discard k req.ident (register req reg), ap (complete ev (register req reg)) f)

-- A reply that nobody waits for yet, and that matches a new request, completes that request
-- once it is registered: it is returned, done and with the event as its reply, and as many
-- requests are pending after it as before. The expected key is an opcode of 7 bits.
pub try_match-register :
    (ev : Event) (req : PendingRequest) (n : ℕ) (reg : Registry)
    → req.expected_key ≡ pos n
    → n < 128
    → matches req ev ≡ true
    → try_match ev reg ≡ (none, reg)
    → ((try_match ev (register req reg)).0 ≡ some (completed req ev))
      × (pending_count (try_match ev (register req reg)).1 ≡ pending_count reg)
unfolding try_match matches register
try_match-register ev req n reg x b m h =
    let (rest, e) = match_sender-register ev.sender3 ev req n reg x b m m h in
    let taken = try_match-takes_one ev (register req reg) rest (completed req ev) e in
    (
      ap (λ p. p.0) e,
      ap (λ p. pending_count p.1) e
          ∙ omega (arith, taken, pending_count-append_request (key_of req) req reg),
    )
