-- ===== src/Services/Pending.antt =====
-- racelink/services/pending_requests.py: the registry of outstanding unicast waits. The lock is
-- held for each access of the dictionary; one call is one step here. A request object is told
-- apart from others by its `done` event, which `ident` stands for.
pub mod Matching
pub mod Waiting
pub mod Reply
use gatecontrol_lora.Prelude.{
  ℕ, Bool, List, Option, [], eq_bytes, false, if◌then◌else◌, length, map, negsuc, none, or_else,
  pos, some, true, wrap, ℤ, ◌&&◌, ◌++◌, ◌+◌, ◌==◌, ◌∷◌,
}
use gatecontrol_lora.Protocol.Struct.{Bytes}

-- A transport event, as far as it is read. `sender3` is absent where it is no byte string.
pub record Event : Type 0 where
  pub sender3 : Option Bytes
  pub opc : Option ℤ
  pub ack_of : Option ℤ

pub record PendingRequest : Type 0 where
  pub ident : ℕ
  pub sender_last3 : Bytes
  pub expected_key : ℤ
  pub policy : ℤ
  pub done : Bool
  pub reply : Option Event

abbrev pub resp_ack : ℤ
resp_ack = pos 1

abbrev pub resp_specific : ℤ
resp_specific = pos 2

abbrev pub opc_ack : ℕ
opc_ack = 126

abbrev pub eq_ℤ : ℤ → ℤ → Bool
eq_ℤ (pos a) (pos b) = a == b
eq_ℤ (negsuc a) (negsuc b) = a == b
eq_ℤ (pos a) (negsuc b) = false
eq_ℤ (negsuc a) (pos b) = false

-- `int(ev.get("opc", -1)) & 0x7F`
abbrev pub opcode7 : Event → ℕ
opcode7 ev = wrap 128 (or_else ev.opc (negsuc 0))

-- The test on the opcode, once the sender agrees.
abbrev pub opcode_matches : PendingRequest → Event → Bool
opcode_matches req ev =
    if eq_ℤ req.policy resp_ack
    then opcode7 ev == opc_ack && eq_ℤ (or_else ev.ack_of (negsuc 0)) req.expected_key
    else if eq_ℤ req.policy resp_specific
    then eq_ℤ (pos (opcode7 ev)) req.expected_key
    else false

abbrev pub sender_matches : PendingRequest → Option Bytes → Bool
sender_matches req none = false
sender_matches req (some sender) = eq_bytes sender req.sender_last3

unfoldable pub matches : PendingRequest → Event → Bool
matches req ev = sender_matches req ev.sender3 && opcode_matches req ev

-- A key of the dictionary: sender, policy, expected key.
pub record Key : Type 0 where
  pub key_sender : Bytes
  pub key_policy : ℤ
  pub key_expected : ℤ

abbrev pub eq_key : Key → Key → Bool
eq_key a b =
    eq_bytes a.key_sender b.key_sender
    && (eq_ℤ a.key_policy b.key_policy && eq_ℤ a.key_expected b.key_expected)

abbrev pub key_of : PendingRequest → Key
key_of req = record {
  key_sender = req.sender_last3;
  key_policy = req.policy;
  key_expected = req.expected_key;
}

-- `_by_key`: a missing key has no requests.
abbrev pub Registry : Type 0
Registry = List (Key × List PendingRequest)

unfoldable pub get_bucket : Key → Registry → List PendingRequest
get_bucket k [] = []
get_bucket k ((j, bucket) ∷ rest) = if eq_key j k then bucket else get_bucket k rest

-- `setdefault(key, []).append(req)`
unfoldable pub append_request : Key → PendingRequest → Registry → Registry
append_request k req [] = (k, req ∷ []) ∷ []
append_request k req ((j, bucket) ∷ rest) =
    if eq_key j k then (j, bucket ++ req ∷ []) ∷ rest else (j, bucket) ∷ append_request k req rest

-- `bucket.remove(req)`, and the `ValueError` that is swallowed where it is not there.
unfoldable pub remove_request : ℕ → List PendingRequest → List PendingRequest
remove_request ident [] = []
remove_request ident (r ∷ rs) = if r.ident == ident then rs else r ∷ remove_request ident rs

-- A bucket that has become empty is popped.
abbrev pub keep_bucket : Key → List PendingRequest → Registry → Registry
keep_bucket k [] rest = rest
keep_bucket k (r ∷ rs) rest = (k, r ∷ rs) ∷ rest

unfoldable pub discard : Key → ℕ → Registry → Registry
unfolding remove_request
discard k ident [] = []
discard k ident ((j, bucket) ∷ rest) =
    if eq_key j k
    then keep_bucket j (remove_request ident bucket) rest
    else (j, bucket) ∷ discard k ident rest

abbrev pub new_request : ℕ → Bytes → ℤ → ℤ → PendingRequest
new_request ident sender expected policy = record {
  ident = ident;
  sender_last3 = sender;
  expected_key = expected;
  policy = policy;
  done = false;
  reply = none;
}

unfoldable pub register : PendingRequest → Registry → Registry
unfolding append_request
register req reg = append_request (key_of req) req reg

unfoldable pub cancel : PendingRequest → Registry → Registry
unfolding discard
cancel req reg = discard (key_of req) req.ident reg

unfoldable pub pending_count : Registry → ℕ
pending_count [] = 0
pending_count ((k, bucket) ∷ rest) = length bucket + pending_count rest

-- The two buckets in which an event can find its request.
abbrev pub ack_key : Bytes → ℤ → Key
ack_key sender ack_of = record {
  key_sender = sender;
  key_policy = resp_ack;
  key_expected = pos (wrap 128 ack_of);
}

abbrev pub spec_key : Bytes → ℕ → Key
spec_key sender opc = record {
  key_sender = sender;
  key_policy = resp_specific;
  key_expected = pos opc;
}

abbrev pub with_key : Key → List PendingRequest → List (Key × PendingRequest)
with_key k = map (λ r. (k, r))

abbrev pub ack_candidates : Bytes → ℕ → Option ℤ → Registry → List (Key × PendingRequest)
ack_candidates sender opc none reg = []
ack_candidates sender opc (some ack_of) reg =
    if opc == opc_ack
    then with_key (ack_key sender ack_of) (get_bucket (ack_key sender ack_of) reg)
    else []

unfoldable pub candidates : Bytes → Event → Registry → List (Key × PendingRequest)
unfolding get_bucket
candidates sender ev reg =
    ack_candidates sender (opcode7 ev) ev.ack_of reg
    ++ with_key (spec_key sender (opcode7 ev)) (get_bucket (spec_key sender (opcode7 ev)) reg)

-- The loop over the candidates, up to the first that matches.
unfoldable pub first_match : Event → List (Key × PendingRequest) → Option (Key × PendingRequest)
unfolding matches
first_match ev [] = none
first_match ev ((k, r) ∷ rest) = if matches r ev then some (k, r) else first_match ev rest

abbrev pub completed : PendingRequest → Event → PendingRequest
completed r ev = record r { done = true; reply = some ev }

abbrev pub complete :
    Event → Registry → Option (Key × PendingRequest) → Option PendingRequest × Registry
complete ev reg none = (none, reg)
complete ev reg (some (k, r)) = (some (completed r ev), discard k r.ident reg)

abbrev pub match_sender : Option Bytes → Event → Registry → Option PendingRequest × Registry
match_sender none ev reg = (none, reg)
match_sender (some sender) ev reg = complete ev reg (first_match ev (candidates sender ev reg))

unfoldable pub try_match : Event → Registry → Option PendingRequest × Registry
unfolding first_match candidates discard
try_match ev reg = match_sender ev.sender3 ev reg
