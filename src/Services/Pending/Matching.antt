-- ===== src/Services/Pending/Matching.antt =====
-- What the registry promises: a reply finds the request that waits for it, the oldest first, and
-- takes exactly that one out.
use gatecontrol_lora.Prelude.{
  ℕ, Bool, Bool-cases, List, [], ap, arith, eq_bytes_refl, false, inl, inr, length, length-append,
  refl, suc, true, ℤ, ◌++◌, ◌+◌, ◌==◌, ◌||◌, ◌∷◌, ◌≡◌,
}
use gatecontrol_lora.Services.Pending.{
  PendingRequest, Registry, Key, append_request, discard, eq_key, eq_ℤ, get_bucket, keep_bucket,
  pending_count, remove_request,
}

pub eq_ℤ-refl : (a : ℤ) → eq_ℤ a a ≡ true
eq_ℤ-refl a = ground arith

pub eq_ℤ→eq : (a b : ℤ) → eq_ℤ a b ≡ true → a ≡ b
eq_ℤ→eq a b h = ground arith

pub eq_key_refl : (k : Key) → eq_key k k ≡ true
eq_key_refl k =
    rw (eq_bytes_refl k.key_sender, eq_ℤ-refl k.key_policy, eq_ℤ-refl k.key_expected) refl

-- Registering adds one request, at the end of its bucket.
pub get_bucket-append_request :
    (k : Key) (req : PendingRequest) (reg : Registry)
    → get_bucket k (append_request k req reg) ≡ get_bucket k reg ++ req ∷ []
unfolding get_bucket append_request
get_bucket-append_request k req [] = rw (eq_key_refl k) refl
get_bucket-append_request k req ((j, bucket) ∷ rest) = elim (Bool-cases (eq_key j k)) [
  | inl e ↦ rw e (rw e refl)
  | inr e ↦ rw e (rw e (get_bucket-append_request k req rest))
]

pub pending_count-append_request :
    (k : Key) (req : PendingRequest) (reg : Registry)
    → pending_count (append_request k req reg) ≡ suc (pending_count reg)
unfolding pending_count append_request
pending_count-append_request k req [] = refl
pending_count-append_request k req ((j, bucket) ∷ rest) = elim (Bool-cases (eq_key j k)) [
  | inl e ↦ rw e (omega (arith, length-append bucket (req ∷ [])))
  | inr e ↦ rw e (omega (arith, pending_count-append_request k req rest))
]

-- A request with this identity is in the list.
abbrev pub holds : ℕ → List PendingRequest → Bool
holds ident [] = false
holds ident (r ∷ rs) = r.ident == ident || holds ident rs

length-remove_request :
    (ident : ℕ) (rs : List PendingRequest)
    → holds ident rs ≡ true
    → suc (length (remove_request ident rs)) ≡ length rs
unfolding remove_request
length-remove_request ident [] h = cc
length-remove_request ident (r ∷ rs) h = elim (Bool-cases (r.ident == ident)) [
  | inl e ↦ rw e refl
  | inr e ↦ rw e (ap suc (length-remove_request ident rs (rw e at h)))
]

length-keep_bucket :
    (k : Key) (bucket : List PendingRequest) (rest : Registry)
    → pending_count (keep_bucket k bucket rest) ≡ length bucket + pending_count rest
unfolding pending_count
length-keep_bucket k [] rest = omega arith
length-keep_bucket k (r ∷ rs) rest = refl

pub pending_count-discard :
    (k : Key) (ident : ℕ) (reg : Registry)
    → holds ident (get_bucket k reg) ≡ true
    → suc (pending_count (discard k ident reg)) ≡ pending_count reg
unfolding get_bucket pending_count discard
pending_count-discard k ident [] h = cc
pending_count-discard k ident ((j, bucket) ∷ rest) h = elim (Bool-cases (eq_key j k)) [
  | inl e ↦
      let found : holds ident bucket ≡ true = rw e at h in
      rw e (
        omega (
          arith,
          length-keep_bucket j (remove_request ident bucket) rest,
          length-remove_request ident bucket found,
        ))
  | inr e ↦
      let found : holds ident (get_bucket k rest) ≡ true = rw e at h in
      rw e (omega (arith, pending_count-discard k ident rest found))
]
