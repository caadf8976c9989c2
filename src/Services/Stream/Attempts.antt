-- ===== src/Services/Stream/Attempts.antt =====
-- How often a stream is sent, and whose acknowledgements count.
use gatecontrol_lora.Services.Control.{all_nodes}
use gatecontrol_lora.Services.Pending.{eq_ℤ}
use gatecontrol_lora.Domain.Device.{Device, heard}
use gatecontrol_lora.Services.Collect.Total.{send_and_collect_total, events_of}
use gatecontrol_lora.Services.Collect.{Arrival, Window}
use gatecontrol_lora.Transport.Serial.Wrappers
use gatecontrol_lora.Services.Keyed.{DistinctKeys, DistinctKeys-append}
use gatecontrol_lora.Services.Keyed.{DistinctKeys-append}
use gatecontrol_lora.Protocol.Codec.{ReplyEvent}
use gatecontrol_lora.Services.Scenes.Slug.{has_text}
use gatecontrol_lora.Protocol.Struct.{Bytes}
use gatecontrol_lora.Services.Status.{add_text}
use gatecontrol_lora.Transport.Serial.Send.{SendRequest}
use gatecontrol_lora.Services.Stream.{
  add_acked, stream_pred, is_stream_ack, Streaming, stream_attempt, stream_attempts,
  discard_broadcast, last3_set, no_frames, send_stream, stream_targets, stream_window, streamed,
}
use gatecontrol_lora.Prelude.{
  ℕ, List, Bool, All, [], ◌∷◌, ◌≡◌, ◌≤◌, ◌⊎◌, ◌&&◌, ◌++◌, true, false, refl, arith, ap, map, zero,
  suc, length, leb, inl, inr, keep, Bool-cases, All-append, subst, sym, ◌==◌, all, ◌+◌, ltb, none,
  ok, some, ℤ,
}

-- `n` times the same frame.
abbrev pub copies : ℕ → SendRequest → List SendRequest
copies zero q = []
copies (suc n) q = q ∷ copies n q

-- The nodes counted are targets, none of them twice.
abbrev pub IsCounted : List Bytes → List Bytes → Type 0
IsCounted targets acked = DistinctKeys (λ t. t) acked × All (λ t. has_text targets t ≡ true) acked

map_same : (ts : List Bytes) → map (λ t. t) ts ≡ ts
map_same [] = refl
map_same (t ∷ ts) = ap (λ us. t ∷ us) (map_same ts)

add_text-IsCounted :
    (targets acked : List Bytes) (t : Bytes)
    → has_text targets t ≡ true
    → IsCounted targets acked
    → IsCounted targets (add_text t acked)
unfolding add_text
add_text-IsCounted targets acked t h (d, a) = elim (Bool-cases (has_text acked t)) [
  | inl e ↦ rw e (d, a)
  | inr e ↦ rw e (
    DistinctKeys-append (λ t. t) acked t d
        (subst (λ us. has_text us t ≡ false) (sym (map_same acked)) e),
    All-append (λ t. has_text targets t ≡ true) acked (t ∷ []) a (h, tt),
  )
]

abbrev Taken : List Bytes → ReplyEvent → Type 0
Taken targets ev = stream_pred targets ev ≡ true

stream_pred-has_text :
    (targets : List Bytes) (ev : ReplyEvent) → Taken targets ev → has_text targets ev.sender3 ≡ true
unfolding stream_pred
stream_pred-has_text targets ev h =
    last (ev.opc == 126) (is_stream_ack ev.reply) (has_text targets ev.sender3) h
  where
    last : (a b c : Bool) → (a && b && c) ≡ true → c ≡ true
    last true true c h = h
    last true false c h = cc h
    last false b c h = cc h

add_acked-IsCounted :
    (targets : List Bytes) (evs : List ReplyEvent) (acked : List Bytes)
    → All (Taken targets) evs
    → IsCounted targets acked
    → IsCounted targets (add_acked evs acked)
unfolding add_acked
add_acked-IsCounted targets [] acked h k = k
add_acked-IsCounted targets (ev ∷ evs) acked (h, hs) k =
    add_acked-IsCounted targets evs (add_text ev.sender3 acked) hs
      (add_text-IsCounted targets acked ev.sender3 (stream_pred-has_text targets ev h) k)

All-front : {A : Type 0} (P : A → Type 0) (xs ys : List A) → All P (xs ++ ys) → All P xs
All-front P [] ys h = tt
All-front P (x ∷ xs) ys (h, hs) = (h, All-front P xs ys hs)

matches-Taken :
    (targets : List Bytes) (arrivals : List Arrival)
    → All (Taken targets) (events_of (keep (λ a. stream_pred targets a.event) arrivals))
matches-Taken targets [] = tt
matches-Taken targets (a ∷ rest) = elim (Bool-cases (stream_pred targets a.event)) [
  | inl e ↦ rw e (e, matches-Taken targets rest)
  | inr e ↦ rw e (matches-Taken targets rest)
]

stream_attempt-IsCounted :
    (w : Window) (targets : List Bytes) (frame : SendRequest) (arrivals : List Arrival)
    (st : Streaming)
    → IsCounted targets st.acked
    → IsCounted targets (stream_attempt w targets frame arrivals st).acked
unfolding stream_attempt
stream_attempt-IsCounted w targets frame arrivals st h =
    let (r, got, (heard, in_time, room), why) =
      send_and_collect_total w (stream_pred targets) arrivals in
    rw got (
      add_acked-IsCounted targets r.events st.acked
        (All-front (Taken targets) r.events (events_of r.unheard)
          (subst (All (Taken targets)) (sym heard) (matches-Taken targets arrivals)))
        h)

stream_attempt-copies :
    (j : ℕ) (w : Window) (targets : List Bytes) (frame : SendRequest) (arrivals : List Arrival)
    (st : Streaming)
    → st.frames ≡ copies j frame
    → (stream_attempt w targets frame arrivals st).frames ≡ copies (suc j) frame
unfolding stream_attempt
stream_attempt-copies j w targets frame arrivals st e = ap (λ qs. frame ∷ qs) e

-- From `j` frames on, with `left` attempts: how many frames there are in the end, and why the
-- attempts end.
abbrev pub IsStreamed : ℕ → ℕ → List Bytes → SendRequest → Streaming → Type 0
IsStreamed j left targets frame st =
    (n : ℕ) × (st.frames ≡ copies n frame)
    × (j ≤ n)
    × (n ≤ j + left)
    × ((length targets ≤ length st.acked) ⊎ (n ≡ j + left))
    × IsCounted targets st.acked

stream_attempts-IsStreamed :
    (left j attempt : ℕ) (w : Window) (targets : List Bytes) (frame : SendRequest)
    (arrivals : ℕ → List Arrival) (st : Streaming)
    → st.frames ≡ copies j frame
    → IsCounted targets st.acked
    → IsStreamed j left targets frame (stream_attempts left attempt w targets frame arrivals st)
unfolding stream_attempts
stream_attempts-IsStreamed zero j attempt w targets frame arrivals st e h =
    (j, e, omega arith, omega arith, inr (omega arith), h)
stream_attempts-IsStreamed (suc left) j attempt w targets frame arrivals st e h =
    let after = stream_attempt w targets frame (arrivals attempt) st in
    let e' = stream_attempt-copies j w targets frame (arrivals attempt) st e in
    let h' = stream_attempt-IsCounted w targets frame (arrivals attempt) st h in
    elim (Bool-cases (leb (length targets) (length after.acked))) [
      | inl f ↦ rw f (suc j, e', omega arith, omega arith, inl (ground (arith, f)), h')
      | inr f ↦ rw f (
          later (stream_attempts left (suc attempt) w targets frame arrivals after) (
            stream_attempts-IsStreamed left (suc j) (suc attempt) w targets frame arrivals after e'
              h'))
    ]
  where
    later :
        (out : Streaming)
        → IsStreamed (suc j) left targets frame out
        → IsStreamed j (suc left) targets frame out
    later out (n, e, lo, hi, inl done, k) =
        (n, e, omega (arith, lo), omega (arith, hi), inl done, k)
    later out (n, e, lo, hi, inr all, k) =
        (n, e, omega (arith, lo), omega (arith, hi), inr (omega (arith, all)), k)

-- A payload of at most 128 bytes, for a group whose devices have readable addresses, is streamed:
-- each frame is the same broadcast, and there are as many as attempts, one more than the retries,
-- or fewer where the nodes counted are as many as the targets. The nodes counted are targets, the
-- addresses in the group without the broadcast one, and no node is counted twice.
pub send_stream-group :
    (payload : Bytes) (gid : ℤ) (retries timeout : ℕ) (devices : List Device)
    (arrivals : ℕ → List Arrival) (macs : List Bytes)
    → length payload ≤ 128
    → last3_set (keep (λ d. eq_ℤ d.group_id gid) devices) ≡ ok macs
    → (st : Streaming) × (send_stream true payload (some gid) none retries timeout devices arrivals
        ≡ ok (streamed (length (discard_broadcast macs)) st))
      × IsStreamed 0
          (suc retries)
          (discard_broadcast macs)
          (Wrappers.send_stream all_nodes payload)
          st
unfolding send_stream stream_targets
send_stream-group payload gid retries timeout devices arrivals macs short e =
    let known = discard_broadcast macs in
    let w = stream_window (length known) timeout in
    let frame = Wrappers.send_stream all_nodes payload in
    elim (Bool-cases (length known == 0)) [
      | inl f ↦
          rw (fits, e, f)
            (
              no_frames,
              rw (none_left f) refl,
              (0, refl, omega arith, omega arith, inl (omega (arith, none_left f)), (tt, tt)),
            )
      | inr f ↦
          rw (fits, e, f)
            (
              stream_attempts (suc retries) 0 w known frame arrivals no_frames,
              refl,
              stream_attempts-IsStreamed (suc retries) 0 0 w known frame arrivals no_frames refl
                  (tt, tt),
            )
    ]
  where
    fits : ltb 128 (length payload) ≡ false
    fits = ground (arith, short)

    none_left : (length (discard_broadcast macs) == 0) ≡ true → length (discard_broadcast macs) ≡ 0
    none_left f = ground (arith, f)
