-- ===== src/Transport/Serial/Sent.antt =====
-- racelink/transport/gateway_serial.py: the outcome of a send.
use gatecontrol_lora.Prelude.{
  Bool-cases, List, Option, [], ap, arith, false, inl, inr, none, refl, some, true, ◌∙◌, ◌∷◌, ◌≡◌,
  Bool, Option-cases, err, if◌then◌else◌, length, length-append, ok, or_else, sym, value_error,
  ◌++◌, ◌<◌, ◌↔◌, ◌≢◌, ◌≤◌, ◌⊎◌,
}
use gatecontrol_lora.Protocol.Struct.{Bytes}
use gatecontrol_lora.Transport.Serial.{
  Link, handle_buffer, SendOutcome, emit, fulfilled, handle_disconnect, emit_tx, link_lost, timeout,
  usb_error,
}
use gatecontrol_lora.Transport.Serial.Outcome.{
  outcome_of, fill, handle_buffer-slot, handle_buffer-written,
}
use gatecontrol_lora.Transport.Serial.Send.{
  receive, Inbound, awaited, first_outcome, frame_in, port_lost, wait_for, SendRequest,
  outcome_event_of, register_slot, send_failed, send_m2n, send_written, tx_event_of, write_frame,
}
use gatecontrol_lora.Transport.Serial.Framing.{handle_buffer-stopped, frame_bytes}

receive_stopped : (i : Inbound) (l : Link) → l.stopped ≡ true → receive i l ≡ l
unfolding receive
receive_stopped (frame_in buf) l h = ground arith
receive_stopped port_lost l h = ground arith

receive_frame :
    (buf : Bytes) (l : Link) → l.stopped ≡ false → receive (frame_in buf) l ≡ handle_buffer buf l
unfolding receive
receive_frame buf l h = ground arith

receive_lost : (l : Link) → l.stopped ≡ false → receive port_lost l ≡ handle_disconnect l
unfolding receive
receive_lost l h = ground arith

receive-stopped :
    (buf : Bytes) (l : Link) → l.stopped ≡ false → (receive (frame_in buf) l).stopped ≡ false
receive-stopped buf l h =
    ap (λ m. m.stopped) (receive_frame buf l h) ∙ handle_buffer-stopped buf l ∙ h

wait_for_stopped : (during : List Inbound) (l : Link) → l.stopped ≡ true → wait_for during l ≡ l
unfolding wait_for
wait_for_stopped [] l h = refl
wait_for_stopped (i ∷ rest) l h =
    ap (wait_for rest) (receive_stopped i l h) ∙ wait_for_stopped rest l h

-- An outcome that is there stays.
receive_kept :
    (i : Inbound) (l : Link) (o : SendOutcome)
    → l.slot ≡ some (some o)
    → (receive i l).slot ≡ some (some o)
unfolding receive handle_disconnect emit fulfilled
receive_kept (frame_in buf) l o h = elim (Bool-cases l.stopped) [
  | inl e ↦ ap (λ m. m.slot) (receive_stopped (frame_in buf) l e) ∙ h
  | inr e ↦
      ap (λ m. m.slot) (receive_frame buf l e)
      ∙ handle_buffer-slot buf l
      ∙ ap (fill (outcome_of buf)) h
      ∙ kept (outcome_of buf)
]
  where
    kept : (found : Option SendOutcome) → fill found (some (some o)) ≡ some (some o)
    kept none = refl
    kept (some first) = refl
receive_kept port_lost l o h = ground arith

wait_for_kept :
    (during : List Inbound) (l : Link) (o : SendOutcome)
    → l.slot ≡ some (some o)
    → (wait_for during l).slot ≡ some (some o)
unfolding wait_for
wait_for_kept [] l o h = h
wait_for_kept (i ∷ rest) l o h = wait_for_kept rest (receive i l) o (receive_kept i l o h)

receive_frame-slot :
    (buf : Bytes) (l : Link)
    → l.stopped ≡ false
    → l.slot ≡ some none
    → (receive (frame_in buf) l).slot ≡ fill (outcome_of buf) (some none)
receive_frame-slot buf l e h =
    ap (λ m. m.slot) (receive_frame buf l e)
    ∙ handle_buffer-slot buf l
    ∙ ap (fill (outcome_of buf)) h

wait_for-lost :
    (rest : List Inbound) (l : Link)
    → l.slot ≡ some none
    → awaited (wait_for rest (handle_disconnect l)).slot ≡ timeout
wait_for-lost rest l h =
    ap (λ m. awaited m.slot) (wait_for_stopped rest (handle_disconnect l) (stops l))
    ∙ ap awaited (same_slot l ∙ h)
  where
    stops : (m : Link) → (handle_disconnect m).stopped ≡ true
    stops m = unfold handle_disconnect in refl

    same_slot : (m : Link) → (handle_disconnect m).slot ≡ m.slot
    same_slot m = unfold handle_disconnect emit in refl

wait_running :
    (during : List Inbound) (l : Link)
    → l.stopped ≡ false
    → l.slot ≡ some none
    → awaited (wait_for during l).slot ≡ first_outcome false during
unfolding wait_for
wait_running [] l e h = ap awaited h
wait_running (port_lost ∷ rest) l e h =
    ap (λ m. awaited (wait_for rest m).slot) (receive_lost l e) ∙ wait_for-lost rest l h
wait_running (frame_in buf ∷ rest) l e h = elim (Option-cases (outcome_of buf)) [
  | inl none_found ↦
      wait_running rest (receive (frame_in buf) l) (receive-stopped buf l e)
        (receive_frame-slot buf l e h ∙ ap (λ found. fill found (some none)) none_found)
      ∙ sym (ap (λ found. or_else found (first_outcome false rest)) none_found)
  | inr (o, found) ↦
      ap awaited (
        wait_for_kept rest (receive (frame_in buf) l) o
          (receive_frame-slot buf l e h ∙ ap (λ f. fill f (some none)) found ∙ filled o))
      ∙ sym (ap (λ f. or_else f (first_outcome false rest)) found)
]
  where
    filled : (o : SendOutcome) → fill (some o) (some none) ≡ some (some o)
    filled o = unfold fulfilled in refl

wait_for-slot :
    (during : List Inbound) (l : Link)
    → l.slot ≡ some none
    → awaited (wait_for during l).slot ≡ first_outcome l.stopped during
wait_for-slot during l h = elim (Bool-cases l.stopped) [
  | inl e ↦
      ap (λ m. awaited m.slot) (wait_for_stopped during l e)
      ∙ ap awaited h
      ∙ sym (ap (λ b. first_outcome b during) e)
  | inr e ↦ wait_running during l e h ∙ sym (ap (λ b. first_outcome b during) e)
]

-- Nothing that comes in writes or speaks to the TX listeners.
abbrev SameOut : Link → Link → Type 0
SameOut m l = (m.written ≡ l.written) × (m.tx_heard ≡ l.tx_heard)

receive-out : (i : Inbound) (l : Link) → SameOut (receive i l) l
unfolding receive handle_disconnect emit
receive-out (frame_in buf) l = ground (arith, handle_buffer-written buf l)
receive-out port_lost l = ground arith

wait_for-out : (during : List Inbound) (l : Link) → SameOut (wait_for during l) l
unfolding wait_for
wait_for-out [] l = (refl, refl)
wait_for-out (i ∷ rest) l =
    let (w, t) = wait_for-out rest (receive i l) in
    let (w0, t0) = receive-out i l in (w ∙ w0, t ∙ t0)

-- The frame of a request, and what the TX listeners hear of a send that was written.
abbrev pub payload_of : SendRequest → Bytes
payload_of q = q.type_full ∷ (q.recv3 ++ q.body)

send_written_lem :
    (q : SendRequest) (bytes : Bytes) (during : List Inbound) (l : Link)
    → (o : SendOutcome) × (m : Link) × (send_written q bytes during l ≡ (o, m))
      × (o ≡ first_outcome l.stopped during)
      × (m.slot ≡ none)
      × (m.written ≡ l.written ++ bytes ∷ [])
      × (m.tx_heard ≡ (l.tx_heard ++ tx_event_of q ∷ []) ++ outcome_event_of q o ∷ [])
unfolding send_written emit_tx
send_written_lem q bytes during l =
    let start = write_frame bytes (register_slot l) in
    let (w, t) = wait_for-out during start in
    (
      _,
      _,
      refl,
      wait_for-slot during start refl,
      refl,
      w,
      ap
          (λ h.
            (h ++ tx_event_of q ∷ [])
            ++ outcome_event_of q (awaited (wait_for during start).slot) ∷ [])
          t,
    )

accepted :
    (q : SendRequest) (during : List Inbound) (l : Link) (sent : Bool)
    → length q.recv3 ≡ 3
    → length q.body ≤ 251
    → send_m2n q sent during l
      ≡ ok (if sent then send_written q (frame_bytes (payload_of q)) during l else send_failed q l)
unfolding send_m2n frame_bytes
accepted q during l sent three short = ground (arith, length-append q.recv3 q.body)

-- A send with an address of 3 bytes and a body of at most 251 bytes, on a port that takes the
-- bytes, always returns: with the first outcome that the gateway reports while the sender waits
-- (EV_TX_DONE a success, EV_TX_REJECTED a rejection with its reason, EV_ERROR a USB error), and
-- with a timeout where none arrives before the wait ends or the reader loses the port. Exactly
-- the frame is written, the TX listeners hear of the frame and then of the outcome, and no slot
-- is left registered.
pub send_m2n-first_outcome :
    (q : SendRequest) (during : List Inbound) (l : Link)
    → length q.recv3 ≡ 3
    → length q.body ≤ 251
    → (o : SendOutcome) × (m : Link) × (send_m2n q true during l ≡ ok (o, m))
      × (o ≡ first_outcome l.stopped during)
      × (m.slot ≡ none)
      × (m.written ≡ l.written ++ frame_bytes (payload_of q) ∷ [])
      × (m.tx_heard ≡ (l.tx_heard ++ tx_event_of q ∷ []) ++ outcome_event_of q o ∷ [])
send_m2n-first_outcome q during l three short =
    let (o, m, made, first, closed, out, told) =
      send_written_lem q (frame_bytes (payload_of q)) during l in
    (o, m, accepted q during l true three short ∙ ap ok made, first, closed, out, told)

-- A send with an address of 3 bytes and a body of at most 251 bytes, on a port that refuses the
-- bytes, returns a USB error without waiting: nothing is written, the reader is stopped, no slot is
-- left registered, the listeners hear that the link is lost, and the TX listeners of the outcome.
pub send_m2n-usb_error :
    (q : SendRequest) (during : List Inbound) (l : Link)
    → length q.recv3 ≡ 3
    → length q.body ≤ 251
    → (m : Link) × (send_m2n q false during l ≡ ok (usb_error, m))
      × (m.slot ≡ none)
      × (m.written ≡ l.written)
      × (m.stopped ≡ true)
      × (m.heard ≡ l.heard ++ link_lost ∷ [])
      × (m.tx_heard ≡ l.tx_heard ++ outcome_event_of q usb_error ∷ [])
send_m2n-usb_error q during l three short =
    unfold send_failed handle_disconnect emit emit_tx in
    ((send_failed q l).1, accepted q during l false three short, refl, refl, refl, refl, refl)

-- A send is refused with `ValueError` exactly where its address has not 3 bytes or its body has
-- more than 251.
pub send_m2n-refused :
    (q : SendRequest) (sent : Bool) (during : List Inbound) (l : Link)
    → (send_m2n q sent during l ≡ err value_error) ↔ ((length q.recv3 ≢ 3) ⊎ (251 < length q.body))
unfolding send_m2n
send_m2n-refused q sent during l = ground (arith, length-append q.recv3 q.body)
