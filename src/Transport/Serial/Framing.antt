-- ===== src/Transport/Serial/Framing.antt =====
-- racelink/transport/gateway_serial.py, `_reader`: which frames it hands on.
use gatecontrol_lora.Prelude.{
  ℕ, All, List, [], append_assoc, arith, length, length-append, none, refl, some, subst, suc, ◌++◌,
  ◌+◌, ◌<◌, ◌∷◌, ◌≡◌, Option-cases, ap, false, inl, inr, map, ◌∙◌, sym,
}
use gatecontrol_lora.Protocol.Struct.{Bytes}
use gatecontrol_lora.Transport.Serial.{
  Link, handle_buffer, RxEvent, emit, fulfill_pending_outcome, handle_frame, handle_rejected,
  handle_reply, handle_state, update_gateway_state,
}
use gatecontrol_lora.Transport.Serial.Reader.{
  Framer, feed, Receiver, idle, inside, read_byte, read_chunk, chunk, reader, ReadResult,
}

-- A frame as it stands on the line: bytes that are not 0 before it, and its payload of 1 to 255
-- bytes.
pub record LineFrame : Type 0 where
  pub noise : Bytes
  pub payload : Bytes

abbrev pub NonZero : ℕ → Type 0
NonZero x = 0 < x

abbrev pub IsLineFrame : LineFrame → Type 0
IsLineFrame f = All NonZero f.noise × (0 < length f.payload) × (length f.payload < 256)

-- `[0x00][LEN][payload]`
unfoldable pub frame_bytes : Bytes → Bytes
frame_bytes payload = 0 ∷ length payload ∷ payload

unfoldable pub line_of : List LineFrame → Bytes
unfolding frame_bytes
line_of [] = []
line_of (f ∷ fs) = f.noise ++ (frame_bytes f.payload ++ line_of fs)

-- The payloads, handled one after the other.
unfoldable pub handle_all : Link → List LineFrame → Link
handle_all l [] = l
handle_all l (f ∷ fs) = handle_all (handle_buffer f.payload l) fs

unfoldable pub concat : List Bytes → Bytes
concat [] = []
concat (c ∷ cs) = c ++ concat cs

-- A frame that is not complete goes on with the next byte.
feed_noise : (x n : ℕ) (buf : Bytes) → 0 < x → feed (idle n buf) x ≡ (idle n buf, none)
unfolding feed
feed_noise x n buf h = ground arith

feed_more :
    (need x : ℕ) (buf : Bytes)
    → 0 < need
    → length (buf ++ x ∷ []) < need
    → feed (inside need buf) x ≡ (inside need (buf ++ x ∷ []), none)
unfolding feed
feed_more need x buf h k = ground arith

feed_last :
    (need x : ℕ) (buf : Bytes)
    → 0 < need
    → length (buf ++ x ∷ []) ≡ need
    → feed (inside need buf) x ≡ (idle need (buf ++ x ∷ []), some (buf ++ x ∷ []))
unfolding feed
feed_last need x buf h k = ground arith

abbrev at : Framer → Link → Receiver
at f l = record { framer = f; link = l }

read_chunk-append :
    (r : Receiver) (xs ys : Bytes) → read_chunk r (xs ++ ys) ≡ read_chunk (read_chunk r xs) ys
unfolding read_chunk
read_chunk-append r [] ys = refl
read_chunk-append r (x ∷ xs) ys = read_chunk-append (read_byte r x) xs ys

read_noise :
    (n : ℕ) (buf : Bytes) (l : Link) (xs : Bytes)
    → All NonZero xs
    → read_chunk (at (idle n buf) l) xs ≡ at (idle n buf) l
unfolding read_chunk read_byte
read_noise n buf l [] h = refl
read_noise n buf l (x ∷ xs) (h, hs) = rw (feed_noise x n buf h) (read_noise n buf l xs hs)

-- The rest of a payload after `done`.
read_payload :
    (need : ℕ) (done : Bytes) (l : Link) (x : ℕ) (xs : Bytes)
    → length done + suc (length xs) ≡ need
    → read_chunk (at (inside need done) l) (x ∷ xs)
      ≡ at (idle need (done ++ x ∷ xs)) (handle_buffer (done ++ x ∷ xs) l)
unfolding read_chunk read_byte
read_payload need done l x [] h =
    rw (feed_last need x done (omega arith) (omega (arith, length-append done (x ∷ [])))) refl
read_payload need done l x (y ∷ ys) h =
    rw (feed_more need x done (omega arith) (omega (arith, length-append done (x ∷ [])))) (
      subst
        (λ t.
          read_chunk (at (inside need (done ++ x ∷ [])) l) (y ∷ ys)
          ≡ at (idle need t) (handle_buffer t l))
        (append_assoc done (x ∷ []) (y ∷ ys))
        (read_payload need (done ++ x ∷ []) l y ys (omega (arith, length-append done (x ∷ [])))))

read_frame :
    (n : ℕ) (buf : Bytes) (l : Link) (payload : Bytes)
    → 0 < length payload
    → read_chunk (at (idle n buf) l) (frame_bytes payload)
      ≡ at (idle (length payload) payload) (handle_buffer payload l)
unfolding read_chunk read_byte feed frame_bytes
read_frame n buf l [] h = absurd (omega arith)
read_frame n buf l (x ∷ xs) h = read_payload (suc (length xs)) [] l x xs (omega arith)

-- The local variables of the reader when the frames have been read.
framer_after : ℕ → Bytes → List LineFrame → Framer
framer_after n buf [] = idle n buf
framer_after n buf (f ∷ fs) = framer_after (length f.payload) f.payload fs

framer_after-idle :
    (n : ℕ) (buf : Bytes) (fs : List LineFrame) → (framer_after n buf fs).in_frame ≡ false
unfolding framer_after
framer_after-idle n buf [] = refl
framer_after-idle n buf (f ∷ fs) = framer_after-idle (length f.payload) f.payload fs

read_line :
    (n : ℕ) (buf : Bytes) (l : Link) (fs : List LineFrame)
    → All IsLineFrame fs
    → read_chunk (at (idle n buf) l) (line_of fs) ≡ at (framer_after n buf fs) (handle_all l fs)
unfolding read_chunk line_of framer_after handle_all
read_line n buf l [] h = refl
read_line n buf l (f ∷ fs) ((noise, more, small), hs) =
    rw (read_chunk-append (at (idle n buf) l) f.noise (frame_bytes f.payload ++ line_of fs)) (
      rw (read_noise n buf l f.noise noise) (
        rw (read_chunk-append (at (idle n buf) l) (frame_bytes f.payload) (line_of fs)) (
          rw (read_frame n buf l f.payload more)
            (read_line (length f.payload) f.payload (handle_buffer f.payload l) fs hs))))

-- No frame stops the reader.
emit-stopped : (ev : RxEvent) (l : Link) → (emit ev l).stopped ≡ l.stopped
unfolding emit
emit-stopped ev l = refl

pub handle_buffer-stopped : (buf : Bytes) (l : Link) → (handle_buffer buf l).stopped ≡ l.stopped
unfolding handle_buffer handle_frame handle_rejected handle_state handle_reply emit
    fulfill_pending_outcome update_gateway_state
handle_buffer-stopped [] l = refl
handle_buffer-stopped (t ∷ bytes) l = ground arith

read_byte-stopped : (r : Receiver) (x : ℕ) → (read_byte r x).link.stopped ≡ r.link.stopped
unfolding read_byte
read_byte-stopped r x = elim (Option-cases ((feed r.framer x).1)) [
  | inl e ↦ rw e refl
  | inr (buf, e) ↦ rw e (handle_buffer-stopped buf r.link)
]

read_chunk-stopped : (r : Receiver) (xs : Bytes) → (read_chunk r xs).link.stopped ≡ r.link.stopped
unfolding read_chunk
read_chunk-stopped r [] = refl
read_chunk-stopped r (x ∷ xs) = read_chunk-stopped (read_byte r x) xs ∙ read_byte-stopped r x

reader_open :
    (r : Receiver) (c : Bytes) (rest : List ReadResult)
    → r.link.stopped ≡ false
    → reader r (chunk c ∷ rest) ≡ reader (read_chunk r c) rest
unfolding reader
reader_open r c rest h = ground arith

-- The chunks are read as one.
pub reader-concat :
    (r : Receiver) (chunks : List Bytes)
    → r.link.stopped ≡ false
    → reader r (map chunk chunks) ≡ read_chunk r (concat chunks)
unfolding reader concat
reader-concat r [] h = refl
reader-concat r (c ∷ cs) h =
    reader_open r c (map chunk cs) h
    ∙ reader-concat (read_chunk r c) cs (read_chunk-stopped r c ∙ h)
    ∙ sym (read_chunk-append r c (concat cs))

-- Let a line carry frames of 1 to 255 bytes, each behind any bytes other than 0. However the
-- serial port cuts it into chunks, a reader that is not stopped and that has no frame open hands
-- on exactly the payloads of the frames, in their order, and has no frame open at the end.
pub reader-line :
    (r : Receiver) (fs : List LineFrame) (chunks : List Bytes)
    → r.framer.in_frame ≡ false
    → r.link.stopped ≡ false
    → All IsLineFrame fs
    → concat chunks ≡ line_of fs
    → ((reader r (map chunk chunks)).link ≡ handle_all r.link fs)
      × ((reader r (map chunk chunks)).framer.in_frame ≡ false)
reader-line r fs chunks closed running valid whole =
    let n = r.framer.need in
    let buf = r.framer.buf in
    let start : r ≡ at (idle n buf) r.link =
      ap (λ b. at (record { in_frame = b; need = n; buf = buf }) r.link) closed in
    let read : reader r (map chunk chunks) ≡ at (framer_after n buf fs) (handle_all r.link fs) =
      reader-concat r chunks running
      ∙ ap (read_chunk r) whole
      ∙ ap (λ s. read_chunk s (line_of fs)) start
      ∙ read_line n buf r.link fs valid in
    (ap (λ s. s.link) read, ap (λ s. s.framer.in_frame) read ∙ framer_after-idle n buf fs)
