-- ===== src/Transport/Serial/Reader.antt =====
-- racelink/transport/gateway_serial.py, `_reader`: the framing automaton over the chunks that the
-- serial port returns.
use gatecontrol_lora.Prelude.{
  ℕ, Bool, List, Option, [], false, if◌then◌else◌, length, none, not, some, true, ◌++◌, ◌==◌, ◌∷◌,
}
use gatecontrol_lora.Protocol.Struct.{Bytes}
use gatecontrol_lora.Transport.Serial.{Link, handle_buffer, handle_disconnect}

-- The local variables of `_reader`.
pub record Framer : Type 0 where
  pub in_frame : Bool
  pub need : ℕ
  pub buf : Bytes

-- No frame is open.
abbrev pub idle : ℕ → Bytes → Framer
idle need buf = record { in_frame = false; need = need; buf = buf }

-- A frame of `need` bytes is open; 0 before its length is known.
abbrev pub inside : ℕ → Bytes → Framer
inside need buf = record { in_frame = true; need = need; buf = buf }

-- One byte, and the frame that it completes. The last byte of a frame leaves the buffer as it is.
unfoldable pub feed : Framer → ℕ → Framer × Option Bytes
feed r x =
    let whole = r.buf ++ x ∷ [] in
    if not r.in_frame
    then (if x == 0 then (inside 0 [], none) else (r, none))
    else if r.need == 0
    then (inside x r.buf, none)
    else if length whole == r.need
    then (idle r.need whole, some whole)
    else (inside r.need whole, none)

-- The reader and the state it shares.
pub record Receiver : Type 0 where
  pub framer : Framer
  pub link : Link

abbrev pub handle_completed : Option Bytes → Link → Link
handle_completed none l = l
handle_completed (some buf) l = handle_buffer buf l

unfoldable pub read_byte : Receiver → ℕ → Receiver
unfolding feed
read_byte r x = record {
  framer = (feed r.framer x).0;
  link = handle_completed ((feed r.framer x).1) r.link;
}

-- `for x in chunk`
unfoldable pub read_chunk : Receiver → Bytes → Receiver
read_chunk r [] = r
read_chunk r (x ∷ xs) = read_chunk (read_byte r x) xs

-- What one call of `ser.read` does.
pub data ReadResult : Type 0 where
  chunk : Bytes → ReadResult
  read_failed : ReadResult

-- `while not self._stop`, on what the port returns in turn; a failed read ends the loop.
unfoldable pub reader : Receiver → List ReadResult → Receiver
unfolding read_chunk
reader r [] = r
reader r (chunk xs ∷ rest) = elim r.link.stopped [
  | true ↦ r
  | false ↦ reader (read_chunk r xs) rest
]
reader r (read_failed ∷ rest) = elim r.link.stopped [
  | true ↦ r
  | false ↦ record r { link = handle_disconnect r.link }
]
