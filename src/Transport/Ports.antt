-- ===== src/Transport/Ports.antt =====
-- racelink/transport/gateway_serial.py: the search for the gateway's port. The ports that the
-- system lists, and what each does when it is opened and asked to identify itself, are arguments.
use gatecontrol_lora.Prelude.{
  ℕ, Bool, List, Option, Text, [], ap, codes, drop, eq_bytes, false, if◌then◌else◌, is_some, keep,
  leb, length, ltb, none, refl, some, take, ◌&&◌, ◌++◌, ◌==◌, ◌||◌, ◌∷◌, ◌≡◌, Bool-cases, inl, inr,
  All, true, subst, arith, ◌⊎◌,
}
use gatecontrol_lora.Protocol.Struct.{Bytes}
use gatecontrol_lora.Protocol.Offset.{lower}
use gatecontrol_lora.State.Repository.{upper}
use gatecontrol_lora.Services.Scenes.Slug.{is_space, strip}

abbrev pub starts_with : Text → Text → Bool
starts_with t s = leb (length s) (length t) && eq_bytes (take (length s) t) s

-- `s in t`
abbrev pub has_part : Text → Text → Bool
has_part s [] = starts_with [] s
has_part s (c ∷ t) = starts_with (c ∷ t) s || has_part s t

-- A port of `comports()`.
pub record PortInfo : Type 0 where
  pub device : Text
  pub vid : Option ℕ
  pub pid : Option ℕ
  pub description : Text

-- `_is_usb_port`
unfoldable pub is_usb_port : PortInfo → Bool
is_usb_port p =
    let dev = lower p.device in
    (starts_with dev (codes "/dev/ttyusb") || starts_with dev (codes "/dev/ttyacm"))
    || (is_some p.vid || is_some p.pid)
    || has_part (codes "USB") (upper p.description)

-- What happens at a port: `SerialException` with its text, or the bytes of the reply.
pub data PortReply : Type 0 where
  open_raised : Text → PortReply
  replied : Bytes → PortReply

-- The test of the two exception handlers.
unfoldable pub is_lock_text : Text → Bool
is_lock_text msg =
    has_part (codes "Could not exclusively lock port") msg
    || has_part (codes "Resource temporarily unavailable") msg

-- `ident`
abbrev pub ident : Text
ident = codes "RaceLink_Gateway_v4"

abbrev pub is_nul : ℕ → Bool
is_nul c = c == 0

-- `decode("ascii", errors="ignore").strip().strip("\x00")`; an empty text is `None`.
unfoldable pub ident_mac_of : Bytes → Option Text
ident_mac_of reply =
    let mac = strip is_nul (strip is_space (keep (λ b. ltb b 128) (drop (length ident) reply))) in
    if length mac == 0 then none else some mac

-- What `discover_and_open` leaves: the port that is open, the MAC, the flag of a busy port.
pub record Discovery : Type 0 where
  pub opened : Option Text
  pub mac : Option Text
  pub had_busy_port : Bool

abbrev pub note_busy : Bool → Discovery → Discovery
note_busy busy d = record d { had_busy_port = busy || d.had_busy_port }

-- The USB port whose reply starts with the identification.
unfoldable pub answers : PortInfo × PortReply → Bool
unfolding is_usb_port
answers (p, open_raised msg) = false
answers (p, replied reply) = is_usb_port p && starts_with reply ident

-- The USB port that another process holds.
unfoldable pub locked : PortInfo × PortReply → Bool
unfolding is_usb_port is_lock_text
locked (p, open_raised msg) = is_usb_port p && is_lock_text msg
locked (p, replied reply) = false

unfoldable pub mac_of : PortReply → Option Text
unfolding ident_mac_of
mac_of (open_raised msg) = none
mac_of (replied reply) = ident_mac_of reply

-- The loop over the ports, from one port on.
unfoldable pub search_ports : List (PortInfo × PortReply) → Discovery
unfolding answers locked mac_of
search_ports [] = record { opened = none; mac = none; had_busy_port = false }
search_ports ((p, reply) ∷ rest) =
    let later = search_ports rest in
    if answers (p, reply)
    then record { opened = some p.device; mac = mac_of reply; had_busy_port = false }
    else note_busy (locked (p, reply)) later

-- How a call of `discover_and_open` ends: a result, or `SerialException` with a text.
pub data Discovered : Type 0 where
  discovered : Discovery → Discovered
  raised : Text → Discovered

-- `discover_and_open`, without a configured port and with one. The text of a busy port names it.
unfoldable pub discover_and_open :
    Option Text → List (PortInfo × PortReply) → Option Text → Discovered
unfolding search_ports is_lock_text
discover_and_open none ports failure = discovered (search_ports ports)
discover_and_open (some port) ports none =
    discovered (record { opened = some port; mac = none; had_busy_port = false })
discover_and_open (some port) ports (some msg) = raised (
    if is_lock_text msg
    then codes "Port busy: "
      ++ (port
          ++ codes
              " is in use by another process (exclusive lock failed). Close the other program (e.g. esptool, screen/minicom) and retry.")
    else msg)

abbrev pub any {ℓ} : {A : Type ℓ} → (A → Bool) → List A → Bool
any p [] = false
any p (x ∷ xs) = p x || any p xs

-- A port that shows itself as one of USB: by its device, its ids or its description.
abbrev pub names_usb : PortInfo → Bool
names_usb p =
    (starts_with (lower p.device) (codes "/dev/ttyusb")
      || starts_with (lower p.device) (codes "/dev/ttyacm"))
    || (is_some p.vid || is_some p.pid)
    || has_part (codes "USB") (upper p.description)

abbrev pub is_gateway : PortInfo × PortReply → Bool
is_gateway (p, open_raised msg) = false
is_gateway (p, replied reply) = names_usb p && starts_with reply ident

abbrev pub is_held : PortInfo × PortReply → Bool
is_held (p, open_raised msg) = names_usb p && is_lock_text msg
is_held (p, replied reply) = false

answers_lem : (x : PortInfo × PortReply) → answers x ≡ is_gateway x
unfolding answers is_usb_port
answers_lem (p, open_raised msg) = refl
answers_lem (p, replied reply) = refl

locked_lem : (x : PortInfo × PortReply) → locked x ≡ is_held x
unfolding locked is_usb_port
locked_lem (p, open_raised msg) = refl
locked_lem (p, replied reply) = refl

abbrev pub NoGateway : PortInfo × PortReply → Type 0
NoGateway x = is_gateway x ≡ false

-- The first gateway of a list of ports, and what stands before it.
pub record FirstGateway (ports : List (PortInfo × PortReply)) (d : Discovery) : Type 0 where
  pub before : List (PortInfo × PortReply)
  pub rest : List (PortInfo × PortReply)
  pub port : PortInfo
  pub said : Bytes
  pub split : ports ≡ before ++ (port, replied said) ∷ rest
  pub none_before : All NoGateway before
  pub by_usb : names_usb port ≡ true
  pub identified : starts_with said ident ≡ true
  pub opens : d.opened ≡ some port.device
  pub tells_mac : d.mac ≡ ident_mac_of said
  pub busy : d.had_busy_port ≡ any is_held before

-- No port is a gateway.
pub record NoneFound (ports : List (PortInfo × PortReply)) (d : Discovery) : Type 0 where
  pub no_gateway : All NoGateway ports
  pub opens_none : d.opened ≡ none
  pub any_busy : d.had_busy_port ≡ any is_held ports

abbrev pub Searched : List (PortInfo × PortReply) → Discovery → Type 0
Searched ports d = FirstGateway ports d ⊎ NoneFound ports d

both_hold : (a b : Bool) → (a && b) ≡ true → (a ≡ true) × (b ≡ true)
both_hold a b h = (ground arith, ground arith)

-- A port that answers ends the search.
here :
    (x : PortInfo × PortReply) (rest : List (PortInfo × PortReply))
    → is_gateway x ≡ true
    → Searched
        (x ∷ rest)
        (record { opened = some x.0.device; mac = mac_of x.1; had_busy_port = false })
unfolding mac_of
here (p, open_raised msg) rest h = cc
here (p, replied reply) rest h = inl (record {
  before = [];
  rest = rest;
  port = p;
  said = reply;
  split = refl;
  none_before = tt;
  by_usb = (both_hold (names_usb p) (starts_with reply ident) h).0;
  identified = (both_hold (names_usb p) (starts_with reply ident) h).1;
  opens = refl;
  tells_mac = refl;
  busy = refl;
})

-- A port that does not leaves it to the next.
passed :
    (x : PortInfo × PortReply) (ports : List (PortInfo × PortReply)) (d : Discovery)
    → is_gateway x ≡ false
    → Searched ports d
    → Searched (x ∷ ports) (note_busy (is_held x) d)
passed x ports d h (inl f) = inl (record {
  before = x ∷ f.before;
  rest = f.rest;
  port = f.port;
  said = f.said;
  split = ap (λ l. x ∷ l) f.split;
  none_before = (h, f.none_before);
  by_usb = f.by_usb;
  identified = f.identified;
  opens = f.opens;
  tells_mac = f.tells_mac;
  busy = ap (λ b. is_held x || b) f.busy;
})
passed x ports d h (inr n) = inr (record {
  no_gateway = (h, n.no_gateway);
  opens_none = n.opens_none;
  any_busy = ap (λ b. is_held x || b) n.any_busy;
})

-- The search opens the first port that is one of USB and whose reply starts with the
-- identification, and takes the address from that reply; it opens none exactly where no port is
-- such a one. It reports a busy port exactly where a USB port before the one that is opened, or any
-- USB port if none is, is held by another process.
pub search_ports_lem : (ports : List (PortInfo × PortReply)) → Searched ports (search_ports ports)
unfolding search_ports
search_ports_lem [] = inr (record { no_gateway = tt; opens_none = refl; any_busy = refl })
search_ports_lem ((p, reply) ∷ rest) = elim (Bool-cases (is_gateway (p, reply))) [
  | inl e ↦
      subst (Searched ((p, reply) ∷ rest)) (rw (answers_lem (p, reply), e) refl)
        (here (p, reply) rest e)
  | inr e ↦
      subst (Searched ((p, reply) ∷ rest))
        (rw (answers_lem (p, reply), locked_lem (p, reply), e) refl)
        (passed (p, reply) rest (search_ports rest) e (search_ports_lem rest))
]
