-- ===== src/Transport/Serial/Wrappers.antt =====
-- racelink/transport/gateway_serial.py, the send wrappers: the type byte and the body of each, as
-- the arguments of `_send_m2n`. The keyword arguments of `send_control` and `send_offset` are
-- those of the body builders.
use gatecontrol_lora.Domain.Device.{is_zero}
use gatecontrol_lora.Prelude.{
  ℕ, Result, [], byte, if◌then◌else◌, ok, pos, ℤ, ◌%◌, ◌>>=◌, ◌∷◌, arith, length, refl, ◌≡◌, ◌≤◌,
}
use gatecontrol_lora.Protocol.Struct.{Bytes}
use gatecontrol_lora.Protocol.Bodies.{
  build_config_body, build_get_devices_body, build_preset_body, build_set_group_body,
  build_sync_body, read_sync-build_sync_body,
}
use gatecontrol_lora.Protocol.Control.{ControlFields, build_control_body}
use gatecontrol_lora.Protocol.Offset.{
  ModeArg, OffsetKwargs, build_offset_body, OffsetParams, build_offset_of, kwargs_of, mode_name,
  str_mode,
}
use gatecontrol_lora.Transport.Serial.Send.{SendRequest}
use gatecontrol_lora.Protocol.Control.Layout.{read_control-build_control_body}
use gatecontrol_lora.Protocol.Offset.RoundTrip.{
  body_length_bounds, parse_offset_body-build_offset_of,
}

-- `LP.make_type(LP.DIR_M2N, opcode)`
unfoldable pub m2n_type : ℕ → ℕ
m2n_type opcode = opcode % 128

unfoldable pub m2n : ℕ → Bytes → Bytes → SendRequest
unfolding m2n_type
m2n opcode recv3 body = record { type_full = m2n_type opcode; recv3 = recv3; body = body }

unfoldable pub send_get_devices : Bytes → ℤ → ℤ → SendRequest
unfolding m2n build_get_devices_body
send_get_devices recv3 group_id flags = m2n 0x01 recv3 (build_get_devices_body group_id flags)

unfoldable pub send_set_group : Bytes → ℤ → SendRequest
unfolding m2n build_set_group_body
send_set_group recv3 group_id = m2n 0x02 recv3 (build_set_group_body group_id)

unfoldable pub send_preset : Bytes → ℤ → ℤ → ℤ → ℤ → SendRequest
unfolding m2n build_preset_body
send_preset recv3 group_id flags preset_id brightness =
    m2n 0x04 recv3 (build_preset_body group_id flags preset_id brightness)

unfoldable pub send_control : Bytes → ℤ → ℤ → ControlFields → Result SendRequest
unfolding m2n build_control_body
send_control recv3 group_id flags params = do
  body ← build_control_body group_id flags params
  ok (m2n 0x08 recv3 body)

unfoldable pub send_config : Bytes → ℤ → ℤ → ℤ → ℤ → ℤ → SendRequest
unfolding m2n build_config_body
send_config recv3 option data0 data1 data2 data3 =
    m2n 0x05 recv3 (build_config_body option data0 data1 data2 data3)

unfoldable pub send_sync : Bytes → ℤ → ℤ → ℤ → SendRequest
unfolding m2n build_sync_body
send_sync recv3 ts24 brightness flags = m2n 0x06 recv3 (build_sync_body ts24 brightness flags)

unfoldable pub send_offset : Bytes → ℤ → ModeArg → OffsetKwargs → Result SendRequest
unfolding m2n build_offset_body
send_offset recv3 group_id mode params = do
  body ← build_offset_body group_id mode params
  ok (m2n 0x09 recv3 body)

unfoldable pub send_stream : Bytes → Bytes → SendRequest
unfolding m2n
send_stream recv3 payload = m2n 0x07 recv3 payload

-- `flags = 0x01 if int(state) else 0x00`
unfoldable pub send_wled_preset : Bytes → ℤ → ℤ → ℤ → ℤ → SendRequest
unfolding send_preset
send_wled_preset recv3 group_id state preset_id brightness =
    send_preset recv3 group_id (if is_zero state then pos 0 else pos 1) preset_id brightness

unfoldable pub send_get_status : Bytes → ℤ → ℤ → SendRequest
unfolding m2n
send_get_status recv3 group_id flags = m2n 0x03 recv3 (byte group_id ∷ byte flags ∷ [])

-- The requests that the wrappers can make.
pub data Call : Type 0 where
  get_devices : Bytes → ℤ → ℤ → Call
  set_group : Bytes → ℤ → Call
  preset : Bytes → ℤ → ℤ → ℤ → ℤ → Call
  control : Bytes → ℤ → ℤ → ControlFields → Call
  config : Bytes → ℤ → ℤ → ℤ → ℤ → ℤ → Call
  sync : Bytes → ℤ → ℤ → ℤ → Call
  offset : Bytes → ℤ → OffsetParams → Call
  wled_preset : Bytes → ℤ → ℤ → ℤ → ℤ → Call
  get_status : Bytes → ℤ → ℤ → Call

unfoldable pub request_of : Call → Result SendRequest
unfolding send_get_devices send_set_group send_preset send_control send_config send_sync send_offset
    send_wled_preset send_get_status
request_of (get_devices a g f) = ok (send_get_devices a g f)
request_of (set_group a g) = ok (send_set_group a g)
request_of (preset a g f p b) = ok (send_preset a g f p b)
request_of (control a g f params) = send_control a g f params
request_of (config a o d0 d1 d2 d3) = ok (send_config a o d0 d1 d2 d3)
request_of (sync a t b f) = ok (send_sync a t b f)
request_of (offset a g p) = send_offset a g (str_mode (mode_name p)) (kwargs_of p)
request_of (wled_preset a g s p b) = ok (send_wled_preset a g s p b)
request_of (get_status a g f) = ok (send_get_status a g f)

abbrev pub address : Call → Bytes
address (get_devices a g f) = a
address (set_group a g) = a
address (preset a g f p b) = a
address (control a g f params) = a
address (config a o d0 d1 d2 d3) = a
address (sync a t b f) = a
address (offset a g p) = a
address (wled_preset a g s p b) = a
address (get_status a g f) = a

abbrev pub opcode : Call → ℕ
opcode (get_devices a g f) = 0x01
opcode (set_group a g) = 0x02
opcode (preset a g f p b) = 0x04
opcode (control a g f params) = 0x08
opcode (config a o d0 d1 d2 d3) = 0x05
opcode (sync a t b f) = 0x06
opcode (offset a g p) = 0x09
opcode (wled_preset a g s p b) = 0x04
opcode (get_status a g f) = 0x03

-- Each wrapper but `send_stream`, whose payload is its caller's, makes a request, for the address
-- it is given, with the type byte of its opcode from the host to the nodes, and with a body of 1 to
-- 21 bytes: no number that it is given makes the send too long. An offset has one of the five mode
-- names of the protocol.
pub request_of_lem :
    (c : Call)
    → (q : SendRequest) × (request_of c ≡ ok q)
      × (q.recv3 ≡ address c)
      × (q.type_full ≡ opcode c)
      × (1 ≤ length q.body)
      × (length q.body ≤ 21)
unfolding request_of send_get_devices send_set_group send_preset send_control send_config send_sync
    send_offset send_wled_preset send_get_status m2n m2n_type build_get_devices_body
    build_set_group_body build_preset_body build_config_body
request_of_lem (get_devices a g f) = (_, refl, refl, refl, omega arith, omega arith)
request_of_lem (set_group a g) = (_, refl, refl, refl, omega arith, omega arith)
request_of_lem (preset a g f p b) = (_, refl, refl, refl, omega arith, omega arith)
request_of_lem (control a g f params) =
    let (body, made, read, lo, hi) = read_control-build_control_body g f params in
    (m2n 0x08 a body, rw made refl, refl, refl, omega arith, omega arith)
request_of_lem (config a o d0 d1 d2 d3) = (_, refl, refl, refl, omega arith, omega arith)
request_of_lem (sync a t b f) =
    let e = (read_sync-build_sync_body t b f).1 in
    (m2n 0x06 a (build_sync_body t b f), refl, refl, refl, ground (arith, e), ground (arith, e))
request_of_lem (offset a g p) =
    let (body, made, read, size) = parse_offset_body-build_offset_of g p in
    let (lo, hi) = body_length_bounds p in
    (m2n 0x09 a body, unfold build_offset_of in rw made refl, refl, refl, omega arith, omega arith)
request_of_lem (wled_preset a g s p b) = (_, refl, refl, refl, omega arith, omega arith)
request_of_lem (get_status a g f) = (_, refl, refl, refl, omega arith, omega arith)
