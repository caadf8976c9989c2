-- ===== src/Controller/Gateway.antt =====
-- controller.py: the supervision of the gateway link. Each method is one step, with the end of the
-- port search in it as an argument; times are in milliseconds. A transport object is a number, and
-- `held` are the ones that have a serial port open. Log lines are left out, and so is an exception
-- that is not the `SerialException` of the port search.
pub mod Inv
pub mod Polling
use gatecontrol_lora.Prelude.{
  ℕ, Bool, List, Option, Text, [], codes, false, if◌then◌else◌, is_some, keep, length, none, not,
  some, true, ◌&&◌, ◌++◌, ◌+◌, ◌-◌, ◌==◌, ◌||◌, ◌∷◌,
}
use gatecontrol_lora.Protocol.Offset.{lower}
use gatecontrol_lora.Transport.Ports.{Discovered, has_part, discovered, raised}

pub data ErrorCode : Type 0 where
  not_found port_busy link_lost host_error : ErrorCode

pub data Origin : Type 0 where
  manual auto programmatic : Origin

-- `classify_gateway_error`
unfoldable pub classify_gateway_error : Text → ErrorCode
classify_gateway_error reason =
    let text = lower reason in
    let says = λ (s : Text). has_part s text in
    if length text == 0
    then host_error
    else if says (codes "no racelink gateway")
        || (says (codes "not found") || says (codes "no device"))
    then not_found
    else if says (codes "exclusive lock")
        || (says (codes "could not exclusively lock")
            || (says (codes "resource temporarily unavailable") || says (codes "port busy")))
    then port_busy
    else if says (codes "disconnect") || (says (codes "link lost") || says (codes "read error"))
    then link_lost
    else host_error

-- `_GATEWAY_RETRY_BACKOFF_S[min(attempt, len(schedule) - 1)]`
unfoldable pub backoff_ms : ℕ → ℕ
backoff_ms attempt =
    if attempt == 0
    then 2000
    else if attempt == 1
    then 5000
    else if attempt == 2
    then 10000
    else if attempt == 3
    then 20000
    else 30000

-- `self.last_gateway_error`
pub record GatewayError : Type 0 where
  pub code : ErrorCode
  pub origin : Origin
  pub reason : Text
  pub errors_so_far : ℕ
  pub next_retry_ms : Option ℕ

-- `self._gateway_retry_timer`; a timer that has fired stays there and is armed no more.
pub record RetryTimer : Type 0 where
  pub delay_ms : ℕ
  pub attempt_next : ℕ
  pub is_armed : Bool

-- `_notify` on a manual attempt
pub data Notice : Type 0 where
  ready_notice : (port mac : Text) → Notice
  failed_notice : Text → Notice

-- `gateway_status()`
pub record GatewayStatus : Type 0 where
  pub is_ready : Bool
  pub last_error : Option GatewayError
  pub failures : ℕ
  pub attempts : ℕ

-- The fields of the controller that the supervision reads and writes, the status snapshots that
-- the callback was given, and the messages to the user.
pub record Supervisor : Type 0 where
  pub transport : Option ℕ
  pub held : List ℕ
  pub next_transport : ℕ
  pub ready : Bool
  pub last_gateway_error : Option GatewayError
  pub failure_count : ℕ
  pub retry_attempt : ℕ
  pub retry_timer : Option RetryTimer
  pub link_recovery_pending : Bool
  pub shutdown_called : Bool
  pub statuses : List GatewayStatus
  pub notices : List Notice

abbrev pub new_supervisor : Supervisor
new_supervisor = record {
  transport = none;
  held = [];
  next_transport = 0;
  ready = false;
  last_gateway_error = none;
  failure_count = 0;
  retry_attempt = 0;
  retry_timer = none;
  link_recovery_pending = false;
  shutdown_called = false;
  statuses = [];
  notices = [];
}

unfoldable pub gateway_status : Supervisor → GatewayStatus
gateway_status s = record {
  is_ready = s.ready;
  last_error = s.last_gateway_error;
  failures = s.failure_count;
  attempts = s.retry_attempt;
}

-- `_notify_gateway_status`
unfoldable pub notify_gateway_status : Supervisor → Supervisor
unfolding gateway_status
notify_gateway_status s = record s { statuses = s.statuses ++ gateway_status s ∷ [] }

-- `if origin == "manual": self._notify(...)`
unfoldable pub notify_manual : Origin → Notice → Supervisor → Supervisor
notify_manual manual n s = record s { notices = s.notices ++ n ∷ [] }
notify_manual auto n s = s
notify_manual programmatic n s = s

-- `_cancel_gateway_retry`
unfoldable pub cancel_gateway_retry : Supervisor → Supervisor
cancel_gateway_retry s = record s { retry_timer = none }

-- `_schedule_gateway_retry`
unfoldable pub schedule_gateway_retry : ℕ → Supervisor → Supervisor
schedule_gateway_retry delay s = record s {
  retry_timer =
      some (record { delay_ms = delay; attempt_next = s.retry_attempt + 1; is_armed = true });
}

-- `auto_eligible`
unfoldable pub auto_eligible : ErrorCode → Bool
auto_eligible not_found = false
auto_eligible port_busy = true
auto_eligible link_lost = true
auto_eligible host_error = false

-- A device that is not found once the link was up counts as a lost link.
unfoldable pub resolved_code : Bool → ErrorCode → ErrorCode
resolved_code true not_found = link_lost
resolved_code false not_found = not_found
resolved_code recovering port_busy = port_busy
resolved_code recovering link_lost = link_lost
resolved_code recovering host_error = host_error

unfoldable pub new_error : ErrorCode → Text → Origin → Supervisor → GatewayError
unfolding auto_eligible backoff_ms
new_error code reason origin s = record {
  code = code;
  origin = origin;
  reason = reason;
  errors_so_far = s.failure_count + 1;
  next_retry_ms = if auto_eligible code then some (backoff_ms s.retry_attempt) else none;
}

unfoldable pub note_error : GatewayError → Supervisor → Supervisor
note_error e s = record s {
  ready = false;
  failure_count = s.failure_count + 1;
  last_gateway_error = some e;
}

-- A timer is armed for an error that may pass, unless the host is shutting down.
unfoldable pub arm_retry : ErrorCode → Supervisor → Supervisor
unfolding auto_eligible schedule_gateway_retry backoff_ms
arm_retry code s =
    if auto_eligible code && not s.shutdown_called
    then schedule_gateway_retry (backoff_ms s.retry_attempt) s
    else s

-- `_record_gateway_error`, for the code given or read from the reason
unfoldable pub record_gateway_error : Text → Origin → ErrorCode → Supervisor → Supervisor
unfolding resolved_code new_error note_error arm_retry notify_gateway_status
record_gateway_error reason origin given s =
    let code = resolved_code s.link_recovery_pending given in
    notify_gateway_status (arm_retry code (note_error (new_error code reason origin s) s))

-- `_clear_gateway_error`
unfoldable pub clear_gateway_error : Supervisor → Supervisor
unfolding cancel_gateway_retry notify_gateway_status
clear_gateway_error s =
    let cleared =
      cancel_gateway_retry
        (record s { last_gateway_error = none; failure_count = 0; retry_attempt = 0 }) in
    if is_some s.last_gateway_error || not s.ready then notify_gateway_status cleared else cleared

-- `transport.close()` and `self.transport = None`
unfoldable pub release_transport : Supervisor → Supervisor
release_transport s = elim s.transport [
  | none ↦ s
  | some t ↦ record s { transport = none; held = keep (λ h. not (h == t)) s.held }
]

-- `self.transport = GatewaySerialTransport(...)`
unfoldable pub new_transport : Supervisor → Supervisor
new_transport s = record s {
  transport = some s.next_transport;
  next_transport = s.next_transport + 1;
}

-- The newest transport has the port open.
unfoldable pub hold_port : Supervisor → Supervisor
hold_port s = record s { held = (s.next_transport - 1) ∷ s.held }

abbrev pub mac_notice : Origin → Text → Option Text → Supervisor → Supervisor
mac_notice origin port none s = s
mac_notice origin port (some mac) s = notify_manual origin (ready_notice port mac) s

-- The branch of a port that was found.
unfoldable pub gateway_found : Origin → Text → Option Text → Supervisor → Supervisor
unfolding clear_gateway_error hold_port notify_manual
gateway_found origin port mac s =
    mac_notice origin port mac
      (clear_gateway_error (record (hold_port s) { ready = true; link_recovery_pending = false }))

abbrev pub busy_text : Text
busy_text =
    codes
      "RaceLink Gateway port busy: another process still holds an exclusive lock. Retrying automatically."

abbrev pub absent_text : Text
absent_text = codes "No RaceLink Gateway module discovered or configured"

unfoldable pub gateway_failed : Origin → Text → Text → ErrorCode → Supervisor → Supervisor
unfolding record_gateway_error notify_manual
gateway_failed origin reason message code s =
    notify_manual origin (failed_notice message) (record_gateway_error reason origin code s)

-- What follows the port search, by its result.
unfoldable pub after_search : Origin → Discovered → Supervisor → Supervisor
unfolding gateway_found gateway_failed classify_gateway_error
after_search origin (discovered d) s = elim d.opened [
  | some port ↦ gateway_found origin port d.mac s
  | none ↦
      if d.had_busy_port
      then gateway_failed origin busy_text busy_text port_busy s
      else gateway_failed origin absent_text absent_text not_found s
]
after_search origin (raised msg) s =
    let reason = codes "SerialException: " ++ msg in
    gateway_failed origin reason (codes "Failed to initialize communicator: " ++ reason)
      (classify_gateway_error reason) s

-- `discoverPort`
unfoldable pub discover_port : Origin → Discovered → Supervisor → Supervisor
unfolding after_search release_transport new_transport
discover_port origin found s = after_search origin found (new_transport (release_transport s))

-- `_fire`: the timer's thread, where the timer is armed.
abbrev pub fire_timer : Option RetryTimer → Discovered → Supervisor → Supervisor
fire_timer none found s = s
fire_timer (some t) found s =
    if t.is_armed && not s.shutdown_called
    then discover_port auto found (record s {
      retry_attempt = t.attempt_next;
      retry_timer = some (record t { is_armed = false });
    })
    else s

unfoldable pub fire : Discovered → Supervisor → Supervisor
unfolding discover_port
fire found s = fire_timer s.retry_timer found s

-- `retry_gateway`
unfoldable pub retry_gateway : Discovered → Supervisor → Supervisor × GatewayStatus
unfolding cancel_gateway_retry discover_port gateway_status
retry_gateway found s =
    let t =
      discover_port manual found
        (record (cancel_gateway_retry s) { retry_attempt = 0; link_recovery_pending = false }) in
    (t, gateway_status t)

-- `shutdown`, as far as the link is concerned.
unfoldable pub shutdown : Supervisor → Supervisor
unfolding cancel_gateway_retry release_transport
shutdown s =
    if s.shutdown_called
    then s
    else record (release_transport (cancel_gateway_retry (record s { shutdown_called = true }))) {
      ready = false;
    }

-- The calls of the supervision, each with the end of its port search. `link_down` is what
-- racelink/services/gateway_service.py does to the controller when the link drops, where the flag is
-- whether the guard of `schedule_reconnect` is passed, and `reconnects` is the thread that it starts
-- then.
pub data SupervisorCall : Type 0 where
  probes : Origin → Discovered → SupervisorCall
  fires : Discovered → SupervisorCall
  retries : Discovered → SupervisorCall
  link_down : (scheduled : Bool) → SupervisorCall
  reconnects : Discovered → SupervisorCall
  shuts_down : SupervisorCall

unfoldable pub call_step : Supervisor → SupervisorCall → Supervisor
unfolding discover_port fire retry_gateway release_transport shutdown
call_step s (probes origin found) = discover_port origin found s
call_step s (fires found) = fire found s
call_step s (retries found) = (retry_gateway found s).0
call_step s (link_down scheduled) = record s {
  ready = false;
  link_recovery_pending = scheduled || s.link_recovery_pending;
}
call_step s (reconnects found) = discover_port auto found (release_transport s)
call_step s shuts_down = shutdown s

unfoldable pub call_run : Supervisor → List SupervisorCall → Supervisor
unfolding call_step
call_run s [] = s
call_run s (c ∷ cs) = call_run (call_step s c) cs
