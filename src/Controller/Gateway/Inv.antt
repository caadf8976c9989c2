-- ===== src/Controller/Gateway/Inv.antt =====
-- controller.py: what holds of the supervision of the gateway link between two calls.
use gatecontrol_lora.Transport.Ports.{raised, discovered, Discovered}
use gatecontrol_lora.Prelude.{
  ℕ, List, Option, [], false, is_some, none, refl, some, true, ◌-◌, ◌<◌, ◌∷◌, ◌≡◌, ◌⊎◌, Text, arith,
  inl, inr, keep, not, ◌==◌, Bool-cases, Option-cases, ap, ◌&&◌, subst,
}
use gatecontrol_lora.Controller.Gateway.{
  auto, manual, programmatic, probes, fires, retries, link_down, reconnects, shuts_down, Supervisor,
  GatewayError, RetryTimer, auto_eligible, backoff_ms, new_supervisor, release_transport, ErrorCode,
  Origin, arm_retry, new_error, note_error, notify_gateway_status, record_gateway_error,
  schedule_gateway_retry, Notice, SupervisorCall, absent_text, after_search, auto, busy_text,
  call_run, call_step, cancel_gateway_retry, clear_gateway_error, discover_port, failed_notice,
  fire_timer, gateway_failed, gateway_found, hold_port, manual, new_transport, not_found,
  notify_manual, port_busy, programmatic, ready_notice, shutdown, fire, retry_gateway,
}

-- The timer that an error announces.
abbrev pub announced : Option GatewayError → Option ℕ
announced none = none
announced (some e) = e.next_retry_ms

abbrev pub timer_delay : Option RetryTimer → Option ℕ
timer_delay none = none
timer_delay (some t) = some t.delay_ms

-- The delay of a timer is the one of the schedule for its attempt.
abbrev pub OnSchedule : Option RetryTimer → Type 0
OnSchedule none = Unit
OnSchedule (some t) = (0 < t.attempt_next) × (t.delay_ms ≡ backoff_ms (t.attempt_next - 1))

abbrev pub Eligible : Option GatewayError → Type 0
Eligible none = Unit
Eligible (some e) = is_some e.next_retry_ms ≡ auto_eligible e.code

-- At most the current transport has a port open.
abbrev pub HoldsOwn : Option ℕ → List ℕ → Type 0
HoldsOwn none held = held ≡ []
HoldsOwn (some t) held = (held ≡ []) ⊎ (held ≡ t ∷ [])

pub record Inv (s : Supervisor) : Type 0 where
  pub on_schedule : OnSchedule s.retry_timer
  pub eligible : Eligible s.last_gateway_error
  pub kept_promise :
      s.shutdown_called ≡ false
      → is_some (announced s.last_gateway_error) ≡ true
      → timer_delay s.retry_timer ≡ announced s.last_gateway_error
  pub quiet_shutdown : s.shutdown_called ≡ true → s.retry_timer ≡ none
  pub ready_clean :
      s.ready ≡ true → (s.last_gateway_error ≡ none) × (s.failure_count ≡ 0) × (s.retry_attempt ≡ 0)
  pub holds_own : HoldsOwn s.transport s.held

pub new_supervisor-Inv : Inv new_supervisor
new_supervisor-Inv = record {
  on_schedule = tt;
  eligible = tt;
  kept_promise = λ h k. cc;
  quiet_shutdown = λ h. cc;
  ready_clean = λ h. cc;
  holds_own = refl;
}

-- What a port search needs, and no less: the rest of the invariant it makes anew.
record Core (s : Supervisor) : Type 0 where
  core_schedule : OnSchedule s.retry_timer
  core_shutdown : s.shutdown_called ≡ true → s.retry_timer ≡ none
  core_holds : HoldsOwn s.transport s.held

Core-of : (s : Supervisor) → Inv s → Core s
Core-of s h = record {
  core_schedule = h.on_schedule;
  core_shutdown = h.quiet_shutdown;
  core_holds = h.holds_own;
}

released :
    (t : Option ℕ) (held : List ℕ)
    → HoldsOwn t held
    → elim t [ none ↦ held | some x ↦ keep (λ h. not (h == x)) held ] ≡ []
released none held h = h
released (some x) held (inl e) = rw e refl
released (some x) held (inr e) = rw e (ground arith)

release_transport-held : (s : Supervisor) → Core s → (release_transport s).held ≡ []
unfolding release_transport
release_transport-held s h = ground (arith, released s.transport s.held h.core_holds)

arm_retry-Core : (code : ErrorCode) (s : Supervisor) → Core s → Core (arm_retry code s)
unfolding arm_retry schedule_gateway_retry
arm_retry-Core code s h = ground arith

record_gateway_error-Inv :
    (reason : Text) (origin : Origin) (given : ErrorCode) (s : Supervisor)
    → Core s
    → Inv (record_gateway_error reason origin given s)
unfolding record_gateway_error new_error note_error arm_retry schedule_gateway_retry
    notify_gateway_status
record_gateway_error-Inv reason origin given s h = ground arith

notify_manual-Inv :
    (origin : Origin) (n : Notice) (s : Supervisor) → Inv s → Inv (notify_manual origin n s)
unfolding notify_manual
notify_manual-Inv manual n s h = ground arith
notify_manual-Inv auto n s h = h
notify_manual-Inv programmatic n s h = h

-- The transport is the newest one, and no port is open.
Fresh : Supervisor → Type 0
Fresh s = (s.held ≡ []) × (s.transport ≡ some (s.next_transport - 1))

gateway_cleared-Inv :
    (s : Supervisor)
    → Fresh s
    → Inv
        (clear_gateway_error (record (hold_port s) { ready = true; link_recovery_pending = false }))
unfolding Fresh clear_gateway_error hold_port cancel_gateway_retry notify_gateway_status
gateway_cleared-Inv s h = ground arith

gateway_found-Inv :
    (origin : Origin) (port : Text) (mac : Option Text) (s : Supervisor)
    → Fresh s
    → Inv (gateway_found origin port mac s)
unfolding gateway_found
gateway_found-Inv origin port none s h = gateway_cleared-Inv s h
gateway_found-Inv origin port (some mac) s h =
    notify_manual-Inv origin (ready_notice port mac) _ (gateway_cleared-Inv s h)

gateway_failed-Inv :
    (origin : Origin) (reason message : Text) (code : ErrorCode) (s : Supervisor)
    → Core s
    → Inv (gateway_failed origin reason message code s)
unfolding gateway_failed
gateway_failed-Inv origin reason message code s h =
    notify_manual-Inv origin (failed_notice message) _
      (record_gateway_error-Inv reason origin code s h)

after_search-Inv :
    (origin : Origin) (found : Discovered) (s : Supervisor)
    → Core s
    → Fresh s
    → Inv (after_search origin found s)
unfolding after_search
after_search-Inv origin (raised msg) s h fresh = gateway_failed-Inv origin _ _ _ s h
after_search-Inv origin (discovered d) s h fresh = elim (Option-cases d.opened) [
  | inr (port, e) ↦ rw e (gateway_found-Inv origin port d.mac s fresh)
  | inl e ↦ rw e (elim (Bool-cases d.had_busy_port) [
    | inl b ↦ rw b (gateway_failed-Inv origin busy_text busy_text port_busy s h)
    | inr b ↦ rw b (gateway_failed-Inv origin absent_text absent_text not_found s h)
  ])
]

Fresh-transport-Fresh : (s : Supervisor) → Core s → Fresh (new_transport (release_transport s))
unfolding new_transport Fresh
Fresh-transport-Fresh s h = (release_transport-held s h, ap some (omega arith))

fresh_transport-Core : (s : Supervisor) → Core s → Core (new_transport (release_transport s))
unfolding new_transport release_transport
fresh_transport-Core s h = ground (arith, released s.transport s.held h.core_holds)

discover_port-Inv :
    (origin : Origin) (found : Discovered) (s : Supervisor)
    → Core s
    → Inv (discover_port origin found s)
unfolding discover_port
discover_port-Inv origin found s h =
    after_search-Inv origin found _ (fresh_transport-Core s h) (Fresh-transport-Fresh s h)

fired-Core :
    (t : RetryTimer) (s : Supervisor)
    → Inv s
    → s.retry_timer ≡ some t
    → (t.is_armed && not s.shutdown_called) ≡ true
    → Core (record s {
      retry_attempt = t.attempt_next;
      retry_timer = some (record t { is_armed = false });
    })
fired-Core t s h e b = record {
  core_schedule = subst OnSchedule e h.on_schedule;
  core_shutdown = λ down. ground arith;
  core_holds = h.holds_own;
}

fire_timer-Inv :
    (t : Option RetryTimer) (found : Discovered) (s : Supervisor)
    → Inv s
    → s.retry_timer ≡ t
    → Inv (fire_timer t found s)
fire_timer-Inv none found s h e = h
fire_timer-Inv (some t) found s h e = elim (Bool-cases (t.is_armed && not s.shutdown_called)) [
  | inr b ↦ rw b h
  | inl b ↦ rw b (
      discover_port-Inv auto found
        (record s {
          retry_attempt = t.attempt_next;
          retry_timer = some (record t { is_armed = false });
        })
        (fired-Core t s h e b))
]

shutdown-Inv : (s : Supervisor) → Inv s → Inv (shutdown s)
unfolding shutdown cancel_gateway_retry release_transport
shutdown-Inv s h = ground (arith, released s.transport s.held h.holds_own)

release_transport-Core : (s : Supervisor) → Core s → Core (release_transport s)
unfolding release_transport
release_transport-Core s h = ground (arith, released s.transport s.held h.core_holds)

call_step-Inv : (s : Supervisor) (c : SupervisorCall) → Inv s → Inv (call_step s c)
unfolding call_step fire retry_gateway cancel_gateway_retry
call_step-Inv s (probes origin found) h = discover_port-Inv origin found s (Core-of s h)
call_step-Inv s (fires found) h = fire_timer-Inv s.retry_timer found s h refl
call_step-Inv s (retries found) h =
    discover_port-Inv manual found _
      (record { core_schedule = tt; core_shutdown = λ down. refl; core_holds = h.holds_own })
call_step-Inv s (link_down scheduled) h = ground arith
call_step-Inv s (reconnects found) h =
    discover_port-Inv auto found _ (release_transport-Core s (Core-of s h))
call_step-Inv s shuts_down h = shutdown-Inv s h

-- Between any two calls, in any order and with any ends of their port searches: the delay of the
-- retry timer is the one of the backoff schedule for its attempt, an error announces a retry
-- exactly where its code is PORT_BUSY or LINK_LOST, a retry that is announced has its timer with
-- that delay unless the host has shut down, no timer is left after a shutdown, a host that is ready
-- has no error, no failures counted and the schedule at its start, and no transport but the
-- current one has a port open.
pub call_run-Inv : (s : Supervisor) (calls : List SupervisorCall) → Inv s → Inv (call_run s calls)
unfolding call_run
call_run-Inv s [] h = h
call_run-Inv s (c ∷ cs) h = call_run-Inv (call_step s c) cs (call_step-Inv s c h)
