-- ===== src/Controller/Gateway/Polling.antt =====
-- controller.py: a link that is lost is searched for until it is found.
use gatecontrol_lora.Prelude.{
  ℕ, All, Bool, Bool-cases, List, Option, Text, [], ap, arith, false, if◌then◌else◌, inl, inr,
  length, map, none, not, refl, some, subst, sym, true, ◌&&◌, ◌+◌, ◌∙◌, ◌∷◌, ◌≡◌, ◌⊎◌,
}
use gatecontrol_lora.Transport.Ports.{Discovery, Discovered, discovered}
use gatecontrol_lora.Controller.Gateway.{
  Supervisor, SupervisorCall, fires, reconnects, link_down, auto, not_found, port_busy, link_lost,
  host_error, discover_port, ErrorCode, Origin, RetryTimer, absent_text, after_search, arm_retry,
  auto_eligible, backoff_ms, busy_text, call_run, call_step, cancel_gateway_retry,
  clear_gateway_error, fire, fire_timer, gateway_failed, gateway_found, hold_port, new_error,
  new_transport, note_error, notify_gateway_status, notify_manual, record_gateway_error,
  release_transport, resolved_code, schedule_gateway_retry,
}

-- No port answered.
abbrev pub Missing : Discovery → Type 0
Missing d = d.opened ≡ none

-- The timer for the attempt after `k`.
abbrev pub timer_for : ℕ → RetryTimer
timer_for k = record { delay_ms = backoff_ms k; attempt_next = k + 1; is_armed = true }

record Waiting (k : ℕ) (s : Supervisor) : Type 0 where
  recovering : s.link_recovery_pending ≡ true
  running : s.shutdown_called ≡ false
  timed : s.retry_timer ≡ some (timer_for k)

-- What the port search leaves alone before its result is known.
searching :
    (s : Supervisor)
    → ((new_transport (release_transport s)).link_recovery_pending ≡ s.link_recovery_pending)
      × ((new_transport (release_transport s)).shutdown_called ≡ s.shutdown_called)
      × ((new_transport (release_transport s)).retry_attempt ≡ s.retry_attempt)
unfolding new_transport release_transport
searching s = ground arith

failed-Waiting :
    (k : ℕ) (reason message : Text) (code : ErrorCode) (s : Supervisor)
    → (code ≡ not_found) ⊎ (code ≡ port_busy)
    → s.link_recovery_pending ≡ true
    → s.shutdown_called ≡ false
    → s.retry_attempt ≡ k
    → Waiting k (gateway_failed auto reason message code s)
unfolding gateway_failed record_gateway_error resolved_code arm_retry auto_eligible
    schedule_gateway_retry note_error new_error notify_gateway_status notify_manual
failed-Waiting k reason message not_found s c p r a = ground arith
failed-Waiting k reason message port_busy s c p r a = ground arith
failed-Waiting k reason message link_lost s (inl e) p r a = absurd (cc)
failed-Waiting k reason message link_lost s (inr e) p r a = absurd (cc)
failed-Waiting k reason message host_error s (inl e) p r a = absurd (cc)
failed-Waiting k reason message host_error s (inr e) p r a = absurd (cc)

missed-Waiting :
    (k : ℕ) (d : Discovery) (s : Supervisor)
    → Missing d
    → s.link_recovery_pending ≡ true
    → s.shutdown_called ≡ false
    → s.retry_attempt ≡ k
    → Waiting k (discover_port auto (discovered d) s)
unfolding discover_port after_search
missed-Waiting k d s e p r a =
    let (sp, sr, sa) = searching s in
    let t = new_transport (release_transport s) in
    rw e (elim (Bool-cases d.had_busy_port) [
      | inl b ↦
          rw b
            (failed-Waiting k busy_text busy_text port_busy t (inr refl) (sp ∙ p) (sr ∙ r) (sa ∙ a))
      | inr b ↦ rw b (
          failed-Waiting k absent_text absent_text not_found t (inl refl) (sp ∙ p) (sr ∙ r)
            (sa ∙ a))
    ])

abbrev fired : ℕ → Supervisor → Supervisor
fired k s = record s {
  retry_attempt = k + 1;
  retry_timer = some (record (timer_for k) { is_armed = false });
}

fire-Waiting :
    (k : ℕ) (found : Discovered) (s : Supervisor)
    → Waiting k s
    → fire found s ≡ discover_port auto found (fired k s)
unfolding fire
fire-Waiting k found s w =
    ap (λ t. fire_timer t found s) w.timed ∙ open_timer s.shutdown_called w.running
  where
    open_timer :
        (b : Bool)
        → b ≡ false
        → (if true && not b then discover_port auto found (fired k s) else s)
          ≡ discover_port auto found (fired k s)
    open_timer true e = absurd (cc)
    open_timer false e = refl

fires-Missing :
    (k : ℕ) (misses : List Discovery) (s : Supervisor)
    → All Missing misses
    → Waiting k s
    → Waiting (k + length misses) (call_run s (map (λ d. fires (discovered d)) misses))
unfolding call_run call_step
fires-Missing k [] s h w = subst (λ n. Waiting n s) (omega arith) w
fires-Missing k (d ∷ ds) s (e, es) w =
    let next : Waiting (k + 1) (fire (discovered d) s) =
      subst (Waiting (k + 1)) (sym (fire-Waiting k (discovered d) s w))
        (missed-Waiting (k + 1) d (fired k s) e w.recovering w.running refl) in
    subst (λ n. Waiting n (call_run (fire (discovered d) s) (map (λ x. fires (discovered x)) ds)))
      (omega arith) (fires-Missing (k + 1) ds (fire (discovered d) s) es next)

-- Where a port answers, the host is ready.
IsReady : Supervisor → Type 0
IsReady s =
    (s.ready ≡ true)
    × (s.last_gateway_error ≡ none)
    × (s.retry_attempt ≡ 0)
    × (s.retry_timer ≡ none)

found-IsReady :
    (origin : Origin) (port : Text) (mac : Option Text) (s : Supervisor)
    → IsReady (gateway_found origin port mac s)
unfolding IsReady gateway_found clear_gateway_error hold_port cancel_gateway_retry
    notify_gateway_status notify_manual
found-IsReady origin port none s = ground arith
found-IsReady origin port (some mac) s = ground arith

abbrev pub searches : Discovery → List Discovery → List SupervisorCall
searches first misses =
    link_down true ∷ reconnects (discovered first) ∷ map (λ d. fires (discovered d)) misses

releasing :
    (s : Supervisor)
    → ((release_transport s).link_recovery_pending ≡ s.link_recovery_pending)
      × ((release_transport s).shutdown_called ≡ s.shutdown_called)
      × ((release_transport s).retry_attempt ≡ s.retry_attempt)
unfolding release_transport
releasing s = ground arith

fire-found :
    (k : ℕ) (hit : Discovery) (port : Text) (s : Supervisor)
    → Waiting k s
    → hit.opened ≡ some port
    → IsReady (fire (discovered hit) s)
unfolding discover_port after_search
fire-found k hit port s w h =
    let t = new_transport (release_transport (fired k s)) in
    subst IsReady (sym (fire-Waiting k (discovered hit) s w))
      (rw h (found-IsReady auto port hit.mac t))

-- The link of a host that is not shut down drops and a reconnect is scheduled (none is in progress,
-- and the last began five seconds ago or more). The ports are searched, as without a configured one,
-- and neither the reconnect nor any number of retries finds a port that answers: no search
-- raises, and each ends with no port, whether one was held by a process or not. Then a
-- retry is armed, for the next attempt of the backoff schedule, and if it finds a port that
-- answers, the host is ready, has no error and no timer, and the schedule is at its start.
pub fires-found :
    (s : Supervisor) (first : Discovery) (misses : List Discovery) (hit : Discovery) (port : Text)
    → s.shutdown_called ≡ false
    → Missing first
    → All Missing misses
    → hit.opened ≡ some port
    → ((call_run s (searches first misses)).retry_timer
        ≡ some (timer_for (s.retry_attempt + length misses)))
      × ((call_step (call_run s (searches first misses)) (fires (discovered hit))).ready ≡ true)
      × ((call_step
            (call_run s (searches first misses))
            (fires (discovered hit))).last_gateway_error
          ≡ none)
      × ((call_step (call_run s (searches first misses)) (fires (discovered hit))).retry_timer
          ≡ none)
      × ((call_step (call_run s (searches first misses)) (fires (discovered hit))).retry_attempt
          ≡ 0)
unfolding call_run call_step IsReady
fires-found s first misses hit port up e es h =
    let down = record s { ready = false; link_recovery_pending = true } in
    let (rp, ru, ra) = releasing down in
    let lost = discover_port auto (discovered first) (release_transport down) in
    let end = call_run lost (map (λ d. fires (discovered d)) misses) in
    let w : Waiting (s.retry_attempt + length misses) end =
      fires-Missing s.retry_attempt misses lost es
        (missed-Waiting s.retry_attempt first (release_transport down) e rp (ru ∙ up) ra) in
    let (is_ready, clean, start, still) =
      fire-found (s.retry_attempt + length misses) hit port end w h in
    (w.timed, is_ready, clean, still, start)
