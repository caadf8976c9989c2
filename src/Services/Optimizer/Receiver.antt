-- ===== src/Services/Optimizer/Receiver.antt =====
-- What a device does with OPC_OFFSET, from the documented contract in racelink/protocol/packets.py
-- (`build_offset_body`: the per-mode payload, and group 255 as broadcast) and the evaluator that
-- racelink/domain/offset_formula.py says the firmware shares. The abstract side of the optimizer.
use gatecontrol_lora.Prelude.{
  ℕ, All, Bool-cases, List, Option, [], arith, codes, contains, err, if◌then◌else◌, inl, inr, map,
  none, ok, pos, refl, some, ℤ, ◌<◌, ◌==◌, ◌||◌, ◌∷◌, ◌≡◌, Result, ap, ◌∙◌, ==_iff,
}
use native.Mathlib.Nat.{mod-eq_of_lt}
use gatecontrol_lora.Protocol.Struct.{Bytes}
use gatecontrol_lora.Protocol.Offset.{
  OffsetParams, build_offset_of, mode_explicit, mode_linear, mode_modulo, mode_none, mode_vshape,
  parse_offset_body,
}
use gatecontrol_lora.Protocol.Offset.RoundTrip.{clamp_params, parse_offset_body-build_offset_of}
use gatecontrol_lora.Domain.OffsetFormula.{OffsetSpec, clamp_ms, evaluate_offset_ms}
use gatecontrol_lora.Services.WireOp.{WireOp, offset_payload, Payload, effect_payload, sync_payload}
use gatecontrol_lora.Services.Optimizer.{empty_spec, offset_op}
use gatecontrol_lora.Services.Optimizer.Plans.{wire_op}

-- The stored configuration: `none` is the state in which no offset is active.
abbrev pub Config : Type 0
Config = Option OffsetParams

abbrev pub stored : OffsetParams → Config
stored mode_none = none
stored p = some p

abbrev pub accept : ℕ → ℕ → OffsetParams → Config → Config
accept own gid p state = if gid == 255 || gid == own then stored p else state

-- A device of group `own` receives a body. One that cannot be parsed is dropped.
abbrev pub receive_parsed : ℕ → Result (ℕ × OffsetParams) → Config → Config
receive_parsed own (ok (gid, p)) state = accept own gid p state
receive_parsed own (err e) state = state

unfoldable pub receive : ℕ → Bytes → Config → Config
receive own body state = receive_parsed own (parse_offset_body body) state

abbrev pub receive_built : ℕ → Result Bytes → Config → Config
receive_built own (ok body) state = receive own body state
receive_built own (err e) state = state

-- A planned op goes on the air through the body builder. Other payloads carry no offset.
abbrev pub deliver_payload : ℕ → ℕ → Payload → Config → Config
deliver_payload own gid (offset_payload p) state =
    receive_built own (build_offset_of (pos gid) p) state
deliver_payload own gid (sync_payload _ _) state = state
deliver_payload own gid (effect_payload _ _) state = state

unfoldable pub deliver : ℕ → WireOp → Config → Config
unfolding receive
deliver own op state = deliver_payload own op.group op.payload state

unfoldable pub deliver_all : ℕ → List WireOp → Config → Config
deliver_all own [] state = state
deliver_all own (op ∷ ops) state = deliver_all own ops (deliver own op state)

-- The block that the parser reports, as the evaluator takes it.
abbrev pub spec_of : OffsetParams → OffsetSpec
spec_of mode_none = record empty_spec { mode = some (codes "none") }
spec_of (mode_explicit ms) = record empty_spec {
  mode = some (codes "explicit");
  offset_ms = some ms;
}
spec_of (mode_linear b s) = record empty_spec {
  mode = some (codes "linear");
  base_ms = some b;
  step_ms = some s;
}
spec_of (mode_vshape b s c) = record empty_spec {
  mode = some (codes "vshape");
  base_ms = some b;
  step_ms = some s;
  center = some c;
}
spec_of (mode_modulo b s c) = record empty_spec {
  mode = some (codes "modulo");
  base_ms = some b;
  step_ms = some s;
  cycle = some c;
}

-- The offset at which a device of group `own` acts, if it has one.
unfoldable pub active_ms : ℕ → Config → Option ℤ
active_ms own none = none
active_ms own (some p) = elim (evaluate_offset_ms (spec_of p) (pos own)) [
  | ok ms ↦ some ms
  | err e ↦ none
]

pub deliver_lem :
    (own gid : ℕ) (p : OffsetParams) (state : Config)
    → gid < 256
    → deliver own (wire_op p gid) state ≡ accept own gid (clamp_params p) state
unfolding deliver offset_op
deliver_lem own gid p state h =
    let (body, built, parsed, _) = parse_offset_body-build_offset_of (pos gid) p in
    rw (built, deliver) (rw (parsed, mod-eq_of_lt h) refl)

pub accept_broadcast :
    (own : ℕ) (p : OffsetParams) (state : Config) → accept own 255 p state ≡ stored p
accept_broadcast own p state = refl

pub deliver_all-cons :
    (own gid : ℕ) (p : OffsetParams) (ops : List WireOp) (state : Config)
    → gid < 256
    → deliver_all own (wire_op p gid ∷ ops) state
      ≡ deliver_all own ops (accept own gid (clamp_params p) state)
unfolding deliver_all
deliver_all-cons own gid p ops state h = ap (deliver_all own ops) (deliver_lem own gid p state h)

-- A run of NONE ops clears exactly the groups that it names.
pub deliver_all-none :
    (own : ℕ) (gids : List ℕ) (state : Config)
    → All (λ g. g < 255) gids
    → deliver_all own (map (wire_op mode_none) gids) state
      ≡ (if contains gids own then none else state)
unfolding deliver_all
deliver_all-none own [] state h = refl
deliver_all-none own (g ∷ gs) state (hg, h) =
    deliver_all-cons own g mode_none (map (wire_op mode_none) gs) state (omega arith)
    ∙ (deliver_all-none own gs (accept own g mode_none state) h ∙ ground arith)

accept_explicit :
    (value : ℕ → ℤ) (own g : ℕ) (state : Config)
    → g < 255
    → accept own g (mode_explicit (value g)) state
      ≡ (if own == g then some (mode_explicit (value own)) else state)
accept_explicit value own g state h = elim (Bool-cases (own == g)) [
  | inl e ↦ let same_group = (==_iff own g).0 e in rw same_group (ground arith)
  | inr e ↦ ground arith
]

-- A run of EXPLICIT ops sets exactly the groups that it names.
pub deliver_all-explicit :
    (value : ℕ → ℤ) (own : ℕ) (gids : List ℕ) (state : Config)
    → All (λ g. g < 255) gids
    → deliver_all own (map (λ g. wire_op (mode_explicit (value g)) g) gids) state
      ≡ (if contains gids own then some (mode_explicit (clamp_ms (value own))) else state)
unfolding deliver_all
deliver_all-explicit value own [] state h = refl
deliver_all-explicit value own (g ∷ gs) state (hg, h) =
    let ops = map (λ x. wire_op (mode_explicit (value x)) x) gs in
    let config = mode_explicit (clamp_ms (value g)) in
    deliver_all-cons own g (mode_explicit (value g)) ops state (omega arith)
    ∙ (deliver_all-explicit value own gs (accept own g config state) h
        ∙ rw (accept_explicit (λ x. clamp_ms (value x)) own g state hg) (ground arith))
