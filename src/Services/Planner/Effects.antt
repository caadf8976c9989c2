-- ===== src/Services/Planner/Effects.antt =====
-- `_plan_effect` on every branch: what is emitted for a resolved target, and when it degrades.
use gatecontrol_lora.Services.Optimizer.Plans.{traverse_ok}
use gatecontrol_lora.Domain.Flags.{FlagMapping}
use mathlib.Core.Path.{ap₂}
use gatecontrol_lora.Protocol.Bodies.{build_preset_body}
use gatecontrol_lora.Prelude.{
  ℕ, Bool, List, Option, [], arith, false, length, ok, pos, refl, ◌>>=◌, ◌∙◌, ◌≡◌, ◌≤◌, All, ap,
  inr, map, none, ◌∷◌, is_some, true,
}
use gatecontrol_lora.Protocol.Control.{ControlFields}
use gatecontrol_lora.Domain.Params.{EffectParams}
use gatecontrol_lora.Services.WireOp.{
  WireOp, TargetKwargs, effect_payload, opc_control, opc_preset, send_wled_preset, target_group,
}
use gatecontrol_lora.Services.Action.{
  EffectAction, EffectKind, rl_preset, startblock, wled_control, wled_preset, kind_of, to_groups,
}
use gatecontrol_lora.Services.EffectPlan.{
  ActionDispatchPlan, build_effect_op, control_body_len, effect_op, is_startblock, masked_fields,
  sender_of, target_group_for_op, DeviceLookup, PresetLookup, effect_plan, force_flag, materialize,
  merge_flags, no_detail, plan_effect, resolve_target,
}
use gatecontrol_lora.Protocol.Control.Layout.{read_control-build_control_body}

-- The size of the packet that carries an effect.
control_body_len_ok :
    (f : ControlFields) → (n : ℕ) × (control_body_len f ≡ ok n) × (3 ≤ n) × (n ≤ 21)
unfolding control_body_len
control_body_len_ok f =
    let (body, built, _, low, high) =
      read_control-build_control_body (pos 0) (pos 0) (masked_fields f) in
    (length body, rw built refl, low, high)

-- The op that each target gets: all of them differ in the target only.
pub record EffectOps (kind : EffectKind) (params : EffectParams) : Type 0 where
  pub op_for : TargetKwargs → WireOp
  pub built : (t : TargetKwargs) → build_effect_op kind params t ≡ ok (op_for t)
  pub group_of : (t : TargetKwargs) → (op_for t).group ≡ target_group_for_op t
  pub payload_of : (t : TargetKwargs) → (op_for t).payload ≡ effect_payload params t
  pub named_sender : (t : TargetKwargs) → is_some (op_for t).sender ≡ true
  pub size : ℕ
  pub size_of : (t : TargetKwargs) → (op_for t).body_bytes ≡ size
  pub size_low : 3 ≤ size
  pub size_high : size ≤ 21

control_ops :
    (kind : EffectKind) (params : EffectParams)
    → ((t : TargetKwargs)
        → build_effect_op kind params t ≡ (
            control_body_len params.fields >>= λ n.
            ok (effect_op opc_control (sender_of kind) params t n (is_startblock kind))))
    → EffectOps kind params
unfolding build_effect_op
control_ops kind params shape =
    let (n, len, low, high) = control_body_len_ok params.fields in
    record {
      op_for = λ t. effect_op opc_control (sender_of kind) params t n (is_startblock kind);
      built = λ t. shape t ∙ rw len refl;
      group_of = λ t. refl;
      payload_of = λ t. refl;
      named_sender = λ t. refl;
      size = n;
      size_of = λ t. refl;
      size_low = low;
      size_high = high;
    }

pub effect_ops : (kind : EffectKind) (params : EffectParams) → EffectOps kind params
unfolding build_effect_op build_preset_body
effect_ops rl_preset params = control_ops rl_preset params (λ t. refl)
effect_ops wled_control params = control_ops wled_control params (λ t. refl)
effect_ops startblock params = control_ops startblock params (λ t. refl)
effect_ops wled_preset params = record {
  op_for = λ t. effect_op opc_preset send_wled_preset params t 4 false;
  built = λ t. refl;
  group_of = λ t. refl;
  payload_of = λ t. refl;
  named_sender = λ t. refl;
  size = 4;
  size_of = λ t. refl;
  size_low = omega arith;
  size_high = omega arith;
}

pub All-map {ℓ κ μ} :
    {A : Type ℓ} {B : Type κ} (P : B → Type μ) (f : A → B) (xs : List A)
    → ((x : A) → P (f x))
    → All P (map f xs)
All-map P f [] h = tt
All-map P f (x ∷ xs) h = (h x, All-map P f xs h)

-- The parameters that every op of the plan carries.
abbrev pub merged_params : EffectAction → Option Bool → EffectParams → FlagMapping → EffectParams
merged_params a force base persisted =
    merge_flags base persisted (force_flag force a.flags_override)

abbrev pub emitted :
    EffectAction → Option Bool → List TargetKwargs → EffectParams → FlagMapping → ActionDispatchPlan
emitted a force targets base persisted = record {
  kind = kind_of a.effect_kind;
  ops = map (effect_ops a.effect_kind (merged_params a force base persisted)).op_for targets;
  degraded = false;
  error = none;
  detail = no_detail;
}

pub effect_plan_lem :
    (a : EffectAction) (force : Option Bool) (targets : List TargetKwargs) (base : EffectParams)
    (persisted : FlagMapping)
    → effect_plan a force targets (inr (base, persisted))
      ≡ ok (emitted a force targets base persisted)
unfolding effect_plan
effect_plan_lem a force targets base persisted =
    let e = effect_ops a.effect_kind (merged_params a force base persisted) in
    rw (traverse_ok _ e.op_for targets e.built) refl

abbrev pub group_field : WireOp → ℕ
group_field op = op.group

pub map-map {ℓ κ μ} :
    {A : Type ℓ} {B : Type κ} {C : Type μ} (g : B → C) (f : A → B) (h : A → C) (xs : List A)
    → ((x : A) → g (f x) ≡ h x)
    → map g (map f xs) ≡ map h xs
map-map g f h [] e = refl
map-map g f h (x ∷ xs) e = ap₂ ◌∷◌ (e x) (map-map g f h xs e)

map_id : (xs : List ℕ) → map (λ x. x) xs ≡ xs
map_id [] = refl
map_id (x ∷ xs) = ap (◌∷◌ x) (map_id xs)

-- An effect on a non-empty list of groups, whose parameters can be resolved: one op for each
-- group in the given order, each with the merged parameters and a body of 3 to 21 bytes.
pub plan_effect-groups :
    (presets : PresetLookup) (devices : DeviceLookup) (force : Option Bool) (a : EffectAction)
    (g : ℕ) (gs : List ℕ) (base : EffectParams) (persisted : FlagMapping)
    → a.target ≡ to_groups (g ∷ gs)
    → materialize a.effect_kind a.params presets ≡ inr (base, persisted)
    → (plan : ActionDispatchPlan) × (plan_effect presets devices force a ≡ ok plan)
      × (plan.degraded ≡ false)
      × (map group_field plan.ops ≡ g ∷ gs)
      × All
          (λ op.
            ((t : TargetKwargs) × (op.payload
                ≡ effect_payload (merged_params a force base persisted) t))
            × (3 ≤ op.body_bytes)
            × (op.body_bytes ≤ 21))
          plan.ops
unfolding plan_effect
plan_effect-groups presets devices force a g gs base persisted target resolved =
    let e = effect_ops a.effect_kind (merged_params a force base persisted) in
    let targets = map target_group (g ∷ gs) in
    (
      emitted a force targets base persisted,
      rw (target, resolve_target) (rw resolved (effect_plan_lem a force targets base persisted)),
      refl,
      map-map group_field e.op_for target_group_for_op targets e.group_of
          ∙ (map-map target_group_for_op target_group (λ x. x) (g ∷ gs)
                (λ x. unfold target_group_for_op in refl)
              ∙ map_id (g ∷ gs)),
      All-map _ e.op_for targets
          (λ t. ((t, e.payload_of t), rw (e.size_of t) e.size_low, rw (e.size_of t) e.size_high)),
    )
