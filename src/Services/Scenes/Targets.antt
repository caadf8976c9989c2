-- ===== src/Services/Scenes/Targets.antt =====
-- racelink/services/scenes_service.py: the validation of the target of an action, and the rewriting
-- of its old forms. Texts are ASCII.
use gatecontrol_lora.Services.Scenes.Slug.{strip, is_space}
use gatecontrol_lora.State.Repository.{upper}
use gatecontrol_lora.Services.Optimizer.{ContainerTarget, broadcast}
use gatecontrol_lora.Transport.Address.{hex_value}
use gatecontrol_lora.Services.Scenes.{canonical_groups, RawValue}
use gatecontrol_lora.Services.Action.{Target, to_groups, to_broadcast}
use gatecontrol_lora.Services.Scenes.Raw.{Field, RawTarget}
use gatecontrol_lora.Services.Scenes.{RawValue, number, no_number, canonical_groups}
use gatecontrol_lora.Services.Scenes.Raw.{Field, missing, null, wrong_shape, given, RawTarget}
use gatecontrol_lora.Services.Action.{Target, to_broadcast, to_groups, to_device, other_target}
use gatecontrol_lora.Services.Optimizer.{ContainerTarget, broadcast, groups}
use gatecontrol_lora.Prelude.{
  ℕ, Bool, List, Option, Result, Text, [], all, codes, contains, eq_bytes, err, if◌then◌else◌,
  is_some, length, none, ok, some, value_error, ◌&&◌, ◌==◌, ◌>>=◌, ◌∷◌,
}

-- The kinds of a target, the two old ones among them.
pub data TargetKind : Type 0 where
  kind_broadcast kind_groups kind_device kind_scope kind_group kind_other : TargetKind

unfoldable pub target_kind_of : Option Text → TargetKind
target_kind_of none = kind_other
target_kind_of (some t) =
    if eq_bytes t (codes "broadcast")
    then kind_broadcast
    else if eq_bytes t (codes "groups")
    then kind_groups
    else if eq_bytes t (codes "device")
    then kind_device
    else if eq_bytes t (codes "scope")
    then kind_scope
    else if eq_bytes t (codes "group")
    then kind_group
    else kind_other

abbrev pub migrate_group : RawValue → RawTarget → RawTarget
migrate_group no_number raw = raw
migrate_group (number v) raw = record raw {
  target_kind = some (codes "groups");
  value_list = some (number v ∷ []);
}

-- `_migrate_legacy_target`
unfoldable pub migrate_legacy_target : RawTarget → RawTarget
unfolding target_kind_of
migrate_legacy_target raw = elim (target_kind_of raw.target_kind) [
  | kind_scope ↦ record raw { target_kind = some (codes "broadcast") }
  | kind_group ↦ migrate_group raw.value_int raw
  | kind_broadcast ↦ raw
  | kind_groups ↦ raw
  | kind_device ↦ raw
  | kind_other ↦ raw
]

-- `_MAC12_RE.match`
abbrev pub is_mac12 : Text → Bool
is_mac12 t = length t == 12 && all (λ c. is_some (hex_value c)) t

unfoldable pub canonical_device : Option Text → Result Target
unfolding hex_value
canonical_device none = err value_error
canonical_device (some t) =
    let v = upper (strip is_space t) in if is_mac12 v then ok (to_device v) else err value_error

abbrev pub groups_target : Option (List RawValue) → Result Target
groups_target none = err value_error
groups_target (some raws) = do ids ← canonical_groups raws; ok (to_groups ids)

abbrev pub target_of_kind : TargetKind → RawTarget → Result Target
target_of_kind kind_broadcast raw = ok to_broadcast
target_of_kind kind_groups raw = groups_target raw.value_list
target_of_kind kind_device raw = canonical_device raw.value_text
target_of_kind kind_scope raw = err value_error
target_of_kind kind_group raw = err value_error
target_of_kind kind_other raw = err value_error

-- `_canonical_target`
unfoldable pub canonical_target : Field RawTarget → Result Target
unfolding migrate_legacy_target target_kind_of canonical_groups canonical_device
canonical_target missing = err value_error
canonical_target null = err value_error
canonical_target (wrong_shape made) = err value_error
canonical_target (given raw) =
    let new = migrate_legacy_target raw in target_of_kind (target_kind_of new.target_kind) new

abbrev pub no_device : Target → Result ContainerTarget
no_device to_broadcast = ok broadcast
no_device (to_groups ids) = ok (groups ids)
no_device (to_device addr) = err value_error
no_device other_target = err value_error

-- `_canonical_offset_group_container_target`
unfoldable pub container_target : Field RawTarget → Result ContainerTarget
unfolding canonical_target
container_target raw = do target ← canonical_target raw; no_device target

-- The groups of a child are among those of the container; none is a broadcast container.
abbrev pub within_parent : Option (List ℕ) → Target → Result Target
within_parent none target = ok target
within_parent (some parents) to_broadcast = ok to_broadcast
within_parent (some parents) (to_groups ids) =
    if all (contains parents) ids then ok (to_groups ids) else err value_error
within_parent (some parents) (to_device addr) = ok (to_device addr)
within_parent (some parents) other_target = ok other_target

-- `_canonical_offset_group_child_target`
unfoldable pub child_target : Option (List ℕ) → Field RawTarget → Result Target
unfolding canonical_target
child_target parents raw = do target ← canonical_target raw; within_parent parents target
