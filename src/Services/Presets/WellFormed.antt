-- ===== src/Services/Presets/WellFormed.antt =====
-- racelink/services/rl_presets_service.py: the keys and ids of the preset store.
use gatecontrol_lora.Prelude.{
  ℕ, bind_value, All, All-append, All-weaken, Bool, Bool-cases, List, Option, Result, Text, [], ap,
  arith, eq_bytes, err, false, inl, inr, keep, length, none, not, ok, ok-injective, refl, same,
  some, subst, suc, sym, ◌++◌, ◌<◌, ◌==◌, ◌∙◌, ◌∷◌, ◌≡◌, ◌≢◌, ◌≤◌, or_else, if◌then◌else◌, true,
}
use gatecontrol_lora.Protocol.Control.{ControlFields}
use gatecontrol_lora.Domain.Flags.{UserFlags}
use gatecontrol_lora.Services.Keyed
use gatecontrol_lora.Services.Scenes.Slug.{has_text, is_space, strip, unique_key, or_text}
use gatecontrol_lora.Services.Scenes.Store.Distinct.{unique_key-free}
use gatecontrol_lora.Services.Presets.{
  PresetStore, StoredPreset, ImportEntry, PresetCall, call_create, call_update, call_delete,
  call_duplicate, call_replace_all, NewPreset, PresetChange, add_preset, after_duplicate,
  changed_preset, create, create_keyed, delete, duplicate_found, get, key_or_label, label_of,
  params_of, preset_keys, preset_slug, preset_with, replace_preset, update_found, update_with,
  Outcome, add_entry, build_entries, build_entry, canonical_params, duplicate, entry_key_in,
  entry_preset, go_on, preset_run, preset_step, replace_all, replaced, update,
}

-- No two presets share a key or an id, and the next id is above all of them.
abbrev pub IsWellFormed : PresetStore → Type 0
IsWellFormed st =
    Keyed.DistinctKeys (λ p. p.preset_key) st.presets
    × Keyed.DistinctIds (λ p. p.preset_id) st.presets
    × All (λ p. p.preset_id < st.next_id) st.presets

below_more :
    (n m : ℕ) (ps : List StoredPreset)
    → n ≤ m
    → All (λ p. p.preset_id < n) ps
    → All (λ p. p.preset_id < m) ps
below_more n m ps le h =
    All-weaken (λ p. p.preset_id < n) (λ p. p.preset_id < m) ps (λ p k. omega (arith, k, le)) h

-- An id that is taken for nothing.
skipped :
    (n : ℕ) (st : PresetStore)
    → st.next_id ≤ n
    → IsWellFormed st
    → IsWellFormed (record st { next_id = n })
skipped n st le (d, e, below) = (d, e, below_more st.next_id n st.presets le below)

appended :
    (st : PresetStore) (p : StoredPreset)
    → p.preset_id ≡ st.next_id
    → has_text (preset_keys st.presets) p.preset_key ≡ false
    → IsWellFormed st
    → IsWellFormed (record { presets = st.presets ++ p ∷ []; next_id = suc st.next_id })
appended st p i free (d, e, below) = (
  Keyed.DistinctKeys-append (λ q. q.preset_key) st.presets p d free,
  Keyed.DistinctIds-append (λ q. q.preset_id) st.presets p e
      (subst (λ n. All (λ q. q.preset_id < n) st.presets) (sym i) below),
  All-append (λ q. q.preset_id < suc st.next_id) st.presets (p ∷ [])
      (below_more st.next_id (suc st.next_id) st.presets (omega arith) below)
      (omega (arith, i), tt),
)

add_preset-IsWellFormed :
    (now : ℕ) (key label : Text) (params : Result ControlFields) (flags : UserFlags)
    (st : PresetStore)
    → has_text (preset_keys st.presets) key ≡ false
    → IsWellFormed st
    → IsWellFormed (add_preset now key label params flags st).1
unfolding add_preset
add_preset-IsWellFormed now key label (err e) flags st free h =
    skipped (suc st.next_id) st (omega arith) h
add_preset-IsWellFormed now key label (ok params) flags st free h =
    appended st (preset_with now st.next_id key label params flags) refl free h

create_keyed-IsWellFormed :
    (now : ℕ) (label : Text) (req : NewPreset) (r : Result Text) (st : PresetStore)
    → ((key : Text) → r ≡ ok key → has_text (preset_keys st.presets) key ≡ false)
    → IsWellFormed st
    → IsWellFormed (create_keyed now label req r st).1
create_keyed-IsWellFormed now label req (err e) st free h = h
create_keyed-IsWellFormed now label req (ok key) st free h =
    add_preset-IsWellFormed now key label _ _ st (free key refl) h

create-IsWellFormed :
    (now : ℕ) (req : NewPreset) (st : PresetStore)
    → IsWellFormed st
    → IsWellFormed (create now req st).1
unfolding create
create-IsWellFormed now req st h =
    let label = strip is_space req.new_label in
    let desired = preset_slug (key_or_label req.new_key label) in
    elim (Bool-cases (length label == 0)) [
      | inl e ↦ rw (create, e) h
      | inr e ↦
          rw (create, e)
            (create_keyed-IsWellFormed now label req (unique_key desired (preset_keys st.presets))
              st (λ key u. unique_key-free desired (preset_keys st.presets) key u) h)
    ]

-- A preset that is changed keeps its key and its id.
SameEntry : StoredPreset → StoredPreset → Type 0
SameEntry new old = (new.preset_key ≡ old.preset_key) × (new.preset_id ≡ old.preset_id)

changed_preset-SameEntry :
    (now : ℕ) (change : PresetChange) (p new : StoredPreset)
    → changed_preset now change p ≡ ok new
    → SameEntry new p
unfolding changed_preset SameEntry
changed_preset-SameEntry now change p new h =
    let (label, l, h1) = bind_value _ (label_of change.set_label p.preset_label) h in
    let (params, q, h2) = bind_value _ (params_of change.set_params p.params) h1 in
    (sym (ap (λ x. x.preset_key) (ok-injective h2)), sym (ap (λ x. x.preset_id) (ok-injective h2)))

replace_preset-All :
    (P : Text → ℕ → Type 0) (new p : StoredPreset) (k : Text) (ps : List StoredPreset)
    → SameEntry new p
    → get k ps ≡ some p
    → All (λ q. P q.preset_key q.preset_id) ps
    → All (λ q. P q.preset_key q.preset_id) (replace_preset new k ps)
unfolding get replace_preset SameEntry
replace_preset-All P new p k [] same found h = tt
replace_preset-All P new p k (q ∷ rest) (sk, si) found (a, h) =
    elim (Bool-cases (eq_bytes q.preset_key k)) [
      | inr e ↦
          rw (replace_preset, e)
            (a, replace_preset-All P new p k rest (sk, si) (rw (get, e) at found) h)
      | inl e ↦
          let same : q ≡ p = ap (λ o. or_else o q) (rw (get, e) at found) in
          rw (replace_preset, e)
            (
              subst (λ x. P x new.preset_id) (ap (λ x. x.preset_key) same ∙ sym sk)
                  (subst (λ x. P q.preset_key x) (ap (λ x. x.preset_id) same ∙ sym si) a),
              h,
            )
    ]

-- With the same key and id, the new entry is as distinct from the others as the old one.
replace_preset-distinct :
    (new p : StoredPreset) (k : Text) (ps : List StoredPreset)
    → SameEntry new p
    → get k ps ≡ some p
    → Keyed.DistinctKeys (λ q. q.preset_key) ps
    → Keyed.DistinctIds (λ q. q.preset_id) ps
    → Keyed.DistinctKeys (λ q. q.preset_key) (replace_preset new k ps)
      × Keyed.DistinctIds (λ q. q.preset_id) (replace_preset new k ps)
unfolding get replace_preset SameEntry
replace_preset-distinct new p k [] same found d e = (tt, tt)
replace_preset-distinct new p k (q ∷ rest) (sk, si) found (a, d) (b, e) =
    elim (Bool-cases (eq_bytes q.preset_key k)) [
      | inr f ↦
          let later = rw (get, f) at found in
          let (x, y) = replace_preset-distinct new p k rest (sk, si) later d e in
          rw (replace_preset, f)
            (
              (
                replace_preset-All (λ key ident. eq_bytes q.preset_key key ≡ false) new p k rest
                    (sk, si) later a,
                x,
              ),
              (
                replace_preset-All (λ key ident. q.preset_id ≢ ident) new p k rest (sk, si) later b,
                y,
              ),
            )
      | inl f ↦
          let same : q ≡ p = ap (λ o. or_else o q) (rw (get, f) at found) in
          let key : q.preset_key ≡ new.preset_key = ap (λ x. x.preset_key) same ∙ sym sk in
          let ident : q.preset_id ≡ new.preset_id = ap (λ x. x.preset_id) same ∙ sym si in
          rw (replace_preset, f)
            (
              (subst (λ t. All (λ r. eq_bytes t r.preset_key ≡ false) rest) key a, d),
              (subst (λ n. All (λ r. n ≢ r.preset_id) rest) ident b, e),
            )
    ]

update_with-IsWellFormed :
    (k : Text) (st : PresetStore) (p : StoredPreset) (r : Result StoredPreset)
    → ((new : StoredPreset) → r ≡ ok new → SameEntry new p)
    → get k st.presets ≡ some p
    → IsWellFormed st
    → IsWellFormed (update_with k st r).1
update_with-IsWellFormed k st p (err e) same found h = h
update_with-IsWellFormed k st p (ok new) same found (d, e, below) =
    let (x, y) = replace_preset-distinct new p k st.presets (same new refl) found d e in
    (
      x,
      y,
      replace_preset-All (λ key ident. ident < st.next_id) new p k st.presets (same new refl) found
          below,
    )

update_found-IsWellFormed :
    (now : ℕ) (k : Text) (change : PresetChange) (st : PresetStore) (o : Option StoredPreset)
    → get k st.presets ≡ o
    → IsWellFormed st
    → IsWellFormed (update_found now k change st o).1
update_found-IsWellFormed now k change st none found h = h
update_found-IsWellFormed now k change st (some p) found h =
    update_with-IsWellFormed k st p (changed_preset now change p)
      (changed_preset-SameEntry now change p) found h

delete-IsWellFormed : (k : Text) (st : PresetStore) → IsWellFormed st → IsWellFormed (delete k st).1
unfolding delete
delete-IsWellFormed k st (d, e, below) =
    let p : StoredPreset → Bool = λ q. not (eq_bytes q.preset_key k) in
    elim (Bool-cases (length (keep p st.presets) == length st.presets)) [
      | inl f ↦ rw (delete, f) (d, e, below)
      | inr f ↦
          rw (delete, f)
            (
              Keyed.DistinctKeys-keep (λ q. q.preset_key) p st.presets d,
              Keyed.DistinctIds-keep (λ q. q.preset_id) p st.presets e,
              Keyed.All-keep (λ q. q.preset_id < st.next_id) p st.presets below,
            )
    ]

duplicate_found-IsWellFormed :
    (now : ℕ) (label : Option Text) (st : PresetStore) (o : Option StoredPreset)
    → IsWellFormed st
    → IsWellFormed (after_duplicate st (duplicate_found now label st o))
duplicate_found-IsWellFormed now label st none h = h
duplicate_found-IsWellFormed now label st (some source) h = create-IsWellFormed now _ st h

chosen-free :
    (b : Bool) (desired : Text) (seen : List Text) (key : Text)
    → has_text seen desired ≡ b
    → (if b then unique_key desired seen else ok desired) ≡ ok key
    → has_text seen key ≡ false
chosen-free true desired seen key h made = unique_key-free desired seen key made
chosen-free false desired seen key h made =
    subst (λ t. has_text seen t ≡ false) (ok-injective made) h

entry_key_in-free :
    (e : ImportEntry) (seen : List Text) (key : Text)
    → entry_key_in e seen ≡ ok key
    → has_text seen key ≡ false
unfolding entry_key_in
entry_key_in-free e seen key h =
    let desired = preset_slug (or_text e.entry_key e.entry_label) in
    chosen-free (has_text seen desired) desired seen key refl h

-- The list built so far is well formed, and the next id has not gone down.
Builds : ℕ → PresetStore → Type 0
Builds n st = IsWellFormed st × (n ≤ st.next_id)

add_entry-Builds :
    (now n : ℕ) (e : ImportEntry) (k : Result Text) (params : Result ControlFields)
    (st : PresetStore)
    → ((key : Text) → k ≡ ok key → has_text (preset_keys st.presets) key ≡ false)
    → Builds n st
    → Builds n (add_entry now e k params st).1
unfolding Builds
add_entry-Builds now n e (err x) params st free h = h
add_entry-Builds now n e (ok key) (err x) st free (h, le) =
    (skipped (suc st.next_id) st (omega arith) h, omega (arith, le))
add_entry-Builds now n e (ok key) (ok params) st free (h, le) = (
  appended st (entry_preset now e st.next_id key params) refl (free key refl) h,
  omega (arith, le),
)

go_on-Builds :
    (n : ℕ) (rest : PresetStore → Outcome Unit) (o : Outcome Unit)
    → ((st : PresetStore) → Builds n st → Builds n (rest st).1)
    → Builds n o.1
    → Builds n (go_on rest o).1
go_on-Builds n rest (err e, st) k h = h
go_on-Builds n rest (ok u, st) k h = k st h

build_entries-Builds :
    (now n : ℕ) (es : List ImportEntry) (st : PresetStore)
    → Builds n st
    → Builds n (build_entries now es st).1
unfolding build_entries build_entry
build_entries-Builds now n [] st h = h
build_entries-Builds now n (e ∷ es) st h =
    go_on-Builds n (build_entries now es) (build_entry now e st)
      (λ next k. build_entries-Builds now n es next k)
      (add_entry-Builds now n e (entry_key_in e (preset_keys st.presets))
        (canonical_params e.entry_params) st
        (λ key u. entry_key_in-free e (preset_keys st.presets) key u) h)

replaced-IsWellFormed :
    (st : PresetStore) (o : Outcome Unit)
    → IsWellFormed st
    → Builds st.next_id o.1
    → IsWellFormed (replaced st o)
unfolding Builds
replaced-IsWellFormed st (err e, built) h (k, le) = skipped built.next_id st le h
replaced-IsWellFormed st (ok u, built) h (k, le) = k

preset_step-IsWellFormed :
    (now : ℕ) (call : PresetCall) (st : PresetStore)
    → IsWellFormed st
    → IsWellFormed (preset_step now call st)
unfolding preset_step update duplicate replace_all
preset_step-IsWellFormed now (call_create req) st h = create-IsWellFormed now req st h
preset_step-IsWellFormed now (call_update k change) st h =
    update_found-IsWellFormed now k change st (get k st.presets) refl h
preset_step-IsWellFormed now (call_delete k) st h = delete-IsWellFormed k st h
preset_step-IsWellFormed now (call_duplicate k label) st h =
    duplicate_found-IsWellFormed now label st (get k st.presets) h
preset_step-IsWellFormed now (call_replace_all entries) st h =
    replaced-IsWellFormed st (build_entries now entries (record st { presets = [] })) h (
      build_entries-Builds now st.next_id entries (record st { presets = [] })
        (unfold Builds in ((tt, tt, tt), omega arith)))

-- Whatever calls the preset store has seen, a bulk replacement among them, done or refused: no two
-- presets share a key or an id, and the id that comes next has not been given to any of them, if
-- that holds at the start.
pub preset_run-IsWellFormed :
    (calls : List (ℕ × PresetCall)) (st : PresetStore)
    → IsWellFormed st
    → IsWellFormed (preset_run calls st)
unfolding preset_run
preset_run-IsWellFormed [] st h = h
preset_run-IsWellFormed ((now, call) ∷ rest) st h =
    preset_run-IsWellFormed rest (preset_step now call st) (preset_step-IsWellFormed now call st h)
