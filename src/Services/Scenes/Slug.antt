-- ===== src/Services/Scenes/Slug.antt =====
-- racelink/services/scenes_service.py: the key of a scene, made from its label. Texts are ASCII.
use gatecontrol_lora.Prelude.{
  ℕ, Bool, List, Result, Text, [], codes, eq_bytes, err, false, if◌then◌else◌, leb, length, ltb, ok,
  runtime_error, suc, true, zero, ◌%◌, ◌&&◌, ◌++◌, ◌+◌, ◌/◌, ◌==◌, ◌||◌, ◌∷◌,
}
use gatecontrol_lora.Protocol.Offset.{lower}

abbrev is_word : ℕ → Bool
is_word c = leb 97 c && leb c 122 || leb 48 c && leb c 57

-- `re.sub("[^a-z0-9]+", "_", text)`; the flag says that the run has its underscore already.
unfoldable pub sub_words : Bool → Text → Text
sub_words in_run [] = []
sub_words in_run (c ∷ cs) =
    let after_word = sub_words false cs in
    let after_other = sub_words true cs in
    if is_word c then c ∷ after_word else if in_run then after_other else 95 ∷ after_other

abbrev pub lstrip : (ℕ → Bool) → Text → Text
lstrip p [] = []
lstrip p (c ∷ cs) = let rest = lstrip p cs in if p c then rest else c ∷ cs

abbrev pub rstrip : (ℕ → Bool) → Text → Text
rstrip p [] = []
rstrip p (c ∷ cs) = let rest = rstrip p cs in if p c && length rest == 0 then [] else c ∷ rest

abbrev pub strip : (ℕ → Bool) → Text → Text
strip p t = lstrip p (rstrip p t)

abbrev pub is_space : ℕ → Bool
is_space c = leb 9 c && leb c 13 || leb 28 c && leb c 32

abbrev pub or_text : Text → Text → Text
or_text [] d = d
or_text (c ∷ cs) d = c ∷ cs

unfoldable pub slugify : Text → Text
unfolding sub_words
slugify text =
    or_text (strip (λ c. c == 95) (sub_words false (lower (strip is_space text)))) (codes "scene")

abbrev pub has_text : List Text → Text → Bool
has_text [] t = false
has_text (x ∷ xs) t = eq_bytes x t || has_text xs t

-- An index below 1000 in decimal.
abbrev pub index_text : ℕ → Text
index_text n =
    if ltb n 10
    then (48 + n) ∷ []
    else if ltb n 100
    then (48 + n / 10) ∷ (48 + n % 10) ∷ []
    else (48 + n / 100) ∷ (48 + n / 10 % 10) ∷ (48 + n % 10) ∷ []

-- The search for a free suffix, with so many indices left.
unfoldable pub free_key : ℕ → ℕ → Text → List Text → Result Text
free_key zero index desired taken = err runtime_error
free_key (suc left) index desired taken =
    let candidate = desired ++ 95 ∷ index_text index in
    let rest = free_key left (suc index) desired taken in
    if has_text taken candidate then rest else ok candidate

unfoldable pub unique_key : Text → List Text → Result Text
unfolding free_key
unique_key desired taken =
    if has_text taken desired then free_key 998 2 desired taken else ok desired
