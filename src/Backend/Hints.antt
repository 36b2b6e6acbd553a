-- ===== src/Backend/Hints.antt =====
-- The cursor hint of a body: `process_cursor_hint` of crates/shinran_backend/src/cursor.rs.
use shinran.Prelude.{
  ℕ, Text, text_key, text_eq, Bool, true, false, Option, none, some, [], ◌∷◌, ◌++◌, ◌+◌, ◌-◌, ◌%◌,
  ◌^◌, ◌<◌, codes, ◌≡◌, refl, ap, ◌∙◌, arith, if◌then◌else◌,
}
use shinran.Backend.Adapter.{process_cursor_hint, remove_hints, before_hint, starts_hint}

unhinted : (body : Text) → before_hint body ≡ none → remove_hints body ≡ body
unhinted [] q = refl
unhinted (a ∷ []) q = refl
unhinted (a ∷ b ∷ []) q = refl
unhinted (a ∷ b ∷ c ∷ s) q = ground (arith, unhinted (b ∷ c ∷ s))

-- The text of the answer is the body after one pass of `replace`, with and without a hint.
pub process_cursor_hint-remove_hints :
    (graphemes : Text → ℕ) (body : Text)
    → (process_cursor_hint graphemes body).0 ≡ remove_hints body
unfolding process_cursor_hint
process_cursor_hint-remove_hints graphemes body = ground (arith, unhinted body)

-- What `before_hint` makes of a place where a hint is or is not.
abbrev found : Bool → ℕ → Option Text → Option Text
found here a rest =
    if here then some [] else elim rest [ none ↦ none | some prefix ↦ some (a ∷ prefix) ]

first_step :
    (here : Bool) (a : ℕ) (before after : Option Text) (prefix : Text)
    → found here a before ≡ none
    → (before ≡ none → after ≡ some prefix)
    → found here a after ≡ some (a ∷ prefix)
first_step true a before after prefix h later = absurd (ground (arith, h))
first_step false a (some t) after prefix h later = absurd (ground (arith, h))
first_step false a none after prefix h later = ap (found false a) (later refl)

only_step :
    (here : Bool) (a : ℕ) (before : Option Text) (behind after rest : Text)
    → found here a before ≡ none
    → (before ≡ none → after ≡ rest)
    → (if here then behind else a ∷ after) ≡ a ∷ rest
only_step true a before behind after rest h later = absurd (ground (arith, h))
only_step false a (some t) behind after rest h later = absurd (ground (arith, h))
only_step false a none behind after rest h later = ap (λ (s : Text). a ∷ s) (later refl)

first_hint :
    (prefix suffix : Text)
    → before_hint (prefix ++ codes "$|") ≡ none
    → before_hint (prefix ++ codes "$|$" ++ suffix) ≡ some prefix
first_hint [] suffix h = unfold text_eq in refl
first_hint (a ∷ []) suffix h =
    first_step (starts_hint a b'$' b'|') a (before_hint (codes "$|")) _ [] h (first_hint [] suffix)
first_hint (a ∷ b ∷ []) suffix h =
    first_step (starts_hint a b b'$') a (before_hint (b ∷ codes "$|")) _ (b ∷ []) h
      (first_hint (b ∷ []) suffix)
first_hint (a ∷ b ∷ c ∷ s) suffix h =
    first_step (starts_hint a b c) a (before_hint (b ∷ c ∷ s ++ codes "$|")) _ (b ∷ c ∷ s) h
      (first_hint (b ∷ c ∷ s) suffix)

only_hint :
    (prefix suffix : Text)
    → before_hint (prefix ++ codes "$|") ≡ none
    → remove_hints (prefix ++ codes "$|$" ++ suffix) ≡ prefix ++ remove_hints suffix
only_hint [] suffix h = unfold text_eq in refl
only_hint (a ∷ []) suffix h =
    only_step (starts_hint a b'$' b'|') a (before_hint (codes "$|")) _ _ _ h (only_hint [] suffix)
only_hint (a ∷ b ∷ []) suffix h =
    only_step (starts_hint a b b'$') a (before_hint (b ∷ codes "$|")) _ _ _ h
      (only_hint (b ∷ []) suffix)
only_hint (a ∷ b ∷ c ∷ s) suffix h =
    only_step (starts_hint a b c) a (before_hint (b ∷ c ∷ s ++ codes "$|")) _ _ _ h
      (only_hint (b ∷ c ∷ s) suffix)

hinted :
    (graphemes : Text → ℕ) (body prefix : Text)
    → before_hint body ≡ some prefix
    → process_cursor_hint graphemes body ≡ (
      remove_hints body,
      some ((graphemes body + 2 ^ 64 + 2 ^ 64 - graphemes prefix - 3) % 2 ^ 64),
    )
unfolding process_cursor_hint
hinted graphemes body prefix h = rw (h, process_cursor_hint) refl

offset :
    (whole before behind : ℕ)
    → whole ≡ before + 3 + behind
    → before + 3 + behind < 2 ^ 64
    → (whole + 2 ^ 64 + 2 ^ 64 - before - 3) % 2 ^ 64 ≡ behind
offset whole before behind same fits = omega (arith, same, fits)

-- A body with one cursor hint becomes the text before the hint and the text behind it, and the cursor
-- is to go back by the graphemes behind it: the hint overlaps with no other (the first hint is found
-- at its place, none is behind it), its three characters are graphemes of their own, and the count
-- fits into 64 bits.
pub process_cursor_hint-single :
    (graphemes : Text → ℕ) (prefix suffix : Text)
    → before_hint (prefix ++ codes "$|") ≡ none
    → before_hint suffix ≡ none
    → graphemes (prefix ++ codes "$|$" ++ suffix) ≡ graphemes prefix + 3 + graphemes suffix
    → graphemes prefix + 3 + graphemes suffix < 2 ^ 64
    → process_cursor_hint graphemes (prefix ++ codes "$|$" ++ suffix)
      ≡ (prefix ++ suffix, some (graphemes suffix))
process_cursor_hint-single graphemes prefix suffix first none_behind count fits =
    let body = prefix ++ codes "$|$" ++ suffix in
    hinted graphemes body prefix (first_hint prefix suffix first)
    ∙ ap
        (λ (s : Text).
          (s, some ((graphemes body + 2 ^ 64 + 2 ^ 64 - graphemes prefix - 3) % 2 ^ 64)))
        (only_hint prefix suffix first
          ∙ ap (λ (s : Text). prefix ++ s) (unhinted suffix none_behind))
    ∙ ap (λ n. (prefix ++ suffix, some n))
        (offset (graphemes body) (graphemes prefix) (graphemes suffix) count fits)
