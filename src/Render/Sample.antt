-- ===== src/Render/Sample.antt =====
-- A `VarRegex` that runs, for the tests: `{{name}}` and `{{name.subname}}` with no spaces, over
-- ASCII letters, digits and `_`.
use shinran.Prelude.{
  ℕ, zero, suc, ◌+◌, Text, Bool, false, ◌&&◌, ◌||◌, Option, none, some, Option-cases, List, [], ◌∷◌,
  ◌++◌, ◌≡◌, refl, ap, ◌∙◌, leb, nat_eq, length, take, drop, if◌then◌else◌, inl, inr,
}
use shinran.Render.{Segment, plain, capture, join, VarRegex}

abbrev is_word : ℕ → Bool
is_word c =
    (leb b'a' c && leb c b'z')
    || (leb b'A' c && leb c b'Z')
    || (leb b'0' c && leb c b'9')
    || nat_eq c b'_'

word : Text → Text
word [] = []
word (c ∷ s) = let rest = word s in if is_word c then c ∷ rest else []

closes : Text → Bool
closes (c ∷ d ∷ s) = nat_eq c b'}' && nat_eq d b'}'
closes _ = false

-- The length of the match less one, with the groups.
record Found : Type 0 where
  pred_len : ℕ
  name : Text
  subname : Option Text

after_name : Text → Text → Option Found
unfolding closes word
after_name [] rest = none
after_name name (c ∷ rest) =
    let sub = word rest in
    if closes (c ∷ rest)
    then some (record { pred_len = length name + 3; name = name; subname = none })
    else if nat_eq c b'.' && closes (drop (length sub) rest)
    then some (record { pred_len = length name + length sub + 4; name = name; subname = some sub })
    else none
after_name name [] = none

match_at : Text → Option Found
unfolding after_name word
match_at (c ∷ d ∷ s) =
    if nat_eq c b'{' && nat_eq d b'{' then after_name (word s) (drop (length (word s)) s) else none
match_at _ = none

-- `skip` characters belong to the match before.
scan : ℕ → Text → List Segment
unfolding match_at
scan skip [] = []
scan (suc skip) (c ∷ s) = scan skip s
scan zero (c ∷ s) = elim (match_at (c ∷ s)) [
  | none ↦ plain (c ∷ []) ∷ scan zero s
  | some m ↦ capture (take (suc m.pred_len) (c ∷ s)) m.name m.subname ∷ scan m.pred_len s
]

take-append-drop : (n : ℕ) (xs : Text) → take n xs ++ drop n xs ≡ xs
take-append-drop zero xs = refl
take-append-drop (suc n) [] = refl
take-append-drop (suc n) (x ∷ xs) = ap (λ t. x ∷ t) (take-append-drop n xs)

join-scan : (skip : ℕ) (s : Text) → join (scan skip s) ≡ drop skip s
unfolding scan
join-scan zero [] = refl
join-scan (suc skip) [] = refl
join-scan (suc skip) (c ∷ s) = join-scan skip s
join-scan zero (c ∷ s) = elim (Option-cases (match_at (c ∷ s))) [
  | inl e ↦ rw (e, scan) (ap (λ t. c ∷ t) (join-scan zero s))
  | inr (m, e) ↦
      rw (e, scan)
        (ap (λ t. c ∷ (take m.pred_len s ++ t)) (join-scan m.pred_len s)
          ∙ ap (λ t. c ∷ t) (take-append-drop m.pred_len s))
]

unfoldable pub split : Text → List Segment
unfolding scan
split s = scan zero s

pub join-split : (s : Text) → join (split s) ≡ s
unfolding split
join-split s = join-scan zero s

abbrev pub sample_regex : VarRegex
sample_regex = record { split = split; join-split = join-split }
