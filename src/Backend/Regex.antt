-- ===== src/Backend/Regex.antt =====
-- crates/shinran_backend/src/regex.rs: the matches that a regular expression causes. Of the crate `regex`
-- the back end uses `Regex::new`, `captures` with `capture_names`, and `RegexSet`.
use shinran.Prelude.{
  ℕ, suc, Text, text_key, Bool, true, false, Option, none, some, List, [], ◌∷◌, ◌++◌, map, ◌≡◌,
  refl, ap, ◌∙◌, append-nil, append_assoc, arith, get_elem?, filter_map, if◌then◌else◌,
}
use shinran.Prelude.Dict.{Map, insert}
use shinran.Types.{MatchRef, RegexMatch}
use shinran.Backend.{DetectedMatch}

-- The text of the whole match, and each named group in order, with its text where it took part.
pub record Captures : Type 0 where
  pub full_match : Text
  pub named : List (Text × Option Text)

-- The positions, counted from `i`, of the elements that pass a test.
abbrev pub positions : {A : Type 0} → (A → Bool) → ℕ → List A → List ℕ
positions p i [] = []
positions p i (x ∷ xs) = let rest = positions p (suc i) xs in if p x then i ∷ rest else rest

abbrev pub is_some : {A : Type 0} → Option A → Bool
is_some none = false
is_some (some x) = true

-- The crate. A regex is its pattern, `compile` says whether it is one, `captures` is `Regex::captures`
-- of a pattern, `set_builds` says whether `RegexSet::new` succeeds, and `set_matches` is `RegexSet::matches`: the indices of the patterns that match.
pub record RegexCrate : Type 0 where
  pub compiles : Text → Bool
  pub captures : Text → Text → Option Captures
  pub set_builds : List Text → Bool
  pub set_matches : List Text → Text → List ℕ
  pub set_matches_positions :
      (patterns : List Text) (text : Text)
      → set_matches patterns text ≡ positions (λ p. is_some (captures p text)) 0 patterns

-- The set holds the patterns of `regexes`.
pub record RegexMatcher : Type 0 where
  pub ids : List RegexMatch
  pub regexes : List Text

module _ (crate : RegexCrate) where
  -- The loop of `RegexMatcher::new`: a pattern that does not compile is left out.
  unfoldable pub compile_all : List RegexMatch → RegexMatcher → RegexMatcher
  compile_all [] matcher = matcher
  compile_all (m ∷ ms) matcher = compile_all ms (
      if crate.compiles m.regex
      then record { ids = matcher.ids ++ m ∷ []; regexes = matcher.regexes ++ m.regex ∷ [] }
      else matcher)

  -- What `RegexMatcher::new` gives, where it does not panic.
  unfoldable pub new : List RegexMatch → RegexMatcher
  new matches = compile_all matches (record { ids = []; regexes = [] })

  -- `RegexMatcher::new`; `none` is the panic where the set cannot be built.
  unfoldable pub build : List RegexMatch → Option RegexMatcher
  build matches =
      let matcher = new matches in if crate.set_builds matcher.regexes then some matcher else none

  abbrev pub variables : List (Text × Option Text) → Map Text Text → Map Text Text
  variables [] args = args
  variables ((name, none) ∷ rest) args = variables rest args
  variables ((name, some text) ∷ rest) args = variables rest (insert name text args)

  abbrev pub detect : RegexMatch → Option Captures → Option DetectedMatch
  detect m none = none
  detect m (some c) = elim c.full_match [
    | [] ↦ none
    | _ ∷ _ ↦ some (record {
      id = MatchRef.regex m;
      trigger = c.full_match;
      left_separator = none;
      right_separator = none;
      args = variables c.named [];
    })
  ]

  -- One turn of the loop of `find_matches`, from the two `get(index)`.
  abbrev pub detect_at : Text → Option RegexMatch → Option Text → Option DetectedMatch
  detect_at trigger (some m) (some regex) = detect m (crate.captures regex trigger)
  detect_at trigger _ _ = none

  unfoldable pub find_matches : RegexMatcher → Text → List DetectedMatch
  find_matches matcher trigger =
      filter_map
        (λ index. detect_at trigger (get_elem? matcher.ids index) (get_elem? matcher.regexes index))
        (crate.set_matches matcher.regexes trigger)

  -- Without the set: each match that compiles is tried in turn.
  abbrev pub try_match : Text → RegexMatch → Option DetectedMatch
  try_match trigger m =
      if crate.compiles m.regex then detect m (crate.captures m.regex trigger) else none

  -- The matcher of the matches that compile.
  compiled : List RegexMatch → List RegexMatch
  compiled [] = []
  compiled (m ∷ ms) = let rest = compiled ms in if crate.compiles m.regex then m ∷ rest else rest

  abbrev pub patterns : List RegexMatch → List Text
  patterns ms = map (λ (m : RegexMatch). m.regex) ms

  -- Two tests of one value go the same way.
  if_elim :
      {A B : Type 0} (P : A → B → Type 0) {x y : A} {u v : B} (b : Bool)
      → P x u
      → P y v
      → P (if b then x else y) (if b then u else v)
  if_elim P true p q = p
  if_elim P false p q = q

  compile_all-compiled :
      (ms : List RegexMatch) (ids : List RegexMatch) (regexes : List Text)
      → compile_all ms (record { ids = ids; regexes = regexes })
        ≡ record { ids = ids ++ compiled ms; regexes = regexes ++ patterns (compiled ms) }
  unfolding compile_all compiled
  compile_all-compiled [] ids regexes = simp append-nil
  compile_all-compiled (m ∷ ms) ids regexes =
      if_elim
        (λ matcher cs.
          compile_all ms matcher ≡ record { ids = ids ++ cs; regexes = regexes ++ patterns cs })
        (crate.compiles m.regex)
        (compile_all-compiled ms (ids ++ m ∷ []) (regexes ++ m.regex ∷ []) ∙ simp append_assoc)
        (compile_all-compiled ms ids regexes)

  positions-suc :
      {A : Type 0} (p : A → Bool) (i : ℕ) (xs : List A)
      → positions p (suc i) xs ≡ map suc (positions p i xs)
  positions-suc p i [] = refl
  positions-suc p i (x ∷ xs) =
      if_elim (λ ns ms. ns ≡ map suc ms) (p x) (ap (◌∷◌ (suc i)) (positions-suc p (suc i) xs))
        (positions-suc p (suc i) xs)

  filter_map-map :
      {A B C : Type 0} (f : B → Option C) (g : A → B) (xs : List A)
      → filter_map f (map g xs) ≡ filter_map (λ x. f (g x)) xs
  filter_map-map f g [] = refl
  filter_map-map f g (x ∷ xs) = ground (arith, filter_map-map f g xs)

  abbrev at : Text → List RegexMatch → ℕ → Option DetectedMatch
  at trigger cs i = detect_at trigger (get_elem? cs i) (get_elem? (patterns cs) i)

  abbrev matches : Text → Text → Bool
  matches trigger p = is_some (crate.captures p trigger)

  detect_first :
      (trigger : Text) (m : RegexMatch) (cs : List RegexMatch) (o : Option Captures)
      → crate.captures m.regex trigger ≡ o
      → filter_map (at trigger (m ∷ cs)) (positions (matches trigger) 1 (patterns cs))
        ≡ filter_map (λ (m : RegexMatch). detect m (crate.captures m.regex trigger)) cs
      → filter_map (at trigger (m ∷ cs)) (
          if is_some o
          then 0 ∷ positions (matches trigger) 1 (patterns cs)
          else positions (matches trigger) 1 (patterns cs))
        ≡ filter_map (λ (m : RegexMatch). detect m (crate.captures m.regex trigger)) (m ∷ cs)
  detect_first trigger m cs none q rest = ground (arith, rest)
  detect_first trigger m cs (some c) q rest = ground (arith, rest)

  filter_map-positions :
      (trigger : Text) (cs : List RegexMatch)
      → filter_map (at trigger cs) (positions (matches trigger) 0 (patterns cs))
        ≡ filter_map (λ (m : RegexMatch). detect m (crate.captures m.regex trigger)) cs
  filter_map-positions trigger [] = refl
  filter_map-positions trigger (m ∷ cs) =
      detect_first trigger m cs (crate.captures m.regex trigger) refl (
        ap (filter_map (at trigger (m ∷ cs))) (positions-suc (matches trigger) 0 (patterns cs))
        ∙ filter_map-map (at trigger (m ∷ cs)) suc (positions (matches trigger) 0 (patterns cs))
        ∙ filter_map-positions trigger cs)

  filter_map-compiled :
      (trigger : Text) (ms : List RegexMatch)
      → filter_map (λ (m : RegexMatch). detect m (crate.captures m.regex trigger)) (compiled ms)
        ≡ filter_map (try_match trigger) ms
  unfolding compiled
  filter_map-compiled trigger [] = refl
  filter_map-compiled trigger (m ∷ ms) = ground (arith, filter_map-compiled trigger ms)

  -- The set finds what trying each match that compiles finds, in the same order: no index is
  -- inconsistent.
  pub find_matches-new :
      (ms : List RegexMatch) (trigger : Text)
      → find_matches (new ms) trigger ≡ filter_map (try_match trigger) ms
  unfolding find_matches new
  find_matches-new ms trigger =
      ap (λ matcher. find_matches matcher trigger) (compile_all-compiled ms [] [])
      ∙ ap (filter_map (at trigger (compiled ms)))
          (crate.set_matches_positions (patterns (compiled ms)) trigger)
      ∙ filter_map-positions trigger (compiled ms)
      ∙ filter_map-compiled trigger ms
