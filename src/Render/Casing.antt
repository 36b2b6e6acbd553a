-- ===== src/Render/Casing.antt =====
-- The casing styles of `render_template` (crates/shinran_render/src/renderer/mod.rs), and what they
-- use of Unicode and of the `regex` crate.
use shinran.Prelude.{ℕ, Text, Bool, Option, none, some, List, [], ◌∷◌, ◌++◌, ◌≡◌}
use shinran.Render.{CasingStyle, unchanged, capitalize, capitalize_words, uppercase}

-- A text as `WORD_REGEX` (`(\w+)`) sees it: a match has at least one character.
pub data WordPart : Type 0 where
  between : Text → WordPart
  word : ℕ → Text → WordPart

abbrev pub join_words : List WordPart → Text
join_words [] = []
join_words (between s ∷ parts) = s ++ join_words parts
join_words (word c s ∷ parts) = (c ∷ s) ++ join_words parts

-- `char::to_uppercase` gives one or more characters.
pub record Unicode : Type 0 where
  pub upper_first : ℕ → ℕ
  pub upper_rest : ℕ → Text
  pub is_alphabetic : ℕ → Bool
  pub is_uppercase : ℕ → Bool
  pub words : Text → List WordPart
  pub join-words : (s : Text) → join_words (words s) ≡ s

module _ (unicode : Unicode) where
  -- `str::to_uppercase`
  unfoldable pub to_uppercase : Text → Text
  to_uppercase [] = []
  to_uppercase (c ∷ s) = unicode.upper_first c ∷ (unicode.upper_rest c ++ to_uppercase s)

  unfoldable pub replace_words : List WordPart → Text
  replace_words [] = []
  replace_words (between s ∷ parts) = s ++ replace_words parts
  replace_words (word c s ∷ parts) = (unicode.upper_first c ∷ s) ++ replace_words parts

  -- The `match options.casing_style`; `none` is the panic of `v[0]` on an empty text.
  unfoldable pub apply_casing : CasingStyle → Text → Option Text
  apply_casing unchanged body = some body
  apply_casing uppercase body = some (to_uppercase body)
  apply_casing capitalize [] = none
  apply_casing capitalize (c ∷ s) = some (unicode.upper_first c ∷ s)
  apply_casing capitalize_words body = some (replace_words (unicode.words body))
