-- ===== src/Backend/CasingStyle.antt =====
-- `calculate_casing_style` of crates/shinran_backend/src/render.rs: the casing of the trigger that was
-- typed decides the casing of its replacement.
use shinran.Prelude.{ℕ, Text, Option, none, some, [], ◌∷◌, ◌≡◌, refl, arith, filter, if◌then◌else◌}
use shinran.Types.{UpperCasingStyle}
use shinran.Render.{CasingStyle}
use shinran.Render.Casing.{Unicode}

module _ (unicode : Unicode) where
  -- The loop over the characters, with `first_alphabetic` and `second_alphabetic`.
  unfoldable pub find_alphabetic : Option ℕ → Option ℕ → Text → Option ℕ × Option ℕ
  find_alphabetic first second [] = (first, second)
  find_alphabetic none second (c ∷ s) =
      let found = find_alphabetic (some c) second s in
      let rest = find_alphabetic none second s in if unicode.is_alphabetic c then found else rest
  find_alphabetic (some first) none (c ∷ s) =
      let found = find_alphabetic (some first) (some c) s in
      let rest = find_alphabetic (some first) none s in
      if unicode.is_alphabetic c then found else rest
  find_alphabetic (some first) (some second) (c ∷ s) =
      let rest = find_alphabetic (some first) (some second) s in
      if unicode.is_alphabetic c then (some first, some second) else rest

  abbrev pub capitalized : Option UpperCasingStyle → CasingStyle
  capitalized (some UpperCasingStyle.capitalize_words) = CasingStyle.capitalize_words
  capitalized _ = CasingStyle.capitalize

  abbrev pub one_upper : Option UpperCasingStyle → CasingStyle
  one_upper (some UpperCasingStyle.capitalize) = CasingStyle.capitalize
  one_upper (some UpperCasingStyle.capitalize_words) = CasingStyle.capitalize_words
  one_upper _ = CasingStyle.uppercase

  abbrev pub style_of : Option UpperCasingStyle → Option ℕ × Option ℕ → CasingStyle
  style_of style (none, second) = CasingStyle.unchanged
  style_of style (some first, none) =
      if unicode.is_uppercase first then one_upper style else CasingStyle.unchanged
  style_of style (some first, some second) =
      if unicode.is_uppercase first
      then if unicode.is_uppercase second then CasingStyle.uppercase else capitalized style
      else CasingStyle.unchanged

  unfoldable pub calculate_casing_style : Text → Option UpperCasingStyle → CasingStyle
  calculate_casing_style trigger style = style_of style (find_alphabetic none none trigger)

  abbrev pub first_two : Text → Option ℕ × Option ℕ
  first_two [] = (none, none)
  first_two (c ∷ []) = (some c, none)
  first_two (c ∷ d ∷ s) = (some c, some d)

  abbrev letters : Text → Text
  letters s = filter unicode.is_alphabetic s

  find_both : (c d : ℕ) (s : Text) → find_alphabetic (some c) (some d) s ≡ (some c, some d)
  unfolding find_alphabetic
  find_both c d [] = refl
  find_both c d (x ∷ s) = ground (arith, find_both c d s)

  find_second : (c : ℕ) (s : Text) → find_alphabetic (some c) none s ≡ first_two (c ∷ letters s)
  unfolding find_alphabetic
  find_second c [] = refl
  find_second c (x ∷ s) = ground (arith, find_both c x s, find_second c s)

  find_first : (s : Text) → find_alphabetic none none s ≡ first_two (letters s)
  unfolding find_alphabetic
  find_first [] = refl
  find_first (x ∷ s) = ground (arith, find_second x s, find_first s)

  -- The style depends only on the first two letters of the trigger: what stands between and around
  -- them does not count.
  pub calculate_casing_style-letters :
      (trigger : Text) (style : Option UpperCasingStyle)
      → calculate_casing_style trigger style
        ≡ style_of style (first_two (filter unicode.is_alphabetic trigger))
  unfolding calculate_casing_style
  calculate_casing_style-letters trigger style = ground (arith, find_first trigger)
