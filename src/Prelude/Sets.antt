-- ===== src/Prelude/Sets.antt =====
-- `HashSet` as a list of its members without repetition. The order of the list stands for the
-- order of iteration, which Rust leaves open.
use mathlib.Core.Path.{◌≡◌, refl}
use mathlib.Core.Bool.{Bool, false, ◌||◌}
use mathlib.Core.List.{List, [], ◌∷◌, ◌++◌}
use native.Mathlib.Omega.{arith}
use shinran.Prelude.Tests.{if◌then◌else◌}
use shinran.Prelude.Keys.{Key, ◌==◌, key_iff}

module _ {A : Type 0} ⦃e : Key A⦄ where
  unfoldable pub contains : List A → A → Bool
  contains [] a = false
  contains (x ∷ xs) a = x == a || contains xs a

  -- `HashSet::insert`
  unfoldable pub insert : A → List A → List A
  unfolding contains
  insert a xs = if contains xs a then xs else xs ++ a ∷ []

  -- `HashSet::extend`
  unfoldable pub extend : List A → List A → List A
  unfolding insert
  extend [] xs = xs
  extend (a ∷ new) xs = extend new (insert a xs)

  pub contains-append :
      (xs ys : List A) (a : A) → contains (xs ++ ys) a ≡ (contains xs a || contains ys a)
  unfolding contains
  contains-append [] ys a = refl
  contains-append (x ∷ xs) ys a = ground (arith, contains-append xs ys a)

  pub contains-insert :
      (a b : A) (xs : List A) → contains (insert a xs) b ≡ (a == b || contains xs b)
  unfolding insert contains
  contains-insert a b xs =
      ground (arith, contains-append xs (a ∷ []) b, key_iff a b, contains_eq a b xs)
    where
      contains_eq : (a b : A) (xs : List A) → a ≡ b → contains xs a ≡ contains xs b
      contains_eq a b xs h = cc

  pub contains-extend :
      (new xs : List A) (b : A) → contains (extend new xs) b ≡ (contains new b || contains xs b)
  unfolding extend
  contains-extend [] xs b = unfold contains in refl
  contains-extend (a ∷ new) xs b =
      unfold contains in ground (arith, contains-extend new (insert a xs) b, contains-insert a b xs)
