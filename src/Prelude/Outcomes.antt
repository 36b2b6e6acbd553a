-- ===== src/Prelude/Outcomes.antt =====
-- The outcome of code that may fail, may recurse without end, or may panic.
use mathlib.Core.Option.{Option, none, some}
use mathlib.Core.Path.{◌≡◌, refl}

-- `Option::or`
abbrev pub or_else {ℓ} : {A : Type ℓ} → Option A → Option A → Option A
or_else (some x) y = some x
or_else none y = y

pub or_else_assoc :
    {A : Type 0} (x y z : Option A) → or_else (or_else x y) z ≡ or_else x (or_else y z)
or_else_assoc none y z = refl
or_else_assoc (some x) y z = refl

pub or_else-none : {A : Type 0} (x : Option A) → or_else x none ≡ x
or_else-none none = refl
or_else-none (some x) = refl

-- `Option::unwrap_or`
abbrev pub unwrap_or {ℓ} : {A : Type ℓ} → Option A → A → A
unwrap_or (some x) y = x
unwrap_or none y = y

-- `out_of_fuel`: the recursion went deeper than the fuel of the model. Only `ok` and `err` are
-- values of the program.
pub data Run (E A : Type 0) : Type 0 where
  ok : A → Run E A
  err : E → Run E A
  out_of_fuel : Run E A

infixl 5 ◌>>=◌
abbrev pub ◌>>=◌ : {E A B : Type 0} → Run E A → (A → Run E B) → Run E B
ok a >>= f = f a
err x >>= f = err x
out_of_fuel >>= f = out_of_fuel

-- What a call of the back end comes to: a value, the error it returns, its panic, or (`unending`) a
-- recursion deeper than the fuel of the model.
pub data Answer (E A : Type 0) : Type 0 where
  answer : A → Answer E A
  refused : E → Answer E A
  crashed : Answer E A
  unending : Answer E A

-- `Result`
pub data Result (E A : Type 0) : Type 0 where
  success : A → Result E A
  failure : E → Result E A

infixl 5 ◌and_then◌
abbrev pub ◌and_then◌ : {E A B : Type 0} → Result E A → (A → Result E B) → Result E B
success a and_then f = f a
failure e and_then f = failure e

-- `Result::map_err`, and the context of an error
abbrev pub map_err : {E F A : Type 0} → (E → F) → Result E A → Result F A
map_err f (success a) = success a
map_err f (failure e) = failure (f e)
