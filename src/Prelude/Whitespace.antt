-- ===== src/Prelude/Whitespace.antt =====
-- `str::trim` and `str::lines`.
use Prim.Native.Nat.{ℕ}
use mathlib.Core.Bool.{Bool, true, false, ◌||◌, ◌&&◌}
use mathlib.Core.List.{List, [], ◌∷◌}
use shinran.Prelude.Tests.{leb, nat_eq, if◌then◌else◌}
use shinran.Prelude.Strings.{Text}

-- `char::is_whitespace`: the property White_Space of Unicode.
abbrev pub is_whitespace : ℕ → Bool
is_whitespace c =
    (leb 9 c && leb c 13)
    || nat_eq c 32
    || nat_eq c 133
    || nat_eq c 160
    || nat_eq c 5760
    || (leb 8192 c && leb c 8202)
    || nat_eq c 8232
    || nat_eq c 8233
    || nat_eq c 8239
    || nat_eq c 8287
    || nat_eq c 12288

unfoldable pub trim_start : Text → Text
trim_start [] = []
trim_start (c ∷ s) = let rest = trim_start s in if is_whitespace c then rest else c ∷ s

unfoldable pub trim_end : Text → Text
trim_end [] = []
trim_end (c ∷ s) = elim (trim_end s) [
  | [] ↦ if is_whitespace c then [] else c ∷ []
  | d ∷ t ↦ c ∷ d ∷ t
]

unfoldable pub trim : Text → Text
trim s = trim_end (trim_start s)

-- The line so far is given back to front; a line break may be preceded by a carriage return.
abbrev pub reverse_onto : Text → Text → Text
reverse_onto [] s = s
reverse_onto (c ∷ back) s = reverse_onto back (c ∷ s)

abbrev pub close_line : Text → Text
close_line [] = []
close_line (c ∷ back) = if nat_eq c 13 then reverse_onto back [] else reverse_onto (c ∷ back) []

-- The line that no line break ends: none if it is empty.
abbrev pub last_line : Text → List Text
last_line [] = []
last_line (c ∷ back) = reverse_onto (c ∷ back) [] ∷ []

unfoldable pub lines_from : Text → Text → List Text
lines_from back [] = last_line back
lines_from back (c ∷ s) = elim (nat_eq c 10) [
  | true ↦ close_line back ∷ lines_from [] s
  | false ↦ lines_from (c ∷ back) s
]

unfoldable pub lines : Text → List Text
lines s = lines_from [] s
