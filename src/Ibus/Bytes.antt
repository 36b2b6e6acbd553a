-- ===== src/Ibus/Bytes.antt =====
-- `String` edited at a byte position, as crates/shinran_ibus/src/engine.rs uses the standard library:
-- a text is its characters, and a position counts the bytes of their UTF-8 encodings.
use shinran.Prelude.{ℕ, ◌+◌, ◌-◌, Text, Option, none, some, [], ◌∷◌, ltb, nat_eq, if◌then◌else◌}

-- `char::len_utf8`
abbrev pub len_utf8 : ℕ → ℕ
len_utf8 c = if ltb c 128 then 1 else if ltb c 2048 then 2 else if ltb c 65536 then 3 else 4

-- `String::len`
abbrev pub byte_len : Text → ℕ
byte_len [] = 0
byte_len (c ∷ s) = len_utf8 c + byte_len s

abbrev pub cons : ℕ → Option Text → Option Text
cons c none = none
cons c (some s) = some (c ∷ s)

-- `String::remove`: `none` is the panic past the end and inside a character.
abbrev pub remove_at : Text → ℕ → Option Text
remove_at [] i = none
remove_at (c ∷ s) i =
    let rest = remove_at s (i - len_utf8 c) in
    if nat_eq i 0 then some s else if ltb i (len_utf8 c) then none else cons c rest

-- `String::insert`: `none` is the panic past the end and inside a character.
abbrev pub insert_at : Text → ℕ → ℕ → Option Text
insert_at [] i x = if nat_eq i 0 then some (x ∷ []) else none
insert_at (c ∷ s) i x =
    let rest = insert_at s (i - len_utf8 c) x in
    if nat_eq i 0 then some (x ∷ c ∷ s) else if ltb i (len_utf8 c) then none else cons c rest
