-- ===== src/Ibus/Engine/Editor.antt =====
-- What the engine of crates/shinran_ibus/src/engine.rs is meant to do: it edits an ASCII text that is
-- split at the cursor.
use shinran.Prelude.{
  ℕ, ◌+◌, ◌^◌, ◌<◌, Text, Option, none, some, [], ◌∷◌, ◌≡◌, length, All, if◌then◌else◌,
}
use shinran.Ibus.Engine.{
  Signal, Keysym, return_, kp_enter, escape, back_space, delete, kp_delete, left, kp_left, right,
  kp_right, other, ShinranEngine, Outcome, completed, failed, panicked, endless, ◌then_do◌,
  is_accepted,
}

-- The characters before the cursor, the nearest first, those behind it, and the time of `enable`.
pub record Editor : Type 0 where
  pub before : Text
  pub after : Text
  pub started : ℕ

abbrev pub rev_onto : Text → Text → Text
rev_onto [] s = s
rev_onto (c ∷ b) s = rev_onto b (c ∷ s)

abbrev pub IsAscii : Text → Type 0
IsAscii s = All (λ c. c < 128) s

abbrev pub with_text : Text → Text → Editor → Editor
with_text b a d = record d { before = b; after = a }

abbrev pub erase : Text → Text → Editor → Editor
erase [] a d = d
erase (c ∷ b) a d = with_text b a d

abbrev pub erase_next : Text → Text → Editor → Editor
erase_next b [] d = d
erase_next b (c ∷ a) d = with_text b a d

abbrev pub go_left : Text → Text → Editor → Editor
go_left [] a d = d
go_left (c ∷ b) a d = with_text b (c ∷ a) d

abbrev pub go_right : Text → Text → Editor → Editor
go_right b [] d = d
go_right b (c ∷ a) d = with_text (c ∷ b) a d

abbrev pub insert_char : Option ℕ → Editor → Editor
insert_char none d = d
insert_char (some c) d = if is_accepted c then with_text (c ∷ d.before) d.after d else d

-- What a key is meant to do.
abbrev pub strike : Keysym → Editor → Editor
strike return_ d = with_text [] [] d
strike kp_enter d = with_text [] [] d
strike escape d = with_text [] [] d
strike back_space d = erase d.before d.after d
strike delete d = erase_next d.before d.after d
strike kp_delete d = erase_next d.before d.after d
strike left d = go_left d.before d.after d
strike kp_left d = go_left d.before d.after d
strike right d = go_right d.before d.after d
strike kp_right d = go_right d.before d.after d
strike (other key_char) d = insert_char key_char d

-- The engine holds the text of the editor, all of it ASCII, and its cursor.
pub record Represents (d : Editor) (e : ShinranEngine) : Type 0 where
  pub same : e.text ≡ rev_onto d.before d.after
  pub at : e.cursor_pos ≡ length d.before
  pub since : e.start_time ≡ d.started
  pub ascii_before : IsAscii d.before
  pub ascii_after : IsAscii d.after

-- The handler neither panics nor hangs, and the engine it leaves, with a signal sent or not, has `P`.
abbrev pub Ends : (ShinranEngine → Type 0) → Outcome → Type 0
Ends P (completed e) = P e
Ends P (failed e) = P e
Ends P panicked = ⊥
Ends P endless = ⊥

-- A text as long as this leaves room for one more character below the largest `i32`.
abbrev pub HasRoom : Editor → Type 0
HasRoom d = length d.before + length d.after + 1 < 2 ^ 31

pub Ends-then_do :
    {P : ShinranEngine → Type 0} (o : Outcome) (f : ShinranEngine → Outcome)
    → Ends P o
    → ((e : ShinranEngine) → P e → Ends P (f e))
    → Ends P (o then_do f)
Ends-then_do (completed e) f p q = q e p
Ends-then_do (failed e) f p q = p
Ends-then_do panicked f p q = elim p [ ]
Ends-then_do endless f p q = elim p [ ]

-- The symbol does not type a character outside ASCII.
abbrev pub TypesAscii : Keysym → Type 0
TypesAscii (other (some c)) = c < 128
TypesAscii return_ = Unit
TypesAscii kp_enter = Unit
TypesAscii escape = Unit
TypesAscii back_space = Unit
TypesAscii delete = Unit
TypesAscii kp_delete = Unit
TypesAscii left = Unit
TypesAscii kp_left = Unit
TypesAscii right = Unit
TypesAscii kp_right = Unit
TypesAscii (other none) = Unit

pub Represents-sent :
    (signal : Signal) (d : Editor) (e : ShinranEngine)
    → Represents d e
    → Represents d (record e { signals = signal ∷ e.signals })
Represents-sent signal d e r = record {
  same = r.same;
  at = r.at;
  since = r.since;
  ascii_before = r.ascii_before;
  ascii_after = r.ascii_after;
}
