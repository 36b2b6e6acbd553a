-- ===== src/Ibus/Engine.antt =====
-- crates/shinran_ibus/src/engine.rs: the input-method engine, its text and its handlers. The bus, the
-- key symbols and the clock are parameters. A `u32` is a number below 2 ^ 32; an `i32` is shifted
-- up by 2 ^ 31, so that its arithmetic wraps as in a release build.
pub mod Editor
mod Positions
mod Handlers
mod Keys
pub mod Session
pub mod Faults
use shinran.Prelude.{
  ℕ, zero, suc, ◌+◌, ◌-◌, ◌/◌, ◌%◌, ◌^◌, Text, Bool, true, false, Option, none, some, List, [], ◌∷◌,
  ◌++◌, not, ◌&&◌, ◌||◌, length, take, ltb, leb, nat_eq, if◌then◌else◌, Answer, answer, refused,
  crashed, unending,
}
use shinran.Ibus.LookupTable.{IBusLookupTable, default_table, append_candidate, u32_mod}
use shinran.Ibus.Bytes.{byte_len, remove_at, insert_at}

-- The signals of `org.freedesktop.IBus.Engine` that the engine emits. The attribute of a preedit
-- text underlines its first `underlined` characters.
pub data Signal : Type 0 where
  update_preedit_text :
      (text : Text) (underlined cursor_pos : ℕ) (visible : Bool) (mode : ℕ) → Signal
  commit_text : Text → Signal
  forward_key_event : (keyval keycode state : ℕ) → Signal
  update_lookup_table : IBusLookupTable → (visible : Bool) → Signal

-- What the engine asks `xkeysym` of a key value: the symbols it matches on, and `key_char`.
pub data Keysym : Type 0 where
  return_ kp_enter escape back_space delete kp_delete left kp_left right kp_right : Keysym
  other : (key_char : Option ℕ) → Keysym

-- `done` counts the notifications of the event and `signals` holds what was emitted, the last first.
pub record ShinranEngine : Type 0 where
  pub done : ℕ
  pub text : Text
  pub cursor_pos : ℕ
  pub start_time : ℕ
  pub new_key_pressed : Bool
  pub signals : List Signal

-- How a handler ends: with its value (always `true` where there is one), with the error of a signal
-- that could not be emitted, or with a panic. `endless`: `check_trigger` does not return.
pub data Outcome : Type 0 where
  completed failed : ShinranEngine → Outcome
  panicked endless : Outcome

infixl 5 ◌then_do◌
abbrev pub ◌then_do◌ : Outcome → (ShinranEngine → Outcome) → Outcome
completed e then_do f = f e
failed e then_do f = failed e
panicked then_do f = panicked
endless then_do f = endless

abbrev pub release_mask : ℕ
release_mask = 2 ^ 30

abbrev pub i32_zero : ℕ
i32_zero = 2 ^ 31

-- `n as i32`
abbrev pub as_i32 : ℕ → ℕ
as_i32 n = (n + i32_zero) % u32_mod

-- `a + b`
abbrev pub i32_add : ℕ → ℕ → ℕ
i32_add a b = (a + b + i32_zero) % u32_mod

-- `x.clamp(lo, hi)`, which asserts `lo <= hi`
abbrev pub clamp : ℕ → ℕ → ℕ → Option ℕ
clamp lo hi x =
    if ltb hi lo then none else some (if ltb x lo then lo else if ltb hi x then hi else x)

-- `move_cursor`, with the offset as an `i32`
unfoldable pub move_cursor : ℕ → ShinranEngine → Outcome
move_cursor offset e =
    elim (clamp i32_zero (as_i32 (byte_len e.text)) (i32_add (as_i32 e.cursor_pos) offset)) [
      | none ↦ panicked
      | some pos ↦ completed (record e { cursor_pos = (pos + i32_zero) % u32_mod })
    ]

-- The characters `process_key_event` accepts: `is_ascii_graphic`, or U+00A0 to U+00FF.
abbrev pub is_accepted : ℕ → Bool
is_accepted c = (leb 33 c && leb c 126) || (leb 160 c && leb c 255)

abbrev pub is_empty : Text → Bool
is_empty [] = true
is_empty (c ∷ s) = false

abbrev pub append_candidates : List (Text × ℕ) → IBusLookupTable → IBusLookupTable
append_candidates [] table = table
append_candidates ((candidate, score) ∷ rest) table =
    append_candidates rest (append_candidate candidate table)

-- `exit`
abbrev pub exit : ShinranEngine → Outcome
exit e = completed (record e { done = e.done + 1 })

-- What the engine works with: `sends` says whether a signal can be emitted, `check_trigger` and
-- `fuzzy_match` are the back end's, and `keysym` is `Keysym::new`.
pub record Host (E : Type 0) : Type 0 where
  pub sends : Signal → Bool
  pub check_trigger : Text → Answer E (Option Text)
  pub fuzzy_match : Text → List (Text × ℕ)
  pub keysym : ℕ → Keysym

module _ {E : Type 0} (host : Host E) where
  abbrev pub send : Signal → ShinranEngine → Outcome
  send signal e =
      if host.sends signal then completed (record e { signals = signal ∷ e.signals }) else failed e

  abbrev pub send_candidates : List (Text × ℕ) → ShinranEngine → Outcome
  send_candidates [] e = completed e
  send_candidates (candidate ∷ rest) e =
      let table = append_candidates (take 5 (candidate ∷ rest)) default_table in
      send (update_lookup_table table true) e

  unfoldable pub update_text : ShinranEngine → Outcome
  update_text e =
      send
        (update_preedit_text e.text (length e.text % u32_mod) e.cursor_pos (not (is_empty e.text))
          0)
        e
      then_do send_candidates (host.fuzzy_match e.text)

  unfoldable pub clear_text : ShinranEngine → Outcome
  clear_text e = update_text (record e { text = []; cursor_pos = 0 })

  abbrev pub commit : Option Text → ShinranEngine → Outcome
  commit none e = completed e
  commit (some text) e = send (commit_text text) e

  -- `check_trigger(&self.text).unwrap()`, then the output committed
  abbrev pub expand : Answer E (Option Text) → ShinranEngine → Outcome
  expand (answer output) e = clear_text e then_do commit output
  expand (refused x) e = panicked
  expand crashed e = panicked
  expand unending e = endless

  unfoldable pub press_return : ShinranEngine → Outcome
  press_return e =
      (if is_empty e.text then completed e else expand (host.check_trigger e.text) e) then_do exit

  abbrev pub edit : Option Text → ℕ → ShinranEngine → Outcome
  edit none pos e = panicked
  edit (some text) pos e = update_text (record e { text = text; cursor_pos = pos })

  unfoldable pub press_back_space : ShinranEngine → Outcome
  press_back_space e =
      if nat_eq e.cursor_pos 0
      then completed e
      else edit (remove_at e.text (e.cursor_pos - 1)) (e.cursor_pos - 1) e

  unfoldable pub press_delete : ShinranEngine → Outcome
  press_delete e =
      if ltb e.cursor_pos (byte_len e.text)
      then edit (remove_at e.text e.cursor_pos) e.cursor_pos e
      else completed e

  unfoldable pub type_char : Option ℕ → ShinranEngine → Outcome
  type_char none e = completed e
  type_char (some character) e =
      if is_accepted character
      then edit
          (if ltb e.cursor_pos (byte_len e.text)
            then insert_at e.text e.cursor_pos character
            else some (e.text ++ character ∷ []))
          ((e.cursor_pos + 1) % u32_mod) e
      else completed e

  -- The `match` of `process_key_event`
  unfoldable pub press : Keysym → ShinranEngine → Outcome
  press return_ e = press_return e
  press kp_enter e = press_return e
  press escape e = clear_text e then_do exit
  press back_space e = press_back_space e
  press delete e = press_delete e
  press kp_delete e = press_delete e
  press left e = move_cursor (i32_zero - 1) e then_do update_text
  press kp_left e = move_cursor (i32_zero - 1) e then_do update_text
  press right e = move_cursor (i32_zero + 1) e then_do update_text
  press kp_right e = move_cursor (i32_zero + 1) e then_do update_text
  press (other key_char) e = type_char key_char e

  unfoldable pub process_key_event : (keyval keycode state : ℕ) → ShinranEngine → Outcome
  process_key_event keyval keycode state e =
      if nat_eq ((state / release_mask) % 2) 1
      then if e.new_key_pressed
        then completed e
        else send (forward_key_event keyval keycode state) e
      else press (host.keysym keyval) (record e { new_key_pressed = true })

  -- `elapsed` milliseconds since `start_time`
  unfoldable pub focus_out : (now : ℕ) → ShinranEngine → Outcome
  focus_out now e = if ltb (now - e.start_time) 250 then completed e else clear_text e then_do exit

  unfoldable pub reset : ShinranEngine → Outcome
  reset e = clear_text e then_do exit

unfoldable pub enable : (now : ℕ) → ShinranEngine → ShinranEngine
enable now e = record e { start_time = now }

unfoldable pub destroy : ShinranEngine → ShinranEngine
destroy e = record e { done = e.done + 1 }

-- `ShinranEngine::new`
abbrev pub new : (now : ℕ) → ShinranEngine
new now = record {
  done = 0;
  text = [];
  cursor_pos = 0;
  start_time = now;
  new_key_pressed = false;
  signals = [];
}
