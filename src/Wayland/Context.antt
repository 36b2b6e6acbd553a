-- ===== src/Wayland/Context.antt =====
-- crates/shinran_wayland/src/input_context.rs: the state of a seat and its keys. The objects of
-- `xkbcommon` are what the client asks of them, the back end is a parameter, and the requests to the
-- compositor are logged. A `u32` is a number below 2 ^ 32, a `Duration` its milliseconds.
use shinran.Prelude.{
  ◌≡◌, refl, arith, ℕ, zero, suc, ◌+◌, ◌-◌, ◌/◌, ◌%◌, ◌^◌, Text, Bool, true, false, Option, none,
  some, List, [], ◌∷◌, ◌++◌, length, ltb, nat_eq, if◌then◌else◌, Answer, answer, refused, crashed,
  unending, ◌||◌, ◌&&◌,
}

-- How a handler ends. `endless`: the back end does not return.
pub data Outcome (A : Type 0) : Type 0 where
  completed : A → Outcome A
  panicked endless : Outcome A

infixl 5 ◌then_do◌
abbrev pub ◌then_do◌ : {A B : Type 0} → Outcome A → (A → Outcome B) → Outcome B
completed a then_do f = f a
panicked then_do f = panicked
endless then_do f = endless

pub then_do-completed :
    {A B : Type 0} (m : Outcome A) (f : A → Outcome B) {b : B}
    → m then_do f ≡ completed b
    → (a : A) × (m ≡ completed a) × (f a ≡ completed b)
then_do-completed (completed a) f e = (a, refl, e)
then_do-completed panicked f e = ground (arith, e)
then_do-completed endless f e = ground (arith, e)

abbrev pub u32_mod : ℕ
u32_mod = 2 ^ 32

-- `Keycode::default()`
abbrev pub default_keycode : ℕ
default_keycode = 0

-- The symbols that `handle_key` matches on.
pub data Keysym : Type 0 where
  escape return_ kp_space space other : Keysym

pub record XkbState : Type 0 where
  pub key_get_one_sym : ℕ → Keysym
  pub key_get_utf32 : ℕ → ℕ

pub record Keymap : Type 0 where
  pub key_repeats : ℕ → Bool

pub data KeyState : Type 0 where
  released pressed : KeyState

-- What is sent to the compositor: to the input method, the virtual keyboard and the grab.
pub data Request : Type 0 where
  set_preedit_string : (text : Text) (cursor_begin cursor_end : ℕ) → Request
  commit_string : Text → Request
  commit : (serial : ℕ) → Request
  key : (time key : ℕ) → KeyState → Request
  modifiers : (depressed latched locked group : ℕ) → Request
  keymap : (format fd size : ℕ) → Request
  grab_keyboard : Request
  release_grab : Request

pub record RepeatTimer : Type 0 where
  pub keycode : ℕ
  pub timestamp : ℕ
  pub registration : ℕ

-- `sent` holds the requests, the last first.
pub record InputContext : Type 0 where
  pub seat_id : ℕ
  pub seat_name : Option Text
  pub keyboard_grab : Bool
  pub xkb_keymap : Option Keymap
  pub xkb_state : Option XkbState
  pub pending_activate : Bool
  pub pending_deactivate : Bool
  pub num_done_events : ℕ
  pub repeat_rate : Option ℕ
  pub repeat_delay : Option ℕ
  pub pressed : List ℕ
  pub repeat_timer : Option RepeatTimer
  pub buffer : Option Text
  pub sent : List Request

abbrev pub slots : ℕ → List ℕ
slots zero = []
slots (suc n) = default_keycode ∷ slots n

unfoldable pub new : ℕ → InputContext
new seat_id = record {
  seat_id = seat_id;
  seat_name = none;
  keyboard_grab = false;
  xkb_keymap = none;
  xkb_state = none;
  pending_activate = false;
  pending_deactivate = false;
  num_done_events = 0;
  repeat_rate = none;
  repeat_delay = none;
  pressed = slots 64;
  repeat_timer = none;
  buffer = none;
  sent = [];
}

abbrev pub send : Request → InputContext → InputContext
send request c = record c { sent = request ∷ c.sent }

unfoldable pub append : ℕ → InputContext → InputContext
append ch c = elim c.buffer [
  | some preedit_str ↦ record c { buffer = some (preedit_str ++ ch ∷ []) }
  | none ↦ record c { buffer = some (ch ∷ []) }
]

-- The loop of `mark_as_pressed` over the slots.
unfoldable pub mark_slot : ℕ → List ℕ → List ℕ
mark_slot keycode [] = []
mark_slot keycode (code ∷ rest) =
    let later = mark_slot keycode rest in
    if nat_eq code default_keycode then keycode ∷ rest else code ∷ later

unfoldable pub mark_as_pressed : ℕ → InputContext → InputContext
mark_as_pressed keycode c = record c { pressed = mark_slot keycode c.pressed }

-- The loop of `release_if_pressed`, with whether it found the key.
unfoldable pub release_slot : ℕ → List ℕ → List ℕ × Bool
release_slot keycode [] = ([], false)
release_slot keycode (code ∷ rest) =
    let later = release_slot keycode rest in
    if nat_eq code keycode then (default_keycode ∷ rest, true) else (code ∷ later.0, later.1)

unfoldable pub release_if_pressed : ℕ → InputContext → InputContext × Bool
release_if_pressed keycode c =
    let found = release_slot keycode c.pressed in (record c { pressed = found.0 }, found.1)

-- `text.chars().count() as i32`, as the number of its 32 bits
unfoldable pub composing_update : Text → InputContext → InputContext
composing_update text c =
    let cursor_end = length text % u32_mod in
    send (commit c.num_done_events) (send (set_preedit_string text cursor_end cursor_end) c)

unfoldable pub composing_commit : Text → InputContext → InputContext
composing_commit output c = send (commit c.num_done_events) (send (commit_string output) c)

-- `char::from_u32`
abbrev pub from_u32 : ℕ → Option ℕ
from_u32 n = if ltb n 55296 || (ltb 57343 n && ltb n 1114112) then some n else none

-- The last arm of the `match`: whether the key was handled, and the context.
unfoldable pub append_key : Option ℕ → InputContext → InputContext × Option Bool
append_key none c = (c, some false)
append_key (some ch) c =
    if ltb ch 128
    then if nat_eq ch 0 then (c, some false) else (append ch c, some true)
    else (c, some false)

-- After the `match`
unfoldable pub show_buffer : InputContext → InputContext
show_buffer c = elim c.buffer [ some text ↦ composing_update text c | none ↦ c ]

-- The answer of `check_trigger`, unwrapped
unfoldable pub send_output :
    {E : Type 0} → Answer E (Option Text) → InputContext → Outcome (InputContext × Option Bool)
send_output (answer (some output)) c =
    completed (record (composing_commit output c) { buffer = none }, none)
send_output (answer none) c = completed (record (composing_update [] c) { buffer = none }, none)
send_output (refused e) c = panicked
send_output crashed c = panicked
send_output unending c = endless

-- The time stamp of the next repetition: `1000 / rate` panics for the rate zero.
unfoldable pub next_timestamp : ℕ → RepeatTimer → Option RepeatTimer
next_timestamp rate repeating =
    if nat_eq rate 0
    then none
    else some (record repeating { timestamp = (repeating.timestamp + 1000 / rate) % u32_mod })

-- What follows `handle_key` in `repeat_key`; the flag says whether the timer goes on.
unfoldable pub after_repeat : ℕ → ℕ → InputContext × Option Bool → Outcome (InputContext × Bool)
after_repeat time keycode (c, some false) =
    let key_number = (keycode + (u32_mod - 8)) % u32_mod in
    completed (record (send (key time key_number pressed) c) { repeat_timer = none }, false)
after_repeat time keycode (c, handled) = completed (c, true)

module _ {E : Type 0} (check_trigger : Text → Answer E (Option Text)) where
  unfoldable pub press_return : InputContext → Outcome (InputContext × Option Bool)
  press_return c = elim c.buffer [
    | some buffer ↦ send_output (check_trigger buffer) c
    | none ↦ completed (c, none)
  ]

  unfoldable pub handle_sym :
      Keysym → XkbState → ℕ → InputContext → Outcome (InputContext × Option Bool)
  handle_sym escape xkb_state xkb_key c = completed (composing_update [] c, none)
  handle_sym return_ xkb_state xkb_key c = press_return c
  handle_sym kp_space xkb_state xkb_key c = completed (c, some false)
  handle_sym space xkb_state xkb_key c = completed (c, some false)
  handle_sym other xkb_state xkb_key c =
      let handled = append_key (from_u32 (xkb_state.key_get_utf32 xkb_key)) c in
      completed (show_buffer handled.0, handled.1)

  -- With whether the key was handled; `none`: the program winds down.
  unfoldable pub handle_key : ℕ → InputContext → Outcome (InputContext × Option Bool)
  handle_key xkb_key c = elim c.xkb_state [
    | none ↦ panicked
    | some xkb_state ↦ handle_sym (xkb_state.key_get_one_sym xkb_key) xkb_state xkb_key c
  ]

  -- `repeating` is the timer as it was, `next` as it is stored.
  unfoldable pub repeat_with :
      RepeatTimer → Option RepeatTimer → InputContext → Outcome (InputContext × Bool)
  repeat_with repeating none c = panicked
  repeat_with repeating (some next) c =
      handle_key repeating.keycode (record c { repeat_timer = some next })
      then_do after_repeat repeating.timestamp repeating.keycode

  unfoldable pub repeat_set :
      Option ℕ → Option RepeatTimer → InputContext → Outcome (InputContext × Bool)
  repeat_set (some repeat_rate) (some repeating) c =
      repeat_with repeating (next_timestamp (repeat_rate % u32_mod) repeating) c
  repeat_set _ _ c = panicked

  unfoldable pub repeat_key : InputContext → Outcome (InputContext × Bool)
  repeat_key c = repeat_set c.repeat_rate c.repeat_timer c
