-- ===== src/Wayland/Seat/Kept.antt =====
-- What `handle_key` of crates/shinran_wayland/src/input_context.rs leaves as it is, and what it means that
-- an event has nothing to do with a key.
use shinran.Prelude.{
  ℕ, suc, ◌+◌, ◌%◌, ◌≡◌, refl, Bool, true, false, Option, none, some, List, [], ◌∷◌, Text, ◌&&◌,
  nat_eq, if◌then◌else◌, arith, Answer,
}
use shinran.Wayland.Context.{
  completed, u32_mod, KeyState, released, pressed, Request, InputContext, RepeatTimer, handle_key,
  handle_sym, press_return, send_output, append_key, show_buffer, composing_update,
  composing_commit, append,
}
use shinran.Wayland.Seat.{Event, key_event, done}
use shinran.Wayland.Seat.Held.{count}

abbrev pub state_eq : KeyState → KeyState → Bool
state_eq released released = true
state_eq pressed pressed = true
state_eq _ _ = false

abbrev pub is_key : ℕ → KeyState → Request → Bool
is_key number key_state (Request.key time number' key_state') =
    nat_eq number' number && state_eq key_state' key_state
is_key number key_state _ = false

-- How often a key was forwarded in a state.
unfoldable pub forwarded : ℕ → KeyState → List Request → ℕ
forwarded number key_state [] = 0
forwarded number key_state (request ∷ rest) =
    let later = forwarded number key_state rest in
    if is_key number key_state request then suc later else later

-- What `handle_key` leaves as it is.
pub record Keeps (c c' : InputContext) : Type 0 where
  pub pressed : c'.pressed ≡ c.pressed
  pub repeat_timer : c'.repeat_timer ≡ c.repeat_timer
  pub xkb_state : c'.xkb_state ≡ c.xkb_state
  pub xkb_keymap : c'.xkb_keymap ≡ c.xkb_keymap
  pub repeat_delay : c'.repeat_delay ≡ c.repeat_delay
  pub forwarded :
      (number : ℕ) (key_state : KeyState)
      → forwarded number key_state c'.sent ≡ forwarded number key_state c.sent

module _ {E : Type 0} (check_trigger : Text → Answer E (Option Text)) where
  pub handle_key-Keeps :
      (k : ℕ) (c c' : InputContext) (handled : Option Bool)
      → handle_key check_trigger k c ≡ completed (c', handled)
      → Keeps c c'
  unfolding handle_key handle_sym press_return send_output append_key show_buffer composing_update
      composing_commit append forwarded
  handle_key-Keeps k c c' handled h = ground arith

abbrev pub keycode_of : ℕ → ℕ
keycode_of number = (number + 8) % u32_mod

-- Whether an event is one of the key, or may let go of the keyboard.
abbrev pub is_about : ℕ → Event → Bool
is_about number (key_event time number' key_state) = nat_eq (keycode_of number') (keycode_of number)
is_about number done = true
is_about number _ = false

abbrev pub repeats : ℕ → Option RepeatTimer → Bool
repeats keycode none = false
repeats keycode (some timer) = nat_eq timer.keycode keycode

abbrev pub is_some : {A : Type 0} → Option A → Bool
is_some none = false
is_some (some a) = true

-- What an event that is not about a key does to it.
pub record Unheard (k : ℕ) (c c' : InputContext) : Type 0 where
  pub held : count k c'.pressed ≡ count k c.pressed
  pub timer : repeats k c'.repeat_timer ≡ true → repeats k c.repeat_timer ≡ true
  pub has_state : is_some c.xkb_state ≡ true → is_some c'.xkb_state ≡ true

pub Unheard-refl : (k : ℕ) (c : InputContext) → Unheard k c c
Unheard-refl k c = record { held = refl; timer = λ h. h; has_state = λ h. h }

pub Unheard-trans : (k : ℕ) (a b c : InputContext) → Unheard k a b → Unheard k b c → Unheard k a c
Unheard-trans k a b c p q = ground (arith, p, q)

pub Unheard-Keeps : (k : ℕ) (c c' : InputContext) → Keeps c c' → Unheard k c c'
Unheard-Keeps k c c' h = ground (arith, h.pressed, h.repeat_timer, h.xkb_state)
