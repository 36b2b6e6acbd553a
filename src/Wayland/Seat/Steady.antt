-- ===== src/Wayland/Seat/Steady.antt =====
-- When the client of crates/shinran_wayland (src/main.rs and src/input_context.rs) passes nothing of a key
-- on to the virtual keyboard while other events happen.
use shinran.Prelude.{
  ℕ, ◌+◌, ◌%◌, ◌<◌, ◌≡◌, refl, ◌∙◌, ◌≢◌, Bool, true, false, not, ◌&&◌, ◌||◌, ltb, nat_eq, Option,
  none, some, Text, Answer, arith,
}
use shinran.Wayland.Context.{
  completed, u32_mod, pressed, released, InputContext, XkbState, Keysym, escape, return_, kp_space,
  space, other, from_u32, RepeatTimer, handle_key, handle_sym, press_return, send_output,
  append_key, show_buffer, append,
}
use shinran.Wayland.Seat.{Event, Host, modifiers_event, keymap_event}
use shinran.Wayland.Seat.Kept.{forwarded, keycode_of, is_about}

-- Whether a character is no text for the input method.
abbrev pub passes_char : Option ℕ → Bool
passes_char none = true
passes_char (some ch) = not (ltb ch 128) || nat_eq ch 0

abbrev pub passes_sym : Keysym → Option ℕ → Bool
passes_sym escape ch = false
passes_sym return_ ch = false
passes_sym kp_space ch = true
passes_sym space ch = true
passes_sym other ch = passes_char ch

-- Whether the input method leaves a key to the virtual keyboard.
abbrev pub passes : ℕ → Option XkbState → Bool
passes k none = false
passes k (some xkb_state) =
    passes_sym (xkb_state.key_get_one_sym k) (from_u32 (xkb_state.key_get_utf32 k))

module _ {E : Type 0} (check_trigger : Text → Answer E (Option Text)) where
  pub handle_key-passes :
      (k : ℕ) (c c' : InputContext) (handled : Bool)
      → handle_key check_trigger k c ≡ completed (c', some handled)
      → passes k c.xkb_state ≡ not handled
  unfolding handle_key handle_sym press_return send_output append_key show_buffer append
  handle_key-passes k c c' handled h = ground arith

-- The timer repeats a key of 32 bits, and not the key `k` if that is passed on.
abbrev pub timer_quiet : ℕ → Option XkbState → Option RepeatTimer → Bool
timer_quiet k xkb_state none = true
timer_quiet k xkb_state (some timer) =
    ltb timer.keycode u32_mod && (not (nat_eq timer.keycode k) || not (passes k xkb_state))

abbrev pub is_quiet : ℕ → InputContext → Bool
is_quiet number c = timer_quiet (keycode_of number) c.xkb_state c.repeat_timer

-- Nothing of the key goes to the virtual keyboard.
pub record Quiet (number : ℕ) (c c' : InputContext) : Type 0 where
  pub passes : passes (keycode_of number) c'.xkb_state ≡ passes (keycode_of number) c.xkb_state
  pub quiet : is_quiet number c' ≡ true
  pub no_press : forwarded number pressed c'.sent ≡ forwarded number pressed c.sent
  pub no_release : forwarded number released c'.sent ≡ forwarded number released c.sent

pub Quiet-refl : (number : ℕ) (c : InputContext) → is_quiet number c ≡ true → Quiet number c c
Quiet-refl number c q = record { passes = refl; quiet = q; no_press = refl; no_release = refl }

pub Quiet-trans :
    (number : ℕ) (a b c : InputContext) → Quiet number a b → Quiet number b c → Quiet number a c
Quiet-trans number a b c p q = record {
  passes = q.passes ∙ p.passes;
  quiet = q.quiet;
  no_press = q.no_press ∙ p.no_press;
  no_release = q.no_release ∙ p.no_release;
}

pub keycode_of-lt : (number : ℕ) → keycode_of number < u32_mod
keycode_of-lt number = omega arith

-- `key_number` of `repeat_key` is that of the key.
pub repeated_number :
    (number c : ℕ)
    → number < u32_mod
    → c < u32_mod
    → c ≢ keycode_of number
    → (c + 4294967288) % u32_mod ≢ number
repeated_number number c h l n e = n (omega (arith, h, l, e))

module _ {E : Type 0} (host : Host E) where
  -- An event that is not one of the key, lets go of no keyboard, loads no keymap, and after which the
  -- key is passed on or not as before.
  abbrev pub IsSteady : ℕ → Event → Type 0
  IsSteady number (modifiers_event depressed latched locked group) =
      (xkb_state : XkbState)
      → passes (keycode_of number)
          (some (host.update_mask xkb_state depressed latched locked group))
        ≡ passes (keycode_of number) (some xkb_state)
  IsSteady number (keymap_event format fd size) = true ≡ false
  IsSteady number event = is_about number event ≡ false
