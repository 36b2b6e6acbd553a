-- ===== src/Wayland/Seat/Commit.antt =====
-- Return in the client of crates/shinran_wayland: what is sent for the text so far.
use shinran.Prelude.{
  ℕ, ◌≡◌, refl, ap, ◌∙◌, Bool, false, Option, none, some, List, ◌∷◌, Text, arith, answer,
}
use shinran.Wayland.Context.{
  Outcome, completed, panicked, endless, ◌then_do◌, XkbState, Keymap, return_, Request, commit,
  commit_string, pressed, InputContext, RepeatTimer, handle_key, handle_sym, send_output,
  composing_commit, mark_as_pressed,
}
use shinran.Wayland.Seat.{
  Seat, Host, key_event, step, press, press_with, press_fresh, press_first, start_repeating,
  press_over,
}
use shinran.Wayland.Seat.Kept.{keycode_of}
use shinran.Wayland.Seat.Repeat.{on_press, handle_key-sym, press_return-some}

-- Whether the client runs after an event, and what it has sent.
abbrev outcome_of : Outcome Seat → Option (Bool × List Request)
outcome_of (completed s) = some (s.running, s.context.sent)
outcome_of _ = none

outcome_of-completed :
    (o : Outcome Seat) (b : Bool) (sent : List Request)
    → outcome_of o ≡ some (b, sent)
    → (s : Seat) × (o ≡ completed s) × (s.running ≡ b) × (s.context.sent ≡ sent)
outcome_of-completed (completed s) b sent h = (s, refl, ground (arith, h), ground (arith, h))
outcome_of-completed panicked b sent h = ground (arith, h)
outcome_of-completed endless b sent h = ground (arith, h)

press_fresh-outcome :
    (time number k : ℕ) (s : Seat) (c : InputContext) (xkb_keymap : Keymap) (delay : ℕ)
    → c.xkb_keymap ≡ some xkb_keymap
    → c.repeat_delay ≡ some delay
    → outcome_of (press_fresh time number k s (c, none)) ≡ some (false, c.sent)
unfolding press_fresh press_first start_repeating mark_as_pressed
press_fresh-outcome time number k s c xkb_keymap delay m d = ground (arith, m, d)

press_with-outcome :
    (timer : Option RepeatTimer) (time number k : ℕ) (s : Seat) (c : InputContext)
    (xkb_keymap : Keymap) (delay : ℕ)
    → c.xkb_keymap ≡ some xkb_keymap
    → c.repeat_delay ≡ some delay
    → outcome_of (press_with timer time number k s (c, none)) ≡ some (false, c.sent)
unfolding press_with press_over
press_with-outcome none time number k s c xkb_keymap delay m d =
    press_fresh-outcome time number k s c xkb_keymap delay m d
press_with-outcome (some repeating) time number k s c xkb_keymap delay m d =
    ground (arith, press_fresh-outcome time number k s c xkb_keymap delay m d)

module _ {E : Type 0} (host : Host E) where
  -- The context after Return, where the back end has an output.
  abbrev committed : Text → InputContext → InputContext
  committed output c = record (composing_commit output c) { buffer = none }

  handle_key-return :
      (k : ℕ) (c : InputContext) (xkb_state : XkbState) (text output : Text)
      → c.xkb_state ≡ some xkb_state
      → xkb_state.key_get_one_sym k ≡ return_
      → c.buffer ≡ some text
      → host.check_trigger text ≡ answer (some output)
      → handle_key host.check_trigger k c ≡ completed (committed output c, none)
  unfolding handle_sym send_output
  handle_key-return k c xkb_state text output ready sym b a =
      handle_key-sym host k c xkb_state ready
      ∙ ap (λ x. handle_sym host.check_trigger x xkb_state k c) sym
      ∙ press_return-some host text c b
      ∙ ap (λ x. send_output x c) a

  pub press_return-commits :
      (time number delay : ℕ) (s : Seat) (xkb_state : XkbState) (xkb_keymap : Keymap)
      (text output : Text)
      → s.context.xkb_state ≡ some xkb_state
      → s.context.xkb_keymap ≡ some xkb_keymap
      → s.context.repeat_delay ≡ some delay
      → xkb_state.key_get_one_sym (keycode_of number) ≡ return_
      → s.context.buffer ≡ some text
      → host.check_trigger text ≡ answer (some output)
      → (s' : Seat) × (step host (key_event time number (some pressed)) s ≡ completed s')
        × (s'.running ≡ false)
        × (s'.context.sent
            ≡ commit s.context.num_done_events ∷ commit_string output ∷ s.context.sent)
  unfolding press composing_commit
  press_return-commits time number delay s xkb_state xkb_keymap text output ready m d sym b a =
      let k = keycode_of number in
      outcome_of-completed (step host (key_event time number (some pressed)) s) false _ (
        ap outcome_of (on_press host time number s xkb_state ready)
        ∙ ap (λ x. outcome_of (x then_do press_with s.context.repeat_timer time number k s))
            (handle_key-return k s.context xkb_state text output ready sym b a)
        ∙ press_with-outcome s.context.repeat_timer time number k s (committed output s.context)
            xkb_keymap delay m d)
