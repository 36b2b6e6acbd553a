-- ===== src/Wayland/Tests.antt =====
-- Runs of the client of crates/shinran_wayland on concrete seats.
use shinran.Prelude.{
  ℕ, suc, ◌≡◌, refl, true, false, not, none, some, List, [], ◌∷◌, answer, nat_eq, if◌then◌else◌,
  inr, nat_key, contains, arith, ◌+◌,
}
use shinran.Wayland.Context.{
  Outcome, completed, panicked, XkbState, Keymap, Keysym, return_, space, other, new, pressed,
  released, handle_key, show_buffer, append, append_key, composing_update, mark_as_pressed,
  handle_sym, mark_slot, release_slot, release_if_pressed, press_return, send_output,
}
use shinran.Wayland.Seat.{
  Seat, Event, Host, key_event, activate, timer_fires, step, run, on_key, press_or_release, press,
  press_with, press_fresh, press_first, start_repeating, press_over, release, release_key,
  stop_repeating, forward,
}
use shinran.Wayland.Seat.Held.{count}
use shinran.Wayland.Seat.Kept.{forwarded}
use shinran.Wayland.Seat.Release.{release_follows_press}
use shinran.Wayland.Seat.Stuck.{repeated_press_is_stuck}
use shinran.Wayland.Seat.{modifiers_event, update_modifiers, fire, keep_or_drop}
use shinran.Wayland.Context.{repeat_key, repeat_set, repeat_with, next_timestamp, after_repeat}
use shinran.Wayland.Seat.Repeat.{unrepeated_press_panics, press-WindsDown}

-- The key 28 is Return, 57 is Space; every other key types an `a`.
abbrev symbol : ℕ → Keysym
symbol k = if nat_eq k 36 then return_ else if nat_eq k 65 then space else other

abbrev pub letters : XkbState
letters = record { key_get_one_sym = symbol; key_get_utf32 = λ k. 97 }

-- Every key repeats but the key 29.
abbrev pub layout : Keymap
layout = record { key_repeats = λ k. not (nat_eq k 37) }

abbrev pub silent : Host ℕ
silent = record {
  check_trigger = λ text. answer none;
  update_mask = λ s a b c d. s;
  new_from_fd = λ fd size. none;
  new_state = λ m. letters;
}

abbrev seat : Seat
unfolding new
seat = record {
  context = record (new 7) {
    keyboard_grab = true;
    xkb_keymap = some layout;
    xkb_state = some letters;
    repeat_rate = some 25;
    repeat_delay = some 600;
  };
  running = true;
  timers = [];
  next_token = 0;
}

abbrev after : Outcome Seat → Seat
after (completed s) = s
after _ = seat

abbrev run_on : List Event → Seat → Seat
unfolding run
run_on events s = after (run silent events s)

-- After a press of the key 30: the modifiers, a repetition of the key, a space that is passed on.
abbrev between : List Event
between =
    modifiers_event 1 0 0 0
    ∷ timer_fires 0
    ∷ key_event 20 57 (some pressed)
    ∷ key_event 30 57 (some released)
    ∷ activate
    ∷ []

release_follows_press_example :
    (s3 : Seat) × (step silent
        (key_event 40 30 (some released))
        (run_on (key_event 10 30 (some pressed) ∷ between) seat)
      ≡ completed s3)
    × (forwarded 30 released s3.context.sent + forwarded 30 pressed seat.context.sent
        ≡ forwarded 30 released seat.context.sent + forwarded 30 pressed s3.context.sent)
unfolding run seat step on_key press_or_release press handle_key handle_sym press_with press_fresh
    append_key press_first show_buffer append composing_update start_repeating release release_key
    release_if_pressed release_slot mark_as_pressed mark_slot forward stop_repeating count new
    run_on press_over update_modifiers fire contains repeat_key repeat_set repeat_with
    next_timestamp after_repeat keep_or_drop
release_follows_press_example =
    release_follows_press silent 10 40 30 between seat
      (run_on (key_event 10 30 (some pressed) ∷ []) seat)
      (run_on (key_event 10 30 (some pressed) ∷ between) seat) (ground arith) refl (ground arith)
      (ground arith) (refl, refl) tt refl refl
      ((λ xkb_state. refl), (refl, (refl, (refl, (refl, tt))))) refl

-- With a modifier the key 30 is an `é`.
abbrev accented : XkbState
accented = record { key_get_one_sym = λ k. other; key_get_utf32 = λ k. 233 }

abbrev held : Seat
unfolding seat mark_as_pressed mark_slot new
held = record seat {
  context = record (mark_as_pressed 38 seat.context) {
    xkb_state = some accented;
    repeat_timer = some (record { keycode = 38; timestamp = 610; registration = 0 });
  };
  timers = 0 ∷ [];
  next_token = 1;
}

repeated_press_is_stuck_example :
    (s1 s2 : Seat) × (step silent (timer_fires 0) held ≡ completed s1)
    × (step silent (key_event 40 30 (some released)) s1 ≡ completed s2)
    × (forwarded 30 pressed s2.context.sent ≡ suc (forwarded 30 pressed held.context.sent))
    × (forwarded 30 released s2.context.sent ≡ forwarded 30 released held.context.sent)
unfolding held seat mark_as_pressed mark_slot new count contains
repeated_press_is_stuck_example =
    repeated_press_is_stuck silent 0 40 30 25 held
      (record { keycode = 38; timestamp = 610; registration = 0 }) (ground arith) refl refl refl
      refl (ground arith) (ground arith) refl

-- The key 30 repeats when the key 29 is pressed.
unrepeated_press_panics_example :
    (s' : Seat) × (step silent
        (key_event 50 29 (some pressed))
        (run_on (key_event 10 30 (some pressed) ∷ []) seat)
      ≡ completed s')
    × (step silent (timer_fires 0) s' ≡ panicked)
unfolding run seat step on_key press_or_release press handle_key handle_sym press_with press_fresh
    append_key press_first show_buffer append composing_update start_repeating release release_key
    release_if_pressed release_slot mark_as_pressed mark_slot forward stop_repeating count new
    run_on press_over contains
unrepeated_press_panics_example =
    unrepeated_press_panics silent 50 29 (run_on (key_event 10 30 (some pressed) ∷ []) seat) _
      (record { keycode = 38; timestamp = 610; registration = 0 }) letters layout refl refl refl
      refl refl refl refl

-- Return after an `a`
press-WindsDown_example :
    (s' : Seat) × (step silent
        (key_event 50 28 (some pressed))
        (run_on (key_event 10 30 (some pressed) ∷ []) seat)
      ≡ completed s')
    × (s'.running ≡ false)
unfolding run seat step on_key press_or_release press handle_key handle_sym press_with press_fresh
    append_key press_first show_buffer append composing_update start_repeating release release_key
    release_if_pressed release_slot mark_as_pressed mark_slot forward stop_repeating count new
    run_on press_over press_return send_output
press-WindsDown_example =
    press-WindsDown silent 50 28 600 (run_on (key_event 10 30 (some pressed) ∷ []) seat) letters
      layout refl refl refl (inr (refl, λ text h. (none, refl)))
