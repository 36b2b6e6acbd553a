-- ===== src/Wayland/Seat/QuietKeys.antt =====
-- The presses and releases of other keys in crates/shinran_wayland (src/main.rs) pass on nothing of a key.
use shinran.Prelude.{ℕ, ◌≡◌, ◌≢◌, Bool, true, Option, none, some, arith}
use shinran.Wayland.Context.{
  then_do-completed, completed, KeyState, pressed, released, InputContext, RepeatTimer, handle_key,
  mark_as_pressed, release_if_pressed,
}
use shinran.Wayland.Seat.{
  Seat, Host, on_key, press_or_release, press, press_with, press_fresh, press_first,
  start_repeating, press_over, repeat_instead, update_timer, release, release_key, stop_repeating,
  forward,
}
use shinran.Wayland.Seat.Kept.{forwarded, Keeps, handle_key-Keeps, keycode_of}
use shinran.Wayland.Seat.Steady.{is_quiet, Quiet, Quiet-refl, keycode_of-lt}

module _ {E : Type 0} (host : Host E) where
  release-Quiet :
      (time number' number : ℕ) (s : Seat)
      → is_quiet number s.context ≡ true
      → keycode_of number' ≢ keycode_of number
      → Quiet number s.context (release time number' (keycode_of number') s).context
  unfolding release release_key stop_repeating release_if_pressed forward forwarded
  release-Quiet time number' number s q n = ground (arith, q, n)

  press_fresh-Quiet :
      (time number' number : ℕ) (s s' : Seat) (p : InputContext × Option Bool)
      → is_quiet number s.context ≡ true
      → keycode_of number' ≢ keycode_of number
      → Keeps s.context p.0
      → press_fresh time number' (keycode_of number') s p ≡ completed s'
      → Quiet number s.context s'.context
  unfolding press_fresh press_first start_repeating forward mark_as_pressed forwarded
  press_fresh-Quiet time number' number s s' (c', handled) q n keeps e = ground (
    arith,
    q,
    n,
    keycode_of-lt number',
    keeps.repeat_timer,
    keeps.xkb_state,
    keeps.forwarded number pressed,
    keeps.forwarded number released,
    e,
  )

  press_over-Quiet :
      (repeating : RepeatTimer) (time number' number : ℕ) (s s' : Seat)
      (p : InputContext × Option Bool)
      → keycode_of number' ≢ keycode_of number
      → Keeps s.context p.0
      → press_over repeating time number' (keycode_of number') s p ≡ completed s'
      → is_quiet number s.context ≡ true
      → Quiet number s.context s'.context
  unfolding press_over repeat_instead update_timer forward mark_as_pressed forwarded
  press_over-Quiet repeating time number' number s s' (c', handled) n keeps e q = ground (
    arith,
    q,
    n,
    keycode_of-lt number',
    keeps.repeat_timer,
    keeps.xkb_state,
    keeps.forwarded number pressed,
    keeps.forwarded number released,
    e,
  )

  press_with-Quiet :
      (timer : Option RepeatTimer) (time number' number : ℕ) (s s' : Seat)
      (p : InputContext × Option Bool)
      → is_quiet number s.context ≡ true
      → keycode_of number' ≢ keycode_of number
      → Keeps s.context p.0
      → press_with timer time number' (keycode_of number') s p ≡ completed s'
      → Quiet number s.context s'.context
  unfolding press_with
  press_with-Quiet none time number' number s s' p q n keeps e =
      press_fresh-Quiet time number' number s s' p q n keeps e
  press_with-Quiet (some repeating) time number' number s s' p q n keeps e = ground (
    arith,
    press_fresh-Quiet time number' number s s' p q n keeps,
    press_over-Quiet repeating time number' number s s' p n keeps,
    q,
    e,
  )

  press-Quiet :
      (time number' number : ℕ) (s s' : Seat)
      → is_quiet number s.context ≡ true
      → keycode_of number' ≢ keycode_of number
      → press host time number' (keycode_of number') s ≡ completed s'
      → Quiet number s.context s'.context
  unfolding press
  press-Quiet time number' number s s' q n e =
      let c = keycode_of number' in
      let (p, called, after) =
        then_do-completed (handle_key host.check_trigger c s.context)
          (press_with s.context.repeat_timer time number' c s) e in
      press_with-Quiet s.context.repeat_timer time number' number s s' p q n
        (handle_key-Keeps host.check_trigger c s.context p.0 p.1 called) after

  pub on_key-Quiet :
      (time number' number : ℕ) (key_state : Option KeyState) (s s' : Seat)
      → is_quiet number s.context ≡ true
      → keycode_of number' ≢ keycode_of number
      → on_key host time number' key_state s ≡ completed s'
      → Quiet number s.context s'.context
  unfolding on_key press_or_release
  on_key-Quiet time number' number key_state s s' q n e = ground (
    arith,
    e,
    press-Quiet time number' number s s' q n,
    release-Quiet time number' number s q n,
    Quiet-refl number s.context q,
  )
