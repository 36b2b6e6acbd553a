-- ===== src/Wayland/Seat/Begun.antt =====
-- What a press leaves of its key in crates/shinran_wayland (src/main.rs): nothing of it is passed on later.
use shinran.Prelude.{ℕ, ◌<◌, ◌≡◌, Bool, true, false, Option, none, some, arith, not, ap, ◌∙◌, refl}
use shinran.Wayland.Context.{
  completed, u32_mod, then_do-completed, released, pressed, InputContext, RepeatTimer, handle_key,
  mark_as_pressed,
}
use shinran.Wayland.Seat.{
  Seat, Host, on_key, press_or_release, press, press_with, press_fresh, press_first,
  start_repeating, press_over, repeat_instead, update_timer, forward,
}
use shinran.Wayland.Seat.Held.{count}
use shinran.Wayland.Seat.Kept.{forwarded, Keeps, handle_key-Keeps, keycode_of, repeats, is_some}
use shinran.Wayland.Seat.Steady.{passes, handle_key-passes, is_quiet, keycode_of-lt}

-- The input method has nothing of a key.
abbrev pub IsFree : ℕ → InputContext → Type 0
IsFree k c = (count k c.pressed ≡ 0) × (repeats k c.repeat_timer ≡ false)

abbrev pub IsU32 : Option RepeatTimer → Type 0
IsU32 none = Unit
IsU32 (some timer) = timer.keycode < u32_mod

-- After the press of a key, none of it is passed on later, and no release was.
abbrev Begun : ℕ → InputContext → InputContext → Type 0
Begun number c c' =
    (is_quiet number c' ≡ true)
    × (forwarded number released c'.sent ≡ forwarded number released c.sent)

abbrev Decides : ℕ → InputContext → Option Bool → Type 0
Decides k c handled = (b : Bool) → handled ≡ some b → passes k c.xkb_state ≡ not b

press_fresh-Begun :
    (time number : ℕ) (s s' : Seat) (p : InputContext × Option Bool)
    → IsFree (keycode_of number) s.context
    → IsU32 s.context.repeat_timer
    → Keeps s.context p.0
    → Decides (keycode_of number) s.context p.1
    → press_fresh time number (keycode_of number) s p ≡ completed s'
    → s'.running ≡ true
    → Begun number s.context s'.context
unfolding press_fresh press_first start_repeating forward mark_as_pressed forwarded
press_fresh-Begun time number s s' (c', none) free bound keeps decides e runs =
    ground (arith, e, runs)
press_fresh-Begun time number s s' (c', some handled) free bound keeps decides e runs = ground (
  arith,
  keycode_of-lt number,
  decides handled refl,
  free,
  bound,
  keeps.repeat_timer,
  keeps.xkb_state,
  keeps.forwarded number released,
  e,
  runs,
)

press_over-Begun :
    (repeating : RepeatTimer) (time number : ℕ) (s s' : Seat) (p : InputContext × Option Bool)
    → Keeps s.context p.0
    → Decides (keycode_of number) s.context p.1
    → press_over repeating time number (keycode_of number) s p ≡ completed s'
    → s'.running ≡ true
    → Begun number s.context s'.context
unfolding press_over repeat_instead update_timer forward mark_as_pressed forwarded
press_over-Begun repeating time number s s' (c', none) keeps decides e runs =
    ground (arith, e, runs)
press_over-Begun repeating time number s s' (c', some handled) keeps decides e runs = ground (
  arith,
  keycode_of-lt number,
  decides handled refl,
  keeps.repeat_timer,
  keeps.xkb_state,
  keeps.forwarded number released,
  e,
  runs,
)

press_with-Begun :
    (timer : Option RepeatTimer) (time number : ℕ) (s s' : Seat) (p : InputContext × Option Bool)
    → IsFree (keycode_of number) s.context
    → s.context.repeat_timer ≡ timer
    → IsU32 s.context.repeat_timer
    → Keeps s.context p.0
    → Decides (keycode_of number) s.context p.1
    → press_with timer time number (keycode_of number) s p ≡ completed s'
    → s'.running ≡ true
    → Begun number s.context s'.context
unfolding press_with
press_with-Begun none time number s s' p free t bound keeps decides e runs =
    press_fresh-Begun time number s s' p free bound keeps decides e runs
press_with-Begun (some repeating) time number s s' p free t bound keeps decides e runs =
    press_over-Begun repeating time number s s' p keeps decides (ground (arith, e, t, free)) runs

module _ {E : Type 0} (host : Host E) where
  pub press-Begun :
      (time number : ℕ) (s s' : Seat)
      → is_some s.context.xkb_state ≡ true
      → IsFree (keycode_of number) s.context
      → IsU32 s.context.repeat_timer
      → on_key host time number (some pressed) s ≡ completed s'
      → s'.running ≡ true
      → Begun number s.context s'.context
  unfolding on_key press_or_release press
  press-Begun time number s s' ready free bound e runs =
      let k = keycode_of number in
      let called : press host time number k s ≡ completed s' = ground (arith, e, ready) in
      let (p, handled, after) =
        then_do-completed (handle_key host.check_trigger k s.context)
          (press_with s.context.repeat_timer time number k s) called in
      press_with-Begun s.context.repeat_timer time number s s' p free refl bound
        (handle_key-Keeps host.check_trigger k s.context p.0 p.1 handled)
        (λ b q.
          handle_key-passes host.check_trigger k s.context p.0 b
            (handled ∙ ap (λ h. completed (p.0, h)) q))
        after runs
