-- ===== src/Wayland/Seat/Keys.antt =====
-- What the handlers of a seat (crates/shinran_wayland/src/main.rs) do to a key that an event is not about.
use shinran.Prelude.{ℕ, ◌%◌, ◌≡◌, refl, ◌≢◌, Bool, true, false, Option, none, some, arith}
use shinran.Wayland.Context.{
  then_do-completed, completed, ◌then_do◌, u32_mod, default_keycode, KeyState, InputContext,
  RepeatTimer, handle_key, repeat_key, repeat_set, repeat_with, next_timestamp, after_repeat,
  mark_as_pressed, release_if_pressed,
}
use shinran.Wayland.Seat.{
  Seat, Event, Host, key_event, keymap_event, done, timer_fires, step, on_key, press_or_release,
  press, press_with, press_fresh, press_first, start_repeating, press_over, repeat_instead,
  update_timer, release, release_key, stop_repeating, forward, update_modifiers, load_keymap,
  use_keymap, fire, keep_or_drop,
}
use shinran.Wayland.Seat.Held.{count-mark_slot, count-release_slot}
use shinran.Wayland.Seat.Kept.{
  Keeps, handle_key-Keeps, keycode_of, is_about, repeats, Unheard, Unheard-refl, Unheard-Keeps,
}

module _ {E : Type 0} (host : Host E) where
  release-Unheard :
      (time number c k : ℕ) (s : Seat)
      → k ≢ default_keycode
      → c ≢ k
      → Unheard k s.context (release time number c s).context
  unfolding release release_key stop_repeating release_if_pressed forward
  release-Unheard time number c k s h n =
      ground (arith, count-release_slot k c s.context.pressed h n)

  press_fresh-Unheard :
      (time number c k : ℕ) (s s' : Seat) (p : InputContext × Option Bool)
      → k ≢ default_keycode
      → c ≢ k
      → Keeps s.context p.0
      → press_fresh time number c s p ≡ completed s'
      → Unheard k s.context s'.context
  unfolding press_fresh press_first start_repeating forward mark_as_pressed
  press_fresh-Unheard time number c k s s' (c', handled) h n keeps e = ground (
    arith,
    count-mark_slot k c c'.pressed h n,
    keeps.pressed,
    keeps.repeat_timer,
    keeps.xkb_state,
  )

  press_over-Unheard :
      (repeating : RepeatTimer) (time number c k : ℕ) (s s' : Seat) (p : InputContext × Option Bool)
      → k ≢ default_keycode
      → c ≢ k
      → Keeps s.context p.0
      → press_over repeating time number c s p ≡ completed s'
      → Unheard k s.context s'.context
  unfolding press_over repeat_instead update_timer forward mark_as_pressed
  press_over-Unheard repeating time number c k s s' (c', handled) h n keeps e = ground (
    arith,
    count-mark_slot k c c'.pressed h n,
    keeps.pressed,
    keeps.repeat_timer,
    keeps.xkb_state,
  )

  press_with-Unheard :
      (timer : Option RepeatTimer) (time number c k : ℕ) (s s' : Seat)
      (p : InputContext × Option Bool)
      → k ≢ default_keycode
      → c ≢ k
      → Keeps s.context p.0
      → press_with timer time number c s p ≡ completed s'
      → Unheard k s.context s'.context
  unfolding press_with
  press_with-Unheard none time number c k s s' p h n keeps e =
      press_fresh-Unheard time number c k s s' p h n keeps e
  press_with-Unheard (some repeating) time number c k s s' p h n keeps e = ground (
    arith,
    press_fresh-Unheard time number c k s s' p h n keeps,
    press_over-Unheard repeating time number c k s s' p h n keeps,
    e,
  )

  press-Unheard :
      (time number c k : ℕ) (s s' : Seat)
      → k ≢ default_keycode
      → c ≢ k
      → press host time number c s ≡ completed s'
      → Unheard k s.context s'.context
  unfolding press
  press-Unheard time number c k s s' h n e =
      let (p, called, after) =
        then_do-completed (handle_key host.check_trigger c s.context)
          (press_with s.context.repeat_timer time number c s) e in
      press_with-Unheard s.context.repeat_timer time number c k s s' p h n
        (handle_key-Keeps host.check_trigger c s.context p.0 p.1 called) after

  after_repeat-Unheard :
      (time c k : ℕ) (p : InputContext × Option Bool) (q : InputContext × Bool)
      → after_repeat time c p ≡ completed q
      → Unheard k p.0 q.0
  unfolding after_repeat
  after_repeat-Unheard time c k (c', handled) q e = ground (arith, e)

  on_key-Unheard :
      (time number k : ℕ) (key_state : Option KeyState) (s s' : Seat)
      → k ≢ default_keycode
      → keycode_of number ≢ k
      → on_key host time number key_state s ≡ completed s'
      → Unheard k s.context s'.context
  unfolding on_key press_or_release
  on_key-Unheard time number k key_state s s' h n e = ground (
    arith,
    e,
    press-Unheard time number (keycode_of number) k s s' h n,
    release-Unheard time number (keycode_of number) k s h n,
    Unheard-refl k s.context,
  )

  -- The timer that is stored repeats the key of the one before.
  repeat_with-Unheard :
      (k : ℕ) (repeating : RepeatTimer) (next : Option RepeatTimer) (c : InputContext)
      (q : InputContext × Bool)
      → c.repeat_timer ≡ some repeating
      → (repeats k next ≡ true → repeats k (some repeating) ≡ true)
      → repeat_with host.check_trigger repeating next c ≡ completed q
      → Unheard k c q.0
  unfolding repeat_with
  repeat_with-Unheard k repeating none c q t same e = ground (arith, e)
  repeat_with-Unheard k repeating (some next) c q t same e =
      let c' = record c { repeat_timer = some next } in
      let (p, called, after) =
        then_do-completed (handle_key host.check_trigger repeating.keycode c')
          (after_repeat repeating.timestamp repeating.keycode) e in
      let keeps = handle_key-Keeps host.check_trigger repeating.keycode c' p.0 p.1 called in
      ground (
        arith,
        after_repeat-Unheard repeating.timestamp repeating.keycode k p q after,
        Unheard-Keeps k c' p.0 keeps,
        same,
        t,
      )

  next_timestamp-repeats :
      (k rate : ℕ) (repeating : RepeatTimer)
      → repeats k (next_timestamp rate repeating) ≡ true
      → repeats k (some repeating) ≡ true
  unfolding next_timestamp
  next_timestamp-repeats k rate repeating h = ground (arith, h)

  repeat_set-Unheard :
      (k : ℕ) (rate : Option ℕ) (timer : Option RepeatTimer) (c : InputContext)
      (q : InputContext × Bool)
      → c.repeat_timer ≡ timer
      → repeat_set host.check_trigger rate timer c ≡ completed q
      → Unheard k c q.0
  unfolding repeat_set
  repeat_set-Unheard k (some rate) (some repeating) c q t e =
      let next = next_timestamp (rate % u32_mod) repeating in
      repeat_with-Unheard k repeating next c q t
        (next_timestamp-repeats k (rate % u32_mod) repeating) e
  repeat_set-Unheard k (some rate) none c q t e = ground (arith, e)
  repeat_set-Unheard k none (some repeating) c q t e = ground (arith, e)
  repeat_set-Unheard k none none c q t e = ground (arith, e)

  repeat_key-Unheard :
      (k : ℕ) (c : InputContext) (q : InputContext × Bool)
      → repeat_key host.check_trigger c ≡ completed q
      → Unheard k c q.0
  unfolding repeat_key
  repeat_key-Unheard k c q e = repeat_set-Unheard k c.repeat_rate c.repeat_timer c q refl e

  keep_or_drop-Unheard :
      (token k : ℕ) (s s' : Seat) (p : InputContext × Bool)
      → Unheard k s.context p.0
      → keep_or_drop token s p ≡ completed s'
      → Unheard k s.context s'.context
  unfolding keep_or_drop
  keep_or_drop-Unheard token k s s' (c, goes_on) u e = ground (arith, u, e)

  firing-Unheard :
      (token k : ℕ) (s s' : Seat)
      → repeat_key host.check_trigger s.context then_do keep_or_drop token s ≡ completed s'
      → Unheard k s.context s'.context
  firing-Unheard token k s s' e =
      let (p, called, after) =
        then_do-completed (repeat_key host.check_trigger s.context) (keep_or_drop token s) e in
      keep_or_drop-Unheard token k s s' p (repeat_key-Unheard k s.context p called) after

  fire-Unheard :
      (token k : ℕ) (s s' : Seat)
      → fire host token s ≡ completed s'
      → Unheard k s.context s'.context
  unfolding fire
  fire-Unheard token k s s' e =
      ground (arith, e, firing-Unheard token k s s', Unheard-refl k s.context)

  keymap-Unheard :
      (format : Option ℕ) (fd size k : ℕ) (s s' : Seat)
      → step host (keymap_event format fd size) s ≡ completed s'
      → Unheard k s.context s'.context
  unfolding step load_keymap use_keymap
  keymap-Unheard format fd size k s s' e = ground (arith, e)

  pub step-Unheard :
      (event : Event) (number : ℕ) (s s' : Seat)
      → keycode_of number ≢ default_keycode
      → is_about number event ≡ false
      → step host event s ≡ completed s'
      → Unheard (keycode_of number) s.context s'.context
  unfolding step update_modifiers
  step-Unheard (key_event time number' key_state) number s s' h a e =
      on_key-Unheard time number' (keycode_of number) key_state s s' h (ground (arith, a)) e
  step-Unheard (timer_fires token) number s s' h a e = fire-Unheard token (keycode_of number) s s' e
  step-Unheard (keymap_event format fd size) number s s' h a e =
      keymap-Unheard format fd size (keycode_of number) s s' e
  step-Unheard done number s s' h a e = ground (arith, a)
  step-Unheard event number s s' h a e = ground (arith, e, a)
