-- ===== src/Wayland/Seat/Release.antt =====
-- What the virtual keyboard of crates/shinran_wayland gets of a key: the press and the release.
use shinran.Prelude.{
  ℕ, suc, ◌+◌, ◌<◌, ◌≡◌, ◌≢◌, ◌⊎◌, Bool, true, false, Option, none, some, List, [], ◌∷◌, arith,
  refl, All,
}
use shinran.Wayland.Context.{
  completed, u32_mod, then_do-completed, default_keycode, released, pressed, InputContext,
  RepeatTimer, handle_key, mark_as_pressed, release_if_pressed,
}
use shinran.Wayland.Seat.{
  Seat, Event, Host, key_event, modifiers_event, keymap_event, repeat_info, activate, deactivate,
  surrounding_text, text_change_cause, content_type, done, unavailable, timer_fires, step, on_key,
  press_or_release, press, press_with, press_fresh, press_first, start_repeating, press_over,
  repeat_instead, update_timer, release, release_key, stop_repeating, forward, run,
}
use shinran.Wayland.Seat.Held.{count, count-mark_slot_self, release_slot-found}
use shinran.Wayland.Seat.Kept.{
  forwarded, Keeps, handle_key-Keeps, keycode_of, is_about, is_some, Unheard, Unheard-refl,
  Unheard-trans,
}
use shinran.Wayland.Seat.Keys.{step-Unheard}
use shinran.Wayland.Seat.Steady.{IsSteady}
use shinran.Wayland.Seat.QuietRuns.{run-Quiet}
use shinran.Wayland.Seat.Begun.{IsFree, IsU32, press-Begun}

-- A press is kept, or it is passed on.
abbrev Fate : ℕ → InputContext → InputContext → Type 0
Fate number c c' =
    let before = forwarded number pressed c.sent in
    let after = forwarded number pressed c'.sent in
    (c'.xkb_state ≡ c.xkb_state)
    × (((0 < count (keycode_of number) c'.pressed) × (after ≡ before))
        ⊎ (IsFree (keycode_of number) c' × (after ≡ suc before)))

press_fresh-Fate :
    (time number : ℕ) (s s' : Seat) (p : InputContext × Option Bool)
    → keycode_of number ≢ default_keycode
    → 0 < count default_keycode s.context.pressed
    → IsFree (keycode_of number) s.context
    → Keeps s.context p.0
    → press_fresh time number (keycode_of number) s p ≡ completed s'
    → Fate number s.context s'.context
unfolding press_fresh press_first start_repeating forward mark_as_pressed forwarded
press_fresh-Fate time number s s' (c', handled) h room free keeps e =
    let k = keycode_of number in
    ground (
      arith,
      count-mark_slot_self k s.context.pressed h room,
      keeps.pressed,
      keeps.repeat_timer,
      keeps.xkb_state,
      keeps.forwarded number pressed,
      free,
      e,
    )

press_over-Fate :
    (repeating : RepeatTimer) (time number : ℕ) (s s' : Seat) (p : InputContext × Option Bool)
    → keycode_of number ≢ default_keycode
    → 0 < count default_keycode s.context.pressed
    → IsFree (keycode_of number) s.context
    → Keeps s.context p.0
    → press_over repeating time number (keycode_of number) s p ≡ completed s'
    → s'.running ≡ true
    → Fate number s.context s'.context
unfolding press_over repeat_instead update_timer forward mark_as_pressed forwarded
press_over-Fate repeating time number s s' (c', handled) h room free keeps e runs =
    let k = keycode_of number in
    ground (
      arith,
      count-mark_slot_self k s.context.pressed h room,
      keeps.pressed,
      keeps.repeat_timer,
      keeps.xkb_state,
      keeps.forwarded number pressed,
      free,
      e,
      runs,
    )

press_with-Fate :
    (timer : Option RepeatTimer) (time number : ℕ) (s s' : Seat) (p : InputContext × Option Bool)
    → keycode_of number ≢ default_keycode
    → 0 < count default_keycode s.context.pressed
    → IsFree (keycode_of number) s.context
    → Keeps s.context p.0
    → press_with timer time number (keycode_of number) s p ≡ completed s'
    → s'.running ≡ true
    → Fate number s.context s'.context
unfolding press_with
press_with-Fate none time number s s' p h room free keeps e runs =
    press_fresh-Fate time number s s' p h room free keeps e
press_with-Fate (some repeating) time number s s' p h room free keeps e runs = ground (
  arith,
  press_fresh-Fate time number s s' p h room free keeps,
  press_over-Fate repeating time number s s' p h room free keeps,
  e,
  runs,
)

module _ {E : Type 0} (host : Host E) where
  press-Fate :
      (time number : ℕ) (s s' : Seat)
      → is_some s.context.xkb_state ≡ true
      → keycode_of number ≢ default_keycode
      → 0 < count default_keycode s.context.pressed
      → IsFree (keycode_of number) s.context
      → on_key host time number (some pressed) s ≡ completed s'
      → s'.running ≡ true
      → Fate number s.context s'.context
  unfolding on_key press_or_release press
  press-Fate time number s s' ready h room free e runs =
      let k = keycode_of number in
      let called : press host time number k s ≡ completed s' = ground (arith, e, ready) in
      let (p, handled, after) =
        then_do-completed (handle_key host.check_trigger k s.context)
          (press_with s.context.repeat_timer time number k s) called in
      press_with-Fate s.context.repeat_timer time number s s' p h room free
        (handle_key-Keeps host.check_trigger k s.context p.0 p.1 handled) after runs

  -- A release is kept exactly if the key is held.
  release-held :
      (time number : ℕ) (s : Seat)
      → 0 < count (keycode_of number) s.context.pressed
      → forwarded number released (release time number (keycode_of number) s).context.sent
        ≡ forwarded number released s.context.sent
  unfolding release release_key stop_repeating release_if_pressed forward forwarded
  release-held time number s held =
      ground (arith, release_slot-found (keycode_of number) s.context.pressed)

  release-free :
      (time number : ℕ) (s : Seat)
      → IsFree (keycode_of number) s.context
      → forwarded number released (release time number (keycode_of number) s).context.sent
        ≡ suc (forwarded number released s.context.sent)
  unfolding release release_key stop_repeating release_if_pressed forward forwarded
  release-free time number s free =
      ground (arith, release_slot-found (keycode_of number) s.context.pressed, free)

  released-no_press :
      (time number k : ℕ) (s : Seat)
      → forwarded number pressed (release time number k s).context.sent
        ≡ forwarded number pressed s.context.sent
  unfolding release release_key stop_repeating release_if_pressed forward forwarded
  released-no_press time number k s = ground arith

  IsSteady-is_about :
      (number : ℕ) (event : Event) → IsSteady host number event → is_about number event ≡ false
  IsSteady-is_about number (modifiers_event depressed latched locked group) h = refl
  IsSteady-is_about number (keymap_event format fd size) h = refl
  IsSteady-is_about number (key_event time number' key_state) h = h
  IsSteady-is_about number (repeat_info rate delay) h = h
  IsSteady-is_about number activate h = h
  IsSteady-is_about number deactivate h = h
  IsSteady-is_about number surrounding_text h = h
  IsSteady-is_about number text_change_cause h = h
  IsSteady-is_about number content_type h = h
  IsSteady-is_about number done h = h
  IsSteady-is_about number unavailable h = h
  IsSteady-is_about number (timer_fires token) h = h

  run-Unheard :
      (events : List Event) (number : ℕ) (s s' : Seat)
      → keycode_of number ≢ default_keycode
      → All (IsSteady host number) events
      → run host events s ≡ completed s'
      → Unheard (keycode_of number) s.context s'.context
  unfolding run
  run-Unheard [] number s s' h a e = ground (arith, e, Unheard-refl (keycode_of number) s.context)
  run-Unheard (event ∷ events) number s s' h (a, steady) e =
      let (t, first, rest) = then_do-completed (step host event s) (run host events) e in
      Unheard-trans (keycode_of number) s.context t.context s'.context
        (step-Unheard host event number s t h (IsSteady-is_about number event a) first)
        (run-Unheard events number t s' h steady rest)

  on_release :
      (time number : ℕ) (s : Seat)
      → is_some s.context.xkb_state ≡ true
      → step host (key_event time number (some released)) s
        ≡ completed (release time number (keycode_of number) s)
  unfolding step on_key press_or_release
  on_release time number s ready = ground (arith, ready)

  -- A key is released as often as it was pressed: take a client that has a keymap, has a free slot,
  -- and neither holds nor repeats the key (the keys have 32 bits), and that runs on after the press
  -- of the key. Then come any events, presses, releases and repetitions of other keys and repetitions
  -- of this key among them, but none of the key itself, no `Done`, no keymap, and no modifiers that
  -- change, for some state of the keyboard, whether the key is passed on. After them the release of the key
  -- is handled without a panic, and from before the press to after the release the virtual keyboard
  -- gets as many releases of the key as presses.
  pub release_follows_press :
      (time time' number : ℕ) (events : List Event) (s s1 s2 : Seat)
      → number < u32_mod
      → is_some s.context.xkb_state ≡ true
      → keycode_of number ≢ default_keycode
      → 0 < count default_keycode s.context.pressed
      → IsFree (keycode_of number) s.context
      → IsU32 s.context.repeat_timer
      → step host (key_event time number (some pressed)) s ≡ completed s1
      → s1.running ≡ true
      → All (IsSteady host number) events
      → run host events s1 ≡ completed s2
      → (s3 : Seat) × (step host (key_event time' number (some released)) s2 ≡ completed s3)
        × (forwarded number released s3.context.sent + forwarded number pressed s.context.sent
            ≡ forwarded number released s.context.sent + forwarded number pressed s3.context.sent)
  unfolding step
  release_follows_press time time' number events s s1 s2 small ready h room free bound e runs a e' =
      let k = keycode_of number in
      let u = run-Unheard events number s1 s2 h a e' in
      let fate = press-Fate time number s s1 ready h room free e runs in
      let begun = press-Begun host time number s s1 ready free bound e runs in
      let quiet = run-Quiet host events number s1 s2 small begun.0 a e' in
      (
        release time' number k s2,
        on_release time' number s2 (u.has_state (ground (arith, fate, ready))),
        ground (
          arith,
          u,
          fate,
          begun,
          quiet.no_press,
          quiet.no_release,
          released-no_press time' number k s2,
          release-held time' number s2,
          release-free time' number s2,
        ),
      )
