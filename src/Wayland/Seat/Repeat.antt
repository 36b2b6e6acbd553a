-- ===== src/Wayland/Seat/Repeat.antt =====
-- The timer that repeats a key in crates/shinran_wayland, and how the client winds down.
use shinran.Prelude.{
  ℕ, ◌≡◌, refl, ◌∙◌, ◌⊎◌, inl, inr, Bool, true, false, Option, none, some, Text, not, contains,
  nat_eq, nat_key, ap, arith, answer,
}
use shinran.Wayland.Context.{
  Outcome, completed, panicked, endless, ◌then_do◌, XkbState, Keymap, escape, return_, pressed,
  InputContext, RepeatTimer, handle_key, handle_sym, press_return, send_output, mark_as_pressed,
  repeat_key, repeat_set,
}
use shinran.Wayland.Seat.{
  Seat, Host, key_event, timer_fires, step, on_key, press_or_release, press, press_with,
  press_fresh, press_first, start_repeating, press_over, fire, with_context,
}
use shinran.Wayland.Seat.Kept.{keycode_of, handle_key-Keeps}

-- Whether an event ended without a panic, and the client no longer runs.
abbrev stops : Outcome Seat → Bool
stops (completed s) = not s.running
stops _ = false

stops-completed :
    (o : Outcome Seat) → stops o ≡ true → (s : Seat) × (o ≡ completed s) × (s.running ≡ false)
stops-completed (completed s) h = (s, refl, ground (arith, h))
stops-completed panicked h = ground (arith, h)
stops-completed endless h = ground (arith, h)

module _ {E : Type 0} (host : Host E) where
  pub on_press :
      (time number : ℕ) (s : Seat) (xkb_state : XkbState)
      → s.context.xkb_state ≡ some xkb_state
      → step host (key_event time number (some pressed)) s
        ≡ press host time number (keycode_of number) s
  unfolding step on_key press_or_release
  on_press time number s xkb_state ready = ground (arith, ready)

  -- The seat after a press that is handled while another key repeats, of a key that does not repeat.
  abbrev without_timer : ℕ → Seat → InputContext → Seat
  without_timer k s c = with_context s (record (mark_as_pressed k c) { repeat_timer = none })

  press_over-unrepeated :
      (repeating : RepeatTimer) (time number k : ℕ) (s : Seat) (c : InputContext)
      (xkb_keymap : Keymap)
      → c.xkb_keymap ≡ some xkb_keymap
      → xkb_keymap.key_repeats k ≡ false
      → press_over repeating time number k s (c, some true) ≡ completed (without_timer k s c)
  unfolding press_over
  press_over-unrepeated repeating time number k s c xkb_keymap m r = ground (arith, m, r)

  press_with-other :
      (timer : Option RepeatTimer) (repeating : RepeatTimer) (time number k : ℕ) (s : Seat)
      (p : InputContext × Option Bool)
      → timer ≡ some repeating
      → nat_eq repeating.keycode k ≡ false
      → press_with timer time number k s p ≡ press_over repeating time number k s p
  unfolding press_with
  press_with-other timer repeating time number k s p t other = ground (arith, t, other)

  pressed_over :
      (time number k : ℕ) (s : Seat) (c : InputContext) (repeating : RepeatTimer)
      → nat_eq repeating.keycode k ≡ false
      → s.context.repeat_timer ≡ some repeating
      → handle_key host.check_trigger k s.context ≡ completed (c, some true)
      → press host time number k s ≡ press_over repeating time number k s (c, some true)
  unfolding press
  pressed_over time number k s c repeating other t called =
      ap (λ m. m then_do press_with s.context.repeat_timer time number k s) called
      ∙ press_with-other s.context.repeat_timer repeating time number k s (c, some true) t other

  -- A timer of the loop panics if the context has none.
  fires_without_timer :
      (token : ℕ) (s : Seat)
      → s.context.repeat_timer ≡ none
      → contains s.timers token ≡ true
      → step host (timer_fires token) s ≡ panicked
  unfolding step fire repeat_key repeat_set
  fires_without_timer token s t registered = ground (arith, t, registered)

  -- A key that does not repeat, handled while another one repeats, leaves the timer of the other
  -- with the loop but not with the context: the press ends well, and the timer then panics.
  pub unrepeated_press_panics :
      (time number : ℕ) (s : Seat) (c : InputContext) (repeating : RepeatTimer)
      (xkb_state : XkbState) (xkb_keymap : Keymap)
      → s.context.xkb_state ≡ some xkb_state
      → s.context.xkb_keymap ≡ some xkb_keymap
      → s.context.repeat_timer ≡ some repeating
      → contains s.timers repeating.registration ≡ true
      → nat_eq repeating.keycode (keycode_of number) ≡ false
      → xkb_keymap.key_repeats (keycode_of number) ≡ false
      → handle_key host.check_trigger (keycode_of number) s.context ≡ completed (c, some true)
      → (s' : Seat) × (step host (key_event time number (some pressed)) s ≡ completed s')
        × (step host (timer_fires repeating.registration) s' ≡ panicked)
  unrepeated_press_panics time number s c repeating xkb_state xkb_keymap ready m t registered other
        unrepeated called =
      let k = keycode_of number in
      let keeps = handle_key-Keeps host.check_trigger k s.context c (some true) called in
      (
        without_timer k s c,
        on_press time number s xkb_state ready
            ∙ pressed_over time number k s c repeating other t called
            ∙ press_over-unrepeated repeating time number k s c xkb_keymap (keeps.xkb_keymap ∙ m)
                unrepeated,
        fires_without_timer repeating.registration (without_timer k s c) refl registered,
      )

  -- Where the key is Escape, or Return with an answer of the back end for the text so far.
  abbrev pub WindsDown : XkbState → ℕ → Option Text → Type 0
  WindsDown xkb_state k buffer =
      (xkb_state.key_get_one_sym k ≡ escape)
      ⊎ ((xkb_state.key_get_one_sym k ≡ return_)
          × ((text : Text)
              → buffer ≡ some text
              → (output : Option Text) × (host.check_trigger text ≡ answer output)))

  send_output-answer :
      (output : Option Text) (c : InputContext)
      → (c' : InputContext) × (send_output {E = E} (answer output) c ≡ completed (c', none))
  unfolding send_output
  send_output-answer none c = (_, refl)
  send_output-answer (some text) c = (_, refl)

  pub press_return-some :
      (text : Text) (c : InputContext)
      → c.buffer ≡ some text
      → press_return host.check_trigger c ≡ send_output (host.check_trigger text) c
  unfolding press_return
  press_return-some text c b = ground (arith, b)

  press_return-answered :
      (buffer : Option Text) (c : InputContext)
      → c.buffer ≡ buffer
      → ((text : Text)
          → buffer ≡ some text
          → (output : Option Text) × (host.check_trigger text ≡ answer output))
      → (c' : InputContext) × (press_return host.check_trigger c ≡ completed (c', none))
  unfolding press_return
  press_return-answered none c b answered = (c, ground (arith, b))
  press_return-answered (some text) c b answered =
      let (output, a) = answered text refl in
      let (c', e) = send_output-answer output c in
      (c', press_return-some text c b ∙ ap (λ x. send_output x c) a ∙ e)

  pub handle_key-sym :
      (k : ℕ) (c : InputContext) (xkb_state : XkbState)
      → c.xkb_state ≡ some xkb_state
      → handle_key host.check_trigger k c
        ≡ handle_sym host.check_trigger (xkb_state.key_get_one_sym k) xkb_state k c
  unfolding handle_key
  handle_key-sym k c xkb_state ready = ground (arith, ready)

  handle_key-WindsDown :
      (k : ℕ) (c : InputContext) (xkb_state : XkbState)
      → c.xkb_state ≡ some xkb_state
      → WindsDown xkb_state k c.buffer
      → (c' : InputContext) × (handle_key host.check_trigger k c ≡ completed (c', none))
  unfolding handle_sym
  handle_key-WindsDown k c xkb_state ready (inl sym) = (
    _,
    handle_key-sym k c xkb_state ready
        ∙ ap (λ x. handle_sym host.check_trigger x xkb_state k c) sym,
  )
  handle_key-WindsDown k c xkb_state ready (inr (sym, answered)) =
      let (c', e) = press_return-answered c.buffer c refl answered in
      (
        c',
        handle_key-sym k c xkb_state ready
            ∙ ap (λ x. handle_sym host.check_trigger x xkb_state k c) sym
            ∙ e,
      )

  press_fresh-stops :
      (time number k : ℕ) (s : Seat) (c : InputContext) (xkb_keymap : Keymap) (delay : ℕ)
      → c.xkb_keymap ≡ some xkb_keymap
      → c.repeat_delay ≡ some delay
      → stops (press_fresh time number k s (c, none)) ≡ true
  unfolding press_fresh press_first start_repeating
  press_fresh-stops time number k s c xkb_keymap delay m d = ground (arith, m, d)

  press_with-stops :
      (timer : Option RepeatTimer) (time number k : ℕ) (s : Seat) (c : InputContext)
      (xkb_keymap : Keymap) (delay : ℕ)
      → c.xkb_keymap ≡ some xkb_keymap
      → c.repeat_delay ≡ some delay
      → stops (press_with timer time number k s (c, none)) ≡ true
  unfolding press_with press_over
  press_with-stops none time number k s c xkb_keymap delay m d =
      press_fresh-stops time number k s c xkb_keymap delay m d
  press_with-stops (some repeating) time number k s c xkb_keymap delay m d =
      ground (arith, press_fresh-stops time number k s c xkb_keymap delay m d)

  press-stops :
      (time number k : ℕ) (s : Seat) (c : InputContext) (xkb_keymap : Keymap) (delay : ℕ)
      → handle_key host.check_trigger k s.context ≡ completed (c, none)
      → s.context.xkb_keymap ≡ some xkb_keymap
      → s.context.repeat_delay ≡ some delay
      → stops (press host time number k s) ≡ true
  unfolding press
  press-stops time number k s c xkb_keymap delay called m d =
      let keeps = handle_key-Keeps host.check_trigger k s.context c none called in
      ap (λ x. stops (x then_do press_with s.context.repeat_timer time number k s)) called
      ∙ press_with-stops s.context.repeat_timer time number k s c xkb_keymap delay
          (keeps.xkb_keymap ∙ m) (keeps.repeat_delay ∙ d)

  -- Escape always ends the client, and Return does if the back end answers for the text so far (if
  -- there is one): in every state with a keymap and a repeat delay the press of such a key ends
  -- without a panic, and the client no longer runs.
  pub press-WindsDown :
      (time number delay : ℕ) (s : Seat) (xkb_state : XkbState) (xkb_keymap : Keymap)
      → s.context.xkb_state ≡ some xkb_state
      → s.context.xkb_keymap ≡ some xkb_keymap
      → s.context.repeat_delay ≡ some delay
      → WindsDown xkb_state (keycode_of number) s.context.buffer
      → (s' : Seat) × (step host (key_event time number (some pressed)) s ≡ completed s')
        × (s'.running ≡ false)
  press-WindsDown time number delay s xkb_state xkb_keymap ready m d winds =
      let k = keycode_of number in
      let (c, called) = handle_key-WindsDown k s.context xkb_state ready winds in
      stops-completed (step host (key_event time number (some pressed)) s) (
        ap stops (on_press time number s xkb_state ready)
        ∙ press-stops time number k s c xkb_keymap delay called m d)
