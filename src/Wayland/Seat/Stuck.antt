-- ===== src/Wayland/Seat/Stuck.antt =====
-- A repeated key that is passed on while it is held: `repeat_key` of
-- crates/shinran_wayland/src/input_context.rs and the release in src/main.rs.
use shinran.Prelude.{
  ℕ, suc, ◌+◌, ◌%◌, ◌/◌, ◌<◌, ◌≡◌, ◌≢◌, refl, ap, ◌∙◌, Bool, true, false, Option, none, some, ◌∷◌,
  arith, contains, nat_key,
}
use shinran.Wayland.Context.{
  completed, u32_mod, XkbState, Keysym, escape, return_, kp_space, space, other, from_u32, released,
  pressed, Request, InputContext, RepeatTimer, handle_key, handle_sym, append_key, show_buffer,
  repeat_key, repeat_set, repeat_with, next_timestamp, after_repeat, release_if_pressed,
}
use shinran.Wayland.Seat.{
  Seat, Host, key_event, timer_fires, step, on_key, press_or_release, release, release_key, fire,
  keep_or_drop, with_context, remove_timer,
}
use shinran.Wayland.Seat.Held.{count, release_slot-found}
use shinran.Wayland.Seat.Kept.{forwarded, handle_key-Keeps, keycode_of}
use shinran.Wayland.Seat.Steady.{passes, passes_sym, passes_char}

passed_char :
    (ch : Option ℕ) (c : InputContext) → passes_char ch ≡ true → append_key ch c ≡ (c, some false)
unfolding append_key
passed_char ch c h = ground (arith, h)

module _ {E : Type 0} (host : Host E) where
  passed_sym :
      (keysym : Keysym) (xkb_state : XkbState) (k : ℕ) (c : InputContext)
      → passes_sym keysym (from_u32 (xkb_state.key_get_utf32 k)) ≡ true
      → (c' : InputContext) × (handle_sym host.check_trigger keysym xkb_state k c
          ≡ completed (c', some false))
  unfolding handle_sym
  passed_sym escape xkb_state k c h = absurd (ground (arith, h))
  passed_sym return_ xkb_state k c h = absurd (ground (arith, h))
  passed_sym kp_space xkb_state k c h = (c, refl)
  passed_sym space xkb_state k c h = (c, refl)
  passed_sym other xkb_state k c h = (
    show_buffer c,
    ap (λ (r : InputContext × Option Bool). completed (show_buffer r.0, r.1))
        (passed_char (from_u32 (xkb_state.key_get_utf32 k)) c h),
  )

  passed :
      (k : ℕ) (c : InputContext) (xkb_state : Option XkbState)
      → c.xkb_state ≡ xkb_state
      → passes k xkb_state ≡ true
      → (c' : InputContext) × (handle_key host.check_trigger k c ≡ completed (c', some false))
  unfolding handle_key
  passed k c none t h = absurd (ground (arith, h))
  passed k c (some xkb_state) t h =
      let (c', q) = passed_sym (xkb_state.key_get_one_sym k) xkb_state k c h in
      (c', ground (arith, t, q))

  -- What the repetition of a key leaves that is passed on.
  abbrev passed_on : ℕ → ℕ → InputContext → InputContext
  passed_on number time c = record c {
    sent = Request.key time number pressed ∷ c.sent;
    repeat_timer = none;
  }

  abbrev following : ℕ → RepeatTimer → RepeatTimer
  following rate repeating = record repeating {
    timestamp = (repeating.timestamp + 1000 / (rate % u32_mod)) % u32_mod;
  }

  repeat_with-passed :
      (number : ℕ) (c c' : InputContext) (repeating next : RepeatTimer)
      → number < u32_mod
      → repeating.keycode ≡ keycode_of number
      → handle_key host.check_trigger repeating.keycode (record c { repeat_timer = some next })
        ≡ completed (c', some false)
      → repeat_with host.check_trigger repeating (some next) c
        ≡ completed (passed_on number repeating.timestamp c', false)
  unfolding repeat_with after_repeat
  repeat_with-passed number c c' repeating next small same called =
      let back : (repeating.keycode + 4294967288) % u32_mod ≡ number = omega (arith, small, same) in
      rw (called, back) refl

  repeat_key-passed :
      (number : ℕ) (c c' : InputContext) (repeating : RepeatTimer) (rate : ℕ)
      → number < u32_mod
      → c.repeat_timer ≡ some repeating
      → c.repeat_rate ≡ some rate
      → rate % u32_mod ≢ 0
      → repeating.keycode ≡ keycode_of number
      → handle_key host.check_trigger repeating.keycode
          (record c { repeat_timer = some (following rate repeating) })
        ≡ completed (c', some false)
      → repeat_key host.check_trigger c ≡ completed (passed_on number repeating.timestamp c', false)
  unfolding repeat_key repeat_set next_timestamp
  repeat_key-passed number c c' repeating rate small t r nonzero same called = ground (
    arith,
    t,
    r,
    nonzero,
    repeat_with-passed number c c' repeating (following rate repeating) small same called,
  )

  fire-passed :
      (token : ℕ) (s : Seat) (c : InputContext)
      → contains s.timers token ≡ true
      → repeat_key host.check_trigger s.context ≡ completed (c, false)
      → step host (timer_fires token) s
        ≡ completed (record s { context = c; timers = remove_timer token s.timers })
  unfolding step fire keep_or_drop
  fire-passed token s c registered q = rw (registered, q) refl

  release-swallowed :
      (time number : ℕ) (s : Seat)
      → s.context.repeat_timer ≡ none
      → 0 < count (keycode_of number) s.context.pressed
      → passes (keycode_of number) s.context.xkb_state ≡ true
      → step host (key_event time number (some released)) s
        ≡ completed (with_context s (release_if_pressed (keycode_of number) s.context).0)
  unfolding step on_key press_or_release release release_key release_if_pressed
  release-swallowed time number s t held ready =
      ground (arith, t, held, ready, release_slot-found (keycode_of number) s.context.pressed)

  -- A key gets stuck: while a key is held and its timer repeats it, it becomes a key that is passed
  -- on (the modifiers changed). When the timer fires, the virtual keyboard gets a press of the key,
  -- and the release that follows is swallowed.
  pub repeated_press_is_stuck :
      (token time number rate : ℕ) (s : Seat) (repeating : RepeatTimer)
      → number < u32_mod
      → contains s.timers token ≡ true
      → s.context.repeat_timer ≡ some repeating
      → repeating.keycode ≡ keycode_of number
      → s.context.repeat_rate ≡ some rate
      → rate % u32_mod ≢ 0
      → 0 < count (keycode_of number) s.context.pressed
      → passes (keycode_of number) s.context.xkb_state ≡ true
      → (s1 s2 : Seat) × (step host (timer_fires token) s ≡ completed s1)
        × (step host (key_event time number (some released)) s1 ≡ completed s2)
        × (forwarded number pressed s2.context.sent ≡ suc (forwarded number pressed s.context.sent))
        × (forwarded number released s2.context.sent ≡ forwarded number released s.context.sent)
  unfolding release_if_pressed forwarded
  repeated_press_is_stuck token time number rate s repeating small registered t same r nonzero held
        ready =
      let k = repeating.keycode in
      let c = record s.context { repeat_timer = some (following rate repeating) } in
      let (c', called) =
        passed k c c.xkb_state refl (ap (λ k. passes k s.context.xkb_state) same ∙ ready) in
      let keeps = handle_key-Keeps host.check_trigger k c c' (some false) called in
      let repeated : Seat = record s {
        context = passed_on number repeating.timestamp c';
        timers = remove_timer token s.timers;
      } in
      (
        repeated,
        with_context repeated (release_if_pressed (keycode_of number) repeated.context).0,
        fire-passed token s repeated.context registered
            (repeat_key-passed number s.context c' repeating rate small t r nonzero same called),
        release-swallowed time number repeated refl (ground (arith, held, keeps.pressed))
            (ap (passes (keycode_of number)) keeps.xkb_state ∙ ready),
        ground (arith, keeps.forwarded number pressed),
        ground (arith, keeps.forwarded number released),
      )
