-- ===== src/Wayland/Seat/QuietRuns.antt =====
-- A timer (`repeat_key` of crates/shinran_wayland/src/input_context.rs) and the other events of src/main.rs
-- pass on nothing of a key that is quiet.
use shinran.Prelude.{
  ℕ, ◌%◌, ◌<◌, ◌≡◌, refl, sym, ap, ◌∙◌, ◌≢◌, Bool, true, false, Option, none, some, arith, List, [],
  ◌∷◌, All,
}
use shinran.Wayland.Context.{
  then_do-completed, completed, ◌then_do◌, u32_mod, pressed, released, InputContext, XkbState,
  RepeatTimer, handle_key, repeat_key, repeat_set, repeat_with, next_timestamp, after_repeat,
}
use shinran.Wayland.Seat.{
  Seat, Event, Host, key_event, modifiers_event, keymap_event, done, timer_fires, step, run,
  update_modifiers, fire, keep_or_drop,
}
use shinran.Wayland.Seat.Kept.{forwarded, handle_key-Keeps, keycode_of}
use shinran.Wayland.Seat.Steady.{
  passes, handle_key-passes, timer_quiet, is_quiet, Quiet, Quiet-refl, Quiet-trans, repeated_number,
  IsSteady,
}
use shinran.Wayland.Seat.QuietKeys.{on_key-Quiet}

module _ {E : Type 0} (host : Host E) where
  after_repeat-Quiet :
      (time keycode number : ℕ) (c : InputContext) (handled : Option Bool) (q : InputContext × Bool)
      → number < u32_mod
      → keycode < u32_mod
      → is_quiet number c ≡ true
      → (keycode ≡ keycode_of number → handled ≢ some false)
      → after_repeat time keycode (c, handled) ≡ completed q
      → Quiet number c q.0
  unfolding after_repeat forwarded
  after_repeat-Quiet time keycode number c handled q h l quiet taken e =
      ground (arith, e, quiet, taken, repeated_number number keycode h l)

  next_timestamp-quiet :
      (k rate : ℕ) (xkb_state : Option XkbState) (repeating next : RepeatTimer)
      → next_timestamp rate repeating ≡ some next
      → timer_quiet k xkb_state (some repeating) ≡ true
      → timer_quiet k xkb_state (some next) ≡ true
  unfolding next_timestamp
  next_timestamp-quiet k rate xkb_state repeating next h q = ground (arith, h, q)

  -- The handled key is the one of the timer, under the same state.
  taken :
      (keycode number : ℕ) (c c' : InputContext) (handled : Option Bool)
      → timer_quiet (keycode_of number) c.xkb_state c.repeat_timer ≡ true
      → (timer : RepeatTimer) → c.repeat_timer ≡ some timer
      → timer.keycode ≡ keycode
      → handle_key host.check_trigger keycode c ≡ completed (c', handled)
      → keycode ≡ keycode_of number
      → handled ≢ some false
  taken keycode number c c' handled q timer t same called k h = ground (
    arith,
    q,
    t,
    same,
    k,
    handle_key-passes host.check_trigger keycode c c' false
        (called ∙ ap (λ h. completed (c', h)) h),
  )

  repeat_with-Quiet :
      (number : ℕ) (repeating : RepeatTimer) (next : Option RepeatTimer) (c : InputContext)
      (q : InputContext × Bool)
      → number < u32_mod
      → ((timer : RepeatTimer)
          → next ≡ some timer
          → (timer_quiet (keycode_of number) c.xkb_state (some timer) ≡ true)
            × (timer.keycode ≡ repeating.keycode))
      → repeat_with host.check_trigger repeating next c ≡ completed q
      → Quiet number c q.0
  unfolding repeat_with
  repeat_with-Quiet number repeating none c q h quiet e = ground (arith, e)
  repeat_with-Quiet number repeating (some next) c q h quiet e =
      let c' = record c { repeat_timer = some next } in
      let (p, called, after) =
        then_do-completed (handle_key host.check_trigger repeating.keycode c')
          (after_repeat repeating.timestamp repeating.keycode) e in
      let keeps = handle_key-Keeps host.check_trigger repeating.keycode c' p.0 p.1 called in
      let (still, same) = quiet next refl in
      let bound : repeating.keycode < u32_mod = ground (arith, still, same) in
      let first : Quiet number c p.0 = record {
        passes = ap (passes (keycode_of number)) keeps.xkb_state;
        quiet =
            ap (λ x. timer_quiet (keycode_of number) x p.0.repeat_timer) keeps.xkb_state
            ∙ ap (timer_quiet (keycode_of number) c.xkb_state) keeps.repeat_timer
            ∙ still;
        no_press = keeps.forwarded number pressed;
        no_release = keeps.forwarded number released;
      } in
      Quiet-trans number c p.0 q.0 first (
        after_repeat-Quiet repeating.timestamp repeating.keycode number p.0 p.1 q h bound
          first.quiet (taken repeating.keycode number c' p.0 p.1 still next refl same called) after)

  next_timestamp-keycode :
      (rate : ℕ) (repeating next : RepeatTimer)
      → next_timestamp rate repeating ≡ some next
      → next.keycode ≡ repeating.keycode
  unfolding next_timestamp
  next_timestamp-keycode rate repeating next h = ground (arith, h)

  repeat_set-Quiet :
      (number : ℕ) (rate : Option ℕ) (timer : Option RepeatTimer) (c : InputContext)
      (q : InputContext × Bool)
      → number < u32_mod
      → c.repeat_timer ≡ timer
      → is_quiet number c ≡ true
      → repeat_set host.check_trigger rate timer c ≡ completed q
      → Quiet number c q.0
  unfolding repeat_set
  repeat_set-Quiet number (some rate) (some repeating) c q h t quiet e =
      let still : timer_quiet (keycode_of number) c.xkb_state (some repeating) ≡ true =
        ap (timer_quiet (keycode_of number) c.xkb_state) (sym t) ∙ quiet in
      repeat_with-Quiet number repeating (next_timestamp (rate % u32_mod) repeating) c q h
        (λ next made. (
          next_timestamp-quiet (keycode_of number) (rate % u32_mod) c.xkb_state repeating next made
              still,
          next_timestamp-keycode (rate % u32_mod) repeating next made,
        ))
        e
  repeat_set-Quiet number (some rate) none c q h t quiet e = ground (arith, e)
  repeat_set-Quiet number none (some repeating) c q h t quiet e = ground (arith, e)
  repeat_set-Quiet number none none c q h t quiet e = ground (arith, e)

  repeat_key-Quiet :
      (number : ℕ) (c : InputContext) (q : InputContext × Bool)
      → number < u32_mod
      → is_quiet number c ≡ true
      → repeat_key host.check_trigger c ≡ completed q
      → Quiet number c q.0
  unfolding repeat_key
  repeat_key-Quiet number c q h quiet e =
      repeat_set-Quiet number c.repeat_rate c.repeat_timer c q h refl quiet e

  keep_or_drop-Quiet :
      (token number : ℕ) (s s' : Seat) (p : InputContext × Bool)
      → Quiet number s.context p.0
      → keep_or_drop token s p ≡ completed s'
      → Quiet number s.context s'.context
  unfolding keep_or_drop
  keep_or_drop-Quiet token number s s' (c, goes_on) u e = ground (arith, u, e)

  firing-Quiet :
      (token number : ℕ) (s s' : Seat)
      → number < u32_mod
      → is_quiet number s.context ≡ true
      → repeat_key host.check_trigger s.context then_do keep_or_drop token s ≡ completed s'
      → Quiet number s.context s'.context
  firing-Quiet token number s s' h quiet e =
      let (p, called, after) =
        then_do-completed (repeat_key host.check_trigger s.context) (keep_or_drop token s) e in
      keep_or_drop-Quiet token number s s' p (repeat_key-Quiet number s.context p h quiet called)
        after

  fire-Quiet :
      (token number : ℕ) (s s' : Seat)
      → number < u32_mod
      → is_quiet number s.context ≡ true
      → fire host token s ≡ completed s'
      → Quiet number s.context s'.context
  unfolding fire
  fire-Quiet token number s s' h quiet e =
      ground (arith, e, firing-Quiet token number s s' h quiet, Quiet-refl number s.context quiet)

  modifiers-Quiet :
      (depressed latched locked group number : ℕ) (c : InputContext) (xkb_state : Option XkbState)
      → c.xkb_state ≡ xkb_state
      → is_quiet number c ≡ true
      → IsSteady host number (modifiers_event depressed latched locked group)
      → Quiet number c (update_modifiers host depressed latched locked group c)
  unfolding update_modifiers forwarded
  modifiers-Quiet depressed latched locked group number c none t quiet steady =
      ground (arith, t, quiet, Quiet-refl number c quiet)
  modifiers-Quiet depressed latched locked group number c (some xkb_state) t quiet steady =
      ground (arith, t, quiet, steady xkb_state)

  pub step-Quiet :
      (event : Event) (number : ℕ) (s s' : Seat)
      → number < u32_mod
      → is_quiet number s.context ≡ true
      → IsSteady host number event
      → step host event s ≡ completed s'
      → Quiet number s.context s'.context
  unfolding step
  step-Quiet (key_event time number' key_state) number s s' h q a e =
      on_key-Quiet host time number' number key_state s s' q (ground (arith, a)) e
  step-Quiet (timer_fires token) number s s' h q a e = fire-Quiet token number s s' h q e
  step-Quiet (keymap_event format fd size) number s s' h q a e = ground (arith, a)
  step-Quiet done number s s' h q a e = ground (arith, a)
  step-Quiet (modifiers_event depressed latched locked group) number s s' h q a e = ground (
    arith,
    e,
    modifiers-Quiet depressed latched locked group number s.context s.context.xkb_state refl q a,
  )
  step-Quiet event number s s' h q a e = ground (arith, e, a, q)

  pub run-Quiet :
      (events : List Event) (number : ℕ) (s s' : Seat)
      → number < u32_mod
      → is_quiet number s.context ≡ true
      → All (IsSteady host number) events
      → run host events s ≡ completed s'
      → Quiet number s.context s'.context
  unfolding run
  run-Quiet [] number s s' h q a e = ground (arith, e, Quiet-refl number s.context q)
  run-Quiet (event ∷ events) number s s' h q (a, rest_steady) e =
      let (t, first, rest) = then_do-completed (step host event s) (run host events) e in
      let u = step-Quiet event number s t h q a first in
      Quiet-trans number s.context t.context s'.context u
        (run-Quiet events number t s' h u.quiet rest_steady rest)
