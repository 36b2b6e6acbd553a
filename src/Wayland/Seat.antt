-- ===== src/Wayland/Seat.antt =====
-- The events of a seat in crates/shinran_wayland/src/main.rs: those of its keyboard grab, of its input
-- method and of the timer that repeats a key. The timers registered with the event loop are the list
-- of their tokens. An `i32` is the number of its 32 bits.
pub mod Kept
pub mod Keys
pub mod Steady
pub mod QuietKeys
pub mod QuietRuns
pub mod Stuck
pub mod Begun
pub mod Held
pub mod Release
pub mod Repeat
pub mod Commit
use shinran.Prelude.{
  ℕ, ◌+◌, ◌-◌, ◌%◌, ◌^◌, Text, Bool, true, false, not, Option, none, some, List, [], ◌∷◌, filter,
  contains, ltb, nat_eq, nat_key, if◌then◌else◌, Answer,
}
use shinran.Wayland.Context.{
  Outcome, completed, panicked, ◌then_do◌, u32_mod, XkbState, Keymap, KeyState, released, pressed,
  Request, grab_keyboard, release_grab, RepeatTimer, InputContext, slots, send, mark_as_pressed,
  release_if_pressed, handle_key, repeat_key,
}

-- What an event of one seat can change: its context, and of `State` whether the client runs and
-- the timers of the loop. `next_token` is the token that the loop gives out next.
pub record Seat : Type 0 where
  pub context : InputContext
  pub running : Bool
  pub timers : List ℕ
  pub next_token : ℕ

-- `none` stands for a value that the protocol does not name (`WEnum::Unknown`).
pub data Event : Type 0 where
  key_event : (time key : ℕ) → Option KeyState → Event
  modifiers_event : (depressed latched locked group : ℕ) → Event
  keymap_event : (format : Option ℕ) (fd size : ℕ) → Event
  repeat_info : (rate delay : ℕ) → Event
  activate deactivate surrounding_text text_change_cause content_type done unavailable : Event
  timer_fires : (token : ℕ) → Event

-- `WlKeyboard::KeymapFormat::XkbV1`
abbrev pub xkb_v1 : ℕ
xkb_v1 = 1

-- `i as u64`
abbrev pub as_u64 : ℕ → ℕ
as_u64 i = if ltb i (2 ^ 31) then i else i + (2 ^ 64 - 2 ^ 32)

-- What the client works with. `new_from_fd` is `none` where it returns an error, and `new_state` is
-- `xkb::State::new`.
pub record Host (E : Type 0) : Type 0 where
  pub check_trigger : Text → Answer E (Option Text)
  pub update_mask : XkbState → (depressed latched locked group : ℕ) → XkbState
  pub new_from_fd : (fd size : ℕ) → Option (Option Keymap)
  pub new_state : Keymap → XkbState

abbrev pub with_context : Seat → InputContext → Seat
with_context s c = record s { context = c }

abbrev pub remove_timer : ℕ → List ℕ → List ℕ
remove_timer token timers = filter (λ (t : ℕ). not (nat_eq t token)) timers

-- The key goes to the virtual keyboard.
unfoldable pub forward : ℕ → ℕ → KeyState → Seat → Seat
forward time key_number key_state s =
    with_context s (send (Request.key time key_number key_state) s.context)

-- `loop_handle.update(&token).expect(..)`
unfoldable pub update_timer : ℕ → Seat → Outcome Seat
update_timer token s = if contains s.timers token then completed s else panicked

-- The timer of the first check takes over the key `keycode`.
unfoldable pub repeat_instead : RepeatTimer → ℕ → ℕ → Seat → Outcome Seat
repeat_instead repeating time keycode s = elim s.context.repeat_delay [
  | none ↦ panicked
  | some repeat_delay ↦
      let timestamp = (time + repeat_delay % u32_mod) % u32_mod in
      let timer = record repeating { keycode = keycode; timestamp = timestamp } in
      update_timer repeating.registration
        (with_context s (record s.context { repeat_timer = some timer }))
]

-- After `handle_key` in the first check: `repeating` is the timer of another key.
unfoldable pub press_over :
    RepeatTimer → (time key keycode : ℕ) → Seat → InputContext × Option Bool → Outcome Seat
press_over repeating time key keycode s (c, some true) = elim c.xkb_keymap [
  | none ↦ panicked
  | some xkb_keymap ↦ elim (xkb_keymap.key_repeats keycode) [
    | true ↦ repeat_instead repeating time keycode (with_context s (mark_as_pressed keycode c))
    | false ↦
        completed (with_context s (record (mark_as_pressed keycode c) { repeat_timer = none }))
  ]
]
press_over repeating time key keycode s (c, some false) =
    let sent = forward time key pressed (with_context s c) in
    completed (record sent {
      context = record sent.context { repeat_timer = none };
      timers = remove_timer repeating.registration sent.timers;
    })
press_over repeating time key keycode s (c, none) =
    completed (record s { context = c; running = false })

-- The fourth check: a timer for the key is registered with the loop.
unfoldable pub start_repeating : ℕ → ℕ → Seat → Outcome Seat
start_repeating time keycode s = elim s.context.repeat_delay [
  | none ↦ panicked
  | some repeat_delay ↦
      let timer : RepeatTimer = record {
        keycode = keycode;
        timestamp = (time + repeat_delay % u32_mod) % u32_mod;
        registration = s.next_token;
      } in
      completed (record s {
        context = record (mark_as_pressed keycode s.context) { repeat_timer = some timer };
        timers = s.next_token ∷ s.timers;
        next_token = s.next_token + 1;
      })
]

-- The fourth and the fifth check, and the end: `handled` says whether the key was handled.
unfoldable pub press_first : (time key keycode : ℕ) → Seat → Bool → Outcome Seat
press_first time key keycode s handled = elim s.context.xkb_keymap [
  | none ↦ panicked
  | some xkb_keymap ↦ elim handled [
    | false ↦ completed (forward time key pressed s)
    | true ↦ elim (xkb_keymap.key_repeats keycode) [
      | true ↦ start_repeating time keycode s
      | false ↦ completed (with_context s (mark_as_pressed keycode s.context))
    ]
  ]
]

-- The third check
unfoldable pub press_fresh :
    (time key keycode : ℕ) → Seat → InputContext × Option Bool → Outcome Seat
press_fresh time key keycode s (c, some handled) =
    press_first time key keycode (with_context s c) handled
press_fresh time key keycode s (c, none) =
    press_first time key keycode (record s { context = c; running = false }) true

-- The sixth check, and the end
unfoldable pub release_key : (time key keycode : ℕ) → Seat → Seat
release_key time key keycode s =
    let found = release_if_pressed keycode s.context in
    let rest = with_context s found.0 in if found.1 then rest else forward time key released rest

-- The second check
unfoldable pub stop_repeating : RepeatTimer → ℕ → Seat → Seat
stop_repeating repeating keycode s =
    let found = release_if_pressed keycode s.context in
    record s {
      context = record found.0 { repeat_timer = none };
      timers = remove_timer repeating.registration s.timers;
    }

unfoldable pub release : (time key keycode : ℕ) → Seat → Seat
release time key keycode s = elim s.context.repeat_timer [
  | none ↦ release_key time key keycode s
  | some repeating ↦
      if nat_eq repeating.keycode keycode
      then stop_repeating repeating keycode s
      else release_key time key keycode s
]

-- The first check, and the others: `repeat_timer` is that of the context before the key.
unfoldable pub press_with :
    Option RepeatTimer → (time key keycode : ℕ) → Seat → InputContext × Option Bool → Outcome Seat
press_with none time key keycode s handled = press_fresh time key keycode s handled
press_with (some repeating) time key keycode s handled =
    if nat_eq repeating.keycode keycode
    then press_fresh time key keycode s handled
    else press_over repeating time key keycode s handled

-- `Event::Done`
unfoldable pub grab_or_release : InputContext → InputContext
grab_or_release c =
    if c.keyboard_grab
    then if c.pending_deactivate
      then record (send release_grab c) { keyboard_grab = false; pressed = slots 64 }
      else c
    else if c.pending_activate
    then record (send grab_keyboard c) { keyboard_grab = true }
    else c

unfoldable pub apply_pending : InputContext → InputContext
apply_pending c =
    record (grab_or_release (record c { num_done_events = (c.num_done_events + 1) % u32_mod })) {
      pending_activate = false;
      pending_deactivate = false;
    }

unfoldable pub keep_or_drop : ℕ → Seat → InputContext × Bool → Outcome Seat
keep_or_drop token s (c, true) = completed (with_context s c)
keep_or_drop token s (c, false) =
    completed (record s { context = c; timers = remove_timer token s.timers })

abbrev pub on_context : (InputContext → InputContext) → Seat → Outcome Seat
on_context f s = completed (with_context s (f s.context))

module _ {E : Type 0} (host : Host E) where
  unfoldable pub press : (time key keycode : ℕ) → Seat → Outcome Seat
  press time key keycode s =
      handle_key host.check_trigger keycode s.context
      then_do press_with s.context.repeat_timer time key keycode s

  unfoldable pub press_or_release : (time key keycode : ℕ) → KeyState → Seat → Outcome Seat
  press_or_release time key keycode pressed s = press time key keycode s
  press_or_release time key keycode released s = completed (release time key keycode s)

  -- `Event::Key`
  unfoldable pub on_key : (time key : ℕ) → Option KeyState → Seat → Outcome Seat
  on_key time key none s = panicked
  on_key time key (some key_state) s = elim s.context.xkb_state [
    | none ↦ completed s
    | some xkb_state ↦ press_or_release time key ((key + 8) % u32_mod) key_state s
  ]

  -- `Event::Modifiers`
  unfoldable pub update_modifiers :
      (depressed latched locked group : ℕ) → InputContext → InputContext
  update_modifiers depressed latched locked group c = elim c.xkb_state [
    | none ↦ c
    | some xkb_state ↦
        let masked = host.update_mask xkb_state depressed latched locked group in
        send (Request.modifiers depressed latched locked group)
          (record c { xkb_state = some masked })
  ]

  unfoldable pub use_keymap : Option (Option Keymap) → InputContext → Outcome InputContext
  use_keymap none c = panicked
  use_keymap (some none) c = completed (record c { xkb_keymap = none })
  use_keymap (some (some compiled)) c =
      completed
        (record c { xkb_keymap = some compiled; xkb_state = some (host.new_state compiled) })

  -- `Event::Keymap`; another format than a named one is no arm of the `match`
  unfoldable pub load_keymap : Option ℕ → (fd size : ℕ) → InputContext → Outcome InputContext
  load_keymap none fd size c = panicked
  load_keymap (some format) fd size c =
      let sent = send (Request.keymap format fd size) c in
      if nat_eq format xkb_v1 then use_keymap (host.new_from_fd fd size) sent else completed sent

  -- The loop calls `repeat_key` for a timer that is registered.
  unfoldable pub fire : ℕ → Seat → Outcome Seat
  fire token s =
      if contains s.timers token
      then repeat_key host.check_trigger s.context then_do keep_or_drop token s
      else completed s

  unfoldable pub step : Event → Seat → Outcome Seat
  step (key_event time key key_state) s = on_key time key key_state s
  step (modifiers_event depressed latched locked group) s =
      on_context (update_modifiers depressed latched locked group) s
  step (keymap_event format fd size) s =
      load_keymap format fd size s.context then_do λ c. completed (with_context s c)
  step (repeat_info rate delay) s =
      on_context
        (λ c. record c { repeat_rate = some (as_u64 rate); repeat_delay = some (as_u64 delay) }) s
  step activate s = on_context (λ c. record c { pending_activate = true }) s
  step deactivate s = on_context (λ c. record c { pending_deactivate = true }) s
  step done s = on_context apply_pending s
  step (timer_fires token) s = fire token s
  step _ s = completed s

  unfoldable pub run : List Event → Seat → Outcome Seat
  run [] s = completed s
  run (event ∷ events) s = step event s then_do run events
