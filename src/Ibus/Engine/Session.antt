-- ===== src/Ibus/Engine/Session.antt =====
-- A whole session with the engine: the calls of the bus in any order
-- (crates/shinran_ibus/src/engine.rs).
use shinran.Prelude.{
  ℕ, ◌+◌, ◌-◌, ◌/◌, ◌%◌, ◌^◌, ◌≤◌, ◌<◌, Text, Bool, true, false, Option, none, some, List, [], ◌∷◌,
  ◌≡◌, refl, subst, arith, length, All, ltb, nat_eq, if◌then◌else◌, answer,
}
use shinran.Ibus.Engine.{
  Host, Keysym, return_, kp_enter, escape, back_space, delete, kp_delete, left, kp_left, right,
  kp_right, other, ShinranEngine, Outcome, completed, failed, panicked, endless, release_mask,
  forward_key_event, process_key_event, focus_out, reset, enable, destroy, exit, ◌then_do◌,
  clear_text, send, press,
}
use shinran.Ibus.Engine.Editor.{
  Editor, with_text, erase, erase_next, go_left, go_right, insert_char, strike, Represents, Ends,
  HasRoom, Ends-then_do, TypesAscii,
}
use shinran.Ibus.Engine.Keys.{press-Represents}
use shinran.Ibus.Engine.Handlers.{send-Represents, clear_text-Represents, exit-Represents}

pub data Event : Type 0 where
  key : (keyval keycode state : ℕ) → Event
  unfocused : (now : ℕ) → Event
  restarted : Event
  enabled : (now : ℕ) → Event
  destroyed : Event

abbrev pub handle : {E : Type 0} → Host E → Event → ShinranEngine → Outcome
handle host (key keyval keycode state) e = process_key_event host keyval keycode state e
handle host (unfocused now) e = focus_out host now e
handle host restarted e = reset host e
handle host (enabled now) e = completed (enable now e)
handle host destroyed e = completed (destroy e)

abbrev pub after : Outcome → (ShinranEngine → Outcome) → Outcome
after (completed e) f = f e
after (failed e) f = f e
after panicked f = panicked
after endless f = endless

-- A handler that returns an error leaves the engine in use.
abbrev pub serve : {E : Type 0} → Host E → List Event → ShinranEngine → Outcome
serve host [] e = completed e
serve host (event ∷ events) e = after (handle host event e) (serve host events)

-- What the events are meant to do.
abbrev pub respond : (ℕ → Keysym) → Event → Editor → Editor
respond keysym (key keyval keycode state) d =
    if nat_eq ((state / release_mask) % 2) 1 then d else strike (keysym keyval) d
respond keysym (unfocused now) d = if ltb (now - d.started) 250 then d else with_text [] [] d
respond keysym restarted d = with_text [] [] d
respond keysym (enabled now) d = record d { started = now }
respond keysym destroyed d = d

abbrev pub respond_all : (ℕ → Keysym) → List Event → Editor → Editor
respond_all keysym [] d = d
respond_all keysym (event ∷ events) d = respond_all keysym events (respond keysym event d)

abbrev pub IsAsciiEvent : (ℕ → Keysym) → Event → Type 0
IsAsciiEvent keysym (key keyval keycode state) = TypesAscii (keysym keyval)
IsAsciiEvent keysym (unfocused now) = Unit
IsAsciiEvent keysym restarted = Unit
IsAsciiEvent keysym (enabled now) = Unit
IsAsciiEvent keysym destroyed = Unit

abbrev pub size : Editor → ℕ
size d = length d.before + length d.after

size-erase :
    (b a : Text) (d : Editor) → size (erase b a (with_text b a d)) ≤ length b + length a + 1
size-erase [] a d = omega arith
size-erase (c ∷ b) a d = omega arith

size-erase_next :
    (b a : Text) (d : Editor) → size (erase_next b a (with_text b a d)) ≤ length b + length a + 1
size-erase_next b [] d = omega arith
size-erase_next b (c ∷ a) d = omega arith

size-go_left :
    (b a : Text) (d : Editor) → size (go_left b a (with_text b a d)) ≤ length b + length a + 1
size-go_left [] a d = omega arith
size-go_left (c ∷ b) a d = omega arith

size-go_right :
    (b a : Text) (d : Editor) → size (go_right b a (with_text b a d)) ≤ length b + length a + 1
size-go_right b [] d = omega arith
size-go_right b (c ∷ a) d = omega arith

size-insert_char : (c : Option ℕ) (d : Editor) → size (insert_char c d) ≤ size d + 1
size-insert_char none d = omega arith
size-insert_char (some c) d = ground arith

size-strike : (k : Keysym) (d : Editor) → size (strike k d) ≤ size d + 1
size-strike return_ d = omega arith
size-strike kp_enter d = omega arith
size-strike escape d = omega arith
size-strike back_space d = size-erase d.before d.after d
size-strike delete d = size-erase_next d.before d.after d
size-strike kp_delete d = size-erase_next d.before d.after d
size-strike left d = size-go_left d.before d.after d
size-strike kp_left d = size-go_left d.before d.after d
size-strike right d = size-go_right d.before d.after d
size-strike kp_right d = size-go_right d.before d.after d
size-strike (other c) d = size-insert_char c d

size-respond :
    (keysym : ℕ → Keysym) (event : Event) (d : Editor) → size (respond keysym event d) ≤ size d + 1
size-respond keysym (key keyval keycode state) d = ground (arith, size-strike (keysym keyval) d)
size-respond keysym (unfocused now) d = ground arith
size-respond keysym restarted d = omega arith
size-respond keysym (enabled now) d = omega arith
size-respond keysym destroyed d = omega arith

Ends-after :
    {P : ShinranEngine → Type 0} (Q : ShinranEngine → Type 0) (o : Outcome)
    (f : ShinranEngine → Outcome)
    → Ends P o
    → ((e : ShinranEngine) → P e → Ends Q (f e))
    → Ends Q (after o f)
Ends-after Q (completed e) f p q = q e p
Ends-after Q (failed e) f p q = q e p
Ends-after Q panicked f p q = elim p [ ]
Ends-after Q endless f p q = elim p [ ]

module _ {E : Type 0} (host : Host E)
    (answers : (s : Text) → (output : Option Text) × (host.check_trigger s ≡ answer output)) where
  process_key_event-Represents :
      (keyval keycode state : ℕ) (d : Editor) (e : ShinranEngine)
      → TypesAscii (host.keysym keyval)
      → HasRoom d
      → Represents d e
      → Ends
          (Represents (respond host.keysym (key keyval keycode state) d))
          (process_key_event host keyval keycode state e)
  unfolding process_key_event
  process_key_event-Represents keyval keycode state d e k room r =
      go (nat_eq ((state / release_mask) % 2) 1)
    where
      pass :
          (b : Bool)
          → Ends
              (Represents d)
              (if b then completed e else send host (forward_key_event keyval keycode state) e)
      pass true = r
      pass false = send-Represents host answers (forward_key_event keyval keycode state) d e r

      go :
          (b : Bool)
          → Ends (Represents (if b then d else strike (host.keysym keyval) d)) (
              if b
              then if e.new_key_pressed
                then completed e
                else send host (forward_key_event keyval keycode state) e
              else press host (host.keysym keyval) (record e { new_key_pressed = true }))
      go true = pass e.new_key_pressed
      go false =
          press-Represents host answers (host.keysym keyval) d (record e { new_key_pressed = true })
            k room
            (record {
              same = r.same;
              at = r.at;
              since = r.since;
              ascii_before = r.ascii_before;
              ascii_after = r.ascii_after;
            })

  closed-Represents :
      (d : Editor) (e : ShinranEngine)
      → Represents d e
      → Ends (Represents (with_text [] [] d)) (clear_text host e then_do exit)
  closed-Represents d e r =
      Ends-then_do _ _ (clear_text-Represents host answers d e r)
        (exit-Represents host answers (with_text [] [] d))

  handle-Represents :
      (event : Event) (d : Editor) (e : ShinranEngine)
      → IsAsciiEvent host.keysym event
      → HasRoom d
      → Represents d e
      → Ends (Represents (respond host.keysym event d)) (handle host event e)
  unfolding focus_out reset enable destroy
  handle-Represents (key keyval keycode state) d e k room r =
      process_key_event-Represents keyval keycode state d e k room r
  handle-Represents (unfocused now) d e k room r =
      subst
        (λ t.
          Ends (Represents (if ltb (now - t) 250 then d else with_text [] [] d))
            (focus_out host now e))
        r.since (go (ltb (now - e.start_time) 250))
    where
      go :
          (b : Bool)
          → Ends
              (Represents (if b then d else with_text [] [] d))
              (if b then completed e else clear_text host e then_do exit)
      go true = r
      go false = closed-Represents d e r
  handle-Represents restarted d e k room r = closed-Represents d e r
  handle-Represents (enabled now) d e k room r = record {
    same = r.same;
    at = r.at;
    since = refl;
    ascii_before = r.ascii_before;
    ascii_after = r.ascii_after;
  }
  handle-Represents destroyed d e k room r = exit-Represents host answers d e r

  -- From an engine that holds the text of an editor, whatever the bus calls, in any order and with
  -- signals lost or not, the engine neither panics nor hangs and its text and cursor are those of
  -- the editor: as long as `check_trigger` returns no error, no key types a character outside
  -- ASCII, and text and calls together are fewer than 2 ^ 31.
  pub serve-Represents :
      (events : List Event) (d : Editor) (e : ShinranEngine)
      → All (IsAsciiEvent host.keysym) events
      → size d + length events < 2 ^ 31
      → Represents d e
      → Ends (Represents (respond_all host.keysym events d)) (serve host events e)
  serve-Represents [] d e k room r = r
  serve-Represents (event ∷ events) d e (k, ks) room r =
      Ends-after (Represents (respond_all host.keysym events (respond host.keysym event d)))
        (handle host event e) (serve host events) (handle-Represents event d e k (omega arith) r)
        (λ e' r'.
          serve-Represents events (respond host.keysym event d) e' ks
            (omega (arith, size-respond host.keysym event d)) r')
