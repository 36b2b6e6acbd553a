-- ===== src/Ibus/Engine/Faults.antt =====
-- Where crates/shinran_ibus/src/engine.rs panics, and what a press of Return commits.
use shinran.Prelude.{
  ℕ, ◌+◌, ◌%◌, ◌/◌, ◌^◌, ◌≤◌, Text, Bool, true, false, none, some, List, [], ◌∷◌, ◌≡◌, refl, ap,
  ◌∙◌, arith, length, ltb, if◌then◌else◌, answer, refused,
}
use shinran.Ibus.Bytes.{byte_len, insert_at}
use shinran.Ibus.Engine.{
  Host, Signal, commit_text, update_preedit_text, return_, other, ShinranEngine, completed, failed,
  panicked, ◌then_do◌, release_mask, is_accepted, is_empty, process_key_event, press, press_return,
  type_char, update_text, clear_text, send, exit, send_candidates,
}

-- A key that is pressed, not released.
abbrev pub IsPressed : ℕ → Type 0
IsPressed state = (state / release_mask) % 2 ≡ 0

module _ {E : Type 0} (host : Host E) where
  process_key_event-press :
      (keyval keycode state : ℕ) (e : ShinranEngine)
      → IsPressed state
      → process_key_event host keyval keycode state e
        ≡ press host (host.keysym keyval) (record e { new_key_pressed = true })
  unfolding process_key_event
  process_key_event-press keyval keycode state e h = ground arith

  -- Where the text is not empty and `check_trigger` returns an error for it, the press of Return
  -- panics.
  pub process_key_event-panics_on_error :
      (keyval keycode state : ℕ) (e : ShinranEngine) (x : E)
      → IsPressed state
      → host.keysym keyval ≡ return_
      → is_empty e.text ≡ false
      → host.check_trigger e.text ≡ refused x
      → process_key_event host keyval keycode state e ≡ panicked
  unfolding press press_return
  process_key_event-panics_on_error keyval keycode state e x h k t c =
      process_key_event-press keyval keycode state e h ∙ rw (k, t, c) refl

  inside : (c x : ℕ) → 160 ≤ c → c ≤ 255 → insert_at (c ∷ []) 1 x ≡ none
  inside c x h k = ground arith

  longer : (c : ℕ) → 160 ≤ c → c ≤ 255 → ltb 1 (byte_len (c ∷ [])) ≡ true
  longer c h k = ground arith

  -- With one character of U+00A0 to U+00FF as the text and the cursor behind it, the press of any key
  -- whose character is accepted panics: the cursor counts characters, `String::insert` counts bytes.
  pub process_key_event-panics_on_latin1 :
      (keyval keycode state : ℕ) (e : ShinranEngine) (c x : ℕ)
      → IsPressed state
      → host.keysym keyval ≡ other (some x)
      → is_accepted x ≡ true
      → e.text ≡ c ∷ []
      → e.cursor_pos ≡ 1
      → 160 ≤ c
      → c ≤ 255
      → process_key_event host keyval keycode state e ≡ panicked
  unfolding press type_char
  process_key_event-panics_on_latin1 keyval keycode state e c x h k acc t p lo hi =
      process_key_event-press keyval keycode state e h
      ∙ rw (k, acc, t, p, longer c lo hi, inside c x lo hi) refl

  send-sent :
      (signal : Signal) (e : ShinranEngine)
      → ((s : Signal) → host.sends s ≡ true)
      → send host signal e ≡ completed (record e { signals = signal ∷ e.signals })
  send-sent signal e h = go (host.sends signal) (h signal)
    where
      go :
          (b : Bool)
          → b ≡ true
          → (if b then completed (record e { signals = signal ∷ e.signals }) else failed e)
            ≡ completed (record e { signals = signal ∷ e.signals })
      go true q = refl
      go false q = absurd (ground arith)

  send_candidates-sent :
      (candidates : List (Text × ℕ)) (e : ShinranEngine)
      → ((s : Signal) → host.sends s ≡ true)
      → (signals : List Signal) × (send_candidates host candidates e
          ≡ completed (record e { signals = signals }))
  send_candidates-sent [] e h = (e.signals, refl)
  send_candidates-sent (candidate ∷ rest) e h = (_, send-sent _ e h)

  clear_text-sent :
      (e : ShinranEngine)
      → ((s : Signal) → host.sends s ≡ true)
      → (signals : List Signal) × (clear_text host e
          ≡ completed (record e { text = []; cursor_pos = 0; signals = signals }))
  unfolding clear_text update_text
  clear_text-sent e h =
      let cleared : ShinranEngine = record e { text = []; cursor_pos = 0 } in
      let preedit = update_preedit_text [] (length {A = ℕ} [] % 2 ^ 32) 0 false 0 in
      let sent : ShinranEngine = record cleared { signals = preedit ∷ e.signals } in
      let (signals, q) = send_candidates-sent (host.fuzzy_match []) sent h in
      (
        signals,
        ap (λ o. o then_do send_candidates host (host.fuzzy_match [])) (send-sent preedit cleared h)
            ∙ q,
      )

  -- Where every signal can be emitted and `check_trigger` has an output for a text that is not empty, the
  -- press of Return commits the output as its last signal, empties the text and notifies once.
  pub process_key_event-commits :
      (keyval keycode state : ℕ) (e : ShinranEngine) (output : Text)
      → IsPressed state
      → host.keysym keyval ≡ return_
      → is_empty e.text ≡ false
      → host.check_trigger e.text ≡ answer (some output)
      → ((s : Signal) → host.sends s ≡ true)
      → (signals : List Signal) × (process_key_event host keyval keycode state e
          ≡ completed (record e {
            done = e.done + 1;
            text = [];
            cursor_pos = 0;
            new_key_pressed = true;
            signals = commit_text output ∷ signals;
          }))
  unfolding press press_return
  process_key_event-commits keyval keycode state e output h k t c s =
      let pressed : ShinranEngine = record e { new_key_pressed = true } in
      let (signals, q) = clear_text-sent pressed s in
      (
        signals,
        process_key_event-press keyval keycode state e h
            ∙ rw (k, t, c, q)
                (ap (λ o. o then_do exit)
                  (send-sent (commit_text output)
                    (record pressed { text = []; cursor_pos = 0; signals = signals }) s)),
      )
