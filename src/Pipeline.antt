-- ===== src/Pipeline.antt =====
-- The parts of the program together: a match file that crates/shinran_config reads, the caches and the
-- answer of crates/shinran_backend and crates/shinran_render, and the client of crates/shinran_wayland
-- that commits it, or the input method of crates/shinran_ibus.
mod Tests
use shinran.Prelude.{
  ℕ, suc, ◌≡◌, refl, ap, ◌∙◌, Text, text_eq, Bool, true, false, any, Option, none, some, List, [],
  ◌∷◌, ◌++◌, unwrap_or, answer, text_key, to_ascii_lowercase,
}
use shinran.Types.{TextFormat, MatchEffect, MatchesAndGlobalVars}
use shinran.Render.Template.{is_match}
use shinran.Render.Util.{unescape_variable_inections}
use shinran.Backend.{RendererError, not_found}
use shinran.Backend.ProfileCache.{create_profile_cache, create_profile_cache-last, last_with}
use shinran.Backend.Adapter.{Backend, check_trigger, remove_hints}
use shinran.Backend.Answers.{check_trigger-plain, check_trigger_wrong_case}
use shinran.Config.Yaml.Match.{YamlMatch, Converted, Crates, trigger_cause, triggers_of, body_of}
use shinran.Config.Yaml.File.{convert_matches}
use shinran.Config.Yaml.Triggers.{triggers_with, trigger_match, convert_matches-last}
use shinran.Wayland.Context.{
  Outcome, completed, XkbState, Keymap, return_, commit, commit_string, pressed,
}
use shinran.Wayland.Seat.{Seat, Host, key_event, step}
use shinran.Wayland.Seat.Kept.{keycode_of}
use shinran.Wayland.Seat.Commit.{press_return-commits}
use shinran.Ibus.Engine
use shinran.Ibus.Engine.{ShinranEngine, panicked, is_empty, process_key_event}
use shinran.Ibus.Engine.Faults.{IsPressed, process_key_event-panics_on_error}
use shinran.Prelude.Dict.{lookup}

-- The client asks the back end for what was typed.
abbrev pub with_backend : {E : Type 0} → Host E → Backend → ℕ → Host RendererError
with_backend host backend fuel = record {
  check_trigger = check_trigger backend fuel;
  update_mask = host.update_mask;
  new_from_fd = host.new_from_fd;
  new_state = host.new_state;
}

-- The input method with the back end
abbrev pub engine_with_backend :
    {E : Type 0} → Engine.Host E → Backend → ℕ → Engine.Host RendererError
engine_with_backend host backend fuel = record {
  sends = host.sends;
  check_trigger = check_trigger backend fuel;
  fuzzy_match = host.fuzzy_match;
  keysym = host.keysym;
}

module _ (backend : Backend) (fuel : ℕ) (crates : Crates) (s : Converted)
    (collection : MatchesAndGlobalVars) (before after : List YamlMatch) (m : YamlMatch)
    (trigger : Text) (triggers : List Text) (body : Text × TextFormat) where
  -- What the back end answers to a trigger of a match file.
  file-answer :
      backend.trigger_map ≡ (create_profile_cache collection).0
      → collection.trigger_matches
        ≡ (convert_matches crates (before ++ m ∷ after) s).trigger_matches
      → triggers_of m ≡ some triggers
      → any (text_eq trigger) triggers ≡ true
      → body_of m ≡ some body
      → m.vars ≡ none
      → unwrap_or m.propagate_case false ≡ false
      → any (triggers_with trigger) after ≡ false
      → is_match backend.var_regex body.0 ≡ false
      → check_trigger backend (suc fuel) trigger
        ≡ answer (some (remove_hints (unescape_variable_inections body.0)))
  unfolding trigger_cause
  file-answer cache collected t has b v p none_after plain =
      check_trigger-plain backend fuel trigger collection (trigger_match crates m triggers body) _
        cache
        (ap (last_with trigger) collected
          ∙ convert_matches-last crates before after m s trigger triggers body t has b v none_after)
        p refl plain

  -- From the file to the text on the screen: when the profile has the matches of a file, the trigger
  -- of a match with a body without variables, with no case to propagate and no later match of the
  -- trigger, is typed into the Wayland client, and Return is pressed, the client commits the body,
  -- injections unescaped and cursor hints removed, and ends.
  pub return-commits_body :
      {E : Type 0} (host : Host E) (time number delay : ℕ) (seat : Seat) (xkb_state : XkbState)
      (xkb_keymap : Keymap)
      → backend.trigger_map ≡ (create_profile_cache collection).0
      → collection.trigger_matches
        ≡ (convert_matches crates (before ++ m ∷ after) s).trigger_matches
      → triggers_of m ≡ some triggers
      → any (text_eq trigger) triggers ≡ true
      → body_of m ≡ some body
      → m.vars ≡ none
      → unwrap_or m.propagate_case false ≡ false
      → any (triggers_with trigger) after ≡ false
      → is_match backend.var_regex body.0 ≡ false
      → seat.context.xkb_state ≡ some xkb_state
      → seat.context.xkb_keymap ≡ some xkb_keymap
      → seat.context.repeat_delay ≡ some delay
      → xkb_state.key_get_one_sym (keycode_of number) ≡ return_
      → seat.context.buffer ≡ some trigger
      → (seat' : Seat) × (step
            (with_backend host backend (suc fuel))
            (key_event time number (some pressed))
            seat
          ≡ completed seat')
        × (seat'.running ≡ false)
        × (seat'.context.sent
            ≡ commit seat.context.num_done_events
              ∷ commit_string (remove_hints (unescape_variable_inections body.0))
              ∷ seat.context.sent)
  return-commits_body host time number delay seat xkb_state xkb_keymap cache collected t has b v p
        none_after plain ready keymap rate sym typed =
      press_return-commits (with_backend host backend (suc fuel)) time number delay seat xkb_state
        xkb_keymap trigger _ ready keymap rate sym typed
        (file-answer cache collected t has b v p none_after plain)

  -- A text in the wrong case makes the input method panic: the profile has the matches of a file,
  -- and the lower case of the text, which is not empty, is a trigger of a match with a body, without
  -- variables, with no case to propagate and with no later match of the trigger. If the text itself is no trigger,
  -- neither of the match nor of the profile, then the press of Return panics.
  pub return-panics_on_wrong_case :
      {E : Type 0} (host : Engine.Host E) (keyval keycode state : ℕ) (engine : ShinranEngine)
      → backend.trigger_map ≡ (create_profile_cache collection).0
      → collection.trigger_matches
        ≡ (convert_matches crates (before ++ m ∷ after) s).trigger_matches
      → triggers_of m ≡ some triggers
      → to_ascii_lowercase engine.text ≡ trigger
      → any (text_eq trigger) triggers ≡ true
      → any (text_eq engine.text) triggers ≡ false
      → last_with engine.text collection.trigger_matches ≡ none
      → body_of m ≡ some body
      → m.vars ≡ none
      → unwrap_or m.propagate_case false ≡ false
      → any (triggers_with trigger) after ≡ false
      → is_empty engine.text ≡ false
      → IsPressed state
      → host.keysym keyval ≡ Engine.return_
      → process_key_event (engine_with_backend host backend fuel) keyval keycode state engine
        ≡ panicked
  unfolding trigger_cause
  return-panics_on_wrong_case host keyval keycode state engine cache collected t lower has hasnt
        unknown b v p none_after typed h k =
      let typed_text = engine.text in
      let upper : lookup typed_text backend.trigger_map ≡ none =
        ap (lookup typed_text) cache ∙ create_profile_cache-last collection typed_text ∙ unknown in
      let found : lookup (to_ascii_lowercase typed_text) backend.trigger_map
          ≡ some (trigger_match crates m triggers body) =
        ap (λ x. lookup x backend.trigger_map) lower
        ∙ ap (lookup trigger) cache
        ∙ create_profile_cache-last collection trigger
        ∙ ap (last_with trigger) collected
        ∙ convert_matches-last crates before after m s trigger triggers body t has b v none_after in
      process_key_event-panics_on_error (engine_with_backend host backend fuel) keyval keycode state
        engine not_found h k typed
        (check_trigger_wrong_case backend fuel typed_text (trigger_match crates m triggers body)
          upper found p hasnt)
