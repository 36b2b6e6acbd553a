-- ===== src/Backend/Answers.antt =====
-- What `check_trigger` of crates/shinran_backend/src/lib.rs answers.
use shinran.Prelude.{
  or_else, ℕ, suc, Text, text_key, text_eq, to_ascii_lowercase, Bool, true, false, Option, none,
  some, List, [], ◌∷◌, ◌≡◌, refl, ap, ◌∙◌, subst, arith, any, All, filter_map, if◌then◌else◌,
  answer, refused,
}
use mathlib.Core.Option.{some-injective}
use shinran.Prelude.Dict.{lookup, values}
use shinran.Types.{TextEffect, MatchEffect, MatchRef, TriggerMatch, MatchesAndGlobalVars}
use shinran.Render.{VarRegex, Extensions, Context, RenderResult, unchanged}
use shinran.Render.Util.{unescape_variable_inections}
use shinran.Render.Casing.{Unicode, apply_casing}
use shinran.Render.Template.{is_match, render_template}
use shinran.Backend.{not_found, BuiltInMatch}
use shinran.Backend.ProfileCache.{
  create_profile_cache, create_profile_cache-last, last_with, find_matches_from_trigger, detected,
  detect_builtin,
}
use shinran.Backend.Regex
use shinran.Backend.Adapter.{
  Backend, augment, is_expected, from_result, process_cursor_hint, render_effect, casing_style,
  render, detect, answer_with, check_trigger, map_answer, remove_hints,
}
use shinran.Backend.Hints.{process_cursor_hint-remove_hints}

here-any :
    (trigger : Text) (n m : TriggerMatch) (b : Bool)
    → any (text_eq trigger) n.triggers ≡ b
    → (if b then some n else none) ≡ some m
    → any (text_eq trigger) m.triggers ≡ true
here-any trigger n m true h q =
    subst (λ (m : TriggerMatch). any (text_eq trigger) m.triggers ≡ true) (some-injective n m q) h
here-any trigger n m false h q = absurd (ground arith)

or_else-any :
    (trigger : Text) (n m : TriggerMatch) (o : Option TriggerMatch)
    → (o ≡ some m → any (text_eq trigger) m.triggers ≡ true)
    → or_else o (if any (text_eq trigger) n.triggers then some n else none) ≡ some m
    → any (text_eq trigger) m.triggers ≡ true
or_else-any trigger n m none later q =
    here-any trigger n m (any (text_eq trigger) n.triggers) refl q
or_else-any trigger n m (some k) later q = later q

-- A match that the cache gives for a trigger has the trigger.
last_with-any :
    (trigger : Text) (ms : List TriggerMatch) (m : TriggerMatch)
    → last_with trigger ms ≡ some m
    → any (text_eq trigger) m.triggers ≡ true
last_with-any trigger [] m q = absurd (ground arith)
last_with-any trigger (n ∷ ms) m q =
    or_else-any trigger n m (last_with trigger ms) (last_with-any trigger ms m) q

render_template-plain :
    (regex : VarRegex) (unicode : Unicode) (extensions : Extensions) (context : Context) (fuel : ℕ)
    (t : TextEffect)
    → is_match regex t.body ≡ false
    → render_template regex unicode extensions context (suc fuel) unchanged t
      ≡ RenderResult.success (unescape_variable_inections t.body)
unfolding render_template apply_casing
render_template-plain regex unicode extensions context fuel t h = rw (h, render_template) refl

module _ (backend : Backend) (trigger : Text) where
  pub detect-trigger :
      (m : TriggerMatch)
      → or_else
          (lookup trigger backend.trigger_map)
          (lookup (to_ascii_lowercase trigger) backend.trigger_map)
        ≡ some m
      → detect backend trigger ≡ some (detected (MatchRef.trigger m) trigger)
  unfolding detect find_matches_from_trigger
  detect-trigger m q = rw (q) refl

module _ (backend : Backend) (fuel : ℕ) (trigger : Text) where
  -- A trigger that is found only in lower case, of a match that does not propagate its case, is answered
  -- by the error `NotFound`, whatever regular expressions match it.
  pub check_trigger_wrong_case :
      (m : TriggerMatch)
      → lookup trigger backend.trigger_map ≡ none
      → lookup (to_ascii_lowercase trigger) backend.trigger_map ≡ some m
      → m.propagate_case ≡ false
      → any (text_eq trigger) m.triggers ≡ false
      → check_trigger backend fuel trigger ≡ refused not_found
  unfolding check_trigger answer_with render is_expected
  check_trigger_wrong_case m q l p t = rw (detect-trigger backend trigger m (rw (q) l), p, t) refl

  -- A trigger that is not in the cache, neither as typed nor in lower case, and that no regular
  -- expression matches has no answer, where the built-in matches have no triggers.
  pub check_trigger_nothing :
      lookup trigger backend.trigger_map ≡ none
      → lookup (to_ascii_lowercase trigger) backend.trigger_map ≡ none
      → All (λ (m : BuiltInMatch). m.triggers ≡ []) (values backend.builtin_match_cache)
      → Regex.find_matches backend.crate backend.regex_matcher trigger ≡ []
      → check_trigger backend fuel trigger ≡ answer none
  unfolding check_trigger answer_with detect find_matches_from_trigger detect_builtin
  check_trigger_nothing q l b r =
      rw (q, l, no_builtin (values backend.builtin_match_cache) b, r) refl
    where
      no_builtin :
          (ms : List BuiltInMatch)
          → All (λ (m : BuiltInMatch). m.triggers ≡ []) ms
          → filter_map (detect_builtin trigger) ms ≡ []
      no_builtin [] h = refl
      no_builtin (m ∷ ms) (h, hs) = rw (h) (no_builtin ms hs)

  -- With a cache that was made from the matches of a profile, a trigger whose last match in the
  -- profile has a text without variables and no case to propagate is answered by this text:
  -- injections unescaped, cursor hints removed.
  pub check_trigger-plain :
      (collection : MatchesAndGlobalVars) (m : TriggerMatch) (template : TextEffect)
      → backend.trigger_map ≡ (create_profile_cache collection).0
      → last_with trigger collection.trigger_matches ≡ some m
      → m.propagate_case ≡ false
      → m.base_match.effect ≡ MatchEffect.text template
      → is_match backend.var_regex template.body ≡ false
      → check_trigger backend (suc fuel) trigger
        ≡ answer (some (remove_hints (unescape_variable_inections template.body)))
  unfolding check_trigger answer_with render is_expected casing_style render_effect augment
      from_result
  check_trigger-plain collection m template c l p e b =
      let found : lookup trigger backend.trigger_map ≡ some m =
        ap (lookup trigger) c ∙ create_profile_cache-last collection trigger ∙ l in
      rw (detect-trigger backend trigger m (rw (found) refl)) (
        rw (p, last_with-any trigger collection.trigger_matches m l, e)
          (ap
              (λ r.
                map_answer (λ body. some (process_cursor_hint backend.graphemes body).0)
                  (from_result r))
              (render_template-plain backend.var_regex backend.unicode backend.extensions _ fuel
                template b)
            ∙ ap (λ s. answer (some s))
                (process_cursor_hint-remove_hints backend.graphemes
                  (unescape_variable_inections template.body))))
