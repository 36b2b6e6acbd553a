-- ===== src/Backend/Adapter.antt =====
-- `RendererAdapter::render` of crates/shinran_backend/src/render.rs, `process_cursor_hint` of src/cursor.rs
-- and `Backend::check_trigger` of src/lib.rs.
use shinran.Prelude.{
  or_else, ℕ, ◌+◌, ◌-◌, ◌%◌, ◌^◌, Text, text_key, text_eq, codes, Bool, true, false, Option, none,
  some, [], ◌∷◌, head?, any, Answer, answer, refused, crashed, unending, if◌then◌else◌,
}
use shinran.Prelude.Dict.{Map}
use shinran.Types.{
  VarType, string, end, Variable, default_variable, TextEffect, MatchEffect, MatchRef, TriggerMatch,
}
use shinran.Types.Params
use shinran.Render.{VarRegex, RenderResult, Context, Extensions}
use shinran.Render
use shinran.Render.Casing.{Unicode}
use shinran.Render.Template.{render_template}
use shinran.Backend.{
  RendererError, rendering_error, not_found, aborted, DetectedMatch, BuiltInMatch,
}
use shinran.Backend.CasingStyle.{calculate_casing_style}
use shinran.Backend.ProfileCache.{find_matches_from_trigger}
use shinran.Backend.Regex.{RegexCrate, RegexMatcher}
use shinran.Backend.Regex

-- The variable that carries a named group of a regex.
unfoldable pub trigger_variable : Text → Text → Variable
trigger_variable name value = record default_variable {
  name = name;
  var_type = VarType.echo;
  params = Params.insert (codes "echo") (string value) end;
  inject_vars = false;
}

-- Each is put before the variables that are there.
unfoldable pub augment : Map Text Text → TextEffect → TextEffect
augment [] template = template
augment ((name, value) ∷ args) template =
    augment args (record template { vars = trigger_variable name value ∷ template.vars })

-- The guard on a trigger that does not propagate its case.
unfoldable pub is_expected : TriggerMatch → Option Text → Bool
is_expected m none = true
is_expected m (some trigger) = if m.propagate_case then true else any (text_eq trigger) m.triggers

unfoldable pub from_result : RenderResult → Answer RendererError Text
from_result (RenderResult.success body) = answer body
from_result RenderResult.aborted = refused aborted
from_result (RenderResult.error e) = refused (rendering_error e)
from_result RenderResult.panic = crashed
from_result RenderResult.out_of_fuel = unending

-- `str::find` and `str::replace` of "$|$", and the count of `graphemes(true)`, which is a parameter.
abbrev pub starts_hint : ℕ → ℕ → ℕ → Bool
starts_hint a b c = text_eq (a ∷ b ∷ c ∷ []) (codes "$|$")

abbrev pub before_hint : Text → Option Text
before_hint [] = none
before_hint (a ∷ []) = none
before_hint (a ∷ b ∷ []) = none
before_hint (a ∷ b ∷ c ∷ s) =
    let rest = before_hint (b ∷ c ∷ s) in
    if starts_hint a b c
    then some []
    else elim rest [ none ↦ none | some prefix ↦ some (a ∷ prefix) ]

abbrev pub remove_hints : Text → Text
remove_hints [] = []
remove_hints (a ∷ []) = a ∷ []
remove_hints (a ∷ b ∷ []) = a ∷ b ∷ []
remove_hints (a ∷ b ∷ c ∷ s) =
    let behind = remove_hints s in
    let rest = remove_hints (b ∷ c ∷ s) in if starts_hint a b c then behind else a ∷ rest

-- A `usize` is a number below 2 ^ 64.
unfoldable pub process_cursor_hint : (Text → ℕ) → Text → Text × Option ℕ
process_cursor_hint graphemes body = elim (before_hint body) [
  | none ↦ (body, none)
  | some prefix ↦
      (remove_hints body, some ((graphemes body + 2 ^ 64 + 2 ^ 64 - graphemes prefix - 3) % 2 ^ 64))
]

abbrev pub map_answer : {E A B : Type 0} → (A → B) → Answer E A → Answer E B
map_answer f (answer x) = answer (f x)
map_answer f (refused e) = refused e
map_answer f crashed = crashed
map_answer f unending = unending

-- The back end at work: the caches of the active profile, and the crates.
pub record Backend : Type 0 where
  pub var_regex : VarRegex
  pub unicode : Unicode
  pub extensions : Extensions
  pub crate : RegexCrate
  pub graphemes : Text → ℕ
  pub trigger_map : Map Text TriggerMatch
  pub global_var_map : Map Text Variable
  pub regex_matcher : RegexMatcher
  pub builtin_match_cache : Map ℕ BuiltInMatch

module _ (backend : Backend) where
  -- The first match of `find_matches_from_trigger`, else the first of `find_regex_matches`.
  unfoldable pub detect : Text → Option DetectedMatch
  detect trigger =
      or_else
        (head? (find_matches_from_trigger backend.trigger_map backend.builtin_match_cache trigger))
        (head? (Regex.find_matches backend.crate backend.regex_matcher trigger))

module _ (backend : Backend) (fuel : ℕ) where
  -- The template of a match, rendered in the casing that the trigger asks for.
  unfoldable pub render_effect :
      MatchEffect → Render.CasingStyle → Map Text Text → Answer RendererError Text
  render_effect (MatchEffect.text template) style args = from_result (
      render_template backend.var_regex backend.unicode backend.extensions
        (record { matches_map = backend.trigger_map; global_vars_map = backend.global_var_map })
        fuel style (augment args template))
  render_effect _ style args = refused not_found

  unfoldable pub casing_style : TriggerMatch → Option Text → Render.CasingStyle
  casing_style m none = Render.CasingStyle.unchanged
  casing_style m (some trigger) =
      if m.propagate_case
      then calculate_casing_style backend.unicode trigger (some m.uppercase_style)
      else Render.CasingStyle.unchanged

  unfoldable pub render : MatchRef → Option Text → Map Text Text → Answer RendererError Text
  render (MatchRef.trigger m) trigger args =
      if is_expected m trigger
      then render_effect m.base_match.effect (casing_style m trigger) args
      else refused not_found
  render (MatchRef.regex m) trigger args =
      render_effect m.base_match.effect Render.CasingStyle.unchanged args
  render (MatchRef.builtin id) trigger args = crashed

  unfoldable pub answer_with : Text → Option DetectedMatch → Answer RendererError (Option Text)
  answer_with trigger none = answer none
  answer_with trigger (some m) =
      map_answer (λ body. some (process_cursor_hint backend.graphemes body).0)
        (render m.id (some trigger) m.args)

  unfoldable pub check_trigger : Text → Answer RendererError (Option Text)
  check_trigger trigger = answer_with trigger (detect backend trigger)
