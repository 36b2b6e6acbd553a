-- ===== src/Render/Template/Tests.antt =====
-- Tests of `render_template` (crates/shinran_render/src/renderer/mod.rs) on nested matches.
use shinran.Prelude.{
  ℕ, ◌<◌, Text, text_eq, text_key, codes, true, false, none, some, List, [], ◌∷◌, ◌≡◌, ◌≢◌, refl,
  subst, arith, All, contains, insert, extend, ok,
}
use shinran.Prelude.Dict
use shinran.Prelude.Dict.{Map, lookup}
use shinran.Types.{
  VarType, string, end, field, Variable, default_variable, TextEffect, TextFormat, MatchEffect,
  TriggerMatch, UpperCasingStyle, WordBoundary,
}
use shinran.Types.Params
use shinran.Render.{RenderResult, Context, Extensions, unchanged, uppercase}
use shinran.Render.Names.{get_body_variable_names}
use shinran.Render.Sample.{sample_regex, split}
use shinran.Render.Resolve.{
  local_node, local_nodes, body_node, generate_nodes, resolve_dependencies, ordered_variables,
  resolve_evaluation_order,
}
use shinran.Render.Resolve.Members.{resolve_evaluation_order-All}
use shinran.Render.Template.{
  is_match, sub_template, get_trigger_from_var, local_variables, render_template,
}
use shinran.Render.Template.Fuel.{
  order_of, IsNested, render_template-Stops, render_template_diverges,
}
use shinran.Render.Tests.{sample_unicode, sample_extensions}

abbrev nested_var : Variable
nested_var = record default_variable {
  name = codes "x";
  var_type = VarType.match;
  params = field (codes "trigger") (string (codes ":one")) end;
  inject_vars = false;
}

abbrev plain_text : Text → List Variable → TextEffect
plain_text body vars = record {
  body = body;
  vars = vars;
  format = TextFormat.plain;
  force_mode = none;
}

abbrev match_of : TextEffect → TriggerMatch
match_of template = record {
  base_match = record { effect = MatchEffect.text template; label = none; search_terms = [] };
  triggers = codes ":one" ∷ [];
  propagate_case = false;
  uppercase_style = UpperCasingStyle.uppercase;
  word_boundary = WordBoundary.neither;
}

abbrev with_match : TextEffect → Context
with_match template = record {
  matches_map = (codes ":one", match_of template) ∷ [];
  global_vars_map = [];
}

abbrev outer : TextEffect
outer = plain_text (codes "Hi {{x}}") (nested_var ∷ [])

outer_is_match : is_match sample_regex outer.body ≡ true
unfolding split
outer_is_match = refl

outer_order :
    order_of sample_regex sample_unicode sample_extensions (with_match outer) outer
    ≡ ok (nested_var ∷ [])
unfolding local_variables resolve_evaluation_order generate_nodes local_nodes local_node body_node
    get_body_variable_names split extend insert contains Dict.insert Dict.lookup text_eq
    resolve_dependencies ordered_variables
outer_order = refl

outer_nests :
    sub_template sample_regex sample_unicode sample_extensions (with_match outer) nested_var
    ≡ some outer
unfolding sub_template get_trigger_from_var Params.get Dict.lookup text_eq
outer_nests = refl

-- The match nests itself.
render_template_diverges_example :
    render_template sample_regex sample_unicode sample_extensions
      (with_match outer)
      100
      unchanged
      outer
    ≡ RenderResult.out_of_fuel
render_template_diverges_example =
    render_template_diverges sample_regex sample_unicode sample_extensions (with_match outer)
      unchanged outer nested_var [] outer_is_match outer_order refl outer_nests 100

-- The date of this rendering panics, as that of an offset that is too large.
abbrev panicking : Extensions
panicking = record sample_extensions { date = λ scope params. none }

abbrev dated : TextEffect
dated = plain_text (codes "{{x}}") (
    record default_variable { name = codes "x"; var_type = VarType.date; inject_vars = false } ∷ [])

abbrev inner : TextEffect
inner = plain_text (codes "nested") []

abbrev depth : List Variable → ℕ
depth [] = 0
depth (var ∷ vars) = 1

All-map :
    {P Q : Variable → Type 0} (vars : List Variable)
    → ((var : Variable) → P var → Q var)
    → All P vars
    → All Q vars
All-map [] f h = tt
All-map (var ∷ vars) f (h, hs) = (f var h, All-map vars f hs)

All-intro : {Q : Variable → Type 0} (vars : List Variable) → ((var : Variable) → Q var) → All Q vars
All-intro [] f = tt
All-intro (var ∷ vars) f = (f var, All-intro vars f)

only_inner :
    (var : Variable) (u : TextEffect)
    → sub_template sample_regex sample_unicode sample_extensions (with_match inner) var ≡ some u
    → depth u.vars ≡ 0
unfolding sub_template Dict.lookup
only_inner var u q = ground arith

no_locals : local_variables sample_regex sample_unicode sample_extensions (with_match inner) [] ≡ []
unfolding local_variables
no_locals = refl

inner-IsNested :
    IsNested sample_regex sample_unicode sample_extensions (with_match inner) (λ t. depth t.vars)
inner-IsNested = record { falls = λ t vars e. go t.vars t.body vars e }
  where
    go :
        (locals : List Variable) (body : Text) (vars : List Variable)
        → resolve_evaluation_order sample_regex body
            (local_variables sample_regex sample_unicode sample_extensions
              (with_match inner)
              locals)
            []
          ≡ ok vars
        → All
            (λ var.
              (u : TextEffect)
              → var.var_type ≡ VarType.match
              → sub_template sample_regex sample_unicode sample_extensions (with_match inner) var
                ≡ some u
              → depth u.vars < depth locals)
            vars
    go [] body vars e =
        All-map vars (λ var h. absurd h)
          (resolve_evaluation_order-All (λ var. ⊥) sample_regex body [] [] vars tt tt
            (subst (λ ls. resolve_evaluation_order sample_regex body ls [] ≡ ok vars) no_locals e))
    go (v ∷ vs) body vars e = All-intro vars (λ var u m s. omega (arith, only_inner var u s))

render_template-Stops_example :
    render_template sample_regex sample_unicode sample_extensions
      (with_match inner)
      2
      unchanged
      outer
    ≢ RenderResult.out_of_fuel
render_template-Stops_example =
    render_template-Stops sample_regex sample_unicode sample_extensions (with_match inner)
      (λ t. depth t.vars) inner-IsNested 2 unchanged outer (omega arith)
