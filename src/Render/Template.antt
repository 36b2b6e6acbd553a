-- ===== src/Render/Template.antt =====
-- `render_template` of crates/shinran_render/src/renderer/mod.rs.
pub mod Bound
pub mod Expand
pub mod Nesting
pub mod Fuel
pub mod Panic
mod Tests
use shinran.Prelude.{
  ℕ, zero, suc, Text, text_key, codes, Bool, true, false, any, filter_map, Option, none, some, List,
  [], ◌∷◌, if◌then◌else◌, Run, ok, err,
}
use shinran.Prelude.Dict
use shinran.Prelude.Dict.{lookup, values}
use shinran.Types.{
  VarType, date, mock, shell, script, random, echo, form, match, unresolved, string, Params,
  Variable, TextEffect, MatchEffect, TriggerMatch,
}
use shinran.Types.Params
use shinran.Render.{
  VarRegex, Segment, plain, capture, RendererError, missing_sub_match, extension_error,
  RenderResult, Context, CasingStyle, ExtensionOutput, single, ExtensionResult, Scope, Extensions,
}
use shinran.Render.Resolve.{resolve_evaluation_order}
use shinran.Render.Util.{
  inject_variables_into_params, render_variables, unescape_variable_inections,
}
use shinran.Render.Casing.{Unicode, apply_casing}

abbrev pub has_capture : List Segment → Bool
has_capture [] = false
has_capture (plain s ∷ rest) = has_capture rest
has_capture (capture s name subname ∷ rest) = true

-- `VAR_REGEX.is_match`
abbrev pub is_match : VarRegex → Text → Bool
is_match regex body = has_capture (regex.split body)

abbrev pub is_unresolved : Variable → Bool
is_unresolved var = elim var.var_type [ unresolved ↦ true | _ ↦ false ]

unfoldable pub get_trigger_from_var : Variable → Option Text
get_trigger_from_var variable = elim (Params.get (codes "trigger") variable.params) [
  | some (string trigger) ↦ some trigger
  | _ ↦ none
]

-- crates/shinran_render/src/extension/echo.rs
unfoldable pub calculate_echo : Params → ExtensionResult
calculate_echo params = elim (Params.get (codes "echo") params) [
  | some (string text) ↦ ExtensionResult.success (single text)
  | _ ↦ ExtensionResult.error (extension_error (codes "missing 'echo' parameter"))
]

-- What one turn of the loop over the variables does: go on with a scope, or return.
pub data Turn : Type 0 where
  continue : Scope → Turn
  return : RenderResult → Turn

abbrev pub text_effect : Option MatchEffect → Option TextEffect
text_effect (some (MatchEffect.text t)) = some t
text_effect _ = none

-- The `match extension_result`; `none` is a panic.
unfoldable pub store : Variable → Scope → Option ExtensionResult → Turn
store variable scope (some (ExtensionResult.success output)) =
    continue (Dict.insert variable.name output scope)
store variable scope (some ExtensionResult.aborted) = return RenderResult.aborted
store variable scope (some (ExtensionResult.error e)) = return (RenderResult.error e)
store variable scope none = return RenderResult.panic

unfoldable pub store_match : Variable → Scope → RenderResult → Turn
store_match variable scope (RenderResult.success output) =
    continue (Dict.insert variable.name (single output) scope)
store_match variable scope result = return result

module _ (regex : VarRegex) (unicode : Unicode) (extensions : Extensions) (context : Context) where
  -- The closure of `filter_map`: an unresolved variable stands for the global one of its name.
  unfoldable pub resolve_variable : Variable → Option Variable
  resolve_variable var =
      if is_unresolved var then lookup var.name context.global_vars_map else some var

  unfoldable pub local_variables : List Variable → List Variable
  local_variables vars = if any is_unresolved vars then filter_map resolve_variable vars else vars

  -- `none` where an extension panics, or the program by `unreachable!()`.
  unfoldable pub calculate : VarType → Scope → Params → Option ExtensionResult
  calculate date scope params = extensions.date scope params
  calculate echo scope params = some (calculate_echo params)
  calculate shell scope params = extensions.shell scope params
  calculate script scope params = extensions.script scope params
  calculate random scope params = some (extensions.random scope params)
  calculate mock scope params = some (extensions.mock scope params)
  calculate _ scope params = none

  unfoldable pub variable_params : Variable → Scope → Run RendererError Params
  variable_params variable scope =
      if variable.inject_vars
      then inject_variables_into_params regex scope variable.params
      else ok variable.params

  unfoldable pub call_extension : Variable → Scope → VarType → Params → Turn
  call_extension variable scope form params = return (RenderResult.success [])
  call_extension variable scope var_type params =
      store variable scope (calculate var_type scope params)

  unfoldable pub after_params : Variable → Scope → Run RendererError Params → Turn
  after_params variable scope (ok params) = call_extension variable scope variable.var_type params
  after_params variable scope (err e) = return (RenderResult.error e)
  after_params variable scope Run.out_of_fuel = return RenderResult.out_of_fuel

  -- A variable that is no nested match.
  unfoldable pub evaluate_extension : Variable → Scope → Turn
  evaluate_extension variable scope = after_params variable scope (variable_params variable scope)

  -- The effect of the match that a variable of type `match` names.
  unfoldable pub sub_template : Variable → Option TextEffect
  sub_template variable = elim (get_trigger_from_var variable) [
    | none ↦ none
    | some trigger ↦ elim (lookup trigger context.matches_map) [
      | none ↦ none
      | some m ↦ text_effect (some m.base_match.effect)
    ]
  ]

  -- A variable that is a nested match; `render` is the recursive call.
  unfoldable pub evaluate_match :
      (TextEffect → RenderResult) → Variable → Scope → Option TextEffect → Turn
  evaluate_match render variable scope none = return (RenderResult.error missing_sub_match)
  evaluate_match render variable scope (some template) =
      store_match variable scope (render template)

  unfoldable pub evaluate_as : (TextEffect → RenderResult) → Variable → Scope → VarType → Turn
  evaluate_as render variable scope match =
      evaluate_match render variable scope (sub_template variable)
  evaluate_as render variable scope _ = evaluate_extension variable scope

  -- The body of the loop.
  unfoldable pub evaluate : (TextEffect → RenderResult) → Variable → Scope → Turn
  evaluate render variable scope = evaluate_as render variable scope variable.var_type

  unfoldable pub evaluate_all : (TextEffect → RenderResult) → List Variable → Scope → Turn
  evaluate_all render [] scope = continue scope
  evaluate_all render (variable ∷ rest) scope = elim (evaluate render variable scope) [
    | continue scope' ↦ evaluate_all render rest scope'
    | return result ↦ return result
  ]

  abbrev pub case_body : CasingStyle → Text → RenderResult
  case_body style body = elim (apply_casing unicode style (unescape_variable_inections body)) [
    | none ↦ RenderResult.panic
    | some text ↦ RenderResult.success text
  ]

  -- After the loop.
  unfoldable pub render_body : CasingStyle → Text → Turn → RenderResult
  render_body style body (return result) = result
  render_body style body (continue scope) = elim (render_variables regex body scope) [
    | ok text ↦ case_body style text
    | err e ↦ RenderResult.error e
    | Run.out_of_fuel ↦ RenderResult.out_of_fuel
  ]

  abbrev pub global_variables : List Variable
  global_variables = values context.global_vars_map

  -- The branch for a body with variables.
  unfoldable pub render_with : (TextEffect → RenderResult) → CasingStyle → TextEffect → RenderResult
  render_with render style template =
      elim (resolve_evaluation_order regex template.body (local_variables template.vars)
        global_variables) [
          | err e ↦ RenderResult.error e
          | Run.out_of_fuel ↦ RenderResult.out_of_fuel
          | ok variables ↦ render_body style template.body (evaluate_all render variables [])
        ]

  -- `fuel` bounds how deep matches are nested: the program has no such bound.
  unfoldable pub render_template : ℕ → CasingStyle → TextEffect → RenderResult
  render_template zero style template = RenderResult.out_of_fuel
  render_template (suc fuel) style template = elim (is_match regex template.body) [
    | true ↦ render_with (render_template fuel style) style template
    | false ↦ case_body style template.body
  ]
