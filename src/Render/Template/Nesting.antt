-- ===== src/Render/Template/Nesting.antt =====
-- The recursion of `render_template` through nested matches
-- (crates/shinran_render/src/renderer/mod.rs): when it ends, and when it does not.
use shinran.Prelude.{
  Text, All, Option, none, some, List, [], ◌∷◌, ◌≡◌, ◌≢◌, inl, inr, refl, Bool-cases, Run, ok, err,
  ◌>>=◌,
}
use shinran.Types.{
  VarType, form, match, Value, null, bool, number, string, array, object, Values, nil, cons, Fields,
  end, field, Params, Variable, TextEffect,
}
use shinran.Render.{
  VarRegex, RendererError, RenderResult, Context, ExtensionResult, Scope, Extensions,
}
use shinran.Render.Util.{
  inject_variables_into_value, inject_values, inject_fields, inject_variables_into_params,
  render_variables, replace_all, finish,
}
use shinran.Render.Casing.{Unicode}
use shinran.Render.Template.{
  Turn, continue, return, store, store_match, variable_params, call_extension, after_params,
  evaluate_extension, sub_template, evaluate_match, evaluate_as, evaluate, evaluate_all,
}

-- `Run`s that are no `out_of_fuel`.
abbrev pub Ends : {A : Type 0} → Run RendererError A → Type 0
Ends (ok a) = Unit
Ends (err e) = Unit
Ends Run.out_of_fuel = ⊥

Ends-bind :
    {A B : Type 0} (r : Run RendererError A) (f : A → Run RendererError B)
    → Ends r
    → ((a : A) → Ends (f a))
    → Ends (r >>= f)
Ends-bind (ok a) f h k = k a
Ends-bind (err e) f h k = tt
Ends-bind Run.out_of_fuel f h k = h

module _ (regex : VarRegex) (scope : Scope) where
  finish-Ends : (r : Text × Option RendererError) → Ends (finish r)
  finish-Ends (t, none) = tt
  finish-Ends (t, some e) = tt

  pub render_variables-Ends : (s : Text) → Ends (render_variables regex s scope)
  unfolding render_variables
  render_variables-Ends s = finish-Ends (replace_all scope (regex.split s) none)

  mutual
    unfolding inject_variables_into_value

    value-Ends : (v : Value) → Ends (inject_variables_into_value regex scope v)
    value-Ends (string s) =
        Ends-bind (render_variables regex s scope) _ (render_variables-Ends s) (λ t. tt)
    value-Ends (array vs) = Ends-bind (inject_values regex scope vs) _ (values-Ends vs) (λ t. tt)
    value-Ends (object fs) = Ends-bind (inject_fields regex scope fs) _ (fields-Ends fs) (λ t. tt)
    value-Ends null = tt
    value-Ends (bool b) = tt
    value-Ends (number n) = tt

    values-Ends : (vs : Values) → Ends (inject_values regex scope vs)
    values-Ends nil = tt
    values-Ends (cons v vs) =
        Ends-bind (inject_variables_into_value regex scope v) _ (value-Ends v)
          (λ a. Ends-bind (inject_values regex scope vs) _ (values-Ends vs) (λ b. tt))

    fields-Ends : (fs : Fields) → Ends (inject_fields regex scope fs)
    fields-Ends end = tt
    fields-Ends (field k v fs) =
        Ends-bind (inject_variables_into_value regex scope v) _ (value-Ends v)
          (λ a. Ends-bind (inject_fields regex scope fs) _ (fields-Ends fs) (λ b. tt))

  inject-Ends : (params : Params) → Ends (inject_variables_into_params regex scope params)
  unfolding inject_variables_into_params
  inject-Ends params = fields-Ends params

-- Results and turns that are no `out_of_fuel`.
abbrev pub Stops : RenderResult → Type 0
Stops r = r ≢ RenderResult.out_of_fuel

abbrev pub Advances : Turn → Type 0
Advances (continue s) = Unit
Advances (return r) = Stops r

module _ (regex : VarRegex) (unicode : Unicode) (extensions : Extensions) (context : Context) where
  store-Advances :
      (var : Variable) (scope : Scope) (r : Option ExtensionResult) → Advances (store var scope r)
  unfolding store
  store-Advances var scope (some (ExtensionResult.success o)) = tt
  store-Advances var scope (some ExtensionResult.aborted) = λ e. cc
  store-Advances var scope (some (ExtensionResult.error x)) = λ e. cc
  store-Advances var scope none = λ e. cc

  store_match-Advances :
      (var : Variable) (scope : Scope) (r : RenderResult)
      → Stops r
      → Advances (store_match var scope r)
  unfolding store_match
  store_match-Advances var scope (RenderResult.success t) h = tt
  store_match-Advances var scope RenderResult.aborted h = h
  store_match-Advances var scope (RenderResult.error e) h = h
  store_match-Advances var scope RenderResult.panic h = h
  store_match-Advances var scope RenderResult.out_of_fuel h = h

  call_extension-Advances :
      (var : Variable) (scope : Scope) (t : VarType) (params : Params)
      → Advances (call_extension regex unicode extensions context var scope t params)
  unfolding call_extension
  call_extension-Advances var scope form params = λ e. cc
  call_extension-Advances var scope t params = store-Advances var scope _

  after_params-Advances :
      (var : Variable) (scope : Scope) (r : Run RendererError Params)
      → Ends r
      → Advances (after_params regex unicode extensions context var scope r)
  unfolding after_params
  after_params-Advances var scope (ok params) h =
      call_extension-Advances var scope var.var_type params
  after_params-Advances var scope (err e) h = λ p. cc
  after_params-Advances var scope Run.out_of_fuel h = absurd h

  params-Ends :
      (var : Variable) (scope : Scope)
      → Ends (variable_params regex unicode extensions context var scope)
  unfolding variable_params
  params-Ends var scope = elim (Bool-cases var.inject_vars) [
    | inl e ↦ rw e (inject-Ends regex scope var.params)
    | inr e ↦ rw e tt
  ]

  -- The match that `var` nests, if any, is rendered to an end.
  abbrev pub NestsWell : (TextEffect → RenderResult) → Variable → Type 0
  NestsWell render var =
      (u : TextEffect)
      → var.var_type ≡ match
      → sub_template regex unicode extensions context var ≡ some u
      → Stops (render u)

  module _ (render : TextEffect → RenderResult) where
    evaluate-Advances :
        (var : Variable) (scope : Scope)
        → NestsWell render var
        → Advances (evaluate regex unicode extensions context render var scope)
    unfolding evaluate
    evaluate-Advances var scope h = go var.var_type refl
      where
        nested :
            (o : Option TextEffect)
            → sub_template regex unicode extensions context var ≡ o
            → var.var_type ≡ match
            → Advances (evaluate_match regex unicode extensions context render var scope o)
        nested none e m = unfold evaluate_match in λ p. cc
        nested (some u) e m =
            unfold evaluate_match in store_match-Advances var scope (render u) (h u m e)

        go :
            (t : VarType)
            → var.var_type ≡ t
            → Advances (evaluate_as regex unicode extensions context render var scope t)
        go match e = unfold evaluate_as in nested _ refl e
        go t e =
            unfold evaluate_as evaluate_extension in
            after_params-Advances var scope _ (params-Ends var scope)

    pub evaluate_all-Advances :
        (vars : List Variable) (scope : Scope)
        → All (NestsWell render) vars
        → Advances (evaluate_all regex unicode extensions context render vars scope)
    unfolding evaluate_all
    evaluate_all-Advances [] scope h = tt
    evaluate_all-Advances (var ∷ vars) scope h =
        go (evaluate regex unicode extensions context render var scope)
          (evaluate-Advances var scope h.0) (λ s. evaluate_all-Advances vars s h.1)
      where
        go :
            (turn : Turn)
            → Advances turn
            → ((s : Scope) → Advances (evaluate_all regex unicode extensions context render vars s))
            → Advances (elim turn [
              | continue s ↦ evaluate_all regex unicode extensions context render vars s
              | return r ↦ return r
            ])
        go (continue s) a ih = ih s
        go (return r) a ih = a
