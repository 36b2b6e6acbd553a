-- ===== src/Render/Template/Bound.antt =====
-- The loop of `render_template` over the variables (crates/shinran_render/src/renderer/mod.rs) gives each
-- of them a value.
use shinran.Prelude.{
  Text, text_key, true, false, Option, none, some, List, [], ◌∷◌, ◌≡◌, ◌⊎◌, inl, inr, refl, sym,
  subst, arith, contains, key_iff, Bool-cases, Run, ok, err,
}
use shinran.Prelude.Dict
use shinran.Prelude.Dict.{lookup, lookup-insert}
use shinran.Types.{VarType, form, match, Variable, Params, TextEffect}
use shinran.Render.{
  VarRegex, RendererError, RenderResult, Context, ExtensionOutput, ExtensionResult, single, Scope,
  Extensions,
}
use shinran.Render.Resolve.Nodes.{names_of_vars}
use shinran.Render.Casing.{Unicode}
use shinran.Render.Template.{
  Turn, continue, return, call_extension, after_params, evaluate_match, evaluate_as, evaluate,
  evaluate_extension, evaluate_all, store, store_match,
}

abbrev pub IsBound : Text → Scope → Type 0
IsBound x scope = (output : ExtensionOutput) × (lookup x scope ≡ some output)

pub insert-IsBound :
    (x y : Text) (o : ExtensionOutput) (scope : Scope)
    → ((y ≡ x) ⊎ IsBound x scope)
    → IsBound x (Dict.insert y o scope)
insert-IsBound x y o scope h = elim (Bool-cases (text_key.equals y x)) [
  | inl same ↦ (o, rw (lookup-insert, same))
  | inr other ↦ go other h
]
  where
    go :
        text_key.equals y x ≡ false
        → ((y ≡ x) ⊎ IsBound x scope)
        → IsBound x (Dict.insert y o scope)
    go other (inl e) = absurd (ground (arith, key_iff y x))
    go other (inr (o', e)) = (o', rw (lookup-insert, other) e)

-- A turn that goes on has put a value for its variable into the scope.
abbrev pub Stores : Variable → Scope → Turn → Type 0
Stores var scope (continue s) = (o : ExtensionOutput) × (s ≡ Dict.insert var.name o scope)
Stores var scope (return r) = Unit

pub store-Stores :
    (var : Variable) (scope : Scope) (r : Option ExtensionResult)
    → Stores var scope (store var scope r)
unfolding store
store-Stores var scope (some (ExtensionResult.success o)) = (o, refl)
store-Stores var scope (some ExtensionResult.aborted) = tt
store-Stores var scope (some (ExtensionResult.error e)) = tt
store-Stores var scope none = tt

pub store_match-Stores :
    (var : Variable) (scope : Scope) (r : RenderResult) → Stores var scope (store_match var scope r)
unfolding store_match
store_match-Stores var scope (RenderResult.success t) = (single t, refl)
store_match-Stores var scope RenderResult.aborted = tt
store_match-Stores var scope (RenderResult.error e) = tt
store_match-Stores var scope RenderResult.panic = tt
store_match-Stores var scope RenderResult.out_of_fuel = tt

module _ (regex : VarRegex) (unicode : Unicode) (extensions : Extensions) (context : Context) where
  pub call_extension-Stores :
      (var : Variable) (scope : Scope) (t : VarType) (params : Params)
      → Stores var scope (call_extension regex unicode extensions context var scope t params)
  unfolding call_extension
  call_extension-Stores var scope form params = tt
  call_extension-Stores var scope t params = store-Stores var scope _

  pub after_params-Stores :
      (var : Variable) (scope : Scope) (r : Run RendererError Params)
      → Stores var scope (after_params regex unicode extensions context var scope r)
  unfolding after_params
  after_params-Stores var scope (ok params) = call_extension-Stores var scope var.var_type params
  after_params-Stores var scope (err e) = tt
  after_params-Stores var scope Run.out_of_fuel = tt

  module _ (render : TextEffect → RenderResult) where
    evaluate_match-Stores :
        (var : Variable) (scope : Scope) (t : Option TextEffect)
        → Stores var scope (evaluate_match regex unicode extensions context render var scope t)
    unfolding evaluate_match
    evaluate_match-Stores var scope none = tt
    evaluate_match-Stores var scope (some t) = store_match-Stores var scope (render t)

    evaluate_as-Stores :
        (var : Variable) (scope : Scope) (t : VarType)
        → Stores var scope (evaluate_as regex unicode extensions context render var scope t)
    unfolding evaluate_as evaluate_extension
    evaluate_as-Stores var scope match = evaluate_match-Stores var scope _
    evaluate_as-Stores var scope t = after_params-Stores var scope _

    evaluate-Stores :
        (var : Variable) (scope : Scope)
        → Stores var scope (evaluate regex unicode extensions context render var scope)
    unfolding evaluate
    evaluate-Stores var scope = evaluate_as-Stores var scope var.var_type

    abbrev pub Binds : List Variable → Scope → Turn → Type 0
    Binds vars scope (continue s) =
        (x : Text) → (contains (names_of_vars vars) x ≡ true) ⊎ IsBound x scope → IsBound x s
    Binds vars scope (return r) = Unit

    Binds-cons :
        (var : Variable) (vars : List Variable) (scope s : Scope) (o : ExtensionOutput)
        → s ≡ Dict.insert var.name o scope
        → (turn : Turn) → Binds vars s turn
        → Binds (var ∷ vars) scope turn
    Binds-cons var vars scope s o e (return r) h = tt
    Binds-cons var vars scope s o e (continue t) h =
        λ x k. h x (split x k (Bool-cases (text_key.equals var.name x)))
      where
        inserted : (x : Text) → ((var.name ≡ x) ⊎ IsBound x scope) → IsBound x s
        inserted x k = subst (IsBound x) (sym e) (insert-IsBound x var.name o scope k)

        split :
            (x : Text)
            → (contains (names_of_vars (var ∷ vars)) x ≡ true) ⊎ IsBound x scope
            → (text_key.equals var.name x ≡ true) ⊎ (text_key.equals var.name x ≡ false)
            → (contains (names_of_vars vars) x ≡ true) ⊎ IsBound x s
        split x (inr k) d = inr (inserted x (inr k))
        split x (inl k) (inl same) = inr (inserted x (inl ((key_iff var.name x).0 same)))
        split x (inl k) (inr other) = inl (unfold contains in ground arith)

    -- The loop binds the name of each variable, and keeps what was bound.
    pub evaluate_all-Binds :
        (vars : List Variable) (scope : Scope)
        → Binds vars scope (evaluate_all regex unicode extensions context render vars scope)
    unfolding evaluate_all
    evaluate_all-Binds [] scope = λ x h. nothing x h
      where
        nothing :
            (x : Text) → (contains (names_of_vars []) x ≡ true) ⊎ IsBound x scope → IsBound x scope
        nothing x (inl h) = unfold contains in cc
        nothing x (inr h) = h
    evaluate_all-Binds (var ∷ vars) scope =
        go (evaluate regex unicode extensions context render var scope) (evaluate-Stores var scope)
          (evaluate_all-Binds vars)
      where
        go :
            (turn : Turn)
            → Stores var scope turn
            → ((s : Scope)
                → Binds vars s (evaluate_all regex unicode extensions context render vars s))
            → Binds (var ∷ vars) scope (elim turn [
              | continue s ↦ evaluate_all regex unicode extensions context render vars s
              | return r ↦ return r
            ])
        go (return r) h ih = tt
        go (continue s) (o, e) ih = Binds-cons var vars scope s o e _ (ih s)
