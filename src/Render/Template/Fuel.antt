-- ===== src/Render/Template/Fuel.antt =====
-- How much fuel `render_template` needs, and that a match which nests itself has none that
-- suffices (crates/shinran_render/src/renderer/mod.rs).
use shinran.Prelude.{
  ℕ, zero, suc, ◌<◌, Text, true, All, Option, none, some, List, [], ◌∷◌, ◌≡◌, ◌≢◌, inl, inr, refl,
  ◌∙◌, ap, arith, Bool-cases, Run, ok, err,
}
use shinran.Types.{match, Variable, TextEffect}
use shinran.Render.{VarRegex, RendererError, RenderResult, Context, CasingStyle, Extensions}
use shinran.Render.Resolve.{NodeMap, resolve_evaluation_order}
use shinran.Render.Resolve.Order.{Resolves, resolve_evaluation_order-Resolves}
use shinran.Render.Util.{render_variables}
use shinran.Render.Casing.{Unicode, apply_casing}
use shinran.Render.Template.{
  is_match, Turn, continue, return, store_match, local_variables, global_variables, sub_template,
  evaluate_match, evaluate_as, evaluate, evaluate_all, case_body, render_body, render_with,
  render_template,
}
use shinran.Render.Template.Nesting.{
  Ends, Stops, Advances, NestsWell, render_variables-Ends, evaluate_all-Advances,
}

pub All-map :
    {A : Type 0} {P Q : A → Type 0} (xs : List A) → ((x : A) → P x → Q x) → All P xs → All Q xs
All-map [] f h = tt
All-map (x ∷ xs) f h = (f x h.0, All-map xs f h.1)

Resolves-Ends : (m : NodeMap) (r : Run RendererError (List Variable)) → Resolves m r → Ends r
Resolves-Ends m (ok vars) h = tt
Resolves-Ends m (err e) h = tt
Resolves-Ends m Run.out_of_fuel h = h

module _ (regex : VarRegex) (unicode : Unicode) (extensions : Extensions) (context : Context) where
  -- The order of evaluation that rendering `t` finds.
  abbrev pub order_of : TextEffect → Run RendererError (List Variable)
  order_of t =
      resolve_evaluation_order regex t.body
        (local_variables regex unicode extensions context t.vars)
        (global_variables regex unicode extensions context)

  -- `rank` falls along nested matches: no match is nested in itself.
  pub record IsNested (rank : TextEffect → ℕ) : Type 0 where
    pub falls :
        (t : TextEffect) (vars : List Variable)
        → order_of t ≡ ok vars
        → All
            (λ var.
              (u : TextEffect)
              → var.var_type ≡ match
              → sub_template regex unicode extensions context var ≡ some u
              → rank u < rank t)
            vars

  cased-Stops :
      (o : Option Text)
      → Stops (elim o [ none ↦ RenderResult.panic | some t ↦ RenderResult.success t ])
  cased-Stops none = λ e. cc
  cased-Stops (some t) = λ e. cc

  case_body-Stops :
      (style : CasingStyle) (body : Text)
      → Stops (case_body regex unicode extensions context style body)
  case_body-Stops style body = cased-Stops (apply_casing unicode style _)

  render_body-Stops :
      (style : CasingStyle) (body : Text) (turn : Turn)
      → Advances turn
      → Stops (render_body regex unicode extensions context style body turn)
  unfolding render_body
  render_body-Stops style body (return r) h = h
  render_body-Stops style body (continue scope) h =
      go (render_variables regex body scope) (render_variables-Ends regex scope body)
    where
      go :
          (r : Run RendererError Text)
          → Ends r
          → Stops (elim r [
            | ok text ↦ case_body regex unicode extensions context style text
            | err e ↦ RenderResult.error e
            | Run.out_of_fuel ↦ RenderResult.out_of_fuel
          ])
      go (ok t) h = case_body-Stops style t
      go (err e) h = λ p. cc
      go Run.out_of_fuel h = absurd h

  render_with-Stops :
      (render : TextEffect → RenderResult) (style : CasingStyle) (t : TextEffect)
      → ((vars : List Variable)
          → order_of t ≡ ok vars
          → All (NestsWell regex unicode extensions context render) vars)
      → Stops (render_with regex unicode extensions context render style t)
  unfolding render_with
  render_with-Stops render style t h =
      go (order_of t) refl (Resolves-Ends _ _ (resolve_evaluation_order-Resolves regex t.body _ _))
    where
      go :
          (r : Run RendererError (List Variable))
          → order_of t ≡ r
          → Ends r
          → Stops (elim r [
            | err e ↦ RenderResult.error e
            | Run.out_of_fuel ↦ RenderResult.out_of_fuel
            | ok variables ↦
                render_body regex unicode extensions context style t.body
                  (evaluate_all regex unicode extensions context render variables [])
          ])
      go (ok vars) e ends =
          render_body-Stops style t.body _
            (evaluate_all-Advances regex unicode extensions context render vars [] (h vars e))
      go (err x) e ends = λ p. cc
      go Run.out_of_fuel e ends = absurd ends

  -- If no match is nested in itself, fuel above the depth of nesting is enough.
  pub render_template-Stops :
      (rank : TextEffect → ℕ)
      → IsNested rank
      → (fuel : ℕ) (style : CasingStyle) (t : TextEffect) → rank t < fuel
      → render_template regex unicode extensions context fuel style t ≢ RenderResult.out_of_fuel
  unfolding render_template
  render_template-Stops rank nested zero style t h = absurd (omega arith)
  render_template-Stops rank nested (suc fuel) style t h =
      elim (Bool-cases (is_match regex t.body)) [
        | inl e ↦
            rw (e, render_template)
              (render_with-Stops (render_template regex unicode extensions context fuel style) style
                t
                (λ vars q.
                  All-map vars
                    (λ var below u m s.
                      render_template-Stops rank nested fuel style u (omega (arith, below u m s)))
                    (nested.falls t vars q)))
        | inr e ↦ rw (e, render_template) (case_body-Stops style t.body)
      ]

  self_evaluates :
      (render : TextEffect → RenderResult) (var : Variable) (t : TextEffect)
      → var.var_type ≡ match
      → sub_template regex unicode extensions context var ≡ some t
      → render t ≡ RenderResult.out_of_fuel
      → evaluate regex unicode extensions context render var [] ≡ return RenderResult.out_of_fuel
  unfolding evaluate evaluate_as evaluate_match store_match
  self_evaluates render var t m s e =
      ap (evaluate_as regex unicode extensions context render var []) m
      ∙ ap (evaluate_match regex unicode extensions context render var []) s
      ∙ ap (store_match var []) e

  self_renders :
      (render : TextEffect → RenderResult) (style : CasingStyle) (t : TextEffect) (var : Variable)
      (rest : List Variable)
      → order_of t ≡ ok (var ∷ rest)
      → evaluate regex unicode extensions context render var [] ≡ return RenderResult.out_of_fuel
      → render_with regex unicode extensions context render style t ≡ RenderResult.out_of_fuel
  unfolding render_with evaluate_all render_body
  self_renders render style t var rest o stuck = rw (o, render_with) (rw (stuck, evaluate_all))

  -- A template with variables whose first variable to evaluate is a match with this very template
  -- is not rendered, whatever the fuel: the recursion of the program does not end.
  pub render_template_diverges :
      (style : CasingStyle) (t : TextEffect) (var : Variable) (rest : List Variable)
      → is_match regex t.body ≡ true
      → order_of t ≡ ok (var ∷ rest)
      → var.var_type ≡ match
      → sub_template regex unicode extensions context var ≡ some t
      → (fuel : ℕ)
      → render_template regex unicode extensions context fuel style t ≡ RenderResult.out_of_fuel
  unfolding render_template
  render_template_diverges style t var rest is o m s zero = refl
  render_template_diverges style t var rest is o m s (suc fuel) =
      rw (is, render_template)
        (self_renders (render_template regex unicode extensions context fuel style) style t var rest
          o
          (self_evaluates (render_template regex unicode extensions context fuel style) var t m s
            (render_template_diverges style t var rest is o m s fuel)))
