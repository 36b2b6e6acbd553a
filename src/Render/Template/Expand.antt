-- ===== src/Render/Template/Expand.antt =====
-- What stands in the place of a variable (crates/shinran_render/src/renderer/util.rs and mod.rs).
use shinran.Prelude.{
  Text, text_key, codes, true, false, Option, none, some, List, [], ◌∷◌, ◌++◌, ◌≡◌, ◌⊎◌, inl, inr,
  refl, ap, subst, contains, ok, err,
}
use shinran.Prelude.Dict.{lookup}
use shinran.Types.{Variable, TextEffect}
use shinran.Render.{
  Segment, plain, capture, VarRegex, RendererError, missing_variable, RenderResult, Context,
  ExtensionOutput, single, multiple, Scope, Extensions,
}
use shinran.Render.Names.{get_body_variable_names}
use shinran.Render.Resolve.{match_body, resolve_evaluation_order}
use shinran.Render.Resolve.Nodes.{names_of_vars}
use shinran.Render.Resolve.Complete.{resolve_evaluation_order-covers_body}
use shinran.Render.Util.{
  or_empty, finish, replacement, replace_all, render_variables, unescape_variable_inections,
}
use shinran.Render.Casing.{Unicode}
use shinran.Render.Template.{continue, evaluate_all}
use shinran.Render.Template.Bound.{Binds, evaluate_all-Binds, IsBound}

-- The specification: the value of a variable, and the text with every variable replaced by its
-- value, if all have one.
pub value_of : Scope → Text → Option Text → Option Text
value_of scope name subname = elim (lookup name scope) [
  | none ↦ none
  | some (single text) ↦ some text
  | some (multiple results) ↦ elim subname [
    | none ↦ none
    | some s ↦ some (or_empty (lookup s results))
  ]
]

abbrev pub prepend : Text → Option Text → Option Text
prepend s none = none
prepend s (some t) = some (s ++ t)

abbrev pub expansion : Scope → List Segment → Option Text
expansion scope [] = some []
expansion scope (plain s ∷ rest) = prepend s (expansion scope rest)
expansion scope (capture s name subname ∷ rest) =
    let later = expansion scope rest in
    elim (value_of scope name subname) [ none ↦ none | some value ↦ prepend value later ]

abbrev Agrees : Option RendererError → Option Text → Text × Option RendererError → Type 0
Agrees none (some t) r = (r.0 ≡ t) × (r.1 ≡ none)
Agrees none none r = (e : RendererError) × (r.1 ≡ some e)
Agrees (some e) spec r = (e' : RendererError) × (r.1 ≡ some e')

Agrees-prepend :
    (failed : Option RendererError) (spec : Option Text) (s out : Text) (e : Option RendererError)
    → Agrees failed spec (out, e)
    → Agrees failed (prepend s spec) (s ++ out, e)
Agrees-prepend none (some t) s out e h = (ap (λ u. s ++ u) h.0, h.1)
Agrees-prepend none none s out e h = h
Agrees-prepend (some x) spec s out e h = h

Agrees-fail :
    (failed : Option RendererError) (x e : RendererError) (out : Text) (r : Option RendererError)
    → r ≡ some e
    → Agrees failed none (out, r)
Agrees-fail none x e out r h = (e, h)
Agrees-fail (some y) x e out r h = (e, h)

-- One match: it has a value and no error, or no value and an error.
abbrev Replaced : Scope → Text → Option Text → Option RendererError → Type 0
Replaced scope name subname failed =
    ((v : Text) × (value_of scope name subname ≡ some v)
      × (replacement scope name subname failed ≡ (v, failed)))
    ⊎ ((e : RendererError) × (value_of scope name subname ≡ none)
        × ((replacement scope name subname failed).1 ≡ some e))

replacement_cases :
    (scope : Scope) (name : Text) (subname : Option Text) (failed : Option RendererError)
    (o : Option ExtensionOutput)
    → lookup name scope ≡ o
    → Replaced scope name subname failed
unfolding replacement value_of
replacement_cases scope name subname failed none h = inr (
  missing_variable (codes "variable '" ++ (name ++ codes "' is missing")),
  rw (h, value_of),
  rw (h, replacement),
)
replacement_cases scope name subname failed (some (single t)) h =
    inl (t, rw (h, value_of), rw (h, replacement))
replacement_cases scope name (some s) failed (some (multiple results)) h =
    inl (or_empty (lookup s results), rw (h, value_of), rw (h, replacement))
replacement_cases scope name none failed (some (multiple results)) h = inr (
  missing_variable (codes "nested name missing from multi-value variable: " ++ name),
  rw (h, value_of),
  rw (h, replacement),
)

replace_all-Agrees :
    (scope : Scope) (segments : List Segment) (failed : Option RendererError)
    → Agrees failed (expansion scope segments) (replace_all scope segments failed)
unfolding replace_all
replace_all-Agrees scope [] none = (refl, refl)
replace_all-Agrees scope [] (some e) = (e, refl)
replace_all-Agrees scope (plain s ∷ rest) failed =
    Agrees-prepend failed (expansion scope rest) s _ _ (replace_all-Agrees scope rest failed)
replace_all-Agrees scope (capture s name subname ∷ rest) failed =
    elim (replacement_cases scope name subname failed (lookup name scope) refl) [
      | inl (v, has, same) ↦
          rw (has, same, expansion)
            (Agrees-prepend failed (expansion scope rest) v _ _
              (replace_all-Agrees scope rest failed))
      | inr (e, has, same) ↦
          let (e', h) = replace_all-Agrees scope rest (some e) in
          rw (has, same, expansion) (Agrees-fail failed e e' _ _ h)
    ]

-- A text is rendered exactly if each of its variables has a value. It is then the text with the
-- values put in, unescaped.
pub render_variables-expansion :
    (regex : VarRegex) (body : Text) (scope : Scope)
    → ((t : Text) × (expansion scope (regex.split body) ≡ some t)
        × (render_variables regex body scope ≡ ok (unescape_variable_inections t)))
      ⊎ ((e : RendererError) × (expansion scope (regex.split body) ≡ none)
          × (render_variables regex body scope ≡ err e))
unfolding render_variables
render_variables-expansion regex body scope =
    go (expansion scope (regex.split body)) (replace_all scope (regex.split body) none)
      (replace_all-Agrees scope (regex.split body) none)
  where
    go :
        (spec : Option Text) (r : Text × Option RendererError)
        → Agrees none spec r
        → ((t : Text) × (spec ≡ some t) × (finish r ≡ ok (unescape_variable_inections t)))
          ⊎ ((e : RendererError) × (spec ≡ none) × (finish r ≡ err e))
    go (some t) r h = inl (t, refl, rw (h.1, h.0, finish))
    go none r (e, h) = inr (e, refl, rw (h, finish))

-- The evaluation order serves its purpose: if no variable takes the name of the body's node, an
-- order is found and the loop over it goes through, then every variable that the body mentions
-- has a value in the scope.
pub body_variables-IsBound :
    (regex : VarRegex) (unicode : Unicode) (extensions : Extensions) (context : Context)
    (render : TextEffect → RenderResult) (body : Text) (local_vars global_vars vars : List Variable)
    (scope : Scope) (x : Text)
    → contains (names_of_vars local_vars) match_body ≡ false
    → contains (names_of_vars global_vars) match_body ≡ false
    → resolve_evaluation_order regex body local_vars global_vars ≡ ok vars
    → evaluate_all regex unicode extensions context render vars [] ≡ continue scope
    → contains (get_body_variable_names regex body) x ≡ true
    → IsBound x scope
body_variables-IsBound regex unicode extensions context render body local_vars global_vars vars
      scope x h k e goes mentioned =
    let binds : Binds regex unicode extensions context render vars [] (continue scope) =
      subst (Binds regex unicode extensions context render vars []) goes
        (evaluate_all-Binds regex unicode extensions context render vars []) in
    binds x (
      inl (
        resolve_evaluation_order-covers_body regex body local_vars global_vars vars x h k e
          mentioned))
