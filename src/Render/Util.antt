-- ===== src/Render/Util.antt =====
-- crates/shinran_render/src/renderer/util.rs: putting the values of variables into a text and into
-- parameters. Errors are values here: `Run`, which never runs out of fuel in this file.
use shinran.Prelude.{
  ℕ, zero, suc, ◌-◌, Text, text_key, codes, Bool, true, false, ◌&&◌, Option, none, some, List, [],
  ◌∷◌, ◌++◌, nat_eq, length, Run, ok, err, ◌>>=◌,
}
use shinran.Prelude.Dict.{lookup}
use shinran.Types.{
  Value, null, bool, number, string, array, object, Values, nil, cons, Fields, end, field, Params,
}
use shinran.Render.{
  Segment, plain, capture, VarRegex, RendererError, missing_variable, single, multiple, Scope,
}

abbrev pub starts_with : Text → Text → Bool
starts_with [] s = true
starts_with (p ∷ pattern) [] = false
starts_with (p ∷ pattern) (c ∷ s) = nat_eq p c && starts_with pattern s

-- `skip` characters belong to the occurrence before.
unfoldable pub replace_from : Text → Text → ℕ → Text → Text
replace_from from to skip [] = []
replace_from from to (suc skip) (c ∷ s) = replace_from from to skip s
replace_from from to zero (c ∷ s) = elim (starts_with from (c ∷ s)) [
  | true ↦ to ++ replace_from from to (length from - 1) s
  | false ↦ c ∷ replace_from from to zero s
]

-- `str::replace` for a pattern that is not empty.
abbrev pub replace : Text → Text → Text → Text
replace from to s = replace_from from to 0 s

unfoldable pub unescape_variable_inections : Text → Text
unescape_variable_inections body =
    replace (codes "\\}\\}") (codes "}}") (replace (codes "\\{\\{") (codes "{{") body)

abbrev pub or_empty : Option Text → Text
or_empty none = []
or_empty (some s) = s

-- The closure of `replace_all` for one match: its replacement, and the error recorded so far.
unfoldable pub replacement :
    Scope → Text → Option Text → Option RendererError → Text × Option RendererError
replacement scope var_name var_subname failed = elim (lookup var_name scope) [
  | some (single output) ↦ (output, failed)
  | some (multiple results) ↦ elim var_subname [
    | some subname ↦ (or_empty (lookup subname results), failed)
    | none ↦ (
      [],
      some (missing_variable (codes "nested name missing from multi-value variable: " ++ var_name)),
    )
  ]
  | none ↦ ([], some (missing_variable (codes "variable '" ++ (var_name ++ codes "' is missing"))))
]

unfoldable pub replace_all :
    Scope → List Segment → Option RendererError → Text × Option RendererError
replace_all scope [] failed = ([], failed)
replace_all scope (plain s ∷ rest) failed =
    let (output, failed') = replace_all scope rest failed in (s ++ output, failed')
replace_all scope (capture s name subname ∷ rest) failed =
    let (value, failed') = replacement scope name subname failed in
    let (output, failed'') = replace_all scope rest failed' in (value ++ output, failed'')

abbrev pub finish : Text × Option RendererError → Run RendererError Text
finish r = elim (r.1) [ some e ↦ err e | none ↦ ok (unescape_variable_inections r.0) ]

unfoldable pub render_variables : VarRegex → Text → Scope → Run RendererError Text
render_variables regex body scope = finish (replace_all scope (regex.split body) none)

module _ (regex : VarRegex) (scope : Scope) where
  unfoldable mutual
    pub inject_variables_into_value : Value → Run RendererError Value
    inject_variables_into_value (string s) = render_variables regex s scope >>= λ t. ok (string t)
    inject_variables_into_value (array values) = inject_values values >>= λ vs. ok (array vs)
    inject_variables_into_value (object fields) = inject_fields fields >>= λ fs. ok (object fs)
    inject_variables_into_value null = ok null
    inject_variables_into_value (bool b) = ok (bool b)
    inject_variables_into_value (number n) = ok (number n)

    pub inject_values : Values → Run RendererError Values
    inject_values nil = ok nil
    inject_values (cons value values) =
        inject_variables_into_value value >>= λ v. inject_values values >>= λ vs. ok (cons v vs)

    pub inject_fields : Fields → Run RendererError Fields
    inject_fields end = ok end
    inject_fields (field key value fields) = inject_variables_into_value value >>= λ v.
        inject_fields fields >>= λ fs. ok (field key v fs)

  unfoldable pub inject_variables_into_params : Params → Run RendererError Params
  inject_variables_into_params params = inject_fields params
