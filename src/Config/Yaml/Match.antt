-- ===== src/Config/Yaml/Match.antt =====
-- crates/shinran_config/src/matches/group/loader/yaml/: `try_convert_into_match` of mod.rs, from the effect of
-- a match on.
pub mod Source
pub mod Cause
use shinran.Prelude.{
  Text, true, false, Option, none, some, List, [], ◌∷◌, ◌++◌, literal, codes, map, unwrap_or,
  if◌then◌else◌, Result, success, failure, ◌and_then◌, map_err,
}
use shinran.Types.{
  form, Value, Fields, Params, Variable, default_variable, TextFormat, plain, markdown, html,
  TextInjectMode, keys, clipboard, MatchEffect, nothing, text, image, BaseMatch, MatchCause,
}
use shinran.Types.Params
use shinran.Render.{VarRegex, Segment, capture}
use shinran.Render.Util.{replace}
pub use shinran.Config.Yaml.Match.Source.{
  YamlVariable, YamlMatch, YamlMatchFile, YamlError, missing_cause, no_effect,
  unknown_variable_type, failed_variable, conversion, unused_uppercase_style,
  unrecognized_uppercase_style, unresolved_import, ErrorLevel, error, warning, ErrorRecord,
  error_record, warn, Converted,
}
unfoldable pub use shinran.Config.Yaml.Match.Cause.{
  var_type_of, or_unknown, try_convert_into_variable, style_warnings, uppercase_style_of,
  triggers_of, word_boundary_of, trigger_cause, cause_of,
}
use shinran.Config.Yaml.{Mapping, convert_params}

-- What the conversion uses of other crates: `str::to_lowercase` of all letters, and
-- `FORM_CONTROL_REGEX`, of which a match captures the name of the control.
pub record Crates : Type 0 where
  pub to_lowercase : Text → Text
  pub form_control_regex : VarRegex

abbrev pub mode_of : Text → Option TextInjectMode
mode_of mode =
    if literal mode "clipboard"
    then some clipboard
    else if literal mode "keys"
    then some keys
    else none

-- The first of the three bodies, with its format.
abbrev pub body_of : YamlMatch → Option (Text × TextFormat)
body_of m = elim m.replace [
  | some s ↦ some (s, plain)
  | none ↦ elim m.markdown [
    | some s ↦ some (s, markdown)
    | none ↦ elim m.html [ some s ↦ some (s, html) | none ↦ none ]
  ]
]

-- The loop over the variables, with the warnings so far.
unfoldable pub convert_variables :
    List YamlVariable
    → List Variable
    → List YamlError
    → Result YamlError (List Variable × List YamlError)
convert_variables [] vars warnings = success (vars, warnings)
convert_variables (yaml_var ∷ rest) vars warnings =
    map_err (failed_variable yaml_var) (try_convert_into_variable yaml_var false)
    and_then λ converted.
        convert_variables rest (vars ++ converted.0 ∷ []) (warnings ++ converted.1)

-- `replace_all` of a form control by the variable of the form
unfoldable pub replace_controls : List Segment → Text
replace_controls [] = []
replace_controls (Segment.plain s ∷ rest) = s ++ replace_controls rest
replace_controls (capture s name subname ∷ rest) =
    codes "{{form1." ++ (name ++ (codes "}}" ++ replace_controls rest))

-- The fields of a form join its layout.
unfoldable pub form_params : Text → Option Mapping → Result YamlError Params
form_params layout none = success (Params.insert (codes "layout") (Value.string layout) Fields.end)
form_params layout (some fields) = map_err conversion (convert_params fields) and_then λ converted.
    success (
      Params.insert (codes "fields") (Value.object converted)
        (Params.insert (codes "layout") (Value.string layout) Fields.end))

abbrev pub base_match_of : YamlMatch → MatchEffect → BaseMatch
base_match_of m effect = record {
  effect = effect;
  label = m.label;
  search_terms = unwrap_or m.search_terms [];
}

unfoldable pub push_match : BaseMatch → MatchCause → Converted → Converted
push_match base (MatchCause.regex regex) s = record s {
  regex_matches = s.regex_matches ++ record { base_match = base; regex = regex } ∷ [];
}
push_match base (MatchCause.trigger cause) s = record s {
  trigger_matches =
      s.trigger_matches
      ++ record {
        base_match = base;
        triggers = cause.triggers;
        propagate_case = cause.propagate_case;
        uppercase_style = cause.uppercase_style;
        word_boundary = cause.word_boundary;
      }
        ∷ [];
}

abbrev pub extend_errors : List YamlError → Converted → Converted
extend_errors warnings s = record s { non_fatal_errors = s.non_fatal_errors ++ map warn warnings }

unfoldable pub finish_match :
    YamlMatch → List YamlError → MatchCause → MatchEffect → Converted → Result YamlError Converted
finish_match m warnings cause nothing s = failure (no_effect cause)
finish_match m warnings cause effect s =
    success (extend_errors warnings (push_match (base_match_of m effect) cause s))

module _ (crates : Crates) where
  unfoldable pub force_mode_of : YamlMatch → Option TextInjectMode
  force_mode_of m = elim m.force_clipboard [
    | some true ↦ some clipboard
    | _ ↦ elim m.force_mode [ some mode ↦ mode_of (crates.to_lowercase mode) | none ↦ none ]
  ]

  unfoldable pub form_body : Text → Text
  form_body layout = replace (codes "\\}") (codes " }") (
      replace (codes "\\{") (codes "{ ")
        (replace_controls (crates.form_control_regex.split layout)))

  unfoldable pub form_effect : Option TextInjectMode → Text → Params → MatchEffect
  form_effect force_mode layout params = text (record {
    body = form_body layout;
    vars = record default_variable { name = codes "form1"; var_type = form; params = params } ∷ [];
    format = plain;
    force_mode = force_mode;
  })

  -- The effect of a match with a body, with the warnings of its variables.
  unfoldable pub text_effect :
      YamlMatch → Text × TextFormat → Result YamlError (MatchEffect × List YamlError)
  text_effect m (body, format) = convert_variables (unwrap_or m.vars []) [] [] and_then λ converted.
      success (
        text (record {
          body = body;
          vars = converted.0;
          format = format;
          force_mode = force_mode_of m;
        }),
        converted.1,
      )

  -- The effect, by the body, the form and the image.
  unfoldable pub effect_from :
      YamlMatch
      → Option (Text × TextFormat)
      → (form_layout image_path : Option Text) → Result YamlError (MatchEffect × List YamlError)
  effect_from m (some body) form_layout image_path = text_effect m body
  effect_from m none (some form_layout) image_path =
      form_params form_layout m.form_fields and_then λ params.
      success (form_effect (force_mode_of m) form_layout params, [])
  effect_from m none none (some image_path) = success (image image_path, [])
  effect_from m none none none = success (nothing, [])

  unfoldable pub effect_of : YamlMatch → Result YamlError (MatchEffect × List YamlError)
  effect_of m = effect_from m (body_of m) m.form m.image_path

  unfoldable pub try_convert_into_match : YamlMatch → Converted → Result YamlError Converted
  try_convert_into_match m s =
      let style = uppercase_style_of m.uppercase_style in
      let warnings = style_warnings m.uppercase_style m.propagate_case ++ style.1 in
      cause_of m style.0 and_then λ cause.
      effect_of m and_then λ effect. finish_match m (warnings ++ effect.1) cause effect.0 s
