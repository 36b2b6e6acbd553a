-- ===== src/Config/Yaml/Match/Cause.antt =====
-- The parts of a match besides its effect
-- (crates/shinran_config/src/matches/group/loader/yaml/mod.rs): `try_convert_into_variable`, and
-- the first half of `try_convert_into_match`.
use shinran.Prelude.{
  Text, Bool, true, false, not, ◌&&◌, Option, none, some, List, [], ◌∷◌, literal,
  to_ascii_lowercase, or_else, unwrap_or, if◌then◌else◌, Result, success, failure, ◌and_then◌,
  map_err,
}
use shinran.Types.{
  VarType, date, mock, shell, script, random, echo, form, match, Variable, WordBoundary, neither,
  left, right, both, UpperCasingStyle, uppercase, capitalize, capitalize_words, TriggerCause,
  MatchCause,
}
use shinran.Config.Yaml.{convert_params}
use shinran.Config.Yaml.Match.Source.{
  YamlVariable, YamlMatch, YamlError, missing_cause, unknown_variable_type, conversion,
  unused_uppercase_style, unrecognized_uppercase_style,
}

unfoldable pub var_type_of : Text → Option VarType
var_type_of s =
    if literal s "date"
    then some date
    else if literal s "dummy"
    then some echo
    else if literal s "echo"
    then some echo
    else if literal s "form"
    then some form
    else if literal s "match"
    then some match
    else if literal s "random"
    then some random
    else if literal s "script"
    then some script
    else if literal s "shell"
    then some shell
    else if literal s "mock"
    then some mock
    else if literal s "test"
    then some mock
    else none

abbrev pub or_unknown : Text → Option VarType → Result YamlError VarType
or_unknown s none = failure (unknown_variable_type s)
or_unknown s (some var_type) = success var_type

-- The list of warnings is always empty.
unfoldable pub try_convert_into_variable :
    YamlVariable → Bool → Result YamlError (Variable × List YamlError)
try_convert_into_variable yaml_var use_compatibility_mode =
    or_unknown yaml_var.var_type (var_type_of yaml_var.var_type) and_then λ var_type.
    map_err conversion (convert_params yaml_var.params) and_then λ params. success (
      record {
        name = yaml_var.name;
        var_type = var_type;
        params = params;
        inject_vars = not use_compatibility_mode && unwrap_or yaml_var.inject_vars true;
        depends_on = yaml_var.depends_on;
      },
      [],
    )

-- The first warning
abbrev pub style_warnings : Option Text → Option Bool → List YamlError
style_warnings (some style) none = unused_uppercase_style ∷ []
style_warnings _ _ = []

-- The style, of which the letters were made lower case, with a warning.
unfoldable pub uppercase_style_of : Option Text → UpperCasingStyle × List YamlError
uppercase_style_of none = (uppercase, [])
uppercase_style_of (some yaml_style) =
    let style = to_ascii_lowercase yaml_style in
    if literal style "uppercase"
    then (uppercase, [])
    else if literal style "capitalize"
    then (capitalize, [])
    else if literal style "capitalize_words"
    then (capitalize_words, [])
    else (uppercase, unrecognized_uppercase_style style ∷ [])

abbrev pub triggers_of : YamlMatch → Option (List Text)
triggers_of m = elim m.trigger [ some trigger ↦ some (trigger ∷ []) | none ↦ m.triggers ]

abbrev pub word_boundary_of : Bool → Bool → WordBoundary
word_boundary_of true true = both
word_boundary_of true false = left
word_boundary_of false true = right
word_boundary_of false false = neither

unfoldable pub trigger_cause : YamlMatch → UpperCasingStyle → List Text → TriggerCause
trigger_cause m style triggers = record {
  triggers = triggers;
  word_boundary =
      word_boundary_of (unwrap_or (or_else m.left_word m.word) false)
        (unwrap_or (or_else m.right_word m.word) false);
  propagate_case = unwrap_or m.propagate_case false;
  uppercase_style = style;
}

unfoldable pub cause_of : YamlMatch → UpperCasingStyle → Result YamlError MatchCause
cause_of m style = elim (triggers_of m) [
  | some triggers ↦ success (MatchCause.trigger (trigger_cause m style triggers))
  | none ↦ elim m.regex [
    | some regex ↦ success (MatchCause.regex regex)
    | none ↦ failure missing_cause
  ]
]
