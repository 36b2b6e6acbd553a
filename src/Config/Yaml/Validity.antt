-- ===== src/Config/Yaml/Validity.antt =====
-- When a match of a YAML file is valid, told without converting it
-- (crates/shinran_config/src/matches/group/loader/yaml/mod.rs).
use shinran.Prelude.{
  Bool, true, false, ◌&&◌, ◌||◌, Option, none, some, List, [], ◌∷◌, ltb, if◌then◌else◌, any, String,
  Result, success, failure, unwrap_or, literal,
}
use shinran.Config.Yaml.{
  YamlNumber, YamlValue, number, string, sequence, mapping, tagged, Sequence, Mapping, entry, nil,
  cons, end, positive, i64_limit,
}
use shinran.Config.Yaml.Match.{YamlVariable, YamlMatch}

abbrev pub is_success : {E A : Type 0} → Result E A → Bool
is_success (success a) = true
is_success (failure e) = false

abbrev pub is_some : {A : Type 0} → Option A → Bool
is_some none = false
is_some (some a) = true

abbrev pub is_text : YamlValue → Bool
is_text (string s) = true
is_text _ = false

abbrev pub is_i64 : YamlNumber → Bool
is_i64 (positive n) = ltb n i64_limit
is_i64 _ = true

-- A value has no tag and no integer above an `i64`, and its keys are texts.
unfoldable mutual
  pub is_convertible : YamlValue → Bool
  is_convertible (number n) = is_i64 n
  is_convertible (sequence values) = are_convertible values
  is_convertible (mapping entries) = has_convertible entries
  is_convertible (tagged tag value) = false
  is_convertible _ = true

  pub are_convertible : Sequence → Bool
  are_convertible nil = true
  are_convertible (cons value values) = is_convertible value && are_convertible values

  pub has_convertible : Mapping → Bool
  has_convertible end = true
  has_convertible (entry key value entries) =
      is_text key && (is_convertible value && has_convertible entries)

abbrev pub type_names : List String
type_names =
    ("date" ∷ "dummy" ∷ "echo" ∷ "form" ∷ "match" ∷ "random" ∷ "script" ∷ "shell" ∷ "mock" ∷ "test"
      ∷ [])

unfoldable pub is_valid_variable : YamlVariable → Bool
is_valid_variable v = any (literal v.var_type) type_names && has_convertible v.params

unfoldable pub are_valid_variables : List YamlVariable → Bool
are_valid_variables [] = true
are_valid_variables (v ∷ vars) = is_valid_variable v && are_valid_variables vars

abbrev pub has_convertible_fields : Option Mapping → Bool
has_convertible_fields none = true
has_convertible_fields (some fields) = has_convertible fields

-- A body wants its variables valid; without one, a form wants its fields so; else there is an image.
unfoldable pub has_effect : YamlMatch → Bool
has_effect m =
    if is_some m.replace || is_some m.markdown || is_some m.html
    then are_valid_variables (unwrap_or m.vars [])
    else if is_some m.form
    then has_convertible_fields m.form_fields
    else is_some m.image_path

unfoldable pub is_valid : YamlMatch → Bool
is_valid m = (is_some m.trigger || is_some m.triggers || is_some m.regex) && has_effect m
