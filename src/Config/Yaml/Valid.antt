-- ===== src/Config/Yaml/Valid.antt =====
-- Which matches of a YAML file `try_convert_into_match`
-- (crates/shinran_config/src/matches/group/loader/yaml/mod.rs) takes.
use shinran.Prelude.{
  ◌≡◌, refl, ap, ◌∙◌, Text, Bool, true, false, ◌&&◌, ◌||◌, Option, none, some, List, [], ◌∷◌, ◌++◌,
  if◌then◌else◌, arith, any, Result, success, failure, ◌and_then◌, map_err, unwrap_or, literal,
}
use shinran.Types.Params
use shinran.Types.{
  Value, Values, Fields, Variable, VarType, TextFormat, UpperCasingStyle, MatchCause,
}
use shinran.Config.Yaml.{
  YamlNumber, YamlValue, null, bool, number, string, sequence, mapping, tagged, Sequence, Mapping,
  entry, nil, cons, end, positive, negative, float, convert_number, convert_value, convert_values,
  convert_entries, convert_params, as_str,
}
use shinran.Config.Yaml.Match.{
  YamlVariable, YamlMatch, YamlError, Converted, Crates, var_type_of, or_unknown,
  try_convert_into_variable, convert_variables, cause_of, uppercase_style_of, text_effect,
  form_effect, effect_from, effect_of, form_params, finish_match, try_convert_into_match, body_of,
}
use shinran.Config.Yaml.Validity.{
  is_success, is_some, is_text, is_i64, is_convertible, are_convertible, has_convertible,
  type_names, is_valid_variable, are_valid_variables, has_convertible_fields, has_effect, is_valid,
}

-- A second step that succeeds or fails whatever the first one gives.
is_success-and_then :
    {E A B : Type 0} (r : Result E A) (f : A → Result E B) (b : Bool)
    → ((a : A) → is_success (f a) ≡ b)
    → is_success (r and_then f) ≡ (is_success r && b)
is_success-and_then (success a) f b h = h a
is_success-and_then (failure e) f b h = refl

is_success-map :
    {E A B : Type 0} (r : Result E A) (f : A → B)
    → is_success (r and_then λ a. success (f a)) ≡ is_success r
is_success-map (success a) f = refl
is_success-map (failure e) f = refl

-- The same, for a last step that always succeeds.
is_success-map_then :
    {E A B C : Type 0} (r : Result E A) (f : A → B) (g : B → Result E C)
    → ((a : A) → is_success (g (f a)) ≡ true)
    → is_success (r and_then (λ a. success (f a)) and_then g) ≡ is_success r
is_success-map_then (success a) f g h = h a
is_success-map_then (failure e) f g h = refl

is_success-map_err :
    {E F A : Type 0} (f : E → F) (r : Result E A) → is_success (map_err f r) ≡ is_success r
is_success-map_err f (success a) = refl
is_success-map_err f (failure e) = refl

convert_number-is_success : (n : YamlNumber) → is_success (convert_number n) ≡ is_i64 n
unfolding convert_number
convert_number-is_success (positive n) = ground arith
convert_number-is_success (negative n) = refl
convert_number-is_success (float bits) = refl

as_str-is_success : (v : YamlValue) → is_success (as_str v) ≡ is_text v
as_str-is_success v = ground arith

and_both : {a b c d : Bool} → a ≡ b → c ≡ d → (a && c) ≡ (b && d)
and_both p q = cc

mutual
  unfolding convert_value convert_values convert_entries convert_number is_convertible
      are_convertible has_convertible

  convert_value-is_success : (v : YamlValue) → is_success (convert_value v) ≡ is_convertible v
  convert_value-is_success null = refl
  convert_value-is_success (bool b) = refl
  convert_value-is_success (number n) =
      is_success-map (convert_number n) Value.number ∙ convert_number-is_success n
  convert_value-is_success (string s) = refl
  convert_value-is_success (sequence values) =
      is_success-map (convert_values values) Value.array ∙ convert_values-is_success values
  convert_value-is_success (mapping entries) =
      is_success-map (convert_entries entries Fields.end) Value.object
      ∙ convert_entries-is_success entries Fields.end
  convert_value-is_success (tagged tag v) = refl

  convert_values-is_success : (vs : Sequence) → is_success (convert_values vs) ≡ are_convertible vs
  convert_values-is_success nil = refl
  convert_values-is_success (cons v vs) =
      is_success-and_then (convert_value v) _ (is_success (convert_values vs))
        (λ w. is_success-map (convert_values vs) (Values.cons w))
      ∙ and_both (convert_value-is_success v) (convert_values-is_success vs)

  convert_entries-is_success :
      (m : Mapping) (acc : Fields) → is_success (convert_entries m acc) ≡ has_convertible m
  convert_entries-is_success end acc = refl
  convert_entries-is_success (entry key value entries) acc =
      is_success-and_then (as_str key) _ (is_convertible value && has_convertible entries) (λ k.
        is_success-and_then (convert_value value) _ (has_convertible entries)
          (λ v. convert_entries-is_success entries (Params.insert k v acc))
        ∙ and_both (convert_value-is_success value) refl)
      ∙ and_both (as_str-is_success key) refl

var_type_of-is_some : (s : Text) → is_some (var_type_of s) ≡ any (literal s) type_names
unfolding var_type_of
var_type_of-is_some s = ground arith

or_unknown-is_success : (s : Text) (t : Option VarType) → is_success (or_unknown s t) ≡ is_some t
or_unknown-is_success s none = refl
or_unknown-is_success s (some t) = refl

variable-is_success :
    (v : YamlVariable) (b : Bool) → is_success (try_convert_into_variable v b) ≡ is_valid_variable v
unfolding try_convert_into_variable is_valid_variable convert_params
variable-is_success v b =
    is_success-and_then (or_unknown v.var_type (var_type_of v.var_type)) _
      (has_convertible v.params)
      (λ var_type.
        is_success-map (map_err YamlError.conversion (convert_params v.params)) _
        ∙ is_success-map_err YamlError.conversion (convert_params v.params)
        ∙ convert_entries-is_success v.params Fields.end)
    ∙ and_both
        (or_unknown-is_success v.var_type (var_type_of v.var_type) ∙ var_type_of-is_some v.var_type)
        refl

variables-is_success :
    (vs : List YamlVariable) (vars : List Variable) (warnings : List YamlError)
    → is_success (convert_variables vs vars warnings) ≡ are_valid_variables vs
unfolding convert_variables are_valid_variables
variables-is_success [] vars warnings = refl
variables-is_success (v ∷ vs) vars warnings =
    is_success-and_then (map_err (YamlError.failed_variable v) (try_convert_into_variable v false))
      _ (are_valid_variables vs)
      (λ converted. variables-is_success vs (vars ++ converted.0 ∷ []) (warnings ++ converted.1))
    ∙ and_both
        (is_success-map_err (YamlError.failed_variable v) (try_convert_into_variable v false)
          ∙ variable-is_success v false)
        refl

fields-is_success :
    (layout : Text) (fields : Option Mapping)
    → is_success (form_params layout fields) ≡ has_convertible_fields fields
unfolding form_params convert_params
fields-is_success layout none = refl
fields-is_success layout (some fields) =
    is_success-map (map_err YamlError.conversion (convert_params fields)) _
    ∙ is_success-map_err YamlError.conversion (convert_params fields)
    ∙ convert_entries-is_success fields Fields.end

body_of-is_some :
    (m : YamlMatch)
    → is_some (body_of m) ≡ (is_some m.replace || is_some m.markdown || is_some m.html)
body_of-is_some m = ground arith

cause_of-is_success :
    (m : YamlMatch) (style : UpperCasingStyle)
    → is_success (cause_of m style) ≡ (is_some m.trigger || is_some m.triggers || is_some m.regex)
unfolding cause_of
cause_of-is_success m style = ground arith

module _ (crates : Crates) (m : YamlMatch) where
  -- What `has_effect` asks, of the body, the form and the image.
  abbrev has_effect_from : Bool → Bool → Bool → Bool
  has_effect_from has_body has_form has_image =
      if has_body
      then are_valid_variables (unwrap_or m.vars [])
      else if has_form
      then has_convertible_fields m.form_fields
      else has_image

  effect_from-is_success :
      (b : Option (Text × TextFormat)) (f i : Option Text) (warnings : List YamlError)
      (cause : MatchCause) (s : Converted)
      → is_success (
          effect_from crates m b f i and_then λ effect.
          finish_match m (warnings ++ effect.1) cause effect.0 s)
        ≡ has_effect_from (is_some b) (is_some f) (is_some i)
  unfolding effect_from text_effect form_effect finish_match
  effect_from-is_success (some (body, format)) f i warnings cause s =
      is_success-map_then (convert_variables (unwrap_or m.vars []) [] []) _ _ (λ converted. refl)
      ∙ variables-is_success (unwrap_or m.vars []) [] []
  effect_from-is_success none (some layout) i warnings cause s =
      is_success-map_then (form_params layout m.form_fields) _ _ (λ params. refl)
      ∙ fields-is_success layout m.form_fields
  effect_from-is_success none none (some path) warnings cause s = refl
  effect_from-is_success none none none warnings cause s = refl

  -- A match is taken exactly if it has a trigger, a list of triggers or a regular expression, and
  -- an effect: a body with variables of known types and convertible parameters, else a form with
  -- convertible fields, else an image.
  pub try_convert_into_match-is_success :
      (s : Converted) → is_success (try_convert_into_match crates m s) ≡ is_valid m
  unfolding try_convert_into_match effect_of is_valid has_effect
  try_convert_into_match-is_success s =
      is_success-and_then (cause_of m (uppercase_style_of m.uppercase_style).0) _ (has_effect m)
        (λ cause.
          effect_from-is_success (body_of m) m.form m.image_path _ cause s
          ∙ ap (λ b. has_effect_from b (is_some m.form) (is_some m.image_path)) (body_of-is_some m))
      ∙ and_both (cause_of-is_success m (uppercase_style_of m.uppercase_style).0) refl
