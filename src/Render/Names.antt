-- ===== src/Render/Names.antt =====
-- The variables that a text or a parameter mentions: `get_body_variable_names` and
-- `get_params_variable_names` of crates/shinran_render/src/renderer/util.rs.
use shinran.Prelude.{Text, List, [], ◌∷◌, insert, extend, text_key}
use shinran.Types.{
  Value, null, bool, number, string, array, object, Values, nil, cons, Fields, end, field, Params,
}
use shinran.Render.{Segment, plain, capture, VarRegex}

-- `for caps in VAR_REGEX.captures_iter(body)`
unfoldable pub capture_names : List Segment → List Text → List Text
unfolding insert
capture_names [] names = names
capture_names (plain s ∷ segments) names = capture_names segments names
capture_names (capture s name subname ∷ segments) names = capture_names segments (insert name names)

module _ (regex : VarRegex) where
  unfoldable pub get_body_variable_names : Text → List Text
  unfolding capture_names
  get_body_variable_names body = capture_names (regex.split body) []

  unfoldable mutual
    unfolding get_body_variable_names extend

    pub get_value_variable_names_recursively : Value → List Text
    get_value_variable_names_recursively (string s) = get_body_variable_names s
    get_value_variable_names_recursively (array values) = array_variable_names values []
    get_value_variable_names_recursively (object fields) = object_variable_names fields []
    get_value_variable_names_recursively null = []
    get_value_variable_names_recursively (bool b) = []
    get_value_variable_names_recursively (number n) = []

    pub array_variable_names : Values → List Text → List Text
    array_variable_names nil names = names
    array_variable_names (cons value values) names =
        array_variable_names values (extend (get_value_variable_names_recursively value) names)

    pub object_variable_names : Fields → List Text → List Text
    object_variable_names end names = names
    object_variable_names (field k value fields) names =
        object_variable_names fields (extend (get_value_variable_names_recursively value) names)

  unfoldable pub get_params_variable_names : Params → List Text
  unfolding get_value_variable_names_recursively
  get_params_variable_names params = object_variable_names params []
