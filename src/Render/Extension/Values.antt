-- ===== src/Render/Extension/Values.antt =====
-- crates/shinran_render/src/extension/: random.rs, and form.rs, choice.rs and clipboard.rs, which mod.rs
-- does not build. What draws, shows or reads a value is a parameter.
use shinran.Prelude.{
  Text, text_key, codes, Option, none, some, List, [], ◌∷◌, Result, failure, ◌and_then◌, filter_map,
  map,
}
use shinran.Prelude.Dict.{Map}
use shinran.Prelude.Whitespace.{trim, lines}
use shinran.Types.{Value, string, array, object, Values, nil, cons, Fields, Params}
use shinran.Types.Params.{get}
use shinran.Render.{RendererError, single, multiple, ExtensionResult}
use shinran.Render.Extension.{report}
use shinran.Render.Extension.Script.{strings_of}

-- `RandomExtension::calculate`, over `SliceRandom::choose`.
unfoldable pub calculate_random : (List Text → Option Text) → Params → ExtensionResult
calculate_random choose params = elim (get (codes "choices") params) [
  | some (array values) ↦ elim (choose (strings_of values)) [
    | some choice ↦ ExtensionResult.success (single choice)
    | none ↦ report (codes "could not select a choice randomly")
  ]
  | _ ↦ report (codes "missing 'choices' parameter")
]

pub data FormProviderResult : Type 0 where
  success : Map Text Text → FormProviderResult
  aborted : FormProviderResult
  error : RendererError → FormProviderResult

abbrev pub fields_of : Option Value → Params
fields_of (some (object fields)) = fields
fields_of _ = Fields.end

abbrev pub form_result : FormProviderResult → ExtensionResult
form_result (FormProviderResult.success values) = ExtensionResult.success (multiple values)
form_result FormProviderResult.aborted = ExtensionResult.aborted
form_result (FormProviderResult.error e) = ExtensionResult.error e

-- `FormExtension::calculate`: `show` gets the layout, the fields and no options.
unfoldable pub calculate_form :
    (Text → Params → Params → FormProviderResult) → Params → ExtensionResult
calculate_form show params = elim (get (codes "layout") params) [
  | some (string layout) ↦
      form_result (show layout (fields_of (get (codes "fields") params)) Fields.end)
  | _ ↦ report (codes "missing layout parameter")
]

pub record Choice : Type 0 where
  pub label : Text
  pub id : Text

pub data ChoiceSelectorResult : Type 0 where
  success : Text → ChoiceSelectorResult
  aborted : ChoiceSelectorResult
  error : RendererError → ChoiceSelectorResult

pub data ChoiceError : Type 0 where
  missing_values invalid_object_value invalid_value_type : ChoiceError

abbrev pub choice_message : ChoiceError → Text
choice_message missing_values = codes "missing values parameter"
choice_message invalid_object_value =
    codes "values contain object items, but they are missing either the 'id' or 'label' fields"
choice_message invalid_value_type =
    codes "values contain an invalid item type. items can only be strings or objects"

abbrev pub not_empty : Text → Option Text
not_empty [] = none
not_empty (c ∷ s) = some (c ∷ s)

-- The lines of a text that are not blank
unfoldable pub line_choices : Text → List Choice
line_choices values =
    map (λ (line : Text). record { label = line; id = line })
      (filter_map (λ line. not_empty (trim line)) (lines values))

abbrev pub text_field : Option Value → Result ChoiceError Text
text_field (some (string s)) = Result.success s
text_field _ = failure invalid_object_value

unfoldable pub value_choice : Value → Result ChoiceError Choice
value_choice (string s) = Result.success (record { label = s; id = s })
value_choice (object fields) = text_field (get (codes "id") fields) and_then λ id.
    text_field (get (codes "label") fields) and_then λ label.
    Result.success (record { label = label; id = id })
value_choice _ = failure invalid_value_type

unfoldable pub value_choices : Values → Result ChoiceError (List Choice)
value_choices nil = Result.success []
value_choices (cons value values) = value_choice value and_then λ choice.
    value_choices values and_then λ choices. Result.success (choice ∷ choices)

unfoldable pub choices_of : Option Value → Result ChoiceError (List Choice)
choices_of (some (string values)) = Result.success (line_choices values)
choices_of (some (array values)) = value_choices values
choices_of _ = failure missing_values

abbrev pub choice_result : ChoiceSelectorResult → ExtensionResult
choice_result (ChoiceSelectorResult.success id) = ExtensionResult.success (single id)
choice_result ChoiceSelectorResult.aborted = ExtensionResult.aborted
choice_result (ChoiceSelectorResult.error e) = ExtensionResult.error e

-- `ChoiceExtension::calculate`
unfoldable pub calculate_choice : (List Choice → ChoiceSelectorResult) → Params → ExtensionResult
calculate_choice show params = elim (choices_of (get (codes "values") params)) [
  | Result.success choices ↦ choice_result (show choices)
  | failure e ↦ report (choice_message e)
]

-- `ClipboardExtension::calculate`
unfoldable pub calculate_clipboard : Option Text → ExtensionResult
calculate_clipboard (some clipboard) = ExtensionResult.success (single clipboard)
calculate_clipboard none = report (codes "clipboard provider returned error")
