-- ===== src/Config/Yaml/Match/Source.antt =====
-- The data of a YAML match file (crates/shinran_config/src/matches/group/loader/yaml/parse.rs), and the
-- errors of src/error.rs. Errors keep the values that their messages print.
use shinran.Prelude.{Text, Bool, Option, List}
use shinran.Types.{TriggerMatch, RegexMatch, MatchCause}
use shinran.Config.Yaml.{Mapping, ConversionError}

pub record YamlVariable : Type 0 where
  pub name : Text
  pub var_type : Text
  pub params : Mapping
  pub inject_vars : Option Bool
  pub depends_on : List Text

pub record YamlMatch : Type 0 where
  pub label : Option Text
  pub trigger : Option Text
  pub triggers : Option (List Text)
  pub regex : Option Text
  pub replace : Option Text
  pub image_path : Option Text
  pub form : Option Text
  pub form_fields : Option Mapping
  pub vars : Option (List YamlVariable)
  pub word : Option Bool
  pub left_word : Option Bool
  pub right_word : Option Bool
  pub propagate_case : Option Bool
  pub uppercase_style : Option Text
  pub force_clipboard : Option Bool
  pub force_mode : Option Text
  pub markdown : Option Text
  pub paragraph : Option Bool
  pub html : Option Text
  pub search_terms : Option (List Text)

pub record YamlMatchFile : Type 0 where
  pub imports : Option (List Text)
  pub global_vars : Option (List YamlVariable)
  pub matches : Option (List YamlMatch)

-- What an error or a warning says. `failed_variable` is the context of an error of a variable, and
-- `unresolved_import` one of resolve_paths.
pub data YamlError : Type 0 where
  missing_cause : YamlError
  no_effect : MatchCause → YamlError
  unknown_variable_type : Text → YamlError
  failed_variable : YamlVariable → YamlError → YamlError
  conversion : ConversionError → YamlError
  unused_uppercase_style : YamlError
  unrecognized_uppercase_style : Text → YamlError
  unresolved_import : Text → YamlError

pub data ErrorLevel : Type 0 where
  error warning : ErrorLevel

pub record ErrorRecord : Type 0 where
  pub level : ErrorLevel
  pub error : YamlError

abbrev pub error_record : YamlError → ErrorRecord
error_record e = record { level = error; error = e }

abbrev pub warn : YamlError → ErrorRecord
warn e = record { level = warning; error = e }

-- The three vectors that `try_convert_into_match` extends.
pub record Converted : Type 0 where
  pub trigger_matches : List TriggerMatch
  pub regex_matches : List RegexMatch
  pub non_fatal_errors : List ErrorRecord
