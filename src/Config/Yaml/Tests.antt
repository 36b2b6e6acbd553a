-- ===== src/Config/Yaml/Tests.antt =====
-- Conversions of YAML values and matches as in the tests of
-- crates/shinran_config/src/matches/group/loader/yaml/.
use shinran.Prelude.{
  ◌≡◌, refl, ◌+◌, Text, codes, true, Option, none, some, List, [], ◌∷◌, unwrap_or, append-nil,
  if◌then◌else◌, literal, ◌++◌, text_eq, success, failure, arith,
}
use shinran.Types.{
  integer, negative, null, bool, number, string, array, object, Values, Fields, field, Params,
}
use shinran.Types.Params
use shinran.Render.{plain}
use shinran.Config.Matches.{LoadedMatchFile}
use shinran.Config.Yaml.{Mapping, convert_params}
use shinran.Config.Yaml.Roundtrip.{write_fields, convert_params-write, Fits, FitsFields, FitsValues}
use shinran.Config.Yaml.Match.{
  YamlVariable, YamlMatch, YamlMatchFile, ErrorRecord, Converted, Crates, try_convert_into_match,
}
use shinran.Config.Yaml.File.{Host, convert_file, resolve_paths, current_dir, error_set}
use shinran.Config.Yaml.Validity.{is_success, is_valid}
use shinran.Config.Yaml.Valid.{try_convert_into_match-is_success}
use shinran.Config.Yaml.Accounting.{entries, yaml_entries, count_errors}
use shinran.Config.Yaml.Entries.{contents, reports}
use shinran.Config.Yaml.Contents.{convert_file-contents}

abbrev params : Params
params = field (codes "string") (string (codes "hello")) (
    field (codes "int") (number (negative 4)) (
      field (codes "array") (array (Values.cons (bool true) (Values.cons null Values.nil))) (
        field (codes "map") (object (field (codes "int") (number (integer 5)) Fields.end))
          Fields.end)))

convert_params-write_example : convert_params (write_fields params) ≡ success params
unfolding FitsFields Fits FitsValues Params.get text_eq
convert_params-write_example =
    convert_params-write params
      (refl, tt, (refl, tt, (refl, (tt, (tt, tt)), (refl, (refl, omega arith, tt), tt))))

abbrev pub crates : Crates
crates = record {
  to_lowercase = λ s. s;
  form_control_regex = record { split = λ s. plain s ∷ []; join-split = λ s. append-nil s };
}

abbrev pub empty_match : YamlMatch
empty_match = record {
  label = none;
  trigger = none;
  triggers = none;
  regex = none;
  replace = none;
  image_path = none;
  form = none;
  form_fields = none;
  vars = none;
  word = none;
  left_word = none;
  right_word = none;
  propagate_case = none;
  uppercase_style = none;
  force_clipboard = none;
  force_mode = none;
  markdown = none;
  paragraph = none;
  html = none;
  search_terms = none;
}

abbrev variable : Text → YamlVariable
variable var_type = record {
  name = codes "var1";
  var_type = var_type;
  params = Mapping.end;
  inject_vars = none;
  depends_on = [];
}

abbrev good_match : YamlMatch
good_match = record empty_match {
  trigger = some (codes ":hi");
  replace = some (codes "world");
  vars = some (variable (codes "test") ∷ []);
  uppercase_style = some (codes "Capitalize");
}

abbrev pub nothing_converted : Converted
nothing_converted = record { trigger_matches = []; regex_matches = []; non_fatal_errors = [] }

try_convert_into_match-is_success_example :
    is_success (try_convert_into_match crates good_match nothing_converted) ≡ is_valid good_match
try_convert_into_match-is_success_example =
    try_convert_into_match-is_success crates good_match nothing_converted

-- One match is converted with a warning, one has no effect and one has no cause.
abbrev file : YamlMatchFile
file = record {
  imports = some (codes "sub.yml" ∷ codes "missing.yml" ∷ []);
  global_vars = some (variable (codes "test") ∷ variable (codes "invalid") ∷ []);
  matches = some (good_match ∷ record empty_match { regex = some (codes "a+") } ∷ empty_match ∷ []);
}

abbrev host : Host
host = record {
  crates = crates;
  read_to_string = λ path. none;
  from_str = λ s. none;
  extension = λ path. none;
  is_file = λ path. true;
  exists = λ path. true;
  parent = λ path. some (codes "/match/");
  is_relative = λ path. true;
  join = λ dir path. dir ++ path;
  canonicalize = λ path. if literal path "/match/missing.yml" then none else some path;
}

abbrev converted_file : LoadedMatchFile × Option (List ErrorRecord)
unfolding convert_file
converted_file = elim (convert_file host (codes "/match/base.yml") file) [
  | success r ↦ r
  | failure e ↦ (
    record {
      import_paths = [];
      content = record { global_vars = []; trigger_matches = []; regex_matches = [] };
      source_path = [];
    },
    none,
  )
]

convert_file-contents_example :
    (dir : Text) × (current_dir host (codes "/match/base.yml") ≡ success dir)
    × (converted_file.0 ≡ contents host dir (codes "/match/base.yml") file)
    × (converted_file.1 ≡ error_set (reports host dir file))
    × (entries converted_file.0 + count_errors (unwrap_or converted_file.1 []) ≡ yaml_entries file)
unfolding converted_file convert_file resolve_paths current_dir
convert_file-contents_example =
    convert_file-contents host (codes "/match/base.yml") file converted_file.0 converted_file.1 refl
