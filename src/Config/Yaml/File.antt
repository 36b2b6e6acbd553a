-- ===== src/Config/Yaml/File.antt =====
-- Reading a match file: `YAMLImporter::load_file` of
-- crates/shinran_config/src/matches/group/loader/yaml/mod.rs, `load_match_file` of loader/mod.rs,
-- `resolve_paths` of matches/group/path.rs and `is_yaml_empty` of util.rs. The file system and the YAML
-- parser are parameters.
use shinran.Prelude.{
  Text, Bool, true, false, not, ◌&&◌, ◌||◌, Option, none, some, List, [], ◌∷◌, ◌++◌, literal, codes,
  nat_eq, to_ascii_lowercase, map, unwrap_or, if◌then◌else◌, Result, success, failure, ◌and_then◌,
  map_err,
}
use shinran.Prelude.Whitespace.{trim, lines}
use shinran.Types.{Variable}
use shinran.Config.Matches.{LoadedMatchFile, Reader}
use shinran.Config.Yaml.Match.{
  YamlVariable, YamlMatch, YamlMatchFile, YamlError, unresolved_import, ErrorRecord, error_record,
  warn, Converted, Crates, try_convert_into_variable, try_convert_into_match,
}

abbrev pub is_comment : Text → Bool
is_comment [] = false
is_comment (c ∷ s) = nat_eq c b'#'

abbrev pub is_empty : Text → Bool
is_empty [] = true
is_empty (c ∷ s) = false

-- The loop of `is_yaml_empty`
unfoldable pub all_blank : List Text → Bool
all_blank [] = true
all_blank (line ∷ rest) =
    let later = all_blank rest in
    let trimmed_line = trim line in
    if not (is_comment trimmed_line) && not (is_empty trimmed_line) then false else later

unfoldable pub is_yaml_empty : Text → Bool
is_yaml_empty yaml = all_blank (lines yaml)

-- The file system, and `serde_yaml_ng::from_str` for a match file. `none` is an error.
pub record Host : Type 0 where
  pub crates : Crates
  pub read_to_string : Text → Option Text
  pub from_str : Text → Option YamlMatchFile
  pub extension : Text → Option Text
  pub is_file : Text → Bool
  pub exists : Text → Bool
  pub parent : Text → Option Text
  pub is_relative : Text → Bool
  pub join : Text → Text → Text
  pub canonicalize : Text → Option Text

-- `io` is an error of the file system, `resolve` of resolve_paths.
pub data FileError : Type 0 where
  io parse resolve : FileError

pub data LoadError : Type 0 where
  missing_extension invalid_format : LoadError
  parsing_error : FileError → LoadError

unfoldable pub is_supported : Text → Bool
is_supported extension =
    let lower = to_ascii_lowercase extension in literal lower "yaml" || literal lower "yml"

-- What one turn of the loop over the global variables adds.
abbrev pub note_variable :
    Result YamlError (Variable × List YamlError)
    → List Variable × List ErrorRecord
    → List Variable × List ErrorRecord
note_variable (success (var, warnings)) (vars, errors) =
    (vars ++ var ∷ [], errors ++ map warn warnings)
note_variable (failure e) (vars, errors) = (vars, errors ++ error_record e ∷ [])

unfoldable pub convert_global_vars :
    List YamlVariable → List Variable × List ErrorRecord → List Variable × List ErrorRecord
convert_global_vars [] s = s
convert_global_vars (yaml_var ∷ rest) s =
    convert_global_vars rest (note_variable (try_convert_into_variable yaml_var false) s)

-- What one turn of the loop over the matches leaves.
abbrev pub note_match : Result YamlError Converted → Converted → Converted
note_match (success s') s = s'
note_match (failure e) s = record s { non_fatal_errors = s.non_fatal_errors ++ error_record e ∷ [] }

unfoldable pub convert_matches : Crates → List YamlMatch → Converted → Converted
convert_matches crates [] s = s
convert_matches crates (yaml_match ∷ rest) s =
    convert_matches crates rest (note_match (try_convert_into_match crates yaml_match s) s)

-- A set of errors that are not fatal is there if there is one.
abbrev pub error_set : List ErrorRecord → Option (List ErrorRecord)
error_set [] = none
error_set (e ∷ errors) = some (e ∷ errors)

abbrev pub note_import :
    Result Text Text → List Text × List ErrorRecord → List Text × List ErrorRecord
note_import (success path) (paths, errors) = (paths ++ path ∷ [], errors)
note_import (failure path) (paths, errors) =
    (paths, errors ++ error_record (unresolved_import path) ∷ [])

-- What was converted, with the imports.
unfoldable pub loaded_file :
    Text
    → List Variable
    → Converted
    → List Text × List ErrorRecord
    → LoadedMatchFile × Option (List ErrorRecord)
loaded_file path global_vars s imports = (
  record {
    import_paths = imports.0;
    content = record {
      global_vars = global_vars;
      trigger_matches = s.trigger_matches;
      regex_matches = s.regex_matches;
    };
    source_path = path;
  },
  error_set (s.non_fatal_errors ++ imports.1),
)

abbrev pub parsed : Option YamlMatchFile → Result FileError YamlMatchFile
parsed (some file) = success file
parsed none = failure parse

abbrev pub is_some : Option (List ErrorRecord) → Bool
is_some none = false
is_some (some errors) = true

module _ (host : Host) where
  -- The directory that holds the file
  unfoldable pub current_dir : Text → Result FileError Text
  current_dir path = elim (host.is_file path) [
    | true ↦ elim (host.parent path) [ some parent ↦ success parent | none ↦ failure resolve ]
    | false ↦ success path
  ]

  abbrev pub full_path : Text → Text → Text
  full_path dir path = if host.is_relative path then host.join dir path else path

  -- Where an import leads, or the path that the error names.
  unfoldable pub resolve_import : Text → Result Text Text
  resolve_import full_path = elim (host.canonicalize full_path) [
    | some canonical_path ↦
        if host.exists canonical_path && host.is_file canonical_path
        then success canonical_path
        else failure canonical_path
    | none ↦ failure full_path
  ]

  -- The loop of `resolve_paths`
  unfoldable pub resolve_each :
      Text → List Text → List Text × List ErrorRecord → List Text × List ErrorRecord
  resolve_each dir [] s = s
  resolve_each dir (path ∷ rest) s =
      resolve_each dir rest (note_import (resolve_import (full_path dir path)) s)

  unfoldable pub resolve_paths : Text → List Text → Result FileError (List Text × List ErrorRecord)
  resolve_paths match_file_path paths =
      current_dir match_file_path and_then λ dir. success (resolve_each dir paths ([], []))

  unfoldable pub parse_from_str : Text → Result FileError YamlMatchFile
  parse_from_str yaml =
      if is_yaml_empty yaml
      then parsed (host.from_str (codes "arbitrary_field_that_will_not_block_the_parser: true"))
      else parsed (host.from_str yaml)

  abbrev pub read : Text → Result FileError Text
  read path = elim (host.read_to_string path) [ some content ↦ success content | none ↦ failure io ]

  -- The parsed file, after the loop over the global variables.
  unfoldable pub convert_file :
      Text → YamlMatchFile → Result FileError (LoadedMatchFile × Option (List ErrorRecord))
  convert_file path file =
      let vars = convert_global_vars (unwrap_or file.global_vars []) ([], []) in
      let s =
        convert_matches host.crates (unwrap_or file.matches [])
          (record { trigger_matches = []; regex_matches = []; non_fatal_errors = vars.1 }) in
      resolve_paths path (unwrap_or file.imports []) and_then λ imports.
      success (loaded_file path vars.0 s imports)

  unfoldable pub load_file : Text → Result FileError (LoadedMatchFile × Option (List ErrorRecord))
  load_file path = read path and_then parse_from_str and_then convert_file path

  unfoldable pub load_match_file :
      Text → Result LoadError (LoadedMatchFile × Option (List ErrorRecord))
  load_match_file path = elim (host.extension path) [
    | none ↦ failure missing_extension
    | some extension ↦ elim (is_supported extension) [
      | true ↦ map_err parsing_error (load_file path)
      | false ↦ failure invalid_format
    ]
  ]

  -- What the match store reads of a file.
  unfoldable pub reader : Reader
  reader = record {
    load_match_file = λ path. elim (load_match_file path) [
      | success (file, errors) ↦ some (file, is_some errors)
      | failure e ↦ none
    ];
  }
