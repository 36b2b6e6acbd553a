-- ===== src/Config/Loading.antt =====
-- From files to the stores: `LoadedProfileStore::load` of crates/shinran_config/src/config/store.rs,
-- `YAMLConfig` of config/parse/yaml.rs, `calculate_paths` of config/path.rs and `load` of lib.rs. The
-- file system, globs and the YAML parser are parameters.
pub mod Collects
pub mod Tests
use shinran.Prelude.{
  ℕ, Text, text_key, text_eq, codes, Bool, true, false, not, ◌&&◌, ◌||◌, Option, none, some, List,
  [], ◌∷◌, ◌++◌, or_else, insert, if◌then◌else◌, Result, success, failure, ◌and_then◌, Run, ok, err,
  out_of_fuel, ◌>>=◌,
}
use shinran.Prelude.Dict
use shinran.Prelude.Dict.{Map}
use shinran.Config.Parsed.{ParsedConfig}
use shinran.Config.Profile.{LoadedProfileFile, Loader, LoadError, load_from_path}
use shinran.Config.Selection.{
  ProfileStore, LoadedProfileStore, get_all_match_file_paths, resolve_paths,
}
use shinran.Config.Matches.{FileStore, ResolvedMatchFile, Panic, Reader}
use shinran.Config.Matches
use shinran.Config.Yaml.{string, Mapping, end, entry}
use shinran.Config.Yaml.File.{is_supported}

-- `YAMLConfig`: what a `ParsedConfig` has, where `keyboard_layout` is any map, with the older name
-- of `key_delay`.
pub record YamlConfig : Type 0 where
  pub settings : ParsedConfig
  pub backspace_delay : Option ℕ
  pub keyboard_layout : Option Mapping

-- The entries of a map between texts
unfoldable pub text_entries : Mapping → Map Text Text → Map Text Text
text_entries end layout = layout
text_entries (entry (string key) (string value) entries) layout =
    text_entries entries (Dict.insert key value layout)
text_entries (entry key value entries) layout = text_entries entries layout

abbrev pub layout_of : Option Mapping → Option (Map Text Text)
layout_of none = none
layout_of (some mapping) = some (text_entries mapping [])

-- `ParsedConfig::try_from`, which never fails
unfoldable pub from_yaml_config : YamlConfig → ParsedConfig
from_yaml_config yaml_config = record yaml_config.settings {
  key_delay = or_else yaml_config.settings.key_delay yaml_config.backspace_delay;
  keyboard_layout = layout_of yaml_config.keyboard_layout;
}

-- What `calculate_paths` uses: `ABSOLUTE_PATH.is_match`, the paths of a glob (`none` is an error of
-- the pattern or of a path) and `dunce::canonicalize`.
pub record Globs : Type 0 where
  pub is_absolute : Text → Bool
  pub glob : Text → Option (List (Option Text))
  pub canonicalize : Text → Option Text

module _ (globs : Globs) where
  abbrev pub pattern_of : Text → Text → Text
  pattern_of base_dir glob_pattern =
      if globs.is_absolute glob_pattern
      then glob_pattern
      else base_dir ++ (codes "/" ++ glob_pattern)

  -- An error is logged, and the path is left out.
  abbrev pub insert_path : Option Text → List Text → List Text
  insert_path none path_set = path_set
  insert_path (some path) path_set = elim (globs.canonicalize path) [
    | some canonical_path ↦ insert canonical_path path_set
    | none ↦ path_set
  ]

  unfoldable pub insert_paths : List (Option Text) → List Text → List Text
  insert_paths [] path_set = path_set
  insert_paths (path ∷ paths) path_set = insert_paths paths (insert_path path path_set)

  unfoldable pub insert_globs : Text → List Text → List Text → List Text
  insert_globs base_dir [] path_set = path_set
  insert_globs base_dir (glob_pattern ∷ patterns) path_set =
      elim (globs.glob (pattern_of base_dir glob_pattern)) [
        | some paths ↦ insert_globs base_dir patterns (insert_paths paths path_set)
        | none ↦ insert_globs base_dir patterns path_set
      ]

  unfoldable pub calculate_paths : Text → List Text → List Text
  calculate_paths base_dir glob_patterns = insert_globs base_dir glob_patterns []

-- Why the configuration is not loaded.
pub data StoreError : Type 0 where
  missing_config_dir invalid_config_dir missing_default io_error : StoreError
  failed_default : LoadError → StoreError

-- The directory of the configuration: an entry is `none` where reading it fails.
pub record Directory : Type 0 where
  pub loader : Loader
  pub exists : Text → Bool
  pub is_dir : Text → Bool
  pub is_file : Text → Bool
  pub join : Text → Text → Text
  pub extension : Text → Option Text
  pub read_dir : Text → Option (List (Option Text))

-- What the loop over the directory gathers: the profiles, and the files that failed.
-- `out_of_fuel` is no result of a loader of files.
pub record Gathered : Type 0 where
  pub custom_profiles : List LoadedProfileFile
  pub non_fatal_errors : List (Text × LoadError)

abbrev pub gather : Text → Run LoadError LoadedProfileFile → Gathered → Gathered
gather path (ok profile) s = record s { custom_profiles = s.custom_profiles ++ profile ∷ [] }
gather path (err e) s = record s { non_fatal_errors = s.non_fatal_errors ++ (path, e) ∷ [] }
gather path out_of_fuel s = s

module _ (directory : Directory) where
  -- Is a file of the directory a custom profile?
  unfoldable pub is_profile : Text → Text → Bool
  is_profile default_file config_file = elim (directory.extension config_file) [
    | none ↦ false
    | some extension ↦
        directory.is_file config_file
        && (not (text_eq config_file default_file) && is_supported extension)
  ]

  unfoldable pub load_profiles :
      Text → LoadedProfileFile → List (Option Text) → Gathered → Result StoreError Gathered
  load_profiles default_file default_profile [] s = success s
  load_profiles default_file default_profile (none ∷ entries) s = failure io_error
  load_profiles default_file default_profile (some config_file ∷ entries) s =
      elim (is_profile default_file config_file) [
        | true ↦ load_profiles default_file default_profile entries (
            gather config_file (load_from_path directory.loader config_file (some default_profile))
              s)
        | false ↦ load_profiles default_file default_profile entries s
      ]

  abbrev pub default_of : Run LoadError LoadedProfileFile → Result StoreError LoadedProfileFile
  default_of (ok profile) = success profile
  default_of (err e) = failure (failed_default e)
  default_of out_of_fuel = failure missing_default

  abbrev pub entries_of : Option (List (Option Text)) → Result StoreError (List (Option Text))
  entries_of none = failure io_error
  entries_of (some entries) = success entries

  -- `LoadedProfileStore::load`
  unfoldable pub load_store :
      Text → Result StoreError (LoadedProfileStore × List (Text × LoadError))
  load_store config_dir =
      if not (directory.is_dir config_dir)
      then failure invalid_config_dir
      else (let default_file = directory.join config_dir (codes "default.yml") in
          if not (directory.exists default_file) || not (directory.is_file default_file)
          then failure missing_default
          else default_of (load_from_path directory.loader default_file none)
            and_then λ default_profile.
                entries_of (directory.read_dir config_dir) and_then λ entries.
                load_profiles default_file default_profile entries
                  (record { custom_profiles = []; non_fatal_errors = [] })
                and_then λ s. success (
                  record { default_profile = default_profile; custom_profiles = s.custom_profiles },
                  s.non_fatal_errors,
                ))

-- What the crate gives: the two stores, with the files that failed.
pub record LoadableConfig : Type 0 where
  pub profile_store : ProfileStore
  pub match_store : FileStore ResolvedMatchFile
  pub config_errors : List (Text × LoadError)
  pub match_errors : List Text

-- The match files of the profiles, and the profiles with references to them
unfoldable pub load_matches :
    Reader → ℕ → LoadedProfileStore × List (Text × LoadError) → Run Panic LoadableConfig
load_matches reader fuel (profiles, errors) =
    Matches.load reader fuel (get_all_match_file_paths profiles) >>= λ loaded. ok (record {
      profile_store = resolve_paths profiles loaded.1;
      match_store = loaded.0;
      config_errors = errors;
      match_errors = loaded.2;
    })

-- `load` of lib.rs. Loading match files has fuel for how deep imports are nested.
unfoldable pub load : Directory → Reader → ℕ → Text → Result StoreError (Run Panic LoadableConfig)
load directory reader fuel base_path =
    let config_dir = directory.join base_path (codes "config") in
    if not (directory.exists config_dir) || not (directory.is_dir config_dir)
    then failure missing_config_dir
    else load_store directory config_dir and_then λ profiles.
        success (load_matches reader fuel profiles)
