-- ===== src/Config/Profile.antt =====
-- crates/shinran_config/src/config/resolve.rs: a profile, its filters, its settings and its match files.
-- A path is its text. The regex crate, the file system and YAML are parameters.
use shinran.Prelude.{
  ℕ, Text, text_key, codes, Bool, true, false, not, ◌&&◌, Option, none, some, List, [], ◌∷◌, filter,
  filter_map, contains, extend, unwrap_or, Run, ok, err, ◌>>=◌, if◌then◌else◌,
}
use shinran.Prelude.Dict.{Map, lookup}
use shinran.Config.Parsed.{ParsedConfig, inherit}

-- `AppProperties` of config/mod.rs
pub record AppProperties : Type 0 where
  pub title : Option Text
  pub class : Option Text
  pub exec : Option Text

-- A regex is its pattern.
pub record Filters : Type 0 where
  pub title : Option Text
  pub class : Option Text
  pub exec : Option Text

-- `Option::is_none`
abbrev pub is_unset : {A : Type 0} → Option A → Bool
is_unset none = true
is_unset (some x) = false

-- `regex_matches pattern text` is `is_match` of the compiled pattern.
module _ (regex_matches : Text → Text → Bool) where
  -- One of the three filters, on the property it looks at.
  abbrev pub filter_matches : Option Text → Option Text → Bool
  filter_matches none property = true
  filter_matches (some regex) none = false
  filter_matches (some regex) (some text) = regex_matches regex text

  unfoldable pub is_match : Filters → AppProperties → Bool
  is_match filters app =
      if is_unset filters.title && (is_unset filters.exec && is_unset filters.class)
      then false
      else filter_matches filters.exec app.exec
        && (filter_matches filters.title app.title && filter_matches filters.class app.class)

pub record LoadedProfileFile : Type 0 where
  pub content : ParsedConfig
  pub source_path : Text
  pub match_file_paths : List Text
  pub filters : Filters

-- A reference to a match file is its index.
pub record ProfileFile : Type 0 where
  pub content : ParsedConfig
  pub source_path : Text
  pub match_file_paths : List ℕ
  pub filters : Filters

-- A path without a match file was reported before.
unfoldable pub from_loaded_profile : LoadedProfileFile → Map Text ℕ → ProfileFile
from_loaded_profile loaded file_map = record {
  content = loaded.content;
  source_path = loaded.source_path;
  match_file_paths = filter_map (λ path. lookup path file_map) loaded.match_file_paths;
  filters = loaded.filters;
}

abbrev pub standard_includes : List Text
standard_includes = codes "../match/**/[!_]*.yml" ∷ []

abbrev pub insert_all : Option (List Text) → List Text → List Text
insert_all none paths = paths
insert_all (some globs) paths = extend globs paths

unfoldable pub aggregate_includes : ParsedConfig → List Text
aggregate_includes config = insert_all config.extra_includes (
    insert_all config.includes
      (if unwrap_or config.use_standard_includes true then extend standard_includes [] else []))

unfoldable pub aggregate_excludes : ParsedConfig → List Text
aggregate_excludes config = insert_all config.extra_excludes (insert_all config.excludes [])

pub data LoadError : Type 0 where
  load_failed : Text → LoadError
  parent_resolve_failed : LoadError
  bad_regex : Text → LoadError

-- What loading a profile uses: `ParsedConfig::load`, `Path::parent`, `calculate_paths` of a directory and
-- globs, and whether a pattern is a regex.
pub record Loader : Type 0 where
  pub load : Text → Run LoadError ParsedConfig
  pub parent : Text → Option Text
  pub calculate_paths : Text → List Text → List Text
  pub compiles : Text → Bool

abbrev pub inherit_from : Option LoadedProfileFile → ParsedConfig → ParsedConfig
inherit_from none config = config
inherit_from (some parent) config = inherit config parent.content

module _ (loader : Loader) where
  unfoldable pub generate_match_paths : ParsedConfig → Text → Option (List Text)
  generate_match_paths config source_path = elim (loader.parent source_path) [
    | none ↦ none
    | some base_dir ↦
        let exclude_paths = loader.calculate_paths base_dir (aggregate_excludes config) in
        let include_paths = loader.calculate_paths base_dir (aggregate_includes config) in
        some (filter (λ path. not (contains exclude_paths path)) include_paths)
  ]

  abbrev pub paths_or_error : Option (List Text) → Run LoadError (List Text)
  paths_or_error none = err parent_resolve_failed
  paths_or_error (some paths) = ok paths

  -- `Regex::new(pattern)?` of a filter that is set
  unfoldable pub compile : Option Text → Run LoadError (Option Text)
  compile none = ok none
  compile (some pattern) =
      if loader.compiles pattern then ok (some pattern) else err (bad_regex pattern)

  unfoldable pub load_from_path : Text → Option LoadedProfileFile → Run LoadError LoadedProfileFile
  load_from_path source_path parent = loader.load source_path >>= λ parsed.
      let config = inherit_from parent parsed in
      paths_or_error (generate_match_paths config source_path) >>= λ paths.
      compile config.filter_title >>= λ title. compile config.filter_class >>= λ class.
      compile config.filter_exec >>= λ exec. ok (record {
        content = config;
        source_path = source_path;
        match_file_paths = paths;
        filters = record { title = title; class = class; exec = exec };
      })
