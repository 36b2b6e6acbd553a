-- ===== src/Backend/Startup.antt =====
-- crates/shinran_backend/src/config.rs, load.rs and the modification times of path.rs, with
-- `all_config_files` of crates/shinran_config/src/lib.rs: whether the cache file of the configuration is
-- taken. The file system and the archive of `rkyv` are parameters; a time is a number.
pub mod Fresh
pub mod Tests
use shinran.Prelude.{
  ℕ, Text, text_key, Bool, true, false, not, ◌&&◌, Option, none, some, List, [], ◌∷◌, ◌++◌, map,
  contains, filter_map, ltb, if◌then◌else◌, Result, success, failure, ◌and_then◌,
}
use shinran.Config.Profile.{ProfileFile, Loader, generate_match_paths}
use shinran.Config.Selection.{ProfileStore}
use shinran.Config.Matches.{FileStore, ResolvedMatchFile}
use shinran.Config.Yaml.File.{is_supported}

-- `Configuration`, without the renderer, which holds only paths.
pub record Configuration : Type 0 where
  pub profile_store : ProfileStore
  pub match_store : FileStore ResolvedMatchFile
  pub loaded_from_cache : Bool

-- `modified` is `none` if the metadata or the time cannot be read, and an entry of a directory is
-- `none` if it cannot be read. `check_archived_root` reads the archive from the bytes of a file.
pub record Disk : Type 0 where
  pub loader : Loader
  pub read : Text → Option Text
  pub modified : Text → Option ℕ
  pub is_file : Text → Bool
  pub extension : Text → Option Text
  pub read_dir : Text → Option (List (Option Text))
  pub check_archived_root : Text → Option Configuration

-- Why a cache is not taken. The first five are errors of the file system.
pub data CacheError : Type 0 where
  unreadable no_time not_a_file : (path : Text) → CacheError
  no_paths : CacheError
  unreadable_dir : (path : Text) → CacheError
  byte_check_failed outdated new_config_file no_match_paths new_match_file : CacheError

abbrev pub or_error : {A : Type 0} → CacheError → Option A → Result CacheError A
or_error e none = failure e
or_error e (some a) = success a

abbrev pub max_time : ℕ → ℕ → ℕ
max_time a b = if ltb a b then b else a

-- The sources of the configuration: `get_source_paths` of the two stores.
abbrev pub parsed_configs : ProfileStore → List ProfileFile
parsed_configs store = store.default_profile ∷ store.custom_profiles

unfoldable pub source_paths : Configuration → List Text
source_paths c =
    map (λ (p : ProfileFile). p.source_path) (parsed_configs c.profile_store)
    ++ map (λ (f : ResolvedMatchFile). f.source_path) c.match_store

-- `A` is a subset of `B`.
abbrev pub is_subset : List Text → List Text → Bool
is_subset [] known = true
is_subset (path ∷ paths) known = contains known path && is_subset paths known

module _ (disk : Disk) where
  abbrev pub check_file : Text → Result CacheError ℕ
  check_file path = elim (disk.is_file path) [
    | true ↦ or_error (CacheError.no_time path) (disk.modified path)
    | false ↦ failure (CacheError.not_a_file path)
  ]

  -- The fold of `most_recent_modification`, after the first path
  unfoldable pub fold_times : ℕ → List Text → Result CacheError ℕ
  fold_times time [] = success time
  fold_times time (path ∷ paths) = check_file path and_then λ t. fold_times (max_time time t) paths

  unfoldable pub most_recent_modification : List Text → Result CacheError ℕ
  most_recent_modification [] = failure CacheError.no_paths
  most_recent_modification (path ∷ paths) = check_file path and_then λ t. fold_times t paths

  unfoldable pub load_and_mod_time : Text → Result CacheError (Text × ℕ)
  load_and_mod_time path =
      or_error (CacheError.unreadable path) (disk.read path) and_then λ content.
      or_error (CacheError.no_time path) (disk.modified path) and_then λ time.
      success (content, time)

  -- A file of the directory that has the extension of a YAML file
  unfoldable pub config_file : Option Text → Option Text
  config_file none = none
  config_file (some path) = elim (disk.extension path) [
    | none ↦ none
    | some extension ↦ if disk.is_file path && is_supported extension then some path else none
  ]

  unfoldable pub all_config_files : Text → Result CacheError (List Text)
  all_config_files config_dir = elim (disk.read_dir config_dir) [
    | none ↦ failure (CacheError.unreadable_dir config_dir)
    | some entries ↦ success (filter_map config_file entries)
  ]

  -- A test of `load_cache`
  abbrev pub ensure : Bool → CacheError → Result CacheError Unit
  ensure true e = success tt
  ensure false e = failure e

  -- The loop over the profiles: are there match files that the cache does not know?
  unfoldable pub check_profiles : List ProfileFile → List Text → Result CacheError Unit
  check_profiles [] known = success tt
  check_profiles (profile ∷ profiles) known =
      or_error CacheError.no_match_paths
        (generate_match_paths disk.loader profile.content profile.source_path)
      and_then λ match_paths.
          ensure (is_subset match_paths known) CacheError.new_match_file and_then λ u.
          check_profiles profiles known

  unfoldable pub load_cache : (cache_path config_dir : Text) → Result CacheError Configuration
  load_cache cache_path config_dir = load_and_mod_time cache_path and_then λ cache.
      or_error CacheError.byte_check_failed (disk.check_archived_root cache.0) and_then λ archived.
      most_recent_modification (source_paths archived) and_then λ config_mod_time.
      ensure (not (ltb cache.1 config_mod_time)) CacheError.outdated and_then λ u.
      all_config_files config_dir and_then λ found.
      ensure (is_subset found (source_paths archived)) CacheError.new_config_file and_then λ v.
      check_profiles (parsed_configs archived.profile_store) (source_paths archived) and_then λ w.
      success archived

  -- `Configuration::new` after its paths are known: from the cache, else from the files, where
  -- `load_config` is `none` for the panic of `expect`.
  unfoldable pub from_cache_or :
      Result CacheError Configuration → Option Configuration → Option Configuration
  from_cache_or (success config) load_config = some (record config { loaded_from_cache = true })
  from_cache_or (failure e) load_config = load_config

  unfoldable pub new_configuration :
      (cache_path config_dir : Text) → Option Configuration → Option Configuration
  new_configuration cache_path config_dir load_config =
      from_cache_or (load_cache cache_path config_dir) load_config
