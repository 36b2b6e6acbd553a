-- ===== src/Backend/Startup/Tests.antt =====
-- A cache that is taken (crates/shinran_backend/src/config.rs), on a small disk.
use shinran.Prelude.{
  refl, text_eq, text_key, codes, true, false, none, some, [], ◌∷◌, contains, err,
}
use shinran.Config.Parsed.{default_config}
use shinran.Config.Profile.{ProfileFile, parent_resolve_failed, generate_match_paths}
use shinran.Config.Matches.{ResolvedMatchFile}
use shinran.Config.Yaml.File.{is_supported}
use shinran.Backend.Startup.{
  Configuration, Disk, load_cache, load_and_mod_time, most_recent_modification, fold_times,
  all_config_files, config_file, check_profiles, source_paths,
}
use shinran.Backend.Startup.Fresh.{IsFresh, load_cache-IsFresh}

abbrev default_profile : ProfileFile
default_profile = record {
  content = default_config;
  source_path = codes "default.yml";
  match_file_paths = 0 ∷ [];
  filters = record { title = none; class = none; exec = none };
}

abbrev base_file : ResolvedMatchFile
base_file = record {
  imports = [];
  content = record { global_vars = []; trigger_matches = []; regex_matches = [] };
  source_path = codes "base.yml";
}

abbrev pub cached : Configuration
cached = record {
  profile_store = record { default_profile = default_profile; custom_profiles = [] };
  match_store = base_file ∷ [];
  loaded_from_cache = false;
}

-- Every file was written at the time 7, and so was the cache.
abbrev disk : Disk
disk = record {
  loader = record {
    load = λ path. err parent_resolve_failed;
    parent = λ path. some [];
    calculate_paths = λ dir globs. codes "base.yml" ∷ [];
    compiles = λ pattern. true;
  };
  read = λ path. some (codes "archive");
  modified = λ path. some 7;
  is_file = λ path. true;
  extension = λ path. some (codes "yml");
  read_dir = λ path. some (some (codes "default.yml") ∷ none ∷ []);
  check_archived_root = λ content. some cached;
}

load_cache-IsFresh_example : IsFresh disk (codes "cache.bin") (codes "config") cached
unfolding load_cache load_and_mod_time most_recent_modification source_paths fold_times
    all_config_files config_file is_supported text_eq contains check_profiles generate_match_paths
load_cache-IsFresh_example =
    load_cache-IsFresh disk (codes "cache.bin") (codes "config") cached refl
