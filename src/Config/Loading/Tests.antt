-- ===== src/Config/Loading/Tests.antt =====
-- Loading a configuration (crates/shinran_config/src/lib.rs) with a default and a custom profile.
use shinran.Prelude.{
  ◌+◌, ◌≡◌, refl, Text, text_eq, text_key, codes, true, none, some, [], ◌∷◌, contains, length,
  extend, success, leb, if◌then◌else◌, Run, ok, err,
}
use shinran.Config.Parsed.{default_config, inherit}
use shinran.Config.Profile.{
  Loader, LoadError, LoadedProfileFile, load_from_path, compile, generate_match_paths,
  aggregate_includes, aggregate_excludes,
}
use shinran.Config.Matches.{Panic}
use shinran.Config.Matches.Tests.{sample_reader, sample_names}
use shinran.Config.Yaml.File.{is_supported}
use shinran.Config.Loading.{
  Directory, LoadableConfig, load_store, load_profiles, is_profile, load_matches, load,
}

abbrev loader : Loader
loader = record {
  load = λ path.
      if text_eq path (codes "broken.yml")
      then err (LoadError.load_failed path)
      else ok default_config;
  parent = λ path. some [];
  calculate_paths =
      λ dir globs. if leb (length globs) 0 then [] else codes "a.yml" ∷ codes "missing.yml" ∷ [];
  compiles = λ pattern. true;
}

-- Besides the two profiles there is one that cannot be loaded.
abbrev pub directory : Directory
directory = record {
  loader = loader;
  exists = λ path. true;
  is_dir = λ path. true;
  is_file = λ path. true;
  join = λ path name. name;
  extension = λ path. some (codes "yml");
  read_dir = λ path.
      some
        (some (codes "default.yml") ∷ some (codes "broken.yml") ∷ some (codes "custom.yml") ∷ []);
}

abbrev profile_at : Text → LoadedProfileFile
profile_at path = record {
  content = default_config;
  source_path = path;
  match_file_paths = codes "a.yml" ∷ codes "missing.yml" ∷ [];
  filters = record { title = none; class = none; exec = none };
}

abbrev pub outcome : Run Panic LoadableConfig
outcome = load_matches sample_reader (length sample_names + 1) (
  record {
    default_profile = profile_at (codes "default.yml");
    custom_profiles = profile_at (codes "custom.yml") ∷ [];
  },
  (codes "broken.yml", LoadError.load_failed (codes "broken.yml")) ∷ [],
)

pub directory-loads :
    load directory sample_reader (length sample_names + 1) (codes "base") ≡ success outcome
unfolding load load_store load_from_path load_profiles is_profile is_supported text_eq contains
    generate_match_paths aggregate_includes aggregate_excludes compile extend inherit
directory-loads = refl
