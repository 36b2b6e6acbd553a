-- ===== src/Backend/Creation/Tests.antt =====
-- A back end that is made (crates/shinran_backend/src/lib.rs), on small configurations.
use shinran.Prelude.{
  ◌≡◌, refl, Text, text_eq, text_key, codes, Bool, true, none, [], ◌∷◌, contains, ok, err,
  if◌then◌else◌, answer,
}
use shinran.Prelude.Dict.{lookup, insert}
use shinran.Types.{MatchesAndGlobalVars}
use shinran.Render.Sample.{sample_regex}
use shinran.Render.Tests.{sample_unicode, sample_extensions}
use shinran.Config.Matches.{
  ResolvedMatchFile, collect_matches_and_global_vars, query_matches_for_paths, query_each,
}
use shinran.Config.Matches.Tests.{sample_reader, sample_names, sample_listed}
use shinran.Config.Loading.{LoadableConfig}
use shinran.Config.Loading.Tests.{directory, outcome, directory-loads}
use shinran.Config.Selection.{active_config, first_match}
use shinran.Backend.Tests.{match_of, sample_crate}
use shinran.Backend.ProfileCache.{create_profile_cache, insert_matches, insert_triggers}
use shinran.Backend.Regex.{find_matches, new, build, compile_all}
use shinran.Backend.Adapter.{Backend, check_trigger}
use shinran.Backend.Startup.{Configuration}
use shinran.Backend.Startup.Tests.{cached}
use shinran.Config.Matches.Visits.{IsClosed}
use shinran.Backend.Creation.{
  regex_set_not_built, backend_of, set_builds, cache_of, Libraries, of_loaded, active_profile,
  new_backend, new_profile_cache, cache_of, new_backend-answers_nothing, load-new_backend,
}

abbrev libraries : Libraries
libraries = record {
  var_regex = sample_regex;
  unicode = sample_unicode;
  extensions = sample_extensions;
  crate = sample_crate;
  graphemes = λ s. 0;
}

abbrev any_regex : Text → Text → Bool
any_regex pattern text = true

-- One file, with the trigger `hi`
abbrev hi_file : ResolvedMatchFile
hi_file = record {
  imports = [];
  content = record {
    global_vars = [];
    trigger_matches = match_of (codes "hi") (codes "hello") ∷ [];
    regex_matches = [];
  };
  source_path = codes "base.yml";
}

abbrev configuration : Configuration
configuration = record cached { match_store = hi_file ∷ [] }

abbrev hi_matches : MatchesAndGlobalVars
hi_matches = record {
  trigger_matches = match_of (codes "hi") (codes "hello") ∷ [];
  regex_matches = [];
  global_vars = [];
}

abbrev made : Backend
made = backend_of libraries 7 hi_matches

new_backend-answers_nothing_example : check_trigger made 3 (codes "ho") ≡ answer none
unfolding new_backend new_profile_cache collect_matches_and_global_vars query_matches_for_paths
    query_each active_profile active_config first_match contains lookup create_profile_cache
    insert_matches insert_triggers insert text_eq find_matches new compile_all cache_of build
new_backend-answers_nothing_example =
    new_backend-answers_nothing libraries any_regex 7 3 configuration made (codes "ho") refl refl
      refl refl

load-new_backend_example :
    (config : LoadableConfig) × (outcome ≡ ok config)
    × IsClosed config.match_store
    × (matches : MatchesAndGlobalVars) × (collect_matches_and_global_vars config.match_store
          (active_profile any_regex (of_loaded config)).match_file_paths
        ≡ ok matches)
    × (new_backend libraries any_regex 7 (of_loaded config) ≡ (
        if set_builds libraries matches
        then ok (backend_of libraries 7 matches)
        else err regex_set_not_built))
load-new_backend_example =
    load-new_backend directory sample_reader sample_names (codes "base") libraries any_regex 7
      outcome sample_listed directory-loads
