-- ===== src/Backend/Creation.antt =====
-- `Backend::new` of crates/shinran_backend/src/lib.rs with `ProfileCache::new` of src/profile_cache.rs and
-- `active_profile` of src/config.rs, on a configuration that was loaded. The crates are parameters.
mod Tests
use shinran.Prelude.{
  ℕ, codes, ◌+◌, ◌≡◌, refl, ap, ◌∙◌, subst, arith, Text, text_key, nat_key, to_ascii_lowercase,
  Bool, true, false, Option, none, some, List, [], ◌∷◌, contains, length, All, Run, ok, err,
  out_of_fuel, ◌>>=◌, success, answer, if◌then◌else◌, ◌==◌,
}
use shinran.Prelude.Dict.{Map, lookup, insert, values}
use shinran.Types.{TriggerMatch, Variable, MatchesAndGlobalVars}
use shinran.Render.{Extensions, VarRegex}
use shinran.Render.Casing.{Unicode}
use shinran.Config.Profile.{AppProperties, ProfileFile}
use shinran.Config.Selection.{active_config}
use shinran.Config.Matches.{Panic, Reader, LoadedMatchFile, collect_matches_and_global_vars}
use shinran.Config.Matches.Visits.{IsClosed}
use shinran.Config.Loading.{Directory, LoadableConfig, load}
use shinran.Config.Loading.Collects.{load-collects}
use shinran.Backend.{BuiltInMatch, exit_all_processes, restart_worker}
use shinran.Backend.ProfileCache.{create_profile_cache, load as load_builtin}
use shinran.Backend.Regex.{RegexCrate, RegexMatcher, find_matches, new as new_matcher, build}
use shinran.Backend.Adapter.{Backend, check_trigger}
use shinran.Backend.Answers.{check_trigger_nothing}
use shinran.Backend.Startup.{Configuration}
use shinran.Backend.Paths.{get_builtin_matches, process_match}

abbrev pub no_properties : AppProperties
no_properties = record { title = none; class = none; exec = none }

-- `ProfileCache`
pub record ProfileCache : Type 0 where
  pub trigger_map : Map Text TriggerMatch
  pub regex_matcher : RegexMatcher
  pub global_var_map : Map Text Variable

-- What `Configuration::new` makes of the loaded stores.
abbrev pub of_loaded : LoadableConfig → Configuration
of_loaded config = record {
  profile_store = config.profile_store;
  match_store = config.match_store;
  loaded_from_cache = false;
}

-- `CombinedMatchCache::load` of the built-in matches, from the next id of the thread on
unfoldable pub builtin_cache : ℕ → Map ℕ BuiltInMatch
builtin_cache next_id = load_builtin (get_builtin_matches next_id).0 []

-- What the back end takes from its crates, and the renderer.
pub record Libraries : Type 0 where
  pub var_regex : VarRegex
  pub unicode : Unicode
  pub extensions : Extensions
  pub crate : RegexCrate
  pub graphemes : Text → ℕ

unfoldable pub active_profile : (Text → Text → Bool) → Configuration → ProfileFile
active_profile regex_matches configuration =
    active_config regex_matches configuration.profile_store no_properties

-- Why `Backend::new` panics.
pub data CreationPanic : Type 0 where
  bad_index : Panic → CreationPanic
  regex_set_not_built : CreationPanic

abbrev pub from_query : {A : Type 0} → Run Panic A → Run CreationPanic A
from_query (ok a) = ok a
from_query (err e) = err (bad_index e)
from_query out_of_fuel = out_of_fuel

module _ (libraries : Libraries) where
  abbrev pub with_matcher :
      MatchesAndGlobalVars → Option RegexMatcher → Run CreationPanic ProfileCache
  with_matcher collection none = err regex_set_not_built
  with_matcher collection (some matcher) = ok (record {
    trigger_map = (create_profile_cache collection).0;
    regex_matcher = matcher;
    global_var_map = (create_profile_cache collection).1;
  })

  unfoldable pub cache_of : MatchesAndGlobalVars → Run CreationPanic ProfileCache
  cache_of collection =
      with_matcher collection (build libraries.crate (create_profile_cache collection).2)

  abbrev pub backend_with : ℕ → ProfileCache → Backend
  backend_with next_id cache = record {
    var_regex = libraries.var_regex;
    unicode = libraries.unicode;
    extensions = libraries.extensions;
    crate = libraries.crate;
    graphemes = libraries.graphemes;
    trigger_map = cache.trigger_map;
    global_var_map = cache.global_var_map;
    regex_matcher = cache.regex_matcher;
    builtin_match_cache = builtin_cache next_id;
  }

  module _ (regex_matches : Text → Text → Bool) where
    unfoldable pub new_profile_cache : Configuration → Run CreationPanic ProfileCache
    new_profile_cache configuration =
        from_query (
          collect_matches_and_global_vars configuration.match_store
            (active_profile regex_matches configuration).match_file_paths)
        >>= cache_of

    unfoldable pub new_backend : ℕ → Configuration → Run CreationPanic Backend
    new_backend next_id configuration =
        new_profile_cache configuration >>= λ cache. ok (backend_with next_id cache)

if-All :
    {V : Type 0} (P : V → Type 0) (b : Bool) (m n : Map ℕ V)
    → All P (values m)
    → All P (values n)
    → All P (values (if b then m else n))
if-All P true m n hm hn = hm
if-All P false m n hm hn = hn

values-insert :
    {V : Type 0} (P : V → Type 0) (key : ℕ) (value : V) (m : Map ℕ V)
    → P value
    → All P (values m)
    → All P (values (insert key value m))
unfolding insert
values-insert P key value [] p h = (p, tt)
values-insert P key value (entry ∷ rest) p (q, h) =
    if-All P (entry.0 == key) ((key, value) ∷ rest) (entry ∷ insert key value rest) (p, h)
      (q, values-insert P key value rest p h)

made_from :
    {A B E : Type 0} (r : Run E A) (f : A → B) {b : B}
    → (r >>= λ a. ok (f a)) ≡ ok b
    → (a : A) × (f a ≡ b)
made_from (ok a) f h = (a, ground (arith, h))
made_from (err e) f h = absurd (ground (arith, h))
made_from out_of_fuel f h = absurd (ground (arith, h))

abbrev HasNoTriggers : BuiltInMatch → Type 0
HasNoTriggers m = m.triggers ≡ []

-- The built-in matches have no triggers.
builtin_cache-no_triggers : (next_id : ℕ) → All HasNoTriggers (values (builtin_cache next_id))
unfolding builtin_cache load_builtin get_builtin_matches
builtin_cache-no_triggers next_id =
    let first = process_match (codes "Exit shinran") exit_all_processes next_id in
    let second = process_match (codes "Restart shinran") restart_worker (next_id + 1) in
    values-insert HasNoTriggers (next_id + 1) second (insert next_id first []) refl
      (values-insert HasNoTriggers next_id first [] refl tt)

-- A back end that was made answers nothing to a text that is no trigger, neither as typed nor in lower case,
-- and that no regular expression of the profile matches: its built-in matches are never found.
pub new_backend-answers_nothing :
    (libraries : Libraries) (regex_matches : Text → Text → Bool) (next_id fuel : ℕ)
    (configuration : Configuration) (backend : Backend) (text : Text)
    → new_backend libraries regex_matches next_id configuration ≡ ok backend
    → lookup text backend.trigger_map ≡ none
    → lookup (to_ascii_lowercase text) backend.trigger_map ≡ none
    → find_matches backend.crate backend.regex_matcher text ≡ []
    → check_trigger backend fuel text ≡ answer none
unfolding new_backend
new_backend-answers_nothing libraries regex_matches next_id fuel configuration backend text made
      typed lower regex =
    let (cache, e) =
      made_from (new_profile_cache libraries regex_matches configuration)
        (backend_with libraries next_id) made in
    check_trigger_nothing backend fuel text typed lower
      (subst (λ (b : Backend). All HasNoTriggers (values b.builtin_match_cache)) e
        (builtin_cache-no_triggers next_id))
      regex

-- The back end with the caches of the matches and the global variables of a profile.
abbrev pub backend_of : Libraries → ℕ → MatchesAndGlobalVars → Backend
backend_of libraries next_id matches = backend_with libraries next_id (record {
  trigger_map = (create_profile_cache matches).0;
  regex_matcher = new_matcher libraries.crate matches.regex_matches;
  global_var_map = (create_profile_cache matches).1;
})

-- Whether the set of the regular expressions of a profile, those that compile, can be built.
abbrev pub set_builds : Libraries → MatchesAndGlobalVars → Bool
set_builds libraries matches =
    libraries.crate.set_builds (new_matcher libraries.crate matches.regex_matches).regexes

cache_of-built :
    (libraries : Libraries) (next_id : ℕ) (matches : MatchesAndGlobalVars)
    → (cache_of libraries matches >>= λ cache. ok (backend_with libraries next_id cache)) ≡ (
        if set_builds libraries matches
        then ok (backend_of libraries next_id matches)
        else err regex_set_not_built)
unfolding cache_of build create_profile_cache
cache_of-built libraries next_id matches = ground arith

-- From the files to the back end: when the configuration is loaded, where the match files that can be read
-- are finitely many, every reference of its match files is to a file, the matches and variables of
-- the active profile can be collected, and the back end is made from them: its maps are those of
-- `create_profile_cache` and its regular expressions those that compile. It panics only where the
-- set of these cannot be built.
pub load-new_backend :
    (directory : Directory) (reader : Reader) (names : List Text) (base_path : Text)
    (libraries : Libraries) (regex_matches : Text → Text → Bool) (next_id : ℕ)
    (outcome : Run Panic LoadableConfig)
    → ((x : Text) (file : LoadedMatchFile) (non_fatal : Bool)
        → reader.load_match_file x ≡ some (file, non_fatal)
        → contains names x ≡ true)
    → load directory reader (length names + 1) base_path ≡ success outcome
    → (config : LoadableConfig) × (outcome ≡ ok config)
      × IsClosed config.match_store
      × (matches : MatchesAndGlobalVars) × (collect_matches_and_global_vars config.match_store
            (active_profile regex_matches (of_loaded config)).match_file_paths
          ≡ ok matches)
      × (new_backend libraries regex_matches next_id (of_loaded config) ≡ (
          if set_builds libraries matches
          then ok (backend_of libraries next_id matches)
          else err regex_set_not_built))
unfolding new_backend new_profile_cache active_profile
load-new_backend directory reader names base_path libraries regex_matches next_id outcome listed e =
    let (config, loaded, closed, (matches, collected)) =
      load-collects directory reader names base_path regex_matches no_properties outcome listed e in
    (
      config,
      loaded,
      closed,
      matches,
      collected,
      ap
            (λ r. (from_query r >>= cache_of libraries) >>= λ cache.
              ok (backend_with libraries next_id cache))
            collected
          ∙ cache_of-built libraries next_id matches,
    )
