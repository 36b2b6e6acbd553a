-- ===== src/Config/Loading/Collects.antt =====
-- The configuration that `load` of crates/shinran_config/src/lib.rs gives, under the query for the matches
-- of the active profile.
use shinran.Prelude.{
  ℕ, ◌+◌, ◌≡◌, refl, sym, ap, ◌∙◌, subst, arith, Text, text_key, Bool, true, false, some, List, [],
  ◌∷◌, map, contains, length, length-map, codes, if◌then◌else◌, Result, success, failure, Run, ok,
  ◌>>=◌,
}
use shinran.Prelude.Dict.{Map}
use shinran.Types.{MatchesAndGlobalVars}
use shinran.Config.Profile.{
  AppProperties, LoadedProfileFile, ProfileFile, LoadError, is_match, from_loaded_profile,
}
use shinran.Config.Selection.{
  LoadedProfileStore, active_config, first_match, resolve_paths, get_all_match_file_paths,
}
use shinran.Config.Matches.{
  FileStore, ResolvedMatchFile, Panic, Reader, Loaded, LoadedMatchFile, resolve, resolve_file,
  collect_matches_and_global_vars,
}
use shinran.Config.Matches
use shinran.Config.Matches.Visits.{IsClosed, InStore}
use shinran.Config.Matches.Query.{collect_matches_and_global_vars-Reached}
use shinran.Config.Matches.Resolved.{IsWell, filter_map-lookup}
use shinran.Config.Matches.Load.{load-IsClosed}
use shinran.Config.Yaml.Accounting.{and_then-success, success-injective}
use shinran.Config.Loading.{
  Directory, missing_config_dir, LoadableConfig, load_store, load_matches, load,
}

-- The active profile is one of those that were loaded.
module _ (regex_matches : Text → Text → Bool) (app : AppProperties) (file_map : Map Text ℕ) where
  IsOfLoaded : ProfileFile → Type 0
  IsOfLoaded active =
      (profile : LoadedProfileFile) × (active ≡ from_loaded_profile profile file_map)

  if-IsOfLoaded :
      (b : Bool) (p q : ProfileFile) → IsOfLoaded p → IsOfLoaded q → IsOfLoaded (if b then p else q)
  if-IsOfLoaded true p q hp hq = hp
  if-IsOfLoaded false p q hp hq = hq

  first_match-IsOfLoaded :
      (profiles : List LoadedProfileFile) (default : LoadedProfileFile)
      → IsOfLoaded (
          first_match regex_matches app
            (map (λ profile. from_loaded_profile profile file_map) profiles)
            (from_loaded_profile default file_map))
  unfolding first_match IsOfLoaded
  first_match-IsOfLoaded [] default = (default, refl)
  first_match-IsOfLoaded (custom ∷ profiles) default =
      if-IsOfLoaded (is_match regex_matches (from_loaded_profile custom file_map).filters app) _ _
        (custom, refl) (first_match-IsOfLoaded profiles default)

  active_config-IsOfLoaded :
      (store : LoadedProfileStore)
      → IsOfLoaded (active_config regex_matches (resolve_paths store file_map) app)
  unfolding active_config resolve_paths
  active_config-IsOfLoaded store =
      first_match-IsOfLoaded store.custom_profiles store.default_profile

unless-success :
    {E A : Type 0} (b : Bool) (e : E) (r : Result E A) (x : A)
    → (if b then failure e else r) ≡ success x
    → r ≡ success x
unless-success true e r x h = ground (arith, h)
unless-success false e r x h = h

-- The references of the active profile are to files of the store.
active_config-InStore :
    (regex_matches : Text → Text → Bool) (app : AppProperties) (store : LoadedProfileStore)
    (s : Loaded)
    → IsWell s
    → InStore
        (resolve s.file_map s.files)
        (active_config regex_matches (resolve_paths store s.file_map) app).match_file_paths
unfolding IsOfLoaded resolve from_loaded_profile
active_config-InStore regex_matches app store s well =
    let (profile, e) = active_config-IsOfLoaded regex_matches app s.file_map store in
    subst (λ (p : ProfileFile). InStore (resolve s.file_map s.files) p.match_file_paths) (sym e)
      (filter_map-lookup s.file_map (length (resolve s.file_map s.files))
        (λ x idx h.
          omega (arith, length-map (resolve_file s.file_map) s.files, well.in_store x idx h))
        profile.match_file_paths)

abbrev configured : LoadedProfileStore × List (Text × LoadError) → Loaded → LoadableConfig
configured profiles s = record {
  profile_store = resolve_paths profiles.0 s.file_map;
  match_store = resolve s.file_map s.files;
  config_errors = profiles.1;
  match_errors = s.errors;
}

load_matches-configured :
    (reader : Reader) (fuel : ℕ) (profiles : LoadedProfileStore × List (Text × LoadError))
    (s : Loaded)
    → shinran.Config.Matches.load reader fuel (get_all_match_file_paths profiles.0)
      ≡ ok (resolve s.file_map s.files, s.file_map, s.errors)
    → load_matches reader fuel profiles ≡ ok (configured profiles s)
unfolding load_matches
load_matches-configured reader fuel profiles s e =
    ap
      (λ (r : Run Panic (FileStore ResolvedMatchFile × Map Text ℕ × List Text)). r >>= λ loaded.
        ok (record {
          profile_store = resolve_paths profiles.0 loaded.1;
          match_store = loaded.0;
          config_errors = profiles.1;
          match_errors = loaded.2;
        }))
      e

-- Whatever the files are, the configuration that is loaded has a match file for each of its references, so
-- that the matches of the profile that is active for an application can be collected: loading ends,
-- and neither step panics, where the match files that can be read are finitely many.
pub load-collects :
    (directory : Directory) (reader : Reader) (names : List Text) (base_path : Text)
    (regex_matches : Text → Text → Bool) (app : AppProperties) (outcome : Run Panic LoadableConfig)
    → ((x : Text) (file : LoadedMatchFile) (non_fatal : Bool)
        → reader.load_match_file x ≡ some (file, non_fatal)
        → contains names x ≡ true)
    → load directory reader (length names + 1) base_path ≡ success outcome
    → (config : LoadableConfig) × (outcome ≡ ok config)
      × IsClosed config.match_store
      × ((matches : MatchesAndGlobalVars) × (collect_matches_and_global_vars config.match_store
              (active_config regex_matches config.profile_store app).match_file_paths
            ≡ ok matches))
unfolding load
load-collects directory reader names base_path regex_matches app outcome listed e =
    let opened = unless-success _ missing_config_dir _ outcome e in
    let (profiles, p, rest) =
      and_then-success (load_store directory (directory.join base_path (codes "config"))) _
        opened in
    let (s, loaded, closed, well, has) =
      load-IsClosed reader names (get_all_match_file_paths profiles.0) listed in
    let (visited, collects, _, _) =
      collect_matches_and_global_vars-Reached (resolve s.file_map s.files) closed
        (active_config regex_matches (resolve_paths profiles.0 s.file_map) app).match_file_paths
        (active_config-InStore regex_matches app profiles.0 s well) in
    (
      configured profiles s,
      sym (success-injective _ _ rest)
          ∙ load_matches-configured reader (length names + 1) profiles s loaded,
      closed,
      (_, collects),
    )
