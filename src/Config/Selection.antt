-- ===== src/Config/Selection.antt =====
-- crates/shinran_config/src/config/store.rs: which profile is active, and which match files the profiles
-- use.
use shinran.Prelude.{
  ℕ, Text, text_key, Bool, true, false, not, ◌&&◌, ◌||◌, Option, none, some, List, [], ◌∷◌, ◌++◌,
  ◌≡◌, ◌↔◌, ◌⊎◌, inl, inr, refl, sym, ap, ◌∙◌, subst, arith, All, map, any, filter, contains,
  extend, contains-extend, key_iff, if◌then◌else◌,
}
use shinran.Prelude.Dict.{Map}
use shinran.Config.Parsed.{ParsedConfig}
use shinran.Config.Profile.{
  AppProperties, Filters, filter_matches, is_unset, is_match, LoadedProfileFile, ProfileFile,
  from_loaded_profile, Loader, aggregate_includes, aggregate_excludes, generate_match_paths,
}

pub record ProfileStore : Type 0 where
  pub default_profile : ProfileFile
  pub custom_profiles : List ProfileFile

pub record LoadedProfileStore : Type 0 where
  pub default_profile : LoadedProfileFile
  pub custom_profiles : List LoadedProfileFile

unfoldable pub resolve_paths : LoadedProfileStore → Map Text ℕ → ProfileStore
resolve_paths loaded file_map = record {
  default_profile = from_loaded_profile loaded.default_profile file_map;
  custom_profiles = map (λ profile. from_loaded_profile profile file_map) loaded.custom_profiles;
}

unfoldable pub extend_paths : List LoadedProfileFile → List Text → List Text
extend_paths [] paths = paths
extend_paths (profile ∷ profiles) paths =
    extend_paths profiles (extend profile.match_file_paths paths)

unfoldable pub get_all_match_file_paths : LoadedProfileStore → List Text
get_all_match_file_paths store =
    extend_paths store.custom_profiles (extend store.default_profile.match_file_paths [])

module _ (regex_matches : Text → Text → Bool) where
  -- The loop of `active_config`.
  unfoldable pub first_match : AppProperties → List ProfileFile → ProfileFile → ProfileFile
  first_match app [] default = default
  first_match app (custom ∷ rest) default =
      let later = first_match app rest default in
      if is_match regex_matches custom.filters app then custom else later

  unfoldable pub active_config : ProfileStore → AppProperties → ProfileFile
  active_config store app = first_match app store.custom_profiles store.default_profile

  -- A filter that is set is met by a property that is there and matches.
  pub record Meets (filter property : Option Text) : Type 0 where
    pub met :
        (regex : Text)
        → filter ≡ some regex
        → (text : Text) × (property ≡ some text) × (regex_matches regex text ≡ true)

  abbrev pub AllMet : Filters → AppProperties → Type 0
  AllMet filters app =
      Meets filters.title app.title × Meets filters.class app.class × Meets filters.exec app.exec

  abbrev pub IsSome : Option Text → Type 0
  IsSome filter = (regex : Text) × (filter ≡ some regex)

  filter_matches-Meets :
      (filter property : Option Text)
      → filter_matches regex_matches filter property ≡ true
      → Meets filter property
  filter_matches-Meets none property h = record { met = λ regex e. cc }
  filter_matches-Meets (some regex) none h = absurd (ground arith)
  filter_matches-Meets (some regex) (some text) h = record {
    met = λ regex' e. (text, refl, ground arith);
  }

  Meets-filter_matches :
      (filter property : Option Text)
      → Meets filter property
      → filter_matches regex_matches filter property ≡ true
  Meets-filter_matches none property h = refl
  Meets-filter_matches (some regex) property h =
      let (text, e, q) = h.met regex refl in
      subst (λ p. filter_matches regex_matches (some regex) p ≡ true) (sym e) q

  IsSome-filter :
      (t e c : Option Text)
      → (is_unset t && (is_unset e && is_unset c)) ≡ false
      → IsSome t ⊎ (IsSome e ⊎ IsSome c)
  IsSome-filter (some x) e c h = inl (x, refl)
  IsSome-filter none (some x) c h = inr (inl (x, refl))
  IsSome-filter none none (some x) h = inr (inr (x, refl))
  IsSome-filter none none none h = absurd (ground arith)

  is_unset-some : (t : Option Text) → IsSome t → is_unset t ≡ false
  is_unset-some t (x, e) = ap is_unset e

  not_unset :
      (t e c : Option Text)
      → IsSome t ⊎ (IsSome e ⊎ IsSome c)
      → (is_unset t && (is_unset e && is_unset c)) ≡ false
  not_unset t e c (inl s) = ground (arith, is_unset-some t s)
  not_unset t e c (inr (inl s)) = ground (arith, is_unset-some e s)
  not_unset t e c (inr (inr s)) = ground (arith, is_unset-some c s)

  -- A profile matches an application exactly if it has a filter and each filter that it has is met.
  pub is_match_iff :
      (filters : Filters) (app : AppProperties)
      → (is_match regex_matches filters app ≡ true) ↔ (
          (IsSome filters.title ⊎ (IsSome filters.exec ⊎ IsSome filters.class))
          × AllMet filters app)
  unfolding is_match
  is_match_iff filters app = (
    λ h. (
      IsSome-filter filters.title filters.exec filters.class (ground arith),
      (
        filter_matches-Meets filters.title app.title (ground arith),
        filter_matches-Meets filters.class app.class (ground arith),
        filter_matches-Meets filters.exec app.exec (ground arith),
      ),
    ),
    λ (s, (t, c, e)). ground (
      arith,
      not_unset filters.title filters.exec filters.class s,
      Meets-filter_matches filters.title app.title t,
      Meets-filter_matches filters.class app.class c,
      Meets-filter_matches filters.exec app.exec e,
    ),
  )

  abbrev pub IsFirst : AppProperties → List ProfileFile → ProfileFile → ProfileFile → Type 0
  IsFirst app custom default chosen =
      ((before after : List ProfileFile) × (active : ProfileFile) × (custom
          ≡ before ++ active ∷ after)
        × All (λ (p : ProfileFile). is_match regex_matches p.filters app ≡ false) before
        × (is_match regex_matches active.filters app ≡ true)
        × (chosen ≡ active))
      ⊎ (All (λ (p : ProfileFile). is_match regex_matches p.filters app ≡ false) custom
          × (chosen ≡ default))

  IsFirst-skip :
      (app : AppProperties) (p : ProfileFile) (rest : List ProfileFile)
      (default chosen : ProfileFile)
      → is_match regex_matches p.filters app ≡ false
      → IsFirst app rest default chosen
      → IsFirst app (p ∷ rest) default chosen
  IsFirst-skip app p rest default chosen q
        (inl (before, after, active, split, none_before, matches, e)) =
      inl (p ∷ before, after, active, ap (λ l. p ∷ l) split, (q, none_before), matches, e)
  IsFirst-skip app p rest default chosen q (inr (none_at_all, e)) = inr ((q, none_at_all), e)

  first_match-IsFirst :
      (app : AppProperties) (custom : List ProfileFile) (default : ProfileFile)
      → IsFirst app custom default (first_match app custom default)
  unfolding first_match
  first_match-IsFirst app [] default = inr (tt, refl)
  first_match-IsFirst app (p ∷ rest) default =
      go (is_match regex_matches p.filters app) refl (first_match-IsFirst app rest default)
    where
      go :
          (b : Bool)
          → is_match regex_matches p.filters app ≡ b
          → IsFirst app rest default (first_match app rest default)
          → IsFirst app (p ∷ rest) default (if b then p else first_match app rest default)
      go true q ih = inl ([], rest, p, refl, tt, q, refl)
      go false q ih = IsFirst-skip app p rest default _ q ih

  -- The active profile is the first custom profile that matches, and the default one if none does.
  pub active_config-IsFirst :
      (store : ProfileStore) (app : AppProperties)
      → IsFirst app store.custom_profiles store.default_profile (active_config store app)
  unfolding active_config
  active_config-IsFirst store app =
      first_match-IsFirst app store.custom_profiles store.default_profile

contains-filter :
    (excluded paths : List Text) (path : Text)
    → contains (filter (λ p. not (contains excluded p)) paths) path
      ≡ (contains paths path && not (contains excluded path))
unfolding contains
contains-filter excluded [] path = refl
contains-filter excluded (p ∷ paths) path = ground (
  arith,
  contains-filter excluded paths path,
  key_iff p path,
  λ (e : p ≡ path). ap (contains excluded) e,
)

-- Where the path of a profile has a directory, its match files are those of its includes that no
-- exclude gives.
pub generate_match_paths-contains :
    (loader : Loader) (config : ParsedConfig) (source_path base_dir : Text) (path : Text)
    → loader.parent source_path ≡ some base_dir
    → (paths : List Text) × (generate_match_paths loader config source_path ≡ some paths)
      × (contains paths path ≡ (
          contains (loader.calculate_paths base_dir (aggregate_includes config)) path
          && not (contains (loader.calculate_paths base_dir (aggregate_excludes config)) path)))
unfolding generate_match_paths
generate_match_paths-contains loader config source_path base_dir path e =
    rw (e, generate_match_paths) (_, refl, contains-filter _ _ path)

contains-extend_paths :
    (profiles : List LoadedProfileFile) (paths : List Text) (path : Text)
    → contains (extend_paths profiles paths) path ≡ (
        any (λ (p : LoadedProfileFile). contains p.match_file_paths path) profiles
        || contains paths path)
unfolding extend_paths
contains-extend_paths [] paths path = refl
contains-extend_paths (profile ∷ profiles) paths path = ground (
  arith,
  contains-extend_paths profiles (extend profile.match_file_paths paths) path,
  contains-extend profile.match_file_paths paths path,
)

-- The match files to load are those of the default profile and of every custom one.
pub get_all_match_file_paths-contains :
    (store : LoadedProfileStore) (path : Text)
    → contains (get_all_match_file_paths store) path ≡ (
        any (λ (p : LoadedProfileFile). contains p.match_file_paths path) store.custom_profiles
        || contains store.default_profile.match_file_paths path)
unfolding get_all_match_file_paths contains
get_all_match_file_paths-contains store path =
    contains-extend_paths store.custom_profiles (extend store.default_profile.match_file_paths [])
      path
    ∙ ground (arith, contains-extend store.default_profile.match_file_paths [] path)
