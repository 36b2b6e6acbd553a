-- ===== src/Backend/Startup/Fresh.antt =====
-- The cache file of the configuration (crates/shinran_backend/src/config.rs) is taken only while it is
-- fresh.
use shinran.Prelude.{
  ℕ, ◌≤◌, ◌≡◌, refl, ap, ◌∙◌, subst, arith, Text, text_key, Bool, true, false, not, Option, none,
  some, List, [], ◌∷◌, contains, ltb, success, All, key_iff,
}
use shinran.Config.Profile.{ProfileFile, generate_match_paths}
use shinran.Config.Yaml.Accounting.{and_then-success, success-injective}
use shinran.Backend.Startup.{
  Configuration, Disk, CacheError, or_error, max_time, parsed_configs, source_paths, is_subset,
  check_file, fold_times, most_recent_modification, load_and_mod_time, all_config_files, ensure,
  check_profiles, load_cache,
}

or_error-success :
    {A : Type 0} (e : CacheError) (o : Option A) {a : A} → or_error e o ≡ success a → o ≡ some a
or_error-success e none h = ground (arith, h)
or_error-success e (some b) h = ap some (success-injective b _ h)

max_time-bounds : (a b limit : ℕ) → max_time a b ≤ limit → (a ≤ limit) × (b ≤ limit)
max_time-bounds a b limit h = ground (arith, h)

not_later : (a b : ℕ) → not (ltb a b) ≡ true → b ≤ a
not_later a b h = ground (arith, h)

module _ (disk : Disk) where
  -- A file that has not changed after a time.
  abbrev pub IsUnchanged : ℕ → Text → Type 0
  IsUnchanged time path =
      (disk.is_file path ≡ true) × ((t : ℕ) × (disk.modified path ≡ some t) × (t ≤ time))

  check_file-success :
      (path : Text) (t : ℕ)
      → check_file disk path ≡ success t
      → (disk.is_file path ≡ true) × (disk.modified path ≡ some t)
  check_file-success path t h = ground (arith, h)

  fold_times-bounds :
      (paths : List Text) (time last limit : ℕ)
      → fold_times disk time paths ≡ success last
      → last ≤ limit
      → (time ≤ limit) × All (IsUnchanged limit) paths
  unfolding fold_times
  fold_times-bounds [] time last limit e h = (omega (arith, success-injective time last e, h), tt)
  fold_times-bounds (path ∷ paths) time last limit e h =
      let (t, p, rest) = and_then-success (check_file disk path) _ e in
      let (bound, unchanged) = fold_times-bounds paths (max_time time t) last limit rest h in
      let (file, modified) = check_file-success path t p in
      let (before, at) = max_time-bounds time t limit bound in
      (before, ((file, (t, modified, at)), unchanged))

  most_recent-bounds :
      (paths : List Text) (last limit : ℕ)
      → most_recent_modification disk paths ≡ success last
      → last ≤ limit
      → All (IsUnchanged limit) paths
  unfolding most_recent_modification
  most_recent-bounds [] last limit e h = tt
  most_recent-bounds (path ∷ paths) last limit e h =
      let (t, p, rest) = and_then-success (check_file disk path) _ e in
      let (bound, unchanged) = fold_times-bounds paths t last limit rest h in
      let (file, modified) = check_file-success path t p in
      ((file, (t, modified, bound)), unchanged)

  -- The paths are all among the known ones.
  abbrev pub AreKnown : (known paths : List Text) → Type 0
  AreKnown known paths = (path : Text) → contains paths path ≡ true → contains known path ≡ true

  is_subset-AreKnown :
      (paths known : List Text) → is_subset paths known ≡ true → AreKnown known paths
  unfolding contains
  is_subset-AreKnown [] known h path c = ground (arith, c)
  is_subset-AreKnown (first ∷ paths) known h path c =
      let later : is_subset paths known ≡ true = ground (arith, h) in
      let same : first ≡ path → contains known first ≡ contains known path =
        λ e. ap (contains known) e in
      ground (arith, h, c, is_subset-AreKnown paths known later path, key_iff first path, same)

  ensure-true : (b : Bool) (e : CacheError) {u : Unit} → ensure disk b e ≡ success u → b ≡ true
  ensure-true true e h = refl
  ensure-true false e h = ground (arith, h)

  -- The match files that a profile finds now.
  abbrev pub HasKnownMatches : List Text → ProfileFile → Type 0
  HasKnownMatches known profile =
      (paths : List Text) × (generate_match_paths disk.loader profile.content profile.source_path
        ≡ some paths)
      × AreKnown known paths

  check_profiles-HasKnownMatches :
      (profiles : List ProfileFile) (known : List Text) {u : Unit}
      → check_profiles disk profiles known ≡ success u
      → All (HasKnownMatches known) profiles
  unfolding check_profiles
  check_profiles-HasKnownMatches [] known e = tt
  check_profiles-HasKnownMatches (profile ∷ profiles) known e =
      let (paths, p, rest) =
        and_then-success
          (or_error CacheError.no_match_paths
            (generate_match_paths disk.loader profile.content profile.source_path))
          _ e in
      let (u, q, last) =
        and_then-success (ensure disk (is_subset paths known) CacheError.new_match_file) _ rest in
      (
        (paths, or_error-success _ _ p, is_subset-AreKnown paths known (ensure-true _ _ q)),
        check_profiles-HasKnownMatches profiles known last,
      )

  -- The configuration is the one in the cache file, and nothing has changed since it was written: its
  -- sources are files that are not newer, and neither the directory of the configuration nor the
  -- globs of a profile have a file that is not among them.
  pub record IsFresh (cache_path config_dir : Text) (config : Configuration) : Type 0 where
    pub content : Text
    pub time : ℕ
    pub is_stored : disk.read cache_path ≡ some content
    pub is_archived : disk.check_archived_root content ≡ some config
    pub is_written : disk.modified cache_path ≡ some time
    pub unchanged : All (IsUnchanged time) (source_paths config)
    pub config_files : List Text
    pub are_found : all_config_files disk config_dir ≡ success config_files
    pub no_new_config : AreKnown (source_paths config) config_files
    pub no_new_match :
        All (HasKnownMatches (source_paths config)) (parsed_configs config.profile_store)

  -- A cache that is taken is fresh.
  pub load_cache-IsFresh :
      (cache_path config_dir : Text) (config : Configuration)
      → load_cache disk cache_path config_dir ≡ success config
      → IsFresh cache_path config_dir config
  unfolding load_cache load_and_mod_time
  load_cache-IsFresh cache_path config_dir config e =
      let (cache, p0, e0) = and_then-success (load_and_mod_time disk cache_path) _ e in
      let (content, q0, f0) =
        and_then-success (or_error (CacheError.unreadable cache_path) (disk.read cache_path)) _
          p0 in
      let (time, q1, f1) =
        and_then-success (or_error (CacheError.no_time cache_path) (disk.modified cache_path)) _
          f0 in
      let same = success-injective (content, time) cache f1 in
      let (archived, p1, e1) =
        and_then-success (or_error CacheError.byte_check_failed (disk.check_archived_root cache.0))
          _ e0 in
      let (config_mod_time, p2, e2) =
        and_then-success (most_recent_modification disk (source_paths archived)) _ e1 in
      let (u, p3, e3) =
        and_then-success (ensure disk (not (ltb cache.1 config_mod_time)) CacheError.outdated) _
          e2 in
      let (found, p4, e4) = and_then-success (all_config_files disk config_dir) _ e3 in
      let (v, p5, e5) =
        and_then-success
          (ensure disk (is_subset found (source_paths archived)) CacheError.new_config_file) _ e4 in
      let (w, p6, e6) =
        and_then-success
          (check_profiles disk (parsed_configs archived.profile_store) (source_paths archived)) _
          e5 in
      subst (IsFresh cache_path config_dir) (success-injective archived config e6) (record {
        content = cache.0;
        time = cache.1;
        is_stored = or_error-success _ _ q0 ∙ ap (λ (x : Text × ℕ). some x.0) same;
        is_archived = or_error-success _ _ p1;
        is_written = or_error-success _ _ q1 ∙ ap (λ (x : Text × ℕ). some x.1) same;
        unchanged =
            most_recent-bounds (source_paths archived) config_mod_time cache.1 p2
              (not_later _ _ (ensure-true _ _ p3));
        config_files = found;
        are_found = p4;
        no_new_config = is_subset-AreKnown found (source_paths archived) (ensure-true _ _ p5);
        no_new_match =
            check_profiles-HasKnownMatches (parsed_configs archived.profile_store)
              (source_paths archived) p6;
      })
