-- ===== src/Config/Matches/Load.antt =====
-- Loading the match files with their imports ends, and gives a store in which every reference is to a
-- file (crates/shinran_config/src/matches/store.rs).
use shinran.Prelude.{
  ℕ, zero, suc, ◌+◌, ◌≤◌, ◌<◌, Text, text_key, text_eq, text_eq_iff, Bool, true, some, Option-cases,
  List, [], ◌∷◌, ◌++◌, ◌≡◌, ◌⊎◌, inl, inr, refl, ap, ◌∙◌, subst, arith, contains, length,
  length-append, nat_key, Bool-cases, Run, ok, ◌>>=◌,
}
use shinran.Prelude.Dict.{lookup, lookup-insert}
use shinran.Config.Matches.{
  LoadedMatchFile, add, resolve, Panic, Reader, Loaded, is_loaded, add_file, load_each,
  load_match_files_recursively, nothing_loaded, load,
}
use shinran.Config.Matches.Visits.{IsClosed}
use shinran.Config.Matches.Resolved.{IsWell, resolve-IsClosed}
use shinran.Config.Matches.Missing.{
  missing, Keeps, missing-Keeps, loaded-insert, Keeps-insert, missing-insert,
}

add_file-IsWell :
    (path : Text) (file : LoadedMatchFile) (non_fatal : Bool) (s : Loaded)
    → IsWell s
    → IsWell (add_file path file non_fatal s)
unfolding add
add_file-IsWell path file non_fatal s w = record {
  in_store = λ x idx e. ground (
    arith,
    lookup-insert path x (length s.files) s.file_map,
    length-append s.files (file ∷ []),
    w.in_store x idx,
  );
}

first_or_later :
    (path : Text) (rest : List Text) (x : Text)
    → contains (path ∷ rest) x ≡ true
    → (path ≡ x) ⊎ (contains rest x ≡ true)
first_or_later path rest x h = elim (Bool-cases (text_eq path x)) [
  | inl same ↦ inl ((text_eq_iff path x).0 same)
  | inr other ↦ inr (unfold contains in ground arith)
]

module _ (reader : Reader) where
  -- What a call for `paths` does.
  record Loads (paths : List Text) (s t : Loaded) : Type 0 where
    keeps : Keeps s.file_map t.file_map
    well : IsWell s → IsWell t
    has :
        (x : Text) (file : LoadedMatchFile) (non_fatal : Bool)
        → contains paths x ≡ true
        → reader.load_match_file x ≡ some (file, non_fatal)
        → is_loaded (lookup x t.file_map) ≡ true

  abbrev Good : List Text → Loaded → Run Panic Loaded → Type 0
  Good paths s r = (t : Loaded) × (r ≡ ok t) × Loads paths s t

  Loads-none : (s : Loaded) → Loads [] s s
  Loads-none s = record {
    keeps = λ x h. h;
    well = λ w. w;
    has = λ x file b h q. absurd (unfold contains in ground arith);
  }

  -- The first path needs nothing, or was dealt with on the way to `s'`.
  Loads-cons :
      (path : Text) (rest : List Text) (s s' t : Loaded)
      → Keeps s.file_map s'.file_map
      → (IsWell s → IsWell s')
      → ((file : LoadedMatchFile) (non_fatal : Bool)
          → reader.load_match_file path ≡ some (file, non_fatal)
          → is_loaded (lookup path s'.file_map) ≡ true)
      → Loads rest s' t
      → Loads (path ∷ rest) s t
  Loads-cons path rest s s' t k w first l = record {
    keeps = λ x h. l.keeps x (k x h);
    well = λ v. l.well (w v);
    has = λ x file b h q. go x file b q (first_or_later path rest x h);
  }
    where
      go :
          (x : Text) (file : LoadedMatchFile) (b : Bool)
          → reader.load_match_file x ≡ some (file, b)
          → (path ≡ x) ⊎ (contains rest x ≡ true)
          → is_loaded (lookup x t.file_map) ≡ true
      go x file b q (inl e) = l.keeps x (
          subst (λ y. is_loaded (lookup y s'.file_map) ≡ true) e
            (first file b (ap reader.load_match_file e ∙ q)))
      go x file b q (inr h) = l.has x file b h q

  module _ (names : List Text)
      (listed : (x : Text) (file : LoadedMatchFile) (non_fatal : Bool)
        → reader.load_match_file x ≡ some (file, non_fatal)
        → contains names x ≡ true) where
    load_each-Good :
        (load : List Text → Loaded → Run Panic Loaded) (fuel : ℕ)
        → ((paths : List Text) (s : Loaded)
            → missing s.file_map names < fuel
            → Good paths s (load paths s))
        → (paths : List Text) (s : Loaded) → missing s.file_map names < fuel + 1
        → Good paths s (load_each reader load paths s)
    unfolding load_each
    load_each-Good load fuel ih [] s k = (s, refl, Loads-none s)
    load_each-Good load fuel ih (path ∷ rest) s k =
        elim (Bool-cases (is_loaded (lookup path s.file_map))) [
          | inl seen ↦
              let (t, e, l) = load_each-Good load fuel ih rest s k in
              (
                t,
                rw (seen, load_each) e,
                Loads-cons path rest s s t (λ x h. h) (λ w. w) (λ file b q. seen) l,
              )
          | inr new ↦ elim (Option-cases (reader.load_match_file path)) [
            | inl absent ↦
                let s' : Loaded = record s { errors = s.errors ++ path ∷ [] } in
                let (t, e, l) = load_each-Good load fuel ih rest s' k in
                (
                  t,
                  rw (new, load_each) (rw (absent, load_each) e),
                  Loads-cons path rest s s' t (λ x h. h) (λ w. record { in_store = w.in_store })
                      (λ file b q. absurd (cc (absent, q))) l,
                )
            | inr ((file, b), q) ↦
                let s' = add_file path file b s in
                let here : is_loaded (lookup path s'.file_map) ≡ true =
                  loaded-insert path path (add file s.files).1 s.file_map
                  ∙ ground (arith, text_eq_iff path path) in
                let (t, e, l) = ih file.import_paths s' (
                  omega (
                    arith,
                    missing-insert path (add file s.files).1 s.file_map names (listed path file b q)
                        new,
                  )) in
                let (u, e', l') = load_each-Good load fuel ih rest t (
                  omega (
                    arith,
                    missing-Keeps s.file_map t.file_map names
                        (λ x h. l.keeps x (Keeps-insert path (add file s.files).1 s.file_map x h)),
                  )) in
                (
                  u,
                  rw (new, load_each) (rw (q, load_each) (rw (e) e')),
                  Loads-cons path rest s t u
                      (λ x h. l.keeps x (Keeps-insert path (add file s.files).1 s.file_map x h))
                      (λ w. l.well (add_file-IsWell path file b s w)) (λ f b' q'. l.keeps path here)
                      l',
                )
          ]
        ]

    load_match_files-Good :
        (fuel : ℕ) (paths : List Text) (s : Loaded)
        → missing s.file_map names < fuel
        → Good paths s (load_match_files_recursively reader fuel paths s)
    unfolding load_match_files_recursively
    load_match_files-Good zero paths s k = absurd (omega arith)
    load_match_files-Good (suc fuel) paths s k =
        load_each-Good (load_match_files_recursively reader fuel) fuel
          (λ paths s k. load_match_files-Good fuel paths s k) paths s (omega arith)

missing-nil : (names : List Text) → missing [] names ≤ length names
unfolding lookup
missing-nil [] = omega arith
missing-nil (name ∷ names) = ground (arith, missing-nil names)

-- Where the files that can be read are finitely many, loading ends, however they import each other. In the
-- store that it gives, every reference is to a file, and each root that can be read has one.
pub load-IsClosed :
    (reader : Reader) (names roots : List Text)
    → ((x : Text) (file : LoadedMatchFile) (non_fatal : Bool)
        → reader.load_match_file x ≡ some (file, non_fatal)
        → contains names x ≡ true)
    → (s : Loaded) × (load reader (length names + 1) roots
        ≡ ok (resolve s.file_map s.files, s.file_map, s.errors))
      × IsClosed (resolve s.file_map s.files)
      × IsWell s
      × ((x : Text) (file : LoadedMatchFile) (non_fatal : Bool)
          → contains roots x ≡ true
          → reader.load_match_file x ≡ some (file, non_fatal)
          → is_loaded (lookup x s.file_map) ≡ true)
unfolding load
load-IsClosed reader names roots listed =
    let (t, e, l) =
      load_match_files-Good reader names listed (length names + 1) roots nothing_loaded
        (omega (arith, missing-nil names)) in
    let well = l.well (record { in_store = λ x idx q. unfold lookup in absurd (ground arith) }) in
    (
      t,
      ap (λ r. r >>= λ s. ok (resolve s.file_map s.files, s.file_map, s.errors)) e,
      resolve-IsClosed t well,
      well,
      l.has,
    )
