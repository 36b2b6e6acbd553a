-- ===== src/Config/Matches/Resolved.antt =====
-- References are resolved to files of the store (`resolve` of
-- crates/shinran_config/src/matches/group/mod.rs).
use shinran.Prelude.{
  ℕ, zero, suc, ◌<◌, Text, text_key, Option, none, some, List, [], ◌∷◌, map, filter_map, ◌≡◌, refl,
  subst, arith, All, length, length-map, get_elem?, nat_key,
}
use mathlib.Core.Option.{some-injective}
use shinran.Prelude.Dict.{Map, lookup}
use shinran.Config.Matches.{ResolvedMatchFile, resolve_file, resolve, Loaded}
use shinran.Config.Matches.Visits.{IsClosed}

-- Every index that the map has is that of a file.
pub record IsWell (s : Loaded) : Type 0 where
  pub in_store : (x : Text) (idx : ℕ) → lookup x s.file_map ≡ some idx → idx < length s.files

pub filter_map-lookup :
    (m : Map Text ℕ) (n : ℕ)
    → ((x : Text) (idx : ℕ) → lookup x m ≡ some idx → idx < n)
    → (paths : List Text) → All (λ idx. idx < n) (filter_map (λ path. lookup path m) paths)
filter_map-lookup m n h [] = tt
filter_map-lookup m n h (path ∷ paths) = go (lookup path m) refl (filter_map-lookup m n h paths)
  where
    go :
        (o : Option ℕ)
        → lookup path m ≡ o
        → All (λ idx. idx < n) (filter_map (λ path. lookup path m) paths)
        → All
            (λ idx. idx < n)
            (elim o as (λ o. List ℕ) [
              | none ↦ filter_map (λ path. lookup path m) paths
              | some idx ↦ idx ∷ filter_map (λ path. lookup path m) paths
            ])
    go none e ih = ih
    go (some idx) e ih = (h path idx e, ih)

pub get_elem?-map :
    {A B : Type 0} (f : A → B) (xs : List A) (i : ℕ) (y : B)
    → get_elem? (map f xs) i ≡ some y
    → (x : A) × (f x ≡ y)
get_elem?-map f [] i y h = absurd (ground arith)
get_elem?-map f (x ∷ xs) zero y h = (x, some-injective (f x) y h)
get_elem?-map f (x ∷ xs) (suc i) y h = get_elem?-map f xs i y h

pub resolve-IsClosed : (s : Loaded) → IsWell s → IsClosed (resolve s.file_map s.files)
unfolding resolve
resolve-IsClosed s w = record {
  imports_in = λ x file h.
      let (loaded, e) = get_elem?-map (resolve_file s.file_map) s.files x file h in
      subst
        (λ (f : ResolvedMatchFile).
          All (λ idx. idx < length (map (resolve_file s.file_map) s.files)) f.imports)
        e
        (filter_map-lookup s.file_map (length (map (resolve_file s.file_map) s.files))
          (λ y idx q.
            omega (arith, length-map (resolve_file s.file_map) s.files, w.in_store y idx q))
          loaded.import_paths);
}
