-- ===== src/Config/Matches/Tests.antt =====
-- A test of the query for matches (crates/shinran_config/src/matches/store.rs) on files that import each
-- other.
use shinran.Prelude.{
  ℕ, zero, suc, ◌+◌, Text, text_eq, text_eq_iff, text_key, Bool, true, false, Option, none, some,
  List, [], ◌∷◌, ◌≡◌, ◌↔◌, subst, arith, codes, contains, length, get_elem?, nat_key, if◌then◌else◌,
  ok,
}
use mathlib.Core.Option.{some-injective}
use shinran.Prelude.Dict.{lookup}
use shinran.Config.Matches.Resolved.{IsWell}
use shinran.Config.Matches.Load.{load-IsClosed}
use shinran.Config.Matches.{
  LoadedMatchFile, Reader, Loaded, load, resolve, is_loaded, ResolvedMatchFile, FileStore,
  collect_matches_and_global_vars,
}
use shinran.Config.Matches.Visits.{
  IsClosed, InStore, Distinct, Reached, gather, triggers, regexes, variables,
}
use shinran.Config.Matches.Query.{collect_matches_and_global_vars-Reached}

abbrev file_with : List ℕ → ResolvedMatchFile
file_with imports = record {
  imports = imports;
  content = record { global_vars = []; trigger_matches = []; regex_matches = [] };
  source_path = codes "a.yml";
}

-- The first two import each other, and nothing imports the third.
abbrev files : FileStore ResolvedMatchFile
files = file_with (1 ∷ []) ∷ file_with (0 ∷ []) ∷ file_with (0 ∷ []) ∷ []

of_file :
    (imports : List ℕ) (file : ResolvedMatchFile)
    → some (file_with imports) ≡ some file
    → InStore files imports
    → InStore files file.imports
of_file imports file q h =
    subst (λ (f : ResolvedMatchFile). InStore files f.imports)
      (some-injective (file_with imports) file q) h

files-IsClosed : IsClosed files
files-IsClosed = record { imports_in = imports_of }
  where
    imports_of :
        (x : ℕ) (file : ResolvedMatchFile)
        → get_elem? files x ≡ some file
        → InStore files file.imports
    imports_of zero file q = of_file (1 ∷ []) file q (omega arith, tt)
    imports_of (suc zero) file q = of_file (0 ∷ []) file q (omega arith, tt)
    imports_of (suc (suc zero)) file q = of_file (0 ∷ []) file q (omega arith, tt)
    imports_of (suc (suc (suc n))) file q = absurd (ground arith)

collect_matches_and_global_vars-Reached_example :
    (visited : List ℕ) × (collect_matches_and_global_vars files (0 ∷ [])
      ≡ ok (record {
        trigger_matches = gather files (triggers files) visited;
        regex_matches = gather files (regexes files) visited;
        global_vars = gather files (variables files) visited;
      }))
    × Distinct files visited
    × ((x : ℕ) → (contains visited x ≡ true) ↔ Reached files (0 ∷ []) x)
collect_matches_and_global_vars-Reached_example =
    collect_matches_and_global_vars-Reached files files-IsClosed (0 ∷ []) (omega arith, tt)

abbrev loaded_with : List Text → LoadedMatchFile
loaded_with import_paths = record {
  import_paths = import_paths;
  content = record { global_vars = []; trigger_matches = []; regex_matches = [] };
  source_path = codes "a.yml";
}

-- `a.yml` and `b.yml` import each other, and no other file can be read.
abbrev read_file : Text → Option (LoadedMatchFile × Bool)
read_file path =
    if text_eq path (codes "a.yml")
    then some (loaded_with (codes "b.yml" ∷ []), false)
    else if text_eq path (codes "b.yml")
    then some (loaded_with (codes "a.yml" ∷ []), false)
    else none

abbrev pub sample_reader : Reader
sample_reader = record { load_match_file = read_file }

abbrev pub sample_names : List Text
sample_names = codes "a.yml" ∷ codes "b.yml" ∷ []

pub sample_listed :
    (x : Text) (file : LoadedMatchFile) (non_fatal : Bool)
    → sample_reader.load_match_file x ≡ some (file, non_fatal)
    → contains sample_names x ≡ true
sample_listed x file b q =
    unfold contains in
    ground (
      arith,
      text_eq_iff x (codes "a.yml"),
      text_eq_iff x (codes "b.yml"),
      text_eq_iff (codes "a.yml") x,
      text_eq_iff (codes "b.yml") x,
    )

load-IsClosed_example :
    (s : Loaded) × (load sample_reader (length sample_names + 1) (codes "a.yml" ∷ [])
      ≡ ok (resolve s.file_map s.files, s.file_map, s.errors))
    × IsClosed (resolve s.file_map s.files)
    × IsWell s
    × ((x : Text) (file : LoadedMatchFile) (non_fatal : Bool)
        → contains (codes "a.yml" ∷ []) x ≡ true
        → sample_reader.load_match_file x ≡ some (file, non_fatal)
        → is_loaded (lookup x s.file_map) ≡ true)
load-IsClosed_example = load-IsClosed sample_reader sample_names (codes "a.yml" ∷ []) sample_listed
