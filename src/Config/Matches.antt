-- ===== src/Config/Matches.antt =====
-- crates/shinran_config/src/matches/store.rs and matches/group/mod.rs: the match files, with what they
-- import, and the query for their matches. Reading a file is a parameter.
mod Unseen
pub mod Visits
pub mod Query
pub mod Resolved
pub mod Missing
pub mod Load
pub mod Tests
use shinran.Prelude.{
  ℕ, zero, suc, Text, text_key, nat_key, Option, none, some, List, [], ◌∷◌, ◌++◌, map, filter_map,
  contains, length, get_elem?, ◌+◌, Bool, true, false, Run, ok, err, out_of_fuel, ◌>>=◌,
  if◌then◌else◌,
}
use shinran.Prelude.Dict.{Map, lookup}
use shinran.Prelude.Dict
use shinran.Types.{Variable, TriggerMatch, RegexMatch, MatchesAndGlobalVars}

pub record MatchFile : Type 0 where
  pub global_vars : List Variable
  pub trigger_matches : List TriggerMatch
  pub regex_matches : List RegexMatch

pub record LoadedMatchFile : Type 0 where
  pub import_paths : List Text
  pub content : MatchFile
  pub source_path : Text

-- A `MatchFileRef` is its index.
pub record ResolvedMatchFile : Type 0 where
  pub imports : List ℕ
  pub content : MatchFile
  pub source_path : Text

abbrev pub FileStore : Type 0 → Type 0
FileStore T = List T

unfoldable pub add : LoadedMatchFile → FileStore LoadedMatchFile → FileStore LoadedMatchFile × ℕ
add file files = (files ++ file ∷ [], length files)

abbrev pub resolve_file : Map Text ℕ → LoadedMatchFile → ResolvedMatchFile
resolve_file file_map file = record {
  imports = filter_map (λ path. lookup path file_map) file.import_paths;
  content = file.content;
  source_path = file.source_path;
}

unfoldable pub resolve : Map Text ℕ → FileStore LoadedMatchFile → FileStore ResolvedMatchFile
resolve file_map files = map (resolve_file file_map) files

-- The index of a file is out of bounds: `self.files[idx.idx]` panics.
pub data Panic : Type 0 where
  index_out_of_bounds : ℕ → Panic

-- What `query_matches_for_paths` fills.
pub record Visited : Type 0 where
  pub paths : List ℕ
  pub trigger_matches : List TriggerMatch
  pub regex_matches : List RegexMatch
  pub global_vars : List Variable

abbrev pub visit_file : ℕ → ResolvedMatchFile → Visited → Visited
visit_file path file s = record {
  paths = s.paths ++ path ∷ [];
  trigger_matches = s.trigger_matches ++ file.content.trigger_matches;
  regex_matches = s.regex_matches ++ file.content.regex_matches;
  global_vars = s.global_vars ++ file.content.global_vars;
}

abbrev pub collected : Visited → MatchesAndGlobalVars
collected s = record {
  trigger_matches = s.trigger_matches;
  regex_matches = s.regex_matches;
  global_vars = s.global_vars;
}

abbrev pub nothing_visited : Visited
nothing_visited = record { paths = []; trigger_matches = []; regex_matches = []; global_vars = [] }

module _ (files : FileStore ResolvedMatchFile) where
  -- The loop of `query_matches_for_paths`; `query` is the recursive call.
  unfoldable pub query_each :
      (List ℕ → Visited → Run Panic Visited) → List ℕ → Visited → Run Panic Visited
  query_each query [] s = ok s
  query_each query (path ∷ rest) s =
      let next = query_each query rest in
      if contains s.paths path then next s else elim (get_elem? files path) [
        | none ↦ err (index_out_of_bounds path)
        | some file ↦ query file.imports (visit_file path file s) >>= next
      ]

  -- Each call is for a file that was not visited: one more than the number of files is fuel enough.
  unfoldable pub query_matches_for_paths : ℕ → List ℕ → Visited → Run Panic Visited
  query_matches_for_paths zero paths s = out_of_fuel
  query_matches_for_paths (suc fuel) paths s = query_each (query_matches_for_paths fuel) paths s

  unfoldable pub collect_matches_and_global_vars : List ℕ → Run Panic MatchesAndGlobalVars
  collect_matches_and_global_vars paths =
      query_matches_for_paths (length files + 1) paths nothing_visited >>= λ s. ok (collected s)

-- Reading a file: its content, or an error; a file may have errors that are not fatal.
pub record Reader : Type 0 where
  pub load_match_file : Text → Option (LoadedMatchFile × Bool)

-- `errors` holds the paths of the files that could not be loaded, or only with errors.
pub record Loaded : Type 0 where
  pub files : FileStore LoadedMatchFile
  pub file_map : Map Text ℕ
  pub errors : List Text

abbrev pub note_errors : Bool → Text → List Text → List Text
note_errors true path errors = errors ++ path ∷ []
note_errors false path errors = errors

abbrev pub is_loaded : Option ℕ → Bool
is_loaded none = false
is_loaded (some idx) = true

abbrev pub add_file : Text → LoadedMatchFile → Bool → Loaded → Loaded
add_file path file non_fatal s = record {
  files = (add file s.files).0;
  file_map = Dict.insert path (add file s.files).1 s.file_map;
  errors = note_errors non_fatal path s.errors;
}

module _ (reader : Reader) where
  -- The loop of `load_match_files_recursively`; `load` is the recursive call.
  unfoldable pub load_each :
      (List Text → Loaded → Run Panic Loaded) → List Text → Loaded → Run Panic Loaded
  load_each load [] s = ok s
  load_each load (path ∷ rest) s =
      let next = load_each load rest in
      if is_loaded (lookup path s.file_map) then next s else elim (reader.load_match_file path) [
        | none ↦ next (record s { errors = s.errors ++ path ∷ [] })
        | some (file, non_fatal) ↦ load file.import_paths (add_file path file non_fatal s) >>= next
      ]

  -- `fuel` bounds how deep imports are nested.
  unfoldable pub load_match_files_recursively : ℕ → List Text → Loaded → Run Panic Loaded
  load_match_files_recursively zero paths s = out_of_fuel
  load_match_files_recursively (suc fuel) paths s =
      load_each (load_match_files_recursively fuel) paths s

abbrev pub nothing_loaded : Loaded
nothing_loaded = record { files = []; file_map = []; errors = [] }

-- `MatchStore::load`
unfoldable pub load :
    Reader → ℕ → List Text → Run Panic (FileStore ResolvedMatchFile × Map Text ℕ × List Text)
load reader fuel root_paths =
    load_match_files_recursively reader fuel root_paths nothing_loaded >>= λ s.
    ok (resolve s.file_map s.files, s.file_map, s.errors)
