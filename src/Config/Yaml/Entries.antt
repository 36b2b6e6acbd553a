-- ===== src/Config/Yaml/Entries.antt =====
-- What each entry of a match file gives by itself (crates/shinran_config/src/matches/group/loader/yaml/mod.rs).
use shinran.Prelude.{Text, false, List, [], ◌∷◌, ◌++◌, map, success, failure, unwrap_or}
use shinran.Types.{Variable}
use shinran.Config.Matches.{LoadedMatchFile}
use shinran.Config.Yaml.Match.{
  YamlVariable, YamlMatch, YamlMatchFile, unresolved_import, ErrorRecord, error_record, warn,
  Converted, Crates, try_convert_into_variable, try_convert_into_match,
}
use shinran.Config.Yaml.File.{Host, resolve_import, full_path}

abbrev pub flat_map : {A B : Type 0} → (A → List B) → List A → List B
flat_map f [] = []
flat_map f (x ∷ xs) = f x ++ flat_map f xs

-- The variable, if the conversion succeeds, and what is reported of it.
abbrev pub variable_entry : YamlVariable → List Variable
variable_entry v = elim (try_convert_into_variable v false) [
  | success (var, warnings) ↦ var ∷ []
  | failure e ↦ []
]

abbrev pub variable_report : YamlVariable → List ErrorRecord
variable_report v = elim (try_convert_into_variable v false) [
  | success (var, warnings) ↦ map warn warnings
  | failure e ↦ error_record e ∷ []
]

abbrev pub no_match : Converted
no_match = record { trigger_matches = []; regex_matches = []; non_fatal_errors = [] }

-- A match by itself
abbrev pub match_entry : Crates → YamlMatch → Converted
match_entry crates m = elim (try_convert_into_match crates m no_match) [
  | success s ↦ s
  | failure e ↦ record no_match { non_fatal_errors = error_record e ∷ [] }
]

abbrev pub import_entry : Host → Text → Text → List Text
import_entry host dir path = elim (resolve_import host (full_path host dir path)) [
  | success resolved ↦ resolved ∷ []
  | failure unresolved ↦ []
]

abbrev pub import_report : Host → Text → Text → List ErrorRecord
import_report host dir path = elim (resolve_import host (full_path host dir path)) [
  | success resolved ↦ []
  | failure unresolved ↦ error_record (unresolved_import unresolved) ∷ []
]

-- The file that is loaded, and what is reported of its entries, in order.
abbrev pub contents : Host → (dir path : Text) → YamlMatchFile → LoadedMatchFile
contents host dir path file = record {
  import_paths = flat_map (import_entry host dir) (unwrap_or file.imports []);
  content = record {
    global_vars = flat_map variable_entry (unwrap_or file.global_vars []);
    trigger_matches =
        flat_map (λ m. (match_entry host.crates m).trigger_matches) (unwrap_or file.matches []);
    regex_matches =
        flat_map (λ m. (match_entry host.crates m).regex_matches) (unwrap_or file.matches []);
  };
  source_path = path;
}

abbrev pub reports : Host → Text → YamlMatchFile → List ErrorRecord
reports host dir file =
    (flat_map variable_report (unwrap_or file.global_vars [])
      ++ flat_map (λ m. (match_entry host.crates m).non_fatal_errors) (unwrap_or file.matches []))
    ++ flat_map (import_report host dir) (unwrap_or file.imports [])
