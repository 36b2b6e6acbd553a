-- ===== src/Config/Yaml/Loops.antt =====
-- The loops of `YAMLImporter::load_file` (crates/shinran_config/src/matches/group/loader/yaml/mod.rs) and of
-- `resolve_paths` (matches/group/path.rs), entry by entry.
use shinran.Prelude.{
  ◌≡◌, refl, sym, ap, ◌∙◌, Text, false, List, [], ◌∷◌, ◌++◌, map, append-nil, append_assoc, Result,
  success, failure, ◌and_then◌,
}
use shinran.Types.{Variable, MatchEffect, MatchCause, nothing, text, image}
use shinran.Config.Yaml.Match.{
  YamlVariable, YamlMatch, YamlError, unresolved_import, ErrorRecord, error_record, warn, Converted,
  Crates, try_convert_into_variable, try_convert_into_match, cause_of, uppercase_style_of,
  style_warnings, effect_of, finish_match, push_match,
}
use shinran.Config.Yaml.File.{
  Host, note_variable, convert_global_vars, note_match, convert_matches, note_import,
  resolve_import, resolve_each, full_path,
}
use shinran.Config.Yaml.Entries.{
  flat_map, variable_entry, variable_report, no_match, match_entry, import_entry, import_report,
}

abbrev pub joined : Converted → Converted → Converted
joined s t = record {
  trigger_matches = s.trigger_matches ++ t.trigger_matches;
  regex_matches = s.regex_matches ++ t.regex_matches;
  non_fatal_errors = s.non_fatal_errors ++ t.non_fatal_errors;
}

joined-no_match : (s : Converted) → joined s no_match ≡ s
joined-no_match s =
    rw (append-nil s.trigger_matches, append-nil s.regex_matches, append-nil s.non_fatal_errors)
      refl

joined_assoc : (s t u : Converted) → joined (joined s t) u ≡ joined s (joined t u)
joined_assoc s t u = simp append_assoc

note_failure :
    (e : YamlError) (s : Converted)
    → note_match (failure e) s ≡ joined s (note_match (failure e) no_match)
note_failure e s = rw (append-nil s.trigger_matches, append-nil s.regex_matches) refl

finish_match-joined :
    (m : YamlMatch) (ws : List YamlError) (cause : MatchCause) (effect : MatchEffect)
    (s : Converted)
    → note_match (finish_match m ws cause effect s) s
      ≡ joined s (note_match (finish_match m ws cause effect no_match) no_match)
unfolding finish_match push_match
finish_match-joined m ws cause nothing s = note_failure _ s
finish_match-joined m ws (MatchCause.regex r) (text t) s = rw (append-nil s.trigger_matches) refl
finish_match-joined m ws (MatchCause.regex r) (image p) s = rw (append-nil s.trigger_matches) refl
finish_match-joined m ws (MatchCause.trigger c) (text t) s = rw (append-nil s.regex_matches) refl
finish_match-joined m ws (MatchCause.trigger c) (image p) s = rw (append-nil s.regex_matches) refl

match_parts-joined :
    (m : YamlMatch) (ws : List YamlError) (cause : Result YamlError MatchCause)
    (effect : Result YamlError (MatchEffect × List YamlError)) (s : Converted)
    → let convert = λ (s : Converted).
      cause and_then λ c. effect and_then λ e. finish_match m (ws ++ e.1) c e.0 s in
      note_match (convert s) s ≡ joined s (note_match (convert no_match) no_match)
match_parts-joined m ws (failure x) effect s = note_failure x s
match_parts-joined m ws (success c) (failure x) s = note_failure x s
match_parts-joined m ws (success c) (success (effect, warnings)) s =
    finish_match-joined m (ws ++ warnings) c effect s

noted-entry :
    (r : Result YamlError Converted)
    → note_match r no_match ≡ elim r [
      | success s ↦ s
      | failure e ↦ record no_match { non_fatal_errors = error_record e ∷ [] }
    ]
noted-entry (success s) = refl
noted-entry (failure e) = refl

noted_match-joined :
    (crates : Crates) (m : YamlMatch) (s : Converted)
    → note_match (try_convert_into_match crates m s) s
      ≡ joined s (note_match (try_convert_into_match crates m no_match) no_match)
unfolding try_convert_into_match
noted_match-joined crates m s =
    match_parts-joined m
      (style_warnings m.uppercase_style m.propagate_case
        ++ (uppercase_style_of m.uppercase_style).1)
      (cause_of m (uppercase_style_of m.uppercase_style).0) (effect_of crates m) s

match-joined :
    (crates : Crates) (m : YamlMatch) (s : Converted)
    → note_match (try_convert_into_match crates m s) s ≡ joined s (match_entry crates m)
match-joined crates m s =
    noted_match-joined crates m s
    ∙ ap (joined s) (noted-entry (try_convert_into_match crates m no_match))

abbrev pub all_matches : Crates → List YamlMatch → Converted
all_matches crates ms = record {
  trigger_matches = flat_map (λ m. (match_entry crates m).trigger_matches) ms;
  regex_matches = flat_map (λ m. (match_entry crates m).regex_matches) ms;
  non_fatal_errors = flat_map (λ m. (match_entry crates m).non_fatal_errors) ms;
}

pub convert_matches-joined :
    (crates : Crates) (ms : List YamlMatch) (s : Converted)
    → convert_matches crates ms s ≡ joined s (all_matches crates ms)
unfolding convert_matches
convert_matches-joined crates [] s = sym (joined-no_match s)
convert_matches-joined crates (m ∷ ms) s =
    convert_matches-joined crates ms (note_match (try_convert_into_match crates m s) s)
    ∙ ap (λ t. joined t (all_matches crates ms)) (match-joined crates m s)
    ∙ joined_assoc s (match_entry crates m) (all_matches crates ms)

-- The variables and errors, or the paths and errors, of two parts
abbrev appended :
    {A : Type 0} → List A × List ErrorRecord → List A × List ErrorRecord → List A × List ErrorRecord
appended s t = (s.0 ++ t.0, s.1 ++ t.1)

appended_assoc :
    {A : Type 0} (s t u : List A × List ErrorRecord)
    → appended (appended s t) u ≡ appended s (appended t u)
appended_assoc s t u = simp append_assoc

appended-nil : {A : Type 0} (s : List A × List ErrorRecord) → appended s ([], []) ≡ s
appended-nil (xs, errors) = rw (append-nil xs, append-nil errors) refl

noted_variable :
    (r : Result YamlError (Variable × List YamlError)) (s : List Variable × List ErrorRecord)
    → note_variable r s
      ≡ appended s (
        elim r [ success (var, warnings) ↦ var ∷ [] | failure e ↦ [] ],
        elim r [ success (var, warnings) ↦ map warn warnings | failure e ↦ error_record e ∷ [] ],
      )
noted_variable (success (var, warnings)) (vars, errors) = refl
noted_variable (failure e) (vars, errors) = rw (append-nil vars) refl

noted_import :
    (r : Result Text Text) (s : List Text × List ErrorRecord)
    → note_import r s
      ≡ appended s (
        elim r [ success resolved ↦ resolved ∷ [] | failure unresolved ↦ [] ],
        elim r [
          | success resolved ↦ []
          | failure unresolved ↦ error_record (unresolved_import unresolved) ∷ []
        ],
      )
noted_import (success path) (paths, errors) = rw (append-nil errors) refl
noted_import (failure path) (paths, errors) = rw (append-nil paths) refl

pub convert_global_vars-appended :
    (vs : List YamlVariable) (s : List Variable × List ErrorRecord)
    → convert_global_vars vs s
      ≡ appended s (flat_map variable_entry vs, flat_map variable_report vs)
unfolding convert_global_vars
convert_global_vars-appended [] s = sym (appended-nil s)
convert_global_vars-appended (v ∷ vs) s =
    let rest : List Variable × List ErrorRecord =
      (flat_map variable_entry vs, flat_map variable_report vs) in
    convert_global_vars-appended vs (note_variable (try_convert_into_variable v false) s)
    ∙ ap (λ t. appended t rest) (noted_variable (try_convert_into_variable v false) s)
    ∙ appended_assoc s (variable_entry v, variable_report v) rest

pub resolve_each-appended :
    (host : Host) (dir : Text) (paths : List Text) (s : List Text × List ErrorRecord)
    → resolve_each host dir paths s
      ≡ appended s (flat_map (import_entry host dir) paths, flat_map (import_report host dir) paths)
unfolding resolve_each
resolve_each-appended host dir [] s = sym (appended-nil s)
resolve_each-appended host dir (path ∷ paths) s =
    let rest : List Text × List ErrorRecord =
      (flat_map (import_entry host dir) paths, flat_map (import_report host dir) paths) in
    let r = resolve_import host (full_path host dir path) in
    resolve_each-appended host dir paths (note_import r s)
    ∙ ap (λ t. appended t rest) (noted_import r s)
    ∙ appended_assoc s (import_entry host dir path, import_report host dir path) rest
