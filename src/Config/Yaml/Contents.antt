-- ===== src/Config/Yaml/Contents.antt =====
-- What `YAMLImporter::load_file` (crates/shinran_config/src/matches/group/loader/yaml/mod.rs) makes of a file,
-- told entry by entry: each global variable, match and import is converted by itself.
use shinran.Prelude.{◌+◌, ◌≡◌, sym, ap, ◌∙◌, Text, Option, List, [], success, unwrap_or}
use shinran.Types.{Variable}
use shinran.Config.Matches.{LoadedMatchFile}
use shinran.Config.Yaml.Match.{YamlMatchFile, ErrorRecord, Converted}
use shinran.Config.Yaml.File.{
  Host, convert_global_vars, convert_matches, resolve_paths, loaded_file, convert_file, error_set,
  current_dir,
}
use shinran.Config.Yaml.Accounting.{
  and_then-success, success-injective, count_errors, entries, yaml_entries, convert_file-accounts,
}
use shinran.Config.Yaml.Entries.{
  flat_map, variable_entry, variable_report, import_entry, import_report, contents, reports,
}
use shinran.Config.Yaml.Loops.{
  convert_matches-joined, convert_global_vars-appended, resolve_each-appended,
}

resolve_paths-contents :
    (host : Host) (path : Text) (paths : List Text) (r : List Text × List ErrorRecord)
    → resolve_paths host path paths ≡ success r
    → (dir : Text) × (current_dir host path ≡ success dir)
      × (r ≡ (flat_map (import_entry host dir) paths, flat_map (import_report host dir) paths))
unfolding resolve_paths
resolve_paths-contents host path paths r e =
    let (dir, p, rest) = and_then-success (current_dir host path) _ e in
    (dir, p, sym (success-injective _ r rest) ∙ resolve_each-appended host dir paths ([], []))

-- What is there and what is reported of the file
abbrev converted :
    Host → (dir path : Text) → YamlMatchFile → LoadedMatchFile × Option (List ErrorRecord)
converted host dir path file = (contents host dir path file, error_set (reports host dir file))

contents-of :
    (host : Host) (path : Text) (file : YamlMatchFile)
    (r : LoadedMatchFile × Option (List ErrorRecord))
    → convert_file host path file ≡ success r
    → (dir : Text) × (current_dir host path ≡ success dir) × (r ≡ converted host dir path file)
unfolding convert_file loaded_file
contents-of host path file r e =
    let vs = unwrap_or file.global_vars [] in
    let ms = unwrap_or file.matches [] in
    let paths = unwrap_or file.imports [] in
    let start : List Variable × List ErrorRecord → Converted =
      λ vars. record { trigger_matches = []; regex_matches = []; non_fatal_errors = vars.1 } in
    let made : List Variable × List ErrorRecord
        → List Text × List ErrorRecord
        → LoadedMatchFile × Option (List ErrorRecord) =
      λ vars imports.
        loaded_file path vars.0 (convert_matches host.crates ms (start vars)) imports in
    let all : List Variable × List ErrorRecord =
      (flat_map variable_entry vs, flat_map variable_report vs) in
    let (imports, p, rest) = and_then-success (resolve_paths host path paths) _ e in
    let (dir, q, same) = resolve_paths-contents host path paths imports p in
    (
      dir,
      q,
      sym (success-injective (made (convert_global_vars vs ([], [])) imports) r rest)
          ∙ ap (λ vars. made vars imports) (convert_global_vars-appended vs ([], []))
          ∙ ap (made all) same
          ∙ ap
              (λ s.
                loaded_file path all.0 s
                  (flat_map (import_entry host dir) paths, flat_map (import_report host dir) paths))
              (convert_matches-joined host.crates ms (start all)),
    )

-- When a parsed file is converted, the file that is loaded holds, in the order of the file, what
-- the conversion of each global variable, match and import by itself gives, the imports resolved
-- in the directory of the path. The errors that are reported are, in that order, those of each by
-- itself. And no entry of the file is lost: the entries of the result and the errors (warnings not
-- counted) are as many as the entries of the file.
pub convert_file-contents :
    (host : Host) (path : Text) (file : YamlMatchFile) (loaded : LoadedMatchFile)
    (errors : Option (List ErrorRecord))
    → convert_file host path file ≡ success (loaded, errors)
    → (dir : Text) × (current_dir host path ≡ success dir)
      × (loaded ≡ contents host dir path file)
      × (errors ≡ error_set (reports host dir file))
      × (entries loaded + count_errors (unwrap_or errors []) ≡ yaml_entries file)
convert_file-contents host path file loaded errors e =
    let (dir, p, same) = contents-of host path file (loaded, errors) e in
    (
      dir,
      p,
      ap (λ (r : LoadedMatchFile × Option (List ErrorRecord)). r.0) same,
      ap (λ (r : LoadedMatchFile × Option (List ErrorRecord)). r.1) same,
      convert_file-accounts host path file loaded errors e,
    )
