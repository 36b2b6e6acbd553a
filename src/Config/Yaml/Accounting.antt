-- ===== src/Config/Yaml/Accounting.antt =====
-- How many entries of a YAML match file are converted or reported by `YAMLImporter::load_file`
-- (crates/shinran_config/src/matches/group/loader/yaml/mod.rs).
use shinran.Prelude.{
  ℕ, suc, ◌+◌, ◌≡◌, refl, ap, subst, Text, false, Option, List, [], ◌∷◌, ◌++◌, map, length,
  length-append, arith, Result, success, failure, ◌and_then◌, unwrap_or,
}
use shinran.Types.{Variable, BaseMatch, MatchEffect, MatchCause, nothing, text, image}
use shinran.Config.Matches.{LoadedMatchFile}
use shinran.Config.Yaml.Match.{
  YamlVariable, YamlMatch, YamlMatchFile, YamlError, ErrorLevel, error, warning, unresolved_import,
  ErrorRecord, error_record, warn, Converted, Crates, try_convert_into_variable,
  try_convert_into_match, cause_of, uppercase_style_of, effect_of, finish_match, push_match,
  extend_errors,
}
use shinran.Config.Yaml.File.{
  Host, note_variable, convert_global_vars, note_match, convert_matches, note_import,
  resolve_import, resolve_each, resolve_paths, loaded_file, convert_file, error_set, current_dir,
  full_path,
}

abbrev pub errors_of : ErrorLevel → ℕ
errors_of error = 1
errors_of warning = 0

-- How many records are errors: the others are warnings.
unfoldable pub count_errors : List ErrorRecord → ℕ
count_errors [] = 0
count_errors (e ∷ errors) = errors_of e.level + count_errors errors

count_errors-append :
    (xs ys : List ErrorRecord) → count_errors (xs ++ ys) ≡ count_errors xs + count_errors ys
unfolding count_errors
count_errors-append [] ys = omega arith
count_errors-append (x ∷ xs) ys = omega (arith, count_errors-append xs ys)

count_errors-warn : (ws : List YamlError) → count_errors (map warn ws) ≡ 0
unfolding count_errors
count_errors-warn [] = refl
count_errors-warn (w ∷ ws) = omega (arith, count_errors-warn ws)

pub and_then-success :
    {E A B : Type 0} (r : Result E A) (f : A → Result E B) {b : B}
    → r and_then f ≡ success b
    → (a : A) × (r ≡ success a) × (f a ≡ success b)
and_then-success (success a) f e = (a, refl, e)
and_then-success (failure x) f e = ground (arith, e)

abbrev pub matches : Converted → ℕ
matches s = length s.trigger_matches + length s.regex_matches

-- One match more, and no error more.
record Grown (s s' : Converted) : Type 0 where
  one_match : matches s' ≡ suc (matches s)
  no_error : count_errors s'.non_fatal_errors ≡ count_errors s.non_fatal_errors

length-push : {A : Type 0} (xs : List A) (x : A) → length (xs ++ x ∷ []) ≡ suc (length xs)
length-push xs x = omega (arith, length-append xs (x ∷ []))

push_match-Grown :
    (base : BaseMatch) (cause : MatchCause) (s : Converted) → Grown s (push_match base cause s)
unfolding push_match
push_match-Grown base (MatchCause.regex regex) s = record {
  one_match = omega (arith, length-push s.regex_matches _);
  no_error = refl;
}
push_match-Grown base (MatchCause.trigger cause) s = record {
  one_match = omega (arith, length-push s.trigger_matches _);
  no_error = refl;
}

extend_errors-Grown :
    (ws : List YamlError) (s s' : Converted) → Grown s s' → Grown s (extend_errors ws s')
extend_errors-Grown ws s s' h = record {
  one_match = h.one_match;
  no_error = omega (
    arith,
    h.no_error,
    count_errors-append s'.non_fatal_errors (map warn ws),
    count_errors-warn ws,
  );
}

pub success-injective :
    {E A : Type 0} (a b : A) → ◌≡◌ {A = Result E A} (success a) (success b) → a ≡ b
success-injective a b e = cc

finish_match-Grown :
    (m : YamlMatch) (ws : List YamlError) (cause : MatchCause) (effect : MatchEffect)
    (s s' : Converted)
    → finish_match m ws cause effect s ≡ success s'
    → Grown s s'
unfolding finish_match
finish_match-Grown m ws cause nothing s s' e = ground (arith, e)
finish_match-Grown m ws cause (text t) s s' e =
    subst (Grown s) (success-injective _ s' e)
      (extend_errors-Grown ws s _ (push_match-Grown _ cause s))
finish_match-Grown m ws cause (image path) s s' e =
    subst (Grown s) (success-injective _ s' e)
      (extend_errors-Grown ws s _ (push_match-Grown _ cause s))

match-Grown :
    (crates : Crates) (m : YamlMatch) (s s' : Converted)
    → try_convert_into_match crates m s ≡ success s'
    → Grown s s'
unfolding try_convert_into_match
match-Grown crates m s s' e =
    let (cause, p, rest) =
      and_then-success (cause_of m (uppercase_style_of m.uppercase_style).0) _ e in
    let (effect, q, last) = and_then-success (effect_of crates m) _ rest in
    finish_match-Grown m _ cause effect.0 s s' last

note_match-accounts :
    (r : Result YamlError Converted) (s : Converted)
    → ((s' : Converted) → r ≡ success s' → Grown s s')
    → let s' = note_match r s in
      matches s' + count_errors s'.non_fatal_errors
      ≡ suc (matches s + count_errors s.non_fatal_errors)
unfolding count_errors
note_match-accounts (success s') s grown = omega (arith, grown s' refl)
note_match-accounts (failure e) s grown =
    omega (arith, count_errors-append s.non_fatal_errors (error_record e ∷ []))

convert_matches-accounts :
    (crates : Crates) (ms : List YamlMatch) (s : Converted)
    → let s' = convert_matches crates ms s in
      matches s' + count_errors s'.non_fatal_errors
      ≡ length ms + (matches s + count_errors s.non_fatal_errors)
unfolding convert_matches
convert_matches-accounts crates [] s = omega arith
convert_matches-accounts crates (m ∷ ms) s =
    let r = try_convert_into_match crates m s in
    omega (
      arith,
      convert_matches-accounts crates ms (note_match r s),
      note_match-accounts r s (λ s' e. match-Grown crates m s s' e),
    )

-- What the loops over variables and imports count.
abbrev total : {A : Type 0} → List A × List ErrorRecord → ℕ
total s = length s.0 + count_errors s.1

note_variable-accounts :
    (r : Result YamlError (Variable × List YamlError)) (s : List Variable × List ErrorRecord)
    → total (note_variable r s) ≡ suc (total s)
unfolding count_errors
note_variable-accounts (success (var, warnings)) (vars, errors) = omega (
  arith,
  length-push vars var,
  count_errors-append errors (map warn warnings),
  count_errors-warn warnings,
)
note_variable-accounts (failure e) (vars, errors) =
    omega (arith, count_errors-append errors (error_record e ∷ []))

convert_global_vars-accounts :
    (vs : List YamlVariable) (s : List Variable × List ErrorRecord)
    → total (convert_global_vars vs s) ≡ length vs + total s
unfolding convert_global_vars
convert_global_vars-accounts [] s = omega arith
convert_global_vars-accounts (v ∷ vs) s =
    let r = try_convert_into_variable v false in
    omega (arith, convert_global_vars-accounts vs (note_variable r s), note_variable-accounts r s)

note_import-accounts :
    (r : Result Text Text) (s : List Text × List ErrorRecord)
    → total (note_import r s) ≡ suc (total s)
unfolding count_errors
note_import-accounts (success path) (paths, errors) = omega (arith, length-push paths path)
note_import-accounts (failure path) (paths, errors) =
    omega (arith, count_errors-append errors (error_record (unresolved_import path) ∷ []))

resolve_each-accounts :
    (host : Host) (dir : Text) (paths : List Text) (s : List Text × List ErrorRecord)
    → total (resolve_each host dir paths s) ≡ length paths + total s
unfolding resolve_each
resolve_each-accounts host dir [] s = omega arith
resolve_each-accounts host dir (path ∷ paths) s =
    let r = resolve_import host (full_path host dir path) in
    omega (arith, resolve_each-accounts host dir paths (note_import r s), note_import-accounts r s)

resolve_paths-accounts :
    (host : Host) (path : Text) (paths : List Text) (r : List Text × List ErrorRecord)
    → resolve_paths host path paths ≡ success r
    → total r ≡ length paths
unfolding resolve_paths count_errors
resolve_paths-accounts host path paths r e =
    let (dir, p, rest) = and_then-success (current_dir host path) _ e in
    omega
      (arith, resolve_each-accounts host dir paths ([], []), ap total (success-injective _ r rest))

error_set-unwrap_or : (errors : List ErrorRecord) → unwrap_or (error_set errors) [] ≡ errors
error_set-unwrap_or [] = refl
error_set-unwrap_or (e ∷ errors) = refl

-- What a file gives: its global variables, its matches and its imports.
abbrev pub entries : LoadedMatchFile → ℕ
entries loaded =
    length loaded.content.global_vars
    + (length loaded.content.trigger_matches + length loaded.content.regex_matches)
    + length loaded.import_paths

abbrev pub yaml_entries : YamlMatchFile → ℕ
yaml_entries file =
    length (unwrap_or file.global_vars [])
    + length (unwrap_or file.matches [])
    + length (unwrap_or file.imports [])

-- The entries of the result and the errors (warnings not counted) are as many as the entries of
-- the file.
pub convert_file-accounts :
    (host : Host) (path : Text) (file : YamlMatchFile) (loaded : LoadedMatchFile)
    (errors : Option (List ErrorRecord))
    → convert_file host path file ≡ success (loaded, errors)
    → entries loaded + count_errors (unwrap_or errors []) ≡ yaml_entries file
unfolding convert_file loaded_file count_errors
convert_file-accounts host path file loaded errors e =
    let vars = convert_global_vars (unwrap_or file.global_vars []) ([], []) in
    let start : Converted = record {
      trigger_matches = [];
      regex_matches = [];
      non_fatal_errors = vars.1;
    } in
    let s = convert_matches host.crates (unwrap_or file.matches []) start in
    let (imports, p, rest) =
      and_then-success (resolve_paths host path (unwrap_or file.imports [])) _ e in
    let same = success-injective (loaded_file path vars.0 s imports) (loaded, errors) rest in
    subst
      (λ (r : LoadedMatchFile × Option (List ErrorRecord)).
        entries r.0 + count_errors (unwrap_or r.1 []) ≡ yaml_entries file)
      same
      (omega (
        arith,
        convert_global_vars-accounts (unwrap_or file.global_vars []) ([], []),
        convert_matches-accounts host.crates (unwrap_or file.matches []) start,
        resolve_paths-accounts host path (unwrap_or file.imports []) imports p,
        ap count_errors (error_set-unwrap_or (s.non_fatal_errors ++ imports.1)),
        count_errors-append s.non_fatal_errors imports.1,
      ))
