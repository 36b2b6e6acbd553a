-- ===== src/Render/Extension/Script.antt =====
-- crates/shinran_render/src/extension/script.rs: a script as a variable.
use shinran.Prelude.{
  Text, text_key, codes, Bool, true, false, not, ◌&&◌, ◌||◌, Option, none, some, List, [], ◌∷◌,
  ◌++◌, if◌then◌else◌, map,
}
use shinran.Prelude.Whitespace.{trim}
use shinran.Types.{string, array, Values, nil, cons, Params}
use shinran.Types.Params.{get}
use shinran.Render.{ExtensionResult, Scope}
use shinran.Render.Casing.{Unicode}
use shinran.Render.Util.{replace}
use shinran.Render.Extension.{
  TargetOs, windows, Command, Ran, finished, failed, set_env, set_all, report, get_bool,
  trim_output, convert_to_env_variables,
}

-- `filter_map(|arg| arg.as_string()).cloned()`
unfoldable pub strings_of : Values → List Text
strings_of nil = []
strings_of (cons (string s) values) = s ∷ strings_of values
strings_of (cons value values) = strings_of values

-- What the extension works with. `on_disk` is a path that exists as the file system writes it.
pub record Host : Type 0 where
  pub target_os : TargetOs
  pub unicode : Unicode
  pub output : Command → Ran
  pub on_disk : Text → Option Text
  pub home_path : Text
  pub config_path : Text
  pub packages_path : Text

module _ (host : Host) where
  -- A text without the pattern is left as it is by `replace`.
  unfoldable pub replace_paths : Text → Text
  replace_paths arg =
      replace (codes "%PACKAGES%") host.packages_path
        (replace (codes "%CONFIG%") host.config_path (replace (codes "%HOME%") host.home_path arg))

  unfoldable pub correct_path : Text → Text
  correct_path arg = elim host.target_os [
    | windows ↦ elim (host.on_disk arg) [ some path ↦ path | none ↦ arg ]
    | _ ↦ arg
  ]

  unfoldable pub script_args : List Text → List Text
  script_args args = map (λ arg. correct_path (replace_paths arg)) args

  unfoldable pub script_command : Text → List Text → Scope → Command
  script_command program args scope = set_all (convert_to_env_variables host.unicode scope) (
      set_env (codes "CONFIG") host.config_path
        (record { program = program; args = args; env = [] }))

abbrev pub is_blank : Text → Bool
is_blank s = elim (trim s) [ [] ↦ true | c ∷ rest ↦ false ]

-- What becomes of the process.
unfoldable pub script_result : Text → Params → Ran → ExtensionResult
script_result program params (failed e) = report (
    codes "could not execute script: '`"
    ++ (program ++ (codes "`', error: '`" ++ (e ++ codes "`'"))))
script_result program params (finished output) =
    if (not output.is_success || not (is_blank output.stderr))
      && not (get_bool (codes "ignore_error") false params)
    then report (codes "script reported error: '`" ++ (output.stderr ++ codes "`'"))
    else trim_output params output.stdout

module _ (host : Host) where
  -- `args[0]` panics without an argument.
  unfoldable pub run_script : List Text → Scope → Params → Option ExtensionResult
  run_script [] scope params = none
  run_script (program ∷ args) scope params =
      some (script_result program params (host.output (script_command host program args scope)))

  -- `ScriptExtension::calculate`; `none` is a panic.
  unfoldable pub calculate_script : Scope → Params → Option ExtensionResult
  calculate_script scope params = elim (get (codes "args") params) [
    | some (array values) ↦ run_script (script_args host (strings_of values)) scope params
    | _ ↦ some (report (codes "missing 'args' parameter"))
  ]
