-- ===== src/Render/Extension/Tests.antt =====
-- Commands of the extensions of crates/shinran_render/src/extension/ on concrete scopes.
use shinran.Prelude.{◌≡◌, refl, text_key, text_eq, codes, true, none, some, [], ◌∷◌}
use shinran.Prelude.Dict.{lookup}
use shinran.Prelude.Whitespace.{trim, trim_start, trim_end}
use shinran.Types.{array, Values, Fields, field, bool}
use shinran.Types.Params
use shinran.Render.{Scope, single, multiple}
use shinran.Render.Tests.{sample_unicode}
use shinran.Render.Extension.{macos, linux, finished, failed}
use shinran.Render.Extension.Shell
use shinran.Render.Extension.Shell.{execute_cmd, env_variables}
use shinran.Render.Extension.Script
use shinran.Render.Extension.Script.{
  script_command, calculate_script, run_script, script_args, strings_of,
}
use shinran.Render.Extension.Environment.{config, config_reaches_process}

abbrev scope : Scope
scope =
    (codes "var1", single (codes "hello"))
    ∷ (codes "form1", multiple ((codes "name", codes "John") ∷ []))
    ∷ []

abbrev shell_host : Shell.Host
shell_host = record {
  target_os = macos;
  unicode = sample_unicode;
  output = λ command. finished (record { is_success = true; stdout = codes "/bin\n"; stderr = [] });
  user_shell = λ s. none;
  config_path = codes "/config";
}

abbrev script_host : Script.Host
script_host = record {
  target_os = linux;
  unicode = sample_unicode;
  output = λ command. failed (codes "not found");
  on_disk = λ path. none;
  home_path = codes "/home";
  config_path = codes "/config";
  packages_path = codes "/packages";
}

config_reaches_process_example :
    (lookup config
        (execute_cmd shell_host Shell.wsl (codes "env") (env_variables shell_host scope) true).env
      ≡ some (codes "/config"))
    × (lookup config (script_command script_host (codes "env") [] scope).env
        ≡ some (codes "/config"))
config_reaches_process_example =
    config_reaches_process shell_host script_host scope Shell.wsl (codes "env") (codes "env") []
      true

-- Arguments that are no texts leave no program to run: `args[0]` panics.
script_without_texts :
    calculate_script script_host scope
      (field (codes "args") (array (Values.cons (bool true) Values.nil)) Fields.end)
    ≡ none
unfolding calculate_script run_script script_args strings_of Params.get text_eq
script_without_texts = refl

trims : trim (codes " hello world\n") ≡ codes "hello world"
unfolding trim trim_start trim_end
trims = refl
