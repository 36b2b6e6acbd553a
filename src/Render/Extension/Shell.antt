-- ===== src/Render/Extension/Shell.antt =====
-- crates/shinran_render/src/extension/shell.rs and exec_util.rs: a shell command as a variable.
use shinran.Prelude.{
  Text, text_key, literal, codes, Bool, true, false, ◌&&◌, Option, none, some, List, [], ◌∷◌, ◌++◌,
  or_else, if◌then◌else◌, map, nat_eq,
}
use shinran.Prelude.Dict.{Map, insert, keys}
use shinran.Prelude.Whitespace.{trim, reverse_onto}
use shinran.Types.{Value, string, Params}
use shinran.Types.Params.{get}
use shinran.Render.{ExtensionResult, Scope}
use shinran.Render.Casing.{Unicode}
use shinran.Render.Extension.{
  TargetOs, windows, macos, linux, other, Command, Ran, finished, failed, set_env, set_all, report,
  get_bool, trim_output, convert_to_env_variables,
}

pub data Shell : Type 0 where
  bash cmd nu powershell pwsh sh wsl wsl2 zsh : Shell

pub data MacShell : Type 0 where
  bash nu pwsh sh zsh : MacShell

unfoldable pub from_string : Text → Option Shell
from_string shell =
    if literal shell "bash"
    then some Shell.bash
    else if literal shell "cmd"
    then some cmd
    else if literal shell "nu"
    then some Shell.nu
    else if literal shell "powershell"
    then some powershell
    else if literal shell "pwsh"
    then some Shell.pwsh
    else if literal shell "sh"
    then some Shell.sh
    else if literal shell "wsl"
    then some wsl
    else if literal shell "wsl2"
    then some wsl2
    else if literal shell "zsh"
    then some Shell.zsh
    else none

abbrev pub command : Text → List Text → Command
command program args = record { program = program; args = args; env = [] }

-- The program of a shell with its arguments
unfoldable pub shell_command : Shell → Text → Command
shell_command Shell.bash script = command (codes "bash") (codes "-c" ∷ script ∷ [])
shell_command cmd script = command (codes "cmd") (codes "/C" ∷ script ∷ [])
shell_command Shell.nu script = command (codes "nu") (codes "--commands" ∷ script ∷ [])
shell_command powershell script = command (codes "powershell") (codes "-Command" ∷ script ∷ [])
shell_command Shell.pwsh script = command (codes "pwsh") (codes "-Command" ∷ script ∷ [])
shell_command Shell.sh script = command (codes "sh") (codes "-c" ∷ script ∷ [])
shell_command wsl script = command (codes "bash") (codes "-c" ∷ script ∷ [])
shell_command wsl2 script = command (codes "wsl") (codes "bash" ∷ codes "-c" ∷ script ∷ [])
shell_command Shell.zsh script = command (codes "zsh") (codes "-c" ∷ script ∷ [])

abbrev pub is_wsl : Shell → Bool
is_wsl wsl = true
is_wsl wsl2 = true
is_wsl _ = false

abbrev pub supported_mac_shell : Shell → Option MacShell
supported_mac_shell Shell.bash = some MacShell.bash
supported_mac_shell Shell.nu = some MacShell.nu
supported_mac_shell Shell.pwsh = some MacShell.pwsh
supported_mac_shell Shell.sh = some MacShell.sh
supported_mac_shell Shell.zsh = some MacShell.zsh
supported_mac_shell _ = none

-- `tokens.join(":")`
abbrev pub join_tokens : Text → List Text → Text
join_tokens first [] = first
join_tokens first (token ∷ rest) = first ++ (codes ":" ++ join_tokens token rest)

abbrev pub set_wsl_env : Bool → Map Text Text → Command → Command
set_wsl_env true vars c = set_env (codes "WSLENV") (join_tokens (codes "CONFIG/p") (keys vars)) c
set_wsl_env false vars c = c

-- How a login shell prints its PATH.
unfoldable pub path_command : MacShell → Command
path_command MacShell.bash =
    command (codes "bash") (map codes ("--login" ∷ "-c" ∷ "source ~/.bashrc; echo $PATH" ∷ []))
path_command MacShell.nu = command (codes "nu") (map codes ("--login" ∷ "-c" ∷ "$env.PATH" ∷ []))
path_command MacShell.pwsh = command (codes "pwsh") (
    map codes (
      "-Login" ∷ "-Command" ∷ "if(Test-Path \"$PROFILE\") { . \"$PROFILE\" }; Write-Host $env:PATH"
      ∷ []))
path_command MacShell.sh = command (codes "sh") (map codes ("--login" ∷ "-c" ∷ "echo $PATH" ∷ []))
path_command MacShell.zsh =
    command (codes "zsh") (map codes ("--login" ∷ "-c" ∷ "source ~/.zshrc; echo $PATH" ∷ []))

abbrev pub dscl_command : Command
dscl_command =
    command (codes "sh") (map codes ("--login" ∷ "-c" ∷ "dscl . -read ~/ UserShell" ∷ []))

-- `str::ends_with` on the text and the suffix, both back to front
abbrev pub is_prefix : Text → Text → Bool
is_prefix [] s = true
is_prefix (c ∷ p) [] = false
is_prefix (c ∷ p) (d ∷ s) = nat_eq c d && is_prefix p s

abbrev pub ends_with : Text → Text → Bool
ends_with suffix s = is_prefix (reverse_onto suffix []) (reverse_onto s [])

unfoldable pub mac_shell_of : Text → Option MacShell
mac_shell_of shell =
    if ends_with (codes "/bash") shell
    then some MacShell.bash
    else if ends_with (codes "/nu") shell
    then some MacShell.nu
    else if ends_with (codes "/pwsh") shell
    then some MacShell.pwsh
    else if ends_with (codes "/sh") shell
    then some MacShell.sh
    else if ends_with (codes "/zsh") shell
    then some MacShell.zsh
    else none

unfoldable pub shell_of : Option MacShell → Shell
shell_of (some MacShell.bash) = Shell.bash
shell_of (some MacShell.nu) = Shell.nu
shell_of (some MacShell.pwsh) = Shell.pwsh
shell_of (some MacShell.sh) = Shell.sh
shell_of (some MacShell.zsh) = Shell.zsh
shell_of none = Shell.sh

-- What the extensions work with: `user_shell` is the first group of EXTRACT_SHELL_REGEX in a text.
pub record Host : Type 0 where
  pub target_os : TargetOs
  pub unicode : Unicode
  pub output : Command → Ran
  pub user_shell : Text → Option Text
  pub config_path : Text

module _ (host : Host) where
  -- `.output().ok()?`, and `None` unless the process succeeded
  unfoldable pub launch_command_and_get_output : Command → Option Text
  launch_command_and_get_output c = elim (host.output c) [
    | failed e ↦ none
    | finished output ↦ if output.is_success then some output.stdout else none
  ]

  unfoldable pub login_shell : Option MacShell
  login_shell = elim (launch_command_and_get_output dscl_command) [
    | none ↦ none
    | some output_str ↦ elim (host.user_shell (trim output_str)) [
      | none ↦ none
      | some shell ↦ mac_shell_of (trim shell)
    ]
  ]

  unfoldable pub determine_default_macos_shell : Option MacShell
  determine_default_macos_shell = elim host.target_os [ macos ↦ login_shell | _ ↦ none ]

  unfoldable pub path_of : Option MacShell → Option Text
  path_of none = none
  path_of (some shell) = launch_command_and_get_output (path_command shell)

  unfoldable pub determine_path_env_variable_override : Option MacShell → Option Text
  determine_path_env_variable_override explicit_shell = elim host.target_os [
    | macos ↦ path_of (or_else explicit_shell determine_default_macos_shell)
    | _ ↦ none
  ]

  -- `Shell::default`; `none` is its panic.
  unfoldable pub default_shell : Option Shell
  default_shell = elim host.target_os [
    | windows ↦ some powershell
    | macos ↦ some (shell_of determine_default_macos_shell)
    | linux ↦ some Shell.bash
    | other ↦ none
  ]

  abbrev pub set_path : Option Text → Command → Command
  set_path (some path) c = set_env (codes "PATH") path c
  set_path none c = c

  -- The override is asked for on macOS only.
  unfoldable pub override_path : Bool → Shell → Command → Command
  override_path false shell c = c
  override_path true shell c =
      set_path (determine_path_env_variable_override (supported_mac_shell shell)) c

  unfoldable pub execute_cmd : Shell → Text → Map Text Text → Bool → Command
  execute_cmd shell script vars override_path_on_macos =
      set_wsl_env (is_wsl shell) vars
        (override_path override_path_on_macos shell (set_all vars (shell_command shell script)))

  unfoldable pub env_variables : Scope → Map Text Text
  env_variables scope =
      insert (codes "CONFIG") host.config_path (convert_to_env_variables host.unicode scope)

  -- What becomes of the process.
  unfoldable pub shell_result : Text → Params → Ran → ExtensionResult
  shell_result script params (failed e) = report (
      codes "could not execute command: '`"
      ++ (script ++ (codes "`', error: '`" ++ (e ++ codes "`'"))))
  shell_result script params (finished output) =
      if output.is_success
      then trim_output params output.stdout
      else report (codes "command reported error: '`" ++ (output.stderr ++ codes "`'"))

  unfoldable pub run_shell : Text → Scope → Params → Shell → ExtensionResult
  run_shell script scope params shell = shell_result script params (
      host.output (
        execute_cmd shell script (env_variables scope)
          (get_bool (codes "macos_override_path") true params)))

  unfoldable pub run_default : Text → Scope → Params → Option ExtensionResult
  run_default script scope params = elim default_shell [
    | none ↦ none
    | some shell ↦ some (run_shell script scope params shell)
  ]

  unfoldable pub run_with : Text → Scope → Params → Option Value → Option ExtensionResult
  run_with script scope params (some (string shell_param)) = elim (from_string shell_param) [
    | some shell ↦ some (run_shell script scope params shell)
    | none ↦
        some (report (codes "invalid shell: `" ++ (shell_param ++ codes "` is not a valid one")))
  ]
  run_with script scope params _ = run_default script scope params

  -- `ShellExtension::calculate`; `none` is a panic.
  unfoldable pub calculate_shell : Scope → Params → Option ExtensionResult
  calculate_shell scope params = elim (get (codes "cmd") params) [
    | some (string script) ↦ run_with script scope params (get (codes "shell") params)
    | _ ↦ some (report (codes "missing 'cmd' parameter"))
  ]
