-- ===== src/Render/Extension/Environment.antt =====
-- The environment that the extensions of crates/shinran_render/src/extension/ (shell.rs, script.rs,
-- util.rs) give to a process.
use shinran.Prelude.{
  ◌≡◌, refl, ◌∙◌, Text, text_key, text_eq, codes, Bool, true, false, Option, none, some, List, [],
  ◌∷◌, arith,
}
use shinran.Prelude.Dict.{Map, lookup, insert, lookup-insert, lookup-insert_self}
use shinran.Render.{Scope, single, multiple}
use shinran.Render.Casing.{Unicode}
use shinran.Render.Extension.{
  Command, set_env, set_all, insert_values, insert_scope, convert_to_env_variables,
}
use shinran.Render.Extension.Shell
use shinran.Render.Extension.Shell.{
  is_wsl, set_wsl_env, set_path, override_path, execute_cmd, env_variables, shell_command,
  determine_path_env_variable_override, supported_mac_shell,
}
use shinran.Render.Extension.Script
use shinran.Render.Extension.Script.{script_command}

abbrev pub config : Text
config = codes "CONFIG"

-- A variable of another name leaves what a name stands for.
lookup-insert_other :
    (k j : Text) (v : Text) (env : Map Text Text)
    → text_eq j k ≡ false
    → lookup k (insert j v env) ≡ lookup k env
lookup-insert_other k j v env h = ground (arith, lookup-insert j k v env, h)

lookup-set_all :
    (k : Text) (vars : Map Text Text) (c : Command)
    → lookup k vars ≡ none
    → lookup k (set_all vars c).env ≡ lookup k c.env
unfolding set_all lookup
lookup-set_all k [] c h = refl
lookup-set_all k ((j, v) ∷ vars) c h =
    ground (arith, lookup-set_all k vars (set_env j v c), lookup-insert_other k j v c.env, h)

-- A variable that is added to others of other names is set last.
lookup-set_all-insert :
    (k v : Text) (vars : Map Text Text) (c : Command)
    → lookup k vars ≡ none
    → lookup k (set_all (insert k v vars) c).env ≡ some v
unfolding set_all lookup insert
lookup-set_all-insert k v [] c h = lookup-insert_self k v c.env
lookup-set_all-insert k v ((j, w) ∷ vars) c h =
    ground (arith, lookup-set_all-insert k v vars (set_env j w c), h)

module _ (unicode : Unicode) where
  insert_values-config :
      (key : Text) (values env : Map Text Text)
      → lookup config (insert_values unicode key values env) ≡ lookup config env
  unfolding insert_values text_eq
  insert_values-config key [] env = refl
  insert_values-config key ((sub_key, sub_value) ∷ values) env =
      insert_values-config key values _ ∙ lookup-insert_other config _ sub_value env refl

  insert_scope-config :
      (scope : Scope) (env : Map Text Text)
      → lookup config (insert_scope unicode scope env) ≡ lookup config env
  unfolding insert_scope text_eq
  insert_scope-config [] env = refl
  insert_scope-config ((key, single value) ∷ scope) env =
      insert_scope-config scope _ ∙ lookup-insert_other config _ value env refl
  insert_scope-config ((key, multiple values) ∷ scope) env =
      insert_scope-config scope _ ∙ insert_values-config key values env

  no_config : (scope : Scope) → lookup config (convert_to_env_variables unicode scope) ≡ none
  unfolding convert_to_env_variables lookup
  no_config scope = insert_scope-config scope []

set_wsl_env-config :
    (wsl : Bool) (vars : Map Text Text) (c : Command)
    → lookup config (set_wsl_env wsl vars c).env ≡ lookup config c.env
unfolding text_eq
set_wsl_env-config true vars c = lookup-insert_other config _ _ c.env refl
set_wsl_env-config false vars c = refl

set_path-config :
    (host : Shell.Host) (path : Option Text) (c : Command)
    → lookup config (set_path host path c).env ≡ lookup config c.env
unfolding text_eq
set_path-config host (some path) c = lookup-insert_other config _ path c.env refl
set_path-config host none c = refl

override_path-config :
    (host : Shell.Host) (flag : Bool) (shell : Shell.Shell) (c : Command)
    → lookup config (override_path host flag shell c).env ≡ lookup config c.env
unfolding override_path
override_path-config host false shell c = refl
override_path-config host true shell c =
    set_path-config host (determine_path_env_variable_override host (supported_mac_shell shell)) c

-- Whatever the variables are named, a process of a shell or of a script finds in CONFIG the path of
-- the configuration: on every system, in every shell, and also with the overridden PATH.
pub config_reaches_process :
    (shell_host : Shell.Host) (script_host : Script.Host) (scope : Scope) (shell : Shell.Shell)
    (script program : Text) (args : List Text) (macos_override_path : Bool)
    → (lookup config
          (execute_cmd shell_host shell script
            (env_variables shell_host scope)
            macos_override_path).env
        ≡ some shell_host.config_path)
      × (lookup config (script_command script_host program args scope).env
          ≡ some script_host.config_path)
unfolding execute_cmd env_variables script_command
config_reaches_process shell_host script_host scope shell script program args flag = (
  set_wsl_env-config (is_wsl shell) (env_variables shell_host scope) _
      ∙ override_path-config shell_host flag shell _
      ∙ lookup-set_all-insert config shell_host.config_path _ _
          (no_config shell_host.unicode scope),
  lookup-set_all config _ _ (no_config script_host.unicode scope)
      ∙ lookup-insert_self config script_host.config_path [],
)
