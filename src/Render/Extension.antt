-- ===== src/Render/Extension.antt =====
-- crates/shinran_render/src/extension/: the processes that extensions start, and the environment that
-- they give them (util.rs). The operating system that the program is built for and the running of a
-- process are parameters.
pub mod Shell
pub mod Script
pub mod Values
pub mod Date
pub mod Environment
mod Tests
use shinran.Prelude.{
  ℕ, Text, text_key, codes, Bool, true, false, Option, none, some, List, [], ◌∷◌, ◌++◌, unwrap_or,
  ◌≡◌, refl,
}
use shinran.Prelude.Dict.{Map, insert}
use shinran.Prelude.Whitespace.{trim}
use shinran.Types.{Value, bool, string, Params}
use shinran.Types.Params.{get}
use shinran.Render.{
  RendererError, extension_error, ExtensionOutput, single, multiple, ExtensionResult, Scope,
}
use shinran.Render.Casing.{Unicode, to_uppercase}

-- `cfg!(target_os = ..)`
pub data TargetOs : Type 0 where
  windows macos linux other : TargetOs

-- `std::process::Command`, and what it gives: `success` is that of its exit status, and the texts
-- are read by `String::from_utf8_lossy`.
pub record Command : Type 0 where
  pub program : Text
  pub args : List Text
  pub env : Map Text Text

pub record Output : Type 0 where
  pub is_success : Bool
  pub stdout : Text
  pub stderr : Text

-- A process that could not be run is the text of its error.
pub data Ran : Type 0 where
  finished : Output → Ran
  failed : (error : Text) → Ran

abbrev pub set_env : Text → Text → Command → Command
set_env name value c = record c { env = insert name value c.env }

-- The loop `for (key, value) in vars`
unfoldable pub set_all : Map Text Text → Command → Command
set_all [] c = c
set_all ((key, value) ∷ vars) c = set_all vars (set_env key value c)

abbrev pub report : Text → ExtensionResult
report message = ExtensionResult.error (extension_error message)

-- `params.get(name).and_then(|v| v.as_bool()).copied().unwrap_or(default)`
unfoldable pub get_bool : Text → Bool → Params → Bool
get_bool name default params = elim (get name params) [ some (bool b) ↦ b | _ ↦ default ]

-- The output of a process, trimmed unless the parameter `trim` is false.
unfoldable pub trim_output : Params → Text → ExtensionResult
trim_output params stdout = elim (get_bool (codes "trim") true params) [
  | true ↦ ExtensionResult.success (single (trim stdout))
  | false ↦ ExtensionResult.success (single stdout)
]

module _ (unicode : Unicode) where
  abbrev pub variable_name : Text → Text
  variable_name key = codes "SHINRAN_" ++ to_uppercase unicode key

  -- The loop over the values of a variable
  unfoldable pub insert_values : Text → Map Text Text → Map Text Text → Map Text Text
  insert_values key [] env = env
  insert_values key ((sub_key, sub_value) ∷ values) env =
      insert_values key values
        (insert (variable_name key ++ (codes "_" ++ to_uppercase unicode sub_key)) sub_value env)

  -- The loop over the scope
  unfoldable pub insert_scope : Scope → Map Text Text → Map Text Text
  insert_scope [] env = env
  insert_scope ((key, single value) ∷ scope) env =
      insert_scope scope (insert (variable_name key) value env)
  insert_scope ((key, multiple values) ∷ scope) env =
      insert_scope scope (insert_values key values env)

  unfoldable pub convert_to_env_variables : Scope → Map Text Text
  convert_to_env_variables scope = insert_scope scope []
