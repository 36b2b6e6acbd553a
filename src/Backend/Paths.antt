-- ===== src/Backend/Paths.antt =====
-- crates/shinran_backend/src/path.rs, `get_path_override` of src/lib.rs and src/builtin/: where the
-- configuration is, and the built-in matches. The environment and the file system are parameters; that
-- a directory was created does not change what is known of the others.
use shinran.Prelude.{
  ℕ, ◌+◌, ◌*◌, Text, text_key, codes, Bool, true, false, Option, none, some, List, [], ◌∷◌, or_else,
  leb, if◌then◌else◌,
}
use shinran.Prelude.Dict.{Map, lookup}
use shinran.Prelude.Whitespace.{trim}
use shinran.Backend.{BuiltInMatch, ExitMode, exit_all_processes, restart_worker, exit_requested}

pub record Paths : Type 0 where
  pub config : Text
  pub runtime : Text
  pub packages : Text

-- `current_exe`, `home_dir`, `config_dir` and `cache_dir` are those of the user; `creates` says whether
-- `create_dir_all` succeeds.
pub record Places : Type 0 where
  pub current_exe : Option Text
  pub home_dir : Option Text
  pub config_dir : Option Text
  pub cache_dir : Option Text
  pub parent : Text → Option Text
  pub join : Text → Text → Text
  pub is_dir : Text → Bool
  pub creates : Text → Bool
  pub env_var : Text → Option Text

abbrev pub if_dir : (Text → Bool) → Text → Option Text
if_dir is_dir path = if is_dir path then some path else none

module _ (places : Places) where
  abbrev pub in_exe_dir : Text → Text → Option Text
  in_exe_dir name exe = elim (places.parent exe) [
    | some parent ↦ some (places.join parent name)
    | none ↦ none
  ]

  abbrev pub filter_dir : Option Text → Option Text
  filter_dir none = none
  filter_dir (some path) = if_dir places.is_dir path

  abbrev pub in_home : (Text → Text) → Option Text
  in_home path = elim places.home_dir [ some home ↦ if_dir places.is_dir (path home) | none ↦ none ]

  unfoldable pub get_portable_config_dir : Text → Option Text
  get_portable_config_dir exe = filter_dir (in_exe_dir (codes ".shinran") exe)

  unfoldable pub get_home_shinran_dir : Option Text
  get_home_shinran_dir = in_home (λ home. places.join home (codes ".shinran"))

  unfoldable pub get_home_config_shinran_dir : Option Text
  get_home_config_shinran_dir =
      in_home (λ home. places.join (places.join home (codes ".config")) (codes "shinran"))

  -- `get_default_config_path`; `none` is its panic.
  unfoldable pub get_default_config_path : Option Text
  get_default_config_path = elim places.config_dir [
    | some dir ↦ some (places.join dir (codes "shinran"))
    | none ↦ none
  ]

  unfoldable pub get_default_runtime_path : Option Text
  get_default_runtime_path = elim places.cache_dir [
    | some dir ↦ some (places.join dir (codes "shinran"))
    | none ↦ none
  ]

  unfoldable pub get_default_packages_path : Text → Text
  get_default_packages_path config_dir =
      places.join (places.join config_dir (codes "match")) (codes "packages")

  -- The first of the directories that is there; the default one is created where none is.
  unfoldable pub existing_config_dir : Text → Option Text
  existing_config_dir exe =
      or_else (get_portable_config_dir exe)
        (or_else get_home_shinran_dir get_home_config_shinran_dir)

  abbrev pub created : Text → Option Text
  created path = if places.creates path then some path else none

  -- `get_config_dir`, and the creation of the default directory
  unfoldable pub default_or_created : Option Text → Option Text
  default_or_created none = none
  default_or_created (some path) = if places.is_dir path then some path else created path

  unfoldable pub config_path : Option Text → Option Text
  config_path (some dir) = some dir
  config_path none = elim places.current_exe [
    | none ↦ none
    | some exe ↦ elim (existing_config_dir exe) [
      | some dir ↦ some dir
      | none ↦ default_or_created get_default_config_path
    ]
  ]

  unfoldable pub is_portable_mode : Text → Bool
  is_portable_mode exe = elim (get_portable_config_dir exe) [ some dir ↦ true | none ↦ false ]

  unfoldable pub get_portable_runtime_path : Text → Option Text
  get_portable_runtime_path exe = in_exe_dir (codes ".shinran-runtime") exe

  abbrev pub create_opt : Option Text → Option Text
  create_opt none = none
  create_opt (some path) = created path

  -- The directory that is created where neither of the two is there
  unfoldable pub create_runtime_dir : Text → Option Text
  create_runtime_dir exe =
      if is_portable_mode exe
      then create_opt (get_portable_runtime_path exe)
      else create_opt get_default_runtime_path

  unfoldable pub find_runtime_dir : Text → Option Text
  find_runtime_dir exe = elim (filter_dir (get_portable_runtime_path exe)) [
    | some dir ↦ some dir
    | none ↦ elim get_default_runtime_path [
      | none ↦ none
      | some default_path ↦
          if places.is_dir default_path then some default_path else create_runtime_dir exe
    ]
  ]

  unfoldable pub runtime_path : Option Text → Option Text
  runtime_path (some dir) = some dir
  runtime_path none = elim places.current_exe [ none ↦ none | some exe ↦ find_runtime_dir exe ]

  unfoldable pub packages_path : Text → Option Text → Option Text
  packages_path config_dir (some dir) = some dir
  packages_path config_dir none = default_or_created (some (get_default_packages_path config_dir))

  abbrev pub paths_of : Text → Option Text → Option Text → Option Paths
  paths_of config (some runtime) (some packages) =
      some (record { config = config; runtime = runtime; packages = packages })
  paths_of config _ _ = none

  -- `none` is a panic.
  unfoldable pub resolve_paths :
      (force_config_dir force_package_dir force_runtime_dir : Option Text) → Option Paths
  resolve_paths force_config_dir force_package_dir force_runtime_dir =
      elim (config_path force_config_dir) [
        | none ↦ none
        | some dir ↦
            paths_of dir (runtime_path force_runtime_dir) (packages_path dir force_package_dir)
      ]

-- `exit` is `std::process::exit(1)`.
pub data Override : Type 0 where
  unset exit : Override
  set : Text → Override

module _ (places : Places) where
  abbrev pub checked : Text → Override
  checked path = let dir = trim path in if places.is_dir dir then set dir else exit

  unfoldable pub get_path_override : Map Text Text → (argument env_var : Text) → Override
  get_path_override cli_overrides argument env_var = elim (lookup argument cli_overrides) [
    | some path ↦ checked path
    | none ↦ elim (places.env_var env_var) [ some path ↦ checked path | none ↦ unset ]
  ]

abbrev pub min_builtin_match_id : ℕ
min_builtin_match_id = 1000 * 1000 * 1000

abbrev pub is_builtin_match : ℕ → Bool
is_builtin_match id = leb min_builtin_match_id id

-- `create_match_exit` and `create_match_restart`
abbrev pub process_match : Text → ExitMode → ℕ → BuiltInMatch
process_match label mode id = record {
  id = id;
  label = label;
  triggers = [];
  hotkey = none;
  action = exit_requested mode;
}

-- `get_builtin_matches`, from the next id of the thread on
unfoldable pub get_builtin_matches : ℕ → List BuiltInMatch × ℕ
get_builtin_matches next_id = (
  process_match (codes "Exit shinran") exit_all_processes next_id
      ∷ process_match (codes "Restart shinran") restart_worker (next_id + 1)
      ∷ [],
  next_id + 2,
)
