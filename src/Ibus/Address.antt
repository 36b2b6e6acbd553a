-- ===== src/Ibus/Address.antt =====
-- crates/ibus_utils/src/address.rs: the address of the IBus daemon. The environment, the file system and the
-- parser of addresses are parameters.
pub mod Display
use shinran.Prelude.{
  ℕ, Text, codes, Option, none, some, List, [], ◌∷◌, ◌++◌, unwrap_or, nat_eq, if◌then◌else◌, Result,
  success, failure, ◌and_then◌,
}
use shinran.Prelude.Whitespace.{trim_start, trim_end, lines}

-- Why there is no address. `no_home` is the panic of `unwrap`.
pub data AddressError : Type 0 where
  failed_to_parse_display no_home : AddressError
  unreadable invalid_address : Text → AddressError

-- `join` is `Path::join`.
pub record Session : Type 0 where
  pub env_var : Text → Option Text
  pub read_to_string : Text → Option Text
  pub join : Text → Text → Text

abbrev pub prepend : ℕ → Option (Text × Text) → Option (Text × Text)
prepend c none = none
prepend c (some (before, after)) = some (c ∷ before, after)

-- `str::split_once` at a character
unfoldable pub split_once : ℕ → Text → Option (Text × Text)
split_once sep [] = none
split_once sep (c ∷ s) =
    let rest = split_once sep s in if nat_eq c sep then some ([], s) else prepend c rest

-- `str::strip_prefix`
unfoldable pub strip_prefix : Text → Text → Option Text
strip_prefix [] s = some s
strip_prefix (c ∷ prefix) [] = none
strip_prefix (c ∷ prefix) (d ∷ s) =
    let rest = strip_prefix prefix s in if nat_eq c d then rest else none

-- A variable that is not set, or is empty, counts as missing.
abbrev pub not_empty : Option Text → Option Text
not_empty (some (c ∷ s)) = some (c ∷ s)
not_empty _ = none

abbrev pub with_number : Text → Option (Text × Text) → Option (Text × Text)
with_number hostname none = none
with_number hostname (some (display_number, screen_number)) = some (hostname, display_number)

abbrev pub split_screen : Option (Text × Text) → Option (Text × Text)
split_screen none = none
split_screen (some (hostname, display_screen)) =
    with_number hostname (split_once b'.' display_screen)

-- The host and the number of a display of the form host:number.screen
unfoldable pub parse_display_string : Text → Option (Text × Text)
parse_display_string s = split_screen (split_once b':' s)

abbrev pub display_of : Option (Text × Text) → Result AddressError (Text × Option Text)
display_of none = failure failed_to_parse_display
display_of (some (hostname, display_number)) = success (display_number, not_empty (some hostname))

-- The number of the display and its host, where it is not this machine
unfoldable pub display_number :
    (wayland_display display : Option Text) → Result AddressError (Text × Option Text)
display_number (some wayland_display) display = success (wayland_display, none)
display_number none (some display) = display_of (parse_display_string display)
display_number none none = success (codes "0", none)

-- The last line that has an address counts.
unfoldable pub last_address : List Text → Text → Text
last_address [] address = address
last_address (line ∷ lines) address =
    last_address lines (unwrap_or (strip_prefix (codes "IBUS_ADDRESS=") line) address)

abbrev pub bus_name : (machine_id hostname number : Text) → Text
bus_name machine_id hostname number =
    codes "ibus/bus/" ++ (machine_id ++ (codes "-" ++ (hostname ++ (codes "-" ++ number))))

abbrev pub readable : Text → Option Text → Result AddressError Text
readable path none = failure (unreadable path)
readable path (some content) = success content

abbrev pub path_or : Option Text → Result AddressError Text → Result AddressError Text
path_or (some path) other = success path
path_or none other = other

module _ (session : Session) where
  abbrev pub read : Text → Result AddressError Text
  read path = readable path (session.read_to_string path)

  unfoldable pub get_machine_id : Result AddressError Text
  get_machine_id = elim (session.read_to_string (codes "/var/lib/dbus/machine-id")) [
    | some id ↦ success (trim_start (trim_end id))
    | none ↦ read (codes "/etc/machine-id") and_then λ id. success (trim_start (trim_end id))
  ]

  unfoldable pub get_user_config_dir : Result AddressError Text
  get_user_config_dir = elim (session.env_var (codes "XDG_CONFIG_HOME")) [
    | some dir ↦ success dir
    | none ↦ elim (session.env_var (codes "HOME")) [
      | some home ↦ success (session.join home (codes ".config"))
      | none ↦ failure no_home
    ]
  ]

  -- The file of the address for a display
  unfoldable pub socket_path_for : Text × Option Text → Result AddressError Text
  socket_path_for (number, hostname) = get_machine_id and_then λ machine_id.
      get_user_config_dir and_then λ config_dir.
      success
        (session.join config_dir (bus_name machine_id (unwrap_or hostname (codes "unix")) number))

  abbrev pub variable : Text → Option Text
  variable name = not_empty (session.env_var name)

  unfoldable pub get_socket_path : Result AddressError Text
  get_socket_path = path_or (variable (codes "IBUS_ADDRESS_FILE")) (
      display_number (variable (codes "WAYLAND_DISPLAY")) (variable (codes "DISPLAY"))
      and_then socket_path_for)

  module _ {Address : Type 0} (try_into : Text → Option Address) where
    abbrev pub address_of : Text → Result AddressError Address
    address_of text = elim (try_into text) [
      | some address ↦ success address
      | none ↦ failure (invalid_address text)
    ]

    unfoldable pub get_ibus_address : Result AddressError Address
    get_ibus_address = elim (variable (codes "IBUS_ADDRESS")) [
      | some address ↦ address_of address
      | none ↦ get_socket_path and_then λ path.
          read path and_then λ content. address_of (last_address (lines content) [])
    ]
