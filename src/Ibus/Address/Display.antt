-- ===== src/Ibus/Address/Display.antt =====
-- The form of DISPLAY that crates/ibus_utils/src/address.rs reads.
use shinran.Prelude.{
  ℕ, ◌≡◌, refl, ap, ◌∙◌, arith, Text, codes, false, Option, none, some, [], ◌∷◌, ◌++◌, nat_key,
  contains, unwrap_or, Result, success, failure, ◌and_then◌,
}
use shinran.Ibus.Address.{
  AddressError, failed_to_parse_display, Session, prepend, split_once, not_empty, with_number,
  split_screen, parse_display_string, display_of, display_number, path_or, variable,
  socket_path_for, get_socket_path, get_machine_id, get_user_config_dir, bus_name,
}

-- The text is split at the first of its separators.
split_once-first :
    (sep : ℕ) (before after : Text)
    → contains before sep ≡ false
    → split_once sep (before ++ sep ∷ after) ≡ some (before, after)
unfolding split_once contains
split_once-first sep [] after h = ground (arith)
split_once-first sep (c ∷ before) after h =
    ground (arith, h, ap (prepend c) (split_once-first sep before after (ground (arith, h))))

split_once-none : (sep : ℕ) (s : Text) → contains s sep ≡ false → split_once sep s ≡ none
unfolding split_once contains
split_once-none sep [] h = refl
split_once-none sep (c ∷ s) h =
    ground (arith, h, ap (prepend c) (split_once-none sep s (ground (arith, h))))

parse_display_string-with_screen :
    (hostname number screen : Text)
    → contains hostname b':' ≡ false
    → contains number b'.' ≡ false
    → parse_display_string (hostname ++ b':' ∷ (number ++ b'.' ∷ screen)) ≡ some (hostname, number)
unfolding parse_display_string
parse_display_string-with_screen hostname number screen h n =
    ap split_screen (split_once-first b':' hostname (number ++ b'.' ∷ screen) h)
    ∙ ap (with_number hostname) (split_once-first b'.' number screen n)

parse_display_string-without_screen :
    (hostname number : Text)
    → contains hostname b':' ≡ false
    → contains number b'.' ≡ false
    → parse_display_string (hostname ++ b':' ∷ number) ≡ none
unfolding parse_display_string
parse_display_string-without_screen hostname number h n =
    ap split_screen (split_once-first b':' hostname number h)
    ∙ ap (with_number hostname) (split_once-none b'.' number n)

not_empty-append : (s t : Text) (c : ℕ) → not_empty (some (s ++ c ∷ t)) ≡ some (s ++ c ∷ t)
not_empty-append [] t c = refl
not_empty-append (d ∷ s) t c = refl

-- On X11 the path is that of the display.
socket_path_for-display :
    (session : Session) (c : ℕ) (s t : Text)
    → variable session (codes "IBUS_ADDRESS_FILE") ≡ none
    → variable session (codes "WAYLAND_DISPLAY") ≡ none
    → session.env_var (codes "DISPLAY") ≡ some (s ++ c ∷ t)
    → get_socket_path session
      ≡ (display_of (parse_display_string (s ++ c ∷ t)) and_then socket_path_for session)
unfolding get_socket_path display_number
socket_path_for-display session c s t file wayland h =
    let after =
      λ (r : Result AddressError (Text × Option Text)). r and_then socket_path_for session in
    let display = variable session (codes "DISPLAY") in
    ap
      (λ o. path_or o (after (display_number (variable session (codes "WAYLAND_DISPLAY")) display)))
      file
    ∙ ap (λ o. after (display_number o display)) wayland
    ∙ ap (λ o. after (display_number none o)) (ap not_empty h ∙ not_empty-append s t c)

-- Where neither IBUS_ADDRESS_FILE nor WAYLAND_DISPLAY is set, DISPLAY has the form host:number.screen, and
-- the identity of the machine and the directory of the configuration are found, the file of the
-- address is the one of that host and number; an empty host is this machine, which has the name unix.
pub get_socket_path-display :
    (session : Session) (hostname number screen machine_id config_dir : Text)
    → variable session (codes "IBUS_ADDRESS_FILE") ≡ none
    → variable session (codes "WAYLAND_DISPLAY") ≡ none
    → session.env_var (codes "DISPLAY") ≡ some (hostname ++ b':' ∷ (number ++ b'.' ∷ screen))
    → contains hostname b':' ≡ false
    → contains number b'.' ≡ false
    → get_machine_id session ≡ success machine_id
    → get_user_config_dir session ≡ success config_dir
    → get_socket_path session
      ≡ success (
          session.join config_dir
            (bus_name machine_id (unwrap_or (not_empty (some hostname)) (codes "unix")) number))
unfolding socket_path_for
get_socket_path-display session hostname number screen machine_id config_dir file wayland display h
      n id dir =
    socket_path_for-display session b':' hostname (number ++ b'.' ∷ screen) file wayland display
    ∙ ap (λ o. display_of o and_then socket_path_for session)
        (parse_display_string-with_screen hostname number screen h n)
    ∙ ap
        (λ r. r and_then λ machine_id. get_user_config_dir session and_then λ dir. success (
          session.join dir
            (bus_name machine_id (unwrap_or (not_empty (some hostname)) (codes "unix")) number)))
        id
    ∙ ap
        (λ r. r and_then λ dir. success (
          session.join dir
            (bus_name machine_id (unwrap_or (not_empty (some hostname)) (codes "unix")) number)))
        dir

-- Where neither IBUS_ADDRESS_FILE nor WAYLAND_DISPLAY is set, a DISPLAY without a screen, which is the usual
-- form host:number, is refused: no file of the address is looked for.
pub get_socket_path-refuses_display :
    (session : Session) (hostname number : Text)
    → variable session (codes "IBUS_ADDRESS_FILE") ≡ none
    → variable session (codes "WAYLAND_DISPLAY") ≡ none
    → session.env_var (codes "DISPLAY") ≡ some (hostname ++ b':' ∷ number)
    → contains hostname b':' ≡ false
    → contains number b'.' ≡ false
    → get_socket_path session ≡ failure failed_to_parse_display
get_socket_path-refuses_display session hostname number file wayland display h n =
    socket_path_for-display session b':' hostname number file wayland display
    ∙ ap (λ o. display_of o and_then socket_path_for session)
        (parse_display_string-without_screen hostname number h n)
