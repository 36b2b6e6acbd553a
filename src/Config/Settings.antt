-- ===== src/Config/Settings.antt =====
-- The settings of a profile (crates/shinran_config/src/config/resolve.rs, defaults of
-- config/default.rs).
use shinran.Prelude.{
  ℕ, Text, text_key, codes, literal, Bool, true, false, ◌||◌, Option, none, some, List, [], ◌∷◌,
  unwrap_or, if◌then◌else◌,
}
use shinran.Prelude.Dict.{Map, lookup}
use shinran.Config.Profile.{ProfileFile}

unfoldable pub enable : ProfileFile → Bool
enable profile = unwrap_or profile.content.enable true

unfoldable pub clipboard_threshold : ProfileFile → ℕ
clipboard_threshold profile = unwrap_or profile.content.clipboard_threshold 100

unfoldable pub auto_restart : ProfileFile → Bool
auto_restart profile = unwrap_or profile.content.auto_restart true

unfoldable pub pre_paste_delay : ProfileFile → ℕ
pre_paste_delay profile = unwrap_or profile.content.pre_paste_delay 100

unfoldable pub preserve_clipboard : ProfileFile → Bool
preserve_clipboard profile = unwrap_or profile.content.preserve_clipboard true

unfoldable pub restore_clipboard_delay : ProfileFile → ℕ
restore_clipboard_delay profile = unwrap_or profile.content.restore_clipboard_delay 300

unfoldable pub paste_shortcut_event_delay : ProfileFile → ℕ
paste_shortcut_event_delay profile = unwrap_or profile.content.paste_shortcut_event_delay 10

unfoldable pub disable_x11_fast_inject : ProfileFile → Bool
disable_x11_fast_inject profile = unwrap_or profile.content.disable_x11_fast_inject false

unfoldable pub backspace_limit : ProfileFile → ℕ
backspace_limit profile = unwrap_or profile.content.backspace_limit 5

unfoldable pub apply_patch : ProfileFile → Bool
apply_patch profile = unwrap_or profile.content.apply_patch true

unfoldable pub undo_backspace : ProfileFile → Bool
undo_backspace profile = unwrap_or profile.content.undo_backspace true

unfoldable pub show_icon : ProfileFile → Bool
show_icon profile = unwrap_or profile.content.show_icon true

unfoldable pub show_notifications : ProfileFile → Bool
show_notifications profile = unwrap_or profile.content.show_notifications true

unfoldable pub secure_input_notification : ProfileFile → Bool
secure_input_notification profile = unwrap_or profile.content.secure_input_notification true

unfoldable pub post_form_delay : ProfileFile → ℕ
post_form_delay profile = unwrap_or profile.content.post_form_delay 200

unfoldable pub max_form_width : ProfileFile → ℕ
max_form_width profile = unwrap_or profile.content.max_form_width 700

unfoldable pub max_form_height : ProfileFile → ℕ
max_form_height profile = unwrap_or profile.content.max_form_height 500

unfoldable pub post_search_delay : ProfileFile → ℕ
post_search_delay profile = unwrap_or profile.content.post_search_delay 200

unfoldable pub win32_exclude_orphan_events : ProfileFile → Bool
win32_exclude_orphan_events profile = unwrap_or profile.content.win32_exclude_orphan_events true

unfoldable pub win32_keyboard_layout_cache_interval : ProfileFile → ℕ
win32_keyboard_layout_cache_interval profile =
    unwrap_or profile.content.win32_keyboard_layout_cache_interval 2000

unfoldable pub x11_use_xclip_backend : ProfileFile → Bool
x11_use_xclip_backend profile = unwrap_or profile.content.x11_use_xclip_backend false

unfoldable pub x11_use_xdotool_backend : ProfileFile → Bool
x11_use_xdotool_backend profile = unwrap_or profile.content.x11_use_xdotool_backend false

unfoldable pub paste_shortcut : ProfileFile → Option Text
paste_shortcut profile = profile.content.paste_shortcut

unfoldable pub inject_delay : ProfileFile → Option ℕ
inject_delay profile = profile.content.inject_delay

unfoldable pub key_delay : ProfileFile → Option ℕ
key_delay profile = profile.content.key_delay

unfoldable pub evdev_modifier_delay : ProfileFile → Option ℕ
evdev_modifier_delay profile = profile.content.evdev_modifier_delay

-- `windows` is `cfg!(target_os = "windows")`.
unfoldable pub emulate_alt_codes : Bool → ProfileFile → Bool
emulate_alt_codes windows profile = unwrap_or profile.content.emulate_alt_codes windows

abbrev pub default_separators : List Text
default_separators =
    codes " "
    ∷ codes ","
    ∷ codes ";"
    ∷ codes ":"
    ∷ codes "."
    ∷ codes "?"
    ∷ codes "!"
    ∷ codes "("
    ∷ codes ")"
    ∷ codes "{"
    ∷ codes "}"
    ∷ codes "["
    ∷ codes "]"
    ∷ codes "<"
    ∷ codes ">"
    ∷ codes "'"
    ∷ (34 ∷ [])
    ∷ (13 ∷ [])
    ∷ (9 ∷ [])
    ∷ (10 ∷ [])
    ∷ (12 ∷ [])
    ∷ []

unfoldable pub word_separators : ProfileFile → List Text
word_separators profile = unwrap_or profile.content.word_separators default_separators

unfoldable pub label : ProfileFile → Text
label profile = unwrap_or profile.content.label profile.source_path

pub record RmlvoConfig : Type 0 where
  pub rules : Option Text
  pub model : Option Text
  pub layout : Option Text
  pub variant : Option Text
  pub options : Option Text

abbrev pub layout_of : Option (Map Text Text) → Option RmlvoConfig
layout_of none = none
layout_of (some layout) = some (record {
  rules = lookup (codes "rules") layout;
  model = lookup (codes "model") layout;
  layout = lookup (codes "layout") layout;
  variant = lookup (codes "variant") layout;
  options = lookup (codes "options") layout;
})

unfoldable pub keyboard_layout : ProfileFile → Option RmlvoConfig
keyboard_layout profile = layout_of profile.content.keyboard_layout

abbrev pub switched_off : Text → Bool
switched_off x = literal x "OFF" || literal x "off"

abbrev pub unless_off : Option Text → Option Text → Option Text
unless_off (some x) default = if switched_off x then none else some x
unless_off none default = default

unfoldable pub search_trigger : ProfileFile → Option Text
search_trigger profile = unless_off profile.content.search_trigger none

unfoldable pub search_shortcut : ProfileFile → Option Text
search_shortcut profile = unless_off profile.content.search_shortcut (some (codes "ALT+SPACE"))
