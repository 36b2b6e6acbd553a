-- ===== src/Config/Parsed.antt =====
-- crates/shinran_config/src/config/parse/mod.rs: what a configuration file may set, and `inherit` of
-- config/resolve.rs with `merge!` of config/util.rs. A `usize` is a number; an `i64` is the number of
-- its 64 bits.
use shinran.Prelude.{ℕ, Text, Bool, Option, none, List, or_else}
use shinran.Prelude.Dict.{Map}

pub record ParsedConfig : Type 0 where
  pub label : Option Text
  pub backend : Option Text
  pub enable : Option Bool
  pub clipboard_threshold : Option ℕ
  pub auto_restart : Option Bool
  pub preserve_clipboard : Option Bool
  pub toggle_key : Option Text
  pub paste_shortcut : Option Text
  pub disable_x11_fast_inject : Option Bool
  pub word_separators : Option (List Text)
  pub backspace_limit : Option ℕ
  pub apply_patch : Option Bool
  pub search_trigger : Option Text
  pub search_shortcut : Option Text
  pub undo_backspace : Option Bool
  pub show_notifications : Option Bool
  pub show_icon : Option Bool
  pub secure_input_notification : Option Bool
  pub post_form_delay : Option ℕ
  pub max_form_width : Option ℕ
  pub max_form_height : Option ℕ
  pub post_search_delay : Option ℕ
  pub emulate_alt_codes : Option Bool
  pub win32_exclude_orphan_events : Option Bool
  pub win32_keyboard_layout_cache_interval : Option ℕ
  pub x11_use_xclip_backend : Option Bool
  pub x11_use_xdotool_backend : Option Bool
  pub pre_paste_delay : Option ℕ
  pub restore_clipboard_delay : Option ℕ
  pub paste_shortcut_event_delay : Option ℕ
  pub inject_delay : Option ℕ
  pub key_delay : Option ℕ
  pub keyboard_layout : Option (Map Text Text)
  pub evdev_modifier_delay : Option ℕ
  pub includes : Option (List Text)
  pub excludes : Option (List Text)
  pub extra_includes : Option (List Text)
  pub extra_excludes : Option (List Text)
  pub use_standard_includes : Option Bool
  pub filter_title : Option Text
  pub filter_class : Option Text
  pub filter_exec : Option Text
  pub filter_os : Option Text

-- `ParsedConfig::default`
abbrev pub default_config : ParsedConfig
default_config = record {
  label = none;
  backend = none;
  enable = none;
  clipboard_threshold = none;
  auto_restart = none;
  preserve_clipboard = none;
  toggle_key = none;
  paste_shortcut = none;
  disable_x11_fast_inject = none;
  word_separators = none;
  backspace_limit = none;
  apply_patch = none;
  search_trigger = none;
  search_shortcut = none;
  undo_backspace = none;
  show_notifications = none;
  show_icon = none;
  secure_input_notification = none;
  post_form_delay = none;
  max_form_width = none;
  max_form_height = none;
  post_search_delay = none;
  emulate_alt_codes = none;
  win32_exclude_orphan_events = none;
  win32_keyboard_layout_cache_interval = none;
  x11_use_xclip_backend = none;
  x11_use_xdotool_backend = none;
  pre_paste_delay = none;
  restore_clipboard_delay = none;
  paste_shortcut_event_delay = none;
  inject_delay = none;
  key_delay = none;
  keyboard_layout = none;
  evdev_modifier_delay = none;
  includes = none;
  excludes = none;
  extra_includes = none;
  extra_excludes = none;
  use_standard_includes = none;
  filter_title = none;
  filter_class = none;
  filter_exec = none;
  filter_os = none;
}

-- A field that the child leaves out is taken from the parent.
unfoldable pub inherit : ParsedConfig → ParsedConfig → ParsedConfig
inherit child parent = record {
  label = or_else child.label parent.label;
  backend = or_else child.backend parent.backend;
  enable = or_else child.enable parent.enable;
  clipboard_threshold = or_else child.clipboard_threshold parent.clipboard_threshold;
  auto_restart = or_else child.auto_restart parent.auto_restart;
  pre_paste_delay = or_else child.pre_paste_delay parent.pre_paste_delay;
  preserve_clipboard = or_else child.preserve_clipboard parent.preserve_clipboard;
  restore_clipboard_delay = or_else child.restore_clipboard_delay parent.restore_clipboard_delay;
  paste_shortcut = or_else child.paste_shortcut parent.paste_shortcut;
  apply_patch = or_else child.apply_patch parent.apply_patch;
  paste_shortcut_event_delay =
      or_else child.paste_shortcut_event_delay parent.paste_shortcut_event_delay;
  disable_x11_fast_inject = or_else child.disable_x11_fast_inject parent.disable_x11_fast_inject;
  toggle_key = or_else child.toggle_key parent.toggle_key;
  inject_delay = or_else child.inject_delay parent.inject_delay;
  key_delay = or_else child.key_delay parent.key_delay;
  evdev_modifier_delay = or_else child.evdev_modifier_delay parent.evdev_modifier_delay;
  word_separators = or_else child.word_separators parent.word_separators;
  backspace_limit = or_else child.backspace_limit parent.backspace_limit;
  keyboard_layout = or_else child.keyboard_layout parent.keyboard_layout;
  search_trigger = or_else child.search_trigger parent.search_trigger;
  search_shortcut = or_else child.search_shortcut parent.search_shortcut;
  undo_backspace = or_else child.undo_backspace parent.undo_backspace;
  show_icon = or_else child.show_icon parent.show_icon;
  show_notifications = or_else child.show_notifications parent.show_notifications;
  secure_input_notification =
      or_else child.secure_input_notification parent.secure_input_notification;
  emulate_alt_codes = or_else child.emulate_alt_codes parent.emulate_alt_codes;
  post_form_delay = or_else child.post_form_delay parent.post_form_delay;
  max_form_width = or_else child.max_form_width parent.max_form_width;
  max_form_height = or_else child.max_form_height parent.max_form_height;
  post_search_delay = or_else child.post_search_delay parent.post_search_delay;
  win32_exclude_orphan_events =
      or_else child.win32_exclude_orphan_events parent.win32_exclude_orphan_events;
  win32_keyboard_layout_cache_interval =
      or_else child.win32_keyboard_layout_cache_interval
        parent.win32_keyboard_layout_cache_interval;
  x11_use_xclip_backend = or_else child.x11_use_xclip_backend parent.x11_use_xclip_backend;
  x11_use_xdotool_backend = or_else child.x11_use_xdotool_backend parent.x11_use_xdotool_backend;
  includes = or_else child.includes parent.includes;
  excludes = or_else child.excludes parent.excludes;
  extra_includes = or_else child.extra_includes parent.extra_includes;
  extra_excludes = or_else child.extra_excludes parent.extra_excludes;
  use_standard_includes = or_else child.use_standard_includes parent.use_standard_includes;
  filter_title = or_else child.filter_title parent.filter_title;
  filter_class = or_else child.filter_class parent.filter_class;
  filter_exec = or_else child.filter_exec parent.filter_exec;
  filter_os = or_else child.filter_os parent.filter_os;
}
