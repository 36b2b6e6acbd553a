-- ===== src/Config/Layers.antt =====
-- Profiles in layers: `inherit` of crates/shinran_config/src/config/resolve.rs.
use shinran.Prelude.{
  Text, codes, true, Option, none, some, ◌≡◌, refl, or_else, unwrap_or, or_else_assoc, or_else-none,
}
use shinran.Config.Parsed.{ParsedConfig, default_config, inherit}
use shinran.Config.Profile.{ProfileFile}
use shinran.Config.Settings.{
  enable, clipboard_threshold, restore_clipboard_delay, word_separators, default_separators,
  unless_off, search_trigger, search_shortcut,
}

-- Layers may be taken together in either order: a profile over a profile over a third.
pub inherit_assoc : (a b c : ParsedConfig) → inherit (inherit a b) c ≡ inherit a (inherit b c)
unfolding inherit
inherit_assoc a b c = simp or_else_assoc

inherit-default_config : (a : ParsedConfig) → inherit a default_config ≡ a
unfolding inherit
inherit-default_config a = simp or_else-none

default_config-inherit : (a : ParsedConfig) → inherit default_config a ≡ a
unfolding inherit
default_config-inherit a = refl

-- The profile with what it leaves out taken from a parent.
abbrev pub layered : ProfileFile → ParsedConfig → ProfileFile
layered profile parent = record profile { content = inherit profile.content parent }

abbrev pub with_content : ProfileFile → ParsedConfig → ProfileFile
with_content profile content = record profile { content = content }

unwrap_or-or_else :
    {A : Type 0} (x y : Option A) (z : A) → unwrap_or (or_else x y) z ≡ unwrap_or x (unwrap_or y z)
unwrap_or-or_else none y z = refl
unwrap_or-or_else (some x) y z = refl

unless_off-or_else :
    (x y z : Option Text) → unless_off (or_else x y) z ≡ unless_off x (unless_off y z)
unless_off-or_else none y z = refl
unless_off-or_else (some x) y z = refl

-- A setting is the profile's own, else its parent's, else the default: so it is for whether the
-- program is enabled, the clipboard threshold and delay, the separators, and for the two search
-- settings, where `OFF` in the profile hides what the parent says.
pub settings_layered :
    (profile : ProfileFile) (parent : ParsedConfig)
    → (enable (layered profile parent)
        ≡ unwrap_or profile.content.enable (enable (with_content profile parent)))
      × (clipboard_threshold (layered profile parent)
          ≡ unwrap_or profile.content.clipboard_threshold
              (clipboard_threshold (with_content profile parent)))
      × (restore_clipboard_delay (layered profile parent)
          ≡ unwrap_or profile.content.restore_clipboard_delay
              (restore_clipboard_delay (with_content profile parent)))
      × (word_separators (layered profile parent)
          ≡ unwrap_or profile.content.word_separators
              (word_separators (with_content profile parent)))
      × (search_trigger (layered profile parent)
          ≡ unless_off profile.content.search_trigger
              (search_trigger (with_content profile parent)))
      × (search_shortcut (layered profile parent)
          ≡ unless_off profile.content.search_shortcut
              (search_shortcut (with_content profile parent)))
unfolding inherit enable clipboard_threshold restore_clipboard_delay word_separators search_trigger
    search_shortcut
settings_layered profile parent = (
  unwrap_or-or_else profile.content.enable parent.enable true,
  unwrap_or-or_else profile.content.clipboard_threshold parent.clipboard_threshold 100,
  unwrap_or-or_else profile.content.restore_clipboard_delay parent.restore_clipboard_delay 300,
  unwrap_or-or_else profile.content.word_separators parent.word_separators default_separators,
  unless_off-or_else profile.content.search_trigger parent.search_trigger none,
  unless_off-or_else profile.content.search_shortcut parent.search_shortcut
      (some (codes "ALT+SPACE")),
)
