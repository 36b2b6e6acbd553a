-- ===== src/Config/Tests.antt =====
-- Tests of the profiles (crates/shinran_config/src/config/).
use shinran.Prelude.{text_eq, text_key, codes, false, none, some, [], ◌∷◌, ◌≡◌, unwrap_or}
use shinran.Config.Parsed.{ParsedConfig, default_config}
use shinran.Config.Profile.{AppProperties, Filters, ProfileFile}
use shinran.Config.Settings.{
  enable, clipboard_threshold, restore_clipboard_delay, word_separators, unless_off, search_trigger,
  search_shortcut,
}
use shinran.Config.Layers.{layered, with_content, settings_layered}
use shinran.Config.Selection.{ProfileStore, active_config, IsFirst, active_config-IsFirst}

abbrev quiet : ParsedConfig
quiet = record default_config { enable = some false; search_trigger = some (codes "OFF") }

abbrev slow : ParsedConfig
slow = record default_config { clipboard_threshold = some 20; search_trigger = some (codes ":s") }

abbrev no_filters : Filters
no_filters = record { title = none; class = none; exec = none }

abbrev for_class : Filters
for_class = record no_filters { class = some (codes "foo") }

abbrev profile_with : Filters → ParsedConfig → ProfileFile
profile_with filters content = record {
  content = content;
  source_path = codes "a.yml";
  match_file_paths = [];
  filters = filters;
}

abbrev quiet_profile : ProfileFile
quiet_profile = profile_with no_filters quiet

settings_layered_example :
    (enable (layered quiet_profile slow)
      ≡ unwrap_or quiet_profile.content.enable (enable (with_content quiet_profile slow)))
    × (clipboard_threshold (layered quiet_profile slow)
        ≡ unwrap_or quiet_profile.content.clipboard_threshold
            (clipboard_threshold (with_content quiet_profile slow)))
    × (restore_clipboard_delay (layered quiet_profile slow)
        ≡ unwrap_or quiet_profile.content.restore_clipboard_delay
            (restore_clipboard_delay (with_content quiet_profile slow)))
    × (word_separators (layered quiet_profile slow)
        ≡ unwrap_or quiet_profile.content.word_separators
            (word_separators (with_content quiet_profile slow)))
    × (search_trigger (layered quiet_profile slow)
        ≡ unless_off quiet_profile.content.search_trigger
            (search_trigger (with_content quiet_profile slow)))
    × (search_shortcut (layered quiet_profile slow)
        ≡ unless_off quiet_profile.content.search_shortcut
            (search_shortcut (with_content quiet_profile slow)))
settings_layered_example = settings_layered quiet_profile slow

abbrev app : AppProperties
app = record { title = none; class = some (codes "foo"); exec = none }

abbrev store : ProfileStore
store = record {
  default_profile = profile_with no_filters default_config;
  custom_profiles = profile_with no_filters quiet ∷ profile_with for_class slow ∷ [];
}

active_config-IsFirst_example :
    IsFirst text_eq app store.custom_profiles store.default_profile
      (active_config text_eq store app)
active_config-IsFirst_example = active_config-IsFirst text_eq store app
