-- ===== src/Pipeline/Tests.antt =====
-- From a match file to a committed text, on a file with two matches.
use shinran.Prelude.{◌≡◌, refl, text_eq, codes, true, false, none, some, [], ◌∷◌}
use shinran.Types.{MatchesAndGlobalVars, TextFormat}
use shinran.Render.Sample.{sample_regex, split}
use shinran.Render.Tests.{sample_unicode, sample_extensions}
use shinran.Render.Util.{unescape_variable_inections}
use shinran.Backend.ProfileCache.{create_profile_cache, last_with}
use shinran.Backend.Tests.{sample_crate}
use shinran.Backend.Adapter.{Backend, remove_hints}
use shinran.Config.Yaml.Match.{
  YamlMatch, try_convert_into_match, cause_of, effect_of, effect_from, text_effect,
  convert_variables, finish_match, push_match, trigger_cause,
}
use shinran.Config.Yaml.File.{convert_matches}
use shinran.Config.Yaml.Tests.{crates, empty_match, nothing_converted}
use shinran.Wayland.Context.{completed, slots, commit, commit_string, pressed}
use shinran.Wayland.Seat.{Seat, key_event, step}
use shinran.Wayland.Tests.{layout, letters, silent}
use shinran.Ibus.Engine.{panicked, process_key_event}
use shinran.Ibus.Tests.{sample_host, typed_text}
use shinran.Pipeline.{
  engine_with_backend, return-panics_on_wrong_case, with_backend, return-commits_body,
}

abbrev euro : YamlMatch
euro = record empty_match { trigger = some (codes ":euro"); replace = some (codes "E$|$") }

abbrev other_match : YamlMatch
other_match = record empty_match { trigger = some (codes "hi"); html = some (codes "hello") }

abbrev collection : MatchesAndGlobalVars
collection = record {
  trigger_matches =
      (convert_matches crates (other_match ∷ euro ∷ other_match ∷ [])
        nothing_converted).trigger_matches;
  regex_matches = [];
  global_vars = [];
}

abbrev backend : Backend
backend = record {
  var_regex = sample_regex;
  unicode = sample_unicode;
  extensions = sample_extensions;
  crate = sample_crate;
  graphemes = λ s. 0;
  trigger_map = (create_profile_cache collection).0;
  global_var_map = [];
  regex_matcher = record { ids = []; regexes = [] };
  builtin_match_cache = [];
}

abbrev typed : Seat
typed = record {
  context = record {
    seat_id = 7;
    seat_name = none;
    keyboard_grab = true;
    xkb_keymap = some layout;
    xkb_state = some letters;
    pending_activate = false;
    pending_deactivate = false;
    num_done_events = 1;
    repeat_rate = some 25;
    repeat_delay = some 600;
    pressed = slots 64;
    repeat_timer = none;
    buffer = some (codes ":euro");
    sent = [];
  };
  running = true;
  timers = [];
  next_token = 0;
}

return-commits_body_example :
    (seat' : Seat) × (step (with_backend silent backend 1) (key_event 5 28 (some pressed)) typed
      ≡ completed seat')
    × (seat'.running ≡ false)
    × (seat'.context.sent
        ≡ commit 1 ∷ commit_string (remove_hints (unescape_variable_inections (codes "E$|$"))) ∷ [])
unfolding text_eq split
return-commits_body_example =
    return-commits_body backend 0 crates nothing_converted collection (other_match ∷ [])
      (other_match ∷ []) euro (codes ":euro") (codes ":euro" ∷ []) (codes "E$|$", TextFormat.plain)
      silent 5 28 600 typed letters layout refl refl refl refl refl refl refl refl refl refl refl
      refl refl refl

unknown_euro : last_with (codes ":Euro") collection.trigger_matches ≡ none
unfolding text_eq convert_matches try_convert_into_match cause_of effect_of effect_from text_effect
    convert_variables finish_match push_match trigger_cause
unknown_euro = refl

return-panics_on_wrong_case_example :
    process_key_event (engine_with_backend sample_host backend 1) 1 0 0 (typed_text (codes ":Euro"))
    ≡ panicked
unfolding text_eq
return-panics_on_wrong_case_example =
    return-panics_on_wrong_case backend 1 crates nothing_converted collection (other_match ∷ [])
      (other_match ∷ []) euro (codes ":euro") (codes ":euro" ∷ []) (codes "E$|$", TextFormat.plain)
      sample_host 1 0 0 (typed_text (codes ":Euro")) refl refl refl refl refl refl unknown_euro refl
      refl refl refl refl refl refl
