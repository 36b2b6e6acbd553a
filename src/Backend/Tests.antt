-- ===== src/Backend/Tests.antt =====
-- Tests of the back end (crates/shinran_backend/src/).
use shinran.Prelude.{
  length, arith, ◌++◌, Text, text_eq, text_key, codes, to_ascii_lowercase, true, false, Option,
  none, some, [], ◌∷◌, ◌≡◌, refl, filter, filter_map, any, answer, refused, if◌then◌else◌,
}
use shinran.Prelude.Dict
use shinran.Prelude.Dict.{lookup, values}
use shinran.Types.{
  TextEffect, TextFormat, MatchEffect, TriggerMatch, RegexMatch, MatchesAndGlobalVars,
  UpperCasingStyle, WordBoundary,
}
use shinran.Render.Sample.{sample_regex, split}
use shinran.Render.Util.{unescape_variable_inections}
use shinran.Render.Template.{is_match}
use shinran.Render.Tests.{sample_unicode, sample_extensions}
use shinran.Backend.{not_found}
use shinran.Backend.CasingStyle.{
  calculate_casing_style, style_of, first_two, calculate_casing_style-letters,
}
use shinran.Backend.ProfileCache.{
  insert_triggers, insert_matches, create_profile_cache, last_with, create_profile_cache-last,
}
use shinran.Backend.Regex.{
  Captures, RegexCrate, is_some, positions, try_match, find_matches, find_matches-new,
}
use shinran.Backend.Regex
use shinran.Backend.Adapter.{Backend, remove_hints, process_cursor_hint, check_trigger}
use shinran.Backend.Hints.{process_cursor_hint-single}
use shinran.Backend.Answers.{check_trigger_wrong_case, check_trigger-plain}

calculate_casing_style-letters_example :
    calculate_casing_style sample_unicode (codes ":hi") (some UpperCasingStyle.capitalize)
    ≡ style_of sample_unicode
        (some UpperCasingStyle.capitalize)
        (first_two sample_unicode (filter sample_unicode.is_alphabetic (codes ":hi")))
calculate_casing_style-letters_example =
    calculate_casing_style-letters sample_unicode (codes ":hi") (some UpperCasingStyle.capitalize)

abbrev pub template_of : Text → TextEffect
template_of body = record { body = body; vars = []; format = TextFormat.plain; force_mode = none }

abbrev pub match_of : Text → Text → TriggerMatch
match_of trigger body = record {
  base_match = record {
    effect = MatchEffect.text (template_of body);
    label = none;
    search_terms = [];
  };
  triggers = trigger ∷ [];
  propagate_case = false;
  uppercase_style = UpperCasingStyle.uppercase;
  word_boundary = WordBoundary.neither;
}

abbrev pub regex_of : Text → RegexMatch
regex_of regex = record {
  base_match = record {
    effect = MatchEffect.text (template_of regex);
    label = none;
    search_terms = [];
  };
  regex = regex;
}

-- The trigger `hi` twice.
abbrev collection : MatchesAndGlobalVars
collection = record {
  trigger_matches =
      match_of (codes "hi") (codes "first") ∷ match_of (codes "hi") (codes "a$|$b") ∷ [];
  regex_matches = regex_of (codes "yo") ∷ [];
  global_vars = [];
}

create_profile_cache-last_example :
    lookup (codes "hi") (create_profile_cache collection).0
    ≡ last_with (codes "hi") collection.trigger_matches
create_profile_cache-last_example = create_profile_cache-last collection (codes "hi")

-- A regex of this crate matches its own text.
abbrev captures_of : Text → Text → Option Captures
captures_of pattern text =
    if text_eq pattern text then some (record { full_match = text; named = [] }) else none

abbrev pub sample_crate : RegexCrate
sample_crate = record {
  compiles = λ pattern. true;
  captures = captures_of;
  set_builds = λ patterns. true;
  set_matches = λ patterns text. positions (λ p. is_some (captures_of p text)) 0 patterns;
  set_matches_positions = λ patterns text. refl;
}

find_matches-new_example :
    find_matches sample_crate
      (Regex.new sample_crate (regex_of (codes "a") ∷ regex_of (codes "yo") ∷ []))
      (codes "yo")
    ≡ filter_map
        (try_match sample_crate (codes "yo"))
        (regex_of (codes "a") ∷ regex_of (codes "yo") ∷ [])
find_matches-new_example =
    find_matches-new sample_crate (regex_of (codes "a") ∷ regex_of (codes "yo") ∷ []) (codes "yo")

abbrev backend : Backend
backend = record {
  var_regex = sample_regex;
  unicode = sample_unicode;
  extensions = sample_extensions;
  crate = sample_crate;
  graphemes = λ s. 0;
  trigger_map = (create_profile_cache collection).0;
  global_var_map = [];
  regex_matcher = Regex.new sample_crate collection.regex_matches;
  builtin_match_cache = [];
}

process_cursor_hint-single_example :
    process_cursor_hint length (codes "a$" ++ codes "$|$" ++ codes "bc")
    ≡ (codes "a$" ++ codes "bc", some 2)
unfolding text_eq
process_cursor_hint-single_example =
    process_cursor_hint-single length (codes "a$") (codes "bc") refl refl refl (omega arith)

last_hi :
    last_with (codes "hi") collection.trigger_matches ≡ some (match_of (codes "hi") (codes "a$|$b"))
unfolding text_eq
last_hi = refl

plain_body : is_match sample_regex (codes "a$|$b") ≡ false
unfolding split
plain_body = refl

check_trigger-plain_example :
    check_trigger backend 5 (codes "hi")
    ≡ answer (some (remove_hints (unescape_variable_inections (codes "a$|$b"))))
check_trigger-plain_example =
    check_trigger-plain backend 4 (codes "hi") collection (match_of (codes "hi") (codes "a$|$b"))
      (template_of (codes "a$|$b")) refl last_hi refl refl plain_body

no_upper : lookup (codes "HI") backend.trigger_map ≡ none
unfolding create_profile_cache insert_matches insert_triggers Dict.insert Dict.lookup text_eq
no_upper = refl

lower_hi :
    lookup (to_ascii_lowercase (codes "HI")) backend.trigger_map
    ≡ some (match_of (codes "hi") (codes "a$|$b"))
unfolding create_profile_cache insert_matches insert_triggers Dict.insert Dict.lookup text_eq
lower_hi = refl

unexpected_hi : any (text_eq (codes "HI")) (codes "hi" ∷ []) ≡ false
unfolding text_eq
unexpected_hi = refl

check_trigger_wrong_case_example : check_trigger backend 5 (codes "HI") ≡ refused not_found
check_trigger_wrong_case_example =
    check_trigger_wrong_case backend 5 (codes "HI") (match_of (codes "hi") (codes "a$|$b")) no_upper
      lower_hi refl unexpected_hi

no_other : lookup (codes "other") backend.trigger_map ≡ none
unfolding create_profile_cache insert_matches insert_triggers Dict.insert Dict.lookup text_eq
no_other = refl

no_other_regex : Regex.find_matches sample_crate backend.regex_matcher (codes "other") ≡ []
unfolding Regex.find_matches Regex.new Regex.compile_all text_eq
no_other_regex = refl
