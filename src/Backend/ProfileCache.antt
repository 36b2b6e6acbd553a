-- ===== src/Backend/ProfileCache.antt =====
-- crates/shinran_backend/src/profile_cache.rs: the maps of the active profile. What
-- `collect_matches_and_global_vars` of the store gives is an argument.
use shinran.Prelude.{
  or_else-none, ℕ, Text, text_key, text_eq, text_eq_iff, to_ascii_lowercase, Bool, true, false,
  Option, none, some, List, [], ◌∷◌, ◌++◌, ◌≡◌, refl, ap, ◌∙◌, arith, any, filter_map, or_else,
  nat_key, if◌then◌else◌,
}
use shinran.Prelude.Dict.{Map, lookup, insert, values, lookup-insert}
use shinran.Types.{MatchRef, TriggerMatch, RegexMatch, Variable, MatchesAndGlobalVars}
use shinran.Backend.{DetectedMatch, BuiltInMatch}

-- The inner loop of `create_profile_cache`.
unfoldable pub insert_triggers :
    TriggerMatch → List Text → Map Text TriggerMatch → Map Text TriggerMatch
insert_triggers m [] map = map
insert_triggers m (trigger ∷ triggers) map = insert_triggers m triggers (insert trigger m map)

unfoldable pub insert_matches : List TriggerMatch → Map Text TriggerMatch → Map Text TriggerMatch
insert_matches [] map = map
insert_matches (m ∷ ms) map = insert_matches ms (insert_triggers m m.triggers map)

unfoldable pub insert_variables : List Variable → Map Text Variable → Map Text Variable
insert_variables [] map = map
insert_variables (var ∷ vars) map = insert_variables vars (insert var.name var map)

unfoldable pub create_profile_cache :
    MatchesAndGlobalVars → Map Text TriggerMatch × Map Text Variable × List RegexMatch
create_profile_cache collection = (
  insert_matches collection.trigger_matches [],
  insert_variables collection.global_vars [],
  collection.regex_matches,
)

-- `CombinedMatchCache::load`
unfoldable pub load : List BuiltInMatch → Map ℕ BuiltInMatch → Map ℕ BuiltInMatch
load [] cache = cache
load (m ∷ ms) cache = load ms (insert m.id m cache)

abbrev pub detected : MatchRef → Text → DetectedMatch
detected id trigger = record {
  id = id;
  trigger = trigger;
  left_separator = none;
  right_separator = none;
  args = [];
}

unfoldable pub detect_builtin : Text → BuiltInMatch → Option DetectedMatch
detect_builtin trigger m =
    if any (text_eq trigger) m.triggers
    then some (detected (MatchRef.builtin m.id) trigger)
    else none

abbrev pub to_list : {A : Type 0} → Option A → List A
to_list none = []
to_list (some x) = x ∷ []

abbrev pub detect_user : Text → Option TriggerMatch → Option DetectedMatch
detect_user trigger none = none
detect_user trigger (some m) = some (detected (MatchRef.trigger m) trigger)

unfoldable pub find_matches_from_trigger :
    Map Text TriggerMatch → Map ℕ BuiltInMatch → Text → List DetectedMatch
find_matches_from_trigger trigger_map builtin_matches trigger =
    to_list (
      detect_user trigger
        (or_else (lookup trigger trigger_map) (lookup (to_ascii_lowercase trigger) trigger_map)))
    ++ filter_map (detect_builtin trigger) (values builtin_matches)

-- The last of the matches that has the trigger.
abbrev pub last_with : Text → List TriggerMatch → Option TriggerMatch
last_with trigger [] = none
last_with trigger (m ∷ ms) =
    or_else (last_with trigger ms) (if any (text_eq trigger) m.triggers then some m else none)

lookup-insert_triggers :
    (m : TriggerMatch) (trigger : Text) (triggers : List Text) (map : Map Text TriggerMatch)
    → lookup trigger (insert_triggers m triggers map)
      ≡ (if any (text_eq trigger) triggers then some m else lookup trigger map)
unfolding insert_triggers
lookup-insert_triggers m trigger [] map = refl
lookup-insert_triggers m trigger (t ∷ triggers) map =
    lookup-insert_triggers m trigger triggers (insert t m map)
    ∙ ground (arith, lookup-insert t trigger m map, text_eq_iff t trigger, text_eq_iff trigger t)

or_else-if :
    {A : Type 0} (x z : Option A) (b : Bool) (m : A)
    → or_else x (if b then some m else z) ≡ or_else (or_else x (if b then some m else none)) z
or_else-if (some y) z b m = refl
or_else-if none z true m = refl
or_else-if none z false m = refl

lookup-insert_matches :
    (trigger : Text) (ms : List TriggerMatch) (map : Map Text TriggerMatch)
    → lookup trigger (insert_matches ms map) ≡ or_else (last_with trigger ms) (lookup trigger map)
unfolding insert_matches
lookup-insert_matches trigger [] map = refl
lookup-insert_matches trigger (m ∷ ms) map =
    lookup-insert_matches trigger ms (insert_triggers m m.triggers map)
    ∙ ap (or_else (last_with trigger ms)) (lookup-insert_triggers m trigger m.triggers map)
    ∙ or_else-if (last_with trigger ms) (lookup trigger map) (any (text_eq trigger) m.triggers) m

-- A trigger of the cache stands for the last match of the profile that has it.
pub create_profile_cache-last :
    (collection : MatchesAndGlobalVars) (trigger : Text)
    → lookup trigger (create_profile_cache collection).0
      ≡ last_with trigger collection.trigger_matches
unfolding create_profile_cache lookup
create_profile_cache-last collection trigger =
    lookup-insert_matches trigger collection.trigger_matches []
    ∙ or_else-none (last_with trigger collection.trigger_matches)
