-- ===== src/Config/Yaml/Triggers.antt =====
-- Which match of a YAML file (crates/shinran_config/src/matches/group/loader/yaml/mod.rs) a trigger
-- stands for: the last one that has it.
use shinran.Prelude.{
  ◌≡◌, refl, sym, ap, ◌∙◌, Text, text_eq, Bool, true, false, any, Option, none, some, List, [], ◌∷◌,
  ◌++◌, or_else, or_else_assoc, or_else-none, unwrap_or, if◌then◌else◌, arith, Result, success,
  failure, ◌and_then◌,
}
use shinran.Types.{
  TriggerMatch, MatchEffect, MatchCause, TextFormat, BaseMatch, UpperCasingStyle, nothing, text,
  image,
}
use shinran.Backend.ProfileCache.{last_with}
use shinran.Config.Yaml.Match.{
  YamlMatch, YamlError, Converted, Crates, try_convert_into_match, cause_of, uppercase_style_of,
  trigger_cause, style_warnings, effect_of, effect_from, text_effect, convert_variables, body_of,
  force_mode_of, finish_match, push_match, base_match_of, triggers_of,
}
use shinran.Config.Yaml.File.{convert_matches, note_match}
use shinran.Config.Yaml.Accounting.{and_then-success, success-injective}

abbrev has_trigger : Text → TriggerMatch → Option TriggerMatch
has_trigger trigger m = if any (text_eq trigger) m.triggers then some m else none

last_with-push :
    (trigger : Text) (ms : List TriggerMatch) (m : TriggerMatch)
    → last_with trigger (ms ++ m ∷ []) ≡ or_else (has_trigger trigger m) (last_with trigger ms)
last_with-push trigger [] m = sym (or_else-none (has_trigger trigger m))
last_with-push trigger (n ∷ ms) m =
    ap (λ o. or_else o (has_trigger trigger n)) (last_with-push trigger ms m)
    ∙ or_else_assoc (has_trigger trigger m) (last_with trigger ms) (has_trigger trigger n)

has_trigger-none :
    (trigger : Text) (m : TriggerMatch)
    → any (text_eq trigger) m.triggers ≡ false
    → has_trigger trigger m ≡ none
has_trigger-none trigger m h = ground (arith, h)

has_trigger-some :
    (trigger : Text) (m : TriggerMatch)
    → any (text_eq trigger) m.triggers ≡ true
    → has_trigger trigger m ≡ some m
has_trigger-some trigger m h = ground (arith, h)

-- A match of a file has the trigger.
abbrev pub triggers_with : Text → YamlMatch → Bool
triggers_with trigger m = any (text_eq trigger) (unwrap_or (triggers_of m) [])

-- A cause without the trigger.
abbrev cause_triggers : MatchCause → List Text
cause_triggers (MatchCause.trigger cause) = cause.triggers
cause_triggers (MatchCause.regex regex) = []

cause_of-triggers :
    (m : YamlMatch) (style : UpperCasingStyle) (cause : MatchCause)
    → cause_of m style ≡ success cause
    → cause_triggers cause ≡ unwrap_or (triggers_of m) []
unfolding cause_of trigger_cause
cause_of-triggers m style cause e = ground (arith, e)

push_match-other :
    (trigger : Text) (base : BaseMatch) (cause : MatchCause) (s : Converted)
    → any (text_eq trigger) (cause_triggers cause) ≡ false
    → last_with trigger (push_match base cause s).trigger_matches
      ≡ last_with trigger s.trigger_matches
unfolding push_match
push_match-other trigger base (MatchCause.regex regex) s h = refl
push_match-other trigger base (MatchCause.trigger cause) s h =
    last_with-push trigger s.trigger_matches _
    ∙ ap (λ o. or_else o (last_with trigger s.trigger_matches)) (has_trigger-none trigger _ h)

finish_match-other :
    (trigger : Text) (m : YamlMatch) (ws : List YamlError) (cause : MatchCause)
    (effect : MatchEffect) (s s' : Converted)
    → any (text_eq trigger) (cause_triggers cause) ≡ false
    → finish_match m ws cause effect s ≡ success s'
    → last_with trigger s'.trigger_matches ≡ last_with trigger s.trigger_matches
unfolding finish_match
finish_match-other trigger m ws cause nothing s s' h e = ground (arith, e)
finish_match-other trigger m ws cause (text t) s s' h e =
    ap (λ (s : Converted). last_with trigger s.trigger_matches) (sym (success-injective _ s' e))
    ∙ push_match-other trigger _ cause s h
finish_match-other trigger m ws cause (image path) s s' h e =
    ap (λ (s : Converted). last_with trigger s.trigger_matches) (sym (success-injective _ s' e))
    ∙ push_match-other trigger _ cause s h

match-other :
    (crates : Crates) (trigger : Text) (m : YamlMatch) (s s' : Converted)
    → triggers_with trigger m ≡ false
    → try_convert_into_match crates m s ≡ success s'
    → last_with trigger s'.trigger_matches ≡ last_with trigger s.trigger_matches
unfolding try_convert_into_match
match-other crates trigger m s s' h e =
    let (cause, p, rest) =
      and_then-success (cause_of m (uppercase_style_of m.uppercase_style).0) _ e in
    let (effect, q, last) = and_then-success (effect_of crates m) _ rest in
    finish_match-other trigger m _ cause effect.0 s s'
      (ap (any (text_eq trigger)) (cause_of-triggers m _ cause p) ∙ h) last

note_match-other :
    (trigger : Text) (r : Result YamlError Converted) (s : Converted)
    → ((s' : Converted)
        → r ≡ success s'
        → last_with trigger s'.trigger_matches ≡ last_with trigger s.trigger_matches)
    → last_with trigger (note_match r s).trigger_matches ≡ last_with trigger s.trigger_matches
note_match-other trigger (success s') s same = same s' refl
note_match-other trigger (failure e) s same = refl

-- Matches without a trigger leave what it stands for.
pub convert_matches-other :
    (crates : Crates) (trigger : Text) (ms : List YamlMatch) (s : Converted)
    → any (triggers_with trigger) ms ≡ false
    → last_with trigger (convert_matches crates ms s).trigger_matches
      ≡ last_with trigger s.trigger_matches
unfolding convert_matches
convert_matches-other crates trigger [] s h = refl
convert_matches-other crates trigger (m ∷ ms) s h =
    let r = try_convert_into_match crates m s in
    convert_matches-other crates trigger ms (note_match r s) (ground (arith, h))
    ∙ note_match-other trigger r s (λ s' e. match-other crates trigger m s s' (ground (arith, h)) e)

-- The match of the profile for a match of a file with triggers and a body.
abbrev pub trigger_match : Crates → YamlMatch → List Text → Text × TextFormat → TriggerMatch
trigger_match crates m triggers body =
    let cause = trigger_cause m (uppercase_style_of m.uppercase_style).0 triggers in
    record {
      base_match = base_match_of m (
          MatchEffect.text (record {
            body = body.0;
            vars = [];
            format = body.1;
            force_mode = force_mode_of crates m;
          }));
      triggers = triggers;
      propagate_case = cause.propagate_case;
      uppercase_style = cause.uppercase_style;
      word_boundary = cause.word_boundary;
    }

cause_of-trigger :
    (m : YamlMatch) (style : UpperCasingStyle) (triggers : List Text)
    → triggers_of m ≡ some triggers
    → cause_of m style ≡ success (MatchCause.trigger (trigger_cause m style triggers))
unfolding cause_of
cause_of-trigger m style triggers t = ground (arith, t)

effect_of-plain :
    (crates : Crates) (m : YamlMatch) (body : Text × TextFormat)
    → body_of m ≡ some body
    → m.vars ≡ none
    → effect_of crates m
      ≡ success (
        MatchEffect.text (record {
          body = body.0;
          vars = [];
          format = body.1;
          force_mode = force_mode_of crates m;
        }),
        [],
      )
unfolding effect_of effect_from text_effect convert_variables
effect_of-plain crates m body b v =
    ap (λ o. effect_from crates m o m.form m.image_path) b
    ∙ ap
        (λ vars. convert_variables (unwrap_or vars []) [] [] and_then λ converted. success (
          MatchEffect.text (record {
            body = body.0;
            vars = converted.0;
            format = body.1;
            force_mode = force_mode_of crates m;
          }),
          converted.1,
        ))
        v

-- What is converted, given the cause and the effect.
with_parts :
    Crates
    → YamlMatch
    → Converted
    → Result YamlError MatchCause
    → Result YamlError (MatchEffect × List YamlError)
    → Result YamlError Converted
with_parts crates m s cause effect = cause and_then λ c. effect and_then λ e.
    finish_match m
      (style_warnings m.uppercase_style m.propagate_case
        ++ (uppercase_style_of m.uppercase_style).1
        ++ e.1)
      c e.0 s

-- A match with triggers and a body without variables joins the matches.
try_convert-plain :
    (crates : Crates) (m : YamlMatch) (s : Converted) (triggers : List Text)
    (body : Text × TextFormat)
    → triggers_of m ≡ some triggers
    → body_of m ≡ some body
    → m.vars ≡ none
    → (s' : Converted) × (try_convert_into_match crates m s ≡ success s')
      × (s'.trigger_matches ≡ s.trigger_matches ++ trigger_match crates m triggers body ∷ [])
unfolding try_convert_into_match finish_match push_match with_parts trigger_cause
try_convert-plain crates m s triggers body t b v = (
  _,
  ap (λ cause. with_parts crates m s cause (effect_of crates m))
        (cause_of-trigger m (uppercase_style_of m.uppercase_style).0 triggers t)
      ∙ ap
          (λ effect.
            with_parts crates m s
              (success (
                MatchCause.trigger
                  (trigger_cause m (uppercase_style_of m.uppercase_style).0 triggers)))
              effect)
          (effect_of-plain crates m body b v),
  refl,
)

convert_matches-append :
    (crates : Crates) (ms ns : List YamlMatch) (s : Converted)
    → convert_matches crates (ms ++ ns) s ≡ convert_matches crates ns (convert_matches crates ms s)
unfolding convert_matches
convert_matches-append crates [] ns s = refl
convert_matches-append crates (m ∷ ms) ns s = convert_matches-append crates ms ns _

-- After the matches of a file, a trigger stands for the match that they have it in last.
pub convert_matches-last :
    (crates : Crates) (before after : List YamlMatch) (m : YamlMatch) (s : Converted)
    (trigger : Text) (triggers : List Text) (body : Text × TextFormat)
    → triggers_of m ≡ some triggers
    → any (text_eq trigger) triggers ≡ true
    → body_of m ≡ some body
    → m.vars ≡ none
    → any (triggers_with trigger) after ≡ false
    → last_with trigger (convert_matches crates (before ++ m ∷ after) s).trigger_matches
      ≡ some (trigger_match crates m triggers body)
unfolding convert_matches
convert_matches-last crates before after m s trigger triggers body t has b v none_after =
    let s1 = convert_matches crates before s in
    let (s2, e, pushed) = try_convert-plain crates m s1 triggers body t b v in
    let last_of = λ (s : Converted). last_with trigger s.trigger_matches in
    ap last_of (convert_matches-append crates before (m ∷ after) s)
    ∙ convert_matches-other crates trigger after
        (note_match (try_convert_into_match crates m s1) s1) none_after
    ∙ ap (λ r. last_of (note_match r s1)) e
    ∙ ap (last_with trigger) pushed
    ∙ last_with-push trigger s1.trigger_matches (trigger_match crates m triggers body)
    ∙ ap (λ o. or_else o (last_of s1))
        (has_trigger-some trigger (trigger_match crates m triggers body) has)
