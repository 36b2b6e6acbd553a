-- ===== src/Types.antt =====
-- crates/shinran_types/src/lib.rs: the data that the crates share, and the causes of a match.
-- A `HashMap<String, Value>` (`Params`, `Value::Object`) is `Fields`: its entries in the order of
-- iteration, which Rust leaves open. An `f64` is the number of its bit pattern.
pub mod Params
use shinran.Prelude.{ℕ, Text, Bool, true, false, Option, none, some, List, [], head?}

pub data VarType : Type 0 where
  date mock shell script random echo form match unresolved : VarType

-- `Number`: `negative n` is the integer -(n + 1).
pub data Number : Type 0 where
  integer negative : ℕ → Number
  float : (bits : ℕ) → Number

mutual
  pub data Value : Type 0 where
    null : Value
    bool : Bool → Value
    number : Number → Value
    string : Text → Value
    array : Values → Value
    object : Fields → Value

  pub data Values : Type 0 where
    nil : Values
    cons : Value → Values → Values

  pub data Fields : Type 0 where
    end : Fields
    field : Text → Value → Fields → Fields

abbrev pub Params : Type 0
Params = Fields

pub record Variable : Type 0 where
  pub name : Text
  pub var_type : VarType
  pub params : Params
  pub inject_vars : Bool
  pub depends_on : List Text

-- `Variable::default`
abbrev pub default_variable : Variable
default_variable = record {
  name = [];
  var_type = unresolved;
  params = end;
  inject_vars = true;
  depends_on = [];
}

pub data WordBoundary : Type 0 where
  neither left right both : WordBoundary

pub data UpperCasingStyle : Type 0 where
  uppercase capitalize capitalize_words : UpperCasingStyle

pub data TextFormat : Type 0 where
  plain markdown html : TextFormat

pub data TextInjectMode : Type 0 where
  keys clipboard : TextInjectMode

pub record TextEffect : Type 0 where
  pub body : Text
  pub vars : List Variable
  pub format : TextFormat
  pub force_mode : Option TextInjectMode

pub data MatchEffect : Type 0 where
  nothing : MatchEffect
  text : TextEffect → MatchEffect
  image : (path : Text) → MatchEffect

pub record BaseMatch : Type 0 where
  pub effect : MatchEffect
  pub label : Option Text
  pub search_terms : List Text

pub record TriggerMatch : Type 0 where
  pub base_match : BaseMatch
  pub triggers : List Text
  pub propagate_case : Bool
  pub uppercase_style : UpperCasingStyle
  pub word_boundary : WordBoundary

pub record RegexMatch : Type 0 where
  pub base_match : BaseMatch
  pub regex : Text

pub data MatchRef : Type 0 where
  trigger : TriggerMatch → MatchRef
  regex : RegexMatch → MatchRef
  builtin : (id : ℕ) → MatchRef

pub record TriggerCause : Type 0 where
  pub triggers : List Text
  pub word_boundary : WordBoundary
  pub propagate_case : Bool
  pub uppercase_style : UpperCasingStyle

pub data MatchCause : Type 0 where
  trigger : TriggerCause → MatchCause
  regex : (regex : Text) → MatchCause

-- `MatchCause::description`
unfoldable pub description : MatchCause → Option Text
description (MatchCause.trigger c) = head? c.triggers
description (MatchCause.regex r) = some r

-- `MatchCause::search_terms`
unfoldable pub search_terms : MatchCause → List Text
search_terms (MatchCause.trigger c) = c.triggers
search_terms (MatchCause.regex r) = []

pub record MatchesAndGlobalVars : Type 0 where
  pub trigger_matches : List TriggerMatch
  pub regex_matches : List RegexMatch
  pub global_vars : List Variable
