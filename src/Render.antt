-- ===== src/Render.antt =====
-- crates/shinran_render/src/lib.rs and src/renderer/: rendering a template to the text that is
-- typed. The `regex` crate is not part of the repository: what the renderer uses of `VAR_REGEX` is
-- the interface `VarRegex`.
pub mod Names
pub mod Resolve
pub mod Sample
pub mod Tests
pub mod Util
pub mod Casing
pub mod Template
pub mod Extension
use shinran.Prelude.{Text, Option, none, some, List, [], ◌∷◌, ◌++◌, ◌≡◌}
use shinran.Prelude.Dict.{Map}
use shinran.Types.{Params, TriggerMatch, Variable}

-- A text as `replace_all` of the `regex` crate sees it: the parts between the matches, and for
-- each match its text with the groups `name` and `subname`.
pub data Segment : Type 0 where
  plain : Text → Segment
  capture : (matched name : Text) (subname : Option Text) → Segment

abbrev pub source : Segment → Text
source (plain s) = s
source (capture s name subname) = s

abbrev pub join : List Segment → Text
join [] = []
join (s ∷ ss) = source s ++ join ss

-- `VAR_REGEX` of src/renderer/mod.rs. The parts and the matches together are the text.
pub record VarRegex : Type 0 where
  pub split : Text → List Segment
  pub join-split : (s : Text) → join (split s) ≡ s

-- The errors of the renderer: `RendererError`, the two `anyhow!` errors of the resolver, and what
-- an extension reports.
pub data RendererError : Type 0 where
  missing_variable : Text → RendererError
  missing_sub_match : RendererError
  circular_dependency : Text → Text → RendererError
  missing_body_node : RendererError
  missing_dependency_node : Text → RendererError
  extension_error : Text → RendererError

-- src/lib.rs of the crate. A `RenderResult` of the model may also say that the program panics, or
-- that matches are nested deeper than the fuel.
pub data RenderResult : Type 0 where
  success : Text → RenderResult
  aborted : RenderResult
  error : RendererError → RenderResult
  panic : RenderResult
  out_of_fuel : RenderResult

pub record Context : Type 0 where
  pub matches_map : Map Text TriggerMatch
  pub global_vars_map : Map Text Variable

pub data CasingStyle : Type 0 where
  unchanged capitalize capitalize_words uppercase : CasingStyle

pub data ExtensionOutput : Type 0 where
  single : Text → ExtensionOutput
  multiple : Map Text Text → ExtensionOutput

pub data ExtensionResult : Type 0 where
  success : ExtensionOutput → ExtensionResult
  aborted : ExtensionResult
  error : RendererError → ExtensionResult

abbrev pub Scope : Type 0
Scope = Map Text ExtensionOutput

-- `calculate` of the extensions that read the clock, start processes or draw random numbers, and
-- of the mock that a test puts in. A result may differ from call to call in the program: the model
-- has the answers of one rendering, as a function of what the extension is given; `none` is a panic.
pub record Extensions : Type 0 where
  pub date : Scope → Params → Option ExtensionResult
  pub shell : Scope → Params → Option ExtensionResult
  pub script : Scope → Params → Option ExtensionResult
  pub random : Scope → Params → ExtensionResult
  pub mock : Scope → Params → ExtensionResult
