-- ===== src/Backend.antt =====
-- crates/shinran_backend/src/: from what was typed to the text that replaces it. The crates `regex` and
-- `unicode_segmentation` are parameters.
pub mod CasingStyle
pub mod ProfileCache
pub mod Regex
pub mod Adapter
pub mod Answers
pub mod Hints
pub mod Startup
pub mod Paths
pub mod Creation
pub mod Tests
use shinran.Prelude.{ℕ, Text, Option, List}
use shinran.Prelude.Dict.{Map}
use shinran.Types.{MatchRef}
use shinran.Render

-- src/engine.rs
pub data RendererError : Type 0 where
  rendering_error : Render.RendererError → RendererError
  not_found aborted : RendererError

pub record DetectedMatch : Type 0 where
  pub id : MatchRef
  pub trigger : Text
  pub left_separator : Option Text
  pub right_separator : Option Text
  pub args : Map Text Text

-- src/event.rs: what a built-in match asks for
pub data ExitMode : Type 0 where
  exit exit_all_processes restart_worker : ExitMode

pub data EventType : Type 0 where
  noop show_logs : EventType
  exit_requested exit_with : ExitMode → EventType

-- src/builtin/mod.rs; the action is what the function gives.
pub record BuiltInMatch : Type 0 where
  pub id : ℕ
  pub label : Text
  pub triggers : List Text
  pub hotkey : Option Text
  pub action : EventType
