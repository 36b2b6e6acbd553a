-- ===== src/Render/Template/Panic.antt =====
-- The panics of `render_template` (crates/shinran_render/src/renderer/mod.rs): `v[0]` of an empty
-- text, and `unreachable!()` at a variable that is still unresolved.
use shinran.Prelude.{false, none, ◌≡◌, ◌⊎◌}
use shinran.Types.{date, shell, script, Params, Variable}
use shinran.Render.{RenderResult, Scope, Extensions}
use shinran.Render.Template.{is_unresolved, Turn, continue, return}

abbrev pub IsResolved : Variable → Type 0
IsResolved var = is_unresolved var ≡ false

-- What a panic of an extension is: of date, shell or script.
abbrev pub Panics : Extensions → Type 0
Panics extensions =
    (scope : Scope) × (params : Params) × ((extensions.date scope params ≡ none)
      ⊎ ((extensions.shell scope params ≡ none) ⊎ (extensions.script scope params ≡ none)))

-- Results and turns that are a panic only for the reason `B`.
abbrev Survives : Type 0 → RenderResult → Type 0
Survives B r = r ≡ RenderResult.panic → B

abbrev GoesOn : Type 0 → Turn → Type 0
GoesOn B (continue s) = Unit
GoesOn B (return r) = Survives B r
