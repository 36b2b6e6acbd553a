-- ===== src/Render/Tests.antt =====
-- Tests of the renderer (crates/shinran_render/src/renderer/), on a regex that runs.
use shinran.Prelude.{
  ℕ, Text, text_eq, text_key, codes, Bool, true, false, none, some, List, [], ◌∷◌, ◌≡◌, ◌⊎◌, refl,
  sym, ap, subst, text_eq_iff, arith, length, contains, insert, extend, ok, err, if◌then◌else◌,
  append-nil,
}
use shinran.Prelude.Dict
use shinran.Prelude.Dict.{Map, lookup}
use shinran.Types.{VarType, string, end, field, Variable, default_variable, TextEffect}
use shinran.Types.Params
use shinran.Render.{
  RendererError, RenderResult, Context, single, ExtensionResult, Scope, Extensions,
}
use shinran.Render.Names.{get_body_variable_names}
use shinran.Render.Sample.{sample_regex, split}
use mathlib.Core.Option.{some-injective}
use shinran.Render.Resolve.{
  Node, match_body, deps, local_node, local_nodes, body_node, generate_nodes, resolve_dependencies,
  ordered_variables, resolve_evaluation_order,
}
use shinran.Render.Resolve.Topo.{Edge}
use shinran.Render.Resolve.Order.{Resolves, nodes, resolve_evaluation_order-Resolves}
use shinran.Render.Resolve.Complete.{
  IsWellFounded, resolve_evaluation_order-ok, resolve_evaluation_order-covers_body,
}
use shinran.Render.Util.{render_variables, unescape_variable_inections}
use shinran.Render.Casing.{Unicode, between}
use shinran.Render.Template.{
  continue, evaluate_all, evaluate, evaluate_as, evaluate_extension, calculate, calculate_echo,
  variable_params, call_extension, after_params, store,
}
use shinran.Render.Template.Bound.{IsBound}
use shinran.Render.Template.Expand.{expansion, render_variables-expansion, body_variables-IsBound}

abbrev pub echo_var : Variable
echo_var = record default_variable {
  name = codes "x";
  var_type = VarType.echo;
  params = field (codes "echo") (string (codes "Jo")) end;
  inject_vars = false;
}

abbrev pub greeting : Text
greeting = codes "Hi {{x}}"

-- Capital letters of ASCII only, and no word.
abbrev pub sample_unicode : Unicode
sample_unicode = record {
  upper_first = λ c. c;
  upper_rest = λ c. [];
  is_alphabetic = λ c. true;
  is_uppercase = λ c. false;
  words = λ s. between s ∷ [];
  join-words = append-nil;
}

abbrev pub sample_extensions : Extensions
sample_extensions = record {
  date = λ scope params. some ExtensionResult.aborted;
  shell = λ scope params. some ExtensionResult.aborted;
  script = λ scope params. some ExtensionResult.aborted;
  random = λ scope params. ExtensionResult.aborted;
  mock = λ scope params. ExtensionResult.aborted;
}

abbrev pub no_context : Context
no_context = record { matches_map = []; global_vars_map = [] }

abbrev pub never : TextEffect → RenderResult
never t = RenderResult.aborted

greeting_names : get_body_variable_names sample_regex greeting ≡ codes "x" ∷ []
unfolding get_body_variable_names split insert contains text_eq
greeting_names = refl

order_greeting :
    resolve_evaluation_order sample_regex greeting (echo_var ∷ []) [] ≡ ok (echo_var ∷ [])
unfolding resolve_evaluation_order generate_nodes local_nodes local_node body_node
    get_body_variable_names split extend insert contains Dict.insert Dict.lookup text_eq
    resolve_dependencies ordered_variables
order_greeting = refl

resolve_evaluation_order-Resolves_example :
    Resolves
      (nodes sample_regex greeting (echo_var ∷ []) [])
      (resolve_evaluation_order sample_regex greeting (echo_var ∷ []) [])
resolve_evaluation_order-Resolves_example =
    resolve_evaluation_order-Resolves sample_regex greeting (echo_var ∷ []) []

no_body_name : contains (codes "x" ∷ []) (codes "__match_body") ≡ false
unfolding contains text_eq
no_body_name = refl

nothing_named : contains [] (codes "__match_body") ≡ false
unfolding contains
nothing_named = refl

greeting_mentions : contains (get_body_variable_names sample_regex greeting) (codes "x") ≡ true
unfolding get_body_variable_names split insert contains text_eq
greeting_mentions = refl

resolve_evaluation_order-covers_body_example : contains (codes "x" ∷ []) (codes "x") ≡ true
resolve_evaluation_order-covers_body_example =
    resolve_evaluation_order-covers_body sample_regex greeting (echo_var ∷ []) [] (echo_var ∷ [])
      (codes "x") no_body_name nothing_named order_greeting greeting_mentions

abbrev greeting_scope : Scope
greeting_scope = (codes "x", single (codes "Jo")) ∷ []

greeting_evaluates :
    evaluate_all sample_regex sample_unicode sample_extensions no_context never (echo_var ∷ []) []
    ≡ continue greeting_scope
unfolding evaluate_all evaluate evaluate_as evaluate_extension variable_params after_params
    call_extension calculate calculate_echo store Params.get Dict.insert text_eq
greeting_evaluates = refl

body_variables-IsBound_example : IsBound (codes "x") greeting_scope
body_variables-IsBound_example =
    body_variables-IsBound sample_regex sample_unicode sample_extensions no_context never greeting
      (echo_var ∷ []) [] (echo_var ∷ []) greeting_scope (codes "x") no_body_name nothing_named
      order_greeting greeting_evaluates greeting_mentions

render_variables-expansion_example :
    ((t : Text) × (expansion greeting_scope (sample_regex.split greeting) ≡ some t)
      × (render_variables sample_regex greeting greeting_scope
          ≡ ok (unescape_variable_inections t)))
    ⊎ ((e : RendererError) × (expansion greeting_scope (sample_regex.split greeting) ≡ none)
        × (render_variables sample_regex greeting greeting_scope ≡ err e))
render_variables-expansion_example = render_variables-expansion sample_regex greeting greeting_scope

-- The body waits for the variable.
abbrev name_rank : Text → ℕ
name_rank x = length x

abbrev greeting_body : Node
greeting_body = record { name = match_body; variable = none; dependencies = some (codes "x" ∷ []) }

abbrev greeting_local : Node
greeting_local = record { name = codes "x"; variable = some echo_var; dependencies = some [] }

greeting-nodes :
    nodes sample_regex greeting (echo_var ∷ []) []
    ≡ (match_body, greeting_body) ∷ (codes "x", greeting_local) ∷ []
unfolding generate_nodes local_nodes local_node body_node get_body_variable_names split extend
    insert contains Dict.insert text_eq
greeting-nodes = refl

only_body :
    (x d : Text) (node : Node)
    → lookup x ((match_body, greeting_body) ∷ (codes "x", greeting_local) ∷ []) ≡ some node
    → contains (deps node) d ≡ true
    → (x ≡ match_body) × (d ≡ codes "x")
unfolding Dict.lookup
only_body x d node found depends =
    go (text_eq match_body x) (text_eq (codes "x") x) (text_eq_iff match_body x).0 found
  where
    named : contains (codes "x" ∷ []) d ≡ true → d ≡ codes "x"
    named h = unfold contains in ground (arith, text_eq_iff (codes "x") d)

    empty : (d : Text) → contains [] d ≡ true → ⊥
    empty d h = unfold contains in ground arith

    go :
        (a b : Bool)
        → (a ≡ true → match_body ≡ x)
        → (if a then some greeting_body else if b then some greeting_local else none) ≡ some node
        → (x ≡ match_body) × (d ≡ codes "x")
    go true b same q = (
      sym (same refl),
      named (subst (λ (n : Node). contains (deps n) d ≡ true) (sym (some-injective _ _ q)) depends),
    )
    go false true same q = absurd (
        empty d
          (subst (λ (n : Node). contains (deps n) d ≡ true) (sym (some-injective _ _ q)) depends))
    go false false same q = absurd (ground arith)

greeting-Edge :
    (x d : Text)
    → Edge (nodes sample_regex greeting (echo_var ∷ []) []) x d
    → (x ≡ match_body) × (d ≡ codes "x")
greeting-Edge x d e =
    only_body x d e.node (subst (λ m. lookup x m ≡ some e.node) greeting-nodes e.found) e.depends

greeting_present :
    lookup (codes "x") (nodes sample_regex greeting (echo_var ∷ []) []) ≡ some greeting_local
unfolding generate_nodes local_nodes local_node body_node get_body_variable_names split extend
    insert contains Dict.insert Dict.lookup text_eq
greeting_present = refl

greeting-IsWellFounded : IsWellFounded (nodes sample_regex greeting (echo_var ∷ []) []) name_rank
greeting-IsWellFounded = record {
  falls =
      λ x d e. omega (arith, ap length (greeting-Edge x d e).0, ap length (greeting-Edge x d e).1);
  present = λ x d e absent. cc (
    greeting_present,
    subst (λ z. lookup z (nodes sample_regex greeting (echo_var ∷ []) []) ≡ none)
        (greeting-Edge x d e).1 absent,
  );
}

resolve_evaluation_order-ok_example :
    (vars : List Variable) × (resolve_evaluation_order sample_regex greeting (echo_var ∷ []) []
      ≡ ok vars)
resolve_evaluation_order-ok_example =
    resolve_evaluation_order-ok sample_regex greeting (echo_var ∷ []) [] name_rank
      greeting-IsWellFounded
