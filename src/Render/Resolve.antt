-- ===== src/Render/Resolve.antt =====
-- crates/shinran_render/src/renderer/resolve.rs: the order in which variables are evaluated.
pub mod Topo
pub mod Calls
pub mod Correct
pub mod Nodes
pub mod Order
pub mod Complete
pub mod Members
use shinran.Prelude.{
  ℕ, zero, suc, Text, codes, Bool, true, false, not, ◌&&◌, ◌||◌, Option, none, some, List, [], ◌∷◌,
  ◌++◌, map, head?, contains, insert, extend, text_key, Run, ok, err, out_of_fuel, ◌>>=◌, length,
  if◌then◌else◌,
}
use shinran.Prelude.Dict
use shinran.Prelude.Dict.{Map}
use shinran.Types.{Variable}
use shinran.Render.{
  VarRegex, RendererError, missing_variable, circular_dependency, missing_body_node,
  missing_dependency_node,
}
use shinran.Render.Names.{get_body_variable_names, get_params_variable_names}

pub record Node : Type 0 where
  pub name : Text
  pub variable : Option Variable
  pub dependencies : Option (List Text)

-- The three `RefCell`s that the recursion shares.
pub record State : Type 0 where
  pub eval_order : List Text
  pub resolved : List Text
  pub seen : List Text

abbrev pub initial : State
initial = record { eval_order = []; resolved = []; seen = [] }

abbrev pub NodeMap : Type 0
NodeMap = Map Text Node

abbrev pub match_body : Text
match_body = codes "__match_body"

abbrev pub is_empty {ℓ} : {A : Type ℓ} → List A → Bool
is_empty [] = true
is_empty (x ∷ xs) = false

-- `node_map.insert(node.name, node)` for each node.
abbrev pub insert_nodes : List Node → NodeMap → NodeMap
insert_nodes [] m = m
insert_nodes (node ∷ nodes) m = insert_nodes nodes (Dict.insert node.name node m)

module _ (regex : VarRegex) where
  unfoldable pub create_node_from_var : Variable → Node
  create_node_from_var var =
      let injected = if var.inject_vars then get_params_variable_names regex var.params else [] in
      record {
        name = var.name;
        variable = some var;
        dependencies =
            if var.inject_vars || not (is_empty var.depends_on)
            then some (extend var.depends_on (extend injected []))
            else none;
      }

  -- The body of the first loop of `generate_nodes`, with the variable before this one.
  unfoldable pub local_node : Option Variable → Variable → Node
  local_node previous_var var =
      let injected = if var.inject_vars then get_params_variable_names regex var.params else [] in
      let dependencies = extend var.depends_on (extend injected []) in
      record {
        name = var.name;
        variable = some var;
        dependencies =
            some (elim previous_var [ none ↦ dependencies | some p ↦ insert p.name dependencies ]);
      }

  unfoldable pub local_nodes : Option Variable → List Variable → List Node
  local_nodes previous_var [] = []
  local_nodes previous_var (var ∷ vars) = local_node previous_var var ∷ local_nodes (some var) vars

  unfoldable pub body_node : Text → List Variable → Node
  body_node body local_vars = record {
    name = match_body;
    variable = none;
    dependencies = some (
        extend (get_body_variable_names regex body)
          (extend (map (λ (node : Node). node.name) (local_nodes none local_vars)) []));
  }

  unfoldable pub generate_nodes : Text → List Variable → List Variable → NodeMap
  generate_nodes body local_vars global_vars = insert_nodes (local_nodes none local_vars) (
      insert_nodes (map create_node_from_var global_vars)
        (Dict.insert match_body (body_node body local_vars) []))

abbrev pub Resolving : Type 0
Resolving = Run RendererError State

abbrev pub deps : Node → List Text
deps node = elim node.dependencies [ none ↦ [] | some names ↦ names ]

module _ (node_map : NodeMap) where
  -- The loop over the dependencies of the node `name`; `visit` is the recursive call.
  unfoldable pub resolve_all : (Node → State → Resolving) → Text → List Text → State → Resolving
  unfolding contains Dict.lookup
  resolve_all visit name [] s = ok s
  resolve_all visit name (dependency ∷ rest) s =
      let next = resolve_all visit name rest in
      if contains s.resolved dependency
      then next s
      else if contains s.seen dependency
      then err (circular_dependency name dependency)
      else elim (Dict.lookup dependency node_map) [
        | none ↦ err (missing_variable dependency)
        | some node ↦ visit node s >>= next
      ]

  abbrev pub mark_seen : Node → State → State
  mark_seen node s = record s { seen = insert node.name s.seen }

  abbrev pub push : Node → State → State
  push node s = record s {
    eval_order = s.eval_order ++ node.name ∷ [];
    resolved = insert node.name s.resolved;
  }

  unfoldable pub resolve_dependencies : ℕ → Node → State → Resolving
  unfolding resolve_all insert
  resolve_dependencies zero node s = out_of_fuel
  resolve_dependencies (suc fuel) node s =
      resolve_all (resolve_dependencies fuel) node.name (deps node) (mark_seen node s) >>= λ s'.
      ok (push node s')

  -- The last loop of `resolve_evaluation_order`.
  unfoldable pub ordered_variables : List Text → Run RendererError (List Variable)
  unfolding Dict.lookup
  ordered_variables [] = ok []
  ordered_variables (var_name ∷ names) = elim (Dict.lookup var_name node_map) [
    | none ↦ err (missing_dependency_node var_name)
    | some node ↦ ordered_variables names >>= λ vars.
        ok (elim node.variable [ none ↦ vars | some var ↦ var ∷ vars ])
  ]

-- Each call marks a new node, so the number of nodes is fuel enough.
unfoldable pub resolve_evaluation_order :
    VarRegex → Text → List Variable → List Variable → Run RendererError (List Variable)
resolve_evaluation_order regex body local_vars global_vars =
    let node_map = generate_nodes regex body local_vars global_vars in
    elim (Dict.lookup match_body node_map) [
      | none ↦ err missing_body_node
      | some body_node ↦ resolve_dependencies node_map (length node_map) body_node initial >>= λ s.
          ordered_variables node_map s.eval_order
    ]
