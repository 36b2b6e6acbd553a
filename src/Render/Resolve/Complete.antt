-- ===== src/Render/Resolve/Complete.antt =====
-- When `resolve_evaluation_order` succeeds, and what its answer covers
-- (crates/shinran_render/src/renderer/resolve.rs).
use shinran.Prelude.{
  ℕ, ◌≤◌, ◌<◌, Text, Bool, true, false, Option, none, some, List, [], ◌∷◌, ◌++◌, ◌≡◌, ◌≢◌, refl,
  sym, ◌∙◌, subst, arith, map, contains, contains-append, contains-extend, text_key, key_iff,
  key_refl, if◌then◌else◌, Bool-cases, inl, inr, ◌⊎◌, Run, ok, err, out_of_fuel, append_assoc,
}
use shinran.Prelude.Dict
use shinran.Prelude.Dict.{lookup, lookup-insert}
use shinran.Types.{Variable}
use shinran.Render.{VarRegex, RendererError}
use shinran.Render.Names.{get_body_variable_names}
use shinran.Render.Resolve.{
  Node, NodeMap, match_body, deps, create_node_from_var, local_node, local_nodes, insert_nodes,
  body_node, generate_nodes, resolve_evaluation_order,
}
use shinran.Render.Resolve.Topo.{Edge, Reach, here, next, TopoFrom}
use shinran.Render.Resolve.Calls.{IsFault, missing, cycle}
use shinran.Render.Resolve.Nodes.{names_of_vars, lookup-generate_nodes}
use shinran.Render.Resolve.Order.{
  variables_of, IsOrder, Resolves, nodes, resolve_evaluation_order-Resolves,
}

-- Every dependency has a node, and `rank` falls along each, so that there is no cycle.
pub record IsWellFounded (m : NodeMap) (rank : Text → ℕ) : Type 0 where
  pub falls : (x d : Text) → Edge m x d → rank d < rank x
  pub present : (x d : Text) → Edge m x d → lookup d m ≢ none

Reach-rank :
    {m : NodeMap} {rank : Text → ℕ} {a b : Text}
    → IsWellFounded m rank
    → Reach m a b
    → rank b ≤ rank a
Reach-rank w here = omega arith
Reach-rank w (next {b = b} {c = c} r e) = omega (arith, Reach-rank w r, w.falls b c e)

not-IsFault :
    {m : NodeMap} {rank : Text → ℕ} {e : RendererError} → IsWellFounded m rank → ¬ IsFault m e
not-IsFault w (missing {x = x} {d = d} edge absent) = w.present x d edge absent
not-IsFault w (cycle {x = x} {d = d} edge back) = omega (arith, w.falls x d edge, Reach-rank w back)

Resolves-ok :
    {m : NodeMap} {rank : Text → ℕ} (r : Run RendererError (List Variable))
    → IsWellFounded m rank
    → Resolves m r
    → (vars : List Variable) × (r ≡ ok vars)
Resolves-ok (ok vars) w h = (vars, refl)
Resolves-ok (err e) w h = absurd (not-IsFault w h)
Resolves-ok out_of_fuel w h = absurd h

-- If no dependency is missing and no variable depends on itself through others, an order is found.
pub resolve_evaluation_order-ok :
    (regex : VarRegex) (body : Text) (local_vars global_vars : List Variable) (rank : Text → ℕ)
    → IsWellFounded (nodes regex body local_vars global_vars) rank
    → (vars : List Variable) × (resolve_evaluation_order regex body local_vars global_vars
        ≡ ok vars)
resolve_evaluation_order-ok regex body local_vars global_vars rank w =
    Resolves-ok _ w (resolve_evaluation_order-Resolves regex body local_vars global_vars)

-- A name in the order has a node, and what that node depends on is placed.
record Placed (m : NodeMap) (names : List Text) (x : Text) : Type 0 where
  node : Node
  found : lookup x m ≡ some node
  placed_deps : (d : Text) → contains (deps node) d ≡ true → contains names d ≡ true
  not_self : contains (deps node) x ≡ false

TopoFrom-Placed :
    (m : NodeMap) (placed order : List Text) (x : Text)
    → TopoFrom m placed order
    → contains order x ≡ true
    → Placed m (placed ++ order) x
TopoFrom-Placed m placed [] x h k = unfold contains in cc
TopoFrom-Placed m placed (y ∷ order) x h k = elim (Bool-cases (text_key.equals y x)) [
  | inl same ↦
      let e = (key_iff y x).0 same in
      subst (Placed m (placed ++ y ∷ order)) e (record {
        node = h.0.node;
        found = h.0.found;
        placed_deps =
            λ d q. ground (arith, contains-append placed (y ∷ order) d, h.0.placed_deps d q);
        not_self = ground (arith, h.0.placed_deps y, h.0.fresh);
      })
  | inr other ↦
      rw (← append_assoc placed (y ∷ []) order)
        (TopoFrom-Placed m (placed ++ y ∷ []) order x h.1 (unfold contains in ground arith))
]

-- A node other than the body's has the variable of its name.
record HasVariable (m : NodeMap) : Type 0 where
  variable_of :
      (x : Text) (node : Node)
      → lookup x m ≡ some node
      → x ≢ match_body
      → (var : Variable) × (node.variable ≡ some var) × (var.name ≡ x)

OfVariable : Node → Type 0
OfVariable node = (var : Variable) × (node.variable ≡ some var) × (var.name ≡ node.name)

AllOf : List Node → Type 0
AllOf nodes = shinran.Prelude.All OfVariable nodes

insert_nodes-HasVariable :
    (ns : List Node) (m : NodeMap) → AllOf ns → HasVariable m → HasVariable (insert_nodes ns m)
unfolding AllOf OfVariable
insert_nodes-HasVariable [] m a h = h
insert_nodes-HasVariable (node ∷ ns) m a h =
    insert_nodes-HasVariable ns (Dict.insert node.name node m) a.1 (record {
      variable_of = λ x n e other. elim (Bool-cases (text_key.equals node.name x)) [
        | inl same ↦
            let (var, has, named) = a.0 in
            (
              var,
              ground (arith, lookup-insert node.name x node m),
              ground (arith, key_iff node.name x),
            )
        | inr differs ↦ h.variable_of x n (ground (arith, lookup-insert node.name x node m)) other
      ];
    })

lookup_nil : (x : Text) → lookup {V = Node} x [] ≡ none
unfolding lookup
lookup_nil x = refl

module _ (regex : VarRegex) where
  locals-AllOf : (p : Option Variable) (vars : List Variable) → AllOf (local_nodes regex p vars)
  unfolding AllOf OfVariable local_nodes local_node
  locals-AllOf p [] = tt
  locals-AllOf p (var ∷ vars) = ((var, refl, refl), locals-AllOf (some var) vars)

  globals-AllOf : (vars : List Variable) → AllOf (map (create_node_from_var regex) vars)
  unfolding AllOf OfVariable create_node_from_var
  globals-AllOf [] = tt
  globals-AllOf (var ∷ vars) = ((var, refl, refl), globals-AllOf vars)

  generate_nodes-HasVariable :
      (body : Text) (local_vars global_vars : List Variable)
      → HasVariable (generate_nodes regex body local_vars global_vars)
  unfolding generate_nodes
  generate_nodes-HasVariable body local_vars global_vars =
      insert_nodes-HasVariable (local_nodes regex none local_vars) _ (locals-AllOf none local_vars)
        (insert_nodes-HasVariable (map (create_node_from_var regex) global_vars) _
          (globals-AllOf global_vars)
          (record { variable_of = λ x n e other. absurd (other (body_only x n e)) }))
    where
      body_only :
          (x : Text) (n : Node)
          → lookup x (Dict.insert match_body (body_node regex body local_vars) []) ≡ some n
          → x ≡ match_body
      body_only x n e = ground (
        arith,
        lookup-insert match_body x (body_node regex body local_vars) [],
        key_iff match_body x,
        lookup_nil x,
      )

variables_of-contains :
    (m : NodeMap) (order : List Text) (x : Text) (node : Node) (var : Variable)
    → contains order x ≡ true
    → lookup x m ≡ some node
    → node.variable ≡ some var
    → var.name ≡ x
    → contains (names_of_vars (variables_of m order)) x ≡ true
unfolding contains
variables_of-contains m [] x node var h found has named = cc
variables_of-contains m (y ∷ order) x node var h found has named =
    elim (Bool-cases (text_key.equals y x)) [
      | inl same ↦
          let e = (key_iff y x).0 same in
          let found_y = subst (λ z. lookup z m ≡ some node) (sym e) found in
          rw (found_y, has, variables_of) (ground (arith, key_iff var.name x))
      | inr other ↦ ground (
        arith,
        variables_of-contains m order x node var (unfold contains in ground arith) found has named,
      )
    ]

body_node-deps :
    (regex : VarRegex) (body : Text) (local_vars : List Variable) (x : Text)
    → contains (get_body_variable_names regex body) x ≡ true
    → contains (deps (body_node regex body local_vars)) x ≡ true
unfolding body_node
body_node-deps regex body local_vars x h = rw contains-extend (rw h)

-- If no variable takes the name of the body's node, and an order is found, then each variable that
-- the body mentions is in it.
pub resolve_evaluation_order-covers_body :
    (regex : VarRegex) (body : Text) (local_vars global_vars : List Variable) (vars : List Variable)
    (x : Text)
    → contains (names_of_vars local_vars) match_body ≡ false
    → contains (names_of_vars global_vars) match_body ≡ false
    → resolve_evaluation_order regex body local_vars global_vars ≡ ok vars
    → contains (get_body_variable_names regex body) x ≡ true
    → contains (names_of_vars vars) x ≡ true
resolve_evaluation_order-covers_body regex body local_vars global_vars vars x h k e mentioned =
    let m = nodes regex body local_vars global_vars in
    let o : IsOrder m vars =
      subst (Resolves m) e (resolve_evaluation_order-Resolves regex body local_vars global_vars) in
    let root = TopoFrom-Placed m [] o.order match_body o.topological o.has_body in
    let is_body = lookup-generate_nodes regex body local_vars global_vars h k in
    let same : root.node ≡ body_node regex body local_vars = cc (root.found, is_body) in
    let dep : contains (deps root.node) x ≡ true =
      rw same (body_node-deps regex body local_vars x mentioned) in
    let other : x ≢ match_body =
      λ q. cc (subst (λ z. contains (deps root.node) z ≡ true) q dep, root.not_self) in
    let inner = TopoFrom-Placed m [] o.order x o.topological (root.placed_deps x dep) in
    let (var, has, named) =
      (generate_nodes-HasVariable regex body local_vars global_vars).variable_of x inner.node
        inner.found other in
    rw o.vars_eq (
      variables_of-contains m o.order x inner.node var (root.placed_deps x dep) inner.found has
        named)
