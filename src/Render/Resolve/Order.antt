-- ===== src/Render/Resolve/Order.antt =====
-- What `resolve_evaluation_order` returns (crates/shinran_render/src/renderer/resolve.rs).
use shinran.Prelude.{
  Text, true, none, some, List, [], ◌∷◌, ◌++◌, ◌≡◌, refl, sym, ◌∙◌, subst, arith, contains,
  text_key, key_iff, length, Run, ok, err, out_of_fuel, ◌>>=◌,
}
use shinran.Prelude.Dict.{lookup}
use shinran.Types.{Variable}
use shinran.Render.{VarRegex, RendererError}
use shinran.Render.Resolve.{
  Node, NodeMap, State, initial, match_body, generate_nodes, resolve_dependencies,
  ordered_variables, resolve_evaluation_order,
}
use shinran.Render.Resolve.Topo.{TopoFrom, IsTopological, unseen_all}
use shinran.Render.Resolve.Calls.{IsNamed, IsFault, Returns, Post, Enter}
use shinran.Render.Resolve.Correct.{resolve_dependencies_lem}
use shinran.Render.Resolve.Nodes.{generate_nodes-IsNamed, generate_nodes-IsFound}

-- The variables of the nodes with the names in `order`, in that order.
abbrev pub variables_of : NodeMap → List Text → List Variable
variables_of m [] = []
variables_of m (x ∷ order) =
    let rest = variables_of m order in
    elim (lookup x m) [
      | none ↦ rest
      | some node ↦ elim node.variable [ none ↦ rest | some var ↦ var ∷ rest ]
    ]

ordered_variables_lem :
    (m : NodeMap) (placed order : List Text)
    → TopoFrom m placed order
    → ordered_variables m order ≡ ok (variables_of m order)
unfolding ordered_variables
ordered_variables_lem m placed [] h = refl
ordered_variables_lem m placed (x ∷ order) h =
    ground (arith, h.0.found, ordered_variables_lem m (placed ++ x ∷ []) order h.1)

-- The list of variables comes from an order of names that places everything a variable needs
-- before it, and the body itself.
pub record IsOrder (m : NodeMap) (vars : List Variable) : Type 0 where
  pub order : List Text
  pub topological : IsTopological m order
  pub has_body : contains order match_body ≡ true
  pub vars_eq : vars ≡ variables_of m order

-- The specification of the resolver: an order of evaluation, or a fault of the variables.
abbrev pub Resolves : NodeMap → Run RendererError (List Variable) → Type 0
Resolves m (ok vars) = IsOrder m vars
Resolves m (err e) = IsFault m e
Resolves m out_of_fuel = ⊥

module _ (m : NodeMap) (named : IsNamed m) (node : Node)
    (found : lookup match_body m ≡ some node) where
  start : Enter m (length m) node initial
  start = record {
    pre = record {
      inv = record { ordered = tt; same = λ d. refl; is_seen = λ d h. unfold contains in cc };
      enough = unseen_all m;
      stack = λ y h k. unfold contains in cc;
    };
    found = subst (λ x. lookup x m ≡ some node) (sym (named.name_of match_body node found)) found;
    new = unfold contains in refl;
  }

  finish :
      (r : Run RendererError State)
      → Returns m (Post m (node.name ∷ []) initial) r
      → Resolves m (r >>= λ s. ordered_variables m s.eval_order)
  finish (ok t) p = rw (ordered_variables_lem m [] t.eval_order p.inv.ordered) (record {
    order = t.eval_order;
    topological = p.inv.ordered;
    has_body = p.inv.same match_body ∙ p.all_resolved match_body self;
    vars_eq = refl;
  })
    where
      self : contains (node.name ∷ []) match_body ≡ true
      self =
          unfold contains in
          ground (arith, key_iff node.name match_body, named.name_of match_body node found)
  finish (err e) p = p
  finish out_of_fuel p = p

module _ (regex : VarRegex) (body : Text) (local_vars global_vars : List Variable) where
  abbrev pub nodes : NodeMap
  nodes = generate_nodes regex body local_vars global_vars

  -- Whatever the template and the variables, `resolve_evaluation_order` ends. It returns the
  -- variables of a topological order of their dependencies that has the body in it, or the error
  -- that names a dependency which no variable has, or a dependency that is part of a cycle.
  pub resolve_evaluation_order-Resolves :
      Resolves nodes (resolve_evaluation_order regex body local_vars global_vars)
  unfolding resolve_evaluation_order
  resolve_evaluation_order-Resolves =
      let named = generate_nodes-IsNamed regex body local_vars global_vars in
      let (node, found) = generate_nodes-IsFound regex body local_vars global_vars in
      rw (found, Resolves, resolve_evaluation_order)
        (finish nodes named node found (resolve_dependencies nodes (length nodes) node initial) (
          resolve_dependencies_lem nodes named (length nodes) node initial
            (start nodes named node found)))
