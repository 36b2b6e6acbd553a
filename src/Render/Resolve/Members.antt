-- ===== src/Render/Resolve/Members.antt =====
-- The resolver returns none but the variables that it is given
-- (crates/shinran_render/src/renderer/resolve.rs).
use shinran.Prelude.{
  Text, All, Option, none, some, Option-cases, List, [], ◌∷◌, ◌≡◌, sym, subst, arith, map, text_key,
  Bool-cases, inl, inr, ok,
}
use shinran.Prelude.Dict
use shinran.Prelude.Dict.{lookup, lookup-insert}
use shinran.Types.{Variable}
use shinran.Render.{VarRegex}
use shinran.Render.Resolve.{
  Node, NodeMap, create_node_from_var, local_node, local_nodes, insert_nodes, body_node,
  generate_nodes, resolve_evaluation_order,
}
use shinran.Render.Resolve.Order.{
  variables_of, IsOrder, Resolves, nodes, resolve_evaluation_order-Resolves,
}

module _ (P : Variable → Type 0) where
  record NodesHave (m : NodeMap) : Type 0 where
    have :
        (x : Text) (node : Node) (var : Variable)
        → lookup x m ≡ some node
        → node.variable ≡ some var
        → P var

  record NodeHas (node : Node) : Type 0 where
    has : (var : Variable) → node.variable ≡ some var → P var

  insert-NodesHave :
      (node : Node) (m : NodeMap)
      → NodeHas node
      → NodesHave m
      → NodesHave (Dict.insert node.name node m)
  insert-NodesHave node m p h = record {
    have = λ x n var e q. elim (Bool-cases (text_key.equals node.name x)) [
      | inl same ↦ p.has var (ground (arith, lookup-insert node.name x node m))
      | inr other ↦ h.have x n var (ground (arith, lookup-insert node.name x node m)) q
    ];
  }

  insert_nodes-NodesHave :
      (ns : List Node) (m : NodeMap) → All NodeHas ns → NodesHave m → NodesHave (insert_nodes ns m)
  insert_nodes-NodesHave [] m a h = h
  insert_nodes-NodesHave (node ∷ ns) m a h =
      insert_nodes-NodesHave ns (Dict.insert node.name node m) a.1 (insert-NodesHave node m a.0 h)

  variables_of-All : (m : NodeMap) (order : List Text) → NodesHave m → All P (variables_of m order)
  variables_of-All m [] h = tt
  variables_of-All m (x ∷ order) h = elim (Option-cases (lookup x m)) [
    | inl e ↦ rw (e, variables_of) (variables_of-All m order h)
    | inr (node, e) ↦ elim (Option-cases node.variable) [
      | inl q ↦ rw (e, q, variables_of) (variables_of-All m order h)
      | inr (var, q) ↦ rw (e, q, variables_of) (h.have x node var e q, variables_of-All m order h)
    ]
  ]

  module _ (regex : VarRegex) where
    locals-NodeHas :
        (p : Option Variable) (vars : List Variable)
        → All P vars
        → All NodeHas (local_nodes regex p vars)
    unfolding local_nodes local_node
    locals-NodeHas p [] h = tt
    locals-NodeHas p (var ∷ vars) h =
        (record { has = λ v e. subst P (cc) h.0 }, locals-NodeHas (some var) vars h.1)

    globals-NodeHas :
        (vars : List Variable) → All P vars → All NodeHas (map (create_node_from_var regex) vars)
    unfolding create_node_from_var
    globals-NodeHas [] h = tt
    globals-NodeHas (var ∷ vars) h =
        (record { has = λ v e. subst P (cc) h.0 }, globals-NodeHas vars h.1)

    nodes-NodesHave :
        (body : Text) (local_vars global_vars : List Variable)
        → All P local_vars
        → All P global_vars
        → NodesHave (nodes regex body local_vars global_vars)
    unfolding generate_nodes body_node
    nodes-NodesHave body local_vars global_vars h k =
        insert_nodes-NodesHave (local_nodes regex none local_vars) _
          (locals-NodeHas none local_vars h)
          (insert_nodes-NodesHave (map (create_node_from_var regex) global_vars) _
            (globals-NodeHas global_vars k)
            (insert-NodesHave (body_node regex body local_vars) [] (record { has = λ v e. cc })
              (record { have = λ x n v e q. unfold lookup in cc })))

    -- What holds of all local and all global variables holds of each variable in the order.
    pub resolve_evaluation_order-All :
        (body : Text) (local_vars global_vars vars : List Variable)
        → All P local_vars
        → All P global_vars
        → resolve_evaluation_order regex body local_vars global_vars ≡ ok vars
        → All P vars
    resolve_evaluation_order-All body local_vars global_vars vars h k e =
        let m = nodes regex body local_vars global_vars in
        let o : IsOrder m vars =
          subst (Resolves m) e
            (resolve_evaluation_order-Resolves regex body local_vars global_vars) in
        subst (All P) (sym o.vars_eq)
          (variables_of-All m o.order (nodes-NodesHave body local_vars global_vars h k))
