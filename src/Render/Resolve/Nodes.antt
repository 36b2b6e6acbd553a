-- ===== src/Render/Resolve/Nodes.antt =====
-- The nodes of `generate_nodes` (crates/shinran_render/src/renderer/resolve.rs): each stands under
-- its own name, and the one of the body is there.
use shinran.Prelude.{
  Text, false, Option, none, some, List, [], ◌∷◌, ◌≡◌, refl, ◌∙◌, arith, map, contains, text_key,
  key_iff, Bool-cases, inl, inr,
}
use shinran.Prelude.Dict
use shinran.Prelude.Dict.{lookup, lookup-insert, lookup-insert_self}
use shinran.Types.{Variable}
use shinran.Render.{VarRegex}
use shinran.Render.Resolve.{
  Node, NodeMap, match_body, create_node_from_var, local_node, local_nodes, insert_nodes, body_node,
  generate_nodes,
}
use shinran.Render.Resolve.Calls.{IsNamed}

abbrev pub IsFound : Text → NodeMap → Type 0
IsFound x m = (node : Node) × (lookup x m ≡ some node)

insert-IsNamed : (node : Node) (m : NodeMap) → IsNamed m → IsNamed (Dict.insert node.name node m)
insert-IsNamed node m h = record {
  name_of =
      λ x n e. ground (arith, lookup-insert node.name x node m, key_iff node.name x, h.name_of x n);
}

insert_nodes-IsNamed :
    (nodes : List Node) (m : NodeMap) → IsNamed m → IsNamed (insert_nodes nodes m)
insert_nodes-IsNamed [] m h = h
insert_nodes-IsNamed (node ∷ nodes) m h =
    insert_nodes-IsNamed nodes (Dict.insert node.name node m) (insert-IsNamed node m h)

insert_nodes-IsFound :
    (nodes : List Node) (m : NodeMap) (x : Text) → IsFound x m → IsFound x (insert_nodes nodes m)
insert_nodes-IsFound [] m x h = h
insert_nodes-IsFound (node ∷ nodes) m x (n, e) =
    insert_nodes-IsFound nodes (Dict.insert node.name node m) x
      (elim (Bool-cases (text_key.equals node.name x)) [
        | inl same ↦ (node, rw (lookup-insert, same))
        | inr other ↦ (n, rw (lookup-insert, other) e)
      ])

names_of : List Node → List Text
names_of nodes = map (λ (node : Node). node.name) nodes

-- Nodes of other names leave a node alone.
lookup-insert_nodes :
    (nodes : List Node) (m : NodeMap) (x : Text)
    → contains (names_of nodes) x ≡ false
    → lookup x (insert_nodes nodes m) ≡ lookup x m
unfolding contains names_of
lookup-insert_nodes [] m x h = refl
lookup-insert_nodes (node ∷ nodes) m x h = ground (
  arith,
  lookup-insert_nodes nodes (Dict.insert node.name node m) x,
  lookup-insert node.name x node m,
)

abbrev pub names_of_vars : List Variable → List Text
names_of_vars vars = map (λ (var : Variable). var.name) vars

module _ (regex : VarRegex) where
  local_names :
      (p : Option Variable) (vars : List Variable)
      → names_of (local_nodes regex p vars) ≡ names_of_vars vars
  unfolding names_of local_nodes local_node
  local_names p [] = refl
  local_names p (var ∷ vars) = ground (arith, local_names (some var) vars)

  global_names :
      (vars : List Variable) → names_of (map (create_node_from_var regex) vars) ≡ names_of_vars vars
  unfolding names_of create_node_from_var
  global_names [] = refl
  global_names (var ∷ vars) = ground (arith, global_names vars)

  module _ (body : Text) (local_vars global_vars : List Variable) where
    pub generate_nodes-IsNamed : IsNamed (generate_nodes regex body local_vars global_vars)
    unfolding generate_nodes body_node
    generate_nodes-IsNamed = insert_nodes-IsNamed (local_nodes regex none local_vars) _ (
        insert_nodes-IsNamed (map (create_node_from_var regex) global_vars) _ (
          insert-IsNamed (body_node regex body local_vars) []
            (record { name_of = λ x n e. unfold lookup in cc })))

    pub generate_nodes-IsFound :
        IsFound match_body (generate_nodes regex body local_vars global_vars)
    unfolding generate_nodes
    generate_nodes-IsFound = insert_nodes-IsFound (local_nodes regex none local_vars) _ match_body (
        insert_nodes-IsFound (map (create_node_from_var regex) global_vars) _ match_body
          (body_node regex body local_vars, lookup-insert_self match_body _ []))

    -- Unless a variable takes its name, the node of the body is the one that was made for it.
    pub lookup-generate_nodes :
        contains (names_of_vars local_vars) match_body ≡ false
        → contains (names_of_vars global_vars) match_body ≡ false
        → lookup match_body (generate_nodes regex body local_vars global_vars)
          ≡ some (body_node regex body local_vars)
    unfolding generate_nodes
    lookup-generate_nodes h k =
        lookup-insert_nodes (local_nodes regex none local_vars) _ match_body
          (rw (local_names none local_vars) h)
        ∙ lookup-insert_nodes (map (create_node_from_var regex) global_vars) _ match_body
            (rw (global_names global_vars) k)
        ∙ lookup-insert_self match_body (body_node regex body local_vars) []
