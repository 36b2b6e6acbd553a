-- ===== src/Render/Resolve/Correct.antt =====
-- `resolve_dependencies` gives a topological order of what it reaches, or a fault that the nodes
-- really have (crates/shinran_render/src/renderer/resolve.rs).
use shinran.Prelude.{
  ℕ, zero, suc, Text, true, false, some, Option-cases, List, [], ◌∷◌, ◌≡◌, sym, ◌∙◌, subst, arith,
  contains, contains-append, contains-insert, insert, text_key, key_iff, key_refl, Bool-cases, inl,
  inr, ok,
}
use shinran.Prelude.Dict.{lookup}
use shinran.Render.Resolve.{
  Node, NodeMap, deps, State, Resolving, resolve_all, resolve_dependencies, mark_seen, push,
}
use shinran.Render.Resolve.Topo.{Edge, Reach, here, next, TopoFrom-snoc, unseen-insert_lt}
use shinran.Render.Resolve.Calls.{
  IsNamed, missing, cycle, Returns, Returns-bind, Pre, Post, Enter, Grows-refl, Pre-Grows, Post-nil,
  Returns-cons,
}

module _ (node_map : NodeMap) (named : IsNamed node_map) where
  enter :
      {fuel : ℕ} {name d : Text} {node : Node} {s : State}
      → Pre node_map fuel name s
      → Edge node_map name d
      → lookup d node_map ≡ some node
      → contains s.seen d ≡ false
      → Enter node_map fuel node s
  enter {d = d} {node = node} {s = s} p edge found new =
      let e = named.name_of d node found in
      record {
        pre = record {
          inv = p.inv;
          enough = p.enough;
          stack = λ y seen pending.
              subst (Reach node_map y) (sym e) (next (p.stack y seen pending) edge);
        };
        found = subst (λ x. lookup x node_map ≡ some node) (sym e) found;
        new = subst (λ x. contains s.seen x ≡ false) (sym e) new;
      }

  resolved_self :
      (d : Text) {node : Node} {s t : State}
      → lookup d node_map ≡ some node
      → Post node_map (node.name ∷ []) s t
      → contains t.resolved d ≡ true
  unfolding contains
  resolved_self d {node} found q =
      q.all_resolved d (ground (arith, key_iff node.name d, named.name_of d node found))

  resolve_all_lem :
      (fuel : ℕ) (visit : Node → State → Resolving)
      → ((node : Node) (s : State)
          → Enter node_map fuel node s
          → Returns node_map (Post node_map (node.name ∷ []) s) (visit node s))
      → (name : Text) (names : List Text)
      → ((d : Text) → contains names d ≡ true → Edge node_map name d)
      → (s : State) → Pre node_map fuel name s
      → Returns node_map (Post node_map names s) (resolve_all node_map visit name names s)
  unfolding resolve_all contains
  resolve_all_lem fuel visit ih name [] edges s p = Post-nil node_map p.inv
  resolve_all_lem fuel visit ih name (d ∷ names) edges s p =
      let edge = edges d (ground (arith, key_iff d d)) in
      let later = λ (x : Text) (h : contains names x ≡ true). edges x (ground arith) in
      elim (Bool-cases (contains s.resolved d)) [
        | inl old ↦ rw old (
            Returns-cons node_map d names (Grows-refl node_map s) old
              (resolve_all node_map visit name names s)
              (resolve_all_lem fuel visit ih name names later s p))
        | inr fresh ↦ elim (Bool-cases (contains s.seen d)) [
          | inl seen ↦ rw (fresh, seen) (cycle edge (p.stack d seen fresh))
          | inr new ↦ elim (Option-cases (lookup d node_map)) [
            | inl e ↦ rw (fresh, new, e, resolve_all) (missing edge e)
            | inr (node, e) ↦
                rw (fresh, new, e, resolve_all)
                  (Returns-bind node_map (Post node_map (node.name ∷ []) s)
                    (Post node_map (d ∷ names) s) (visit node s)
                    (resolve_all node_map visit name names) (ih node s (enter p edge e new))
                    (λ t q.
                      Returns-cons node_map d names q.grows (resolved_self d e q)
                        (resolve_all node_map visit name names t)
                        (resolve_all_lem fuel visit ih name names later t
                          (Pre-Grows node_map p q.inv q.grows))))
          ]
        ]
      ]

module _ (node_map : NodeMap) (node : Node) {fuel : ℕ} {s : State}
    (e : Enter node_map (suc fuel) node s) where
  mark_seen-Pre : Pre node_map fuel node.name (mark_seen node_map node s)
  mark_seen-Pre = record {
    inv = record {
      ordered = e.pre.inv.ordered;
      same = e.pre.inv.same;
      is_seen = λ d h. ground (arith, contains-insert node.name d s.seen, e.pre.inv.is_seen d);
    };
    enough = omega (arith, unseen-insert_lt node_map s.seen node.name e.found e.new, e.pre.enough);
    stack = λ y seen pending. elim (Bool-cases (text_key.equals node.name y)) [
      | inl same ↦ subst (Reach node_map y) (sym ((key_iff node.name y).0 same)) here
      | inr other ↦ e.pre.stack y (ground (arith, contains-insert node.name y s.seen)) pending
    ];
  }

  self_seen : contains (insert node.name s.seen) node.name ≡ true
  self_seen = ground (arith, contains-insert node.name node.name s.seen, key_refl node.name)

  not_resolved : contains s.resolved node.name ≡ false
  not_resolved = ground (arith, e.pre.inv.is_seen node.name, e.new)

  -- A name that was seen before the call is another one.
  other_name : (d : Text) → contains s.seen d ≡ true → text_key.equals node.name d ≡ false
  other_name d h = elim (Bool-cases (text_key.equals node.name d)) [
    | inl same ↦
        let q = (key_iff node.name d).0 same in cc (subst (λ x. contains s.seen x ≡ false) q e.new)
    | inr other ↦ other
  ]

  push-Post :
      (t : State)
      → Post node_map (deps node) (mark_seen node_map node s) t
      → Post node_map (node.name ∷ []) s (push node_map node t)
  unfolding contains
  push-Post t p = record {
    inv = record {
      ordered = TopoFrom-snoc node_map [] t.eval_order node.name p.inv.ordered (record {
        node = node;
        found = e.found;
        fresh = p.inv.same node.name ∙ p.grows.kept node.name self_seen ∙ not_resolved;
        placed_deps = λ d h. p.inv.same d ∙ p.all_resolved d h;
      });
      same = λ d. ground (
        arith,
        contains-append t.eval_order (node.name ∷ []) d,
        contains-insert node.name d t.resolved,
        p.inv.same d,
      );
      is_seen = λ d h. elim (Bool-cases (text_key.equals node.name d)) [
        | inl same ↦
            subst (λ x. contains t.seen x ≡ true) ((key_iff node.name d).0 same)
              (p.grows.seen node.name self_seen)
        | inr other ↦ p.inv.is_seen d (ground (arith, contains-insert node.name d t.resolved))
      ];
    };
    grows = record {
      resolved = λ d h. ground (arith, contains-insert node.name d t.resolved, p.grows.resolved d);
      seen = λ d h. p.grows.seen d (ground (arith, contains-insert node.name d s.seen));
      kept = λ d h. ground (
        arith,
        contains-insert node.name d t.resolved,
        other_name d h,
        contains-insert node.name d s.seen,
        p.grows.kept d,
      );
      closed = λ d h k. ground (
        arith,
        contains-insert node.name d t.resolved,
        contains-insert node.name d s.seen,
        p.grows.closed d,
      );
    };
    all_resolved = λ d h. ground (arith, contains-insert node.name d t.resolved);
  }

module _ (node_map : NodeMap) (named : IsNamed node_map) where
  Edge-of :
      (node : Node)
      → lookup node.name node_map ≡ some node
      → (d : Text) → contains (deps node) d ≡ true
      → Edge node_map node.name d
  Edge-of node found d h = record { node = node; found = found; depends = h }

  -- The call for a node that is not seen, on fuel for the nodes that are not seen.
  pub resolve_dependencies_lem :
      (fuel : ℕ) (node : Node) (s : State)
      → Enter node_map fuel node s
      → Returns node_map
          (Post node_map (node.name ∷ []) s)
          (resolve_dependencies node_map fuel node s)
  unfolding resolve_dependencies
  resolve_dependencies_lem zero node s e =
      absurd (omega (arith, unseen-insert_lt node_map s.seen node.name e.found e.new, e.pre.enough))
  resolve_dependencies_lem (suc fuel) node s e =
      Returns-bind node_map (Post node_map (deps node) (mark_seen node_map node s))
        (Post node_map (node.name ∷ []) s)
        (resolve_all node_map (resolve_dependencies node_map fuel) node.name (deps node)
          (mark_seen node_map node s))
        (λ t. ok (push node_map node t))
        (resolve_all_lem node_map named fuel (resolve_dependencies node_map fuel)
          (resolve_dependencies_lem fuel) node.name (deps node) (Edge-of node e.found)
          (mark_seen node_map node s) (mark_seen-Pre node_map node e))
        (push-Post node_map node e)
