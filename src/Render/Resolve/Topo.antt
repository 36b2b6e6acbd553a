-- ===== src/Render/Resolve/Topo.antt =====
-- What an order of evaluation has to satisfy, and the walk of `resolve_dependencies` over the
-- nodes that are not yet seen (crates/shinran_render/src/renderer/resolve.rs).
use shinran.Prelude.{
  ℕ, ◌+◌, ◌≤◌, ◌<◌, Text, Bool, true, false, ◌||◌, some, List, [], ◌∷◌, ◌++◌, ◌≡◌, refl, arith,
  contains, contains-append, contains-insert, insert, text_key, append_assoc, key_iff,
  if◌then◌else◌, Bool-cases, inl, inr,
}
use shinran.Prelude.Dict.{lookup}
use shinran.Render.Resolve.{Node, NodeMap, deps}

module _ (node_map : NodeMap) where
  -- The node `x` depends on `d`.
  pub record Edge (x d : Text) : Type 0 where
    pub node : Node
    pub found : lookup x node_map ≡ some node
    pub depends : contains (deps node) d ≡ true

  -- `b` is reached from `a` along dependencies.
  pub data Reach (a : Text) : Text → Type 0 where
    here : Reach a a
    next : {b c : Text} → Reach a b → Edge b c → Reach a c

  -- `x` may be evaluated after the nodes in `placed`: it is a node, it is not evaluated twice, and
  -- all that it depends on is placed.
  pub record IsReady (placed : List Text) (x : Text) : Type 0 where
    pub node : Node
    pub found : lookup x node_map ≡ some node
    pub fresh : contains placed x ≡ false
    pub placed_deps : (d : Text) → contains (deps node) d ≡ true → contains placed d ≡ true

  abbrev pub TopoFrom : List Text → List Text → Type 0
  TopoFrom placed [] = Unit
  TopoFrom placed (x ∷ xs) = IsReady placed x × TopoFrom (placed ++ x ∷ []) xs

  -- Every name in the list stands behind all that it depends on, and stands there once.
  abbrev pub IsTopological : List Text → Type 0
  IsTopological names = TopoFrom [] names

  pub TopoFrom-snoc :
      (placed xs : List Text) (x : Text)
      → TopoFrom placed xs
      → IsReady (placed ++ xs) x
      → TopoFrom placed (xs ++ x ∷ [])
  TopoFrom-snoc placed [] x h r = (subst_ready r, tt)
    where
      subst_ready : IsReady (placed ++ []) x → IsReady placed x
      subst_ready r = rw shinran.Prelude.append-nil at r
  TopoFrom-snoc placed (y ∷ ys) x h r =
      (h.0, TopoFrom-snoc (placed ++ y ∷ []) ys x h.1 (rw append_assoc r))

-- The number of nodes that are not seen.
pub unseen : NodeMap → List Text → ℕ
unseen [] seen = 0
unseen ((k, node) ∷ m) seen = (if contains seen k then 0 else 1) + unseen m seen

pub unseen_mono :
    (m : NodeMap) (seen seen' : List Text)
    → ((d : Text) → contains seen d ≡ true → contains seen' d ≡ true)
    → unseen m seen' ≤ unseen m seen
unfolding unseen
unseen_mono [] seen seen' h = omega arith
unseen_mono ((k, node) ∷ m) seen seen' h = ground (arith, unseen_mono m seen seen' h, h k)

pub unseen-insert_le :
    (m : NodeMap) (seen : List Text) (x : Text) → unseen m (insert x seen) ≤ unseen m seen
unseen-insert_le m seen x =
    unseen_mono m seen (insert x seen) λ d h. rw (contains-insert x d seen) (ground (arith, h))

pub unseen-insert_lt :
    (m : NodeMap) (seen : List Text) (x : Text) {node : Node}
    → lookup x m ≡ some node
    → contains seen x ≡ false
    → unseen m (insert x seen) < unseen m seen
unfolding unseen lookup
unseen-insert_lt [] seen x p h = ground arith
unseen-insert_lt ((k, n) ∷ m) seen x {node = node} p h = elim (Bool-cases (text_key.equals k x)) [
  | inl same ↦
      let e = (key_iff k x).0 same in
      ground (arith, contains-insert x k seen, unseen-insert_le m seen x, e, (key_iff x k).1)
  | inr other ↦ ground (
    arith,
    contains-insert x k seen,
    key_iff x k,
    key_iff k x,
    unseen-insert_lt m seen x {node = node},
  )
]

pub unseen_all : (m : NodeMap) → unseen m [] ≤ shinran.Prelude.length m
unfolding unseen contains
unseen_all [] = omega arith
unseen_all ((k, n) ∷ m) = omega (arith, unseen_all m)
