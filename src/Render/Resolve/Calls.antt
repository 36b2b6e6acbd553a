-- ===== src/Render/Resolve/Calls.antt =====
-- What a call of `resolve_dependencies` (crates/shinran_render/src/renderer/resolve.rs) needs, and what it
-- does to the state.
use shinran.Prelude.{
  ℕ, ◌≤◌, Text, true, false, none, some, List, [], ◌∷◌, ◌≡◌, refl, sym, ◌∙◌, arith, contains,
  text_key, key_iff, ok, err, out_of_fuel, ◌>>=◌,
}
use shinran.Prelude.Dict.{lookup}
use shinran.Render.{RendererError, missing_variable, circular_dependency}
use shinran.Render.Resolve.{Node, NodeMap, State, Resolving}
use shinran.Render.Resolve.Topo.{Edge, Reach, IsTopological, unseen, unseen_mono}

-- Every node stands under its own name.
pub record IsNamed (node_map : NodeMap) : Type 0 where
  pub name_of : (x : Text) (node : Node) → lookup x node_map ≡ some node → node.name ≡ x

module _ (node_map : NodeMap) where
  pub record Inv (s : State) : Type 0 where
    pub ordered : IsTopological node_map s.eval_order
    pub same : (d : Text) → contains s.eval_order d ≡ contains s.resolved d
    pub is_seen : (d : Text) → contains s.resolved d ≡ true → contains s.seen d ≡ true

  -- A call only adds, it resolves only what it has seen first, and all of that.
  pub record Grows (s t : State) : Type 0 where
    pub resolved : (d : Text) → contains s.resolved d ≡ true → contains t.resolved d ≡ true
    pub seen : (d : Text) → contains s.seen d ≡ true → contains t.seen d ≡ true
    pub kept : (d : Text) → contains s.seen d ≡ true → contains t.resolved d ≡ contains s.resolved d
    pub closed :
        (d : Text)
        → contains t.seen d ≡ true
        → contains t.resolved d ≡ false
        → contains s.seen d ≡ true

  -- The nodes that are seen and not resolved are the callers, and reach `name`.
  abbrev pub OnStack : Text → State → Type 0
  OnStack name s =
      (y : Text) → contains s.seen y ≡ true → contains s.resolved y ≡ false → Reach node_map y name

  -- What an error of the resolver says of the nodes.
  pub data IsFault : RendererError → Type 0 where
    missing :
        {x d : Text} → Edge node_map x d → lookup d node_map ≡ none → IsFault (missing_variable d)
    cycle :
        {x d : Text} → Edge node_map x d → Reach node_map d x → IsFault (circular_dependency x d)

  abbrev pub Returns : (State → Type 0) → Resolving → Type 0
  Returns Q (ok t) = Q t
  Returns Q (err e) = IsFault e
  Returns Q out_of_fuel = ⊥

  pub Returns-bind :
      (Q R : State → Type 0) (r : Resolving) (f : State → Resolving)
      → Returns Q r
      → ((t : State) → Q t → Returns R (f t))
      → Returns R (r >>= f)
  Returns-bind Q R (ok t) f h k = k t h
  Returns-bind Q R (err e) f h k = h
  Returns-bind Q R out_of_fuel f h k = h

  -- Before the dependencies of the node `name`.
  pub record Pre (fuel : ℕ) (name : Text) (s : State) : Type 0 where
    pub inv : Inv s
    pub enough : unseen node_map s.seen ≤ fuel
    pub stack : OnStack name s

  -- After the dependencies `names`.
  pub record Post (names : List Text) (s t : State) : Type 0 where
    pub inv : Inv t
    pub grows : Grows s t
    pub all_resolved : (d : Text) → contains names d ≡ true → contains t.resolved d ≡ true

  -- Before the call for the node `node`.
  pub record Enter (fuel : ℕ) (node : Node) (s : State) : Type 0 where
    pub pre : Pre fuel node.name s
    pub found : lookup node.name node_map ≡ some node
    pub new : contains s.seen node.name ≡ false

  pub Grows-refl : (s : State) → Grows s s
  Grows-refl s = record {
    resolved = λ d h. h;
    seen = λ d h. h;
    kept = λ d h. refl;
    closed = λ d h k. h;
  }

  pub Grows-trans : {s t u : State} → Grows s t → Grows t u → Grows s u
  Grows-trans g h = record {
    resolved = λ d x. h.resolved d (g.resolved d x);
    seen = λ d x. h.seen d (g.seen d x);
    kept = λ d x. h.kept d (g.seen d x) ∙ g.kept d x;
    closed = λ d x y. g.closed d (h.closed d x y) (sym (h.kept d (h.closed d x y)) ∙ y);
  }

  pub Pre-Grows :
      {fuel : ℕ} {name : Text} {s t : State} → Pre fuel name s → Inv t → Grows s t → Pre fuel name t
  Pre-Grows {s = s} {t = t} p i g = record {
    inv = i;
    enough = omega (arith, unseen_mono node_map s.seen t.seen g.seen, p.enough);
    stack = λ y seen pending.
        let old = g.closed y seen pending in p.stack y old (sym (g.kept y old) ∙ pending);
  }

  pub Post-nil : {s : State} → Inv s → Post [] s s
  unfolding contains
  Post-nil {s} i = record { inv = i; grows = Grows-refl s; all_resolved = λ d h. cc }

  -- One more dependency that is resolved by then.
  pub Post-cons :
      {d : Text} {names : List Text} {s t u : State}
      → Grows s t
      → contains t.resolved d ≡ true
      → Post names t u
      → Post (d ∷ names) s u
  unfolding contains
  Post-cons {d} {names} {s} {t} {u} g h p = record {
    inv = p.inv;
    grows = Grows-trans g p.grows;
    all_resolved =
        λ x k. ground (arith, key_iff d x, p.all_resolved x, p.grows.resolved x, eq_contains x);
  }
    where
      eq_contains : (x : Text) → d ≡ x → contains t.resolved d ≡ contains t.resolved x
      eq_contains x e = cc

  pub Returns-cons :
      (d : Text) (names : List Text) {s t : State}
      → Grows s t
      → contains t.resolved d ≡ true
      → (r : Resolving) → Returns (Post names t) r
      → Returns (Post (d ∷ names) s) r
  Returns-cons d names g h (ok u) q = Post-cons g h q
  Returns-cons d names g h (err e) q = q
  Returns-cons d names g h out_of_fuel q = q
