-- ===== src/Config/Matches/Visits.antt =====
-- What a call of `query_matches_for_paths` (crates/shinran_config/src/matches/store.rs) adds to what was
-- visited.
use shinran.Prelude.{
  ℕ, ◌<◌, true, false, none, some, Option-cases, List, [], ◌∷◌, ◌++◌, ◌≡◌, ◌⊎◌, inl, inr, refl, sym,
  ap, ◌∙◌, subst, arith, All, contains, contains-append, length, get_elem?, nat_key, nat_eq,
  nat_eq_iff, append_assoc, append-nil,
}
use mathlib.Core.Option.{some-injective}
use shinran.Types.{Variable, TriggerMatch, RegexMatch}
use shinran.Config.Matches.{ResolvedMatchFile, FileStore, Visited, visit_file}
use shinran.Config.Matches.Unseen.{
  Grows, contains-mark, contains-cons, contains-here, cons_append, Grows-cons,
}

module _ (files : FileStore ResolvedMatchFile) where
  -- A path is reached from others by imports.
  pub data Reached (paths : List ℕ) : ℕ → Type 0 where
    root : {x : ℕ} → contains paths x ≡ true → Reached paths x
    import :
        {x y : ℕ} {file : ResolvedMatchFile}
        → Reached paths y
        → get_elem? files y ≡ some file
        → contains file.imports x ≡ true
        → Reached paths x

  -- Every reference is to a file.
  abbrev pub InStore : List ℕ → Type 0
  InStore paths = All (λ x. x < length files) paths

  pub record IsClosed : Type 0 where
    pub imports_in :
        (x : ℕ) (file : ResolvedMatchFile) → get_elem? files x ≡ some file → InStore file.imports

  -- What the files have, in order.
  abbrev pub gather : {A : Type 0} → (ResolvedMatchFile → List A) → List ℕ → List A
  gather f [] = []
  gather f (x ∷ xs) =
      let rest = gather f xs in
      elim (get_elem? files x) [ none ↦ rest | some file ↦ f file ++ rest ]

  gather-append :
      {A : Type 0} (f : ResolvedMatchFile → List A) (xs ys : List ℕ)
      → gather f (xs ++ ys) ≡ gather f xs ++ gather f ys
  gather-append f [] ys = refl
  gather-append f (x ∷ xs) ys = elim (Option-cases (get_elem? files x)) [
    | inl e ↦ rw (e, gather) (gather-append f xs ys)
    | inr (file, e) ↦
        rw (e, gather)
          (ap (λ l. f file ++ l) (gather-append f xs ys)
            ∙ sym (append_assoc (f file) (gather f xs) (gather f ys)))
  ]

  abbrev pub triggers : ResolvedMatchFile → List TriggerMatch
  triggers file = file.content.trigger_matches

  abbrev pub regexes : ResolvedMatchFile → List RegexMatch
  regexes file = file.content.regex_matches

  abbrev pub variables : ResolvedMatchFile → List Variable
  variables file = file.content.global_vars

  -- No path stands twice.
  abbrev pub Distinct : List ℕ → Type 0
  Distinct [] = Unit
  Distinct (x ∷ xs) = (contains xs x ≡ false) × Distinct xs

  Distinct-mark : (v : List ℕ) (p : ℕ) → contains v p ≡ false → Distinct v → Distinct (v ++ p ∷ [])
  Distinct-mark [] p h d = (unfold contains in refl, tt)
  Distinct-mark (x ∷ v) p h (k, d) = (
    ground (arith, contains-mark v p x, nat_eq_iff x p, nat_eq_iff p x, unmarked x v p h),
    Distinct-mark v p (unmarked x v p h).1 d,
  )
    where
      unmarked :
          (x : ℕ) (v : List ℕ) (p : ℕ)
          → contains (x ∷ v) p ≡ false
          → (nat_eq x p ≡ false) × (contains v p ≡ false)
      unmarked x v p h = unfold contains in (ground arith, ground arith)

  -- What a call for `paths` adds to what is visited.
  pub record Adds (paths : List ℕ) (s t : Visited) : Type 0 where
    pub new : List ℕ
    pub paths_eq : t.paths ≡ s.paths ++ new
    pub triggers_eq : t.trigger_matches ≡ s.trigger_matches ++ gather triggers new
    pub regexes_eq : t.regex_matches ≡ s.regex_matches ++ gather regexes new
    pub variables_eq : t.global_vars ≡ s.global_vars ++ gather variables new
    pub once : Distinct s.paths → Distinct t.paths
    pub has : (x : ℕ) → contains paths x ≡ true → contains t.paths x ≡ true
    pub closed :
        (x d : ℕ) (file : ResolvedMatchFile)
        → contains new x ≡ true
        → get_elem? files x ≡ some file
        → contains file.imports d ≡ true
        → contains t.paths d ≡ true
    pub reached : (x : ℕ) → contains new x ≡ true → Reached paths x

  pub Adds-Grows : {paths : List ℕ} {s t : Visited} → Adds paths s t → Grows s.paths t.paths
  Adds-Grows {s = s} a x h =
      subst (λ l. contains l x ≡ true) (sym a.paths_eq)
        (ground (arith, contains-append s.paths a.new x))

  pub Adds-none : (s : Visited) → Adds [] s s
  Adds-none s = record {
    new = [];
    paths_eq = sym (append-nil s.paths);
    triggers_eq = sym (append-nil s.trigger_matches);
    regexes_eq = sym (append-nil s.regex_matches);
    variables_eq = sym (append-nil s.global_vars);
    once = λ d. d;
    has = λ x h. unfold contains in cc;
    closed = λ x d file h q r. unfold contains in cc;
    reached = λ x h. unfold contains in cc;
  }

  Reached-Grows : {v w : List ℕ} {x : ℕ} → Grows v w → Reached v x → Reached w x
  Reached-Grows g (root h) = root (g _ h)
  Reached-Grows g (import r q h) = import (Reached-Grows g r) q h

  Reached-imports :
      {paths : List ℕ} (path : ℕ) {file : ResolvedMatchFile} {x : ℕ}
      → contains paths path ≡ true
      → get_elem? files path ≡ some file
      → Reached file.imports x
      → Reached paths x
  Reached-imports path h q (root k) = import (root h) q k
  Reached-imports path h q (import r q' k) = import (Reached-imports path h q r) q' k

  pub Adds-seen :
      (path : ℕ) (rest : List ℕ) (s t : Visited)
      → contains s.paths path ≡ true
      → Adds rest s t
      → Adds (path ∷ rest) s t
  Adds-seen path rest s t h a = record {
    new = a.new;
    paths_eq = a.paths_eq;
    triggers_eq = a.triggers_eq;
    regexes_eq = a.regexes_eq;
    variables_eq = a.variables_eq;
    once = a.once;
    has = λ x k. seen_or_has x (contains-cons path rest x k);
    closed = a.closed;
    reached = λ x k. Reached-Grows (Grows-cons path rest) (a.reached x k);
  }
    where
      seen_or_has : (x : ℕ) → (path ≡ x) ⊎ (contains rest x ≡ true) → contains t.paths x ≡ true
      seen_or_has x (inl e) = Adds-Grows a x (subst (λ y. contains s.paths y ≡ true) e h)
      seen_or_has x (inr k) = a.has x k

  gathered :
      {A : Type 0} (f : ResolvedMatchFile → List A) (path : ℕ) (file : ResolvedMatchFile)
      (xs ys : List ℕ) (old between after : List A)
      → get_elem? files path ≡ some file
      → between ≡ (old ++ f file) ++ gather f xs
      → after ≡ between ++ gather f ys
      → after ≡ old ++ gather f (path ∷ (xs ++ ys))
  gathered f path file xs ys old between after q e e' =
      e'
      ∙ ap (λ l. l ++ gather f ys) e
      ∙ rw (q, gather) (simp (append_assoc, gather-append f xs ys))

  pub Adds-visit :
      (path : ℕ) (rest : List ℕ) (file : ResolvedMatchFile) (s t u : Visited)
      → contains s.paths path ≡ false
      → get_elem? files path ≡ some file
      → Adds file.imports (visit_file path file s) t
      → Adds rest t u
      → Adds (path ∷ rest) s u
  Adds-visit path rest file s t u h q a b = record {
    new = path ∷ (a.new ++ b.new);
    paths_eq = b.paths_eq ∙ ap (λ l. l ++ b.new) a.paths_eq ∙ simp append_assoc;
    triggers_eq = gathered triggers path file a.new b.new _ _ _ q a.triggers_eq b.triggers_eq;
    regexes_eq = gathered regexes path file a.new b.new _ _ _ q a.regexes_eq b.regexes_eq;
    variables_eq = gathered variables path file a.new b.new _ _ _ q a.variables_eq b.variables_eq;
    once = λ d. b.once (a.once (Distinct-mark s.paths path h d));
    has = λ x k. visited_or_has x (contains-cons path rest x k);
    closed = λ x d f k r i. closed_at x d f (cases x k) r i;
    reached = λ x k. reached_at x (cases x k);
  }
    where
      cases :
          (x : ℕ)
          → contains (path ∷ (a.new ++ b.new)) x ≡ true
          → (path ≡ x) ⊎ ((contains a.new x ≡ true) ⊎ (contains b.new x ≡ true))
      cases x k = cons_append path a.new b.new x k

      closed_at :
          (x d : ℕ) (f : ResolvedMatchFile)
          → (path ≡ x) ⊎ ((contains a.new x ≡ true) ⊎ (contains b.new x ≡ true))
          → get_elem? files x ≡ some f
          → contains f.imports d ≡ true
          → contains u.paths d ≡ true
      closed_at x d f (inl e) r i =
          let same : file ≡ f = some-injective file f (sym q ∙ ap (get_elem? files) e ∙ r) in
          Adds-Grows b d
            (a.has d (subst (λ (g : ResolvedMatchFile). contains g.imports d ≡ true) (sym same) i))
      closed_at x d f (inr (inl k)) r i = Adds-Grows b d (a.closed x d f k r i)
      closed_at x d f (inr (inr k)) r i = b.closed x d f k r i

      reached_at :
          (x : ℕ)
          → (path ≡ x) ⊎ ((contains a.new x ≡ true) ⊎ (contains b.new x ≡ true))
          → Reached (path ∷ rest) x
      reached_at x (inl e) = root (contains-here path rest x e)
      reached_at x (inr (inl k)) =
          Reached-imports path (contains-here path rest path refl) q (a.reached x k)
      reached_at x (inr (inr k)) = Reached-Grows (Grows-cons path rest) (b.reached x k)

      visited_or_has : (x : ℕ) → (path ≡ x) ⊎ (contains rest x ≡ true) → contains u.paths x ≡ true
      visited_or_has x (inl e) =
          Adds-Grows b x
            (Adds-Grows a x (ground (arith, contains-mark s.paths path x, nat_eq_iff path x)))
      visited_or_has x (inr k) = b.has x k
