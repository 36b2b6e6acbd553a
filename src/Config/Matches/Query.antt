-- ===== src/Config/Matches/Query.antt =====
-- The query for matches visits each file that is reached once (crates/shinran_config/src/matches/store.rs).
use shinran.Prelude.{
  ℕ, zero, suc, ◌+◌, ◌≤◌, ◌<◌, true, some, List, [], ◌∷◌, ◌≡◌, ◌↔◌, inl, inr, refl, ap, ◌∙◌, subst,
  arith, contains, length, get_elem?, nat_key, Bool-cases, Run, ok, ◌>>=◌,
}
use shinran.Config.Matches.{
  ResolvedMatchFile, FileStore, Panic, Visited, visit_file, query_each, query_matches_for_paths,
  collect_matches_and_global_vars, nothing_visited, collected,
}
use shinran.Config.Matches.Unseen.{unseen, unseen-Grows, Grows-mark, unseen-mark}
use shinran.Config.Matches.Visits.{
  Reached, InStore, IsClosed, gather, triggers, regexes, variables, Distinct, Adds, Adds-Grows,
  Adds-none, Adds-seen, Adds-visit, root, import,
}

module _ (files : FileStore ResolvedMatchFile) where
  -- A call ends with its additions.
  abbrev Good : List ℕ → Visited → Run Panic Visited → Type 0
  Good paths s r = (t : Visited) × (r ≡ ok t) × Adds files paths s t

  abbrev left : Visited → ℕ
  left s = unseen s.paths (length files)

  get_elem?-below :
      {A : Type 0} (xs : List A) (i : ℕ) → i < length xs → (x : A) × (get_elem? xs i ≡ some x)
  get_elem?-below [] i h = absurd (omega arith)
  get_elem?-below (x ∷ xs) zero h = (x, refl)
  get_elem?-below (x ∷ xs) (suc i) h = get_elem?-below xs i (omega arith)

  module _ (well : IsClosed files) where
    query_each-Good :
        (query : List ℕ → Visited → Run Panic Visited) (fuel : ℕ)
        → ((paths : List ℕ) (s : Visited)
            → InStore files paths
            → left s < fuel
            → Good paths s (query paths s))
        → (paths : List ℕ) (s : Visited) → InStore files paths
        → left s < fuel + 1
        → Good paths s (query_each files query paths s)
    unfolding query_each
    query_each-Good query fuel ih [] s h k = (s, refl, Adds-none files s)
    query_each-Good query fuel ih (path ∷ rest) s (h, hs) k =
        elim (Bool-cases (contains s.paths path)) [
          | inl seen ↦
              let (t, e, a) = query_each-Good query fuel ih rest s hs k in
              (t, rw (seen, query_each) e, Adds-seen files path rest s t seen a)
          | inr new ↦
              let (file, q) = get_elem?-below files path h in
              let (t, e, a) =
                ih file.imports (visit_file path file s) (well.imports_in path file q)
                  (omega (arith, unseen-mark s.paths path (length files) h new)) in
              let (u, e', b) = query_each-Good query fuel ih rest t hs (
                omega (
                  arith,
                  unseen-Grows s.paths t.paths (length files)
                      (λ x z. Adds-Grows files a x (Grows-mark s.paths path x z)),
                )) in
              (
                u,
                rw (new, query_each) (rw (q, query_each) (rw (e) e')),
                Adds-visit files path rest file s t u new q a b,
              )
        ]

    query_matches_for_paths-Good :
        (fuel : ℕ) (paths : List ℕ) (s : Visited)
        → InStore files paths
        → left s < fuel
        → Good paths s (query_matches_for_paths files fuel paths s)
    unfolding query_matches_for_paths
    query_matches_for_paths-Good zero paths s h k = absurd (omega arith)
    query_matches_for_paths-Good (suc fuel) paths s h k =
        query_each-Good (query_matches_for_paths files fuel) fuel
          (λ paths s h k. query_matches_for_paths-Good fuel paths s h k) paths s h (omega arith)

  unseen-nil : (n : ℕ) → unseen [] n ≤ n
  unfolding contains
  unseen-nil zero = omega arith
  unseen-nil (suc n) = ground (arith, unseen-nil n)

  Adds-Reached :
      (paths : List ℕ) (t : Visited)
      → (a : Adds files paths nothing_visited t) → (x : ℕ)
      → (contains a.new x ≡ true) ↔ Reached files paths x
  Adds-Reached paths t a x = (a.reached x, arrives x)
    where
      arrives : (x : ℕ) → Reached files paths x → contains a.new x ≡ true
      arrives x (root h) = subst (λ l. contains l x ≡ true) a.paths_eq (a.has x h)
      arrives x (import {y = y} {file = file} r q h) =
          subst (λ l. contains l x ≡ true) a.paths_eq (a.closed y x file (arrives y r) q h)

  -- Where every reference is to a file of the store, the query ends, and gives the matches and the
  -- variables of the files that are reached from the paths by imports, each file's once.
  pub collect_matches_and_global_vars-Reached :
      IsClosed files
      → (paths : List ℕ) → InStore files paths
      → (visited : List ℕ) × (collect_matches_and_global_vars files paths
          ≡ ok (record {
            trigger_matches = gather files (triggers files) visited;
            regex_matches = gather files (regexes files) visited;
            global_vars = gather files (variables files) visited;
          }))
        × Distinct files visited
        × ((x : ℕ) → (contains visited x ≡ true) ↔ Reached files paths x)
  unfolding collect_matches_and_global_vars
  collect_matches_and_global_vars-Reached well paths h =
      let (t, e, a) =
        query_matches_for_paths-Good well (length files + 1) paths nothing_visited h
          (omega (arith, unseen-nil (length files))) in
      (
        a.new,
        ap (λ r. r >>= λ s. ok (collected s)) e ∙ ap ok (collected_eq t a),
        subst (Distinct files) a.paths_eq (a.once tt),
        Adds-Reached paths t a,
      )
    where
      collected_eq :
          (t : Visited) (a : Adds files paths nothing_visited t)
          → collected t ≡ (record {
            trigger_matches = gather files (triggers files) a.new;
            regex_matches = gather files (regexes files) a.new;
            global_vars = gather files (variables files) a.new;
          })
      collected_eq t a = rw (a.triggers_eq, a.regexes_eq, a.variables_eq) refl
