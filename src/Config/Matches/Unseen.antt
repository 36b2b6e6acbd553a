-- ===== src/Config/Matches/Unseen.antt =====
-- Counting the files that are not visited (crates/shinran_config/src/matches/store.rs).
use shinran.Prelude.{
  ℕ, zero, suc, ◌+◌, ◌≤◌, ◌<◌, true, false, ◌||◌, List, [], ◌∷◌, ◌++◌, ◌≡◌, ◌⊎◌, inl, inr, ◌∙◌,
  subst, arith, contains, contains-append, nat_key, nat_eq, nat_eq_iff, if◌then◌else◌, Bool-cases,
}

-- How many of the first `n` files are not visited.
abbrev pub unseen : List ℕ → ℕ → ℕ
unseen paths zero = 0
unseen paths (suc n) = (if contains paths n then 0 else 1) + unseen paths n

abbrev pub Grows : List ℕ → List ℕ → Type 0
Grows v w = (x : ℕ) → contains v x ≡ true → contains w x ≡ true

pub unseen-Grows : (v w : List ℕ) (n : ℕ) → Grows v w → unseen w n ≤ unseen v n
unseen-Grows v w zero g = omega arith
unseen-Grows v w (suc n) g = ground (arith, g n, unseen-Grows v w n g)

pub contains-mark : (v : List ℕ) (p x : ℕ) → contains (v ++ p ∷ []) x ≡ (contains v x || nat_eq p x)
contains-mark v p x = contains-append v (p ∷ []) x ∙ unfold contains in ground arith

pub Grows-mark : (v : List ℕ) (p : ℕ) → Grows v (v ++ p ∷ [])
Grows-mark v p x h = ground (arith, contains-mark v p x)

pub below : (v : List ℕ) (p n : ℕ) → p < suc n → nat_eq p n ≡ false → p < n
below v p n h other = ground (arith, nat_eq_iff p n)

pub unseen-mark :
    (v : List ℕ) (p n : ℕ) → p < n → contains v p ≡ false → unseen (v ++ p ∷ []) n + 1 ≤ unseen v n
unseen-mark v p zero h k = absurd (omega arith)
unseen-mark v p (suc n) h k = elim (Bool-cases (nat_eq p n)) [
  | inl same ↦
      let e = (nat_eq_iff p n).0 same in
      ground (
        arith,
        contains-mark v p n,
        unseen-Grows v (v ++ p ∷ []) n (Grows-mark v p),
        subst (λ m. contains v m ≡ false) e k,
      )
  | inr other ↦ ground (arith, contains-mark v p n, unseen-mark v p n (below v p n h other) k)
]

pub contains-cons :
    (p : ℕ) (ps : List ℕ) (x : ℕ) → contains (p ∷ ps) x ≡ true → (p ≡ x) ⊎ (contains ps x ≡ true)
contains-cons p ps x h = elim (Bool-cases (nat_eq p x)) [
  | inl same ↦ inl ((nat_eq_iff p x).0 same)
  | inr other ↦ inr (unfold contains in ground arith)
]

pub contains-here : (p : ℕ) (ps : List ℕ) (x : ℕ) → p ≡ x → contains (p ∷ ps) x ≡ true
contains-here p ps x e = unfold contains in ground (arith, nat_eq_iff p x)

pub cons_append :
    (p : ℕ) (xs ys : List ℕ) (x : ℕ)
    → contains (p ∷ (xs ++ ys)) x ≡ true
    → (p ≡ x) ⊎ ((contains xs x ≡ true) ⊎ (contains ys x ≡ true))
cons_append p xs ys x h = elim (contains-cons p (xs ++ ys) x h) [
  | inl e ↦ inl e
  | inr k ↦ elim (Bool-cases (contains xs x)) [
    | inl l ↦ inr (inl l)
    | inr l ↦ inr (inr (ground (arith, contains-append xs ys x)))
  ]
]

pub Grows-cons : (p : ℕ) (ps : List ℕ) → Grows ps (p ∷ ps)
Grows-cons p ps x h = unfold contains in ground arith
