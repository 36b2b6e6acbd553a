-- ===== src/Config/Matches/Missing.antt =====
-- How many names are not loaded yet (crates/shinran_config/src/matches/store.rs): what bounds how deep
-- imports are nested.
use shinran.Prelude.{
  ℕ, ◌+◌, ◌≤◌, Text, text_key, text_eq, text_eq_iff, true, false, List, [], ◌∷◌, ◌≡◌, inl, inr, sym,
  ap, ◌∙◌, subst, arith, contains, nat_key, if◌then◌else◌, Bool-cases,
}
use shinran.Prelude.Dict.{Map, lookup, lookup-insert}
use shinran.Prelude.Dict
use shinran.Config.Matches.{is_loaded}

-- How many of the names are not loaded.
abbrev pub missing : Map Text ℕ → List Text → ℕ
missing m [] = 0
missing m (name ∷ names) = (if is_loaded (lookup name m) then 0 else 1) + missing m names

abbrev pub Keeps : Map Text ℕ → Map Text ℕ → Type 0
Keeps m n = (x : Text) → is_loaded (lookup x m) ≡ true → is_loaded (lookup x n) ≡ true

pub missing-Keeps :
    (m n : Map Text ℕ) (names : List Text) → Keeps m n → missing n names ≤ missing m names
missing-Keeps m n [] k = omega arith
missing-Keeps m n (name ∷ names) k = ground (arith, k name, missing-Keeps m n names k)

pub loaded-insert :
    (p x : Text) (v : ℕ) (m : Map Text ℕ)
    → is_loaded (lookup x (Dict.insert p v m))
      ≡ (if text_eq p x then true else is_loaded (lookup x m))
loaded-insert p x v m = ap is_loaded (lookup-insert p x v m) ∙ ground arith

pub Keeps-insert : (p : Text) (v : ℕ) (m : Map Text ℕ) → Keeps m (Dict.insert p v m)
Keeps-insert p v m x h = ground (arith, loaded-insert p x v m)

pub missing-insert :
    (p : Text) (v : ℕ) (m : Map Text ℕ) (names : List Text)
    → contains names p ≡ true
    → is_loaded (lookup p m) ≡ false
    → missing (Dict.insert p v m) names + 1 ≤ missing m names
missing-insert p v m [] h k = absurd (unfold contains in ground arith)
missing-insert p v m (name ∷ names) h k = elim (Bool-cases (text_eq name p)) [
  | inl same ↦
      let e = (text_eq_iff name p).0 same in
      ground (
        arith,
        loaded-insert p name v m,
        missing-Keeps m (Dict.insert p v m) names (Keeps-insert p v m),
        text_eq_iff p name,
        subst (λ x. is_loaded (lookup x m) ≡ false) (sym e) k,
      )
  | inr other ↦ ground (
    arith,
    loaded-insert p name v m,
    text_eq_iff p name,
    text_eq_iff name p,
    Keeps-insert p v m name,
    missing-insert p v m names (later p name names h other) k,
  )
]
  where
    later :
        (p name : Text) (names : List Text)
        → contains (name ∷ names) p ≡ true
        → text_eq name p ≡ false
        → contains names p ≡ true
    later p name names h other = unfold contains in ground arith
