-- ===== src/Ibus/Engine/Positions.antt =====
-- Bytes and characters of an ASCII text that is split at the cursor
-- (crates/shinran_ibus/src/engine.rs).
use shinran.Prelude.{
  ℕ, ◌+◌, ◌-◌, ◌<◌, Text, some, [], ◌∷◌, ◌++◌, ◌≡◌, refl, ap, ◌∙◌, subst, arith, length,
}
use shinran.Ibus.Bytes.{byte_len, cons, remove_at, insert_at}
use shinran.Ibus.Engine.Editor.{rev_onto, IsAscii}

pub length-rev_onto : (b s : Text) → length (rev_onto b s) ≡ length b + length s
length-rev_onto [] s = omega arith
length-rev_onto (c ∷ b) s = omega (arith, length-rev_onto b (c ∷ s))

pub byte_len-rev_onto :
    (b s : Text) → IsAscii b → IsAscii s → byte_len (rev_onto b s) ≡ length b + length s
byte_len-rev_onto [] [] p q = omega arith
byte_len-rev_onto [] (c ∷ s) p (h, q) = ground (arith, byte_len-rev_onto [] s p q)
byte_len-rev_onto (c ∷ b) s (h, p) q = omega (arith, byte_len-rev_onto b (c ∷ s) p (h, q))

pub rev_onto-append : (b s t : Text) → rev_onto b s ++ t ≡ rev_onto b (s ++ t)
rev_onto-append [] s t = refl
rev_onto-append (c ∷ b) s t = rev_onto-append b (c ∷ s) t

pub less_one : (k : ℕ) → k + 1 - 1 ≡ k
less_one k = omega arith

pub remove_at-suc :
    (c : ℕ) (s : Text) (k : ℕ) → c < 128 → remove_at (c ∷ s) (k + 1) ≡ cons c (remove_at s k)
remove_at-suc c s k h = ground (arith, less_one k)

pub remove_at-rev_onto :
    (b s t : Text) (k i : ℕ)
    → IsAscii b
    → i ≡ length b + k
    → remove_at s k ≡ some t
    → remove_at (rev_onto b s) i ≡ some (rev_onto b t)
remove_at-rev_onto [] s t k i p q e = subst (λ n. remove_at s n ≡ some t) (omega (arith, q)) e
remove_at-rev_onto (c ∷ b) s t k i (h, p) q e =
    remove_at-rev_onto b (c ∷ s) (c ∷ t) (k + 1) i p (omega (arith, q))
      (remove_at-suc c s k h ∙ ap (cons c) e)

pub insert_at-suc :
    (c : ℕ) (s : Text) (k x : ℕ) → c < 128 → insert_at (c ∷ s) (k + 1) x ≡ cons c (insert_at s k x)
insert_at-suc c s k x h = ground (arith, less_one k)

pub insert_at-rev_onto :
    (b s t : Text) (k i x : ℕ)
    → IsAscii b
    → i ≡ length b + k
    → insert_at s k x ≡ some t
    → insert_at (rev_onto b s) i x ≡ some (rev_onto b t)
insert_at-rev_onto [] s t k i x p q e = subst (λ n. insert_at s n x ≡ some t) (omega (arith, q)) e
insert_at-rev_onto (c ∷ b) s t k i x (h, p) q e =
    insert_at-rev_onto b (c ∷ s) (c ∷ t) (k + 1) i x p (omega (arith, q))
      (insert_at-suc c s k x h ∙ ap (cons c) e)
