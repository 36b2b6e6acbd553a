-- ===== src/Prelude/Keys.antt =====
-- Keys of hash maps and hash sets: a type with a decided equality.
use mathlib.Core.Path.{◌≡◌, refl}
use mathlib.Core.Logic.{◌↔◌}
use mathlib.Core.Bool.{Bool, true}
use Prim.Native.Nat.{ℕ}
use shinran.Prelude.Tests.{nat_eq, nat_eq_iff}

-- `Eq` and `Hash` of a key, as far as maps and sets can show them.
pub record Key (K : Type 0) : Type 0 where
  pub equals : K → K → Bool
  pub equals_iff : (j k : K) → (equals j k ≡ true) ↔ (j ≡ k)

module _ {K : Type 0} ⦃key : Key K⦄ where
  infix 50 ◌==◌
  abbrev pub ◌==◌ : K → K → Bool
  j == k = key.equals j k

  pub key_iff : (j k : K) → ((j == k) ≡ true) ↔ (j ≡ k)
  key_iff j k = key.equals_iff j k

  pub key_refl : (k : K) → (k == k) ≡ true
  key_refl k = (key_iff k k).1 refl

instance abbrev pub nat_key : Key ℕ
nat_key = record { equals = nat_eq; equals_iff = nat_eq_iff }
