-- ===== src/Prelude/Dict.antt =====
-- `HashMap` as an association list with one entry for each key.
use mathlib.Core.Path.{◌≡◌, refl}
use mathlib.Core.List.{List, [], ◌∷◌, map}
use mathlib.Core.Option.{Option, none, some}
use native.Mathlib.Omega.{arith}
use shinran.Prelude.Tests.{if◌then◌else◌}
use shinran.Prelude.Keys.{Key, ◌==◌, key_iff, key_refl}

abbrev pub Map : Type 0 → Type 0 → Type 0
Map K V = List (K × V)

module _ {K V : Type 0} where
  -- `HashMap::values`, `HashMap::keys`
  abbrev pub values : Map K V → List V
  values m = map (λ (p : K × V). p.1) m

  abbrev pub keys : Map K V → List K
  keys m = map (λ (p : K × V). p.0) m

module _ {K V : Type 0} ⦃e : Key K⦄ where
  -- `HashMap::get`
  unfoldable pub lookup : K → Map K V → Option V
  lookup key [] = none
  lookup key (entry ∷ rest) =
      let later = lookup key rest in if entry.0 == key then some entry.1 else later

  -- `HashMap::insert`
  unfoldable pub insert : K → V → Map K V → Map K V
  insert key value [] = (key, value) ∷ []
  insert key value (entry ∷ rest) =
      let later = insert key value rest in
      if entry.0 == key then (key, value) ∷ rest else entry ∷ later

  -- What a key stands for after an insertion.
  pub lookup-insert :
      (key other : K) (value : V) (map : Map K V)
      → lookup other (insert key value map)
        ≡ (if key == other then some value else lookup other map)
  unfolding lookup insert
  lookup-insert key other value [] = refl
  lookup-insert key other value (entry ∷ rest) =
      let ih = lookup-insert key other value rest in
      ground (arith, ih, key_iff entry.0 other, key_iff entry.0 key, key_iff key other)

  pub lookup-insert_self :
      (key : K) (value : V) (map : Map K V) → lookup key (insert key value map) ≡ some value
  lookup-insert_self key value map = ground (arith, lookup-insert key key value map, key_refl key)
