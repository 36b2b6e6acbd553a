-- ===== src/Wayland/Seat/Held.antt =====
-- The keys that `mark_as_pressed` and `release_if_pressed` of
-- crates/shinran_wayland/src/input_context.rs hold, as a multiset.
use shinran.Prelude.{ℕ, suc, ◌<◌, ◌≡◌, refl, ◌≢◌, List, [], ◌∷◌, ltb, nat_eq, if◌then◌else◌, arith}
use shinran.Wayland.Context.{mark_slot, release_slot, default_keycode}

-- How often the table holds a key.
unfoldable pub count : ℕ → List ℕ → ℕ
count keycode [] = 0
count keycode (code ∷ rest) =
    let later = count keycode rest in if nat_eq code keycode then suc later else later

pub count-mark_slot :
    (k c : ℕ) (slots : List ℕ)
    → k ≢ default_keycode
    → c ≢ k
    → count k (mark_slot c slots) ≡ count k slots
unfolding count mark_slot
count-mark_slot k c [] h n = refl
count-mark_slot k c (code ∷ rest) h n = ground (arith, count-mark_slot k c rest h n)

pub count-mark_slot_self :
    (k : ℕ) (slots : List ℕ)
    → k ≢ default_keycode
    → 0 < count default_keycode slots
    → count k (mark_slot k slots) ≡ suc (count k slots)
unfolding count mark_slot
count-mark_slot_self k [] h room = omega (arith, room)
count-mark_slot_self k (code ∷ rest) h room = ground (arith, count-mark_slot_self k rest h)

pub count-release_slot :
    (k c : ℕ) (slots : List ℕ)
    → k ≢ default_keycode
    → c ≢ k
    → count k (release_slot c slots).0 ≡ count k slots
unfolding count release_slot
count-release_slot k c [] h n = refl
count-release_slot k c (code ∷ rest) h n = ground (arith, count-release_slot k c rest h n)

-- A key is found exactly if it is held.
pub release_slot-found : (k : ℕ) (slots : List ℕ) → (release_slot k slots).1 ≡ ltb 0 (count k slots)
unfolding count release_slot
release_slot-found k [] = refl
release_slot-found k (code ∷ rest) = ground (arith, release_slot-found k rest)
