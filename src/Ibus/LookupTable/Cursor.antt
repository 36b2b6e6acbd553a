-- ===== src/Ibus/LookupTable/Cursor.antt =====
-- Where the cursor of the table may stand (crates/ibus_utils/src/lookup_table.rs).
use native.Mathlib.Decide.{dec_lt}
use native.Mathlib.Nat.{mod-eq_of_lt, mod-eq-sub-mod}
use shinran.Prelude.{
  ℕ, ◌+◌, ◌-◌, ◌%◌, ◌≤◌, ◌<◌, Text, Bool, true, false, none, some, [], ◌∷◌, ◌≡◌, ◌≢◌, ◌⊎◌, arith,
  length, length-append,
}
use shinran.Ibus.LookupTable.{
  IBusLookupTable, u32_mod, append_candidate, append_label, get_cursor_pos_in_current_page,
  set_cursor_pos_in_current_page, cursor_up, cursor_down, clear,
}

-- The cursor stands on a candidate or one place behind the last. This is what the operations keep.
pub record IsValid (t : IBusLookupTable) : Type 0 where
  pub page : 0 < t.page_size
  pub room : length t.candidates < u32_mod
  pub within : t.cursor_pos ≤ length t.candidates

-- What may be done to a table, where `append_candidate` has room for one more candidate and
-- `cursor_up` has a candidate to go round to.
pub data Step (t : IBusLookupTable) : IBusLookupTable → Type 0 where
  append : (text : Text) → length t.candidates + 1 < u32_mod → Step t (append_candidate text t)
  label : (text : Text) → Step t (append_label text t)
  place :
      (pos : ℕ) {t' : IBusLookupTable} {moved : Bool}
      → set_cursor_pos_in_current_page pos t ≡ some (t', moved)
      → Step t t'
  up : (t.round ≡ false) ⊎ (0 < length t.candidates) → Step t (cursor_up t).0
  down : Step t (cursor_down t).0
  reset : Step t (clear t)

pub data Reach (s : IBusLookupTable) : IBusLookupTable → Type 0 where
  here : Reach s s
  next : {t u : IBusLookupTable} → Reach s t → Step t u → Reach s u

Step-IsValid : {t u : IBusLookupTable} → Step t u → IsValid t → IsValid u
unfolding append_candidate append_label set_cursor_pos_in_current_page cursor_up cursor_down clear
Step-IsValid {t = t} (append text h) v = record {
  page = v.page;
  room = omega (arith, length-append t.candidates (text ∷ []));
  within = omega (arith, length-append t.candidates (text ∷ []), v.within);
}
Step-IsValid (label text) v = record { page = v.page; room = v.room; within = v.within }
Step-IsValid (place pos e) v = ground arith
Step-IsValid (up h) v = ground arith
Step-IsValid down v = ground arith
Step-IsValid reset v = record { page = v.page; room = omega arith; within = omega arith }

-- Whatever is done to a valid table, it stays valid, so that the cursor is on a candidate or right
-- behind the last: as long as fewer than 2 ^ 32 candidates are appended, and a round table without
-- candidates is not stepped up.
pub Reach-IsValid : {s t : IBusLookupTable} → IsValid s → Reach s t → IsValid t
Reach-IsValid v here = v
Reach-IsValid v (next r step) = Step-IsValid step (Reach-IsValid v r)

-- On a valid table setting the cursor in its page does not panic.
pub set_cursor_pos_total :
    (t : IBusLookupTable) (pos : ℕ) → IsValid t → set_cursor_pos_in_current_page pos t ≢ none
unfolding set_cursor_pos_in_current_page
set_cursor_pos_total t pos v = ground arith

-- On a valid table a step down from a candidate is undone by a step up.
pub cursor_up-cursor_down :
    (t : IBusLookupTable)
    → IsValid t
    → t.cursor_pos < length t.candidates
    → cursor_up (cursor_down t).0 ≡ (t, true)
unfolding cursor_up cursor_down
cursor_up-cursor_down t v h = ground arith

mod_shift : (p k n : ℕ) → p < n → 0 < k → k < n → (p + k) % n ≢ p
mod_shift p k n h pos below e = elim (dec_lt (p + k) n) [
  | yes small ↦ omega (arith, mod-eq_of_lt small)
  | no large ↦
      let le : n ≤ p + k = omega arith in
      omega (arith, mod-eq-sub-mod le, mod-eq_of_lt {n = p + k - n} {m = n} (omega arith))
]

set_cursor_pos_placed :
    (t t' : IBusLookupTable) (pos : ℕ)
    → t.page_size + t.page_size < u32_mod
    → set_cursor_pos_in_current_page pos t ≡ some (t', true)
    → (t'.page_size ≡ t.page_size)
      × (pos < t.page_size)
      × (t'.cursor_pos ≡ pos + t.cursor_pos % t.page_size)
unfolding set_cursor_pos_in_current_page
set_cursor_pos_placed t t' pos small e =
    (ground arith, ground arith, ground (arith, mod_small (pos + t.cursor_pos % t.page_size)))
  where
    mod_small : (n : ℕ) → n < u32_mod → n % u32_mod ≡ n
    mod_small n h = omega arith

-- Where the cursor is not on the first place of its page, and two pages are smaller than 2 ^ 32,
-- moving it to a place of the page, when it says that it did, does not bring it there.
pub set_cursor_pos_misses :
    (t t' : IBusLookupTable) (pos : ℕ)
    → t.page_size + t.page_size < u32_mod
    → 0 < t.cursor_pos % t.page_size
    → set_cursor_pos_in_current_page pos t ≡ some (t', true)
    → get_cursor_pos_in_current_page t' ≢ some pos
unfolding get_cursor_pos_in_current_page
set_cursor_pos_misses t t' pos small off e q =
    let (page, fits, placed) = set_cursor_pos_placed t t' pos small e in
    mod_shift pos (t.cursor_pos % t.page_size) t.page_size fits off (omega (arith, fits))
      (ground (arith, page, placed))
