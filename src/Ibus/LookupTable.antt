-- ===== src/Ibus/LookupTable.antt =====
-- crates/ibus_utils/src/lookup_table.rs: the table of candidates. A `u32` is a number below 2 ^ 32;
-- arithmetic wraps as in a release build. A candidate or label is its text (`IBusText::new(c, &[])`).
pub mod Cursor
use shinran.Prelude.{
  ℕ, zero, suc, ◌+◌, ◌-◌, ◌%◌, ◌^◌, Text, codes, Bool, true, false, Option, none, some, List, [],
  ◌∷◌, ◌++◌, length, ltb, leb, nat_eq, if◌then◌else◌,
}

abbrev pub u32_mod : ℕ
u32_mod = 2 ^ 32

pub data TableOrientation : Type 0 where
  horizontal vertical system : TableOrientation

pub record IBusLookupTable : Type 0 where
  pub page_size : ℕ
  pub cursor_pos : ℕ
  pub cursor_visible : Bool
  pub round : Bool
  pub orientation : TableOrientation
  pub candidates : List Text
  pub labels : List Text

-- `IBusLookupTable::default`
abbrev pub default_table : IBusLookupTable
default_table = record {
  page_size = 5;
  cursor_pos = 0;
  cursor_visible = true;
  round = false;
  orientation = system;
  candidates = [];
  labels = [];
}

-- `self.candidates.len() as u32`
abbrev pub len : IBusLookupTable → ℕ
len t = length t.candidates % u32_mod

unfoldable pub append_candidate : Text → IBusLookupTable → IBusLookupTable
append_candidate text t = record t { candidates = t.candidates ++ text ∷ [] }

unfoldable pub append_label : Text → IBusLookupTable → IBusLookupTable
append_label text t = record t { labels = t.labels ++ text ∷ [] }

-- `none` is the panic of `%` by zero.
unfoldable pub get_cursor_pos_in_current_page : IBusLookupTable → Option ℕ
get_cursor_pos_in_current_page t =
    if nat_eq t.page_size 0 then none else some (t.cursor_pos % t.page_size)

unfoldable pub set_cursor_pos_in_current_page :
    ℕ → IBusLookupTable → Option (IBusLookupTable × Bool)
unfolding get_cursor_pos_in_current_page
set_cursor_pos_in_current_page pos t =
    if leb t.page_size pos then some (t, false) else elim (get_cursor_pos_in_current_page t) [
      | none ↦ none
      | some offset ↦
          let pos' = (pos + offset) % u32_mod in
          if leb (len t) pos' then some (t, false) else some (record t { cursor_pos = pos' }, true)
    ]

unfoldable pub cursor_up : IBusLookupTable → IBusLookupTable × Bool
cursor_up t =
    if nat_eq t.cursor_pos 0
    then if t.round
      then (record t { cursor_pos = (len t + u32_mod - 1) % u32_mod }, true)
      else (t, false)
    else (record t { cursor_pos = t.cursor_pos - 1 }, true)

unfoldable pub cursor_down : IBusLookupTable → IBusLookupTable × Bool
cursor_down t =
    if nat_eq t.cursor_pos (len t)
    then if t.round then (record t { cursor_pos = 0 }, true) else (t, false)
    else (record t { cursor_pos = (t.cursor_pos + 1) % u32_mod }, true)

unfoldable pub clear : IBusLookupTable → IBusLookupTable
clear t = record t { candidates = []; labels = []; cursor_pos = 0 }
