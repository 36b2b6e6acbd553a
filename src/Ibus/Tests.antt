-- ===== src/Ibus/Tests.antt =====
-- Tests of the input method (crates/ibus_utils/src/, crates/shinran_ibus/src/engine.rs).
use shinran.Prelude.{
  ℕ, zero, suc, ◌+◌, ◌≤◌, Text, codes, true, none, some, List, [], ◌∷◌, ◌≡◌, ◌≢◌, refl, arith,
  length, answer, ◌++◌, literal, if◌then◌else◌, text_eq, contains, nat_key, success, failure,
}
use shinran.Prelude.Whitespace.{trim_start, trim_end}
use shinran.Ibus.Address.{
  Session, failed_to_parse_display, get_machine_id, get_user_config_dir, get_socket_path,
}
use shinran.Ibus.Address.Display.{get_socket_path-display, get_socket_path-refuses_display}
use shinran.Ibus.LookupTable.{
  IBusLookupTable, default_table, cursor_up, cursor_down, get_cursor_pos_in_current_page,
  set_cursor_pos_in_current_page,
}
use shinran.Ibus.LookupTable.Cursor.{
  IsValid, down, here, next, Reach-IsValid, cursor_up-cursor_down, set_cursor_pos_misses,
}
use shinran.Ibus.Engine.{
  Signal, Keysym, return_, other, back_space, ShinranEngine, completed, panicked, Host, commit_text,
  process_key_event, new,
}
use shinran.Ibus.Engine.Editor.{Editor, Represents, Ends}
use shinran.Ibus.Engine.Session.{Event, key, respond_all, serve, serve-Represents}
use shinran.Ibus.Engine.Faults.{process_key_event-commits, process_key_event-panics_on_latin1}

-- Seven candidates, the cursor on the sixth: on the first place of the second page.
abbrev table_at : ℕ → IBusLookupTable
table_at pos = record default_table {
  cursor_pos = pos;
  candidates =
      codes "a" ∷ codes "b" ∷ codes "c" ∷ codes "d" ∷ codes "e" ∷ codes "f" ∷ codes "g" ∷ [];
}

table_IsValid : (pos : ℕ) → pos ≤ 7 → IsValid (table_at pos)
table_IsValid pos h = record { page = omega arith; room = omega arith; within = h }

Reach-IsValid_example : IsValid (cursor_down (table_at 6)).0
Reach-IsValid_example =
    Reach-IsValid {s = table_at 6} {t = (cursor_down (table_at 6)).0}
      (table_IsValid 6 (omega arith)) (next here down)

cursor_up-cursor_down_example : cursor_up (cursor_down (table_at 3)).0 ≡ (table_at 3, true)
cursor_up-cursor_down_example =
    cursor_up-cursor_down (table_at 3) (table_IsValid 3 (omega arith)) (omega arith)

placed_at_three : set_cursor_pos_in_current_page 2 (table_at 1) ≡ some (table_at 3, true)
unfolding set_cursor_pos_in_current_page get_cursor_pos_in_current_page
placed_at_three = refl

set_cursor_pos_misses_example : get_cursor_pos_in_current_page (table_at 3) ≢ some 2
set_cursor_pos_misses_example =
    set_cursor_pos_misses (table_at 1) (table_at 3) 2 (omega arith) (omega arith) placed_at_three

-- Key values below 256 type themselves; 1 is Return and 2 is BackSpace.
abbrev sample_keysym : ℕ → Keysym
sample_keysym zero = other none
sample_keysym (suc zero) = return_
sample_keysym (suc (suc zero)) = back_space
sample_keysym (suc (suc (suc n))) = other (some (n + 3))

abbrev pub sample_host : Host Text
sample_host = record {
  sends = λ signal. true;
  check_trigger = λ text. answer (some (codes "Hello"));
  fuzzy_match = λ text. [];
  keysym = sample_keysym;
}

-- The engine after a text was typed.
abbrev pub typed_text : Text → ShinranEngine
typed_text text = record (new 0) { text = text; cursor_pos = length text }

abbrev empty_editor : Editor
empty_editor = record { before = []; after = []; started = 0 }

abbrev keys : List Event
keys = key b'h' 0 0 ∷ key b'i' 0 0 ∷ key 2 0 0 ∷ key b'o' 0 0 ∷ []

serve-Represents_example :
    Ends (Represents (respond_all sample_keysym keys empty_editor)) (serve sample_host keys (new 0))
serve-Represents_example =
    serve-Represents sample_host (λ s. (some (codes "Hello"), refl)) keys empty_editor (new 0)
      (omega arith, (omega arith, (tt, (omega arith, tt)))) (omega arith)
      (record { same = refl; at = refl; since = refl; ascii_before = tt; ascii_after = tt })

process_key_event-commits_example :
    (signals : List Signal) × (process_key_event sample_host 1 0 0 (typed_text (codes ":hi"))
      ≡ completed (record (typed_text (codes ":hi")) {
        done = 0 + 1;
        text = [];
        cursor_pos = 0;
        new_key_pressed = true;
        signals = commit_text (codes "Hello") ∷ signals;
      }))
process_key_event-commits_example =
    process_key_event-commits sample_host 1 0 0 (typed_text (codes ":hi")) (codes "Hello") refl refl
      refl refl (λ s. refl)

process_key_event-panics_on_latin1_example :
    process_key_event sample_host b'a' 0 0 (typed_text (233 ∷ [])) ≡ panicked
process_key_event-panics_on_latin1_example =
    process_key_event-panics_on_latin1 sample_host b'a' 0 0 (typed_text (233 ∷ [])) 233 b'a' refl
      refl refl refl refl (omega arith) (omega arith)

-- A session on X11 with a display, on a machine with an identity.
abbrev session_on : Text → Session
session_on display = record {
  env_var = λ name.
      if literal name "DISPLAY"
      then some display
      else if literal name "HOME"
      then some (codes "/home/a")
      else none;
  read_to_string = λ path. some (codes " id\n");
  join = λ dir path. dir ++ (codes "/" ++ path);
}

get_socket_path-display_example :
    get_socket_path (session_on (codes ":1.0"))
    ≡ success (codes "/home/a/.config/ibus/bus/id-unix-1")
unfolding text_eq contains get_machine_id get_user_config_dir trim_start trim_end
get_socket_path-display_example =
    get_socket_path-display (session_on (codes ":1.0")) [] (codes "1") (codes "0") (codes "id")
      (codes "/home/a/.config") refl refl refl refl refl refl refl

get_socket_path-refuses_display_example :
    get_socket_path (session_on (codes ":0")) ≡ failure failed_to_parse_display
unfolding text_eq contains
get_socket_path-refuses_display_example =
    get_socket_path-refuses_display (session_on (codes ":0")) [] (codes "0") refl refl refl refl
      refl
