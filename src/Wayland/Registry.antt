-- ===== src/Wayland/Registry.antt =====
-- `State` of crates/shinran_wayland/src/main.rs: the global objects of the compositor, its seats and the
-- contexts of the seats. A bound object is the name it is bound to; `SlotMap` never gives a key out again.
use shinran.Prelude.{
  ℕ, ◌+◌, Text, Bool, true, not, Option, none, some, List, [], ◌∷◌, ◌++◌, filter, nat_eq, nat_key,
  literal, if◌then◌else◌,
}
use shinran.Prelude.Dict.{Map, lookup, insert}
use shinran.Wayland.Context.{Outcome, completed, panicked, ◌then_do◌, InputContext, new}
use shinran.Wayland.Seat.{Seat, Event, Host, step}

pub record State : Type 0 where
  pub running : Bool
  pub wl_compositor : Option ℕ
  pub input_method_manager : Option ℕ
  pub virtual_keyboard_manager : Option ℕ
  pub seats : List ℕ
  pub contexts : Map ℕ InputContext
  pub next_index : ℕ
  pub timers : List ℕ
  pub next_token : ℕ

abbrev pub initial : State
initial = record {
  running = true;
  wl_compositor = none;
  input_method_manager = none;
  virtual_keyboard_manager = none;
  seats = [];
  contexts = [];
  next_index = 0;
  timers = [];
  next_token = 0;
}

-- `Event::Global`
unfoldable pub global : (id : ℕ) (interface : Text) → State → State
global id interface state =
    if literal interface "wl_seat"
    then record state { seats = state.seats ++ id ∷ [] }
    else if literal interface "wl_compositor"
    then record state { wl_compositor = some id }
    else if literal interface "zwp_input_method_manager_v2"
    then record state { input_method_manager = some id }
    else if literal interface "zwp_virtual_keyboard_manager_v1"
    then record state { virtual_keyboard_manager = some id }
    else state

abbrev pub split_last : ℕ → List ℕ → List ℕ × ℕ
split_last x [] = ([], x)
split_last x (y ∷ rest) = let split = split_last y rest in (x ∷ split.0, split.1)

-- `swap_remove(position(..))`: the last seat takes the place of the first with the name.
unfoldable pub remove_seat : ℕ → List ℕ → List ℕ
remove_seat id [] = []
remove_seat id (seat ∷ rest) =
    let later = remove_seat id rest in
    if nat_eq seat id
    then elim rest [
      | [] ↦ []
      | next ∷ others ↦ (let split = split_last next others in split.1 ∷ split.0)
    ]
    else seat ∷ later

-- `Event::GlobalRemove`
unfoldable pub global_remove : ℕ → State → State
global_remove id state = record state {
  seats = remove_seat id state.seats;
  contexts = filter (λ (entry : ℕ × InputContext). not (nat_eq entry.1.seat_id id)) state.contexts;
}

-- `wl_seat::Event::Name`: the first context of the seat gets the name.
unfoldable pub name_seat : ℕ → Text → Map ℕ InputContext → Map ℕ InputContext
name_seat seat_id name [] = []
name_seat seat_id name ((index, context) ∷ rest) =
    let later = name_seat seat_id name rest in
    if nat_eq context.seat_id seat_id
    then (index, record context { seat_name = some name }) ∷ rest
    else (index, context) ∷ later

-- The loop of `init_protocols`
unfoldable pub insert_contexts : List ℕ → State → State
insert_contexts [] state = state
insert_contexts (seat_id ∷ rest) state = insert_contexts rest (record state {
  contexts = state.contexts ++ (state.next_index, new seat_id) ∷ [];
  next_index = state.next_index + 1;
})

unfoldable pub init_protocols : State → Outcome State
init_protocols state = elim state.input_method_manager [
  | none ↦ panicked
  | some m ↦ elim state.virtual_keyboard_manager [
    | none ↦ panicked
    | some k ↦ elim state.wl_compositor [
      | none ↦ panicked
      | some c ↦ completed (insert_contexts state.seats state)
    ]
  ]
]

-- What an event of a seat sees of the state, and what it leaves.
abbrev pub seat_of : State → InputContext → Seat
seat_of state context = record {
  context = context;
  running = state.running;
  timers = state.timers;
  next_token = state.next_token;
}

abbrev pub with_seat : ℕ → State → Seat → State
with_seat seat_index state seat = record state {
  running = seat.running;
  contexts = insert seat_index seat.context state.contexts;
  timers = seat.timers;
  next_token = seat.next_token;
}

module _ {E : Type 0} (host : Host E) where
  -- `state.get_context(seat_index)` panics for a seat that is gone.
  unfoldable pub dispatch : ℕ → Event → State → Outcome State
  dispatch seat_index event state = elim (lookup seat_index state.contexts) [
    | none ↦ panicked
    | some context ↦ step host event (seat_of state context) then_do λ seat.
        completed (with_seat seat_index state seat)
  ]
