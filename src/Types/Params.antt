-- ===== src/Types/Params.antt =====
-- Reading and writing a parameter of a variable (`HashMap<String, Value>`).
use shinran.Prelude.{
  Text, text_eq, text_eq_iff, Option, none, some, ◌≡◌, refl, arith, if◌then◌else◌,
}
use shinran.Types.{Value, Fields, end, field}

-- `params.get(name)`
unfoldable pub get : Text → Fields → Option Value
get k end = none
get k (field j v fs) = if text_eq j k then some v else get k fs

-- `params.insert(name, value)`
unfoldable pub insert : Text → Value → Fields → Fields
insert k v end = field k v end
insert k v (field j w fs) = if text_eq j k then field k v fs else field j w (insert k v fs)

pub get-insert :
    (k j : Text) (v : Value) (fs : Fields)
    → get j (insert k v fs) ≡ (if text_eq k j then some v else get j fs)
unfolding get insert
get-insert k j v end = refl
get-insert k j v (field i w fs) =
    ground (arith, text_eq_iff k j, text_eq_iff i k, text_eq_iff i j, get-insert k j v fs)
