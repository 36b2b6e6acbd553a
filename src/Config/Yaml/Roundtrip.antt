-- ===== src/Config/Yaml/Roundtrip.antt =====
-- The parameters of a variable, written as YAML, and read by `convert_params` of
-- crates/shinran_config/src/matches/group/loader/yaml/util.rs.
use shinran.Prelude.{
  ◌<◌, ◌≡◌, refl, sym, ap, ◌∙◌, ◌⊎◌, inr, Text, none, text_eq_iff, arith, success,
}
use shinran.Types.{
  Number, integer, Value, null, bool, number, string, array, object, Values, nil, cons, Fields, end,
  field, Params,
}
use shinran.Types.Params.{get, insert, get-insert}
use shinran.Config.Yaml.{
  YamlNumber, YamlValue, Sequence, Mapping, entry, i64_limit, convert_number, convert_value,
  convert_values, convert_entries, convert_params,
}

abbrev pub write_number : Number → YamlNumber
write_number (integer n) = YamlNumber.positive n
write_number (Number.negative n) = YamlNumber.negative n
write_number (Number.float bits) = YamlNumber.float bits

unfoldable mutual
  pub write_value : Value → YamlValue
  write_value null = YamlValue.null
  write_value (bool b) = YamlValue.bool b
  write_value (number n) = YamlValue.number (write_number n)
  write_value (string s) = YamlValue.string s
  write_value (array values) = YamlValue.sequence (write_values values)
  write_value (object fields) = YamlValue.mapping (write_fields fields)

  pub write_values : Values → Sequence
  write_values nil = Sequence.nil
  write_values (cons value values) = Sequence.cons (write_value value) (write_values values)

  pub write_fields : Fields → Mapping
  write_fields end = Mapping.end
  write_fields (field key value fields) =
      entry (YamlValue.string key) (write_value value) (write_fields fields)

abbrev pub FitsNumber : Number → Type 0
FitsNumber (integer n) = n < i64_limit
FitsNumber _ = Unit

-- The integers are `i64`, and a key stands once in each of the maps.
unfoldable mutual
  pub Fits : Value → Type 0
  Fits (number n) = FitsNumber n
  Fits (array values) = FitsValues values
  Fits (object fields) = FitsFields fields
  Fits _ = Unit

  pub FitsValues : Values → Type 0
  FitsValues nil = Unit
  FitsValues (cons value values) = Fits value × FitsValues values

  pub FitsFields : Fields → Type 0
  FitsFields end = Unit
  FitsFields (field key value fields) = (get key fields ≡ none) × Fits value × FitsFields fields

abbrev append : Fields → Fields → Fields
append end fs = fs
append (field k v rest) fs = field k v (append rest fs)

append-insert :
    (k : Text) (v : Value) (acc fs : Fields)
    → get k acc ≡ none
    → append (insert k v acc) fs ≡ append acc (field k v fs)
unfolding get insert
append-insert k v end fs h = refl
append-insert k v (field j w acc) fs h = ground (arith, append-insert k v acc fs, h)

-- No key stands in both.
abbrev Disjoint : Fields → Fields → Type 0
Disjoint acc fs = (j : Text) → (get j fs ≡ none) ⊎ (get j acc ≡ none)

Disjoint-insert :
    (k : Text) (v : Value) (acc fs : Fields)
    → get k fs ≡ none
    → Disjoint acc (field k v fs)
    → Disjoint (insert k v acc) fs
unfolding get
Disjoint-insert k v acc fs new d j = ground (arith, get-insert k j v acc, d j, new, text_eq_iff k j)

Disjoint-end : (fs : Fields) → Disjoint end fs
unfolding get
Disjoint-end fs j = inr refl

Disjoint-absent :
    (k : Text) (v : Value) (acc fs : Fields) → Disjoint acc (field k v fs) → get k acc ≡ none
unfolding get
Disjoint-absent k v acc fs d = ground (arith, d k, text_eq_iff k k)

append-end : (fs : Fields) → append fs end ≡ fs
append-end end = refl
append-end (field k v fs) = ap (field k v) (append-end fs)

mutual
  unfolding convert_value convert_values convert_entries convert_number write_value write_values
      write_fields Fits FitsValues FitsFields

  convert_value-write : (v : Value) → Fits v → convert_value (write_value v) ≡ success v
  convert_value-write null h = refl
  convert_value-write (bool b) h = refl
  convert_value-write (number (integer n)) h = ground (arith, h)
  convert_value-write (number (Number.negative n)) h = refl
  convert_value-write (number (Number.float bits)) h = refl
  convert_value-write (string s) h = refl
  convert_value-write (array values) h = rw (convert_values-write values h) refl
  convert_value-write (object fields) h =
      rw (convert_entries-write fields end h (Disjoint-end fields)) refl

  convert_values-write :
      (vs : Values) → FitsValues vs → convert_values (write_values vs) ≡ success vs
  convert_values-write nil h = refl
  convert_values-write (cons v vs) (h, hs) =
      rw (convert_value-write v h, convert_values-write vs hs) refl

  convert_entries-write :
      (fs acc : Fields)
      → FitsFields fs
      → Disjoint acc fs
      → convert_entries (write_fields fs) acc ≡ success (append acc fs)
  convert_entries-write end acc h d = ap success (sym (append-end acc))
  convert_entries-write (field k v fs) acc (new, h, hs) d = rw (convert_value-write v h) (
      convert_entries-write fs (insert k v acc) hs (Disjoint-insert k v acc fs new d)
      ∙ ap success (append-insert k v acc fs (Disjoint-absent k v acc fs d)))

-- Parameters whose integers are `i64` and whose maps, at every depth, have each key once come back
-- from YAML as they were, in the same order and without an error.
pub convert_params-write :
    (params : Params) → FitsFields params → convert_params (write_fields params) ≡ success params
unfolding convert_params
convert_params-write params h = convert_entries-write params end h (Disjoint-end params)
