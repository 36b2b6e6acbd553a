-- ===== src/Config/Yaml.antt =====
-- crates/shinran_config/src/matches/group/loader/yaml/util.rs: the values of a YAML file, as
-- `serde_yaml_ng` reads them, and their conversion to the values of parameters.
pub mod Roundtrip
pub mod Match
pub mod File
pub mod Validity
pub mod Valid
pub mod Accounting
pub mod Entries
pub mod Loops
pub mod Contents
pub mod Triggers
pub mod Tests
use shinran.Prelude.{
  ℕ, ◌^◌, ◌<◌, Text, Bool, List, [], ◌∷◌, ltb, if◌then◌else◌, Result, success, failure, ◌and_then◌,
}
use shinran.Types.{Number, integer, Value, Values, Fields, Params}
use shinran.Types.Params

-- A number is a `u64`, a negative `i64`, of which `negative n` is -(n + 1), or a float.
pub data YamlNumber : Type 0 where
  positive negative : ℕ → YamlNumber
  float : (bits : ℕ) → YamlNumber

mutual
  pub data YamlValue : Type 0 where
    null : YamlValue
    bool : Bool → YamlValue
    number : YamlNumber → YamlValue
    string : Text → YamlValue
    sequence : Sequence → YamlValue
    mapping : Mapping → YamlValue
    tagged : (tag : Text) → YamlValue → YamlValue

  pub data Sequence : Type 0 where
    nil : Sequence
    cons : YamlValue → Sequence → Sequence

  -- The entries in their order.
  pub data Mapping : Type 0 where
    end : Mapping
    entry : (key value : YamlValue) → Mapping → Mapping

-- `out_of_range` is the error of `try_into`.
pub data ConversionError : Type 0 where
  invalid_key_format invalid_number_format out_of_range : ConversionError

abbrev pub i64_limit : ℕ
i64_limit = 2 ^ 63

-- The arm for a number: `is_i64`, then `is_u64`, then `is_f64`.
unfoldable pub convert_number : YamlNumber → Result ConversionError Number
convert_number (positive n) = if ltb n i64_limit then success (integer n) else failure out_of_range
convert_number (negative n) = success (Number.negative n)
convert_number (float bits) = success (Number.float bits)

abbrev pub as_str : YamlValue → Result ConversionError Text
as_str (string s) = success s
as_str _ = failure invalid_key_format

unfoldable mutual
  pub convert_value : YamlValue → Result ConversionError Value
  convert_value null = success Value.null
  convert_value (bool b) = success (Value.bool b)
  convert_value (number n) = convert_number n and_then λ m. success (Value.number m)
  convert_value (string s) = success (Value.string s)
  convert_value (sequence values) = convert_values values and_then λ vs. success (Value.array vs)
  convert_value (mapping entries) =
      convert_entries entries Fields.end and_then λ fs. success (Value.object fs)
  convert_value (tagged tag value) = failure invalid_key_format

  pub convert_values : Sequence → Result ConversionError Values
  convert_values nil = success Values.nil
  convert_values (cons value values) = convert_value value and_then λ v.
      convert_values values and_then λ vs. success (Values.cons v vs)

  -- The loop of `convert_params`
  pub convert_entries : Mapping → Params → Result ConversionError Params
  convert_entries end params = success params
  convert_entries (entry key value entries) params = as_str key and_then λ k.
      convert_value value and_then λ v. convert_entries entries (Params.insert k v params)

unfoldable pub convert_params : Mapping → Result ConversionError Params
convert_params m = convert_entries m Fields.end
