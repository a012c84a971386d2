-- ===== src/Firestore/Value.antt =====
-- packages/rust/shared-firestore/src/value.rs
use vocastock.Prelude.{ℤ, String, Option, none, some, List}
use vocastock.Text.{parse_i64}
use vocastock.Json.{Value, Fields, get_field, as_str, as_i64, as_object, as_array, ◌>>=◌}

-- The object of a field, which wraps its value.
abbrev pub wrapper : Fields → String → Option Fields
wrapper fields key = get_field key fields >>= (λ value. as_object value)

abbrev pub member : String → Fields → Option Value
member key fields = get_field key fields

unfoldable pub read_string_field : Fields → String → Option String
read_string_field fields key = do
  wrapped ← wrapper fields key
  value ← member "stringValue" wrapped
  as_str value

abbrev nullable : Option Value → Option Value → Option (Option String)
nullable (some null_value) value = some none
nullable none value = value >>= (λ v. as_str v >>= (λ s. some (some s)))

unfoldable pub read_nullable_string_field : Fields → String → Option (Option String)
read_nullable_string_field fields key = do
  wrapped ← wrapper fields key
  nullable (member "nullValue" wrapped) (member "stringValue" wrapped)

abbrev number_or_text : Option ℤ → Option String → Option ℤ
number_or_text (some z) text = some z
number_or_text none text = text >>= (λ s. parse_i64 s)

unfoldable pub read_integer_field : Fields → String → Option ℤ
read_integer_field fields key = do
  wrapped ← wrapper fields key
  raw ← member "integerValue" wrapped
  number_or_text (as_i64 raw) (as_str raw)

-- The fields of a value that wraps a map.
unfoldable pub value_as_map : Value → Option Fields
value_as_map value = do
  wrapped ← as_object value
  map_value ← member "mapValue" wrapped
  inner ← as_object map_value
  fields ← member "fields" inner
  as_object fields

unfoldable pub read_map_field : Fields → String → Option Fields
read_map_field fields key = get_field key fields >>= (λ value. value_as_map value)

unfoldable pub read_array_field : Fields → String → Option (List Value)
read_array_field fields key = do
  wrapped ← wrapper fields key
  array_value ← member "arrayValue" wrapped
  inner ← as_object array_value
  values ← member "values" inner
  as_array values
