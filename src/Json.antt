-- ===== src/Json.antt =====
-- `serde_json::Value` as the services read and build it. An object is the list of its entries, an
-- integer is any integer, and other numbers are kept as their text. No file of the repository is
-- modelled here.
use text.Mathlib.Text.{◌==◌}
use vocastock.Prelude.{
  ◌≡◌, refl, ℤ, pos, negsuc, String, Bool, Option, none, some, List, [], ◌∷◌, ltb, if◌then◌else◌,
}

mutual
  pub data Value : Type 0 where
    null : Value
    bool : Bool → Value
    number : ℤ → Value
    real : String → Value
    string : String → Value
    array : Values → Value
    object : Fields → Value

  pub data Values : Type 0 where
    none_left : Values
    item : Value → Values → Values

  pub data Fields : Type 0 where
    nil : Fields
    field : String → Value → Fields → Fields

unfoldable pub get_field : String → Fields → Option Value
get_field key nil = none
get_field key (field name value fields) =
    let later = get_field key fields in if name == key then some value else later

unfoldable pub as_str : Value → Option String
as_str (string s) = some s
as_str _ = none

unfoldable pub as_bool : Value → Option Bool
as_bool (bool b) = some b
as_bool _ = none

abbrev pub in_i64 : ℤ → Option ℤ
in_i64 (pos n) = if ltb n 9223372036854775808 then some (pos n) else none
in_i64 (negsuc n) = if ltb n 9223372036854775808 then some (negsuc n) else none

unfoldable pub as_i64 : Value → Option ℤ
as_i64 (number z) = in_i64 z
as_i64 _ = none

unfoldable pub as_object : Value → Option Fields
as_object (object fields) = some fields
as_object _ = none

unfoldable pub items_of : Values → List Value
items_of none_left = []
items_of (item value values) = value ∷ items_of values

unfoldable pub as_array : Value → Option (List Value)
as_array (array values) = some (items_of values)
as_array _ = none

-- `Value::get`
unfoldable pub get : String → Value → Option Value
get key (object fields) = get_field key fields
get key _ = none

-- `Option::and_then`
infixl 5 ◌>>=◌
abbrev pub ◌>>=◌ : {A B : Type 0} → Option A → (A → Option B) → Option B
none >>= f = none
some a >>= f = f a

-- A chain that gives something has gone through its first step.
pub some-of_bind :
    {A B : Type 0} (step : Option A) (later : A → Option B) (result : B)
    → step >>= later ≡ some result
    → (given : A) × (step ≡ some given) × (later given ≡ some result)
some-of_bind none later result h = absurd (cc h)
some-of_bind (some given) later result h = (given, refl, h)

abbrev pub unwrap_or : {A : Type 0} → Option A → A → A
unwrap_or none a = a
unwrap_or (some b) a = b

abbrev pub is_given : {A : Type 0} → Option A → Bool
is_given none = Bool.false
is_given (some a) = Bool.true

-- `iter().filter_map(…).collect()`
abbrev pub filter_map : {A B : Type 0} → (A → Option B) → List A → List B
filter_map f [] = []
filter_map f (a ∷ s) = keep (f a) (filter_map f s)
  where
    keep : {B : Type 0} → Option B → List B → List B
    keep none later = later
    keep (some b) later = b ∷ later
