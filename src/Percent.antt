-- ===== src/Percent.antt =====
-- Percent coding: `percent_encode` of
-- applications/backend/graphql-gateway/src/gateway_routing/downstream/generic_relay.rs,
-- `percent_encode_path` of packages/rust/shared-firestore/src/http.rs, and `percent_decode` of
-- applications/backend/query-api/src/query_catalog_read/http/endpoint.rs. A byte is a number.
pub mod Laws
mod Tests
use Prim.Native.String as Str
use vocastock.Prelude.{
  ℕ, ◌+◌, ◌-◌, ◌*◌, ◌/◌, ◌%◌, String, Bool, ◌&&◌, ◌||◌, Option, none, some, List, [], ◌∷◌, ltb, leb,
  ◌==◌, if◌then◌else◌,
}
use vocastock.Text.{as_bytes, from_utf8, char_of_byte}

-- The bytes that both encoders leave as they are.
unfoldable pub is_unreserved : ℕ → Bool
is_unreserved b =
    (leb b'A' b && leb b b'Z')
    || (leb b'a' b && leb b b'z')
    || (leb b'0' b && leb b b'9')
    || b == b'-'
    || b == b'_'
    || b == b'.'
    || b == b'~'

-- A digit of `{byte:02X}`.
unfoldable pub hex_upper : ℕ → ℕ
hex_upper n = if ltb n 10 then b'0' + n else b'A' + (n - 10)

unfoldable pub percent_encode_bytes : List ℕ → String
percent_encode_bytes [] = ""
percent_encode_bytes (b ∷ s) =
    let rest = percent_encode_bytes s in
    if is_unreserved b
    then Str.◌∷◌ (char_of_byte b) rest
    else Str.◌∷◌ "%" (
        Str.◌∷◌ (char_of_byte (hex_upper (b / 16)))
          (Str.◌∷◌ (char_of_byte (hex_upper (b % 16))) rest))

unfoldable pub percent_encode : String → String
percent_encode raw = percent_encode_bytes (as_bytes raw)

-- The encoder of packages/rust/shared-firestore, which has the same body.
unfoldable pub percent_encode_path : String → String
percent_encode_path raw = percent_encode_bytes (as_bytes raw)

unfoldable pub hex_digit : ℕ → Option ℕ
hex_digit byte =
    if leb b'0' byte && leb byte b'9'
    then some (byte - b'0')
    else if leb b'a' byte && leb byte b'f'
    then some (byte - b'a' + 10)
    else if leb b'A' byte && leb byte b'F'
    then some (byte - b'A' + 10)
    else none

abbrev pub push_byte : ℕ → Option (List ℕ) → Option (List ℕ)
push_byte b none = none
push_byte b (some s) = some (b ∷ s)

-- `(high << 4) | low` in front of what is decoded behind it.
abbrev pub push_pair : Option ℕ → Option ℕ → Option (List ℕ) → Option (List ℕ)
push_pair (some high) (some low) later = push_byte (high * 16 + low) later
push_pair none low later = none
push_pair (some high) none later = none

abbrev pub plain_byte : ℕ → ℕ
plain_byte b = if b == b'+' then b' ' else b

unfoldable pub percent_decode_bytes : List ℕ → Option (List ℕ)
percent_decode_bytes [] = some []
percent_decode_bytes (b ∷ []) = if b == b'%' then none else push_byte (plain_byte b) (some [])
percent_decode_bytes (b ∷ c ∷ []) =
    let later = percent_decode_bytes (c ∷ []) in
    if b == b'%' then none else push_byte (plain_byte b) later
percent_decode_bytes (b ∷ c ∷ d ∷ s) =
    let later = percent_decode_bytes (c ∷ d ∷ s) in
    let behind = percent_decode_bytes s in
    if b == b'%'
    then push_pair (hex_digit c) (hex_digit d) behind
    else push_byte (plain_byte b) later

abbrev pub utf8_or_none : Option (List ℕ) → Option String
utf8_or_none none = none
utf8_or_none (some out) = from_utf8 out

unfoldable pub percent_decode : String → Option String
percent_decode raw = utf8_or_none (percent_decode_bytes (as_bytes raw))
