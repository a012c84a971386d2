-- ===== src/Percent/Laws.antt =====
-- What the decoder makes of an encoded text, and which characters an encoded text has.
use Prim.Native.String as Str
use vocastock.Prelude.{
  ℕ, ◌+◌, ◌*◌, ◌/◌, ◌%◌, ◌<◌, ◌≡◌, refl, ◌∙◌, ap, String, Char, code, Bool, true, false, ◌&&◌, ◌||◌,
  some, List, [], ◌∷◌, All, ltb, leb, ◌==◌, if_cases, arith,
}
use vocastock.Text.{as_bytes, char_of_byte, code-char_of_byte}
use vocastock.Text.Utf8.{utf8_char}
use vocastock.Text.Utf8.Laws.{from_utf8-as_bytes, as_bytes-bytes}
use vocastock.Percent.{
  is_unreserved, hex_upper, percent_encode_bytes, percent_encode, hex_digit, push_byte, plain_byte,
  percent_decode_bytes, percent_decode,
}

hex_upper_bound : (n : ℕ) → n < 16 → hex_upper n < 128
unfolding hex_upper
hex_upper_bound n m = ground (arith, m)

hex_digit-hex_upper : (n : ℕ) → n < 16 → hex_digit (hex_upper n) ≡ some n
unfolding hex_digit hex_upper
hex_digit-hex_upper n m = ground (arith, m)

unreserved_bound : (b : ℕ) → is_unreserved b ≡ true → b < 128
unfolding is_unreserved
unreserved_bound b e = ground (arith, e)

unreserved_plain : (b : ℕ) → is_unreserved b ≡ true → ((b == b'%') ≡ false) × (plain_byte b ≡ b)
unfolding is_unreserved
unreserved_plain b e = (ground (arith, e), ground (arith, e))

-- The bytes of a text whose first character stands for a byte below 128.
as_bytes-ascii :
    (b : ℕ) (s : String) → b < 128 → as_bytes (Str.◌∷◌ (char_of_byte b) s) ≡ b ∷ as_bytes s
unfolding as_bytes utf8_char
as_bytes-ascii b s m =
    let same = code-char_of_byte b (omega (arith, m)) in
    let low : ltb b 128 ≡ true = ground (arith, m) in rw (same, low)

-- A byte that stands for itself.
decode-plain :
    (b : ℕ) (s : List ℕ)
    → (b == b'%') ≡ false
    → percent_decode_bytes (b ∷ s) ≡ push_byte (plain_byte b) (percent_decode_bytes s)
unfolding percent_decode_bytes
decode-plain b [] e = rw e
decode-plain b (c ∷ []) e = rw e
decode-plain b (c ∷ d ∷ s) e = rw e

-- A byte that is written by its two digits.
decode-escaped :
    (b : ℕ) (s : String)
    → b < 256
    → percent_decode_bytes (
        as_bytes (
          Str.◌∷◌ "%" (
            Str.◌∷◌
              (char_of_byte (hex_upper (b / 16)))
              (Str.◌∷◌ (char_of_byte (hex_upper (b % 16))) s))))
      ≡ push_byte b (percent_decode_bytes (as_bytes s))
unfolding percent_decode_bytes as_bytes utf8_char
decode-escaped b s m =
    let high : b / 16 < 16 = omega (arith, m) in
    let low : b % 16 < 16 = omega arith in
    let whole : b / 16 * 16 + b % 16 ≡ b = omega arith in
    let rest = Str.◌∷◌ (char_of_byte (hex_upper (b % 16))) s in
    rw (
      as_bytes-ascii (hex_upper (b / 16)) rest (hex_upper_bound (b / 16) high),
      as_bytes-ascii (hex_upper (b % 16)) s (hex_upper_bound (b % 16) low),
      hex_digit-hex_upper (b / 16) high,
      hex_digit-hex_upper (b % 16) low,
      whole,
    )

decode-encode :
    (s : List ℕ)
    → All (λ b. b < 256) s
    → percent_decode_bytes (as_bytes (percent_encode_bytes s)) ≡ some s
unfolding percent_encode_bytes percent_decode_bytes as_bytes
decode-encode [] h = refl
decode-encode (b ∷ s) (m, h) =
    let later = decode-encode s h in
    let rest = percent_encode_bytes s in
    if_cases (λ t. percent_decode_bytes (as_bytes t) ≡ some (b ∷ s)) (is_unreserved b)
      (λ e.
        let (behind, plain) = unreserved_plain b e in
        rw (
          as_bytes-ascii b rest (unreserved_bound b e),
          decode-plain b (as_bytes rest) behind,
          later,
          plain,
        ))
      (λ _. decode-escaped b rest m ∙ ap (push_byte b) later)

-- Whatever the text, the decoder of query-api reads it back from what the encoder of the gateway
-- has written.
pub percent_decode-percent_encode : (s : String) → percent_decode (percent_encode s) ≡ some s
unfolding percent_decode percent_encode
percent_decode-percent_encode s =
    rw (decode-encode (as_bytes s) (as_bytes-bytes s)) (from_utf8-as_bytes s)

-- The unreserved code points of RFC 3986, and the percent sign.
abbrev pub url_safe : ℕ → Bool
url_safe n =
    (leb 65 n && leb n 90)
    || (leb 97 n && leb n 122)
    || (leb 48 n && leb n 57)
    || n == 45
    || n == 46
    || n == 95
    || n == 126
    || n == 37

-- The characters that an encoded text may have.
abbrev pub IsUrlSafe : Char → Type 0
IsUrlSafe c = url_safe (code c) ≡ true

abbrev pub AllChars : (Char → Type 0) → String → Type 0
AllChars P Str.[] = Unit
AllChars P (Str.◌∷◌ c s) = P c × AllChars P s

unreserved_safe : (b : ℕ) → is_unreserved b ≡ true → url_safe b ≡ true
unfolding is_unreserved
unreserved_safe b e = ground (arith, e)

hex_upper_safe : (n : ℕ) → n < 16 → IsUrlSafe (char_of_byte (hex_upper n))
unfolding is_unreserved hex_upper
hex_upper_safe n m =
    let same = code-char_of_byte (hex_upper n) (omega (arith, hex_upper_bound n m)) in
    rw same (ground (arith, m))

percent_safe : IsUrlSafe "%"
unfolding is_unreserved
percent_safe = refl

percent_encode_bytes-AllChars :
    (s : List ℕ) → All (λ b. b < 256) s → AllChars IsUrlSafe (percent_encode_bytes s)
unfolding percent_encode_bytes
percent_encode_bytes-AllChars [] h = tt
percent_encode_bytes-AllChars (b ∷ s) (m, h) =
    let later = percent_encode_bytes-AllChars s h in
    if_cases (AllChars IsUrlSafe) (is_unreserved b)
      (λ e.
        let same = code-char_of_byte b m in let safe = unreserved_safe b e in (rw same safe, later))
      (λ _. (
        percent_safe,
        (
          hex_upper_safe (b / 16) (omega (arith, m)),
          (hex_upper_safe (b % 16) (omega arith), later),
        ),
      ))

-- Whatever the text, what is written has only the unreserved characters of RFC 3986, which are the
-- ASCII letters and digits, the hyphen, the full stop, the low line and the tilde, and percent signs.
pub percent_encode-AllChars : (s : String) → AllChars IsUrlSafe (percent_encode s)
unfolding percent_encode
percent_encode-AllChars s = percent_encode_bytes-AllChars (as_bytes s) (as_bytes-bytes s)
