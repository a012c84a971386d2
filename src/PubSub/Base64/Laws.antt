-- ===== src/PubSub/Base64/Laws.antt =====
-- What base64 text stands for by RFC 4648, and what is encoded by it.
use Prim.Native.String.{String, [], ◌∷◌}
use mathlib.Core.List.{[], ◌∷◌}
use vocastock.Prelude.{
  ℕ, zero, suc, ◌+◌, ◌-◌, ◌*◌, ◌/◌, ◌%◌, ◌<◌, ◌≡◌, refl, Bool, true, false, not, ◌&&◌, Char, code,
  List, All, Bool-cases, inl, inr, leb, ◌==◌, ==_iff, arith, if◌then◌else◌,
}
use vocastock.PubSub.Base64.{alphabet, char_at, combined, encode_base64}

-- The value that RFC 4648 gives a character of its alphabet, by ranges of code points; 64 stands
-- for a character that is not of the alphabet.
unfoldable pub sextet_of : Char → ℕ
sextet_of c =
    if leb 65 (code c) && leb (code c) 90
    then code c - 65
    else if leb 97 (code c) && leb (code c) 122
    then code c - 97 + 26
    else if leb 48 (code c) && leb (code c) 57
    then code c - 48 + 52
    else if code c == 43
    then 62
    else if code c == 47
    then 63
    else 64

unfoldable pub is_padding : Char → Bool
is_padding c = code c == b'='

-- The bytes of four sextets; a padded sextet stands for no byte.
abbrev pub group : ℕ → ℕ → ℕ → ℕ → Bool → Bool → List ℕ → List ℕ
group i j k l true last later = (i * 4 + j / 16) ∷ []
group i j k l false true later = (i * 4 + j / 16) ∷ ((j % 16) * 16 + k / 4) ∷ []
group i j k l false false later =
    (i * 4 + j / 16) ∷ ((j % 16) * 16 + k / 4) ∷ ((k % 4) * 64 + l) ∷ later

unfoldable pub decode_base64 : String → List ℕ
decode_base64 (a ∷ (b ∷ (c ∷ (d ∷ s)))) =
    group (sextet_of a) (sextet_of b) (sextet_of c) (sextet_of d) (is_padding c) (is_padding d)
      (decode_base64 s)
decode_base64 _ = []

holds_below : (ℕ → Bool) → ℕ → Bool
holds_below p zero = true
holds_below p (suc n) = p n && holds_below p n

padding : is_padding "=" ≡ true
unfolding is_padding
padding = refl

and_true : (a b : Bool) → (a && b) ≡ true → (a ≡ true) × (b ≡ true)
and_true a b h = ground arith

not-true : (a : Bool) → not a ≡ true → a ≡ false
not-true a h = ground arith

holds_below-lt : (p : ℕ → Bool) (n k : ℕ) → holds_below p n ≡ true → k < n → p k ≡ true
unfolding holds_below
holds_below-lt p zero k h l = absurd (omega (arith, l))
holds_below-lt p (suc n) k h l =
    let (here, below) = and_true (p n) (holds_below p n) h in
    elim (Bool-cases (k == n)) [
      | inl e ↦ rw ((==_iff k n).0 e) here
      | inr e ↦ holds_below-lt p n k below (ground (arith, l, e))
    ]

sextet : ℕ → Bool
sextet k = sextet_of (char_at alphabet k) == k && not (is_padding (char_at alphabet k))

sextets : holds_below sextet 64 ≡ true
unfolding holds_below sextet sextet_of char_at is_padding
sextets = refl

sextet_of-char_at : (k : ℕ) → k < 64 → sextet_of (char_at alphabet k) ≡ k
unfolding sextet
sextet_of-char_at k l =
    (==_iff _ _).0
      (and_true _ (not (is_padding (char_at alphabet k))) (holds_below-lt sextet 64 k sextets l)).0

char_at-is_padding : (k : ℕ) → k < 64 → is_padding (char_at alphabet k) ≡ false
unfolding sextet
char_at-is_padding k l =
    not-true _
      (and_true (sextet_of (char_at alphabet k) == k) _ (holds_below-lt sextet 64 k sextets l)).1

first_byte :
    (a b c : ℕ)
    → a < 256
    → b < 256
    → c < 256
    → ((combined a b c / 262144) % 64) * 4 + ((combined a b c / 4096) % 64) / 16 ≡ a
unfolding combined
first_byte a b c ha hb hc = omega arith

second_byte :
    (a b c : ℕ)
    → a < 256
    → b < 256
    → c < 256
    → (((combined a b c / 4096) % 64) % 16) * 16 + ((combined a b c / 64) % 64) / 4 ≡ b
unfolding combined
second_byte a b c ha hb hc = omega arith

third_byte :
    (a b c : ℕ)
    → a < 256
    → b < 256
    → c < 256
    → (((combined a b c / 64) % 64) % 4) * 64 + combined a b c % 64 ≡ c
unfolding combined
third_byte a b c ha hb hc = omega arith

below_64 : (n : ℕ) → n % 64 < 64
below_64 n = omega arith

sextet_of-sextet : (n : ℕ) → sextet_of (char_at alphabet (n % 64)) ≡ n % 64
sextet_of-sextet n = sextet_of-char_at (n % 64) (below_64 n)

sextet-is_padding : (n : ℕ) → is_padding (char_at alphabet (n % 64)) ≡ false
sextet-is_padding n = char_at-is_padding (n % 64) (below_64 n)

-- For every sequence of bytes, what `encode_base64` writes is read back as these bytes by a decoder
-- that takes the values of the characters from RFC 4648.
pub decode_base64-encode_base64 :
    (bytes : List ℕ) → All (λ b. b < 256) bytes → decode_base64 (encode_base64 bytes) ≡ bytes
unfolding decode_base64 encode_base64
decode_base64-encode_base64 (a ∷ b ∷ c ∷ rest) (ha, (hb, (hc, hs))) =
    let n = combined a b c in
    rw (
      sextet_of-sextet (n / 262144),
      sextet_of-sextet (n / 4096),
      sextet_of-sextet (n / 64),
      sextet_of-sextet n,
      sextet-is_padding (n / 64),
      sextet-is_padding n,
      first_byte a b c ha hb hc,
      second_byte a b c ha hb hc,
      third_byte a b c ha hb hc,
      decode_base64-encode_base64 rest hs,
    )
decode_base64-encode_base64 (a ∷ b ∷ []) (ha, (hb, _)) =
    let n = combined a b 0 in
    rw (
      sextet_of-sextet (n / 262144),
      sextet_of-sextet (n / 4096),
      sextet_of-sextet (n / 64),
      sextet-is_padding (n / 64),
      padding,
      first_byte a b 0 ha hb (omega arith),
      second_byte a b 0 ha hb (omega arith),
    )
decode_base64-encode_base64 (a ∷ []) (ha, _) =
    let n = combined a 0 0 in
    rw (
      sextet_of-sextet (n / 262144),
      sextet_of-sextet (n / 4096),
      padding,
      first_byte a 0 0 ha (omega arith) (omega arith),
    )
decode_base64-encode_base64 [] h = refl
