-- ===== src/Text/Chars.antt =====
-- `char::is_whitespace`, `char::is_control` and the ASCII case functions, by code point.
use Prim.Native.String.{String, [], ◌∷◌}
use native.Mathlib.Decide.{dec_lt, dec_le}
use Prim.Native.Nat.{compare, Ordering}
use Prim.Native.Char.{char, IsScalar, nul}
use vocastock.Prelude.{
  ℕ, ◌<◌, ◌≡◌, refl, arith, ◌+◌, Char, code, Bool, true, false, ◌&&◌, ◌||◌, leb, ◌==◌,
  if◌then◌else◌,
}

abbrev within : ℕ → ℕ → ℕ → Bool
within low high n = leb low n && leb n high

-- The White_Space property of Unicode.
unfoldable pub is_whitespace : Char → Bool
is_whitespace c =
    within 9 13 (code c)
    || code c == 32
    || code c == 0x85
    || code c == 0xa0
    || code c == 0x1680
    || within 0x2000 0x200a (code c)
    || within 0x2028 0x2029 (code c)
    || code c == 0x202f
    || code c == 0x205f
    || code c == 0x3000

-- The general category Cc of Unicode.
unfoldable pub is_control : Char → Bool
is_control c = leb (code c) 0x1f || within 0x7f 0x9f (code c)

unfoldable pub to_ascii_lower : ℕ → ℕ
to_ascii_lower n = if within b'A' b'Z' n then n + 32 else n

unfoldable pub eq_ignore_ascii_case : String → String → Bool
unfolding to_ascii_lower
eq_ignore_ascii_case [] [] = true
eq_ignore_ascii_case (c ∷ s) (d ∷ t) =
    to_ascii_lower (code c) == to_ascii_lower (code d) && eq_ignore_ascii_case s t
eq_ignore_ascii_case _ _ = false

pub low_scalar : (n : ℕ) → n < 256 → IsScalar n
low_scalar n m = let e : compare n 55296 ≡ Ordering.lt = ground (arith, m) in rw e tt

-- `byte as char`; a byte is below 256.
unfoldable pub char_of_byte : ℕ → Char
unfolding dec_lt dec_le
char_of_byte n = elim (dec_lt n 256) [ yes m ↦ char n (low_scalar n m) | no _ ↦ nul ]

pub code-char_of_byte : (n : ℕ) → n < 256 → code (char_of_byte n) ≡ n
unfolding char_of_byte
code-char_of_byte n m =
    elim (dec_lt n 256)
      as (λ d. code (elim d [ yes h ↦ char n (low_scalar n h) | no _ ↦ nul ]) ≡ n) [
        | yes h ↦ refl
        | no k ↦ absurd (k m)
      ]
