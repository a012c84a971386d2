-- ===== src/Text/Number.antt =====
-- `str::parse` at `u16`, `usize` and `i64`: an optional sign, then at least one digit, in bounds.
use Prim.Native.String.{String, [], ◌∷◌}
use vocastock.Prelude.{
  ℕ, zero, suc, ◌+◌, ◌-◌, ◌*◌, ℤ, pos, negsuc, code, ◌&&◌, Option, none, some, ltb, leb, ◌==◌,
  if◌then◌else◌,
}

-- The number that the digits behind `n` continue.
unfoldable pub digits_from : ℕ → String → Option ℕ
digits_from n [] = some n
digits_from n (c ∷ s) =
    let later = digits_from (n * 10 + (code c - b'0')) s in
    if leb b'0' (code c) && leb (code c) b'9' then later else none

abbrev some_digits : String → Option ℕ
some_digits [] = none
some_digits (c ∷ s) = digits_from 0 (c ∷ s)

abbrev below : ℕ → Option ℕ → Option ℕ
below limit none = none
below limit (some n) = if ltb n limit then some n else none

abbrev unsigned : String → Option ℕ
unsigned [] = none
unsigned (c ∷ s) = if code c == b'+' then some_digits s else some_digits (c ∷ s)

unfoldable pub parse_u16 : String → Option ℕ
unfolding digits_from
parse_u16 s = below 65536 (unsigned s)

unfoldable pub parse_usize : String → Option ℕ
unfolding digits_from
parse_usize s = below 18446744073709551616 (unsigned s)

abbrev negative : Option ℕ → Option ℤ
negative none = none
negative (some zero) = some (pos 0)
negative (some (suc n)) = some (negsuc n)

abbrev positive : Option ℕ → Option ℤ
positive none = none
positive (some n) = some (pos n)

unfoldable pub parse_i64 : String → Option ℤ
unfolding digits_from
parse_i64 [] = none
parse_i64 (c ∷ s) =
    if code c == b'-'
    then negative (below 9223372036854775809 (some_digits s))
    else positive (below 9223372036854775808 (unsigned (c ∷ s)))
