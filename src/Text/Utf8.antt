-- ===== src/Text/Utf8.antt =====
-- `str::as_bytes` and `String::from_utf8`. A byte is a number.
pub mod Laws
use Prim.Native.Nat.{compare, Ordering}
use Prim.Native.Char.{char, IsLt, IsScalar}
use Prim.Native.String.{String, [], ◌∷◌}
use mathlib.Core.List.{[], ◌∷◌}
use vocastock.Prelude.{
  ℕ, zero, suc, ◌+◌, ◌-◌, ◌*◌, ◌/◌, ◌%◌, Bool, ◌&&◌, Char, code, List, ◌++◌, Option, none, some,
  ltb, leb, if◌then◌else◌,
}

unfoldable pub utf8_char : Char → List ℕ
utf8_char c =
    let n = code c in
    if ltb n 0x80
    then n ∷ []
    else if ltb n 0x800
    then (0xc0 + n / 64) ∷ (0x80 + n % 64) ∷ []
    else if ltb n 0x10000
    then (0xe0 + n / 4096) ∷ (0x80 + (n / 64) % 64) ∷ (0x80 + n % 64) ∷ []
    else (0xf0 + n / 262144)
      ∷ (0x80 + (n / 4096) % 64)
      ∷ (0x80 + (n / 64) % 64)
      ∷ (0x80 + n % 64)
      ∷ []

unfoldable pub as_bytes : String → List ℕ
as_bytes [] = []
as_bytes (c ∷ s) = utf8_char c ++ as_bytes s

-- The character with a code point, where there is one.
abbrev is_lt : (o : Ordering) → Dec (IsLt o)
is_lt Ordering.lt = yes tt
is_lt Ordering.eq = no (λ h. h)
is_lt Ordering.gt = no (λ h. h)

abbrev Below : Ordering → Ordering → Type 0
Below Ordering.lt q = IsLt q
Below Ordering.eq q = ⊥
Below Ordering.gt q = ⊥

abbrev Scalar : Ordering → Ordering → Ordering → Type 0
Scalar Ordering.lt p q = Unit
Scalar Ordering.eq p q = Below p q
Scalar Ordering.gt p q = Below p q

abbrev decide_below : (p q : Ordering) → Dec (Below p q)
decide_below Ordering.lt q = is_lt q
decide_below Ordering.eq q = no (λ h. h)
decide_below Ordering.gt q = no (λ h. h)

abbrev decide_scalar : (o p q : Ordering) → Dec (Scalar o p q)
decide_scalar Ordering.lt p q = yes tt
decide_scalar Ordering.eq p q = decide_below p q
decide_scalar Ordering.gt p q = decide_below p q

unfoldable pub is_scalar : (n : ℕ) → Dec (IsScalar n)
is_scalar n = decide_scalar (compare n 55296) (compare 57343 n) (compare n 1114112)

unfoldable pub from_code : ℕ → Option Char
unfolding is_scalar
from_code n = elim (is_scalar n) [ yes h ↦ some (char n h) | no _ ↦ none ]

-- Between two characters, or inside one: how many bytes are still to come, the bits so far, and
-- the least code point that takes so many bytes.
pub data Pending : Type 0 where
  between : Pending
  inside : ℕ → ℕ → ℕ → Pending

-- What a byte does: it is refused, goes into a character, or ends one.
pub data Step : Type 0 where
  refuse : Step
  go_into : Pending → Step
  finish : Char → Step

unfoldable pub finished : ℕ → ℕ → Step
finished least n =
    if leb least n then elim (from_code n) [ some c ↦ finish c | none ↦ refuse ] else refuse

unfoldable pub step : Pending → ℕ → Step
step between b =
    if ltb b 0x80
    then finished 0 b
    else if ltb b 0xc0
    then refuse
    else if ltb b 0xe0
    then go_into (inside 0 (b - 0xc0) 0x80)
    else if ltb b 0xf0
    then go_into (inside 1 (b - 0xe0) 0x800)
    else if ltb b 0xf8
    then go_into (inside 2 (b - 0xf0) 0x10000)
    else refuse
step (inside zero bits least) b =
    if leb 0x80 b && ltb b 0xc0 then finished least (bits * 64 + (b - 0x80)) else refuse
step (inside (suc left) bits least) b =
    if leb 0x80 b && ltb b 0xc0
    then go_into (inside left (bits * 64 + (b - 0x80)) least)
    else refuse

abbrev pub push : Char → Option String → Option String
push c none = none
push c (some s) = some (c ∷ s)

unfoldable pub from_utf8_at : Pending → List ℕ → Option String
from_utf8_at between [] = some ""
from_utf8_at (inside left bits least) [] = none
from_utf8_at pending (b ∷ s) = elim (step pending b) [
  | refuse ↦ none
  | go_into later ↦ from_utf8_at later s
  | finish c ↦ push c (from_utf8_at between s)
]

unfoldable pub from_utf8 : List ℕ → Option String
from_utf8 s = from_utf8_at between s
