-- ===== src/Text/Utf8/Laws.antt =====
-- A text is read back from its bytes.
use text.Mathlib.TextEquality.{Char-path}
use native.Mathlib.Omega.{compare-lt}
use Prim.Native.Nat.{compare, Ordering}
use Prim.Native.Char.{char}
use Prim.Native.String.{String, [], ◌∷◌}
use mathlib.Core.List.{[], ◌∷◌}
use vocastock.Prelude.{
  ℕ, zero, suc, ◌+◌, ◌-◌, ◌*◌, ◌/◌, ◌%◌, ◌≡◌, ◌<◌, ◌≤◌, refl, true, ◌&&◌, Char, code, List, ◌++◌,
  Option, none, some, ltb, leb, arith, if_cases, ap, ◌∙◌, All, All-append,
}
use vocastock.Text.Utf8.{
  Scalar, utf8_char, as_bytes, is_scalar, from_code, Pending, between, inside, go_into, finish,
  finished, step, push, from_utf8_at, from_utf8,
}

from_code-code : (c : Char) → from_code (code c) ≡ some c
unfolding from_code
from_code-code (char n p) =
    elim (is_scalar n)
      as (λ d. (elim d [ yes h ↦ some (char n h) | no _ ↦ none ]) ≡ some (char n p)) [
        | yes h ↦ ap (λ (c : Char). some c) (Char-path (char n h) (char n p) refl)
        | no k ↦ absurd (k p)
      ]

scalar_bound :
    (n : ℕ) (o p q : Ordering)
    → compare n 55296 ≡ o
    → compare n 1114112 ≡ q
    → Scalar o p q
    → n < 1114112
scalar_bound n Ordering.lt p q e f h = omega (arith, compare-lt n 55296 e)
scalar_bound n Ordering.eq Ordering.lt Ordering.lt e f h = compare-lt n 1114112 f
scalar_bound n Ordering.eq Ordering.lt Ordering.eq e f h = absurd h
scalar_bound n Ordering.eq Ordering.lt Ordering.gt e f h = absurd h
scalar_bound n Ordering.eq Ordering.eq q e f h = absurd h
scalar_bound n Ordering.eq Ordering.gt q e f h = absurd h
scalar_bound n Ordering.gt Ordering.lt Ordering.lt e f h = compare-lt n 1114112 f
scalar_bound n Ordering.gt Ordering.lt Ordering.eq e f h = absurd h
scalar_bound n Ordering.gt Ordering.lt Ordering.gt e f h = absurd h
scalar_bound n Ordering.gt Ordering.eq q e f h = absurd h
scalar_bound n Ordering.gt Ordering.gt q e f h = absurd h

code_bound : (c : Char) → code c < 1114112
code_bound (char n p) =
    scalar_bound n (compare n 55296) (compare 57343 n) (compare n 1114112) refl refl p

finished-code : (least : ℕ) (c : Char) → least ≤ code c → finished least (code c) ≡ finish c
unfolding finished
finished-code least c m =
    let e : leb least (code c) ≡ true = ground (arith, m) in rw (e, from_code-code c)

go_on :
    (p q : Pending) (b : ℕ) (s : List ℕ)
    → step p b ≡ go_into q
    → from_utf8_at p (b ∷ s) ≡ from_utf8_at q s
unfolding from_utf8_at
go_on between q b s e = rw (e, from_utf8_at)
go_on (inside l n m) q b s e = rw (e, from_utf8_at)

ends :
    (p : Pending) (c : Char) (b : ℕ) (s : List ℕ)
    → step p b ≡ finish c
    → from_utf8_at p (b ∷ s) ≡ push c (from_utf8_at between s)
unfolding from_utf8_at
ends between c b s e = rw (e, from_utf8_at)
ends (inside l n m) c b s e = rw (e, from_utf8_at)

-- A byte inside a character.
inside-step :
    (left bits least k : ℕ)
    → k < 64
    → step (inside (suc left) bits least) (0x80 + k) ≡ go_into (inside left (bits * 64 + k) least)
unfolding step
inside-step left bits least k m =
    let same : 0x80 + k - 0x80 ≡ k = omega arith in
    let low : (leb 0x80 (0x80 + k) && ltb (0x80 + k) 0xc0) ≡ true = ground (arith, m) in
    rw (low, same)

last_step :
    (bits least k : ℕ) (c : Char)
    → k < 64
    → least ≤ code c
    → bits * 64 + k ≡ code c
    → step (inside zero bits least) (0x80 + k) ≡ finish c
unfolding step
last_step bits least k c m l e =
    let same : 0x80 + k - 0x80 ≡ k = omega arith in
    let low : (leb 0x80 (0x80 + k) && ltb (0x80 + k) 0xc0) ≡ true = ground (arith, m) in
    rw (low, same, e) (finished-code least c l)

first_two : (k : ℕ) → k < 32 → step between (0xc0 + k) ≡ go_into (inside 0 k 0x80)
unfolding step
first_two k m = let same : 0xc0 + k - 0xc0 ≡ k = omega arith in ground (arith, m, same)

first_three : (k : ℕ) → k < 16 → step between (0xe0 + k) ≡ go_into (inside 1 k 0x800)
unfolding step
first_three k m = let same : 0xe0 + k - 0xe0 ≡ k = omega arith in ground (arith, m, same)

first_four : (k : ℕ) → k < 8 → step between (0xf0 + k) ≡ go_into (inside 2 k 0x10000)
unfolding step
first_four k m = let same : 0xf0 + k - 0xf0 ≡ k = omega arith in ground (arith, m, same)

first_one : (c : Char) → code c < 0x80 → step between (code c) ≡ finish c
unfolding step
first_one c m =
    let e : ltb (code c) 0x80 ≡ true = ground (arith, m) in rw e (finished-code 0 c (omega arith))

pub from_utf8_at-utf8_char :
    (c : Char) (s : List ℕ)
    → from_utf8_at between (utf8_char c ++ s) ≡ push c (from_utf8_at between s)
unfolding utf8_char
from_utf8_at-utf8_char c s =
    let n = code c in
    let bound = code_bound c in
    let goal =
      λ (bytes : List ℕ). from_utf8_at between (bytes ++ s) ≡ push c (from_utf8_at between s) in
    if_cases goal (ltb n 0x80) (λ one. ends between c n s (first_one c (ground (arith, one))))
      (λ more.
        if_cases goal (ltb n 0x800)
          (λ two.
            go_on between (inside 0 (n / 64) 0x80) _ _ (first_two (n / 64) (ground (arith, two)))
            ∙ ends _ c _ s (
                last_step (n / 64) 0x80 (n % 64) c (omega arith) (ground (arith, more))
                  (omega arith)))
          (λ more.
            if_cases goal (ltb n 0x10000)
              (λ three.
                go_on between (inside 1 (n / 4096) 0x800) _ _
                  (first_three (n / 4096) (ground (arith, three)))
                ∙ go_on (inside 1 (n / 4096) 0x800) (inside 0 (n / 4096 * 64 + (n / 64) % 64) 0x800)
                    _ _ (inside-step 0 (n / 4096) 0x800 ((n / 64) % 64) (omega arith))
                ∙ ends _ c _ s (
                    last_step (n / 4096 * 64 + (n / 64) % 64) 0x800 (n % 64) c (omega arith)
                      (ground (arith, more)) (omega arith)))
              (λ more.
                go_on between (inside 2 (n / 262144) 0x10000) _ _
                  (first_four (n / 262144) (omega (arith, bound)))
                ∙ go_on (inside 2 (n / 262144) 0x10000)
                    (inside 1 (n / 262144 * 64 + (n / 4096) % 64) 0x10000) _ _
                    (inside-step 1 (n / 262144) 0x10000 ((n / 4096) % 64) (omega arith))
                ∙ go_on (inside 1 (n / 262144 * 64 + (n / 4096) % 64) 0x10000)
                    (inside 0 ((n / 262144 * 64 + (n / 4096) % 64) * 64 + (n / 64) % 64) 0x10000) _
                    _
                    (inside-step 0 (n / 262144 * 64 + (n / 4096) % 64) 0x10000 ((n / 64) % 64)
                      (omega arith))
                ∙ ends _ c _ s (
                    last_step ((n / 262144 * 64 + (n / 4096) % 64) * 64 + (n / 64) % 64) 0x10000
                      (n % 64) c (omega arith) (ground (arith, more)) (omega arith)))))

utf8_char-bytes : (c : Char) → All (λ b. b < 256) (utf8_char c)
unfolding utf8_char
utf8_char-bytes c =
    let n = code c in
    let bound = code_bound c in
    let goal = λ (bytes : List ℕ). All (λ b. b < 256) bytes in
    if_cases goal (ltb n 0x80) (λ e. (ground (arith, e), tt))
      (λ _.
        if_cases goal (ltb n 0x800) (λ e. (ground (arith, e), (omega arith, tt)))
          (λ _.
            if_cases goal (ltb n 0x10000)
              (λ e. (ground (arith, e), (omega arith, (omega arith, tt))))
              (λ _. (omega (arith, bound), (omega arith, (omega arith, (omega arith, tt)))))))

push-some : (c : Char) (s : String) (o : Option String) → o ≡ some s → push c o ≡ some (c ∷ s)
push-some c s o e = rw e

-- A text is read back from its bytes.
pub from_utf8-as_bytes : (s : String) → from_utf8 (as_bytes s) ≡ some s
unfolding from_utf8 as_bytes from_utf8_at
from_utf8-as_bytes [] = refl
from_utf8-as_bytes (c ∷ s) =
    from_utf8_at-utf8_char c (as_bytes s)
    ∙ push-some c s (from_utf8 (as_bytes s)) (from_utf8-as_bytes s)

-- Every byte of a text is below 256.
pub as_bytes-bytes : (s : String) → All (λ b. b < 256) (as_bytes s)
unfolding as_bytes utf8_char
as_bytes-bytes [] = tt
as_bytes-bytes (c ∷ s) =
    All-append (λ b. b < 256) (utf8_char c) (as_bytes s) (utf8_char-bytes c) (as_bytes-bytes s)
