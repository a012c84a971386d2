-- ===== src/Text/Append.antt =====
-- Cancellation laws of `++` on texts, and texts without a character.
use Prim.Native.Char.{len_utf8, len_utf8_def}
use Prim.Native.String.{String, [], ◌∷◌, ◌++◌, len}
use Prim.Native.String.len
use text.Mathlib.TextLemmas.{nil-append, cons-append}
use vocastock.Prelude.{
  ℕ, ◌<◌, ◌≡◌, ◌≢◌, refl, Char, code, Bool, true, false, arith, ◌==◌, if◌then◌else◌,
}

-- Every character takes a byte.
len_utf8_pos : (c : Char) → 0 < len_utf8 c
len_utf8_pos c = ground (arith, len_utf8_def c)

-- `s` has no character with the code point `n`.
abbrev pub Lacks : ℕ → String → Type 0
Lacks n [] = Unit
Lacks n (c ∷ s) = (code c ≢ n) × Lacks n s

pub Lacks-append : (n : ℕ) (s t : String) → Lacks n s → Lacks n t → Lacks n (s ++ t)
Lacks-append n [] t h k = rw (nil-append t) k
Lacks-append n (c ∷ s) t (other, h) k = rw (cons-append c s t) (other, Lacks-append n s t h k)

-- The test for a character, which computes at a literal.
unfoldable pub lacks : ℕ → String → Bool
lacks n [] = true
lacks n (c ∷ s) = let later = lacks n s in if code c == n then false else later

pub lacks-Lacks : (n : ℕ) (s : String) → lacks n s ≡ true → Lacks n s
unfolding lacks
lacks-Lacks n [] e = tt
lacks-Lacks n (c ∷ s) e = (ground (arith, e), lacks-Lacks n s (ground (arith, e)))

pub split_at_first :
    (d : Char) (s t u v : String)
    → Lacks (code d) s
    → Lacks (code d) t
    → s ++ d ∷ u ≡ t ++ d ∷ v
    → (s ≡ t) × (u ≡ v)
split_at_first d [] [] u v hs ht e = let e' : d ∷ u ≡ d ∷ v = simp nil-append at e in (refl, cc)
split_at_first d [] (b ∷ t) u v hs ht e =
    let e' : d ∷ u ≡ b ∷ (t ++ d ∷ v) = simp (nil-append, cons-append) at e in absurd (ht.0 (cc e'))
split_at_first d (a ∷ s) [] u v hs ht e =
    let e' : a ∷ (s ++ d ∷ u) ≡ d ∷ v = simp (nil-append, cons-append) at e in absurd (hs.0 (cc e'))
split_at_first d (a ∷ s) (b ∷ t) u v hs ht e =
    let e' : a ∷ (s ++ d ∷ u) ≡ b ∷ (t ++ d ∷ v) = simp cons-append at e in
    let (same, rest) = split_at_first d s t u v hs.1 ht.1 (cc e') in (cc (e', same), rest)

-- Texts of as many bytes that begin the same text are the same.
pub split_at_len : (s t u v : String) → len s ≡ len t → s ++ u ≡ t ++ v → (s ≡ t) × (u ≡ v)
split_at_len [] [] u v h e = let e' : u ≡ v = simp nil-append at e in (refl, e')
split_at_len [] (b ∷ t) u v h e = absurd (omega (arith, len.cons b t, len_utf8_pos b, h))
split_at_len (a ∷ s) [] u v h e = absurd (omega (arith, len.cons a s, len_utf8_pos a, h))
split_at_len (a ∷ s) (b ∷ t) u v h e =
    let e' : a ∷ (s ++ u) ≡ b ∷ (t ++ v) = simp cons-append at e in
    let same : len_utf8 a ≡ len_utf8 b = cc e' in
    let (front, back) =
      split_at_len s t u v (omega (arith, len.cons a s, len.cons b t, same, h)) (cc e') in
    (cc (e', front), back)

-- The last character of `s`, or `c` where it is empty.
unfoldable pub last_or : Char → String → Char
last_or c [] = c
last_or c (d ∷ s) = last_or d s

pub last_or-append :
    (c : Char) (s : String) (d : Char) (t : String) → last_or c (s ++ d ∷ t) ≡ last_or d t
unfolding last_or
last_or-append c [] d t = rw (nil-append (d ∷ t))
last_or-append c (a ∷ s) d t = rw (cons-append a s (d ∷ t)) (last_or-append a s d t)
