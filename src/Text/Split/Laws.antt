-- ===== src/Text/Split/Laws.antt =====
-- Splitting a text that is joined by the separator.
use Prim.Native.String.{String, [], ◌∷◌, ◌++◌}
use mathlib.Core.List.{[], ◌∷◌}
use text.Mathlib.TextLemmas.{nil-append, cons-append}
use vocastock.Prelude.{ℕ, ◌≡◌, ◌≢◌, refl, Char, code, true, false, none, some, ◌==◌, arith}
use vocastock.Text.Append.{Lacks}
use vocastock.Text.Trim.{split_once}
use vocastock.Text.Split.{split_on}

other_code : (c : Char) (n : ℕ) → code c ≢ n → (code c == n) ≡ false
other_code c n h = ground (arith, h)

pub split_once-append :
    (d : Char) (s t : String) → Lacks (code d) s → split_once (code d) (s ++ d ∷ t) ≡ some (s, t)
unfolding split_once
split_once-append d [] t h =
    let same : (code d == code d) ≡ true = ground arith in rw (nil-append (d ∷ t), same)
split_once-append d (c ∷ s) t (other, h) =
    rw (cons-append c s (d ∷ t), other_code c (code d) other, split_once-append d s t h)

pub split_once-Lacks : (n : ℕ) (s : String) → Lacks n s → split_once n s ≡ none
unfolding split_once
split_once-Lacks n [] h = refl
split_once-Lacks n (c ∷ s) (other, h) = rw (other_code c n other, split_once-Lacks n s h)

pub split_on-Lacks : (n : ℕ) (s : String) → Lacks n s → split_on n s ≡ s ∷ []
unfolding split_on
split_on-Lacks n [] h = refl
split_on-Lacks n (c ∷ s) (other, h) = rw (other_code c n other, split_on-Lacks n s h)

pub split_on-append :
    (d : Char) (s t : String)
    → Lacks (code d) s
    → split_on (code d) (s ++ d ∷ t) ≡ s ∷ split_on (code d) t
unfolding split_on
split_on-append d [] t h =
    let same : (code d == code d) ≡ true = ground arith in rw (nil-append (d ∷ t), same)
split_on-append d (c ∷ s) t (other, h) =
    rw (cons-append c s (d ∷ t), other_code c (code d) other, split_on-append d s t h)
