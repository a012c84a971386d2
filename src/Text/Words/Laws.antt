-- ===== src/Text/Words/Laws.antt =====
-- The words of a text, and what splitting and joining do to them.
use Prim.Native.String.{String, [], ◌∷◌, ◌++◌}
use mathlib.Core.List.{[], ◌∷◌}
use text.Mathlib.TextLemmas.{nil-append, cons-append, append-nil}
use vocastock.Prelude.{◌≡◌, refl, sym, ap, ◌∙◌, false, List, All, Bool-cases, inl, inr}
use vocastock.Text.Chars.{is_whitespace}
use vocastock.Text.Words.{keep_word, scan_words, split_whitespace, join_spaces}

-- No character of the text is a blank.
abbrev pub NoBlank : String → Type 0
NoBlank [] = Unit
NoBlank (c ∷ s) = (is_whitespace c ≡ false) × NoBlank s

abbrev pub IsWord : String → Type 0
IsWord [] = ⊥
IsWord (c ∷ s) = (is_whitespace c ≡ false) × NoBlank s

keep_word-IsWord :
    (w : String) (ws : List String) → NoBlank w → All IsWord ws → All IsWord (keep_word w ws)
keep_word-IsWord [] ws h k = k
keep_word-IsWord (c ∷ s) ws h k = (h, k)

scan_words-IsWord : (s : String) → NoBlank (scan_words s).0 × All IsWord (scan_words s).1
unfolding scan_words
scan_words-IsWord [] = (tt, tt)
scan_words-IsWord (c ∷ s) =
    let (word, words) = scan_words-IsWord s in
    elim (Bool-cases (is_whitespace c)) [
      | inl blank ↦ rw blank (tt, keep_word-IsWord (scan_words s).0 (scan_words s).1 word words)
      | inr solid ↦ rw solid ((solid, word), words)
    ]

-- The parts of a text between its blanks are words.
pub split_whitespace-IsWord : (s : String) → All IsWord (split_whitespace s)
unfolding split_whitespace
split_whitespace-IsWord s =
    let (word, words) = scan_words-IsWord s in
    keep_word-IsWord (scan_words s).0 (scan_words s).1 word words

scan_words-append :
    (w t : String) → NoBlank w → scan_words (w ++ t) ≡ (w ++ (scan_words t).0, (scan_words t).1)
unfolding scan_words
scan_words-append [] t h = simp nil-append
scan_words-append (c ∷ w) t (solid, h) = simp cons-append (rw solid (rw (scan_words-append w t h)))

scan_words-blank :
    (t : String) → scan_words (" " ++ t) ≡ ("", keep_word (scan_words t).0 (scan_words t).1)
unfolding scan_words is_whitespace
scan_words-blank t = rw (cons-append " " [] t, nil-append t)

keep_word_lem : (w : String) (ws : List String) → IsWord w → keep_word w ws ≡ w ∷ ws
keep_word_lem [] ws h = elim h [ ]
keep_word_lem (c ∷ s) ws h = refl

IsWord-NoBlank : (w : String) → IsWord w → NoBlank w
IsWord-NoBlank [] h = elim h [ ]
IsWord-NoBlank (c ∷ s) h = h

scan_words-join :
    (w : String) (ws : List String)
    → NoBlank w
    → All IsWord ws
    → scan_words (join_spaces (w ∷ ws)) ≡ (w, ws)
unfolding join_spaces
scan_words-join w [] h k =
    ap scan_words (sym (append-nil w))
    ∙ scan_words-append w [] h
    ∙ unfold scan_words in rw (append-nil w)
scan_words-join w (v ∷ vs) h (kv, k) =
    scan_words-append w (" " ++ join_spaces (v ∷ vs)) h
    ∙ simp (
      scan_words-blank,
      scan_words-join v vs (IsWord-NoBlank v kv) k,
      append-nil,
      keep_word_lem v vs kv,
    )

-- Splitting the join of words gives the words back.
pub split_whitespace-join_spaces :
    (ws : List String) → All IsWord ws → split_whitespace (join_spaces ws) ≡ ws
unfolding split_whitespace
split_whitespace-join_spaces [] h = unfold scan_words join_spaces in refl
split_whitespace-join_spaces (w ∷ ws) (kw, k) =
    rw (scan_words-join w ws (IsWord-NoBlank w kw) k) (keep_word_lem w ws kw)
