-- ===== src/Text/Words.antt =====
-- `str::split_whitespace`, and `join(" ")`.
pub mod Laws
use Prim.Native.String.{String, [], ◌∷◌}
use Prim.Native.String as Str
use mathlib.Core.List.{[], ◌∷◌}
use vocastock.Prelude.{List, if◌then◌else◌}
use vocastock.Text.Chars.{is_whitespace}

abbrev keep_word : String → List String → List String
keep_word [] ws = ws
keep_word (c ∷ s) ws = (c ∷ s) ∷ ws

-- The word that the text begins with, empty where it begins with a blank, and the later words.
unfoldable pub scan_words : String → String × List String
scan_words [] = ([], [])
scan_words (c ∷ s) =
    let (word, words) = scan_words s in
    if is_whitespace c then ([], keep_word word words) else (c ∷ word, words)

unfoldable pub split_whitespace : String → List String
unfolding scan_words is_whitespace
split_whitespace s = let (word, words) = scan_words s in keep_word word words

unfoldable pub join_spaces : List String → String
join_spaces [] = ""
join_spaces (w ∷ []) = w
join_spaces (w ∷ v ∷ ws) = Str.◌++◌ w (Str.◌++◌ " " (join_spaces (v ∷ ws)))
