-- ===== src/CommandApi/Contract/Laws.antt =====
-- What the identifier of a vocabulary expression tells of its text.
use Prim.Native.String.{[], ◌∷◌}
use vocastock.Prelude.{String, ◌≡◌, refl, arith}
use vocastock.Text.{replace_char}
use vocastock.CommandApi.Contract.{vocabulary_expression_for}

replace_char-hyphenated :
    (s : String) → replace_char b' ' "-" (replace_char b' ' "-" s) ≡ replace_char b' ' "-" s
unfolding replace_char
replace_char-hyphenated [] = refl
replace_char-hyphenated (c ∷ s) = ground (arith, replace_char-hyphenated s)

-- A text and the text with hyphens for its blanks have the same identifier, although the store
-- registers them apart.
pub vocabulary_expression_for-hyphenated :
    (s : String) → vocabulary_expression_for (replace_char b' ' "-" s) ≡ vocabulary_expression_for s
unfolding vocabulary_expression_for
vocabulary_expression_for-hyphenated s = rw (replace_char-hyphenated s)
