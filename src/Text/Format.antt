-- ===== src/Text/Format.antt =====
-- `format!` of texts, `str::replace` of a character, `str::contains` and `chars().any(…)`.
use Prim.Native.String.{String, [], ◌∷◌, ◌++◌}
use text.Mathlib.Text.{find?}
use vocastock.Prelude.{
  ℕ, Char, code, Bool, true, false, ◌||◌, List, none, some, ◌==◌, if◌then◌else◌,
}
use mathlib.Core.List.{[], ◌∷◌}

unfoldable pub concat : List String → String
concat [] = ""
concat (s ∷ []) = s
concat (s ∷ t ∷ ss) = s ++ concat (t ∷ ss)

unfoldable pub replace_char : ℕ → Char → String → String
replace_char old new [] = []
replace_char old new (c ∷ s) = (if code c == old then new else c) ∷ replace_char old new s

unfoldable pub contains : String → String → Bool
contains s t = elim (find? s t) [ none ↦ false | some i ↦ true ]

unfoldable pub any_char : (Char → Bool) → String → Bool
any_char p [] = false
any_char p (c ∷ s) = p c || any_char p s
