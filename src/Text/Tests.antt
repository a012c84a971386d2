-- ===== src/Text/Tests.antt =====
-- Runs of the text functions.
use vocastock.Prelude.{◌≡◌, refl, true, some, [], ◌∷◌}
use vocastock.Text.{
  trim, split_once, eq_ignore_ascii_case, split_whitespace, join_spaces, concat, replace_char,
  contains, decimal,
}

trim_test : trim "  a b " ≡ "a b"
unfolding trim
trim_test = refl

split_once_test : split_once 32 "Bearer x y" ≡ some ("Bearer", "x y")
unfolding split_once
split_once_test = refl

words_test : split_whitespace "  solid   state " ≡ "solid" ∷ "state" ∷ []
unfolding split_whitespace
words_test = refl

join_test : join_spaces ("a" ∷ "b" ∷ []) ≡ "a b"
unfolding join_spaces
join_test = refl

case_test : eq_ignore_ascii_case "BeaRER" "bearer" ≡ true
unfolding eq_ignore_ascii_case
case_test = refl

format_test : concat ("a" ∷ decimal 1024 ∷ ":" ∷ []) ≡ "a1024:"
unfolding concat decimal
format_test = refl

replace_test : replace_char 32 "-" "a b c" ≡ "a-b-c"
unfolding replace_char
replace_test = refl

contains_test : contains "key-dispatch-fail-1" "dispatch-fail" ≡ true
unfolding contains
contains_test = refl
