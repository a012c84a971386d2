-- ===== src/Text/Trim.antt =====
-- `str::trim`, `str::is_empty` and `str::split_once` at a character.
use Prim.Native.String.{String, [], ◌∷◌}
use vocastock.Prelude.{
  ℕ, Char, code, Bool, true, false, ◌&&◌, Option, none, some, ◌==◌, if◌then◌else◌,
}
use vocastock.Text.Chars.{is_whitespace}

unfoldable pub is_empty : String → Bool
is_empty [] = true
is_empty (c ∷ s) = false

trim_start : String → String
trim_start [] = []
trim_start (c ∷ s) = let rest = trim_start s in if is_whitespace c then rest else c ∷ s

drop_blank : Char → String → String
drop_blank c rest = if is_empty rest && is_whitespace c then [] else c ∷ rest

trim_end : String → String
unfolding drop_blank is_empty
trim_end [] = []
trim_end (c ∷ s) = drop_blank c (trim_end s)

unfoldable pub trim : String → String
unfolding trim_start trim_end is_whitespace
trim s = trim_end (trim_start s)

abbrev prefix_with : Char → Option (String × String) → Option (String × String)
prefix_with c none = none
prefix_with c (some (a, b)) = some (c ∷ a, b)

-- The parts before and behind the first character with the code point `separator`.
unfoldable pub split_once : ℕ → String → Option (String × String)
split_once separator [] = none
split_once separator (c ∷ s) =
    let later = prefix_with c (split_once separator s) in
    if code c == separator then some ([], s) else later
