-- ===== src/Text/Split.antt =====
-- `str::split` at a character.
pub mod Laws
use Prim.Native.String.{String, [], ◌∷◌}
use mathlib.Core.List.{[], ◌∷◌}
use vocastock.Prelude.{ℕ, Char, code, List, ◌==◌, if◌then◌else◌}

abbrev pub onto_first : Char → List String → List String
onto_first c [] = (c ∷ []) ∷ []
onto_first c (part ∷ parts) = (c ∷ part) ∷ parts

unfoldable pub split_on : ℕ → String → List String
split_on separator [] = [] ∷ []
split_on separator (c ∷ s) =
    let parts = split_on separator s in
    if code c == separator then [] ∷ parts else onto_first c parts
