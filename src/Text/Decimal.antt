-- ===== src/Text/Decimal.antt =====
-- The decimal digits of a number, as `format!` writes a `usize`.
pub mod Laws
use Prim.Native.String.{String, [], ◌∷◌}
use vocastock.Prelude.{ℕ, zero, suc, ◌/◌, ◌%◌, Char, ltb, if◌then◌else◌}

digit : ℕ → Char
digit zero = "0"
digit (suc zero) = "1"
digit (suc (suc zero)) = "2"
digit (suc (suc (suc zero))) = "3"
digit (suc (suc (suc (suc zero)))) = "4"
digit (suc (suc (suc (suc (suc zero))))) = "5"
digit (suc (suc (suc (suc (suc (suc zero)))))) = "6"
digit (suc (suc (suc (suc (suc (suc (suc zero))))))) = "7"
digit (suc (suc (suc (suc (suc (suc (suc (suc zero)))))))) = "8"
digit _ = "9"

-- The digits of `n` in front of `rest`; the fuel is more than `n` has digits.
digits : ℕ → ℕ → String → String
digits zero n rest = rest
digits (suc fuel) n rest =
    let done = digit n ∷ rest in
    let more = digits fuel (n / 10) (digit (n % 10) ∷ rest) in if ltb n 10 then done else more

unfoldable pub decimal : ℕ → String
unfolding digit digits
decimal n = digits (suc n) n []
