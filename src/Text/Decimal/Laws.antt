-- ===== src/Text/Decimal/Laws.antt =====
-- The decimal digits of a number and what they tell of it.
use Prim.Native.String.{String, [], ◌∷◌}
use vocastock.Prelude.{
  ℕ, zero, suc, ◌+◌, ◌-◌, ◌*◌, ◌/◌, ◌%◌, ◌≤◌, ◌<◌, ◌≡◌, refl, sym, ap, ◌∙◌, code, arith, ltb,
  ltb→lt, Bool-cases, inl, inr,
}
use vocastock.Text.Append.{Lacks}
use vocastock.Text.Decimal.{digit, digits, decimal}

code-digit : (n : ℕ) → n < 10 → code (digit n) ≡ 48 + n
unfolding digit
code-digit zero h = refl
code-digit (suc zero) h = refl
code-digit (suc (suc zero)) h = refl
code-digit (suc (suc (suc zero))) h = refl
code-digit (suc (suc (suc (suc zero)))) h = refl
code-digit (suc (suc (suc (suc (suc zero))))) h = refl
code-digit (suc (suc (suc (suc (suc (suc zero)))))) h = refl
code-digit (suc (suc (suc (suc (suc (suc (suc zero))))))) h = refl
code-digit (suc (suc (suc (suc (suc (suc (suc (suc zero)))))))) h = refl
code-digit (suc (suc (suc (suc (suc (suc (suc (suc (suc zero))))))))) h = refl
code-digit (suc (suc (suc (suc (suc (suc (suc (suc (suc (suc n)))))))))) h = absurd (omega arith)

digit-le : (n : ℕ) → code (digit n) ≤ 57
unfolding digit
digit-le zero = omega arith
digit-le (suc zero) = omega arith
digit-le (suc (suc zero)) = omega arith
digit-le (suc (suc (suc zero))) = omega arith
digit-le (suc (suc (suc (suc zero)))) = omega arith
digit-le (suc (suc (suc (suc (suc zero))))) = omega arith
digit-le (suc (suc (suc (suc (suc (suc zero)))))) = omega arith
digit-le (suc (suc (suc (suc (suc (suc (suc zero))))))) = omega arith
digit-le (suc (suc (suc (suc (suc (suc (suc (suc zero)))))))) = omega arith
digit-le (suc (suc (suc (suc (suc (suc (suc (suc (suc zero))))))))) = omega arith
digit-le (suc (suc (suc (suc (suc (suc (suc (suc (suc (suc n)))))))))) = omega arith

-- The number that a text of digits stands for, read after the digits of `acc`.
value_from : ℕ → String → ℕ
value_from acc [] = acc
value_from acc (c ∷ s) = value_from (acc * 10 + (code c - 48)) s

value_from-digits :
    (fuel n : ℕ) (rest : String) → n < fuel → value_from 0 (digits fuel n rest) ≡ value_from n rest
unfolding digits value_from
value_from-digits zero n rest h = elim h [ ]
value_from-digits (suc fuel) n rest h = elim (Bool-cases (ltb n 10)) [
  | inl small ↦
      rw small (ap (λ m. value_from m rest) (omega (arith, code-digit n (ltb→lt n 10 small))))
  | inr large ↦ rw large (
      value_from-digits fuel (n / 10) (digit (n % 10) ∷ rest) (ground arith)
      ∙ ap (λ m. value_from m rest) (omega (arith, code-digit (n % 10) (omega arith))))
]

-- Different numbers have different digits.
pub decimal_injective : (m n : ℕ) → decimal m ≡ decimal n → m ≡ n
unfolding decimal value_from
decimal_injective m n e =
    sym (value_from-digits (suc m) m [] (omega arith))
    ∙ ap (value_from 0) e
    ∙ value_from-digits (suc n) n [] (omega arith)

digits-Lacks : (d fuel n : ℕ) (rest : String) → 57 < d → Lacks d rest → Lacks d (digits fuel n rest)
unfolding digits
digits-Lacks d zero n rest h k = k
digits-Lacks d (suc fuel) n rest h k = elim (Bool-cases (ltb n 10)) [
  | inl small ↦ rw small (omega (arith, digit-le n), k)
  | inr large ↦
      rw large (
        digits-Lacks d fuel (n / 10) (digit (n % 10) ∷ rest) h
          (omega (arith, digit-le (n % 10)), k))
]

-- No character behind "9" stands among the digits.
pub decimal-Lacks : (d n : ℕ) → 57 < d → Lacks d (decimal n)
unfolding decimal
decimal-Lacks d n h = digits-Lacks d (suc n) n [] h tt
