-- ===== src/Go/Decimal.antt =====
-- fmt.Sprintf("%d", n) for a number that is not negative, and the number that a text of decimal
-- digits denotes.
use Prim.Native.Char.{Char, code}
use huma.Base.{
  ℕ, zero, suc, ◌+◌, ◌-◌, ◌*◌, ◌/◌, ◌%◌, ◌≤◌, ◌<◌, String, ◌≡◌, refl, ◌∙◌, ap, arith, ltb,
  if◌then◌else◌, Bool-cases, inl, inr,
}

digit_char : ℕ → Char
digit_char zero = "0"
digit_char (suc zero) = "1"
digit_char (suc (suc zero)) = "2"
digit_char (suc (suc (suc zero))) = "3"
digit_char (suc (suc (suc (suc zero)))) = "4"
digit_char (suc (suc (suc (suc (suc zero))))) = "5"
digit_char (suc (suc (suc (suc (suc (suc zero)))))) = "6"
digit_char (suc (suc (suc (suc (suc (suc (suc zero))))))) = "7"
digit_char (suc (suc (suc (suc (suc (suc (suc (suc zero)))))))) = "8"
digit_char _ = "9"

-- The digits from the last one on, in front of what is printed already. A number has at most as
-- many digits as its value says, so `n` rounds are enough for `n`.
print_digits : ℕ → ℕ → String → String
print_digits zero n rest = String.◌∷◌ (digit_char (n % 10)) rest
print_digits (suc fuel) n rest =
    let shown = String.◌∷◌ (digit_char (n % 10)) rest in
    let more = print_digits fuel (n / 10) shown in if ltb n 10 then shown else more

pub decimal : ℕ → String
unfolding print_digits digit_char
decimal n = print_digits n n ""

-- The value of a text of digits, behind digits that were worth `v`.
abbrev pub value_from : ℕ → String → ℕ
value_from v String.[] = v
value_from v (String.◌∷◌ c s) = value_from (10 * v + (code c - b'0')) s

code_digit : (d : ℕ) → d < 10 → code (digit_char d) - b'0' ≡ d
unfolding digit_char
code_digit zero h = refl
code_digit (suc zero) h = refl
code_digit (suc (suc zero)) h = refl
code_digit (suc (suc (suc zero))) h = refl
code_digit (suc (suc (suc (suc zero)))) h = refl
code_digit (suc (suc (suc (suc (suc zero))))) h = refl
code_digit (suc (suc (suc (suc (suc (suc zero)))))) h = refl
code_digit (suc (suc (suc (suc (suc (suc (suc zero))))))) h = refl
code_digit (suc (suc (suc (suc (suc (suc (suc (suc zero)))))))) h = refl
code_digit (suc (suc (suc (suc (suc (suc (suc (suc (suc zero))))))))) h = refl
code_digit (suc (suc (suc (suc (suc (suc (suc (suc (suc (suc n)))))))))) h = absurd (omega arith)

code_last : (n : ℕ) → code (digit_char (n % 10)) - b'0' ≡ n % 10
code_last n = code_digit (n % 10) (omega arith)

print_digits_value :
    (fuel n : ℕ) (rest : String)
    → n ≤ fuel
    → value_from 0 (print_digits fuel n rest) ≡ value_from n rest
unfolding print_digits
print_digits_value zero n rest h = ap (λ (v : ℕ). value_from v rest) (omega (arith, code_last n))
print_digits_value (suc fuel) n rest h = elim (Bool-cases (ltb n 10)) [
  | inl small ↦ rw small (ap (λ (v : ℕ). value_from v rest) (ground (arith, code_last n)))
  | inr large ↦ rw large (
      print_digits_value fuel (n / 10) _ (ground arith)
      ∙ ap (λ (v : ℕ). value_from v rest) (omega (arith, code_last n)))
]

-- What is printed denotes the number.
pub value-decimal : (n : ℕ) → value_from 0 (decimal n) ≡ n
unfolding decimal
value-decimal n = print_digits_value n n "" (omega arith)

pub decimal_zero : decimal 0 ≡ "0"
unfolding decimal
decimal_zero = refl
