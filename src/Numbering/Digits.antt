-- ===== src/Numbering/Digits.antt =====
-- About the digits of a number.
use biz360_sme_erp_e_tims.Base.{
  ℕ, zero, suc, ◌+◌, ◌-◌, ◌/◌, ◌%◌, ◌<◌, true, ◌≡◌, refl, ◌∙◌, ap, [], ◌∷◌, ltb, length, All,
  Bool-cases, inl, inr, arith,
}
use biz360_sme_erp_e_tims.Numbering.{
  Text, print_digits, print, zeros, pad_start, parse_from, is_digit,
}

parse-print_digits :
    (fuel n : ℕ) (rest : Text)
    → n < fuel
    → parse_from 0 (print_digits fuel n rest) ≡ parse_from n rest
unfolding print_digits parse_from
parse-print_digits zero n rest h = absurd (omega (arith, h))
parse-print_digits (suc fuel) n rest h = elim (Bool-cases (ltb n 10)) [
  | inl small ↦ rw small (ap (λ (k : ℕ). parse_from k rest) (ground (arith, small)))
  | inr big ↦ rw big (
      parse-print_digits fuel (n / 10) ((48 + n % 10) ∷ rest) (ground (arith, big, h))
      ∙ ap (λ (k : ℕ). parse_from k rest) (omega arith))
]

parse-zeros : (k : ℕ) (t : Text) → parse_from 0 (zeros k t) ≡ parse_from 0 t
unfolding zeros parse_from
parse-zeros zero t = refl
parse-zeros (suc k) t = parse-zeros k t

-- The digits of a padded number are read back as the number.
pub parse-pad_start : (width n : ℕ) → parse_from 0 (pad_start width (print n)) ≡ n
unfolding pad_start print parse_from
parse-pad_start width n =
    parse-zeros (width - length (print n)) (print n) ∙ parse-print_digits (suc n) n [] (omega arith)

pub parse-print : (n : ℕ) → parse_from 0 (print n) ≡ n
unfolding print parse_from
parse-print n = parse-print_digits (suc n) n [] (omega arith)

-- Digits, of which no one is a brace.
abbrev pub AreDigits : Text → Type 0
AreDigits = All (λ (c : ℕ). is_digit c ≡ true)

print_digits-AreDigits :
    (fuel n : ℕ) (rest : Text) → AreDigits rest → AreDigits (print_digits fuel n rest)
unfolding print_digits
print_digits-AreDigits zero n rest h = h
print_digits-AreDigits (suc fuel) n rest h = elim (Bool-cases (ltb n 10)) [
  | inl small ↦ rw small (ground (arith, small), h)
  | inr big ↦ rw big (print_digits-AreDigits fuel (n / 10) ((48 + n % 10) ∷ rest) (ground arith, h))
]

pub print-AreDigits : (n : ℕ) → AreDigits (print n)
unfolding print
print-AreDigits n = print_digits-AreDigits (suc n) n [] tt
