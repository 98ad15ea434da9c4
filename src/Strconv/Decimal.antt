-- ===== src/Strconv/Decimal.antt =====
-- The text of a number: digits, one at least.
use blogengine.Prelude.{
  ℕ, suc, ◌+◌, ◌/◌, ◌%◌, ◌≡◌, refl, inl, inr, Bool, true, false, [], ◌∷◌, all, ltb, arith,
  Bool-cases,
}
use blogengine.Prelude.Text.{Text}
use blogengine.Strconv.{is_digit, itoa_from, itoa}

-- digits, one at least
abbrev pub is_number : Text → Bool
is_number [] = false
is_number (c ∷ s) = all is_digit (c ∷ s)

digit_of : (n : ℕ) → is_digit (48 + n % 10) ≡ true
digit_of n = ground arith

itoa_from-number :
    (fuel n : ℕ) (acc : Text)
    → all is_digit acc ≡ true
    → is_number (itoa_from (suc fuel) n acc) ≡ true
unfolding itoa_from
itoa_from-number ℕ.zero n acc h = elim (Bool-cases (ltb n 10)) [
  | inl e ↦ rw e (ground (arith, e, h))
  | inr e ↦ rw e (ground (arith, digit_of n, h))
]
itoa_from-number (suc fuel) n acc h = elim (Bool-cases (ltb n 10)) [
  | inl e ↦ rw e (ground (arith, e, h))
  | inr e ↦
      rw e (itoa_from-number fuel (n / 10) ((48 + n % 10) ∷ acc) (ground (arith, digit_of n, h)))
]

pub itoa-number : (n : ℕ) → is_number (itoa n) ≡ true
unfolding itoa
itoa-number n = itoa_from-number n n [] refl
