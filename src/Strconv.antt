-- ===== src/Strconv.antt =====
-- Go's strconv, as the handlers and the configuration use it.
pub mod Decimal
use blogengine.Prelude.{
  ℕ, suc, ◌+◌, ◌*◌, ◌-◌, ◌/◌, ◌%◌, ◌^◌, Bool, true, false, ◌&&◌, List, [], ◌∷◌, Option, none, some,
  all, any, ltb, leb, ◌==◌, if◌then◌else◌,
}
use blogengine.Prelude.Int.{ℤ, pos, negsuc}
use blogengine.Prelude.Text.{Text, codes, text_eq}

abbrev is_digit : ℕ → Bool
is_digit c = leb 48 c && leb c 57

-- the number that decimal digits write
unfoldable pub digits_value : ℕ → Text → ℕ
digits_value n [] = n
digits_value n (c ∷ s) = digits_value (n * 10 + (c - 48)) s

abbrev pub digits : Text → Option ℕ
digits [] = none
digits (c ∷ s) = if all is_digit (c ∷ s) then some (digits_value 0 (c ∷ s)) else none

-- -n
abbrev pub minus : ℕ → ℤ
minus n = elim n [ ℕ.zero ↦ pos 0 | suc m ↦ negsuc m ]

abbrev non_negative : Option ℕ → Option ℤ
non_negative none = none
non_negative (some n) = if ltb n (2 ^ 63) then some (pos n) else none

abbrev non_positive : Option ℕ → Option ℤ
non_positive none = none
non_positive (some n) = if leb n (2 ^ 63) then some (minus n) else none

-- strconv.ParseInt(s, 10, 64): none for its errors, of syntax or of range
unfoldable pub parse_int : Text → Option ℤ
unfolding digits_value
parse_int [] = none
parse_int (c ∷ s) =
    if c == 45
    then non_positive (digits s)
    else if c == 43
    then non_negative (digits s)
    else non_negative (digits (c ∷ s))

abbrev is_one_of : List Text → Text → Bool
is_one_of texts s = any (text_eq s) texts

-- strconv.ParseBool
unfoldable pub parse_bool : Text → Option Bool
parse_bool s =
    if is_one_of
      (codes "1" ∷ codes "t" ∷ codes "T" ∷ codes "TRUE" ∷ codes "true" ∷ codes "True" ∷ []) s
    then some true
    else if is_one_of
        (codes "0" ∷ codes "f" ∷ codes "F" ∷ codes "FALSE" ∷ codes "false" ∷ codes "False" ∷ []) s
    then some false
    else none

-- the decimal digits of n before those of acc; fuel n + 1 is enough, since each round divides by 10
unfoldable pub itoa_from : ℕ → ℕ → Text → Text
itoa_from ℕ.zero n acc = acc
itoa_from (suc fuel) n acc =
    let rest = itoa_from fuel (n / 10) ((48 + n % 10) ∷ acc) in
    if ltb n 10 then (48 + n) ∷ acc else rest

-- strconv.Itoa and %d, of a number that is not negative
unfoldable pub itoa : ℕ → Text
unfolding itoa_from
itoa n = itoa_from (suc n) n []
