-- ===== src/Utils/RandomLaws.antt =====
-- utils/random.go: length, alphabet, termination and bias of the public ids.
use blogengine.Prelude.{
  ℕ, zero, suc, ◌+◌, ◌%◌, ◌≤◌, ◌<◌, ◌≡◌, refl, inl, inr, Bool, true, not, ◌&&◌, ◌||◌, List, [], ◌∷◌,
  ◌++◌, Option, some, length, length-append, All, All-append, all-eq-true, all, ==_iff, min, arith,
  ltb, leb, ◌==◌, Bool-cases, if◌then◌else◌,
}
use blogengine.Prelude.Text.{Text}
use blogengine.Errors.{Result, ok}
use blogengine.Utils.Random.{
  charset, charset_len, max_unbiased, byte_at, pick, Read, bytes, read_error, fill, generate_from,
  generate_public_id,
}

-- a letter or a digit
abbrev pub is_alnum : ℕ → Bool
is_alnum c = (leb 97 c && leb c 122) || (leb 65 c && leb c 90) || (leb 48 c && leb c 57)

abbrev pub IsAlnum : Text → Type 0
IsAlnum = All (λ c. is_alnum c ≡ true)

byte_at-All : (P : ℕ → Type 0) (s : Text) (i : ℕ) → i < length s → All P s → P (byte_at s i)
unfolding byte_at
byte_at-All P [] i l h = absurd (omega arith)
byte_at-All P (c ∷ s) zero l (h, hs) = h
byte_at-All P (c ∷ s) (suc i) l (h, hs) = byte_at-All P s i (omega arith) hs

pick-IsAlnum : (b : ℕ) → is_alnum (pick b) ≡ true
unfolding pick
pick-IsAlnum b =
    byte_at-All (λ c. is_alnum c ≡ true) charset (b % 62) (omega arith)
      (all-eq-true is_alnum charset refl)

-- The bytes of the reads that the loop does not skip, up to an error.
abbrev accepted : List ℕ → ℕ
accepted [] = 0
accepted (b ∷ buffer) = let rest = accepted buffer in if ltb max_unbiased b then rest else suc rest

abbrev pub accepted_of : List Read → ℕ
accepted_of [] = 0
accepted_of (bytes buffer ∷ source) = accepted buffer + accepted_of source
accepted_of (read_error e ∷ source) = 0

-- a text of letters and digits that is not too long
abbrev IsPart : ℕ → Text → Type 0
IsPart n result = (length result ≤ n) × IsAlnum result

extend-IsPart :
    (n : ℕ) (result : Text) (b : ℕ)
    → length result < n
    → IsPart n result
    → IsPart n (result ++ pick b ∷ [])
extend-IsPart n result b l (_, h) = (
  omega (arith, length-append result (pick b ∷ [])),
  All-append (λ c. is_alnum c ≡ true) result (pick b ∷ []) h (pick-IsAlnum b, tt),
)

fill-IsPart :
    (n : ℕ) (result : Text) (buffer : List ℕ)
    → length result < n
    → IsPart n result
    → IsPart n (fill n result buffer)
unfolding fill
fill-IsPart n result [] l h = h
fill-IsPart n result (b ∷ buffer) l h = elim (Bool-cases (ltb max_unbiased b)) [
  | inl e ↦ rw (e, fill) (fill-IsPart n result buffer l h)
  | inr e ↦
      let longer = result ++ pick b ∷ [] in
      let part = extend-IsPart n result b l h in
      elim (Bool-cases (length longer == n)) [
        | inl q ↦ rw (e, q, fill) part
        | inr q ↦
            rw (e, q, fill)
              (fill-IsPart n longer buffer (ground (arith, length-append result (pick b ∷ [])))
                part)
      ]
]

-- A buffer brings the text as far as its accepted bytes go, and no further than the length.
length-fill :
    (n : ℕ) (result : Text) (buffer : List ℕ)
    → length result < n
    → min n (length result + accepted buffer) ≤ length (fill n result buffer)
unfolding fill
length-fill n result [] l = omega arith
length-fill n result (b ∷ buffer) l = elim (Bool-cases (ltb max_unbiased b)) [
  | inl e ↦ rw (e, fill) (length-fill n result buffer l)
  | inr e ↦
      let longer = result ++ pick b ∷ [] in
      let grown = length-append result (pick b ∷ []) in
      elim (Bool-cases (length longer == n)) [
        | inl q ↦ rw (e, q, fill) (ground (arith, q))
        | inr q ↦
            rw (e, q, fill)
              (omega (arith, grown, length-fill n longer buffer (ground (arith, grown))))
      ]
]

-- what is returned at the end
abbrev IsId : ℕ → Option (Result Text) → Type 0
IsId n r = (id : Text) × (r ≡ some (ok id)) × (length id ≡ n) × IsAlnum id

finished :
    (n : ℕ) (result : Text) (source : List Read)
    → n ≤ length result
    → IsPart n result
    → IsId n (generate_from n result source)
unfolding generate_from
finished n result [] l (m, h) = (result, ground arith, omega arith, h)
finished n result (bytes buffer ∷ source) l (m, h) = (result, ground arith, omega arith, h)
finished n result (read_error e ∷ source) l (m, h) = (result, ground arith, omega arith, h)

generate_from_lem :
    (n : ℕ) (result : Text) (source : List Read)
    → n ≤ length result + accepted_of source
    → IsPart n result
    → IsId n (generate_from n result source)
unfolding generate_from
generate_from_lem n result [] l h = finished n result [] (omega arith) h
generate_from_lem n result (read_error e ∷ source) l h =
    finished n result (read_error e ∷ source) (omega arith) h
generate_from_lem n result (bytes buffer ∷ source) l h = elim (Bool-cases (ltb (length result) n)) [
  | inr q ↦ finished n result (bytes buffer ∷ source) (ground arith) h
  | inl q ↦
      let below : length result < n = ground arith in
      rw (q, generate_from)
        (generate_from_lem n (fill n result buffer) source
          (omega (arith, length-fill n result buffer below)) (fill-IsPart n result buffer below h))
]

-- When the reads hold enough bytes that are not skipped before an error, GeneratePublicID ends with
-- a text of exactly the length that was asked for, of letters and digits alone.
pub generate_public_id_lem :
    (n : ℕ) (source : List Read)
    → n ≤ accepted_of source
    → (id : Text) × (generate_public_id n source ≡ some (ok id)) × (length id ≡ n) × IsAlnum id
unfolding generate_public_id
generate_public_id_lem n source l = generate_from_lem n [] source (omega arith) (omega arith, tt)

-- how many bytes below `n` the loop takes and makes the letter `c` of
unfoldable pub choices : ℕ → ℕ → ℕ
choices zero c = 0
choices (suc n) c =
    let rest = choices n c in if not (ltb max_unbiased n) && pick n == c then suc rest else rest

choices_of_charset : all (λ c. choices 256 c == 4) charset ≡ true
unfolding choices pick byte_at
choices_of_charset = refl

-- Of the 256 values of a byte exactly four give each letter and each digit: no character of an id is
-- likelier than another.
pub unbiased : (i : ℕ) → i < charset_len → choices 256 (byte_at charset i) ≡ 4
unbiased i l = (==_iff (choices 256 (byte_at charset i)) 4).0 (
    byte_at-All (λ c. (choices 256 c == 4) ≡ true) charset i l
      (all-eq-true (λ c. choices 256 c == 4) charset choices_of_charset))
