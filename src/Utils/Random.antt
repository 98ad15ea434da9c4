-- ===== src/Utils/Random.antt =====
-- utils/random.go: public ids from random bytes, without modulo bias. The random source is the list
-- of what the reads of `rand.Reader` return; `none` is a source with no more reads to come.
use blogengine.Prelude.{
  ℕ, zero, suc, ◌-◌, ◌%◌, true, false, List, [], ◌∷◌, ◌++◌, Option, none, some, length, ltb, ◌==◌,
  if◌then◌else◌,
}
use blogengine.Prelude.Text.{Text, codes}
use blogengine.Errors.{Sentinel, Result, ok, err}

abbrev pub charset : Text
charset = codes "abcdefghijklmnopqrstuvwxyzABCDEFGHIJKLMNOPQRSTUVWXYZ0123456789"

abbrev pub charset_len : ℕ
charset_len = 62

abbrev pub max_unbiased : ℕ
max_unbiased = 255 - 256 % 62

-- s[i]; the default stands for a panic, which an index below the length rules out
unfoldable pub byte_at : Text → ℕ → ℕ
byte_at [] i = 0
byte_at (c ∷ s) zero = c
byte_at (c ∷ s) (suc i) = byte_at s i

-- charset[randByte % charsetLen]
unfoldable pub pick : ℕ → ℕ
unfolding byte_at
pick b = byte_at charset (b % charset_len)

-- One read of the random source. The buffer has room for the length and a tenth of it, and a Read of
-- `rand.Reader` fills it; nothing here depends on how many bytes a read gives.
pub data Read : Type 0 where
  bytes : List ℕ → Read
  read_error : Sentinel → Read

-- the loop over one buffer
unfoldable pub fill : ℕ → Text → List ℕ → Text
unfolding pick
fill n result [] = result
fill n result (b ∷ buffer) = elim (ltb max_unbiased b) [
  | true ↦ fill n result buffer
  | false ↦ elim (length (result ++ pick b ∷ []) == n) [
    | true ↦ result ++ pick b ∷ []
    | false ↦ fill n (result ++ pick b ∷ []) buffer
  ]
]

unfoldable pub generate_from : ℕ → Text → List Read → Option (Result Text)
unfolding fill
generate_from n result [] = if ltb (length result) n then none else some (ok result)
generate_from n result (read_error e ∷ source) =
    if ltb (length result) n then some (err (e ∷ [])) else some (ok result)
generate_from n result (bytes buffer ∷ source) = elim (ltb (length result) n) [
  | true ↦ generate_from n (fill n result buffer) source
  | false ↦ some (ok result)
]

-- GeneratePublicID
unfoldable pub generate_public_id : ℕ → List Read → Option (Result Text)
unfolding generate_from
generate_public_id n source = generate_from n [] source
