-- ===== src/Utils/Slug.antt =====
-- utils/slug.go. `strings.ToLower` folds A to Z, and of the characters beyond ASCII it takes two to
-- ASCII letters: U+0130 (bytes c4 b0) to i, and U+212A (bytes e2 84 aa) to k. What it does to other
-- bytes cannot show in a slug, since the expression drops them all.
use blogengine.Prelude.{ℕ, Bool, true, false, not, ◌&&◌, [], ◌∷◌, ◌==◌, if◌then◌else◌}
use blogengine.Prelude.Text.{Text, lower_byte, is_empty}
use blogengine.Sqlite.Validate.{is_slug_char}

abbrev pub hyphen : ℕ
hyphen = 45

unfoldable pub to_lower : Text → Text
unfolding lower_byte
to_lower [] = []
to_lower (a ∷ []) = lower_byte a ∷ []
to_lower (a ∷ b ∷ []) =
    if a == 0xc4 && b == 0xb0 then b'i' ∷ [] else lower_byte a ∷ lower_byte b ∷ []
to_lower (a ∷ b ∷ c ∷ s) = elim (a == 0xc4 && b == 0xb0) [
  | true ↦ b'i' ∷ to_lower (c ∷ s)
  | false ↦ elim (a == 0xe2 && b == 0x84 && c == 0xaa) [
    | true ↦ b'k' ∷ to_lower s
    | false ↦ lower_byte a ∷ to_lower (b ∷ c ∷ s)
  ]
]

-- invalidChars.ReplaceAllString(s, "-"), for [^a-z0-9]+; `inside` says that the run has its hyphen
unfoldable pub replace_invalid : Bool → Text → Text
replace_invalid inside [] = []
replace_invalid inside (c ∷ s) =
    let rest = replace_invalid (not (is_slug_char c)) s in
    if is_slug_char c then c ∷ rest else if inside then rest else hyphen ∷ rest

-- strings.Trim(s, "-")
unfoldable pub trim_left_hyphens : Text → Text
trim_left_hyphens [] = []
trim_left_hyphens (c ∷ s) = let rest = trim_left_hyphens s in if c == hyphen then rest else c ∷ s

unfoldable pub trim_right_hyphens : Text → Text
trim_right_hyphens [] = []
trim_right_hyphens (c ∷ s) =
    let rest = trim_right_hyphens s in if c == hyphen && is_empty rest then [] else c ∷ rest

unfoldable pub slugify : Text → Text
unfolding to_lower replace_invalid trim_left_hyphens trim_right_hyphens
slugify title = trim_right_hyphens (trim_left_hyphens (replace_invalid false (to_lower title)))
