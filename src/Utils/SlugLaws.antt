-- ===== src/Utils/SlugLaws.antt =====
-- utils/slug.go: what Slugify makes of a title is a slug that the store accepts.
use blogengine.Prelude.{
  ℕ, ◌≡◌, refl, ◌⊎◌, inl, inr, Bool, true, false, not, ◌&&◌, ◌||◌, [], ◌∷◌, arith, ◌==◌, Bool-cases,
  All,
}
use blogengine.Prelude.Text.{Text, lower_byte}
use blogengine.Sqlite.Validate.{is_slug_char, slug_run, valid_slug}
use blogengine.Utils.Slug.{
  to_lower, replace_invalid, trim_left_hyphens, trim_right_hyphens, slugify,
}

-- The slug automaton without its test at the end: a hyphen may come last.
unfoldable loose : Bool → Text → Bool
loose need [] = true
loose need (c ∷ s) = (is_slug_char c || (c == 45 && not need)) && loose (not (is_slug_char c)) s

loose-replace_invalid : (inside : Bool) (s : Text) → loose inside (replace_invalid inside s) ≡ true
unfolding loose replace_invalid
loose-replace_invalid inside [] = refl
loose-replace_invalid true (c ∷ s) = elim (Bool-cases (is_slug_char c)) [
  | inl e ↦ ground (arith, e, loose-replace_invalid false s)
  | inr e ↦ ground (arith, e, loose-replace_invalid true s)
]
loose-replace_invalid false (c ∷ s) = elim (Bool-cases (is_slug_char c)) [
  | inl e ↦ ground (arith, e, loose-replace_invalid false s)
  | inr e ↦ ground (arith, e, loose-replace_invalid true s)
]

loose-trim_left_hyphens :
    (need : Bool) (s : Text) → loose need s ≡ true → loose true (trim_left_hyphens s) ≡ true
unfolding loose trim_left_hyphens
loose-trim_left_hyphens need [] h = refl
loose-trim_left_hyphens need (c ∷ s) h = elim (Bool-cases (c == 45)) [
  | inl e ↦ ground (arith, e, loose-trim_left_hyphens true s)
  | inr e ↦ ground (arith, e)
]

run-trim_right_hyphens :
    (need : Bool) (s : Text)
    → loose need s ≡ true
    → (trim_right_hyphens s ≡ []) ⊎ (slug_run need (trim_right_hyphens s) ≡ true)
unfolding loose trim_right_hyphens slug_run
run-trim_right_hyphens need [] h = inl refl
run-trim_right_hyphens need (c ∷ s) h = elim (Bool-cases (is_slug_char c)) [
  | inl e ↦ ground (arith, e, run-trim_right_hyphens false s)
  | inr e ↦ ground (arith, e, run-trim_right_hyphens true s)
]

-- Slugify returns nothing or a text that the store's slug test accepts, for every title.
pub slugify_is_slug : (title : Text) → (slugify title ≡ []) ⊎ (valid_slug (slugify title) ≡ true)
unfolding slugify valid_slug
slugify_is_slug title =
    let replaced = replace_invalid false (to_lower title) in
    run-trim_right_hyphens true (trim_left_hyphens replaced)
      (loose-trim_left_hyphens false replaced (loose-replace_invalid false (to_lower title)))

-- A text of lower-case letters, digits and hyphens.
abbrev IsPlain : Text → Type 0
IsPlain = All (λ c. (is_slug_char c || c == 45) ≡ true)

run-IsPlain : (need : Bool) (s : Text) → slug_run need s ≡ true → IsPlain s
unfolding slug_run
run-IsPlain need [] h = tt
run-IsPlain need (c ∷ s) h = (ground arith, run-IsPlain (not (is_slug_char c)) s (ground arith))

lower_plain : (c : ℕ) → (is_slug_char c || c == 45) ≡ true → lower_byte c ≡ c
unfolding lower_byte
lower_plain c h = ground arith

to_lower_plain : (s : Text) → IsPlain s → to_lower s ≡ s
unfolding to_lower
to_lower_plain [] h = refl
to_lower_plain (a ∷ []) (p, h) = ground (arith, lower_plain a p)
to_lower_plain (a ∷ b ∷ []) (p, (q, h)) = ground (arith, lower_plain a p, lower_plain b q)
to_lower_plain (a ∷ b ∷ c ∷ s) (p, h) =
    ground (arith, lower_plain a p, to_lower_plain (b ∷ c ∷ s) h)

replace_invalid_slug :
    (inside : Bool) (s : Text) → slug_run inside s ≡ true → replace_invalid inside s ≡ s
unfolding slug_run replace_invalid
replace_invalid_slug inside [] h = refl
replace_invalid_slug inside (c ∷ s) h = elim (Bool-cases (is_slug_char c)) [
  | inl e ↦ ground (arith, e, replace_invalid_slug false s)
  | inr e ↦ ground (arith, e, replace_invalid_slug true s)
]

trim_left_slug : (s : Text) → slug_run true s ≡ true → trim_left_hyphens s ≡ s
unfolding slug_run trim_left_hyphens
trim_left_slug [] h = refl
trim_left_slug (c ∷ s) h = ground arith

trim_right_slug : (need : Bool) (s : Text) → slug_run need s ≡ true → trim_right_hyphens s ≡ s
unfolding slug_run trim_right_hyphens
trim_right_slug need [] h = refl
trim_right_slug need (c ∷ []) h = ground arith
trim_right_slug need (c ∷ d ∷ s) h = elim (Bool-cases (is_slug_char c)) [
  | inl e ↦ ground (arith, e, trim_right_slug false (d ∷ s))
  | inr e ↦ ground (arith, e, trim_right_slug true (d ∷ s))
]

run_loosen : (s : Text) → slug_run true s ≡ true → slug_run false s ≡ true
unfolding slug_run
run_loosen [] h = refl
run_loosen (c ∷ s) h = ground arith

-- A slug that the store accepts is its own slug, so Slugify changes nothing when it is applied again.
pub slugify_fixes : (s : Text) → valid_slug s ≡ true → slugify s ≡ s
unfolding slugify valid_slug
slugify_fixes s h =
    rw
      (
        to_lower_plain s (run-IsPlain true s h),
        replace_invalid_slug false s (run_loosen s h),
        trim_left_slug s h,
        trim_right_slug true s h,
      )
      refl
