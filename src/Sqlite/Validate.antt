-- ===== src/Sqlite/Validate.antt =====
-- The checks of storage/sqlite on what the store is given.
use blogengine.Prelude.{
  ℕ, Bool, true, false, not, ◌&&◌, ◌||◌, [], ◌∷◌, Option, none, some, length, ltb, leb, ◌==◌,
  is_some, if◌then◌else◌,
}
use blogengine.Prelude.Int.{ℤ, ltb_ℤ, leb_ℤ}
use blogengine.Prelude.Text.{Text, text_eq, is_empty}
use blogengine.Errors.{
  Check, content_empty, content_too_long, err_blog_slug, err_blog_title, err_blog_description,
  err_blog_visibility, err_blog_registration_mode, err_blog_registration_limit,
  err_registration_values_for_mode, err_post_slug, err_post_title, err_post_description,
  err_enc_pointless_iv, err_enc_missing_iv,
}
use blogengine.Storage.{
  Visibility, RegistrationMode, registration_limited, visibility_is_valid, registration_is_valid,
}

abbrev pub max_registration_queue : ℕ
max_registration_queue = 1000

abbrev pub min_slug_len : ℕ
min_slug_len = 5

abbrev pub max_slug_len : ℕ
max_slug_len = 100

abbrev pub min_title_len : ℕ
min_title_len = 5

abbrev pub max_title_len : ℕ
max_title_len = 100

abbrev pub max_description_len : ℕ
max_description_len = 500

-- [a-z0-9]
abbrev pub is_slug_char : ℕ → Bool
is_slug_char c = (leb 97 c && leb c 122) || (leb 48 c && leb c 57)

-- The automaton of ^[a-z0-9]+(?:-[a-z0-9]+)*$; `need` says that a letter or digit must come next.
unfoldable pub slug_run : Bool → Text → Bool
slug_run need [] = not need
slug_run need (c ∷ s) =
    (is_slug_char c || (c == 45 && not need)) && slug_run (not (is_slug_char c)) s

-- validSlug.MatchString
unfoldable pub valid_slug : Text → Bool
unfolding slug_run
valid_slug s = slug_run true s

unfoldable pub validate_content : Text → Check
validate_content content =
    if is_empty content
    then some (content_empty ∷ [])
    else if ltb 10000 (length content)
    then some (content_too_long ∷ [])
    else none

abbrev outside : ℕ → ℕ → ℕ → Bool
outside lo hi n = ltb n lo || ltb hi n

unfoldable pub validate_blog_slug : Text → Check
unfolding valid_slug
validate_blog_slug slug =
    if outside min_slug_len max_slug_len (length slug) || not (valid_slug slug)
    then some (err_blog_slug ∷ [])
    else none

abbrev too_long : Option Text → Bool
too_long none = false
too_long (some d) = ltb max_description_len (length d)

unfoldable pub validate_blog : Text → Text → Option Text → Check
unfolding validate_blog_slug
validate_blog slug title description = elim (validate_blog_slug slug) [
  | some e ↦ some e
  | none ↦
      if outside min_title_len max_title_len (length title)
      then some (err_blog_title ∷ [])
      else if too_long description
      then some (err_blog_description ∷ [])
      else none
]

unfoldable pub validate_blog_visibility : Visibility → Check
unfolding visibility_is_valid
validate_blog_visibility v =
    if not (visibility_is_valid v) then some (err_blog_visibility ∷ []) else none

-- the two tests under `registrationMode == storage.RegistrationLimited`
abbrev bad_limit : Option ℤ → Bool
bad_limit none = true
bad_limit (some k) = ltb_ℤ k 1 || not (leb_ℤ k max_registration_queue)

unfoldable pub validate_blog_registration : RegistrationMode → Option ℤ → Check
unfolding registration_is_valid
validate_blog_registration mode limit =
    if not (registration_is_valid mode)
    then some (err_blog_registration_mode ∷ [])
    else if text_eq mode registration_limited && bad_limit limit
    then some (err_blog_registration_limit ∷ [])
    else if not (text_eq mode registration_limited) && is_some limit
    then some (err_registration_values_for_mode ∷ [])
    else none

unfoldable pub validate_post_slug : Option Text → Check
unfolding valid_slug
validate_post_slug none = none
validate_post_slug (some slug) =
    if outside min_slug_len max_slug_len (length slug) || not (valid_slug slug)
    then some (err_post_slug ∷ [])
    else none

unfoldable pub validate_post_details : Option Text → Text → Option Text → Check
unfolding validate_post_slug
validate_post_details slug title description = elim (validate_post_slug slug) [
  | some e ↦ some e
  | none ↦
      if outside min_title_len max_title_len (length title)
      then some (err_post_title ∷ [])
      else if too_long description
      then some (err_post_description ∷ [])
      else none
]

unfoldable pub validate_post_encryption_settings : Bool → Option Text → Check
validate_post_encryption_settings is_encrypted enc_iv =
    if not is_encrypted && is_some enc_iv
    then some (err_enc_pointless_iv ∷ [])
    else if is_encrypted && not (is_some enc_iv)
    then some (err_enc_missing_iv ∷ [])
    else none
