-- ===== src/Tests/Utils.antt =====
-- Slugs and public ids.
use blogengine.Prelude.{◌≡◌, ◌⊎◌, refl, true, List, [], ◌∷◌, some, length, arith}
use blogengine.Prelude.Text.{Text, codes}
use blogengine.Errors.{ok}
use blogengine.Sqlite.Validate.{valid_slug}
use blogengine.Utils.Random.{Read, bytes, generate_public_id, byte_at, pick}
use blogengine.Utils.Slug.{slugify}
use blogengine.Utils.SlugLaws.{slugify_is_slug}
use blogengine.Utils.RandomLaws.{IsAlnum, generate_public_id_lem}

slug_of_title : slugify (codes "  Hello, World!  ") ≡ codes "hello-world"
unfolding slugify
slug_of_title = refl

slugify_is_slug_example :
    (slugify (codes "Go & SQL!") ≡ []) ⊎ (valid_slug (slugify (codes "Go & SQL!")) ≡ true)
slugify_is_slug_example = slugify_is_slug (codes "Go & SQL!")

go_sql_valid : valid_slug (codes "go-sql") ≡ true
unfolding valid_slug
go_sql_valid = refl

abbrev reads : List Read
reads = bytes (0 ∷ 255 ∷ 61 ∷ []) ∷ bytes (62 ∷ 1 ∷ 2 ∷ []) ∷ []

generate_public_id_lem_example :
    (id : Text) × (generate_public_id 3 reads ≡ some (ok id)) × (length id ≡ 3) × IsAlnum id
generate_public_id_lem_example = generate_public_id_lem 3 reads (omega arith)

-- 255 is skipped, and the third letter ends the loop
id_of_reads : generate_public_id 3 reads ≡ some (ok (codes "a9a"))
unfolding generate_public_id pick byte_at
id_of_reads = refl
