-- ===== src/Tests/LocalPosts.antt =====
-- Local posts are loaded, and rendered once.
use mathlib.Core.List.{Perm}
use blogengine.Prelude.{ℕ, ◌+◌, ◌≡◌, refl, List, [], ◌∷◌, Option, none, some, All, map, arith}
use blogengine.Prelude.Text.{Text, codes, trim_space}
use blogengine.Prelude.Sort.{IsDesc}
use blogengine.Content.Repository.{
  Post, LocalRepository, DiskFile, get, get_all, post_of_file, load_lazy_meta_from_disk,
  fallback_title_scan, scan_title, after_hash,
}
use blogengine.Content.PostContent.{OpenFile, content_is, load, get_content}
use blogengine.Content.RepositoryLaws.{loaded_posts}

abbrev hi_file : Option OpenFile
hi_file = some (record { size = some 2; bytes = some (codes "hi") })

abbrev no_date : Text → Option ℕ
no_date s = none

abbrev local_post : Post
local_post = record {
  id = 5;
  title = codes "Hi";
  author = [];
  description = [];
  modified_at = 7;
  path = codes "hi.md";
  content = none;
}

first_read : (get_content (λ s. none) (λ s. some s) hi_file local_post).0 ≡ content_is (codes "hi")
unfolding get_content load
first_read = refl

title_scanned : fallback_title_scan (codes "intro" ∷ codes "# My trip " ∷ []) ≡ codes "My trip"
unfolding fallback_title_scan scan_title after_hash trim_space
title_scanned = refl

-- a checksum: the sum of the bytes
abbrev sum : Text → ℕ
sum [] = 0
sum (c ∷ s) = c + sum s

no_file : Text → Option DiskFile
no_file path = none

abbrev empty_repository : LocalRepository
empty_repository = record { title = codes "Notes"; posts = [] }

loaded_posts_example :
    (after : LocalRepository) × (load_lazy_meta_from_disk sum no_date 7 no_file
        (codes "a.md" ∷ codes "b.md" ∷ [])
        empty_repository
      ≡ some after)
    × All
        (λ n.
          get (sum (trim_space n)) after
          ≡ some (post_of_file sum no_date 7 (trim_space n) (no_file (trim_space n))))
        (codes "a.md" ∷ codes "b.md" ∷ [])
    × ((entries : List (ℕ × Post))
        → Perm entries after.posts
        → Perm (get_all entries) (map (λ e. e.1) after.posts)
          × IsDesc (λ p. p.modified_at) (get_all entries))
unfolding trim_space
loaded_posts_example =
    loaded_posts sum no_date 7 no_file (codes "a.md") (codes "b.md" ∷ []) empty_repository (
      (λ e. refl, (λ e. absurd (ground (arith, e)), tt)),
      ((λ e. absurd (ground (arith, e)), (λ e. refl, tt)), tt),
    )
