-- ===== src/Tests/Seeder.antt =====
-- Posts are seeded in the small database.
use blogengine.Prelude.{◌≡◌, refl, true, false, [], ◌∷◌, none, some}
use blogengine.Prelude.Text.{Text, codes}
use blogengine.Errors.{Result, ok}
use blogengine.Storage.{Stamp}
use blogengine.Sqlite.Database.{calm}
use blogengine.Seeder.Manifest.{PostFrontmatter}
use blogengine.Sqlite.Posts.Queries.{get_all_post_public_ids}
use blogengine.Seeder.PostWalk.{PostFile, PostDir, BlogPosts, seed_posts}
use blogengine.Seeder.Inserts.{Grows}
use blogengine.Seeder.Growth.{Some, IsOfBlog, seed_posts-Grows}
use blogengine.Tests.World.{world}

abbrev second_post : PostFrontmatter
second_post = record {
  title = codes "Second post";
  slug = [];
  description = [];
  published_at = some (codes "2024-01-02");
  is_listed = true;
  is_encrypted = false;
  encryption_iv = none;
  requires_auth = false;
  allow_comments = true;
}

abbrev at_noon : Text → Result Stamp
at_noon s = ok (codes "1970-01-01 00:00:45 +0000 UTC")

abbrev second_file : PostFile
second_file = record {
  frontmatter = ok second_post;
  generated = ok (codes "mnopqrstuvwx");
  made = none;
  moved = none;
  uploaded = none;
  blog_call = calm 50;
  slug_call = calm 50;
  write_call = calm 50;
}

-- the folder of a post with this id
abbrev folder : Text → PostDir
folder name = record { name = name; is_dir = true; opened = none; files = ok (second_file ∷ []) }

abbrev notes_dir : BlogPosts
notes_dir = record {
  name = codes "notes";
  is_dir = true;
  opened = none;
  loose = ok (second_file ∷ []);
  dirs = ok (folder (codes "abcdefghijkl") ∷ folder (codes "abcdefghijk2") ∷ []);
}

first_ids : (get_all_post_public_ids (calm 50) world).0 ≡ ok (codes "abcdefghijkl" ∷ [])
unfolding get_all_post_public_ids
first_ids = refl

seed_posts-Grows_example :
    Grows
      (λ r. Some (IsOfBlog at_noon world.blogs (codes "abcdefghijkl" ∷ []) r) (notes_dir ∷ []))
      world
      (seed_posts at_noon none (ok (notes_dir ∷ [])) (calm 50) world).1
seed_posts-Grows_example = seed_posts-Grows at_noon (notes_dir ∷ []) (calm 50) world first_ids
