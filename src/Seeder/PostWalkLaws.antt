-- ===== src/Seeder/PostWalkLaws.antt =====
-- seeder/seeder.go: what a whole seeding does to the database.
use blogengine.Prelude.{
  inl, inr, List, [], ◌∷◌, Option, none, some, any, arith, Bool-cases, Option-cases, if◌then◌else◌,
}
use blogengine.Prelude.Text.{Text, text_eq}
use blogengine.Errors.{Result-cases, Sentinel, Result, ok, err}
use blogengine.Storage.{Stamp}
use blogengine.Sqlite.Database.{Db, Call}
use blogengine.Sqlite.Posts.Queries.{get_all_post_public_ids}
use blogengine.Sqlite.Invariant.WellFormed.{IsWellFormed}
use blogengine.Seeder.Posts.{is_post_folder}
use blogengine.Seeder.Laws.{seed_post-IsWellFormed}
use blogengine.Seeder.Walk.{seed_blogs}
use blogengine.Seeder.PostWalk.{
  PostFile, PostDir, BlogPosts, seed_post_file, seed_loose_files, seed_only_file, seed_opened,
  seed_post_dir, seed_post_dirs, seed_structured_posts, seed_posts_for_blog, seed_each_blog,
  seed_posts, SourceDir, and_then, seed,
}
use blogengine.Seeder.WalkLaws.{seed_blogs-IsWellFormed}

module _ (parse_time : Text → Result Stamp) where
  seed_post_file-IsWellFormed :
      (blog_slug public_id : Text) (f : PostFile) (db : Db)
      → IsWellFormed db
      → IsWellFormed (seed_post_file parse_time blog_slug public_id f db).1
  unfolding seed_post_file
  seed_post_file-IsWellFormed blog_slug public_id f db w = elim (Result-cases f.frontmatter) [
    | inr (e, h) ↦ rw (h, seed_post_file) w
    | inl (fm, h) ↦
        rw (h, seed_post_file)
          (seed_post-IsWellFormed parse_time fm blog_slug public_id f.generated f.made f.moved
            f.uploaded f.blog_call f.slug_call f.write_call db w)
  ]

  seed_loose_files-IsWellFormed :
      (blog_slug : Text) (files : List PostFile) (db : Db)
      → IsWellFormed db
      → IsWellFormed (seed_loose_files parse_time blog_slug files db)
  unfolding seed_loose_files
  seed_loose_files-IsWellFormed blog_slug [] db w = w
  seed_loose_files-IsWellFormed blog_slug (f ∷ files) db w =
      seed_loose_files-IsWellFormed blog_slug files (seed_post_file parse_time blog_slug [] f db).1
        (seed_post_file-IsWellFormed blog_slug [] f db w)

  seed_only_file-IsWellFormed :
      (blog_slug public_id : Text) (files : List PostFile) (db : Db)
      → IsWellFormed db
      → IsWellFormed (seed_only_file parse_time blog_slug public_id files db)
  unfolding seed_only_file
  seed_only_file-IsWellFormed blog_slug public_id [] db w = w
  seed_only_file-IsWellFormed blog_slug public_id (f ∷ []) db w =
      seed_post_file-IsWellFormed blog_slug public_id f db w
  seed_only_file-IsWellFormed blog_slug public_id (f ∷ g ∷ files) db w = w

  seed_opened-IsWellFormed :
      (blog_slug : Text) (d : PostDir) (db : Db)
      → IsWellFormed db
      → IsWellFormed (seed_opened parse_time blog_slug d db)
  seed_opened-IsWellFormed blog_slug d db w = elim (Option-cases d.opened) [
    | inr (e, h) ↦ ground (arith, h, w)
    | inl h ↦ elim (Result-cases d.files) [
      | inr (e, k) ↦ ground (arith, h, k, w)
      | inl (files, k) ↦
          ground (arith, h, k, seed_only_file-IsWellFormed blog_slug d.name files db w)
    ]
  ]

  seed_post_dir-IsWellFormed :
      (blog_slug : Text) (existing : List Text) (d : PostDir) (db : Db)
      → IsWellFormed db
      → IsWellFormed (seed_post_dir parse_time blog_slug existing d db)
  unfolding seed_post_dir
  seed_post_dir-IsWellFormed blog_slug existing d db w = ground (
    arith,
    w,
    Bool-cases d.is_dir,
    Bool-cases (is_post_folder d.name),
    Bool-cases (any (text_eq d.name) existing),
    seed_opened-IsWellFormed blog_slug d db w,
  )

  seed_post_dirs-IsWellFormed :
      (blog_slug : Text) (existing : List Text) (dirs : List PostDir) (db : Db)
      → IsWellFormed db
      → IsWellFormed (seed_post_dirs parse_time blog_slug existing dirs db)
  unfolding seed_post_dirs
  seed_post_dirs-IsWellFormed blog_slug existing [] db w = w
  seed_post_dirs-IsWellFormed blog_slug existing (d ∷ dirs) db w =
      seed_post_dirs-IsWellFormed blog_slug existing dirs
        (seed_post_dir parse_time blog_slug existing d db)
        (seed_post_dir-IsWellFormed blog_slug existing d db w)

  seed_posts_for_blog-IsWellFormed :
      (existing : List Text) (p : BlogPosts) (db : Db)
      → IsWellFormed db
      → IsWellFormed (seed_posts_for_blog parse_time existing p db)
  unfolding seed_posts_for_blog
  seed_posts_for_blog-IsWellFormed existing p db w = elim (Option-cases p.opened) [
    | inr (e, h) ↦ rw (h, seed_posts_for_blog) w
    | inl h ↦ elim (Result-cases p.loose) [
      | inr (e, k) ↦ rw (h, k, seed_posts_for_blog) w
      | inl (files, k) ↦ rw (h, k, seed_posts_for_blog) (structured files p.dirs)
    ]
  ]
    where
      structured :
          (files : List PostFile) (dirs : Result (List PostDir))
          → IsWellFormed (
              seed_structured_posts parse_time p.name existing dirs
                (seed_loose_files parse_time p.name files db))
      structured files (err e) = seed_loose_files-IsWellFormed p.name files db w
      structured files (ok dirs) =
          seed_post_dirs-IsWellFormed p.name existing dirs
            (seed_loose_files parse_time p.name files db)
            (seed_loose_files-IsWellFormed p.name files db w)

  seed_each_blog-IsWellFormed :
      (existing : List Text) (blogs : List BlogPosts) (db : Db)
      → IsWellFormed db
      → IsWellFormed (seed_each_blog parse_time existing blogs db)
  unfolding seed_each_blog
  seed_each_blog-IsWellFormed existing [] db w = w
  seed_each_blog-IsWellFormed existing (p ∷ blogs) db w =
      let one = if p.is_dir then seed_posts_for_blog parse_time existing p db else db in
      seed_each_blog-IsWellFormed existing blogs one
        (ground (arith, w, Bool-cases p.is_dir, seed_posts_for_blog-IsWellFormed existing p db w))

  seed_posts-IsWellFormed :
      (opened : Option Sentinel) (blogs : Result (List BlogPosts)) (c : Call) (db : Db)
      → IsWellFormed db
      → IsWellFormed (seed_posts parse_time opened blogs c db).1
  unfolding seed_posts
  seed_posts-IsWellFormed (some e) blogs c db w = w
  seed_posts-IsWellFormed none (err e) c db w = w
  seed_posts-IsWellFormed none (ok blogs) c db w =
      elim (Result-cases (get_all_post_public_ids c db).0) [
        | inr (e, h) ↦ rw (h, seed_posts) w
        | inl (existing, h) ↦ rw (h, seed_posts) (seed_each_blog-IsWellFormed existing blogs db w)
      ]

and_then-IsWellFormed :
    (t : Result (Unit {0}) × Db) (f : Db → Result (Unit {0}) × Db)
    → IsWellFormed t.1
    → ((db : Db) → IsWellFormed db → IsWellFormed (f db).1)
    → IsWellFormed (and_then t f).1
and_then-IsWellFormed (err e, db) f w k = w
and_then-IsWellFormed (ok u, db) f w k = k db w

-- A seeding keeps the database well formed, whatever the source directory holds, in whatever order,
-- and whichever of its files, of the steps of the file system, of the uploads and of the statements
-- fail.
pub seed-IsWellFormed :
    (parse_time : Text → Result Stamp) (d : SourceDir) (c : Call) (db : Db)
    → IsWellFormed db
    → IsWellFormed (seed parse_time d c db).1
unfolding seed
seed-IsWellFormed parse_time d c db w =
    and_then-IsWellFormed (seed_blogs d.opened d.blog_files d.blog_dirs db)
      (seed_posts parse_time d.opened_again d.blog_posts c)
      (seed_blogs-IsWellFormed d.opened d.blog_files d.blog_dirs db w)
      (seed_posts-IsWellFormed parse_time d.opened_again d.blog_posts c)
