-- ===== src/Seeder/PostWalk.antt =====
-- seeder/seeder.go: the walks over the directories of the blogs, and Seed.
use blogengine.Prelude.{Bool, not, List, [], ◌∷◌, Option, none, some, any, if◌then◌else◌}
use blogengine.Prelude.Text.{Text, text_eq}
use blogengine.Errors.{
  Sentinel, Result, ok, err, err_seed_post, err_seed_open_source, err_seed_read_source,
  err_reading_file,
}
use blogengine.Storage.{Stamp}
use blogengine.Sqlite.Database.{Db, Call}
use blogengine.Sqlite.Posts.Queries.{get_all_post_public_ids}
use blogengine.Seeder.Manifest.{PostFrontmatter}
use blogengine.Seeder.Posts.{is_post_folder, seed_post}
use blogengine.Seeder.Walk.{BlogFile, BlogDir, seed_blogs}

-- a post's file as it is read, the public id that may be made for it, the errors of the file system and
-- of the upload, and the calls of the store
pub record PostFile : Type 0 where
  pub frontmatter : Result PostFrontmatter
  pub generated : Result Text
  pub made : Option Sentinel
  pub moved : Option Sentinel
  pub uploaded : Option Sentinel
  pub blog_call : Call
  pub slug_call : Call
  pub write_call : Call

-- an entry of a blog's directory; `files` are its *.md, or the error of finding them
pub record PostDir : Type 0 where
  pub name : Text
  pub is_dir : Bool
  pub opened : Option Sentinel
  pub files : Result (List PostFile)

pub record BlogPosts : Type 0 where
  pub name : Text
  pub is_dir : Bool
  pub opened : Option Sentinel
  pub loose : Result (List PostFile)
  pub dirs : Result (List PostDir)

module _ (parse_time : Text → Result Stamp) where
  -- seedPost of a file
  unfoldable pub seed_post_file :
      (blog_slug public_id : Text) → PostFile → Db → Result (Unit {0}) × Db
  unfolding seed_post
  seed_post_file blog_slug public_id f db = elim f.frontmatter [
    | err e ↦ (err (err_seed_post ∷ err_reading_file ∷ e), db)
    | ok fm ↦
        seed_post parse_time fm blog_slug public_id f.generated f.made f.moved f.uploaded
          f.blog_call f.slug_call f.write_call db
  ]

  -- the loop of seedLoosePosts
  unfoldable pub seed_loose_files : (blog_slug : Text) → List PostFile → Db → Db
  unfolding seed_post_file
  seed_loose_files blog_slug [] db = db
  seed_loose_files blog_slug (f ∷ files) db =
      seed_loose_files blog_slug files (seed_post_file blog_slug [] f db).1

  -- the one file of a post's folder
  unfoldable pub seed_only_file : (blog_slug public_id : Text) → List PostFile → Db → Db
  unfolding seed_post_file
  seed_only_file blog_slug public_id [] db = db
  seed_only_file blog_slug public_id (f ∷ []) db = (seed_post_file blog_slug public_id f db).1
  seed_only_file blog_slug public_id (f ∷ g ∷ files) db = db

  -- a folder that was opened, or not
  abbrev pub seed_opened : (blog_slug : Text) → PostDir → Db → Db
  seed_opened blog_slug d db = elim d.opened [
    | some e ↦ db
    | none ↦ elim d.files [ err e ↦ db | ok files ↦ seed_only_file blog_slug d.name files db ]
  ]

  -- one round of the loop of seedStructuredPosts
  unfoldable pub seed_post_dir : (blog_slug : Text) → List Text → PostDir → Db → Db
  unfolding seed_only_file is_post_folder
  seed_post_dir blog_slug existing d db =
      if not d.is_dir
      then db
      else if not (is_post_folder d.name)
      then db
      else if any (text_eq d.name) existing
      then db
      else seed_opened blog_slug d db

  unfoldable pub seed_post_dirs : (blog_slug : Text) → List Text → List PostDir → Db → Db
  unfolding seed_post_dir
  seed_post_dirs blog_slug existing [] db = db
  seed_post_dirs blog_slug existing (d ∷ dirs) db =
      seed_post_dirs blog_slug existing dirs (seed_post_dir blog_slug existing d db)

  -- seedStructuredPosts, of what reading the directory gives
  abbrev pub seed_structured_posts :
      (blog_slug : Text) → List Text → Result (List PostDir) → Db → Db
  seed_structured_posts blog_slug existing (err e) db = db
  seed_structured_posts blog_slug existing (ok dirs) db = seed_post_dirs blog_slug existing dirs db

  -- seedPostsForBlog: its errors are logged
  unfoldable pub seed_posts_for_blog : List Text → BlogPosts → Db → Db
  unfolding seed_loose_files seed_post_dirs
  seed_posts_for_blog existing p db = elim p.opened [
    | some e ↦ db
    | none ↦ elim p.loose [
      | err e ↦ db
      | ok files ↦ seed_structured_posts p.name existing p.dirs (seed_loose_files p.name files db)
    ]
  ]

  unfoldable pub seed_each_blog : List Text → List BlogPosts → Db → Db
  unfolding seed_posts_for_blog
  seed_each_blog existing [] db = db
  seed_each_blog existing (p ∷ blogs) db =
      seed_each_blog existing blogs (if p.is_dir then seed_posts_for_blog existing p db else db)

  -- SeedPosts; `c` is the call of loadExistingPostIDs
  unfoldable pub seed_posts :
      (opened : Option Sentinel) → Result (List BlogPosts) → Call → Db → Result (Unit {0}) × Db
  unfolding seed_each_blog get_all_post_public_ids
  seed_posts (some e) blogs c db = (err (err_seed_open_source ∷ e ∷ []), db)
  seed_posts none (err e) c db = (err (err_seed_read_source ∷ e), db)
  seed_posts none (ok blogs) c db = elim (get_all_post_public_ids c db).0 [
    | err e ↦ (err (err_seed_post ∷ e), db)
    | ok existing ↦ (ok tt, seed_each_blog existing blogs db)
  ]

-- what the file system answers to Seed
pub record SourceDir : Type 0 where
  pub opened : Option Sentinel
  pub blog_files : List BlogFile
  pub blog_dirs : Result (List BlogDir)
  pub opened_again : Option Sentinel
  pub blog_posts : Result (List BlogPosts)

abbrev pub and_then :
    Result (Unit {0}) × Db → (Db → Result (Unit {0}) × Db) → Result (Unit {0}) × Db
and_then (err e, db) f = (err e, db)
and_then (ok u, db) f = f db

-- Seed
unfoldable pub seed : (Text → Result Stamp) → SourceDir → Call → Db → Result (Unit {0}) × Db
unfolding seed_blogs seed_posts
seed parse_time d c db =
    and_then (seed_blogs d.opened d.blog_files d.blog_dirs db)
      (seed_posts parse_time d.opened_again d.blog_posts c)
