-- ===== src/Seeder/Posts.antt =====
-- seeder/seeder.go: seedPost, and the folders that hold a post. `parse_time` is time.Parse with the
-- two formats, in turn, and gives the text of the time as the driver stores it; `made`, `moved` and `uploaded` are the errors of the file system and of the
-- object store, if any.
use blogengine.Prelude.{
  Bool, true, false, not, ◌&&◌, [], ◌∷◌, Option, none, some, length, all, ◌==◌, if◌then◌else◌,
}
use blogengine.Prelude.Text.{Text, is_empty}
use blogengine.Errors.{
  Sentinel, Result, ok, err, errors_is_not_found, err_seed_post, err_create_post_dir,
  err_move_post_file, err_upload_post, err_invalid_published_time,
}
use blogengine.Storage.{Stamp, Blog, Post, CreatePostParams, public_id_len}
use blogengine.Sqlite.Database.{Db, Call}
use blogengine.Sqlite.Blogs.{get_blog_by_slug}
use blogengine.Sqlite.Posts.{create_post}
use blogengine.Utils.Slug.{slugify}
use blogengine.Utils.RandomLaws.{is_alnum}
use blogengine.Seeder.Manifest.{PostFrontmatter, parse_post_file}

-- ^[a-zA-Z0-9]+$ and the length of a public id: a folder that holds a post
unfoldable pub is_post_folder : Text → Bool
is_post_folder name = length name == public_id_len && not (is_empty name) && all is_alnum name

-- the slug of the frontmatter, or that of the title
abbrev pub seeded_slug : PostFrontmatter → Text
seeded_slug fm = if is_empty fm.slug then slugify fm.title else fm.slug

abbrev non_empty : Text → Option Text
non_empty s = if is_empty s then none else some s

-- the date, if there is one
unfoldable pub published_time : (Text → Result Stamp) → Option Text → Result (Option Stamp)
published_time parse_time none = ok none
published_time parse_time (some s) = elim (parse_time s) [
  | ok t ↦ ok (some t)
  | err e ↦ err (err_invalid_published_time ∷ e)
]

abbrev pub post_params : PostFrontmatter → Blog → Text → Option Stamp → CreatePostParams
post_params fm blog public_id published_at = record {
  public_id = public_id;
  blog_id = blog.id;
  author_id = blog.owner_id;
  slug = some (seeded_slug fm);
  title = fm.title;
  description = non_empty fm.description;
  is_encrypted = false;
  encryption_iv = none;
  requires_auth = fm.requires_auth;
  is_listed = fm.is_listed;
  allow_comments = fm.allow_comments;
  published_at = published_at;
}

-- what follows the INSERT: a new post's file is moved, and the text is uploaded
abbrev pub store_files : (is_new : Bool) (made moved uploaded : Option Sentinel) → Result (Unit {0})
store_files true (some e) moved uploaded = err (err_seed_post ∷ err_create_post_dir ∷ e ∷ [])
store_files true none (some e) uploaded = err (err_seed_post ∷ err_move_post_file ∷ e ∷ [])
store_files true none none (some e) = err (err_seed_post ∷ err_upload_post ∷ e ∷ [])
store_files true none none none = ok tt
store_files false made moved (some e) = err (err_seed_post ∷ err_upload_post ∷ e ∷ [])
store_files false made moved none = ok tt

abbrev pub after_insert : Result (Unit {0}) → Result Post × Db → Result (Unit {0}) × Db
after_insert files (err e, db) = (err (err_seed_post ∷ e), db)
after_insert files (ok p, db) = (files, db)

module _ (parse_time : Text → Result Stamp) where
  -- seedPost: `b` is the call that looks for the blog, `q` and `c` are those of CreatePost, and
  -- `generated` is the public id that it makes if none is given
  unfoldable pub seed_post :
      PostFrontmatter
      → (blog_slug public_id : Text) → Result Text
      → (made moved uploaded : Option Sentinel) → (b q c : Call) → Db
      → Result (Unit {0}) × Db
  unfolding parse_post_file published_time
  seed_post file blog_slug public_id generated made moved uploaded b q c db =
      elim (parse_post_file file) [
        | err e ↦ (err (err_seed_post ∷ e), db)
        | ok fm ↦ elim (get_blog_by_slug blog_slug b db).0 [
          | err e ↦ ((if errors_is_not_found e then ok tt else err (err_seed_post ∷ e)), db)
          | ok blog ↦ elim (published_time parse_time fm.published_at) [
            | err e ↦ (err (err_seed_post ∷ e), db)
            | ok published_at ↦
                after_insert (store_files (is_empty public_id) made moved uploaded)
                  (create_post (post_params fm blog public_id published_at) generated q c db)
          ]
        ]
      ]
