-- ===== src/Sqlite/Posts.antt =====
-- storage/sqlite/posts.go. The errors of the driver are wrapped as they are, and not by mapSqlError.
pub mod Queries
use blogengine.Prelude.{
  suc, Bool, false, ◌&&◌, ◌||◌, List, [], ◌∷◌, ◌++◌, map, Option, none, some, find, select, leb,
  if◌then◌else◌,
}
use blogengine.Prelude.Int.{ℤ, pos, ◌==ℤ◌, ltb_ℤ, leb_ℤ}
use blogengine.Prelude.Text.{Text, text_eq, is_empty}
use blogengine.Errors.{
  Sentinel, Error, Result, ok, err, ◌>>=◌, err_limit_offset, err_negative_ids, err_blog_slug,
  err_latest_public_posts, err_invalid_author_or_blog, err_generate_s3_key, err_creating_post,
  err_invalid_public_id, err_get_post_public_ids, err_get_posts_by_blog_id,
  err_get_post_by_slug_or_public_id, err_post_identifier,
}
use blogengine.Storage.{Time, User, Post, CreatePostParams, visibility_public}
use blogengine.Sqlite.Table.{done, failed, insert}
use blogengine.Sqlite.Database.{
  Db, Call, BlogRow, PostRow, is_live, has_user, has_blog, post_schema, limit_rows, offset_rows,
  order_desc,
}
use blogengine.Sqlite.Query.{Op, exec, get, answer}
use blogengine.Sqlite.Validate.{validate_post_details, validate_post_encryption_settings}

abbrev pub plain : Sentinel → Sentinel → Error
plain what e = what ∷ e ∷ []

-- genPostS3Key: strings.Join([]string{blogSlug, publicID}, "/")
unfoldable pub gen_post_s3_key : ℤ → Text → Call → Db → Result Text
gen_post_s3_key blog_id public_id c db =
    if ltb_ℤ blog_id 1
    then err (err_invalid_author_or_blog ∷ [])
    else if is_empty public_id
    then err (err_invalid_public_id ∷ [])
    else elim (get c (find (λ b. b.id ==ℤ blog_id && is_live b.deleted_at) db.blogs)) [
      | failed e ↦ err (plain err_generate_s3_key e)
      | done b ↦ ok (b.slug ++ 47 ∷ public_id)
    ]

abbrev pub new_post : Call → Db → CreatePostParams → Text → Text → PostRow
new_post c db p public_id s3_key = record {
  id = pos (suc db.post_seq);
  blog_id = p.blog_id;
  author_id = p.author_id;
  public_id = public_id;
  slug = p.slug;
  title = p.title;
  description = p.description;
  s3_key = s3_key;
  is_encrypted = p.is_encrypted;
  encryption_iv = p.encryption_iv;
  requires_auth = p.requires_auth;
  is_listed = p.is_listed;
  allow_comments = p.allow_comments;
  published_at = p.published_at;
  created_at = c.now;
  updated_at = none;
  deleted_at = none;
}

-- the columns that the INSERT returns
unfoldable pub created_post : PostRow → Post
created_post r = record {
  id = r.id;
  blog_id = r.blog_id;
  blog_slug = [];
  author_id = r.author_id;
  author_name = [];
  public_id = r.public_id;
  slug = r.slug;
  title = r.title;
  description = r.description;
  s3_key = r.s3_key;
  is_encrypted = r.is_encrypted;
  encryption_iv = r.encryption_iv;
  requires_auth = r.requires_auth;
  is_listed = r.is_listed;
  allow_comments = r.allow_comments;
  published_at = r.published_at;
  created_at = r.created_at;
  updated_at = none;
  deleted_at = none;
}

unfoldable pub insert_post : CreatePostParams → Text → Text → Op Post
unfolding created_post
insert_post p public_id s3_key c db =
    let r = new_post c db p public_id s3_key in
    elim (exec c
      (insert post_schema r (has_blog db p.blog_id && has_user db p.author_id) db.posts)) [
        | failed e ↦ (err (plain err_creating_post e), db)
        | done rows ↦ (ok (created_post r), record db { posts = rows; post_seq = suc db.post_seq })
      ]

abbrev pub given_or : Text → Result Text → Result Text
given_or public_id generated = if is_empty public_id then generated else ok public_id

abbrev checked {ℓ} : {A : Type ℓ} → Option Error → A → Result A
checked none a = ok a
checked (some e) a = err e

-- What CreatePost settles before its INSERT: the public id and the S3 key. `generated` is the result
-- of utils.GeneratePublicID, used if no id is given; `q` is the call that reads the blog's slug.
unfoldable pub prepare_post : CreatePostParams → Result Text → Call → Db → Result (Text × Text)
unfolding validate_post_details gen_post_s3_key validate_post_encryption_settings
prepare_post p generated q db =
    if ltb_ℤ p.author_id 1 || ltb_ℤ p.blog_id 1
    then err (err_invalid_author_or_blog ∷ [])
    else elim (validate_post_details p.slug p.title p.description) [
      | some e ↦ err e
      | none ↦ do
        public_id ← given_or p.public_id generated
        s3_key ← gen_post_s3_key p.blog_id public_id q db
        checked (validate_post_encryption_settings p.is_encrypted p.encryption_iv)
            (public_id, s3_key)
    ]

unfoldable pub create_post : CreatePostParams → Result Text → Call → Op Post
unfolding prepare_post insert_post
create_post p generated q c db = elim (prepare_post p generated q db) [
  | err e ↦ (err (err_creating_post ∷ e), db)
  | ok (public_id, s3_key) ↦ insert_post p public_id s3_key c db
]
