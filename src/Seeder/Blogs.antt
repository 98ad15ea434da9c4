-- ===== src/Seeder/Blogs.antt =====
-- seeder/seeder.go: seedBlog. `made` and `moved` are the errors of os.MkdirAll and os.Rename, if any.
use blogengine.Prelude.{Bool, [], ◌∷◌, Option, none, some, if◌then◌else◌}
use blogengine.Errors.{
  Sentinel, Result, ok, err, errors_is_not_found, err_seed_blog, err_owner_not_found,
  err_create_blog_dir, err_move_blog_file,
}
use blogengine.Storage.{User, Blog, CreateBlogParams, UpdateBlogParams}
use blogengine.Sqlite.Database.{Db, Call}
use blogengine.Sqlite.Users.{get_user_by_username}
use blogengine.Sqlite.Blogs.{get_blog_by_slug, create_blog}
use blogengine.Sqlite.Blogs.Updates.{update_blog}
use blogengine.Utils.Slug.{slugify}
use blogengine.Seeder.Manifest.{BlogManifest, parse_blog_manifest}

-- the steps of the file system: a directory is made and the manifest moved into it
abbrev pub move_manifest : (made moved : Option Sentinel) → Result (Unit {0})
move_manifest (some e) moved = err (err_create_blog_dir ∷ e ∷ [])
move_manifest none (some e) = err (err_move_blog_file ∷ e ∷ [])
move_manifest none none = ok tt

-- what follows the update of a blog that is there; `in_place` says that its manifest is in its folder
abbrev pub after_update :
    (in_place : Bool) (made moved : Option Sentinel) → Result Blog × Db → Result (Unit {0}) × Db
after_update in_place made moved (err e, db) = (err (err_seed_blog ∷ e), db)
after_update in_place made moved (ok b, db) =
    ((if in_place then ok tt else move_manifest made moved), db)

abbrev pub after_create : Result Blog × Db → Result (Unit {0}) × Db
after_create (err e, db) = (err (err_seed_blog ∷ e), db)
after_create (ok b, db) = (ok tt, db)

abbrev pub update_params : BlogManifest → Blog → User → UpdateBlogParams
update_params m existing owner = record {
  blog_id = existing.id;
  owner_id = owner.id;
  slug = slugify m.title;
  title = m.title;
  description = some m.description;
}

abbrev pub create_params : BlogManifest → User → CreateBlogParams
create_params m owner = record {
  owner_id = owner.id;
  slug = slugify m.title;
  title = m.title;
  description = some m.description;
  visibility = m.visibility;
  registration_mode = m.registration_mode;
  registration_limit = m.registration_limit;
}

-- a blog that is new: the files come first, then the row
unfoldable pub create_seeded :
    BlogManifest → User → (made moved : Option Sentinel) → Call → Db → Result (Unit {0}) × Db
create_seeded m owner made moved c db = elim (move_manifest made moved) [
  | err e ↦ (err e, db)
  | ok _ ↦ after_create (create_blog (create_params m owner) c db)
]

-- the owner is known: the blog is updated or created; `q` and `c` are the calls that look it up and
-- write it
unfoldable pub seed_owned :
    BlogManifest
    → User
    → Bool
    → (made moved : Option Sentinel) → (q c : Call) → Db
    → Result (Unit {0}) × Db
unfolding create_seeded
seed_owned m owner in_place made moved q c db = elim (get_blog_by_slug (slugify m.title) q db).0 [
  | ok existing ↦
      after_update in_place made moved (update_blog (update_params m existing owner) c db)
  | err e ↦
      if errors_is_not_found e
      then create_seeded m owner made moved c db
      else (err (err_seed_blog ∷ e), db)
]

-- seedBlog; `o` is the call that looks for the owner
unfoldable pub seed_blog :
    BlogManifest
    → Bool
    → (made moved : Option Sentinel) → (o q c : Call) → Db
    → Result (Unit {0}) × Db
unfolding parse_blog_manifest seed_owned
seed_blog file in_place made moved o q c db = elim (parse_blog_manifest file) [
  | err e ↦ (err (err_seed_blog ∷ e), db)
  | ok m ↦ elim (get_user_by_username m.owner o db).0 [
    | err e ↦ (err (err_owner_not_found ∷ e), db)
    | ok owner ↦ seed_owned m owner in_place made moved q c db
  ]
]
