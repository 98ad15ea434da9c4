-- ===== src/Seeder/Laws.antt =====
-- What seeding does to the database, and that its folders are found again.
use blogengine.Prelude.{
  ◌≤◌, ◌≡◌, refl, inl, inr, Bool, true, false, List, [], ◌∷◌, Option, some, length, all, arith,
  Bool-cases,
}
use blogengine.Prelude.Text.{Text, is_empty}
use blogengine.Errors.{Sentinel, Result, ok, err, errors_is_not_found}
use blogengine.Storage.{Stamp, User, Blog, Post, public_id_len}
use blogengine.Sqlite.Database.{Db, Call}
use blogengine.Sqlite.Users.{get_user_by_username}
use blogengine.Sqlite.Blogs.{get_blog_by_slug, create_blog}
use blogengine.Sqlite.Blogs.Updates.{update_blog}
use blogengine.Sqlite.Posts.{create_post}
use blogengine.Sqlite.Invariant.WellFormed.{IsWellFormed}
use blogengine.Sqlite.Invariant.Blogs.{create_blog-IsWellFormed, update_blog-IsWellFormed}
use blogengine.Sqlite.Invariant.Posts.{create_post-IsWellFormed}
use blogengine.Utils.Slug.{slugify}
use blogengine.Utils.Random.{Read, generate_public_id}
use blogengine.Utils.RandomLaws.{is_alnum, accepted_of, IsAlnum, generate_public_id_lem}
use blogengine.Seeder.Manifest.{BlogManifest, PostFrontmatter, parse_blog_manifest, parse_post_file}
use blogengine.Seeder.Blogs.{
  move_manifest, after_update, after_create, update_params, create_params, create_seeded,
  seed_owned, seed_blog,
}
use blogengine.Seeder.Posts.{
  is_post_folder, published_time, post_params, store_files, after_insert, seed_post,
}

all_of_All : (s : Text) → IsAlnum s → all is_alnum s ≡ true
all_of_All [] h = refl
all_of_All (c ∷ s) (h, hs) = ground (arith, h, all_of_All s hs)

nonempty_of_length : (s : Text) → length s ≡ 12 → is_empty s ≡ false
nonempty_of_length [] h = absurd (ground arith)
nonempty_of_length (c ∷ s) h = refl

-- The folder of a post whose public id was generated is a folder that a later seeding takes for one of
-- a post: the random reads hold enough bytes that are not skipped.
pub generated_is_post_folder :
    (source : List Read)
    → public_id_len ≤ accepted_of source
    → (id : Text) × (generate_public_id public_id_len source ≡ some (ok id))
      × (is_post_folder id ≡ true)
unfolding is_post_folder
generated_is_post_folder source h =
    let (id, made, long, alnum) = generate_public_id_lem 12 source h in
    (id, made, ground (arith, long, all_of_All id alnum, nonempty_of_length id long))

after_create-db : (t : Result Blog × Db) → (after_create t).1 ≡ t.1
after_create-db (ok b, db) = refl
after_create-db (err e, db) = refl

after_update-db :
    (in_place : Bool) (made moved : Option Sentinel) (t : Result Blog × Db)
    → (after_update in_place made moved t).1 ≡ t.1
after_update-db in_place made moved (ok b, db) = refl
after_update-db in_place made moved (err e, db) = refl

pub after_insert-db :
    (files : Result (Unit {0})) (t : Result Post × Db) → (after_insert files t).1 ≡ t.1
after_insert-db files (ok p, db) = refl
after_insert-db files (err e, db) = refl

create_seeded-IsWellFormed :
    (m : BlogManifest) (owner : User) (made moved : Option Sentinel) (c : Call) (db : Db)
    → IsWellFormed db
    → IsWellFormed (create_seeded m owner made moved c db).1
unfolding create_seeded
create_seeded-IsWellFormed m owner made moved c db w = filed (move_manifest made moved) refl
  where
    filed :
        (t : Result (Unit {0}))
        → move_manifest made moved ≡ t
        → IsWellFormed (create_seeded m owner made moved c db).1
    filed (err e) h = rw (h, create_seeded) w
    filed (ok u) h =
        rw (h, create_seeded, after_create-db (create_blog (create_params m owner) c db))
          (create_blog-IsWellFormed (create_params m owner) c db w)

seed_owned-IsWellFormed :
    (m : BlogManifest) (owner : User) (in_place : Bool) (made moved : Option Sentinel) (q c : Call)
    (db : Db)
    → IsWellFormed db
    → IsWellFormed (seed_owned m owner in_place made moved q c db).1
unfolding seed_owned
seed_owned-IsWellFormed m owner in_place made moved q c db w =
    found (get_blog_by_slug (slugify m.title) q db).0 refl
  where
    found :
        (t : Result Blog)
        → (get_blog_by_slug (slugify m.title) q db).0 ≡ t
        → IsWellFormed (seed_owned m owner in_place made moved q c db).1
    found (ok b) h =
        rw
          (
            h,
            seed_owned,
            after_update-db in_place made moved (update_blog (update_params m b owner) c db),
          )
          (update_blog-IsWellFormed (update_params m b owner) c db w)
    found (err e) h = elim (Bool-cases (errors_is_not_found e)) [
      | inl n ↦ rw (h, n, seed_owned) (create_seeded-IsWellFormed m owner made moved c db w)
      | inr n ↦ rw (h, n, seed_owned) w
    ]

-- Seeding a blog keeps the database well formed, whether its file, the file system, its owner, the
-- checks or the driver let it succeed or not.
pub seed_blog-IsWellFormed :
    (file : BlogManifest) (in_place : Bool) (made moved : Option Sentinel) (o q c : Call) (db : Db)
    → IsWellFormed db
    → IsWellFormed (seed_blog file in_place made moved o q c db).1
unfolding seed_blog
seed_blog-IsWellFormed file in_place made moved o q c db w = parsed (parse_blog_manifest file) refl
  where
    owned :
        (m : BlogManifest)
        → parse_blog_manifest file ≡ ok m
        → (t : Result User) → (get_user_by_username m.owner o db).0 ≡ t
        → IsWellFormed (seed_blog file in_place made moved o q c db).1
    owned m h (err e) k = rw (h, k, seed_blog) w
    owned m h (ok u) k =
        rw (h, k, seed_blog) (seed_owned-IsWellFormed m u in_place made moved q c db w)

    parsed :
        (t : Result BlogManifest)
        → parse_blog_manifest file ≡ t
        → IsWellFormed (seed_blog file in_place made moved o q c db).1
    parsed (err e) h = rw (h, seed_blog) w
    parsed (ok m) h = owned m h (get_user_by_username m.owner o db).0 refl

-- Seeding a post keeps the database well formed, whatever of its steps fails.
pub seed_post-IsWellFormed :
    (parse_time : Text → Result Stamp) (file : PostFrontmatter) (blog_slug public_id : Text)
    (generated : Result Text) (made moved uploaded : Option Sentinel) (b q c : Call) (db : Db)
    → IsWellFormed db
    → IsWellFormed
        (seed_post parse_time file blog_slug public_id generated made moved uploaded b q c db).1
unfolding seed_post
seed_post-IsWellFormed parse_time file blog_slug public_id generated made moved uploaded b q c db
      w =
    parsed (parse_post_file file) refl
  where
    dated :
        (fm : PostFrontmatter)
        → parse_post_file file ≡ ok fm
        → (blog : Blog) → (get_blog_by_slug blog_slug b db).0 ≡ ok blog
        → (t : Result (Option Stamp)) → published_time parse_time fm.published_at ≡ t
        → IsWellFormed
            (seed_post parse_time file blog_slug public_id generated made moved uploaded b q c db).1
    dated fm h blog k (err e) d = rw (h, k, d, seed_post) w
    dated fm h blog k (ok at) d =
        rw
          (
            h,
            k,
            d,
            seed_post,
            after_insert-db (store_files (is_empty public_id) made moved uploaded)
                (create_post (post_params fm blog public_id at) generated q c db),
          )
          (create_post-IsWellFormed (post_params fm blog public_id at) generated q c db w)

    placed :
        (fm : PostFrontmatter)
        → parse_post_file file ≡ ok fm
        → (t : Result Blog) → (get_blog_by_slug blog_slug b db).0 ≡ t
        → IsWellFormed
            (seed_post parse_time file blog_slug public_id generated made moved uploaded b q c db).1
    placed fm h (err e) k = rw (h, k, seed_post) w
    placed fm h (ok blog) k = dated fm h blog k (published_time parse_time fm.published_at) refl

    parsed :
        (t : Result PostFrontmatter)
        → parse_post_file file ≡ t
        → IsWellFormed
            (seed_post parse_time file blog_slug public_id generated made moved uploaded b q c db).1
    parsed (err e) h = rw (h, seed_post) w
    parsed (ok fm) h = placed fm h (get_blog_by_slug blog_slug b db).0 refl
