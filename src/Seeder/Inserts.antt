-- ===== src/Seeder/Inserts.antt =====
-- seeder/seeder.go: what seedPost puts into the table of posts.
use blogengine.Prelude.{
  ℕ, suc, ◌≡◌, refl, ap, sym, ◌∙◌, inl, inr, ◌&&◌, List, [], ◌∷◌, ◌++◌, Option, none, some, find,
  All, All-append, All-mono, arith, Option-cases,
}
use blogengine.Prelude.Text.{Text, text_eq, is_empty}
use blogengine.Errors.{Result-cases, Sentinel, Result, ok, err}
use blogengine.Storage.{Stamp, Blog, CreatePostParams}
use blogengine.Sqlite.Table.{insert}
use blogengine.Sqlite.Database.{
  Db, Call, BlogRow, PostRow, is_live, has_blog, has_user, post_schema,
}
use blogengine.Sqlite.Query.{exec}
use blogengine.Sqlite.Blogs.{get_blog_by_slug, read_blog}
use blogengine.Sqlite.Posts.{
  new_post, given_or, gen_post_s3_key, insert_post, prepare_post, create_post,
}
use blogengine.Sqlite.Validate.{validate_blog_slug}
use blogengine.Sqlite.Invariant.Rows.{Reply-cases, exec-done, insert-done}
use blogengine.Seeder.Manifest.{PostFrontmatter, parse_post_file}
use blogengine.Seeder.Posts.{published_time, seeded_slug, post_params, store_files, seed_post}
use blogengine.Seeder.Laws.{after_insert-db}

-- Posts with this property were added, the newest first, and no other row of any table was changed.
abbrev pub Grows : (PostRow → Type 0) → Db → Db → Type 0
Grows P db db' =
    (rows : List PostRow) × (n : ℕ) × (db' ≡ record db { posts = rows ++ db.posts; post_seq = n })
    × All P rows

append_assoc : (a b c : List PostRow) → a ++ (b ++ c) ≡ (a ++ b) ++ c
append_assoc [] b c = refl
append_assoc (x ∷ a) b c = ap (λ r. x ∷ r) (append_assoc a b c)

pub Grows-none : {P : PostRow → Type 0} (db : Db) {db' : Db} → db' ≡ db → Grows P db db'
Grows-none db h = ([], db.post_seq, h, tt)

pub Grows-blogs :
    {P : PostRow → Type 0} (db : Db) {db' : Db} → Grows P db db' → db'.blogs ≡ db.blogs
Grows-blogs db (rows, n, h, all) = ap (λ (d : Db). d.blogs) h

pub Grows-trans :
    {P : PostRow → Type 0} (a b : Db) {c : Db} → Grows P a b → Grows P b c → Grows P a c
Grows-trans {P} a b {c} (first, m, h, hs) (second, n, k, ks) = (
  second ++ first,
  n,
  k
      ∙ ap (λ (d : Db). record d { posts = second ++ d.posts; post_seq = n }) h
      ∙ ap (λ (r : List PostRow). record a { posts = r; post_seq = n })
          (append_assoc second first a.posts),
  All-append P second first ks hs,
)

pub Grows-mono :
    {P Q : PostRow → Type 0} (db : Db) {db' : Db}
    → ((r : PostRow) → P r → Q r)
    → Grows P db db'
    → Grows Q db db'
Grows-mono db f (rows, n, h, hs) = (rows, n, h, All-mono f rows hs)

prepared_id :
    (p : CreatePostParams) (generated : Result Text) (q : Call) (db : Db) {public_id s3_key : Text}
    → prepare_post p generated q db ≡ ok (public_id, s3_key)
    → given_or p.public_id generated ≡ ok public_id
unfolding prepare_post
prepared_id p generated q db h = elim (Result-cases (given_or p.public_id generated)) [
  | inr (f, e) ↦ absurd (ground (arith, e))
  | inl (id, e) ↦ elim (Result-cases (gen_post_s3_key p.blog_id id q db)) [
    | inr (f, g) ↦ absurd (ground (arith, e, g))
    | inl (key, g) ↦ ground (arith, e, g)
  ]
]

-- the row of these parameters, with the id that was given or made
abbrev IsMade : CreatePostParams → Result Text → PostRow → Type 0
IsMade p generated r =
    (r.blog_id ≡ p.blog_id)
    × (r.author_id ≡ p.author_id)
    × ((r.title ≡ p.title)
        × ((r.slug ≡ p.slug)
            × ((r.is_listed ≡ p.is_listed)
                × ((r.published_at ≡ p.published_at) × (r.deleted_at ≡ none)))))
    × (given_or p.public_id generated ≡ ok r.public_id)

insert_post-Grows :
    (p : CreatePostParams) (generated : Result Text) (public_id s3_key : Text) (c : Call) (db : Db)
    → given_or p.public_id generated ≡ ok public_id
    → Grows (IsMade p generated) db (insert_post p public_id s3_key c db).1
unfolding insert_post
insert_post-Grows p generated public_id s3_key c db id =
    let row = new_post c db p public_id s3_key in
    let refs = has_blog db p.blog_id && has_user db p.author_id in
    elim (Reply-cases (exec c (insert post_schema row refs db.posts))) [
      | inl (e, f) ↦ rw (f, insert_post) (Grows-none db refl)
      | inr (rows, f) ↦
          let (grown, _) =
            insert-done post_schema row refs db.posts
              (exec-done c (insert post_schema row refs db.posts) f) in
          rw (f, insert_post)
            (
              row ∷ [],
              suc db.post_seq,
              ap (λ (r : List PostRow). record db { posts = r; post_seq = suc db.post_seq }) grown,
              ((refl, refl, (refl, (refl, (refl, (refl, refl)))), id), tt),
            )
    ]

pub create_post-Grows :
    (p : CreatePostParams) (generated : Result Text) (q c : Call) (db : Db)
    → Grows (IsMade p generated) db (create_post p generated q c db).1
unfolding create_post
create_post-Grows p generated q c db = elim (Result-cases (prepare_post p generated q db)) [
  | inr (e, h) ↦ rw (h, create_post) (Grows-none db refl)
  | inl ((public_id, s3_key), h) ↦
      rw (h, create_post)
        (insert_post-Grows p generated public_id s3_key c db (prepared_id p generated q db h))
]

-- The query of a blog by its slug read the first live row with the slug.
get_blog_by_slug_inv :
    (slug : Text) (c : Call) (db : Db) {blog : Blog}
    → (get_blog_by_slug slug c db).0 ≡ ok blog
    → (b : BlogRow) × (find (λ x. text_eq x.slug slug && is_live x.deleted_at) db.blogs ≡ some b)
      × (blog ≡ read_blog b)
unfolding get_blog_by_slug
get_blog_by_slug_inv slug c db h = elim (Option-cases (validate_blog_slug slug)) [
  | inr (e, v) ↦ absurd (ground (arith, v))
  | inl v ↦ elim (Option-cases (find (λ x. text_eq x.slug slug && is_live x.deleted_at) db.blogs)) [
    | inl f ↦ absurd (ground (arith, v, f))
    | inr (b, f) ↦ (b, f, ground (arith, v, f))
  ]
]

-- the columns that the frontmatter of the file decides
abbrev pub IsWritten : (Text → Result Stamp) → PostFrontmatter → PostRow → Type 0
IsWritten parse_time file r =
    (fm : PostFrontmatter) × (parse_post_file file ≡ ok fm)
    × (r.title ≡ fm.title)
    × (r.slug ≡ some (seeded_slug fm))
    × (r.is_listed ≡ fm.is_listed)
    × (published_time parse_time fm.published_at ≡ ok r.published_at)

-- A post of the live blog with this slug, whose owner is its author, as the file says: its public id is
-- the one that was given, or that was made if none was.
abbrev pub IsPlaced :
    (Text → Result Stamp)
    → List BlogRow
    → (slug public_id : Text) → Result Text
    → PostFrontmatter
    → PostRow
    → Type 0
IsPlaced parse_time blogs slug public_id generated file r =
    ((b : BlogRow) × (find (λ x. text_eq x.slug slug && is_live x.deleted_at) blogs ≡ some b)
      × (r.blog_id ≡ b.id)
      × (r.author_id ≡ b.owner_id))
    × (r.deleted_at ≡ none)
    × IsWritten parse_time file r
    × (given_or public_id generated ≡ ok r.public_id)

pub seed_post-Grows :
    (parse_time : Text → Result Stamp) (file : PostFrontmatter) (blog_slug public_id : Text)
    (generated : Result Text) (made moved uploaded : Option Sentinel) (b q c : Call) (db : Db)
    → Grows
        (IsPlaced parse_time db.blogs blog_slug public_id generated file)
        db
        (seed_post parse_time file blog_slug public_id generated made moved uploaded b q c db).1
unfolding seed_post read_blog
seed_post-Grows parse_time file blog_slug public_id generated made moved uploaded b q c db =
    parsed (parse_post_file file) refl
  where
    inserted :
        (fm : PostFrontmatter) (blog : Blog) (at : Option Stamp)
        → parse_post_file file ≡ ok fm
        → published_time parse_time fm.published_at ≡ ok at
        → (get_blog_by_slug blog_slug b db).0 ≡ ok blog
        → Grows
            (IsPlaced parse_time db.blogs blog_slug public_id generated file)
            db
            (create_post (post_params fm blog public_id at) generated q c db).1
    inserted fm blog at h d k =
        let (row, found, read) = get_blog_by_slug_inv blog_slug b db k in
        Grows-mono db
          (λ r (of_blog, author, (titled, (slugged, (listed, (date, live)))), id). (
            (
              row,
              found,
              of_blog ∙ ap (λ (x : Blog). x.id) read,
              author ∙ ap (λ (x : Blog). x.owner_id) read,
            ),
            live,
            (fm, h, titled, slugged, listed, d ∙ ap ok (sym date)),
            id,
          ))
          (create_post-Grows (post_params fm blog public_id at) generated q c db)

    dated :
        (fm : PostFrontmatter)
        → parse_post_file file ≡ ok fm
        → (blog : Blog) → (get_blog_by_slug blog_slug b db).0 ≡ ok blog
        → (t : Result (Option Stamp)) → published_time parse_time fm.published_at ≡ t
        → Grows
            (IsPlaced parse_time db.blogs blog_slug public_id generated file)
            db
            (seed_post parse_time file blog_slug public_id generated made moved uploaded b q c db).1
    dated fm h blog k (err e) d = rw (h, k, d, seed_post) (Grows-none db refl)
    dated fm h blog k (ok at) d =
        rw
          (
            h,
            k,
            d,
            seed_post,
            after_insert-db (store_files (is_empty public_id) made moved uploaded)
                (create_post (post_params fm blog public_id at) generated q c db),
          )
          (inserted fm blog at h d k)

    placed :
        (fm : PostFrontmatter)
        → parse_post_file file ≡ ok fm
        → (t : Result Blog) → (get_blog_by_slug blog_slug b db).0 ≡ t
        → Grows
            (IsPlaced parse_time db.blogs blog_slug public_id generated file)
            db
            (seed_post parse_time file blog_slug public_id generated made moved uploaded b q c db).1
    placed fm h (err e) k = rw (h, k, seed_post) (Grows-none db refl)
    placed fm h (ok blog) k = dated fm h blog k (published_time parse_time fm.published_at) refl

    parsed :
        (t : Result PostFrontmatter)
        → parse_post_file file ≡ t
        → Grows
            (IsPlaced parse_time db.blogs blog_slug public_id generated file)
            db
            (seed_post parse_time file blog_slug public_id generated made moved uploaded b q c db).1
    parsed (err e) h = rw (h, seed_post) (Grows-none db refl)
    parsed (ok fm) h = placed fm h (get_blog_by_slug blog_slug b db).0 refl
