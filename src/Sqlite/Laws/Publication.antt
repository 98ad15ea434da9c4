-- ===== src/Sqlite/Laws/Publication.antt =====
-- posts.go: what CreatePost puts into the table, and the query that reads it back.
use blogengine.Prelude.{
  suc, ◌≡◌, refl, ap, ◌∙◌, inl, inr, Bool, true, false, ◌&&◌, ◌++◌, List, [], ◌∷◌, none, some, find,
  find_sound, any, All-find, Distinct, arith, Option-cases, Bool-cases,
}
use blogengine.Prelude.Int.{ℤ, ◌==ℤ◌, ==ℤ_iff}
use blogengine.Prelude.Text.{Text, is_empty, text_eq_refl}
use blogengine.Errors.{Result, Result-cases, ok}
use blogengine.Storage.{User, Post, CreatePostParams}
use blogengine.Sqlite.Table.{insert}
use blogengine.Sqlite.Database.{
  Db, Call, BlogRow, PostRow, is_live, has_blog, has_user, post_schema, blog_schema,
}
use blogengine.Sqlite.Query.{exec}
use blogengine.Sqlite.Invariant.Tables.{meets}
use blogengine.Sqlite.Invariant.WellFormed.{IsWellFormed}
use blogengine.Sqlite.Invariant.Rows.{Reply-cases, exec-done, insert-done}
use blogengine.Sqlite.Posts.{
  new_post, created_post, given_or, gen_post_s3_key, insert_post, prepare_post, create_post,
}
use blogengine.Sqlite.Posts.Queries.{
  join_posts, is_published, is_shown, read_post, get_post_by_slug_or_public_id,
}

-- the key in the object store has the slug of a blog that is there and not deleted
gen_post_s3_key_inv :
    (blog_id : ℤ) (public_id : Text) (q : Call) (db : Db) {s3_key : Text}
    → gen_post_s3_key blog_id public_id q db ≡ ok s3_key
    → (is_empty public_id ≡ false)
      × ((b : BlogRow) × (find (λ x. x.id ==ℤ blog_id && is_live x.deleted_at) db.blogs ≡ some b)
          × (s3_key ≡ b.slug ++ 47 ∷ public_id))
unfolding gen_post_s3_key
gen_post_s3_key_inv blog_id public_id q db h =
    elim (Option-cases (find (λ x. x.id ==ℤ blog_id && is_live x.deleted_at) db.blogs)) [
      | inl e ↦ absurd (ground (arith, e))
      | inr (b, e) ↦ (ground (arith, e), (b, e, ground (arith, e)))
    ]

prepare_post_inv :
    (p : CreatePostParams) (generated : Result Text) (q : Call) (db : Db) {public_id s3_key : Text}
    → prepare_post p generated q db ≡ ok (public_id, s3_key)
    → gen_post_s3_key p.blog_id public_id q db ≡ ok s3_key
unfolding prepare_post
prepare_post_inv p generated q db h = elim (Result-cases (given_or p.public_id generated)) [
  | inr (f, e) ↦ absurd (ground (arith, e))
  | inl (id, e) ↦ elim (Result-cases (gen_post_s3_key p.blog_id id q db)) [
    | inr (f, g) ↦ absurd (ground (arith, e, g))
    | inl (key, g) ↦ ground (arith, e, g)
  ]
]

create_post_inv :
    (p : CreatePostParams) (generated : Result Text) (q c : Call) (db : Db) {made : Post} {db' : Db}
    → create_post p generated q c db ≡ (ok made, db')
    → (public_id : Text) × (s3_key : Text) × (gen_post_s3_key p.blog_id public_id q db ≡ ok s3_key)
      × (insert_post p public_id s3_key c db ≡ (ok made, db'))
unfolding create_post
create_post_inv p generated q c db h = elim (Result-cases (prepare_post p generated q db)) [
  | inl ((public_id, s3_key), e) ↦
      (public_id, s3_key, prepare_post_inv p generated q db e, ground (arith, e))
  | inr (f, e) ↦ absurd (ground (arith, e))
]

-- a key names one row, so the live row with the key is the row with the key
find_live :
    (k : ℤ) (rows : List BlogRow) {b : BlogRow}
    → Distinct (meets blog_schema) rows
    → find (λ x. x.id ==ℤ k && is_live x.deleted_at) rows ≡ some b
    → find (λ x. x.id ==ℤ k) rows ≡ some b
find_live k [] d h = absurd (ground (arith, h))
find_live k (x ∷ xs) {b} (dx, d) h = elim (Bool-cases (x.id ==ℤ k)) [
  | inr e ↦ ground (arith, e, find_live k xs {b = b} d (ground (arith, h, e)))
  | inl e ↦ elim (Bool-cases (is_live x.deleted_at)) [
    | inl l ↦ ground (arith, e, l, h)
    | inr l ↦
        let rest : find (λ y. y.id ==ℤ k && is_live y.deleted_at) xs ≡ some b =
          ground (arith, h, e, l) in
        let apart =
          All-find (λ y. meets blog_schema x y ≡ false) (λ y. y.id ==ℤ k && is_live y.deleted_at) xs
            {a = b} dx rest in
        let same = find_sound (λ y. y.id ==ℤ k && is_live y.deleted_at) xs {a = b} rest in
        absurd (ground (arith, apart, same, e, (==ℤ_iff x.id k).0 e))
  ]
]

insert_post_inv :
    (p : CreatePostParams) (public_id s3_key : Text) (c : Call) (db : Db) {made : Post} {db' : Db}
    → insert_post p public_id s3_key c db ≡ (ok made, db')
    → let row = new_post c db p public_id s3_key in
      (made ≡ created_post row)
      × (db' ≡ record db { posts = row ∷ db.posts; post_seq = suc db.post_seq })
      × ((has_blog db p.blog_id && has_user db p.author_id) ≡ true)
unfolding insert_post
insert_post_inv p public_id s3_key c db h =
    let row = new_post c db p public_id s3_key in
    let refs = has_blog db p.blog_id && has_user db p.author_id in
    elim (Reply-cases (exec c (insert post_schema row refs db.posts))) [
      | inl (e, f) ↦ absurd (ground (arith, f))
      | inr (rows, f) ↦
          let (grown, met) =
            insert-done post_schema row refs db.posts
              (exec-done c (insert post_schema row refs db.posts) f) in
          (ground (arith, f), ground (arith, f, grown), met)
    ]

-- what a key finds where it is known to be there
find_known :
    {A : Type 0} (test : A → Bool) (rows : List A)
    → any test rows ≡ true
    → (a : A) × (find test rows ≡ some a)
find_known test (a ∷ rows) h = elim (Bool-cases (test a)) [
  | inl e ↦ (a, ground (arith, e))
  | inr e ↦ let (x, f) = find_known test rows (ground (arith, h, e)) in (x, ground (arith, e, f))
]
find_known test [] h = absurd (ground (arith, h))

-- the newest row of the table, joined
join_first :
    (db : Db) (row : PostRow) (rest : List PostRow) (b : BlogRow) (u : User)
    → find (λ x. x.id ==ℤ row.blog_id) db.blogs ≡ some b
    → find (λ x. x.id ==ℤ row.author_id) db.users ≡ some u
    → join_posts db (row ∷ rest) ≡ record { post = row; blog = b; author = u } ∷ join_posts db rest
unfolding join_posts
join_first db row rest b u f g = ground (arith, f, g)

-- What the query of one post reads of it: the join has the slug of the blog and the name of the
-- author, and five columns are not read.
abbrev pub as_read : Post → BlogRow → User → Post
as_read made b u = record made {
  blog_slug = b.slug;
  author_name = u.username;
  is_encrypted = false;
  encryption_iv = none;
  requires_auth = false;
  allow_comments = false;
  created_at = 0;
}

read_first :
    (later : Call) (db : Db) (row : PostRow) (rest : List PostRow) (b : BlogRow) (u : User)
    → later.fault ≡ none
    → db.posts ≡ row ∷ rest
    → find (λ x. x.id ==ℤ row.blog_id) db.blogs ≡ some b
    → find (λ x. x.id ==ℤ row.author_id) db.users ≡ some u
    → is_empty b.slug ≡ false
    → is_empty row.public_id ≡ false
    → is_shown later.timestamp (record { post = row; blog = b; author = u }) ≡ true
    → get_post_by_slug_or_public_id b.slug row.public_id later db
      ≡ (ok (read_post row.s3_key (record { post = row; blog = b; author = u })), db)
unfolding get_post_by_slug_or_public_id
read_first later db row rest b u calm grown f g named id shown =
    let first = ap (join_posts db) grown ∙ join_first db row rest b u f g in
    ground (arith, calm, first, named, id, shown, text_eq_refl b.slug, text_eq_refl row.public_id)

-- A post that CreatePost returned is what the query returns next for the slug of its blog and its public
-- id, with the columns that were inserted, if it is listed and the stored text of its time
-- of publication is not after the text of CURRENT_TIMESTAMP at the query; its key in the object store is
-- that slug and that id. (The database is well formed, the
-- driver meets no error, and the slug of the blog is not empty.)
pub get-create_post :
    (p : CreatePostParams) (generated : Result Text) (q c later : Call) (db : Db) {b : BlogRow}
    {made : Post} {db' : Db}
    → IsWellFormed db
    → later.fault ≡ none
    → find (λ x. x.id ==ℤ p.blog_id) db.blogs ≡ some b
    → is_empty b.slug ≡ false
    → create_post p generated q c db ≡ (ok made, db')
    → p.is_listed ≡ true
    → is_published later.timestamp p.published_at ≡ true
    → (u : User) × (find (λ x. x.id ==ℤ p.author_id) db.users ≡ some u)
      × (made.s3_key ≡ b.slug ++ 47 ∷ made.public_id)
      × (get_post_by_slug_or_public_id b.slug made.public_id later db'
          ≡ (ok (as_read made b u), db'))
unfolding read_post created_post
get-create_post p generated q c later db {b} {made} {db'} w calm blog named h listed due =
    let (public_id, s3_key, key, ins) = create_post_inv p generated q c db h in
    let (id, (b', found, spelled)) = gen_post_s3_key_inv p.blog_id public_id q db key in
    let met = find_live p.blog_id db.blogs {b = b'} w.blogs.distinct found in
    let one : b' ≡ b = ground (arith, met, blog) in
    let live =
      find_sound (λ x. x.id ==ℤ p.blog_id && is_live x.deleted_at) db.blogs {a = b'} found in
    let (same, grown, refs) = insert_post_inv p public_id s3_key c db ins in
    let row = new_post c db p public_id s3_key in
    let (u, author) = find_known (λ x. x.id ==ℤ p.author_id) db.users (ground (arith, refs)) in
    let whole = record db { posts = row ∷ db.posts; post_seq = suc db.post_seq } in
    (
      u,
      author,
      rw same (rw (← one) spelled),
      rw (same, grown)
          (read_first later whole row db.posts b u calm refl blog author named id
            (ground (arith, ap (λ (x : BlogRow). is_live x.deleted_at) one, live, listed, due))),
    )
