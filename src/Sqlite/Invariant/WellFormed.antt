-- ===== src/Sqlite/Invariant/WellFormed.antt =====
-- The invariant of the database: every table is sound, and every foreign key names a row.
use blogengine.Prelude.{
  ◌≡◌, refl, Bool, true, ◌&&◌, List, Option, none, some, any, All, All-mono, arith,
}
use blogengine.Prelude.Int.{ℤ, ◌==ℤ◌, ==ℤ_comm}
use blogengine.Prelude.Text.{text_eq_comm, lower_ascii}
use blogengine.Storage.{User}
use blogengine.Sqlite.Database.{
  Db, empty_db, CommentRow, BlogRow, PostRow, user_schema, comment_schema, blog_schema, post_schema,
  same_name, blog_clash, post_clash, same_slug,
}
use blogengine.Sqlite.Invariant.Tables.{IsSound, IsSymmetric}

-- comments.user_id REFERENCES users(id), or NULL
abbrev pub author_known : List User → CommentRow → Bool
author_known users c = elim c.user_id [ none ↦ true | some k ↦ any (λ u. u.id ==ℤ k) users ]

abbrev pub owner_known : List User → BlogRow → Bool
owner_known users b = any (λ u. u.id ==ℤ b.owner_id) users

abbrev pub parents_known : List BlogRow → List User → PostRow → Bool
parents_known blogs users p =
    any (λ b. b.id ==ℤ p.blog_id) blogs && any (λ u. u.id ==ℤ p.author_id) users

pub record IsWellFormed (db : Db) : Type 0 where
  pub users : IsSound user_schema db.user_seq db.users
  pub comments : IsSound comment_schema db.comment_seq db.comments
  pub blogs : IsSound blog_schema db.blog_seq db.blogs
  pub posts : IsSound post_schema db.post_seq db.posts
  pub comment_authors : All (λ c. author_known db.users c ≡ true) db.comments
  pub blog_owners : All (λ b. owner_known db.users b ≡ true) db.blogs
  pub post_parents : All (λ p. parents_known db.blogs db.users p ≡ true) db.posts

pub user_schema-IsSymmetric : IsSymmetric user_schema
unfolding same_name
user_schema-IsSymmetric a b = text_eq_comm (lower_ascii a.username) (lower_ascii b.username)

pub comment_schema-IsSymmetric : IsSymmetric comment_schema
comment_schema-IsSymmetric a b = refl

pub blog_schema-IsSymmetric : IsSymmetric blog_schema
unfolding blog_clash
blog_schema-IsSymmetric a b = ground (arith, text_eq_comm a.slug b.slug)

same_slug_comm : (s t : Option (List _)) → same_slug s t ≡ same_slug t s
same_slug_comm none none = refl
same_slug_comm none (some t) = refl
same_slug_comm (some s) none = refl
same_slug_comm (some s) (some t) = text_eq_comm s t

pub post_schema-IsSymmetric : IsSymmetric post_schema
unfolding post_clash
post_schema-IsSymmetric a b = ground (
  arith,
  text_eq_comm a.public_id b.public_id,
  same_slug_comm a.slug b.slug,
  ==ℤ_comm a.blog_id b.blog_id,
)

-- Every user that was there is there.
abbrev pub KeepsUsers : List User → List User → Type 0
KeepsUsers users users' =
    (k : ℤ) → any (λ u. u.id ==ℤ k) users ≡ true → any (λ u. u.id ==ℤ k) users' ≡ true

author_known_mono :
    (users users' : List User) (c : CommentRow)
    → KeepsUsers users users'
    → author_known users c ≡ true
    → author_known users' c ≡ true
author_known_mono users users' c keep h = known c.user_id h
  where
    known :
        (o : Option ℤ)
        → elim o [ none ↦ true | some k ↦ any (λ u. u.id ==ℤ k) users ] ≡ true
        → elim o [ none ↦ true | some k ↦ any (λ u. u.id ==ℤ k) users' ] ≡ true
    known none h = refl
    known (some k) h = keep k h

-- A change of the users alone, which keeps the keys.
pub with_users :
    (db : Db) (users' : List User) (seq' : _)
    → IsWellFormed db
    → IsSound user_schema seq' users'
    → KeepsUsers db.users users'
    → IsWellFormed (record db { users = users'; user_seq = seq' })
with_users db users' seq' w sound keep = record {
  users = sound;
  comments = w.comments;
  blogs = w.blogs;
  posts = w.posts;
  comment_authors =
      All-mono (λ c. author_known_mono db.users users' c keep) db.comments w.comment_authors;
  blog_owners = All-mono (λ b h. keep b.owner_id h) db.blogs w.blog_owners;
  post_parents = All-mono (λ p h. ground (arith, keep p.author_id)) db.posts w.post_parents;
}

-- The database that the migrations leave is well formed.
pub empty_db-IsWellFormed : IsWellFormed empty_db
empty_db-IsWellFormed = record {
  users = record { checked = tt; distinct = tt; given = tt };
  comments = record { checked = tt; distinct = tt; given = tt };
  blogs = record { checked = tt; distinct = tt; given = tt };
  posts = record { checked = tt; distinct = tt; given = tt };
  comment_authors = tt;
  blog_owners = tt;
  post_parents = tt;
}
