-- ===== src/Sqlite/Database.antt =====
-- The database as migrations 1 to 5 leave it: the rows of its tables, the constraints of each, and
-- what a call of the driver meets. A table's `seq` is the last key that AUTOINCREMENT gave out.
-- Rows are kept whole, and what one query returns of them is in the module of the query.
use blogengine.Prelude.{
  ℕ, ◌+◌, ◌++◌, ◌/◌, ◌%◌, Bool, true, false, not, ◌&&◌, ◌||◌, List, [], ◌∷◌, Option, none, some,
  any, ltb, leb, ◌==◌, is_some, if◌then◌else◌, take, drop,
}
use blogengine.Prelude.Int.{ℤ, pos, negsuc, ◌==ℤ◌, leb_ℤ}
use blogengine.Prelude.Text.{Text, codes, text_eq, lower_ascii}
use blogengine.Errors.{Sentinel}
unfoldable pub use blogengine.Prelude.Sort.{insert_desc, order_desc}
unfoldable pub use blogengine.Prelude.TextSort.{order_last}
use blogengine.Storage.{
  Time, Stamp, User, Visibility, RegistrationMode, visibility_public, visibility_private,
  registration_open, registration_closed, registration_limited, registration_invite_only,
}
use blogengine.Sqlite.Table.{Schema}

pub record CommentRow : Type 0 where
  pub id : ℤ
  pub post_id : ℤ
  pub user_id : Option ℤ
  pub content : Text
  pub created_at : Time
  pub updated_at : Time
  pub deleted_at : Option Time

pub record BlogRow : Type 0 where
  pub id : ℤ
  pub owner_id : ℤ
  pub slug : Text
  pub title : Text
  pub description : Option Text
  pub visibility : Visibility
  pub registration_mode : RegistrationMode
  pub registration_limit : Option ℤ
  pub created_at : Time
  pub updated_at : Option Time
  pub deleted_at : Option Time

pub record PostRow : Type 0 where
  pub id : ℤ
  pub blog_id : ℤ
  pub author_id : ℤ
  pub public_id : Text
  pub slug : Option Text
  pub title : Text
  pub description : Option Text
  pub s3_key : Text
  pub is_encrypted : Bool
  pub encryption_iv : Option Text
  pub requires_auth : Bool
  pub is_listed : Bool
  pub allow_comments : Bool
  pub published_at : Option Stamp
  pub created_at : Time
  pub updated_at : Option Time
  pub deleted_at : Option Time

pub record Db : Type 0 where
  pub users : List User
  pub user_seq : ℕ
  pub comments : List CommentRow
  pub comment_seq : ℕ
  pub blogs : List BlogRow
  pub blog_seq : ℕ
  pub posts : List PostRow
  pub post_seq : ℕ

abbrev pub empty_db : Db
empty_db = record {
  users = [];
  user_seq = 0;
  comments = [];
  comment_seq = 0;
  blogs = [];
  blog_seq = 0;
  posts = [];
  post_seq = 0;
}

-- What a call meets: the time, CURRENT_TIMESTAMP as a text, an error of the engine or the context that
-- stops the statement, and an error of `RowsAffected` after it. The columns that CURRENT_TIMESTAMP
-- alone fills have its one format, whose order is that of the times: they are kept as numbers.
pub record Call : Type 0 where
  pub now : Time
  pub timestamp : Text
  pub fault : Option Sentinel
  pub rows_fault : Option Sentinel

abbrev two_digits : ℕ → Text
two_digits n = (48 + n / 10) ∷ (48 + n % 10) ∷ []

-- CURRENT_TIMESTAMP in the first hour of 1970
abbrev pub first_hour : Time → Text
first_hour t = codes "1970-01-01 00:" ++ two_digits (t / 60) ++ 58 ∷ two_digits (t % 60)

-- a call in that hour that meets no error
abbrev pub calm : Time → Call
calm t = record { now = t; timestamp = first_hour t; fault = none; rows_fault = none }

-- LENGTH of a text in UTF-8: the characters before the first NUL. A byte that continues a character
-- is not counted.
unfoldable pub char_count : Text → ℕ
char_count [] = 0
char_count (c ∷ s) =
    let rest = char_count s in
    if c == 0 then 0 else if leb 128 c && ltb c 192 then rest else rest + 1

abbrev between : ℕ → ℕ → ℕ → Bool
between lo hi n = leb lo n && leb n hi

-- id > 0
abbrev pub is_positive : ℤ → Bool
is_positive k = not (leb_ℤ k 0)

-- username TEXT NOT NULL UNIQUE COLLATE NOCASE
unfoldable pub same_name : Text → Text → Bool
same_name a b = text_eq (lower_ascii a) (lower_ascii b)

unfoldable pub user_check : User → Bool
user_check u =
    between 3 50 (char_count u.username) && char_count u.password_hash == 60 && is_positive u.id

abbrev pub user_schema : Schema User
user_schema = record {
  id = λ u. u.id;
  check = user_check;
  clash = λ u v. same_name u.username v.username;
}

unfoldable pub comment_check : CommentRow → Bool
comment_check c = between 1 10000 (char_count c.content) && is_positive c.id

abbrev pub comment_schema : Schema CommentRow
comment_schema = record { id = λ c. c.id; check = comment_check; clash = λ c d. false }

abbrev pub is_live {ℓ} : {A : Type ℓ} → Option A → Bool
is_live t = not (is_some t)

-- registration_limit IS NOT NULL AND registration_limit > 0
abbrev has_limit : Option ℤ → Bool
has_limit none = false
has_limit (some k) = is_positive k

unfoldable pub blog_check : BlogRow → Bool
blog_check b =
    is_positive b.id
    && is_positive b.owner_id
    && (text_eq b.visibility visibility_public || text_eq b.visibility visibility_private)
    && (text_eq b.registration_mode registration_open
        || text_eq b.registration_mode registration_closed
        || text_eq b.registration_mode registration_limited
        || text_eq b.registration_mode registration_invite_only)
    && ((text_eq b.registration_mode registration_limited && has_limit b.registration_limit)
        || (not (text_eq b.registration_mode registration_limited) && is_live b.registration_limit))

-- idx_blogs_slug_active: slug, WHERE deleted_at IS NULL
unfoldable pub blog_clash : BlogRow → BlogRow → Bool
blog_clash a b = is_live a.deleted_at && is_live b.deleted_at && text_eq a.slug b.slug

abbrev pub blog_schema : Schema BlogRow
blog_schema = record { id = λ b. b.id; check = blog_check; clash = blog_clash }

-- two NULLs are distinct in a unique index
abbrev pub same_slug : Option Text → Option Text → Bool
same_slug (some s) (some t) = text_eq s t
same_slug _ _ = false

-- public_id UNIQUE, and idx_posts_slug_active: (blog_id, slug), WHERE deleted_at IS NULL
unfoldable pub post_clash : PostRow → PostRow → Bool
post_clash a b =
    text_eq a.public_id b.public_id
    || (is_live a.deleted_at
        && is_live b.deleted_at
        && a.blog_id ==ℤ b.blog_id
        && same_slug a.slug b.slug)

abbrev pub post_schema : Schema PostRow
post_schema = record { id = λ p. p.id; check = λ p. true; clash = post_clash }

-- the row that a foreign key names is there, deleted or not
abbrev pub has_user : Db → ℤ → Bool
has_user db k = any (λ u. u.id ==ℤ k) db.users

abbrev pub has_blog : Db → ℤ → Bool
has_blog db k = any (λ b. b.id ==ℤ k) db.blogs

-- LIMIT and OFFSET; a negative LIMIT is none, and a negative OFFSET is 0
unfoldable pub limit_rows {ℓ} : {A : Type ℓ} → ℤ → List A → List A
limit_rows (pos n) rows = take n rows
limit_rows (negsuc n) rows = rows

unfoldable pub offset_rows {ℓ} : {A : Type ℓ} → ℤ → List A → List A
offset_rows (pos n) rows = drop n rows
offset_rows (negsuc n) rows = rows
