-- ===== src/Sqlite/Laws/Ownership.antt =====
-- Nobody but its owner changes a blog, and nobody but its author a comment.
use blogengine.Prelude.{
  ◌≡◌, refl, ap, ◌∙◌, inl, inr, Bool, false, List, [], ◌∷◌, none, some, find, All, arith,
  Bool-cases, Option-cases,
}
use blogengine.Prelude.Int.{ℤ, ◌==ℤ◌, ==ℤ_iff}
use blogengine.Prelude.Text.{Text}
use blogengine.Errors.{Result, ok, err}
use blogengine.Storage.{Visibility, UpdateBlogParams, UpdateBlogRegistrationParams}
use blogengine.Sqlite.Table.{Schema, update, done}
use blogengine.Sqlite.Database.{Db, Call, BlogRow, CommentRow, blog_schema, comment_schema}
use blogengine.Sqlite.Query.{exec}
use blogengine.Sqlite.Validate.{
  validate_blog, validate_blog_visibility, validate_blog_registration, validate_content,
}
use blogengine.Sqlite.Blogs.Updates.{
  touch_blog, owned_blog, update_row, update_blog, update_blog_visibility, update_blog_registration,
  delete_blog,
}
use blogengine.Sqlite.Comments.{is_by, owned, touch_comment, update_comment, delete_comment}

-- It returns an error, and the database is as it was.
abbrev pub IsRefused : {A : Type 0} → Db → Result A × Db → Type 0
IsRefused db (ok _, db') = ⊥
IsRefused db (err e, db') = db' ≡ db

-- No blog with this key belongs to this user.
abbrev pub IsStranger : (blog_id owner_id : ℤ) → List BlogRow → Type 0
IsStranger blog_id owner_id = All (λ b. b.id ≡ blog_id → b.owner_id ≡ owner_id → ⊥)

-- No comment with this key was written by this user.
abbrev pub IsNotAuthor : (comment_id user_id : ℤ) → List CommentRow → Type 0
IsNotAuthor comment_id user_id = All (λ r. r.id ≡ comment_id → r.user_id ≡ some user_id → ⊥)

not_owned :
    (blog_id owner_id : ℤ) (b : BlogRow)
    → (b.id ≡ blog_id → b.owner_id ≡ owner_id → ⊥)
    → owned_blog blog_id owner_id b ≡ false
not_owned blog_id owner_id b h = elim (Bool-cases (b.id ==ℤ blog_id)) [
  | inr e ↦ ground (arith, e)
  | inl e ↦ elim (Bool-cases (b.owner_id ==ℤ owner_id)) [
    | inr o ↦ ground (arith, o)
    | inl o ↦ absurd (h ((==ℤ_iff b.id blog_id).0 e) ((==ℤ_iff b.owner_id owner_id).0 o))
  ]
]

find_stranger :
    (blog_id owner_id : ℤ) (rows : List BlogRow)
    → IsStranger blog_id owner_id rows
    → find (owned_blog blog_id owner_id) rows ≡ none
find_stranger blog_id owner_id [] h = refl
find_stranger blog_id owner_id (b ∷ bs) (h, hs) =
    rw (not_owned blog_id owner_id b h) (find_stranger blog_id owner_id bs hs)

-- an UPDATE that finds no row
update-none :
    {A : Type 0} (s : Schema A) (where_ : A → Bool) (assign trigger : A → A) (rows : List A)
    → find where_ rows ≡ none
    → update s where_ assign trigger rows ≡ done (none, rows)
unfolding update
update-none s where_ assign trigger rows h = ground (arith, h)

module _ (blog_id owner_id : ℤ) (c : Call) (db : Db)
    (stranger : IsStranger blog_id owner_id db.blogs) where
  update_row_stranger :
      (assign : BlogRow → BlogRow)
      → update_row blog_id owner_id assign c db ≡ exec c (done (none, db.blogs))
  unfolding update_row
  update_row_stranger assign = rw (
      update-none blog_schema (owned_blog blog_id owner_id) assign (touch_blog c) db.blogs
        (find_stranger blog_id owner_id db.blogs stranger))

  stranger_delete : IsRefused db (delete_blog blog_id owner_id c db)
  unfolding delete_blog
  stranger_delete = ground (arith, update_row_stranger (λ b. record b { deleted_at = some c.now }))

  stranger_visibility :
      (visibility : Visibility)
      → IsRefused db (update_blog_visibility blog_id owner_id visibility c db)
  unfolding update_blog_visibility
  stranger_visibility visibility = ground (
    arith,
    update_row_stranger (λ b. record b { visibility = visibility }),
    Option-cases (validate_blog_visibility visibility),
  )

stranger_update :
    (p : UpdateBlogParams) (c : Call) (db : Db)
    → IsStranger p.blog_id p.owner_id db.blogs
    → IsRefused db (update_blog p c db)
unfolding update_blog
stranger_update p c db stranger = ground (
  arith,
  update_row_stranger p.blog_id p.owner_id c db stranger
      (λ b. record b { slug = p.slug; title = p.title; description = p.description }),
  Option-cases (validate_blog p.slug p.title p.description),
)

stranger_registration :
    (p : UpdateBlogRegistrationParams) (c : Call) (db : Db)
    → IsStranger p.blog_id p.owner_id db.blogs
    → IsRefused db (update_blog_registration p c db)
unfolding update_blog_registration
stranger_registration p c db stranger = ground (
  arith,
  update_row_stranger p.blog_id p.owner_id c db stranger (λ b. record b {
    registration_mode = p.registration_mode;
    registration_limit = p.registration_limit;
  }),
  Option-cases (validate_blog_registration p.registration_mode p.registration_limit),
)

-- A user who does not own a blog cannot edit it, change its visibility or its registration, or
-- delete it: each method returns an error and leaves the database as it was, whatever the driver
-- does.
pub stranger_changes_nothing :
    (p : UpdateBlogParams) (r : UpdateBlogRegistrationParams) (visibility : Visibility) (c : Call)
    (db : Db)
    → r.blog_id ≡ p.blog_id
    → r.owner_id ≡ p.owner_id
    → IsStranger p.blog_id p.owner_id db.blogs
    → IsRefused db (update_blog p c db)
      × IsRefused db (update_blog_visibility p.blog_id p.owner_id visibility c db)
      × IsRefused db (update_blog_registration r c db)
      × IsRefused db (delete_blog p.blog_id p.owner_id c db)
stranger_changes_nothing p r visibility c db same_blog same_owner stranger = (
  stranger_update p c db stranger,
  stranger_visibility p.blog_id p.owner_id c db stranger visibility,
  stranger_registration r c db (rw (same_blog, same_owner) stranger),
  stranger_delete p.blog_id p.owner_id c db stranger,
)

not_author :
    (comment_id user_id : ℤ) (r : CommentRow)
    → (r.id ≡ comment_id → r.user_id ≡ some user_id → ⊥)
    → owned comment_id user_id r ≡ false
unfolding is_by
not_author comment_id user_id r h = elim (Bool-cases (r.id ==ℤ comment_id)) [
  | inr e ↦ ground (arith, e)
  | inl e ↦ elim (Option-cases r.user_id) [
    | inl o ↦ ground (arith, o)
    | inr (k, o) ↦ elim (Bool-cases (k ==ℤ user_id)) [
      | inr s ↦ ground (arith, o, s)
      | inl s ↦ absurd (h ((==ℤ_iff r.id comment_id).0 e) (o ∙ ap some ((==ℤ_iff k user_id).0 s)))
    ]
  ]
]

find_not_author :
    (comment_id user_id : ℤ) (rows : List CommentRow)
    → IsNotAuthor comment_id user_id rows
    → find (owned comment_id user_id) rows ≡ none
find_not_author comment_id user_id [] h = refl
find_not_author comment_id user_id (r ∷ rs) (h, hs) =
    rw (not_author comment_id user_id r h) (find_not_author comment_id user_id rs hs)

-- A user who did not write a comment cannot edit or delete it: the method returns an error and
-- leaves the database as it was, whatever the driver does.
pub other_author_changes_nothing :
    (comment_id user_id : ℤ) (content : Text) (c : Call) (db : Db)
    → IsNotAuthor comment_id user_id db.comments
    → IsRefused db (update_comment comment_id user_id content c db)
      × IsRefused db (delete_comment comment_id user_id c db)
unfolding update_comment delete_comment
other_author_changes_nothing comment_id user_id content c db other =
    let missed = find_not_author comment_id user_id db.comments other in
    let where_ = owned comment_id user_id in
    (
      ground (
        arith,
        update-none comment_schema where_ (λ r. record r { content = content; updated_at = c.now })
            (touch_comment c) db.comments missed,
        Option-cases (validate_content content),
      ),
      ground (
        arith,
        update-none comment_schema where_ (λ r. record r { deleted_at = some c.now })
            (touch_comment c) db.comments missed,
      ),
    )
