-- ===== src/Sqlite/Laws/BlogSuccess.antt =====
-- Exactly when a blog is created.
use blogengine.Prelude.{
  ℕ, suc, ◌≡◌, refl, sym, ◌≢◌, ◌↔◌, inl, inr, Bool, true, false, List, [], ◌∷◌, none, any, All,
  arith, Bool-cases, Option-cases,
}
use blogengine.Prelude.Int.{ℤ, pos, negsuc, ◌==ℤ◌, ==ℤ_iff}
use blogengine.Prelude.Text.{Text, text_eq, text_eq_refl, text_eq_sound}
use blogengine.Errors.{ok}
use blogengine.Storage.{User, Blog, CreateBlogParams}
use blogengine.Sqlite.Table.{insert, done, is_taken}
use blogengine.Sqlite.Database.{
  Db, Call, BlogRow, is_positive, has_user, blog_check, blog_clash, blog_schema,
}
use blogengine.Sqlite.Query.{exec}
use blogengine.Sqlite.Blogs.{new_blog, insert_blog, create_blog, read_blog}
use blogengine.Sqlite.Invariant.Tables.{is_given}
use blogengine.Sqlite.Invariant.Statements.{next-fresh}
use blogengine.Sqlite.Invariant.WellFormed.{IsWellFormed}
use blogengine.Sqlite.Laws.BlogCreation.{
  IsAccepted, create_blog_inv, create_blog_of_IsAccepted, insert_blog_inv, blog_check_of_IsAccepted,
}

-- No live blog has the slug.
abbrev pub IsSlugFree : Text → List BlogRow → Type 0
IsSlugFree slug rows = All (λ b. b.deleted_at ≡ none → b.slug ≢ slug) rows

clash_of_free : (r x : BlogRow) → (x.deleted_at ≡ none → x.slug ≢ r.slug) → blog_clash r x ≡ false
unfolding blog_clash
clash_of_free r x h = elim (Bool-cases (text_eq r.slug x.slug)) [
  | inr e ↦ ground (arith, e)
  | inl e ↦ elim (Option-cases x.deleted_at) [
    | inl n ↦ absurd (h n (sym (text_eq_sound r.slug x.slug e)))
    | inr (t, n) ↦ ground (arith, n)
  ]
]

not_taken_of_free :
    (r : BlogRow) (rows : List BlogRow)
    → IsSlugFree r.slug rows
    → is_taken blog_schema r rows ≡ false
not_taken_of_free r [] h = refl
not_taken_of_free r (x ∷ xs) (h, hs) =
    ground (arith, clash_of_free r x h, not_taken_of_free r xs hs)

pub free_of_clash :
    (r x : BlogRow)
    → r.deleted_at ≡ none
    → blog_clash r x ≡ false
    → x.deleted_at ≡ none
    → x.slug ≢ r.slug
unfolding blog_clash
free_of_clash r x live h n e = ground (arith, live, n, rw e at (text_eq_refl x.slug))

free_of_not_taken :
    (seq : ℕ) (r : BlogRow) (rows : List BlogRow)
    → r.id ≡ pos (suc seq)
    → r.deleted_at ≡ none
    → All (λ x. is_given seq x.id ≡ true) rows
    → is_taken blog_schema r rows ≡ false
    → IsSlugFree r.slug rows
free_of_not_taken seq r [] e live g h = tt
free_of_not_taken seq r (x ∷ xs) e live (gx, g) h = (
  free_of_clash r x live (ground (arith, next-fresh seq x.id gx)),
  free_of_not_taken seq r xs e live g (ground arith),
)

given-positive : (seq : ℕ) (k : ℤ) → is_given seq k ≡ true → is_positive k ≡ true
given-positive seq (pos n) h = ground arith
given-positive seq (negsuc n) h = ground arith

present-positive :
    (seq : ℕ) (k : ℤ) (users : List User)
    → All (λ u. is_given seq u.id ≡ true) users
    → any (λ u. u.id ==ℤ k) users ≡ true
    → is_positive k ≡ true
present-positive seq k [] g h = ground arith
present-positive seq k (u ∷ us) (gu, g) h =
    ground (arith, given-positive seq u.id gu, ==ℤ_iff u.id k, present-positive seq k us g)

insert_of_free :
    (r : BlogRow) (refs : Bool) (rows : List BlogRow)
    → blog_check r ≡ true
    → is_taken blog_schema r rows ≡ false
    → refs ≡ true
    → insert blog_schema r refs rows ≡ done (r ∷ rows)
unfolding insert
insert_of_free r refs rows a b c = ground arith

taken_of_insert :
    (r : BlogRow) (refs : Bool) (rows : List BlogRow) {rows' : List BlogRow}
    → insert blog_schema r refs rows ≡ done rows'
    → (is_taken blog_schema r rows ≡ false) × (refs ≡ true)
unfolding insert
taken_of_insert r refs rows h = ground arith

insert_blog_of_done :
    (p : CreateBlogParams) (c : Call) (db : Db) (rows : List BlogRow)
    → exec c (insert blog_schema (new_blog c db p) (has_user db p.owner_id) db.blogs) ≡ done rows
    → (b : Blog) × (db' : Db) × (insert_blog p c db ≡ (ok b, db'))
unfolding insert_blog
insert_blog_of_done p c db rows q = (
  read_blog (new_blog c db p),
  record db { blogs = rows; blog_seq = suc db.blog_seq },
  rw (q, insert_blog),
)

-- In a well-formed database, and with no error of the driver, CreateBlog succeeds exactly when the
-- Go checks accept its parameters, the owner is a user, and no live blog has the slug: the schema's
-- constraints never refuse a blog for another reason.
pub create_blog_succeeds_iff :
    (p : CreateBlogParams) (c : Call) (db : Db)
    → IsWellFormed db
    → c.fault ≡ none
    → ((b : Blog) × (db' : Db) × (create_blog p c db ≡ (ok b, db')))
      ↔ (IsAccepted p × (has_user db p.owner_id ≡ true) × IsSlugFree p.slug db.blogs)
create_blog_succeeds_iff p c db w calm = (forth, back)
  where
    forth :
        ((b : Blog) × (db' : Db) × (create_blog p c db ≡ (ok b, db')))
        → IsAccepted p × (has_user db p.owner_id ≡ true) × IsSlugFree p.slug db.blogs
    forth (b, db', h) =
        let (a, ins) = create_blog_inv p c db h in
        let (rows, q, _, _) = insert_blog_inv p c db ins in
        let (free, known) =
          taken_of_insert (new_blog c db p) (has_user db p.owner_id) db.blogs {rows' = rows}
            (ground arith) in
        (
          a,
          known,
          free_of_not_taken db.blog_seq (new_blog c db p) db.blogs refl refl w.blogs.given free,
        )

    back :
        IsAccepted p × (has_user db p.owner_id ≡ true) × IsSlugFree p.slug db.blogs
        → (b : Blog) × (db' : Db) × (create_blog p c db ≡ (ok b, db'))
    back (a, known, free) =
        let positive = present-positive db.user_seq p.owner_id db.users w.users.given known in
        let inserted =
          insert_of_free (new_blog c db p) (has_user db p.owner_id) db.blogs
            (blog_check_of_IsAccepted p c db a positive)
            (not_taken_of_free (new_blog c db p) db.blogs free) known in
        rw (create_blog_of_IsAccepted p c db a)
          (insert_blog_of_done p c db (new_blog c db p ∷ db.blogs) (ground arith))
