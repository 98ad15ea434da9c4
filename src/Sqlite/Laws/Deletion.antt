-- ===== src/Sqlite/Laws/Deletion.antt =====
-- A deleted blog is gone from the queries, and its slug is free again.
use blogengine.Prelude.{
  ◌≡◌, refl, inl, inr, ◌⊎◌, Bool, true, false, ◌&&◌, List, [], ◌∷◌, Option, none, some, find,
  find_sound, All, All-mono, All-find, Distinct, arith, Bool-cases, Option-cases,
}
use blogengine.Prelude.Int.{ℤ, ◌==ℤ◌, ltb_ℤ, ==ℤ_iff, ==ℤ_comm, ==ℤ_refl}
use blogengine.Prelude.Text.{Text, text_eq, text_eq_sound}
use blogengine.Errors.{
  Error, ok, err, err_get_blog_by_id, err_get_blog_by_slug, err_not_found, map_sql_error,
}
use blogengine.Sqlite.Table.{update, replace, done}
use blogengine.Sqlite.Database.{Db, Call, BlogRow, is_live, blog_schema}
use blogengine.Sqlite.Validate.{validate_blog_slug}
use blogengine.Sqlite.Blogs.{get_blog_by_id, get_blog_by_slug}
use blogengine.Sqlite.Blogs.Updates.{touch_blog, owned_blog, update_row, delete_blog}
use blogengine.Sqlite.Invariant.Tables.{meets}
use blogengine.Sqlite.Invariant.Rows.{Reply-cases, exec-done, update-done}
use blogengine.Sqlite.Invariant.WellFormed.{IsWellFormed, blog_schema-IsSymmetric}
use blogengine.Sqlite.Laws.BlogSuccess.{IsSlugFree, free_of_clash}

-- Of the rows of a sound table, the others do not fall together with one that a query finds.
Distinct-find :
    (p : BlogRow → Bool) (rows : List BlogRow) {old : BlogRow}
    → Distinct (meets blog_schema) rows
    → find p rows ≡ some old
    → All (λ x. (x.id ==ℤ old.id) ≡ false → meets blog_schema old x ≡ false) rows
Distinct-find p [] {old} d e = tt
Distinct-find p (x ∷ xs) {old} (dx, d) e = elim (Bool-cases (p x)) [
  | inl t ↦
      let same : x ≡ old = ground arith in
      (λ n. absurd (ground (arith, same, ==ℤ_refl old.id)), All-mono (λ y h n. rw same at h) xs dx)
  | inr f ↦
      let later : find p xs ≡ some old = ground arith in
      let m = All-find (λ y. meets blog_schema x y ≡ false) p xs {a = old} dx later in
      (
        λ n. ground (arith, m, blog_schema-IsSymmetric x old, ==ℤ_comm x.id old.id),
        Distinct-find p xs {old = old} d later,
      )
]

-- the row of a deleted blog
abbrev buried : Call → BlogRow → BlogRow
buried c b = touch_blog c (record b { deleted_at = some c.now })

find-buried :
    (c : Call) (old : BlogRow) (rows : List BlogRow)
    → find (λ b. b.id ==ℤ old.id && is_live b.deleted_at) (replace blog_schema (buried c old) rows)
      ≡ none
unfolding replace
find-buried c old [] = refl
find-buried c old (x ∷ xs) = ground (arith, find-buried c old xs)

free_buried :
    (c : Call) (old : BlogRow) (rows : List BlogRow)
    → old.deleted_at ≡ none
    → All (λ x. (x.id ==ℤ old.id) ≡ false → meets blog_schema old x ≡ false) rows
    → IsSlugFree old.slug (replace blog_schema (buried c old) rows)
unfolding replace
free_buried c old [] live h = tt
free_buried c old (x ∷ xs) live (h, hs) = elim (Bool-cases (x.id ==ℤ old.id)) [
  | inl e ↦ rw e ((λ n s. ground arith), free_buried c old xs live hs)
  | inr e ↦ rw e (free_of_clash old x live (ground (arith, h e)), free_buried c old xs live hs)
]

find_free :
    (slug : Text) (rows : List BlogRow)
    → IsSlugFree slug rows
    → find (λ b. text_eq b.slug slug && is_live b.deleted_at) rows ≡ none
find_free slug [] h = refl
find_free slug (x ∷ xs) (h, hs) = elim (Bool-cases (text_eq x.slug slug)) [
  | inr e ↦ ground (arith, e, find_free slug xs hs)
  | inl e ↦ elim (Option-cases x.deleted_at) [
    | inl n ↦ absurd (h n (text_eq_sound x.slug slug e))
    | inr (t, n) ↦ ground (arith, n, find_free slug xs hs)
  ]
]

-- What a successful UPDATE of one blog has done.
update_row_inv :
    (blog_id owner_id : ℤ) (assign : BlogRow → BlogRow) (c : Call) (db : Db) (hit : Option BlogRow)
    (rows : List BlogRow)
    → update_row blog_id owner_id assign c db ≡ done (hit, rows)
    → ((hit ≡ none) × (find (owned_blog blog_id owner_id) db.blogs ≡ none) × (rows ≡ db.blogs))
      ⊎ ((old : BlogRow) × (find (owned_blog blog_id owner_id) db.blogs ≡ some old)
          × (hit ≡ some (assign old))
          × (rows ≡ replace blog_schema (touch_blog c (assign old)) db.blogs))
unfolding update_row
update_row_inv blog_id owner_id assign c db hit rows q =
    update-done blog_schema (owned_blog blog_id owner_id) assign (touch_blog c) db.blogs hit rows (
      exec-done c (update blog_schema (owned_blog blog_id owner_id) assign (touch_blog c) db.blogs)
        q)

-- What a successful DeleteBlog has done.
delete_blog_inv :
    (blog_id owner_id : ℤ) (c : Call) (db : Db) {db' : Db}
    → delete_blog blog_id owner_id c db ≡ (ok tt, db')
    → (old : BlogRow) × (find (owned_blog blog_id owner_id) db.blogs ≡ some old)
      × (db'.blogs ≡ replace blog_schema (buried c old) db.blogs)
      × (ltb_ℤ blog_id 1 ≡ false)
unfolding delete_blog
delete_blog_inv blog_id owner_id c db {db'} h =
    let assign = λ (b : BlogRow). record b { deleted_at = some c.now } in
    elim (Reply-cases (update_row blog_id owner_id assign c db)) [
      | inl (e, q) ↦ absurd (ground (arith, q))
      | inr ((hit, rows), q) ↦ elim (update_row_inv blog_id owner_id assign c db hit rows q) [
        | inl (none_hit, _, _) ↦ absurd (ground (arith, q, none_hit))
        | inr (old, found, _, kept) ↦ (old, found, ground (arith, q, kept), ground (arith, q))
      ]
    ]

owned_blog_parts :
    (blog_id owner_id : ℤ) (b : BlogRow)
    → owned_blog blog_id owner_id b ≡ true
    → (b.id ≡ blog_id) × (b.deleted_at ≡ none)
owned_blog_parts blog_id owner_id b h = ((==ℤ_iff b.id blog_id).0 (ground arith), ground arith)

-- what the query by a slug that no live blog has returns: the refusal of the slug, if it is malformed
abbrev pub or_refusal : Option Error → Error
or_refusal (some e) = e
or_refusal none = err_get_blog_by_slug ∷ err_not_found ∷ []

-- In a well-formed database a successful DeleteBlog found a live blog with that key and that owner. After
-- it the row of that blog has the time of the call as its deletion and the others are as they were, the
-- query by the key finds nothing, no live blog has its slug, and the query by the slug says so too, or
-- refuses the slug.
pub delete_blog-IsGone :
    (blog_id owner_id : ℤ) (c later : Call) (db : Db) {db' : Db}
    → IsWellFormed db
    → later.fault ≡ none
    → delete_blog blog_id owner_id c db ≡ (ok tt, db')
    → (old : BlogRow) × (find (owned_blog blog_id owner_id) db.blogs ≡ some old)
      × (old.id ≡ blog_id)
      × (old.deleted_at ≡ none)
      × (db'.blogs
          ≡ replace blog_schema (touch_blog c (record old { deleted_at = some c.now })) db.blogs)
      × (get_blog_by_id blog_id later db' ≡ (err (err_get_blog_by_id ∷ err_not_found ∷ []), db'))
      × IsSlugFree old.slug db'.blogs
      × (get_blog_by_slug old.slug later db'
          ≡ (err (or_refusal (validate_blog_slug old.slug)), db'))
unfolding get_blog_by_id get_blog_by_slug map_sql_error
delete_blog-IsGone blog_id owner_id c later db {db'} w calm h =
    let (old, found, kept, positive) = delete_blog_inv blog_id owner_id c db h in
    let (same, live) =
      owned_blog_parts blog_id owner_id old
        (find_sound (owned_blog blog_id owner_id) db.blogs found) in
    let others =
      Distinct-find (owned_blog blog_id owner_id) db.blogs {old = old} w.blogs.distinct found in
    let free : IsSlugFree old.slug db'.blogs = rw kept (free_buried c old db.blogs live others) in
    let missed : find (λ b. b.id ==ℤ blog_id && is_live b.deleted_at) db'.blogs ≡ none =
      rw (kept, ← same) (find-buried c old db.blogs) in
    (
      old,
      found,
      same,
      live,
      kept,
      ground (arith, calm, missed, positive),
      free,
      ground (
        arith,
        calm,
        Option-cases (validate_blog_slug old.slug),
        find_free old.slug db'.blogs free,
      ),
    )
