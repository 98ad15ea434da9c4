-- ===== src/Site/Forms.antt =====
-- internal/handlers: what each handler does to the database. The pages do nothing, and a form makes at
-- most one call of the store that changes it.
use blogengine.Prelude.{◌≡◌, refl, sym, ◌∙◌, inl, inr, ◌⊎◌, arith, Bool-cases, Option-cases}
use mathlib.Core.Path.{subst}
use blogengine.Prelude.Int.{ℤ, pos, ◌==ℤ◌}
use blogengine.Prelude.Text.{Text, codes, is_empty}
use blogengine.Strconv.{parse_int}
use blogengine.Errors.{Result-cases}
use blogengine.Sqlite.Database.{Db, Call}
use blogengine.Sqlite.Users.{create_user}
use blogengine.Sqlite.Comments.{create_comment, delete_comment}
use blogengine.Sqlite.Posts.Queries.{get_post_by_slug_or_public_id}
use blogengine.Handlers.Web.{
  Request, BlogHandler, internal_error, unauthorised, not_found, render_error,
}
use blogengine.Handlers.Auth.{
  given_username, given_password, register_user, handle_register_page, handle_register,
  handle_login_page, handle_login, handle_logout,
}
use blogengine.Storage.{Post}
use blogengine.Handlers.Comment.{
  blog_slug, post_slug, given_content, save_comment, handle_comment, handle_delete_comment,
  session_user,
}
use blogengine.Handlers.Pages.{handle_home, handle_blog, handle_post}

-- what a form may ask of the store
pub data Visit : Db → Db → Type 0 where
  reads : {db : Db} → Visit db db
  registers :
      {db : Db} (username password_hash : Text) (c : Call)
      → Visit db (create_user username password_hash c db).1
  comments :
      {db : Db} (post_id user_id : ℤ) (content : Text) (c : Call)
      → Visit db (create_comment post_id user_id content c db).1
  deletes :
      {db : Db} (comment_id user_id : ℤ) (c : Call)
      → Visit db (delete_comment comment_id user_id c db).1

module _ {S : Type 0} (h : BlogHandler S) where
  pub handle_login_db :
      (r : Request) (c : Call) (db : Db) (s : S) → (handle_login h r c db s).db ≡ db
  unfolding handle_login internal_error render_error
  handle_login_db r c db s = ground arith

  pub handle_logout_db : (db : Db) (s : S) → (handle_logout h db s).db ≡ db
  unfolding handle_logout internal_error render_error
  handle_logout_db db s = ground arith

  pub handle_register_page_db : (db : Db) (s : S) → (handle_register_page h db s).db ≡ db
  unfolding handle_register_page
  handle_register_page_db db s = ground arith

  pub handle_login_page_db : (db : Db) (s : S) → (handle_login_page h db s).db ≡ db
  unfolding handle_login_page
  handle_login_page_db db s = ground arith

  pub handle_home_db : (q c : Call) (db : Db) (s : S) → (handle_home h q c db s).db ≡ db
  unfolding handle_home internal_error render_error
  handle_home_db q c db s = ground arith

  pub handle_blog_db :
      (r : Request) (q c : Call) (db : Db) (s : S) → (handle_blog h r q c db s).db ≡ db
  unfolding handle_blog internal_error not_found render_error
  handle_blog_db r q c db s = ground arith

  pub handle_post_db :
      (r : Request) (q c : Call) (db : Db) (s : S) → (handle_post h r q c db s).db ≡ db
  unfolding handle_post internal_error not_found render_error
  handle_post_db r q c db s = ground arith

  pub not_found_db : (db : Db) (s : S) → (not_found h db s).db ≡ db
  unfolding not_found render_error
  not_found_db db s = refl

  pub register_user_db :
      (r : Request) (c : Call) (db : Db) (s : S)
      → ((register_user h r c db s).db ≡ db)
        ⊎ ((hash : Text) × ((register_user h r c db s).db
              ≡ (create_user (given_username r) hash c db).1))
  unfolding register_user internal_error render_error
  register_user_db r c db s = elim (Result-cases (h.hashing.generate (given_password r))) [
    | inr (e, p) ↦ inl (ground (arith, p))
    | inl (hash, p) ↦
        inr (hash, ground (arith, p, Result-cases (create_user (given_username r) hash c db).0))
  ]

  pub handle_register_db :
      (r : Request) (c : Call) (db : Db) (s : S)
      → ((handle_register h r c db s).db ≡ db)
        ⊎ ((handle_register h r c db s).db ≡ (register_user h r c db s).db)
  unfolding handle_register
  handle_register_db r c db s = ground arith

  pub save_comment_db :
      (r : Request) (p : Post) (c : Call) (db : Db) (s : S)
      → ((save_comment h r p c db s).db ≡ db)
        ⊎ ((save_comment h r p c db s).db
            ≡ (create_comment p.id (session_user h s) (given_content r) c db).1)
  unfolding save_comment internal_error render_error
  save_comment_db r p c db s =
      ground (arith, Result-cases (create_comment p.id (session_user h s) (given_content r) c db).0)

  pub handle_comment_db :
      (r : Request) (q c : Call) (db : Db) (s : S)
      → ((handle_comment h r q c db s).db ≡ db)
        ⊎ ((p : Post) × ((handle_comment h r q c db s).db ≡ (save_comment h r p c db s).db))
  unfolding handle_comment unauthorised not_found render_error
  handle_comment_db r q c db s =
      elim (Result-cases (get_post_by_slug_or_public_id (blog_slug r) (post_slug r) q db).0) [
        | inl (p, e) ↦ elim (Bool-cases (session_user h s ==ℤ pos 0)) [
          | inl out ↦ inl (ground (arith, e, out))
          | inr known ↦ elim (Bool-cases (is_empty (r.form_value (codes "website")))) [
            | inl empty ↦ inr (p, ground (arith, e, known, empty))
            | inr bot ↦ inl (ground (arith, e, known, bot))
          ]
        ]
        | inr (f, e) ↦ inl (ground (arith, e))
      ]

  pub handle_delete_comment_db :
      (r : Request) (c : Call) (db : Db) (s : S)
      → ((handle_delete_comment h r c db s).db ≡ db)
        ⊎ ((k : ℤ) × ((handle_delete_comment h r c db s).db
              ≡ (delete_comment k (session_user h s) c db).1))
  unfolding handle_delete_comment unauthorised not_found internal_error render_error
  handle_delete_comment_db r c db s =
      elim (Option-cases (parse_int (r.path_value (codes "commentID")))) [
        | inl e ↦ inl (ground (arith, e))
        | inr (k, e) ↦ elim (Bool-cases (session_user h s ==ℤ pos 0)) [
          | inl out ↦ inl (ground (arith, e, out))
          | inr known ↦ inr (
            k,
            ground (arith, e, known, Result-cases (delete_comment k (session_user h s) c db).0),
          )
        ]
      ]

  pub handle_register-Visit :
      (r : Request) (c : Call) (db : Db) (s : S) → Visit db (handle_register h r c db s).db
  handle_register-Visit r c db s = elim (handle_register_db r c db s) [
    | inl e ↦ subst (Visit db) (sym e) reads
    | inr e ↦ elim (register_user_db r c db s) [
      | inl f ↦ subst (Visit db) (sym (e ∙ f)) reads
      | inr (hash, f) ↦ subst (Visit db) (sym (e ∙ f)) (registers (given_username r) hash c)
    ]
  ]

  pub handle_comment-Visit :
      (r : Request) (q c : Call) (db : Db) (s : S) → Visit db (handle_comment h r q c db s).db
  handle_comment-Visit r q c db s = elim (handle_comment_db r q c db s) [
    | inl e ↦ subst (Visit db) (sym e) reads
    | inr (p, e) ↦ elim (save_comment_db r p c db s) [
      | inl f ↦ subst (Visit db) (sym (e ∙ f)) reads
      | inr f ↦
          subst (Visit db) (sym (e ∙ f)) (comments p.id (session_user h s) (given_content r) c)
    ]
  ]

  pub handle_delete_comment-Visit :
      (r : Request) (c : Call) (db : Db) (s : S) → Visit db (handle_delete_comment h r c db s).db
  handle_delete_comment-Visit r c db s = elim (handle_delete_comment_db r c db s) [
    | inl e ↦ subst (Visit db) (sym e) reads
    | inr (k, e) ↦ subst (Visit db) (sym e) (deletes k (session_user h s) c)
  ]
