-- ===== src/Handlers/Laws/Comments.antt =====
-- The comment form: who writes a comment, and where.
use blogengine.Prelude.{
  suc, ◌≡◌, refl, sym, ap, ◌∙◌, ◌⊎◌, inl, inr, true, false, ◌||◌, ◌∷◌, Option, none, some, length,
  ◌≤◌, arith, ltb, Bool-cases, Option-cases,
}
use blogengine.Prelude.Int.{ℤ, pos, ◌==ℤ◌}
use blogengine.Prelude.Text.{Text, codes, is_empty}
use blogengine.Errors.{Sentinel, Result, ok, err}
use blogengine.Storage.{Comment, Post}
use blogengine.Sqlite.Table.{insert}
use blogengine.Sqlite.Database.{Db, Call, comment_schema, has_user}
use blogengine.Sqlite.Query.{exec}
use blogengine.Sqlite.Validate.{validate_content}
use blogengine.Sqlite.Comments.{new_comment, create_comment}
use blogengine.Sqlite.Posts.Queries.{get_post_by_slug_or_public_id}
use blogengine.Sqlite.Invariant.Rows.{Reply-cases, exec-done, insert-done}
use blogengine.Sqlite.Laws.Listing.{IsShown, get_post-IsShown}
use blogengine.Handlers.Web.{
  IsSessions, Request, BlogHandler, Outcome, user_id_key, unauthorised, not_found, internal_error,
  render_error,
}
use blogengine.Handlers.Auth.{handle_logout, close_session}
use blogengine.Handlers.Comment.{
  blog_slug, post_slug, given_content, session_user, answer_comment, save_comment, handle_comment,
  handle_delete_comment,
}

create_comment_cases :
    (post_id user_id : ℤ) (content : Text) (c : Call) (db : Db) (t : Result Comment × Db)
    → create_comment post_id user_id content c db ≡ t
    → (t.1 ≡ db)
      ⊎ ((t.1 ≡ record db {
        comments = new_comment c db post_id user_id content ∷ db.comments;
        comment_seq = suc db.comment_seq;
      })
          × (has_user db user_id ≡ true))
unfolding create_comment
create_comment_cases post_id user_id content c db t h =
    let r = new_comment c db post_id user_id content in
    let stmt = insert comment_schema r (has_user db user_id) db.comments in
    elim (Option-cases (validate_content content)) [
      | inr (e, v) ↦ inl (ground (arith, v))
      | inl v ↦ elim (Reply-cases (exec c stmt)) [
        | inl (e, p) ↦ inl (ground (arith, v, p))
        | inr (rows, p) ↦
            let (grown, known) =
              insert-done comment_schema r (has_user db user_id) db.comments (exec-done c stmt p) in
            inr (ground (arith, v, p, grown), known)
      ]
    ]

lookup_post :
    (blog_slug identifier : Text) (q : Call) (db : Db) {p : Post}
    → (get_post_by_slug_or_public_id blog_slug identifier q db).0 ≡ ok p
    → get_post_by_slug_or_public_id blog_slug identifier q db ≡ (ok p, db)
unfolding get_post_by_slug_or_public_id
lookup_post blog_slug identifier q db f = ground (arith, f)

module _ {S : Type 0} (h : BlogHandler S) where
  -- After a logout neither form does anything: both answer 401.
  pub logout_closes_forms :
      (m : IsSessions h.sessions) (r : Request) (q c : Call) (db : Db) (s : S)
      → (h.sessions.destroy s).0 ≡ none
      → (handle_comment h r q c db (handle_logout h db s).session
          ≡ unauthorised h db (handle_logout h db s).session)
        × (handle_delete_comment h r c db (handle_logout h db s).session
            ≡ unauthorised h db (handle_logout h db s).session)
  unfolding handle_comment handle_delete_comment handle_logout
  logout_closes_forms m r q c db s done = closed (h.sessions.destroy s) refl
    where
      closed :
          (t : Option Sentinel × S)
          → h.sessions.destroy s ≡ t
          → (handle_comment h r q c db (close_session h db t).session
              ≡ unauthorised h db (close_session h db t).session)
            × (handle_delete_comment h r c db (close_session h db t).session
                ≡ unauthorised h db (close_session h db t).session)
      closed (some e, s') p = absurd (ground (arith, p, done))
      closed (none, s') p =
          let gone : h.sessions.exists user_id_key s' ≡ false =
            ap (λ (x : Option Sentinel × S). h.sessions.exists user_id_key x.1) (sym p)
            ∙ m.exists-destroy user_id_key s done in
          let absent = m.get_absent user_id_key s' gone in
          (ground (arith, absent), ground (arith, absent))

  -- The comment of the form is the new row, of the user of the session, on the post that the query finds
  -- for the address.
  pub record IsCommented (r : Request) (q c : Call) (db : Db) (s : S) (o : Outcome S) : Type 0 where
    pub post : Post
    pub found : get_post_by_slug_or_public_id (blog_slug r) (post_slug r) q db ≡ (ok post, db)
    pub shown : IsShown db q.timestamp post
    pub in_blog : post.blog_slug ≡ blog_slug r
    pub author : has_user db (session_user h s) ≡ true
    pub anybody : (session_user h s ==ℤ pos 0) ≡ false
    pub short : length (given_content r) ≤ 1000
    pub written : is_empty (given_content r) ≡ false
    pub trap : is_empty (r.form_value (codes "website")) ≡ true
    pub saved : o.db ≡ record db {
      comments = new_comment c db post.id (session_user h s) (given_content r) ∷ db.comments;
      comment_seq = suc db.comment_seq;
    }

  saved_comment :
      (r : Request) (q c : Call) (db : Db) (s : S) (post : Post)
      → (session_user h s ==ℤ pos 0) ≡ false
      → is_empty (r.form_value (codes "website")) ≡ true
      → (get_post_by_slug_or_public_id (blog_slug r) (post_slug r) q db).0 ≡ ok post
      → ((save_comment h r post c db s).db ≡ db)
        ⊎ IsCommented r q c db s (save_comment h r post c db s)
  unfolding save_comment internal_error render_error
  saved_comment r q c db s post user trap found =
      elim (Bool-cases (is_empty (given_content r) || ltb 1000 (length (given_content r)))) [
        | inl bad ↦ inl (ground (arith, bad))
        | inr good ↦
            created good (create_comment post.id (session_user h s) (given_content r) c db) refl
      ]
    where
      answered : (t : Result Comment × Db) → (answer_comment h r s t).db ≡ t.1
      answered (ok u, db') = refl
      answered (err e, db') = refl

      created :
          (is_empty (given_content r) || ltb 1000 (length (given_content r))) ≡ false
          → (t : Result Comment × Db)
          → create_comment post.id (session_user h s) (given_content r) c db ≡ t
          → ((save_comment h r post c db s).db ≡ db)
            ⊎ IsCommented r q c db s (save_comment h r post c db s)
      created good t made =
          let passed : (save_comment h r post c db s).db ≡ t.1 =
            ground (arith, good, ap (λ x. (answer_comment h r s x).db) made, answered t) in
          elim (create_comment_cases post.id (session_user h s) (given_content r) c db t made) [
            | inl same ↦ inl (passed ∙ same)
            | inr (grown, known) ↦
                let looked = lookup_post (blog_slug r) (post_slug r) q db {p = post} found in
                let (shown, in_blog, _, _) =
                  get_post-IsShown (blog_slug r) (post_slug r) q db {p = post} {db' = db} looked in
                inr (record {
                  post = post;
                  found = looked;
                  shown = shown;
                  in_blog = in_blog;
                  author = known;
                  anybody = user;
                  short = ground (arith, good);
                  written = ground (arith, good);
                  trap = trap;
                  saved = passed ∙ grown;
                })
          ]

  -- HandleComment either saves the trimmed text as a comment of the session's user, who is there, on
  -- the post that the query finds for the address, which may be shown and is in the blog of the address,
  -- or changes nothing.
  pub handle_comment_cases :
      (r : Request) (q c : Call) (db : Db) (s : S)
      → ((handle_comment h r q c db s).db ≡ db)
        ⊎ IsCommented r q c db s (handle_comment h r q c db s)
  unfolding handle_comment save_comment unauthorised not_found internal_error render_error
  handle_comment_cases r q c db s = elim (Bool-cases (session_user h s ==ℤ pos 0)) [
    | inl out ↦ inl (ground (arith, out))
    | inr user ↦ elim (Bool-cases (is_empty (r.form_value (codes "website")))) [
      | inr trap ↦ inl (ground (arith, user, trap))
      | inl trap ↦
          found user trap (get_post_by_slug_or_public_id (blog_slug r) (post_slug r) q db).0 refl
    ]
  ]
    where
      found :
          (session_user h s ==ℤ pos 0) ≡ false
          → is_empty (r.form_value (codes "website")) ≡ true
          → (t : Result Post)
          → (get_post_by_slug_or_public_id (blog_slug r) (post_slug r) q db).0 ≡ t
          → ((handle_comment h r q c db s).db ≡ db)
            ⊎ IsCommented r q c db s (handle_comment h r q c db s)
      found user trap (err e) p = inl (ground (arith, user, trap, p))
      found user trap (ok post) p =
          let passed : handle_comment h r q c db s ≡ save_comment h r post c db s =
            ground (arith, user, trap, p) in
          rw passed (saved_comment r q c db s post user trap p)
