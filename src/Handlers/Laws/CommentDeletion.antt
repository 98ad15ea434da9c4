-- ===== src/Handlers/Laws/CommentDeletion.antt =====
-- The deletion of a comment: who deletes one, and which.
use blogengine.Prelude.{
  ◌≡◌, refl, ap, ◌∙◌, ◌⊎◌, inl, inr, false, some, find, arith, Bool-cases, Option-cases,
}
use blogengine.Prelude.Int.{ℤ, pos, ◌==ℤ◌}
use blogengine.Prelude.Text.{codes}
use blogengine.Errors.{Result, ok, err, errors_is_not_found}
use blogengine.Sqlite.Table.{update, replace}
use blogengine.Sqlite.Database.{Db, Call, CommentRow, comment_schema}
use blogengine.Sqlite.Query.{exec}
use blogengine.Sqlite.Comments.{touch_comment, owned, delete_comment}
use blogengine.Sqlite.Invariant.Rows.{Reply-cases, exec-done, update-done}
use blogengine.Strconv.{parse_int}
use blogengine.Handlers.Web.{
  Request, BlogHandler, Outcome, unauthorised, not_found, internal_error, render_error,
}
use blogengine.Handlers.Comment.{session_user, answer_delete, handle_delete_comment}

-- the row after its deletion, as the UPDATE and the trigger leave it
abbrev pub removed : Call → CommentRow → CommentRow
removed c r = touch_comment c (record r { deleted_at = some c.now })

delete_comment_cases :
    (comment_id user_id : ℤ) (c : Call) (db : Db) (t : Result (Unit {0}) × Db)
    → delete_comment comment_id user_id c db ≡ t
    → (t.1 ≡ db)
      ⊎ ((old : CommentRow) × (find (owned comment_id user_id) db.comments ≡ some old)
          × (t.1 ≡ record db { comments = replace comment_schema (removed c old) db.comments }))
unfolding delete_comment
delete_comment_cases comment_id user_id c db t h =
    let where_ = owned comment_id user_id in
    let assign : CommentRow → CommentRow = λ r. record r { deleted_at = some c.now } in
    let stmt = update comment_schema where_ assign (touch_comment c) db.comments in
    elim (Reply-cases (exec c stmt)) [
      | inl (e, p) ↦ inl (ground (arith, p))
      | inr ((hit, rows), p) ↦
          elim (update-done comment_schema where_ assign (touch_comment c) db.comments hit rows
            (exec-done c stmt p)) [
              | inl (_, _, same) ↦ inl (ground (arith, p, same))
              | inr (old, found, _, same) ↦ inr (old, found, ground (arith, p, same))
            ]
    ]

module _ {S : Type 0} (h : BlogHandler S) where
  -- A comment that the session's user wrote is gone, and nothing else has changed.
  pub record IsDeleted (r : Request) (c : Call) (db : Db) (s : S) (o : Outcome S) : Type 0 where
    pub comment_id : ℤ
    pub named : parse_int (r.path_value (codes "commentID")) ≡ some comment_id
    pub anybody : (session_user h s ==ℤ pos 0) ≡ false
    pub old : CommentRow
    pub found : find (owned comment_id (session_user h s)) db.comments ≡ some old
    pub gone : o.db ≡ record db { comments = replace comment_schema (removed c old) db.comments }

  -- HandleDeleteComment either deletes the comment that the address names, which is live and was
  -- written by the session's user, and leaves all else as it was, or changes nothing.
  pub handle_delete_comment_cases :
      (r : Request) (c : Call) (db : Db) (s : S)
      → ((handle_delete_comment h r c db s).db ≡ db)
        ⊎ IsDeleted r c db s (handle_delete_comment h r c db s)
  unfolding handle_delete_comment unauthorised not_found internal_error render_error
  handle_delete_comment_cases r c db s = elim (Bool-cases (session_user h s ==ℤ pos 0)) [
    | inl out ↦ inl (ground (arith, out))
    | inr user ↦ elim (Option-cases (parse_int (r.path_value (codes "commentID")))) [
      | inl n ↦ inl (ground (arith, user, n))
      | inr (k, n) ↦ deleted user k n (delete_comment k (session_user h s) c db) refl
    ]
  ]
    where
      answered : (t : Result (Unit {0}) × Db) → (answer_delete h r s t).db ≡ t.1
      answered (ok u, db') = refl
      answered (err e, db') = ground (arith, Bool-cases (errors_is_not_found e))

      deleted :
          (session_user h s ==ℤ pos 0) ≡ false
          → (k : ℤ) → parse_int (r.path_value (codes "commentID")) ≡ some k
          → (t : Result (Unit {0}) × Db) → delete_comment k (session_user h s) c db ≡ t
          → ((handle_delete_comment h r c db s).db ≡ db)
            ⊎ IsDeleted r c db s (handle_delete_comment h r c db s)
      deleted user k n t made =
          let passed : (handle_delete_comment h r c db s).db ≡ t.1 =
            ground (arith, user, n, ap (λ x. (answer_delete h r s x).db) made, answered t) in
          elim (delete_comment_cases k (session_user h s) c db t made) [
            | inl same ↦ inl (passed ∙ same)
            | inr (old, found, same) ↦ inr (record {
              comment_id = k;
              named = n;
              anybody = user;
              old = old;
              found = found;
              gone = passed ∙ same;
            })
          ]
