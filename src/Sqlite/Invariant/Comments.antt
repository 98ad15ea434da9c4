-- ===== src/Sqlite/Invariant/Comments.antt =====
-- The methods of comments.go keep the database well formed.
use blogengine.Prelude.{
  ℕ, suc, ◌≡◌, refl, Bool, true, inl, inr, List, Option, some, arith, Option-cases,
}
use blogengine.Prelude.Int.{ℤ}
use blogengine.Prelude.Text.{Text}
use blogengine.Sqlite.Table.{insert, update, done}
use blogengine.Sqlite.Database.{Db, Call, CommentRow, comment_schema, has_user}
use blogengine.Sqlite.Query.{exec}
use blogengine.Sqlite.Validate.{validate_content}
use blogengine.Sqlite.Comments.{
  new_comment, touch_comment, owned, create_comment, update_comment, delete_comment,
}
use blogengine.Sqlite.Invariant.Tables.{IsSound}
use blogengine.Sqlite.Invariant.Statements.{insert-IsSound, update-IsSound}
use blogengine.Sqlite.Invariant.Rows.{Reply-cases, exec-done, insert-done, All-update}
use blogengine.Sqlite.Invariant.WellFormed.{IsWellFormed, comment_schema-IsSymmetric, author_known}
use blogengine.Prelude.{All}

-- A change of the comments alone.
with_comments :
    (db : Db) (comments' : List CommentRow) (seq' : ℕ)
    → IsWellFormed db
    → IsSound comment_schema seq' comments'
    → All (λ r. author_known db.users r ≡ true) comments'
    → IsWellFormed (record db { comments = comments'; comment_seq = seq' })
with_comments db comments' seq' w sound known = record {
  users = w.users;
  comments = sound;
  blogs = w.blogs;
  posts = w.posts;
  comment_authors = known;
  blog_owners = w.blog_owners;
  post_parents = w.post_parents;
}

pub create_comment-IsWellFormed :
    (post_id user_id : ℤ) (content : Text) (c : Call) (db : Db)
    → IsWellFormed db
    → IsWellFormed (create_comment post_id user_id content c db).1
unfolding create_comment
create_comment-IsWellFormed post_id user_id content c db w =
    let r = new_comment c db post_id user_id content in
    let stmt = insert comment_schema r (has_user db user_id) db.comments in
    elim (Option-cases (validate_content content)) [
      | inr (e, v) ↦ rw (v, create_comment) w
      | inl v ↦ elim (Reply-cases (exec c stmt)) [
        | inl (e, p) ↦ rw (v, p, create_comment) w
        | inr (rows, p) ↦
            let q = exec-done c stmt p in
            let (grown, known) = insert-done comment_schema r (has_user db user_id) db.comments q in
            rw (v, p, create_comment)
              (with_comments db rows (suc db.comment_seq) w
                (insert-IsSound comment_schema db.comment_seq r (has_user db user_id) db.comments
                  refl w.comments q)
                (rw grown (known, w.comment_authors)))
      ]
    ]

-- Any UPDATE of one comment that keeps its key and its author.
module _ (where_ : CommentRow → Bool) (assign : CommentRow → CommentRow) (c : Call)
    (keeps_id : (x : CommentRow) → (assign x).id ≡ x.id)
    (keeps_author : (x : CommentRow) → (assign x).user_id ≡ x.user_id) where
  update_comment_row-IsWellFormed :
      (db : Db) {hit : Option CommentRow} {rows : List CommentRow}
      → IsWellFormed db
      → exec c (update comment_schema where_ assign (touch_comment c) db.comments)
        ≡ done (hit, rows)
      → IsWellFormed (record db { comments = rows })
  update_comment_row-IsWellFormed db {hit} {rows} w p =
      let q = exec-done c (update comment_schema where_ assign (touch_comment c) db.comments) p in
      with_comments db rows db.comment_seq w
        (update-IsSound comment_schema comment_schema-IsSymmetric where_ assign (touch_comment c)
          keeps_id db.comment_seq db.comments hit rows w.comments q)
        (All-update comment_schema where_ assign (touch_comment c)
          (λ r. author_known db.users r ≡ true) (λ x h. rw (keeps_author x) h) db.comments hit rows
          w.comment_authors q)

pub update_comment-IsWellFormed :
    (comment_id user_id : ℤ) (content : Text) (c : Call) (db : Db)
    → IsWellFormed db
    → IsWellFormed (update_comment comment_id user_id content c db).1
unfolding update_comment
update_comment-IsWellFormed comment_id user_id content c db w =
    let assign = λ (r : CommentRow). record r { content = content; updated_at = c.now } in
    let stmt =
      update comment_schema (owned comment_id user_id) assign (touch_comment c) db.comments in
    elim (Option-cases (validate_content content)) [
      | inr (e, v) ↦ rw (v, update_comment) w
      | inl v ↦ elim (Reply-cases (exec c stmt)) [
        | inl (e, p) ↦ rw (v, p, update_comment) w
        | inr ((hit, rows), p) ↦
            let w' =
              update_comment_row-IsWellFormed (owned comment_id user_id) assign c (λ x. refl)
                (λ x. refl) db w p in
            ground (arith, w', v, p)
      ]
    ]

pub delete_comment-IsWellFormed :
    (comment_id user_id : ℤ) (c : Call) (db : Db)
    → IsWellFormed db
    → IsWellFormed (delete_comment comment_id user_id c db).1
unfolding delete_comment
delete_comment-IsWellFormed comment_id user_id c db w =
    let assign = λ (r : CommentRow). record r { deleted_at = some c.now } in
    let stmt =
      update comment_schema (owned comment_id user_id) assign (touch_comment c) db.comments in
    elim (Reply-cases (exec c stmt)) [
      | inl (e, p) ↦ rw (p, delete_comment) w
      | inr ((hit, rows), p) ↦
          rw (p, delete_comment)
            (update_comment_row-IsWellFormed (owned comment_id user_id) assign c (λ x. refl)
              (λ x. refl) db w p)
    ]
