-- ===== src/Sqlite/Comments.antt =====
-- storage/sqlite/comments.go. The queries leave `user_id` and `updated_at` of a `Comment` nil where
-- they do not select them.
use blogengine.Prelude.{suc, Bool, false, ◌&&◌, List, [], map, Option, none, some, find, select}
use blogengine.Prelude.Int.{ℤ, pos, ◌==ℤ◌}
use blogengine.Prelude.Text.{Text, codes}
use blogengine.Errors.{ok, err}
use blogengine.Storage.{User, Comment}
use blogengine.Sqlite.Table.{done, failed, insert, update}
use blogengine.Sqlite.Database.{
  Db, Call, CommentRow, is_live, has_user, comment_schema, limit_rows, offset_rows, order_desc,
}
use blogengine.Sqlite.Query.{Op, exec, get, answer, affected, mapped}
use blogengine.Sqlite.Validate.{validate_content}

-- c.user_id = k: a NULL equals nothing
unfoldable pub is_by : ℤ → CommentRow → Bool
is_by k c = elim c.user_id [ none ↦ false | some j ↦ j ==ℤ k ]

abbrev name_of : Option User → Text → Text
name_of none other = other
name_of (some u) other = u.username

-- LEFT JOIN users ON c.user_id = u.id, and COALESCE(u.username, 'deleted user')
unfoldable pub author_of : Db → Option ℤ → Text
author_of db none = codes "deleted user"
author_of db (some k) = name_of (find (λ u. u.id ==ℤ k) db.users) (codes "deleted user")

-- (SELECT username FROM users WHERE id = ?); the foreign key keeps it from being NULL
abbrev username_of : Db → ℤ → Text
username_of db k = name_of (find (λ u. u.id ==ℤ k) db.users) []

unfoldable pub read_comment : Db → CommentRow → Comment
unfolding author_of
read_comment db c = record {
  id = c.id;
  post_id = c.post_id;
  user_id = none;
  content = c.content;
  author_name = author_of db c.user_id;
  created_at = c.created_at;
  updated_at = none;
  deleted_at = c.deleted_at;
}

unfoldable pub get_comment_by_id : ℤ → Op Comment
unfolding read_comment
get_comment_by_id comment_id c db = (
  elim (get c (find (λ r. r.id ==ℤ comment_id && is_live r.deleted_at) db.comments)) [
    | failed e ↦ err (mapped e)
    | done r ↦ ok (read_comment db r)
  ],
  db,
)

unfoldable pub get_comments_for_post : (post_id offset limit : ℤ) → Op (List Comment)
unfolding read_comment
get_comments_for_post post_id offset limit c db =
    let found = select (λ r. r.post_id ==ℤ post_id && is_live r.deleted_at) db.comments in
    let page = limit_rows limit (offset_rows offset (order_desc (λ r. r.created_at) found)) in
    (answer (exec c (done (map (read_comment db) page))) mapped, db)

unfoldable pub get_comments_for_user_id : (user_id offset limit : ℤ) → Op (List Comment)
unfolding read_comment is_by
get_comments_for_user_id user_id offset limit c db =
    let found = select (λ r. is_by user_id r && is_live r.deleted_at) db.comments in
    let page = limit_rows limit (offset_rows offset (order_desc (λ r. r.created_at) found)) in
    (answer (exec c (done (map (read_comment db) page))) mapped, db)

abbrev pub new_comment : Call → Db → ℤ → ℤ → Text → CommentRow
new_comment c db post_id user_id content = record {
  id = pos (suc db.comment_seq);
  post_id = post_id;
  user_id = some user_id;
  content = content;
  created_at = c.now;
  updated_at = c.now;
  deleted_at = none;
}

abbrev created_comment : Db → CommentRow → ℤ → Comment
created_comment db r user_id = record {
  id = r.id;
  post_id = r.post_id;
  user_id = none;
  content = r.content;
  author_name = username_of db user_id;
  created_at = r.created_at;
  updated_at = none;
  deleted_at = none;
}

abbrev updated_comment : Db → CommentRow → ℤ → Comment
updated_comment db r user_id = record {
  id = r.id;
  post_id = r.post_id;
  user_id = r.user_id;
  content = r.content;
  author_name = username_of db user_id;
  created_at = r.created_at;
  updated_at = some r.updated_at;
  deleted_at = none;
}

unfoldable pub create_comment : (post_id user_id : ℤ) → Text → Op Comment
unfolding validate_content
create_comment post_id user_id content c db = elim (validate_content content) [
  | some e ↦ (err e, db)
  | none ↦
      let r = new_comment c db post_id user_id content in
      elim (exec c (insert comment_schema r (has_user db user_id) db.comments)) [
        | failed e ↦ (err (mapped e), db)
        | done rows ↦ (
          ok (created_comment db r user_id),
          record db { comments = rows; comment_seq = suc db.comment_seq },
        )
      ]
]

-- trg_comments_updated_at
abbrev pub touch_comment : Call → CommentRow → CommentRow
touch_comment c r = record r { updated_at = c.now }

abbrev pub owned : ℤ → ℤ → CommentRow → Bool
owned comment_id user_id r = r.id ==ℤ comment_id && is_by user_id r && is_live r.deleted_at

unfoldable pub update_comment : (comment_id user_id : ℤ) → Text → Op Comment
unfolding validate_content is_by
update_comment comment_id user_id content c db = elim (validate_content content) [
  | some e ↦ (err e, db)
  | none ↦
      elim (exec c (
        update comment_schema (owned comment_id user_id)
          (λ r. record r { content = content; updated_at = c.now }) (touch_comment c)
          db.comments)) [
            | failed e ↦ (err (mapped e), db)
            | done (hit, rows) ↦ elim (get c hit) [
              | failed e ↦ (err (mapped e), record db { comments = rows })
              | done r ↦ (ok (updated_comment db r user_id), record db { comments = rows })
            ]
          ]
]

unfoldable pub delete_comment : (comment_id user_id : ℤ) → Op (Unit {0})
unfolding is_by
delete_comment comment_id user_id c db =
    elim (exec c (
      update comment_schema (owned comment_id user_id) (λ r. record r { deleted_at = some c.now })
        (touch_comment c) db.comments)) [
          | failed e ↦ (err (mapped e), db)
          | done (hit, rows) ↦ (affected c hit mapped, record db { comments = rows })
        ]
