-- ===== src/Handlers/Comment.antt =====
-- internal/handlers/comment.go: the comment form and the deletion of a comment.
use blogengine.Prelude.{not, ◌||◌, ◌++◌, none, some, length, ltb, if◌then◌else◌}
use blogengine.Prelude.Int.{ℤ, pos, ◌==ℤ◌}
use blogengine.Prelude.Text.{Text, codes, is_empty, trim_space}
use blogengine.Errors.{Result, ok, err, errors_is_not_found}
use blogengine.Storage.{Comment, Post}
use blogengine.Sqlite.Database.{Db, Call}
use blogengine.Sqlite.Comments.{create_comment, delete_comment}
use blogengine.Sqlite.Posts.Queries.{get_post_by_slug_or_public_id}
use blogengine.Strconv.{parse_int}
use blogengine.Handlers.Web.{
  Request, BlogHandler, Outcome, redirect, user_id_key, internal_error, unauthorised, not_found,
  answers,
}

abbrev pub blog_slug : Request → Text
blog_slug r = r.path_value (codes "blog_slug")

abbrev pub post_slug : Request → Text
post_slug r = r.path_value (codes "post_slug")

-- fmt.Sprintf("/blogs/%s/%s", blogSlug, postSlug)
abbrev pub redirect_to : Request → Text
redirect_to r = codes "/blogs/" ++ blog_slug r ++ codes "/" ++ post_slug r

abbrev pub given_content : Request → Text
given_content r = trim_space (r.form_value (codes "content"))

module _ {S : Type 0} (h : BlogHandler S) where
  abbrev pub session_user : S → ℤ
  session_user s = h.sessions.get_int64 user_id_key s

  -- the answer to what CreateComment returned
  abbrev pub answer_comment : Request → S → Result Comment × Db → Outcome S
  answer_comment r s (ok _, db') = answers h (redirect (redirect_to r)) db' s
  answer_comment r s (err e, db') = internal_error h db' s

  -- what follows the lookup of the post
  unfoldable pub save_comment : Request → Post → Call → Db → S → Outcome S
  unfolding internal_error
  save_comment r post c db s =
      if is_empty (given_content r) || ltb 1000 (length (given_content r))
      then answers h (redirect (redirect_to r)) db s
      else answer_comment r s (create_comment post.id (session_user s) (given_content r) c db)

  -- `q` is the call that looks for the post, `c` the one that saves the comment
  unfoldable pub handle_comment : Request → (q c : Call) → Db → S → Outcome S
  unfolding save_comment unauthorised not_found
  handle_comment r q c db s =
      if session_user s ==ℤ pos 0
      then unauthorised h db s
      else if not (is_empty (r.form_value (codes "website")))
      then answers h (redirect r.referer) db s
      else elim (get_post_by_slug_or_public_id (blog_slug r) (post_slug r) q db).0 [
        | err e ↦ not_found h db s
        | ok post ↦ save_comment r post c db s
      ]

  -- the answer to what DeleteComment returned
  abbrev pub answer_delete : Request → S → Result (Unit {0}) × Db → Outcome S
  answer_delete r s (ok _, db') = answers h (redirect (redirect_to r)) db' s
  answer_delete r s (err e, db') =
      if errors_is_not_found e then not_found h db' s else internal_error h db' s

  unfoldable pub handle_delete_comment : Request → Call → Db → S → Outcome S
  unfolding unauthorised not_found internal_error parse_int
  handle_delete_comment r c db s =
      if session_user s ==ℤ pos 0
      then unauthorised h db s
      else elim (parse_int (r.path_value (codes "commentID"))) [
        | none ↦ not_found h db s
        | some comment_id ↦ answer_delete r s (delete_comment comment_id (session_user s) c db)
      ]
