-- ===== src/Handlers/Auth.antt =====
-- internal/handlers/auth.go: registration, login and logout.
use blogengine.Prelude.{ℕ, Bool, [], Option, not, ◌||◌, none, some, length, ltb, if◌then◌else◌}
use blogengine.Prelude.Text.{Text, codes, text_eq, lower_ascii, trim_space}
use blogengine.Errors.{Sentinel, Result, ok, err, errors_is_not_found, errors_is_unique_violation}
use blogengine.Storage.{User}
use blogengine.Sqlite.Database.{Db, Call}
use blogengine.Sqlite.Users.{create_user, get_user_by_username}
use blogengine.Handlers.Web.{
  Request, BlogHandler, Outcome, redirect, shows, register, login, user_id_key, username_key,
  new_common_data, internal_error, answers, is_logged_in,
}

-- strings.EqualFold, of texts in ASCII
unfoldable pub equal_fold : Text → Text → Bool
equal_fold a b = text_eq (lower_ascii a) (lower_ascii b)

abbrev pub given_username : Request → Text
given_username r = trim_space (r.form_value (codes "username"))

abbrev pub given_password : Request → Text
given_password r = r.form_value (codes "password")

abbrev pub is_confirmed : Request → Bool
is_confirmed r = text_eq (given_password r) (r.form_value (codes "confirm_password"))

abbrev pub is_too_short : Request → Bool
is_too_short r = ltb (length (given_username r)) 3 || ltb (length (given_password r)) 8

module _ {S : Type 0} (h : BlogHandler S) where
  unfoldable pub handle_register_page : Db → S → Outcome S
  handle_register_page db s =
      if is_logged_in h s
      then answers h (redirect (codes "/")) db s
      else answers h (shows 200 (register (new_common_data h s) [] h.needs_invite)) db s

  -- the form again, with a status and a message
  abbrev pub refuse_register : ℕ → Text → Db → S → Outcome S
  refuse_register code message db s =
      answers h (shows code (register (new_common_data h s) message h.needs_invite)) db s

  -- the answer to what CreateUser returned
  abbrev pub answer_register : Result User × Db → S → Outcome S
  answer_register (ok u, db') s = answers h (redirect (codes "/login")) db' s
  answer_register (err e, db') s =
      if errors_is_unique_violation e
      then refuse_register 409 (codes "Username already taken.") db' s
      else internal_error h db' s

  -- what follows the checks of HandleRegister: the hash and the new row
  unfoldable pub register_user : Request → Call → Db → S → Outcome S
  unfolding internal_error
  register_user r c db s = elim (h.hashing.generate (given_password r)) [
    | err e ↦ internal_error h db s
    | ok hash ↦ answer_register (create_user (given_username r) hash c db) s
  ]

  abbrev pub has_invite : Request → Bool
  has_invite r =
      not h.needs_invite
      || equal_fold (trim_space (r.form_value (codes "invite_code"))) h.invite_code

  unfoldable pub handle_register : Request → Call → Db → S → Outcome S
  unfolding register_user equal_fold
  handle_register r c db s =
      if is_logged_in h s
      then answers h (redirect (codes "/")) db s
      else if not (has_invite r)
      then refuse_register 401 (codes "Invalid invite code.") db s
      else if not (is_confirmed r)
      then refuse_register 400 (codes "Passwords do not match.") db s
      else if is_too_short r
      then refuse_register 400 (codes "Inputs too short.") db s
      else register_user r c db s

  unfoldable pub handle_login_page : Db → S → Outcome S
  handle_login_page db s =
      if is_logged_in h s
      then answers h (redirect (codes "/")) db s
      else answers h (shows 200 (login (new_common_data h s) [])) db s

  abbrev pub refuse_login : Db → S → Outcome S
  refuse_login db s =
      answers h (shows 401 (login (new_common_data h s) (codes "Invalid username or password."))) db
        s

  -- the two values that a login puts in the session: the name is the one that was typed
  abbrev pub put_user : User → Text → S → S
  put_user u username s =
      h.sessions.put_string username_key username (h.sessions.put_int64 user_id_key u.id s)

  -- what follows the check of the password, by what RenewToken returned
  abbrev pub open_session : User → Text → Db → Option Sentinel × S → Outcome S
  open_session u username db (some e, s') = internal_error h db s'
  open_session u username db (none, s') =
      answers h (redirect (codes "/")) db (put_user u username s')

  unfoldable pub handle_login : Request → Call → Db → S → Outcome S
  unfolding internal_error
  handle_login r c db s =
      if is_logged_in h s
      then answers h (redirect (codes "/")) db s
      else elim (get_user_by_username (given_username r) c db).0 [
        | err e ↦ if errors_is_not_found e then refuse_login db s else internal_error h db s
        | ok u ↦
            if not (h.hashing.compare u.password_hash (given_password r))
            then refuse_login db s
            else open_session u (given_username r) db (h.sessions.renew_token s)
      ]

  abbrev pub close_session : Db → Option Sentinel × S → Outcome S
  close_session db (some e, s') = internal_error h db s'
  close_session db (none, s') = answers h (redirect (codes "/")) db s'

  unfoldable pub handle_logout : Db → S → Outcome S
  unfolding internal_error
  handle_logout db s = close_session db (h.sessions.destroy s)
