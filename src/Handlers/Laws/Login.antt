-- ===== src/Handlers/Laws/Login.antt =====
-- The login: who gets a session, and what the form tells about accounts.
use blogengine.Prelude.{
  ◌≡◌, refl, sym, ap, ◌∙◌, ◌⊎◌, inl, inr, true, false, ◌&&◌, [], ◌∷◌, Option, none, some, find,
  arith, Bool-cases,
}
use blogengine.Prelude.Text.{Text, codes}
use blogengine.Errors.{Sentinel, Result, ok, err, errors_is_not_found, err_not_found, map_sql_error}
use blogengine.Storage.{User}
use blogengine.Sqlite.Database.{Db, Call, is_live, same_name}
use blogengine.Sqlite.Users.{get_user_by_username}
use blogengine.Handlers.Web.{
  IsSessions, Request, BlogHandler, Outcome, redirect, user_id_key, username_key, internal_error,
  is_logged_in,
}
use blogengine.Handlers.Auth.{
  given_username, given_password, handle_login, refuse_login, open_session,
}

-- the live account that a name finds, whatever the case of its letters
abbrev pub account : Text → Db → Option User
account username db = find (λ u. same_name u.username username && is_live u.deleted_at) db.users

pub lookup_account :
    (username : Text) (c : Call) (db : Db) {u : User}
    → (get_user_by_username username c db).0 ≡ ok u
    → account username db ≡ some u
unfolding get_user_by_username
lookup_account username c db h = ground arith

module _ {S : Type 0} (h : BlogHandler S) where
  -- HandleLogin lets in the user whose live account has the name and the password of the form.
  pub record IsLoggedIn (r : Request) (db : Db) (o : Outcome S) : Type 0 where
    pub user : User
    pub known : account (given_username r) db ≡ some user
    pub password : h.hashing.compare user.password_hash (given_password r) ≡ true
    pub session : h.sessions.get_int64 user_id_key o.session ≡ user.id
    pub name : h.sessions.get_string username_key o.session ≡ given_username r
    pub response : o.response ≡ redirect (codes "/")

  module _ (m : IsSessions h.sessions) where
    is_logged_in_renewed :
        (s s' : S) {e : Option Sentinel}
        → h.sessions.renew_token s ≡ (e, s')
        → is_logged_in h s' ≡ is_logged_in h s
    is_logged_in_renewed s s' {e} q =
        ap (λ (x : Option Sentinel × S). is_logged_in h x.1) (sym q)
        ∙ m.exists-renew_token user_id_key s

    opened :
        (r : Request) (db : Db) (s : S) (u : User)
        → is_logged_in h s ≡ false
        → account (given_username r) db ≡ some u
        → h.hashing.compare u.password_hash (given_password r) ≡ true
        → is_logged_in h (open_session h u (given_username r) db (h.sessions.renew_token s)).session
          ≡ true
        → IsLoggedIn r db (open_session h u (given_username r) db (h.sessions.renew_token s))
    unfolding internal_error
    opened r db s u out known password inside = renewed (h.sessions.renew_token s) refl inside
      where
        renewed :
            (t : Option Sentinel × S)
            → h.sessions.renew_token s ≡ t
            → is_logged_in h (open_session h u (given_username r) db t).session ≡ true
            → IsLoggedIn r db (open_session h u (given_username r) db t)
        renewed (some e, s') q inside =
            absurd (ground (arith, inside, out, is_logged_in_renewed s s' {e = some e} q))
        renewed (none, s') q inside = record {
          user = u;
          known = known;
          password = password;
          session =
              m.get_int64-put_string user_id_key username_key (given_username r)
                (h.sessions.put_int64 user_id_key u.id s') refl
              ∙ m.get-put_int64 user_id_key u.id s';
          name =
              m.get-put_string username_key (given_username r)
                (h.sessions.put_int64 user_id_key u.id s');
          response = refl;
        }

    pub open_session_lem :
        (u : User) (username : Text) (db : Db) (s : S)
        → (h.sessions.renew_token s).0 ≡ none
        → ((open_session h u username db (h.sessions.renew_token s)).response
            ≡ redirect (codes "/"))
          × (h.sessions.get_int64 user_id_key
                (open_session h u username db (h.sessions.renew_token s)).session
              ≡ u.id)
    open_session_lem u username db s renews = renewed (h.sessions.renew_token s) renews
      where
        renewed :
            (t : Option Sentinel × S)
            → t.0 ≡ none
            → ((open_session h u username db t).response ≡ redirect (codes "/"))
              × (h.sessions.get_int64 user_id_key (open_session h u username db t).session ≡ u.id)
        renewed (some e, s') q = absurd (ground arith)
        renewed (none, s') q = (
          refl,
          m.get_int64-put_string user_id_key username_key username
                (h.sessions.put_int64 user_id_key u.id s') refl
              ∙ m.get-put_int64 user_id_key u.id s',
        )

    -- A session that held no user holds one after HandleLogin only if the form had the name and the
    -- password of a live account; it then holds that user's key and the name as it was typed.
    pub handle_login-IsLoggedIn :
        (r : Request) (c : Call) (db : Db) (s : S)
        → is_logged_in h s ≡ false
        → is_logged_in h (handle_login h r c db s).session ≡ true
        → IsLoggedIn r db (handle_login h r c db s)
    unfolding handle_login internal_error
    handle_login-IsLoggedIn r c db s out inside =
        looked_up (get_user_by_username (given_username r) c db).0 refl
      where
        looked_up :
            (t : Result User)
            → (get_user_by_username (given_username r) c db).0 ≡ t
            → IsLoggedIn r db (handle_login h r c db s)
        looked_up (err e) q =
            absurd (ground (arith, out, inside, q, Bool-cases (errors_is_not_found e)))
        looked_up (ok u) q =
            elim (Bool-cases (h.hashing.compare u.password_hash (given_password r))) [
              | inr wrong ↦ absurd (ground (arith, out, inside, q, wrong))
              | inl right ↦
                  let passed : handle_login h r c db s
                      ≡ open_session h u (given_username r) db (h.sessions.renew_token s) =
                    ground (arith, out, q, right) in
                  let known = lookup_account (given_username r) c db {u = u} q in
                  rw passed (
                    opened r db s u out known right
                      (ap (λ (o : Outcome S). is_logged_in h o.session) (sym passed) ∙ inside))
            ]

  lookup_of_account :
      (username : Text) (c : Call) (db : Db) {u : User}
      → c.fault ≡ none
      → account username db ≡ some u
      → (get_user_by_username username c db).0 ≡ ok u
  unfolding get_user_by_username
  lookup_of_account username c db calm h = ground (arith, calm, h)

  lookup_of_none :
      (username : Text) (c : Call) (db : Db)
      → c.fault ≡ none
      → account username db ≡ none
      → (get_user_by_username username c db).0 ≡ err (err_not_found ∷ [])
  unfolding get_user_by_username map_sql_error
  lookup_of_none username c db calm h = ground (arith, calm, h)

  -- A name without a live account and a wrong password get one and the same answer, and leave the
  -- session and the database alone: the form does not tell which names have an account. (The driver
  -- meets no error.)
  pub handle_login_refused :
      (r : Request) (c : Call) (db : Db) (s : S)
      → is_logged_in h s ≡ false
      → c.fault ≡ none
      → (account (given_username r) db ≡ none)
        ⊎ ((u : User) × (account (given_username r) db ≡ some u)
            × (h.hashing.compare u.password_hash (given_password r) ≡ false))
      → handle_login h r c db s ≡ refuse_login h db s
  unfolding handle_login errors_is_not_found
  handle_login_refused r c db s out calm (inl missing) =
      ground (arith, out, lookup_of_none (given_username r) c db calm missing)
  handle_login_refused r c db s out calm (inr (u, known, wrong)) =
      ground (arith, out, lookup_of_account (given_username r) c db {u = u} calm known, wrong)

  pub handle_login_accepted :
      (r : Request) (c : Call) (db : Db) (s : S) (u : User)
      → is_logged_in h s ≡ false
      → c.fault ≡ none
      → account (given_username r) db ≡ some u
      → h.hashing.compare u.password_hash (given_password r) ≡ true
      → handle_login h r c db s ≡ open_session h u (given_username r) db (h.sessions.renew_token s)
  unfolding handle_login
  handle_login_accepted r c db s u out calm known right =
      ground (arith, out, lookup_of_account (given_username r) c db {u = u} calm known, right)
