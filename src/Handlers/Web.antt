-- ===== src/Handlers/Web.antt =====
-- internal/handlers/blog.go and errors.go: what a handler is given and what it answers with. The
-- session manager (scs), bcrypt, the object store and the markdown renderer are parameters, the
-- first two with the behaviour that their documentation gives. Logs, spans and the CSRF token of a
-- page are left out.
use blogengine.Prelude.{ℕ, ◌≡◌, Bool, true, false, List, Option, none}
use blogengine.Prelude.Int.{ℤ, pos}
use blogengine.Prelude.Text.{Text, codes, text_eq}
use blogengine.Errors.{Sentinel, Result, ok}
use blogengine.Storage.{Blog, Post, Comment}
use blogengine.Sqlite.Database.{Db}

-- scs.SessionManager, on the session of one request
pub record Sessions (S : Type 0) : Type 0 where
  pub exists : Text → S → Bool
  pub get_int64 : Text → S → ℤ
  pub get_string : Text → S → Text
  pub put_int64 : Text → ℤ → S → S
  pub put_string : Text → Text → S → S
  pub renew_token : S → Option Sentinel × S
  pub destroy : S → Option Sentinel × S

-- A value that was put is there until another is put under its key or the session is destroyed; the
-- getters return the zero value for a key that is not there.
pub record IsSessions {S : Type 0} (m : Sessions S) : Type 0 where
  pub exists-put_int64 : (k : Text) (v : ℤ) (s : S) → m.exists k (m.put_int64 k v s) ≡ true
  pub get-put_int64 : (k : Text) (v : ℤ) (s : S) → m.get_int64 k (m.put_int64 k v s) ≡ v
  pub exists-put_string :
      (k l v : Text) (s : S) → text_eq k l ≡ false → m.exists k (m.put_string l v s) ≡ m.exists k s
  pub get_int64-put_string :
      (k l v : Text) (s : S)
      → text_eq k l ≡ false
      → m.get_int64 k (m.put_string l v s) ≡ m.get_int64 k s
  pub get-put_string : (k v : Text) (s : S) → m.get_string k (m.put_string k v s) ≡ v
  pub exists-renew_token : (k : Text) (s : S) → m.exists k (m.renew_token s).1 ≡ m.exists k s
  pub exists-destroy :
      (k : Text) (s : S) → (m.destroy s).0 ≡ none → m.exists k (m.destroy s).1 ≡ false
  pub get_absent : (k : Text) (s : S) → m.exists k s ≡ false → m.get_int64 k s ≡ pos 0

-- golang.org/x/crypto/bcrypt: `compare` is true if CompareHashAndPassword returns no error
pub record Hashing : Type 0 where
  pub generate : Text → Result Text
  pub compare : (hash password : Text) → Bool

-- A hash matches the password that it was made of.
pub record IsHashing (m : Hashing) : Type 0 where
  pub compare-generate :
      (password : Text) {hash : Text}
      → m.generate password ≡ ok hash
      → m.compare hash password ≡ true

-- what a handler reads of a request; a form value or path value that is missing is empty
pub record Request : Type 0 where
  pub form_value : Text → Text
  pub path_value : Text → Text
  pub referer : Text

-- `read_object` is S3.Open and io.ReadAll of what it returns.
pub record BlogHandler (S : Type 0) : Type 0 where
  pub title : Text
  pub needs_invite : Bool
  pub invite_code : Text
  pub sessions : Sessions S
  pub hashing : Hashing
  pub read_object : Text → Result Text
  pub render : Text → Result Text

pub record CommonData : Type 0 where
  pub title : Text
  pub username : Text

-- the components that the handlers render, with their arguments
pub data Page : Type 0 where
  register : CommonData → (message : Text) → (needs_invite : Bool) → Page
  login : CommonData → (message : Text) → Page
  error_page : CommonData → ℕ → (title message : Text) → Page
  home : List Blog → List Post → CommonData → Page
  blog : Blog → List Post → CommonData → Page
  post : CommonData → Post → (body : Text) → List Comment → Page
  about contact terms privacy : CommonData → Page

-- http.Redirect with StatusSeeOther, or a status and a page; the status is 200 if none is written
pub data Response : Type 0 where
  redirect : Text → Response
  shows : ℕ → Page → Response

-- the response, the database and the session after it
pub record Outcome (S : Type 0) : Type 0 where
  pub response : Response
  pub db : Db
  pub session : S

abbrev pub user_id_key : Text
user_id_key = codes "userID"

abbrev pub username_key : Text
username_key = codes "username"

module _ {S : Type 0} (h : BlogHandler S) where
  abbrev pub get_user_from_session : S → Text
  get_user_from_session s = h.sessions.get_string username_key s

  abbrev pub new_common_data : S → CommonData
  new_common_data s = record { title = h.title; username = get_user_from_session s }

  unfoldable pub render_error : ℕ → (title message : Text) → Db → S → Outcome S
  render_error code title message db s = record {
    response = shows code (error_page (new_common_data s) code title message);
    db = db;
    session = s;
  }

  unfoldable pub internal_error : Db → S → Outcome S
  unfolding render_error
  internal_error db s =
      render_error 500 (codes "Internal Server Error")
        (codes "Something went wrong on our end. We've logged the error and will look into it.") db
        s

  unfoldable pub unauthorised : Db → S → Outcome S
  unfolding render_error
  unauthorised db s =
      render_error 401 (codes "Unauthorised")
        (codes "You need to be logged in to access this page or perform this action.") db s

  unfoldable pub not_found : Db → S → Outcome S
  unfolding render_error
  not_found db s =
      render_error 404 (codes "Page Not Found")
        (codes "The page you are looking for doesn't exist or has been moved.") db s

  -- a response that leaves the state alone
  abbrev pub answers : Response → Db → S → Outcome S
  answers r db s = record { response = r; db = db; session = s }

  -- h.Sessions.Manager.Exists(ctx, "userID")
  abbrev pub is_logged_in : S → Bool
  is_logged_in s = h.sessions.exists user_id_key s
