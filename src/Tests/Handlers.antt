-- ===== src/Tests/Handlers.antt =====
-- A visitor of the small database registers, logs in and writes a comment.
use blogengine.Prelude.{
  ◌≡◌, ◌⊎◌, inl, refl, true, false, ◌||◌, [], Option, none, some, is_some, arith, if◌then◌else◌,
}
use blogengine.Prelude.Int.{ℤ, pos}
use blogengine.Prelude.Text.{Text, codes, text_eq, text_eq_refl, lower_ascii, trim_space}
use blogengine.Errors.{ok}
use blogengine.Storage.{User}
use blogengine.Sqlite.Table.{insert}
use blogengine.Sqlite.Database.{calm, same_name, user_check, char_count}
use blogengine.Sqlite.Users.{create_user, get_user_by_username}
use blogengine.Handlers.Web.{
  Sessions, IsSessions, Hashing, IsHashing, Request, BlogHandler, redirect, user_id_key,
  is_logged_in,
}
use blogengine.Handlers.Auth.{handle_register, handle_login, refuse_login, given_username}
use blogengine.Handlers.Comment.{handle_comment, handle_delete_comment}
use blogengine.Handlers.Laws.Login.{
  account, IsLoggedIn, handle_login-IsLoggedIn, handle_login_refused,
}
use blogengine.Handlers.Laws.Registration.{
  IsRegistered, handle_register_cases, login_after_register,
}
use blogengine.Handlers.Laws.Comments.{IsCommented, handle_comment_cases}
use blogengine.Handlers.Laws.CommentDeletion.{IsDeleted, handle_delete_comment_cases}
use blogengine.Tests.World.{hash_text, world}

-- A session as two finite maps.
pub record Session : Type 0 where
  pub ints : Text → Option ℤ
  pub strings : Text → Option Text

abbrev pub nobody : Session
nobody = record { ints = λ k. none; strings = λ k. none }

abbrev or_zero : Option ℤ → ℤ
or_zero none = pos 0
or_zero (some v) = v

abbrev or_empty : Option Text → Text
or_empty none = []
or_empty (some v) = v

abbrev set {ℓ} : {A : Type ℓ} → Text → A → (Text → Option A) → Text → Option A
set k v f j = if text_eq j k then some v else f j

abbrev map_sessions : Sessions Session
map_sessions = record {
  exists = λ k s. is_some (s.ints k) || is_some (s.strings k);
  get_int64 = λ k s. or_zero (s.ints k);
  get_string = λ k s. or_empty (s.strings k);
  put_int64 = λ k v s. record s { ints = set k v s.ints };
  put_string = λ k v s. record s { strings = set k v s.strings };
  renew_token = λ s. (none, s);
  destroy = λ s. (none, nobody);
}

map_sessions-IsSessions : IsSessions map_sessions
map_sessions-IsSessions = record {
  exists-put_int64 = λ k v s. rw (text_eq_refl k) refl;
  get-put_int64 = λ k v s. rw (text_eq_refl k) refl;
  exists-put_string = λ k l v s h. rw h refl;
  get_int64-put_string = λ k l v s h. refl;
  get-put_string = λ k v s. rw (text_eq_refl k) refl;
  exists-renew_token = λ k s. refl;
  exists-destroy = λ k s h. refl;
  get_absent = λ k s h. ground (arith, h);
}

-- a hash that keeps no secret
abbrev open_hash : Text → Text
open_hash password = password

abbrev plain_hashing : Hashing
plain_hashing = record { generate = λ p. ok p; compare = λ hash p. text_eq hash p }

plain_hashing-IsHashing : IsHashing plain_hashing
plain_hashing-IsHashing = record {
  compare-generate = λ password {hash} h. ground (arith, h, text_eq_refl hash);
}

abbrev pub site : BlogHandler Session
site = record {
  title = codes "Blog";
  needs_invite = false;
  invite_code = [];
  sessions = map_sessions;
  hashing = plain_hashing;
  read_object = λ k. ok [];
  render = λ t. ok t;
}

-- a form with a name and a password, which is confirmed
abbrev pub name_form : Text → Text → Text → Text
name_form username password k =
    if text_eq k (codes "username")
    then username
    else if text_eq k (codes "password") || text_eq k (codes "confirm_password")
    then password
    else []

abbrev sends : Text → Text → Request
sends username password = record {
  form_value = name_form username password;
  path_value = λ k. [];
  referer = [];
}

abbrev ada_login : Request
ada_login = sends (codes " ADA ") hash_text

ada_is_in : is_logged_in site (handle_login site ada_login (calm 50) world nobody).session ≡ true
unfolding handle_login get_user_by_username same_name lower_ascii trim_space
ada_is_in = refl

handle_login-IsLoggedIn_example :
    IsLoggedIn site ada_login world (handle_login site ada_login (calm 50) world nobody)
handle_login-IsLoggedIn_example =
    handle_login-IsLoggedIn site map_sessions-IsSessions ada_login (calm 50) world nobody refl
      ada_is_in

abbrev eve_login : Request
eve_login = sends (codes "Eve") (codes "password")

no_eve : account (given_username eve_login) world ≡ none
unfolding same_name lower_ascii trim_space
no_eve = refl

handle_login_refused_example :
    handle_login site eve_login (calm 50) world nobody ≡ refuse_login site world nobody
handle_login_refused_example =
    handle_login_refused site eve_login (calm 50) world nobody refl refl (inl no_eve)

abbrev bob_form : Request
bob_form = sends (codes "Bob") hash_text

handle_register_cases_example :
    IsRegistered site bob_form
      (calm 50)
      world
      (handle_register site bob_form (calm 50) world nobody)
    ⊎ ((handle_register site bob_form (calm 50) world nobody).db ≡ world)
handle_register_cases_example = handle_register_cases site bob_form (calm 50) world nobody

abbrev bob : User
bob = record {
  id = pos 2;
  username = codes "Bob";
  password_hash = hash_text;
  created_at = 50;
  deleted_at = none;
}

bob_registered :
    IsRegistered site bob_form
      (calm 50)
      world
      (handle_register site bob_form (calm 50) world nobody)
unfolding handle_register create_user insert user_check char_count same_name lower_ascii trim_space
bob_registered = record {
  invited = refl;
  confirmed = refl;
  long = refl;
  hash = hash_text;
  hashed = refl;
  user = bob;
  created = refl;
  response = refl;
}

same_bob :
    same_name (given_username bob_form) (given_username (sends (codes "BOB") hash_text)) ≡ true
unfolding same_name lower_ascii trim_space
same_bob = refl

login_after_register_example :
    ((handle_login site
        (sends (codes "BOB") hash_text)
        (calm 60)
        (handle_register site bob_form (calm 50) world nobody).db
        nobody).response
      ≡ redirect (codes "/"))
    × (map_sessions.get_int64 user_id_key
          (handle_login site
            (sends (codes "BOB") hash_text)
            (calm 60)
            (handle_register site bob_form (calm 50) world nobody).db
            nobody).session
        ≡ bob_registered.user.id)
login_after_register_example =
    login_after_register site map_sessions-IsSessions plain_hashing-IsHashing bob_form
      (sends (codes "BOB") hash_text) (calm 50) (calm 60) world nobody refl refl refl same_bob refl
      bob_registered

-- Ada, logged in
abbrev as_ada : Session
as_ada = record nobody { ints = set user_id_key (pos 1) (λ k. none) }

abbrev post_path : Text → Text
post_path k =
    if text_eq k (codes "blog_slug")
    then codes "notes"
    else if text_eq k (codes "post_slug")
    then codes "first-post"
    else codes "1"

abbrev remark : Request
remark = record {
  form_value = λ k. if text_eq k (codes "content") then codes " so it is " else [];
  path_value = post_path;
  referer = [];
}

handle_comment_cases_example :
    ((handle_comment site remark (calm 60) (calm 60) world as_ada).db ≡ world)
    ⊎ IsCommented site remark
        (calm 60)
        (calm 60)
        world
        as_ada
        (handle_comment site remark (calm 60) (calm 60) world as_ada)
handle_comment_cases_example = handle_comment_cases site remark (calm 60) (calm 60) world as_ada

handle_delete_comment_cases_example :
    ((handle_delete_comment site remark (calm 60) world as_ada).db ≡ world)
    ⊎ IsDeleted site remark
        (calm 60)
        world
        as_ada
        (handle_delete_comment site remark (calm 60) world as_ada)
handle_delete_comment_cases_example = handle_delete_comment_cases site remark (calm 60) world as_ada
