-- ===== src/Tests/Accounts.antt =====
-- Accounts and the bootstrap.
use blogengine.Prelude.{◌≡◌, refl, true, [], ◌∷◌, none, some, find}
use blogengine.Prelude.Int.{pos}
use blogengine.Prelude.Text.{codes, lower_ascii}
use blogengine.Errors.{
  ok, err, err_unique_violation, err_create_admin_user, map_sql_error, errors_is_not_found,
}
use blogengine.Storage.{User}
use blogengine.Sqlite.Table.{insert}
use blogengine.Sqlite.Database.{Db, calm, empty_db, char_count, same_name, user_check}
use blogengine.Sqlite.Users.{new_user, create_user, get_user_by_username}
use blogengine.Sqlite.Bootstrap.{bootstrap, default_admin_username}
use blogengine.Sqlite.Invariant.WellFormed.{IsWellFormed}
use blogengine.Sqlite.Laws.Accounts.{called}
use blogengine.Sqlite.Laws.FirstAccount.{bootstrap_deleted_admin}
use blogengine.Sqlite.Invariant.Methods
use blogengine.Sqlite.Invariant.Methods.{perform}
use blogengine.Sqlite.Accounts.{Change, close, directory}
use blogengine.Sqlite.Accounts.Store.{request_of, perform-Change}
use blogengine.Tests.World.{ada, hash_text, world, world-IsWellFormed}

found_ada : same_name (codes "Ada") (codes "ADA") ≡ true
unfolding same_name lower_ascii
found_ada = refl

ada_checked : user_check (new_user (calm 60) world (codes "ADA") hash_text) ≡ true
unfolding user_check char_count
ada_checked = refl

called-ada : find (called (codes "ADA")) world.users ≡ some ada
unfolding same_name lower_ascii
called-ada = refl

abbrev bob : User
bob = record {
  id = pos 2;
  username = codes "Bob";
  password_hash = hash_text;
  created_at = 60;
  deleted_at = none;
}

abbrev with_bob : Db
with_bob = record world { users = bob ∷ ada ∷ []; user_seq = 2 }

create_bob : create_user (codes "Bob") hash_text (calm 60) world ≡ (ok bob, with_bob)
unfolding create_user insert user_check char_count same_name lower_ascii
create_bob = refl

bob_in_capitals : same_name (codes "Bob") (codes "BOB") ≡ true
unfolding same_name lower_ascii
bob_in_capitals = refl

abbrev admin : User
admin = record {
  id = pos 1;
  username = default_admin_username;
  password_hash = hash_text;
  created_at = 10;
  deleted_at = none;
}

abbrev deleted_admin : User
deleted_admin = record admin { deleted_at = some 20 }

abbrev without_admin : Db
without_admin = record empty_db { users = deleted_admin ∷ []; user_seq = 1 }

without_admin-IsWellFormed : IsWellFormed without_admin
unfolding user_check char_count
without_admin-IsWellFormed = record {
  users = record { checked = (refl, tt); distinct = (tt, tt); given = (refl, tt) };
  comments = record { checked = tt; distinct = tt; given = tt };
  blogs = record { checked = tt; distinct = tt; given = tt };
  posts = record { checked = tt; distinct = tt; given = tt };
  comment_authors = tt;
  blog_owners = tt;
  post_parents = tt;
}

admin_checked :
    user_check (new_user (calm 30) without_admin default_admin_username hash_text) ≡ true
unfolding user_check char_count
admin_checked = refl

called_admin : find (called default_admin_username) without_admin.users ≡ some deleted_admin
unfolding same_name lower_ascii
called_admin = refl

bootstrap_deleted_admin_example :
    bootstrap (ok hash_text) (calm 30) (calm 30) without_admin
    ≡ (err (err_create_admin_user ∷ err_unique_violation ∷ []), without_admin)
bootstrap_deleted_admin_example =
    bootstrap_deleted_admin hash_text (calm 30) (calm 30) without_admin {u = deleted_admin}
      without_admin-IsWellFormed refl refl admin_checked called_admin refl

abbrev with_admin : Db
with_admin = record empty_db { users = admin ∷ []; user_seq = 1 }

first_bootstrap : bootstrap (ok hash_text) (calm 10) (calm 10) empty_db ≡ (ok tt, with_admin)
unfolding bootstrap get_user_by_username map_sql_error errors_is_not_found create_user insert
    user_check char_count
first_bootstrap = refl

perform-Change_example :
    Change
      (close (pos 1))
      (directory world)
      (directory (perform (Methods.delete_user (pos 1)) (calm 50) world))
unfolding request_of
perform-Change_example =
    perform-Change (Methods.delete_user (pos 1)) (calm 50) world world-IsWellFormed
