-- ===== src/Sqlite/Accounts.antt =====
-- What internal/storage/store.go promises of accounts, without rows, keys of SQL or deleted rows: a
-- directory from ids to accounts, as GetUserByID reads it, and the four ways in which it may change.
pub mod Rows
pub mod Refinement
pub mod Store
use blogengine.Prelude.{◌≡◌, Bool, false, Option, none, some, if◌then◌else◌}
use blogengine.Prelude.Int.{ℤ, ◌==ℤ◌}
use blogengine.Prelude.Text.{Text}
use blogengine.Errors.{Result, ok, err}
use blogengine.Storage.{User}
use blogengine.Sqlite.Database.{Db, calm, same_name}
use blogengine.Sqlite.Users.{get_user_by_id}

pub record Account : Type 0 where
  pub name : Text
  pub password_hash : Text

abbrev pub Directory : Type 0
Directory = ℤ → Option Account

abbrev pub account_of : Result User → Option Account
account_of (ok u) = some (record { name = u.username; password_hash = u.password_hash })
account_of (err e) = none

-- the accounts that GetUserByID finds when the driver meets no error
unfoldable pub directory : Db → Directory
unfolding get_user_by_id
directory db k = account_of (get_user_by_id k (calm 0) db).0

unfoldable pub put : ℤ → Option Account → Directory → Directory
put k a d j = if j ==ℤ k then a else d j

-- no account has this name, whatever the case of its letters
abbrev pub IsFreeName : Text → Directory → Type 0
IsFreeName name d = (j : ℤ) (a : Account) → d j ≡ some a → same_name name a.name ≡ false

-- what a caller asks of the directory
pub data Request : Type 0 where
  register : (name password_hash : Text) → Request
  rehash : (k : ℤ) (password_hash : Text) → Request
  close : (k : ℤ) → Request
  no_request : Request

-- one step of the directory, of what was asked: nothing, a new account under a new id and a free name,
-- another password of the account, or the end of the account
pub data Change : Request → Directory → Directory → Type 0 where
  idle : {q : Request} {d : Directory} → Change q d d
  registers :
      {d : Directory} (k : ℤ) (a : Account)
      → d k ≡ none
      → IsFreeName a.name d
      → Change (register a.name a.password_hash) d (put k (some a) d)
  rehashes :
      {d : Directory} (k : ℤ) (a : Account) (hash : Text)
      → d k ≡ some a
      → Change (rehash k hash) d (put k (some (record a { password_hash = hash })) d)
  closes : {d : Directory} (k : ℤ) (a : Account) → d k ≡ some a → Change (close k) d (put k none d)
