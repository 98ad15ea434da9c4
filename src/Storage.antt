-- ===== src/Storage.antt =====
-- storage/store.go: the records that the store returns and takes, and the two string types.
pub mod S3
pub mod S3Laws
use blogengine.Prelude.{ℕ, Bool, ◌||◌, Option}
use blogengine.Prelude.Int.{ℤ}
use blogengine.Prelude.Text.{Text, codes, text_eq}

-- A time is a number of seconds; the zero value of `time.Time` is 0.
abbrev pub Time : Type 0
Time = ℕ

-- A time.Time that a caller hands to the driver is the text of its String() method, with its own
-- zone and its fraction of a second: the text that the driver stores, as no DSN sets `_time_format`.
abbrev pub Stamp : Type 0
Stamp = Text

abbrev pub Visibility : Type 0
Visibility = Text

abbrev pub RegistrationMode : Type 0
RegistrationMode = Text

abbrev pub visibility_public : Visibility
visibility_public = codes "public"

abbrev pub visibility_private : Visibility
visibility_private = codes "private"

abbrev pub registration_open : RegistrationMode
registration_open = codes "open"

abbrev pub registration_closed : RegistrationMode
registration_closed = codes "closed"

abbrev pub registration_limited : RegistrationMode
registration_limited = codes "limited"

abbrev pub registration_invite_only : RegistrationMode
registration_invite_only = codes "invite_only"

pub record User : Type 0 where
  pub id : ℤ
  pub username : Text
  pub password_hash : Text
  pub created_at : Time
  pub deleted_at : Option Time

pub record Comment : Type 0 where
  pub id : ℤ
  pub post_id : ℤ
  pub user_id : Option ℤ
  pub content : Text
  pub author_name : Text
  pub created_at : Time
  pub updated_at : Option Time
  pub deleted_at : Option Time

pub record Blog : Type 0 where
  pub id : ℤ
  pub owner_id : ℤ
  pub owner_name : Text
  pub slug : Text
  pub title : Text
  pub description : Option Text
  pub visibility : Visibility
  pub registration_mode : RegistrationMode
  pub registration_limit : Option ℤ
  pub created_at : Time
  pub updated_at : Option Time
  pub deleted_at : Option Time

pub record CreateBlogParams : Type 0 where
  pub owner_id : ℤ
  pub slug : Text
  pub title : Text
  pub description : Option Text
  pub visibility : Visibility
  pub registration_mode : RegistrationMode
  pub registration_limit : Option ℤ

pub record UpdateBlogParams : Type 0 where
  pub blog_id : ℤ
  pub owner_id : ℤ
  pub slug : Text
  pub title : Text
  pub description : Option Text

pub record UpdateBlogRegistrationParams : Type 0 where
  pub blog_id : ℤ
  pub owner_id : ℤ
  pub registration_mode : RegistrationMode
  pub registration_limit : Option ℤ

pub record Post : Type 0 where
  pub id : ℤ
  pub blog_id : ℤ
  pub blog_slug : Text
  pub author_id : ℤ
  pub author_name : Text
  pub public_id : Text
  pub slug : Option Text
  pub title : Text
  pub description : Option Text
  pub s3_key : Text
  pub is_encrypted : Bool
  pub encryption_iv : Option Text
  pub requires_auth : Bool
  pub is_listed : Bool
  pub allow_comments : Bool
  pub published_at : Option Stamp
  pub created_at : Time
  pub updated_at : Option Time
  pub deleted_at : Option Time

pub record CreatePostParams : Type 0 where
  pub public_id : Text
  pub blog_id : ℤ
  pub author_id : ℤ
  pub slug : Option Text
  pub title : Text
  pub description : Option Text
  pub is_encrypted : Bool
  pub encryption_iv : Option Text
  pub requires_auth : Bool
  pub is_listed : Bool
  pub allow_comments : Bool
  pub published_at : Option Stamp

abbrev pub public_id_len : ℕ
public_id_len = 12

-- Visibility.IsValid
unfoldable pub visibility_is_valid : Visibility → Bool
visibility_is_valid v = text_eq v visibility_public || text_eq v visibility_private

-- RegistrationMode.IsValid
unfoldable pub registration_is_valid : RegistrationMode → Bool
registration_is_valid r =
    text_eq r registration_open
    || text_eq r registration_closed
    || text_eq r registration_limited
    || text_eq r registration_invite_only
