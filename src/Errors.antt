-- ===== src/Errors.antt =====
-- Go's errors. The error variables of storage/store.go, storage/sqlite (errors.go, posts.go,
-- bootstrap.go) are constructors, and so are the driver's. `fmt.Errorf("%w: %w", a, b)` is the list
-- of what it wraps, so that `errors.Is` is a search; the text of a message is not modelled.
use blogengine.Prelude.{ℕ, ◌≡◌, refl, ◌⊎◌, inl, inr, Bool, true, false, List, Option, any}

-- The extended result codes of SQLite that the program or the schema can meet.
pub data DriverCode : Type 0 where
  constraint_unique constraint_check constraint_foreign_key : DriverCode
  other_code : ℕ → DriverCode

pub data Sentinel : Type 0 where
  -- storage/store.go
  err_not_found err_unique_violation err_check_violation : Sentinel
  -- sql.ErrNoRows, a *sqlite.Error, and any other error of the driver or the context
  sql_no_rows : Sentinel
  sqlite_error : DriverCode → Sentinel
  driver_error : ℕ → Sentinel
  -- sqlite/store.go, validateContent
  content_empty content_too_long : Sentinel
  -- sqlite/errors.go
  err_blog_slug err_blog_title err_blog_description err_blog_visibility : Sentinel
  err_blog_registration_mode err_blog_registration_limit err_registration_values_for_mode : Sentinel
  err_create_blog err_limit_offset err_all_public_blogs err_invalid_blog_id err_invalid_owner_id
        err_blogs_by_user_id :
      Sentinel
  err_latest_public_posts err_get_blog_by_id err_get_blog_by_slug err_update_blog err_negative_ids :
      Sentinel
  err_update_blog_visibility err_update_blog_registration err_delete_blog : Sentinel
  -- sqlite/posts.go
  err_invalid_author_or_blog err_post_slug err_post_title err_post_description err_generate_s3_key :
      Sentinel
  err_enc_pointless_iv err_enc_missing_iv err_creating_post err_invalid_public_id
        err_get_post_public_ids :
      Sentinel
  err_get_posts_by_blog_id err_get_post_by_slug_or_public_id err_post_identifier : Sentinel
  -- sqlite/bootstrap.go
  err_password_hash err_create_admin_user : Sentinel
  -- seeder/parser.go and seeder/seeder.go
  err_no_blog_title err_no_blog_owner err_no_post_title err_seed_blog err_owner_not_found : Sentinel
  err_create_blog_dir err_move_blog_file err_seed_post err_create_post_dir err_move_post_file :
      Sentinel
  err_upload_post err_invalid_published_time err_reading_file : Sentinel
  err_seed_open_source err_seed_read_source : Sentinel

abbrev pub Error : Type 0
Error = List Sentinel

abbrev is_not_found : Sentinel → Bool
is_not_found err_not_found = true
is_not_found _ = false

abbrev is_unique_violation : Sentinel → Bool
is_unique_violation err_unique_violation = true
is_unique_violation _ = false

-- errors.Is(err, storage.ErrNotFound)
unfoldable pub errors_is_not_found : Error → Bool
errors_is_not_found e = any is_not_found e

-- errors.Is(err, storage.ErrUniqueViolation)
unfoldable pub errors_is_unique_violation : Error → Bool
errors_is_unique_violation e = any is_unique_violation e

-- mapSqlError of sqlite/comments.go, on an error that is not nil: no caller passes nil.
unfoldable pub map_sql_error : Sentinel → Sentinel
map_sql_error sql_no_rows = err_not_found
map_sql_error (sqlite_error constraint_unique) = err_unique_violation
map_sql_error (sqlite_error constraint_check) = err_check_violation
map_sql_error e = e

pub data Result {ℓ} (A : Type ℓ) : Type ℓ where
  ok : A → Result A
  err : Error → Result A

pub Result-cases :
    {A : Type 0} (r : Result A) → ((a : A) × (r ≡ ok a)) ⊎ ((e : Error) × (r ≡ err e))
Result-cases (ok a) = inl (a, refl)
Result-cases (err e) = inr (e, refl)

-- A returned pair (value, error) whose error is tested at once, `if err != nil { return … }`.
infixl 5 ◌>>=◌
abbrev pub ◌>>=◌ {ℓ κ} : {A : Type ℓ} {B : Type κ} → Result A → (A → Result B) → Result B
ok a >>= f = f a
err e >>= f = err e

-- A validation: nil, or one error.
abbrev pub Check : Type 0
Check = Option Error
