-- ===== src/Storage/S3.antt =====
-- storage/s3_store.go: the object store. The client of the AWS SDK is a parameter, on a state that
-- holds the objects and whatever decides whether a call succeeds; the text of an error is left out.
use blogengine.Prelude.{◌≡◌, Bool, true, false, Option, none, some, if◌then◌else◌}
use blogengine.Prelude.Text.{Text, text_eq, is_empty, trim_space}
use blogengine.Errors.{Sentinel}

-- GetObject with the body read to its end, HeadObject, PutObject and DeleteObject on one bucket
pub record Bucket (B : Type 0) : Type 0 where
  pub get_object : Text → B → Option Text
  pub head_object : Text → B → Bool
  pub put_object : Text → Text → B → Option Sentinel × B
  pub delete_object : Text → B → Option Sentinel × B

-- The store is consistent: an object that was put is there, with its bytes, until its key is written
-- or deleted again, and no call changes the objects under other keys.
pub record IsBucket {B : Type 0} (m : Bucket B) : Type 0 where
  pub get-put :
      (k v : Text) (b : B)
      → (m.put_object k v b).0 ≡ none
      → m.get_object k (m.put_object k v b).1 ≡ some v
  pub head-put :
      (k v : Text) (b : B)
      → (m.put_object k v b).0 ≡ none
      → m.head_object k (m.put_object k v b).1 ≡ true
  pub get-put_other :
      (k l v : Text) (b : B)
      → text_eq k l ≡ false
      → m.get_object l (m.put_object k v b).1 ≡ m.get_object l b
  pub head-put_other :
      (k l v : Text) (b : B)
      → text_eq k l ≡ false
      → m.head_object l (m.put_object k v b).1 ≡ m.head_object l b
  pub head-delete :
      (k : Text) (b : B)
      → (m.delete_object k b).0 ≡ none
      → m.head_object k (m.delete_object k b).1 ≡ false

module _ {B : Type 0} (m : Bucket B) where
  -- S3Store.Open; none is its error
  unfoldable pub open_key : Text → B → Option Text
  open_key key b = if is_empty key then none else m.get_object (trim_space key) b

  -- S3Store.Exists
  unfoldable pub exists_key : Text → B → Bool
  exists_key key b = if is_empty key then false else m.head_object (trim_space key) b

  -- S3Store.Save
  unfoldable pub save : Text → Text → B → Option Sentinel × B
  save key body b = m.put_object key body b

  -- S3Store.Delete
  unfoldable pub delete : Text → B → Option Sentinel × B
  delete key b = m.delete_object key b
