-- ===== src/Content/Sync.antt =====
-- content/sync.go: the images of the source directory, put in the bucket. An entry is what WalkDir
-- hands to the function, with what filepath.Abs and filepath.Rel make of its path and what opening the
-- file gives.
use blogengine.Prelude.{
  Bool, true, false, not, List, [], ◌∷◌, Option, none, some, any, if◌then◌else◌,
}
use blogengine.Prelude.Text.{Text, codes, text_eq, lower_ascii}
use blogengine.Errors.{Sentinel}
use blogengine.Storage.S3.{Bucket, exists_key, save}

pub record Entry : Type 0 where
  pub walk_error : Option Sentinel
  pub is_dir : Bool
  pub ext : Text
  pub key : Option Text
  pub contents : Option Text

abbrev pub wanted_extensions : List Text
wanted_extensions = codes ".jpg" ∷ codes ".jpeg" ∷ codes ".png" ∷ codes ".gif" ∷ []

-- strings.ToLower of an extension in ASCII
unfoldable pub is_wanted : Entry → Bool
unfolding lower_ascii
is_wanted e = any (text_eq (lower_ascii e.ext)) wanted_extensions

module _ {B : Type 0} (m : Bucket B) where
  -- a file with its key: an error of the upload is logged
  unfoldable pub upload_missing : Text → Option Text → B → B
  unfolding exists_key save
  upload_missing key contents b =
      if exists_key m key b
      then b
      else elim contents [ none ↦ b | some body ↦ (save m key body b).1 ]

  -- the function that WalkDir calls: true if it returns no error
  unfoldable pub visit : Entry → B → Bool × B
  unfolding upload_missing is_wanted
  visit e b = elim e.walk_error [
    | some err ↦ (false, b)
    | none ↦
        if e.is_dir
        then (true, b)
        else if not (is_wanted e)
        then (true, b)
        else elim e.key [ none ↦ (false, b) | some key ↦ (true, upload_missing key e.contents b) ]
  ]

  -- SyncAssets: the walk ends at the first error
  unfoldable pub sync_assets : List Entry → B → Bool × B
  unfolding visit
  sync_assets [] b = (true, b)
  sync_assets (e ∷ entries) b =
      let r = visit e b in
      let rest = sync_assets entries r.1 in
      elim r.0 as (λ _. Bool × B) [ true ↦ rest | false ↦ (false, r.1) ]
