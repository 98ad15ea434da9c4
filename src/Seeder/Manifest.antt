-- ===== src/Seeder/Manifest.antt =====
-- seeder/types.go and parser.go: what the files say. Reading a file and the YAML and frontmatter
-- libraries are left out: a file is what they made of it.
use blogengine.Prelude.{Bool, [], ◌∷◌, Option, if◌then◌else◌}
use blogengine.Prelude.Int.{ℤ}
use blogengine.Prelude.Text.{Text, is_empty}
use blogengine.Errors.{Result, ok, err, err_no_blog_title, err_no_blog_owner, err_no_post_title}
use blogengine.Storage.{Visibility, RegistrationMode, visibility_public, registration_open}

pub record BlogManifest : Type 0 where
  pub title : Text
  pub description : Text
  pub owner : Text
  pub visibility : Visibility
  pub registration_mode : RegistrationMode
  pub registration_limit : Option ℤ

pub record PostFrontmatter : Type 0 where
  pub title : Text
  pub slug : Text
  pub description : Text
  pub published_at : Option Text
  pub is_listed : Bool
  pub is_encrypted : Bool
  pub encryption_iv : Option Text
  pub requires_auth : Bool
  pub allow_comments : Bool

abbrev or_default : Text → Text → Text
or_default s default = if is_empty s then default else s

-- ParseBlogManifest, after the file was read
unfoldable pub parse_blog_manifest : BlogManifest → Result BlogManifest
parse_blog_manifest m =
    if is_empty m.title
    then err (err_no_blog_title ∷ [])
    else if is_empty m.owner
    then err (err_no_blog_owner ∷ [])
    else ok (record m {
      visibility = or_default m.visibility visibility_public;
      registration_mode = or_default m.registration_mode registration_open;
    })

-- ParsePostFile, after the file was read
unfoldable pub parse_post_file : PostFrontmatter → Result PostFrontmatter
parse_post_file fm = if is_empty fm.title then err (err_no_post_title ∷ []) else ok fm
