-- ===== src/Tests/World.antt =====
-- A small database: a user who owns a public blog with one post, and a comment on it.
use blogengine.Prelude.{ℕ, zero, suc, refl, true, false, [], ◌∷◌, none, some}
use blogengine.Prelude.Int.{pos}
use blogengine.Prelude.Text.{Text, codes}
use blogengine.Storage.{
  User, CreateBlogParams, UpdateBlogParams, UpdateBlogRegistrationParams, visibility_public,
  registration_open,
}
use blogengine.Sqlite.Database.{
  Db, CommentRow, BlogRow, PostRow, user_check, comment_check, blog_check, char_count,
}
use blogengine.Sqlite.Invariant.WellFormed.{IsWellFormed}

abbrev pub repeat : ℕ → ℕ → Text
repeat zero b = []
repeat (suc n) b = b ∷ repeat n b

abbrev pub hash_text : Text
hash_text = repeat 60 b'x'

abbrev pub ada : User
ada = record {
  id = pos 1;
  username = codes "Ada";
  password_hash = hash_text;
  created_at = 10;
  deleted_at = none;
}

abbrev pub notes_blog : BlogRow
notes_blog = record {
  id = pos 1;
  owner_id = pos 1;
  slug = codes "notes";
  title = codes "Notes";
  description = none;
  visibility = visibility_public;
  registration_mode = registration_open;
  registration_limit = none;
  created_at = 20;
  updated_at = none;
  deleted_at = none;
}

abbrev pub first_post : PostRow
first_post = record {
  id = pos 1;
  blog_id = pos 1;
  author_id = pos 1;
  public_id = codes "abcdefghijkl";
  slug = some (codes "first-post");
  title = codes "First post";
  description = none;
  s3_key = codes "notes/abcdefghijkl";
  is_encrypted = false;
  encryption_iv = none;
  requires_auth = false;
  is_listed = true;
  allow_comments = true;
  published_at = some (codes "1970-01-01 00:00:30 +0000 UTC");
  created_at = 30;
  updated_at = none;
  deleted_at = none;
}

abbrev pub first_comment : CommentRow
first_comment = record {
  id = pos 1;
  post_id = pos 1;
  user_id = some (pos 1);
  content = codes "hello";
  created_at = 40;
  updated_at = 40;
  deleted_at = none;
}

abbrev pub world : Db
world = record {
  users = ada ∷ [];
  user_seq = 1;
  comments = first_comment ∷ [];
  comment_seq = 1;
  blogs = notes_blog ∷ [];
  blog_seq = 1;
  posts = first_post ∷ [];
  post_seq = 1;
}

pub world-IsWellFormed : IsWellFormed world
unfolding user_check comment_check blog_check char_count
world-IsWellFormed = record {
  users = record { checked = (refl, tt); distinct = (tt, tt); given = (refl, tt) };
  comments = record { checked = (refl, tt); distinct = (tt, tt); given = (refl, tt) };
  blogs = record { checked = (refl, tt); distinct = (tt, tt); given = (refl, tt) };
  posts = record { checked = (refl, tt); distinct = (tt, tt); given = (refl, tt) };
  comment_authors = (refl, tt);
  blog_owners = (refl, tt);
  post_parents = (refl, tt);
}

-- another blog of the user
abbrev pub travel_params : CreateBlogParams
travel_params = record {
  owner_id = pos 1;
  slug = codes "travel";
  title = codes "Travel";
  description = none;
  visibility = visibility_public;
  registration_mode = registration_open;
  registration_limit = none;
}

-- an edit of the blog by a user that does not own it
abbrev pub foreign_edit : UpdateBlogParams
foreign_edit = record {
  blog_id = pos 1;
  owner_id = pos 2;
  slug = codes "taken";
  title = codes "Taken";
  description = none;
}

abbrev pub foreign_registration : UpdateBlogRegistrationParams
foreign_registration = record {
  blog_id = pos 1;
  owner_id = pos 2;
  registration_mode = registration_open;
  registration_limit = none;
}
