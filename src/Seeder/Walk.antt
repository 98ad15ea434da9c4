-- ===== src/Seeder/Walk.antt =====
-- seeder/seeder.go: the walks over the source directory. What the file system answers is an argument:
-- the entries of a directory in their order, each with the file that is read there and the errors
-- that its later steps meet, if any. Errors of single files are logged, and the walk goes on.
use blogengine.Prelude.{Bool, not, List, [], ◌∷◌, Option, none, some, any, if◌then◌else◌}
use blogengine.Prelude.Text.{Text, text_eq}
use blogengine.Errors.{
  Sentinel, Result, ok, err, err_seed_blog, err_seed_open_source, err_seed_read_source,
  err_reading_file,
}
use blogengine.Sqlite.Database.{Db, Call}
use blogengine.Utils.Slug.{slugify}
use blogengine.Seeder.Manifest.{BlogManifest, parse_blog_manifest}
use blogengine.Seeder.Blogs.{seed_blog}

-- a manifest as it is read, the errors of moving it, and the calls of the store
pub record BlogFile : Type 0 where
  pub manifest : Result BlogManifest
  pub made : Option Sentinel
  pub moved : Option Sentinel
  pub owner_call : Call
  pub slug_call : Call
  pub write_call : Call

-- ParseBlogManifest, the reading included
unfoldable pub read_manifest : BlogFile → Result BlogManifest
unfolding parse_blog_manifest
read_manifest f = elim f.manifest [
  | err e ↦ err (err_reading_file ∷ e)
  | ok m ↦ parse_blog_manifest m
]

-- seedBlog of a file in a directory: the manifest stays where it is if that is the blog's own
unfoldable pub seed_blog_file : (dir : Text) → BlogFile → Db → Result (Unit {0}) × Db
unfolding seed_blog
seed_blog_file dir f db = elim f.manifest [
  | err e ↦ (err (err_seed_blog ∷ err_reading_file ∷ e), db)
  | ok m ↦
      seed_blog m (text_eq dir (slugify m.title)) f.made f.moved f.owner_call f.slug_call
        f.write_call db
]

-- one loose file; `done` is alreadyProcessed
abbrev pub mark : Text → List Text → Result (Unit {0}) × Db → List Text × Db
mark slug done (ok u, db) = (slug ∷ done, db)
mark slug done (err e, db) = (done, db)

unfoldable pub seed_loose_blog : BlogFile → List Text × Db → List Text × Db
unfolding read_manifest seed_blog_file
seed_loose_blog f (done, db) = elim (read_manifest f) [
  | err e ↦ (done, db)
  | ok m ↦ mark (slugify m.title) done (seed_blog_file [] f db)
]

unfoldable pub seed_loose_blogs : List BlogFile → List Text × Db → List Text × Db
unfolding seed_loose_blog
seed_loose_blogs [] s = s
seed_loose_blogs (f ∷ files) s = seed_loose_blogs files (seed_loose_blog f s)

-- an entry of the source directory, with blog.yml and blog.yaml where they are
pub record BlogDir : Type 0 where
  pub name : Text
  pub is_dir : Bool
  pub yml : Option BlogFile
  pub yaml : Option BlogFile

-- the first of the two files that is there
abbrev pub manifest_of : BlogDir → Option BlogFile
manifest_of d = elim d.yml [ none ↦ d.yaml | some f ↦ some f ]

unfoldable pub seed_blog_dir : List Text → BlogDir → Db → Db
unfolding seed_blog_file
seed_blog_dir done d db =
    if not d.is_dir
    then db
    else if any (text_eq d.name) done
    then db
    else elim (manifest_of d) [ none ↦ db | some f ↦ (seed_blog_file d.name f db).1 ]

unfoldable pub seed_blog_dirs : List Text → List BlogDir → Db → Db
unfolding seed_blog_dir
seed_blog_dirs done [] db = db
seed_blog_dirs done (d ∷ dirs) db = seed_blog_dirs done dirs (seed_blog_dir done d db)

-- SeedBlogs: `files` are the loose *.yml and then the *.yaml, and `dirs` what is read after them
unfoldable pub seed_blogs :
    (opened : Option Sentinel) → List BlogFile → Result (List BlogDir) → Db → Result (Unit {0}) × Db
unfolding seed_loose_blogs seed_blog_dirs
seed_blogs (some e) files dirs db = (err (err_seed_open_source ∷ e ∷ []), db)
seed_blogs none files (err e) db =
    (err (err_seed_read_source ∷ e), (seed_loose_blogs files ([], db)).1)
seed_blogs none files (ok dirs) db =
    let loose = seed_loose_blogs files ([], db) in (ok tt, seed_blog_dirs loose.0 dirs loose.1)
