-- ===== src/Seeder/WalkLaws.antt =====
-- seeder/seeder.go: seeding the blogs keeps the database well formed.
use blogengine.Prelude.{
  ◌≡◌, refl, inl, inr, List, [], ◌∷◌, Option, none, some, any, arith, Bool-cases, Option-cases,
}
use blogengine.Prelude.Text.{Text, text_eq}
use blogengine.Errors.{Result-cases, Sentinel, Result, ok, err}
use blogengine.Sqlite.Database.{Db}
use blogengine.Sqlite.Invariant.WellFormed.{IsWellFormed}
use blogengine.Utils.Slug.{slugify}
use blogengine.Seeder.Laws.{seed_blog-IsWellFormed}
use blogengine.Seeder.Walk.{
  BlogFile, BlogDir, read_manifest, seed_blog_file, mark, seed_loose_blog, seed_loose_blogs,
  manifest_of, seed_blog_dir, seed_blog_dirs, seed_blogs,
}

seed_blog_file-IsWellFormed :
    (dir : Text) (f : BlogFile) (db : Db)
    → IsWellFormed db
    → IsWellFormed (seed_blog_file dir f db).1
unfolding seed_blog_file
seed_blog_file-IsWellFormed dir f db w = elim (Result-cases f.manifest) [
  | inr (e, h) ↦ rw (h, seed_blog_file) w
  | inl (m, h) ↦
      rw (h, seed_blog_file)
        (seed_blog-IsWellFormed m (text_eq dir (slugify m.title)) f.made f.moved f.owner_call
          f.slug_call f.write_call db w)
]

mark-db : (slug : Text) (done : List Text) (t : Result (Unit {0}) × Db) → (mark slug done t).1 ≡ t.1
mark-db slug done (ok u, db) = refl
mark-db slug done (err e, db) = refl

seed_loose_blog-IsWellFormed :
    (f : BlogFile) (s : List Text × Db) → IsWellFormed s.1 → IsWellFormed (seed_loose_blog f s).1
unfolding seed_loose_blog
seed_loose_blog-IsWellFormed f (done, db) w = elim (Result-cases (read_manifest f)) [
  | inr (e, h) ↦ rw (h, seed_loose_blog) w
  | inl (m, h) ↦
      rw (h, seed_loose_blog, mark-db (slugify m.title) done (seed_blog_file [] f db))
        (seed_blog_file-IsWellFormed [] f db w)
]

seed_loose_blogs-IsWellFormed :
    (files : List BlogFile) (s : List Text × Db)
    → IsWellFormed s.1
    → IsWellFormed (seed_loose_blogs files s).1
unfolding seed_loose_blogs
seed_loose_blogs-IsWellFormed [] s w = w
seed_loose_blogs-IsWellFormed (f ∷ files) s w =
    seed_loose_blogs-IsWellFormed files (seed_loose_blog f s) (seed_loose_blog-IsWellFormed f s w)

seed_blog_dir-IsWellFormed :
    (done : List Text) (d : BlogDir) (db : Db)
    → IsWellFormed db
    → IsWellFormed (seed_blog_dir done d db)
unfolding seed_blog_dir
seed_blog_dir-IsWellFormed done d db w = elim (Option-cases (manifest_of d)) [
  | inl n ↦ ground (arith, w, n, Bool-cases d.is_dir, Bool-cases (any (text_eq d.name) done))
  | inr (f, n) ↦ ground (
    arith,
    w,
    n,
    Bool-cases d.is_dir,
    Bool-cases (any (text_eq d.name) done),
    seed_blog_file-IsWellFormed d.name f db w,
  )
]

seed_blog_dirs-IsWellFormed :
    (done : List Text) (dirs : List BlogDir) (db : Db)
    → IsWellFormed db
    → IsWellFormed (seed_blog_dirs done dirs db)
unfolding seed_blog_dirs
seed_blog_dirs-IsWellFormed done [] db w = w
seed_blog_dirs-IsWellFormed done (d ∷ dirs) db w =
    seed_blog_dirs-IsWellFormed done dirs (seed_blog_dir done d db)
      (seed_blog_dir-IsWellFormed done d db w)

pub seed_blogs-IsWellFormed :
    (opened : Option Sentinel) (files : List BlogFile) (dirs : Result (List BlogDir)) (db : Db)
    → IsWellFormed db
    → IsWellFormed (seed_blogs opened files dirs db).1
unfolding seed_blogs
seed_blogs-IsWellFormed (some e) files dirs db w = w
seed_blogs-IsWellFormed none files (err e) db w = seed_loose_blogs-IsWellFormed files ([], db) w
seed_blogs-IsWellFormed none files (ok dirs) db w =
    let loose = seed_loose_blogs files ([], db) in
    seed_blog_dirs-IsWellFormed loose.0 dirs loose.1
      (seed_loose_blogs-IsWellFormed files ([], db) w)
