-- ===== src/Seeder/Growth.antt =====
-- seeder/seeder.go: what the walks of SeedPosts add to the database.
use blogengine.Prelude.{
  ◌≡◌, refl, sym, ◌∙◌, inl, inr, ◌⊎◌, Bool, true, false, List, [], ◌∷◌, none, any, arith,
  Bool-cases, Option-cases, if◌then◌else◌,
}
use mathlib.Core.Path.{subst}
use blogengine.Prelude.Text.{Text, text_eq, is_empty}
use blogengine.Errors.{Result-cases, Result, ok, err}
use blogengine.Storage.{Stamp}
use blogengine.Sqlite.Database.{Db, Call, BlogRow, PostRow}
use blogengine.Sqlite.Posts.Queries.{get_all_post_public_ids}
use blogengine.Seeder.Manifest.{PostFrontmatter}
use blogengine.Seeder.Posts.{is_post_folder}
use blogengine.Seeder.PostWalk.{
  PostFile, PostDir, BlogPosts, seed_post_file, seed_loose_files, seed_only_file, seed_opened,
  seed_post_dir, seed_post_dirs, seed_structured_posts, seed_posts_for_blog, seed_each_blog,
  seed_posts,
}
use blogengine.Seeder.Inserts.{
  Grows, Grows-none, Grows-blogs, Grows-trans, Grows-mono, IsPlaced, seed_post-Grows,
}

-- one of the list has the property
abbrev pub Some : {A : Type 0} → (A → Type 0) → List A → Type 0
Some P [] = ⊥
Some P (x ∷ xs) = P x ⊎ Some P xs

-- what the walks know of a new row
module _ (parse_time : Text → Result Stamp) (blogs : List BlogRow) where
  -- the post of a file, which was read
  abbrev pub IsOfFile : (slug public_id : Text) → PostRow → PostFile → Type 0
  IsOfFile slug public_id r f =
      (file : PostFrontmatter) × (f.frontmatter ≡ ok file)
      × IsPlaced parse_time blogs slug public_id f.generated file r

  -- The post of a folder: the folder's name is a public id that the database did not have, and the one
  -- of the post.
  abbrev pub IsOfFolder : List Text → (slug : Text) → PostRow → PostDir → Type 0
  IsOfFolder existing slug r d =
      (d.is_dir ≡ true)
      × (is_post_folder d.name ≡ true)
      × (any (text_eq d.name) existing ≡ false)
      × (r.public_id ≡ d.name)
      × ((files : List PostFile) × (d.files ≡ ok files) × Some (IsOfFile slug d.name r) files)

  -- a post of a blog's directory, from one of its folders or of its loose files
  abbrev pub IsOfBlog : List Text → PostRow → BlogPosts → Type 0
  IsOfBlog existing r p =
      (p.is_dir ≡ true)
      × (((files : List PostFile) × (p.loose ≡ ok files) × Some (IsOfFile p.name [] r) files)
          ⊎ ((dirs : List PostDir) × (p.dirs ≡ ok dirs) × Some (IsOfFolder existing p.name r) dirs))

Grows-if :
    {P : PostRow → Type 0} (test : Bool) (db : Db) {db' : Db}
    → (test ≡ true → Grows P db db')
    → Grows P db (if test then db' else db)
Grows-if true db f = f refl
Grows-if false db f = Grows-none db refl

module _ (parse_time : Text → Result Stamp) (blogs : List BlogRow) where
  seed_post_file-Grows :
      (slug public_id : Text) (f : PostFile) (db : Db)
      → db.blogs ≡ blogs
      → Grows
          (λ r. IsOfFile parse_time blogs slug public_id r f)
          db
          (seed_post_file parse_time slug public_id f db).1
  unfolding seed_post_file
  seed_post_file-Grows slug public_id f db same = elim (Result-cases f.frontmatter) [
    | inr (e, h) ↦ rw (h, seed_post_file) (Grows-none db refl)
    | inl (fm, h) ↦
        let one =
          seed_post-Grows parse_time fm slug public_id f.generated f.made f.moved f.uploaded
            f.blog_call f.slug_call f.write_call db in
        rw (h, seed_post_file)
          (Grows-mono db
            (λ r placed. (
              fm,
              refl,
              subst (λ b. IsPlaced parse_time b slug public_id f.generated fm r) same placed,
            ))
            one)
  ]

  seed_loose_files-Grows :
      (slug : Text) (files : List PostFile) (db : Db)
      → db.blogs ≡ blogs
      → Grows
          (λ r. Some (IsOfFile parse_time blogs slug [] r) files)
          db
          (seed_loose_files parse_time slug files db)
  unfolding seed_loose_files
  seed_loose_files-Grows slug [] db same = Grows-none db refl
  seed_loose_files-Grows slug (f ∷ files) db same =
      let one = seed_post_file-Grows slug [] f db same in
      let next = (seed_post_file parse_time slug [] f db).1 in
      Grows-trans db next (Grows-mono db (λ r h. inl h) one) (
        Grows-mono next (λ r h. inr h)
          (seed_loose_files-Grows slug files next (Grows-blogs db one ∙ same)))

  seed_only_file-Grows :
      (slug public_id : Text) (files : List PostFile) (db : Db)
      → db.blogs ≡ blogs
      → Grows
          (λ r. Some (IsOfFile parse_time blogs slug public_id r) files)
          db
          (seed_only_file parse_time slug public_id files db)
  unfolding seed_only_file
  seed_only_file-Grows slug public_id [] db same = Grows-none db refl
  seed_only_file-Grows slug public_id (f ∷ []) db same =
      Grows-mono db (λ r h. inl h) (seed_post_file-Grows slug public_id f db same)
  seed_only_file-Grows slug public_id (f ∷ g ∷ files) db same = Grows-none db refl

  folder_named : (name : Text) → is_post_folder name ≡ true → is_empty name ≡ false
  unfolding is_post_folder
  folder_named name h = ground (arith, h)

  -- in a folder the post has the folder's name
  placed_id :
      (slug name : Text) (files : List PostFile) (r : PostRow)
      → is_empty name ≡ false
      → Some (IsOfFile parse_time blogs slug name r) files
      → r.public_id ≡ name
  placed_id slug name [] r named h = absurd h
  placed_id slug name (f ∷ files) r named (inl (_, _, (_, _, _, id))) = ground (arith, named, id)
  placed_id slug name (f ∷ files) r named (inr h) = placed_id slug name files r named h

  seed_opened-Grows :
      (slug : Text) (existing : List Text) (d : PostDir) (db : Db)
      → db.blogs ≡ blogs
      → d.is_dir ≡ true
      → is_post_folder d.name ≡ true
      → any (text_eq d.name) existing ≡ false
      → Grows
          (λ r. IsOfFolder parse_time blogs existing slug r d)
          db
          (seed_opened parse_time slug d db)
  seed_opened-Grows slug existing d db same dir folder new = elim (Option-cases d.opened) [
    | inr (e, h) ↦ rw h (Grows-none db refl)
    | inl h ↦ elim (Result-cases d.files) [
      | inr (e, k) ↦ rw (h, k) (Grows-none db refl)
      | inl (files, k) ↦
          let opened : seed_opened parse_time slug d db
              ≡ seed_only_file parse_time slug d.name files db =
            ground (arith, h, k) in
          subst (λ db'. Grows (λ r. IsOfFolder parse_time blogs existing slug r d) db db')
            (sym opened)
            (Grows-mono db
              (λ r placed. (
                dir,
                folder,
                new,
                placed_id slug d.name files r (folder_named d.name folder) placed,
                (files, k, placed),
              ))
              (seed_only_file-Grows slug d.name files db same))
    ]
  ]

  seed_post_dir-Grows :
      (slug : Text) (existing : List Text) (d : PostDir) (db : Db)
      → db.blogs ≡ blogs
      → Grows
          (λ r. IsOfFolder parse_time blogs existing slug r d)
          db
          (seed_post_dir parse_time slug existing d db)
  unfolding seed_post_dir
  seed_post_dir-Grows slug existing d db same = elim (Bool-cases d.is_dir) [
    | inr a ↦ rw (a, seed_post_dir) (Grows-none db refl)
    | inl a ↦ elim (Bool-cases (is_post_folder d.name)) [
      | inr b ↦ rw (a, b, seed_post_dir) (Grows-none db refl)
      | inl b ↦ elim (Bool-cases (any (text_eq d.name) existing)) [
        | inl e ↦ rw (a, b, e, seed_post_dir) (Grows-none db refl)
        | inr e ↦
            let opened : seed_post_dir parse_time slug existing d db
                ≡ seed_opened parse_time slug d db =
              rw (a, b, e, seed_post_dir) refl in
            subst (λ db'. Grows (λ r. IsOfFolder parse_time blogs existing slug r d) db db')
              (sym opened) (seed_opened-Grows slug existing d db same a b e)
      ]
    ]
  ]

  seed_post_dirs-Grows :
      (slug : Text) (existing : List Text) (dirs : List PostDir) (db : Db)
      → db.blogs ≡ blogs
      → Grows
          (λ r. Some (IsOfFolder parse_time blogs existing slug r) dirs)
          db
          (seed_post_dirs parse_time slug existing dirs db)
  unfolding seed_post_dirs
  seed_post_dirs-Grows slug existing [] db same = Grows-none db refl
  seed_post_dirs-Grows slug existing (d ∷ dirs) db same =
      let one = seed_post_dir-Grows slug existing d db same in
      let next = seed_post_dir parse_time slug existing d db in
      Grows-trans db next (Grows-mono db (λ r h. inl h) one) (
        Grows-mono next (λ r h. inr h)
          (seed_post_dirs-Grows slug existing dirs next (Grows-blogs db one ∙ same)))

  structured-Grows :
      (slug : Text) (existing : List Text) (dirs : Result (List PostDir)) (db : Db)
      → db.blogs ≡ blogs
      → Grows
          (λ r.
            (ds : List PostDir) × (dirs ≡ ok ds)
            × Some (IsOfFolder parse_time blogs existing slug r) ds)
          db
          (seed_structured_posts parse_time slug existing dirs db)
  structured-Grows slug existing (err e) db same = Grows-none db refl
  structured-Grows slug existing (ok dirs) db same =
      Grows-mono db (λ r h. (dirs, refl, h)) (seed_post_dirs-Grows slug existing dirs db same)

  seed_posts_for_blog-Grows :
      (existing : List Text) (p : BlogPosts) (db : Db)
      → db.blogs ≡ blogs
      → p.is_dir ≡ true
      → Grows
          (λ r. IsOfBlog parse_time blogs existing r p)
          db
          (seed_posts_for_blog parse_time existing p db)
  unfolding seed_posts_for_blog
  seed_posts_for_blog-Grows existing p db same dir = elim (Option-cases p.opened) [
    | inr (e, h) ↦ rw (h, seed_posts_for_blog) (Grows-none db refl)
    | inl h ↦ elim (Result-cases p.loose) [
      | inr (e, k) ↦ rw (h, k, seed_posts_for_blog) (Grows-none db refl)
      | inl (files, k) ↦
          let loose = seed_loose_files-Grows p.name files db same in
          let next = seed_loose_files parse_time p.name files db in
          let opened : seed_posts_for_blog parse_time existing p db
              ≡ seed_structured_posts parse_time p.name existing p.dirs next =
            rw (h, k, seed_posts_for_blog) refl in
          subst (λ db'. Grows (λ r. IsOfBlog parse_time blogs existing r p) db db') (sym opened)
            (Grows-trans db next (Grows-mono db (λ r s. (dir, inl (files, k, s))) loose) (
              Grows-mono next (λ r s. (dir, inr s))
                (structured-Grows p.name existing p.dirs next (Grows-blogs db loose ∙ same))))
    ]
  ]

  seed_each_blog-Grows :
      (existing : List Text) (dirs : List BlogPosts) (db : Db)
      → db.blogs ≡ blogs
      → Grows
          (λ r. Some (IsOfBlog parse_time blogs existing r) dirs)
          db
          (seed_each_blog parse_time existing dirs db)
  unfolding seed_each_blog
  seed_each_blog-Grows existing [] db same = Grows-none db refl
  seed_each_blog-Grows existing (p ∷ dirs) db same =
      let next = if p.is_dir then seed_posts_for_blog parse_time existing p db else db in
      let one : Grows (λ r. IsOfBlog parse_time blogs existing r p) db next =
        Grows-if p.is_dir db (seed_posts_for_blog-Grows existing p db same) in
      Grows-trans db next (Grows-mono db (λ r h. inl h) one) (
        Grows-mono next (λ r h. inr h)
          (seed_each_blog-Grows existing dirs next (Grows-blogs db one ∙ same)))

-- SeedPosts adds posts and changes nothing else, whatever the directories hold and whichever of the files,
-- of the steps of the file system, of the uploads and of the statements fail: each new row is a post of
-- the live blog that has the name of its directory as its slug, with the owner of the blog as its
-- author and the title, the slug, the listing and the date that the frontmatter of its file says, and comes
-- from a loose file with the public id that was made for it, or from a folder whose name is its public
-- id and is none of those that the database had at the start. (The query of those ids meets no error.)
pub seed_posts-Grows :
    (parse_time : Text → Result Stamp) (blogs : List BlogPosts) (c : Call) (db : Db)
    {existing : List Text}
    → (get_all_post_public_ids c db).0 ≡ ok existing
    → Grows
        (λ r. Some (IsOfBlog parse_time db.blogs existing r) blogs)
        db
        (seed_posts parse_time none (ok blogs) c db).1
unfolding seed_posts
seed_posts-Grows parse_time blogs c db {existing} h =
    rw (h, seed_posts) (seed_each_blog-Grows parse_time db.blogs existing blogs db refl)
