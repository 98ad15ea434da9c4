-- ===== src/Content/RepositoryLaws.antt =====
-- content/posts.go and disk_loader.go: what was loaded is found and listed, and a text is kept.
use mathlib.Core.List.{Perm}
use mathlib.Core.List.Perm
use blogengine.Prelude.{
  ℕ, ◌==◌, ◌≡◌, refl, sym, ap, ◌∙◌, inl, inr, false, List, [], ◌∷◌, Option, none, some, map, All,
  All-mono, arith, Bool-cases, Option-cases, ==_iff, ==_refl,
}
use blogengine.Prelude.Text.{Text, trim_space}
use blogengine.Prelude.Sort.{IsDesc, order_desc-IsDesc, order_desc-Perm}
use blogengine.Content.Repository.{
  Post, LocalRepository, DiskFile, find_post, put_post, get, get_all, post_of_file, load_posts,
  load_lazy_meta_from_disk,
}
use blogengine.Content.PostContent.{OpenFile, Loaded, content_is, failed, load, keep, get_content}

find_post-put_post :
    (id : ℕ) (p : Post) (m : List (ℕ × Post)) → find_post id (put_post id p m) ≡ some p
unfolding find_post put_post
find_post-put_post id p [] = ground (arith, ==_refl id)
find_post-put_post id p ((k, q) ∷ m) = elim (Bool-cases (k == id)) [
  | inl e ↦ ground (arith, e)
  | inr e ↦ ground (arith, e, find_post-put_post id p m)
]

find_post-put_post_other :
    (id other : ℕ) (p : Post) (m : List (ℕ × Post))
    → (id == other) ≡ false
    → find_post other (put_post id p m) ≡ find_post other m
unfolding find_post put_post
find_post-put_post_other id other p [] h = ground (arith, h)
find_post-put_post_other id other p ((k, q) ∷ m) h = elim (Bool-cases (k == id)) [
  | inl e ↦ ground (arith, e, h)
  | inr e ↦ ground (arith, e, find_post-put_post_other id other p m h)
]

-- the name has not the checksum of another path
abbrev pub IsApart : (Text → ℕ) → Text → Text → Type 0
IsApart crc32 q name = crc32 (trim_space name) ≡ crc32 q → trim_space name ≡ q

module _ (crc32 : Text → ℕ) (parse_date : Text → Option ℕ) (now : ℕ)
    (disk : Text → Option DiskFile) where
  abbrev loaded : Text → Post
  loaded path = post_of_file crc32 parse_date now path (disk path)

  abbrev Has : List (ℕ × Post) → Text → Type 0
  Has posts path = find_post (crc32 path) posts ≡ some (loaded path)

  id_of_file : (path : Text) → (loaded path).id ≡ crc32 path
  unfolding post_of_file
  id_of_file path = refl

  put_post-Has :
      (path q : Text) (posts : List (ℕ × Post))
      → (crc32 path ≡ crc32 q → path ≡ q)
      → Has posts q
      → Has (put_post (crc32 path) (loaded path) posts) q
  put_post-Has path q posts apart h = elim (Bool-cases (crc32 path == crc32 q)) [
    | inr e ↦ find_post-put_post_other (crc32 path) (crc32 q) (loaded path) posts e ∙ h
    | inl e ↦
        let same : path ≡ q = apart ((==_iff (crc32 path) (crc32 q)).0 e) in
        ap (λ x. find_post (crc32 x) (put_post (crc32 path) (loaded path) posts)) (sym same)
        ∙ find_post-put_post (crc32 path) (loaded path) posts
        ∙ ap (λ x. some (loaded x)) same
  ]

  load_posts-Has :
      (names : List Text) (posts : List (ℕ × Post)) (q : Text)
      → All (IsApart crc32 q) names
      → Has posts q
      → Has (load_posts crc32 parse_date now disk names posts) q
  unfolding load_posts post_of_file
  load_posts-Has [] posts q apart h = h
  load_posts-Has (name ∷ names) posts q (a, apart) h =
      load_posts-Has names (put_post (crc32 (trim_space name)) (loaded (trim_space name)) posts) q
        apart (put_post-Has (trim_space name) q posts a h)

  load_posts_lem :
      (names : List Text) (posts : List (ℕ × Post))
      → All (λ n. All (IsApart crc32 (trim_space n)) names) names
      → All (λ name. Has (load_posts crc32 parse_date now disk names posts) (trim_space name)) names
  unfolding load_posts post_of_file
  load_posts_lem [] posts apart = tt
  load_posts_lem (name ∷ names) posts ((a, mine), others) =
      let path = trim_space name in
      let next = put_post (crc32 path) (loaded path) posts in
      (
        load_posts-Has names next path mine (find_post-put_post (crc32 path) (loaded path) posts),
        load_posts_lem names next (All-mono (λ n h. h.1) names others),
      )

-- A repository that was loaded has a post for each of the paths, found under the checksum of the path
-- without the spaces around it, also of a file that could not be opened; and GetAll lists the entries,
-- in whatever order the map is iterated, each once and the newest first. (No two of
-- the paths have one checksum.)
pub loaded_posts :
    (crc32 : Text → ℕ) (parse_date : Text → Option ℕ) (now : ℕ) (disk : Text → Option DiskFile)
    (name : Text) (names : List Text) (r : LocalRepository)
    → All (λ n. All (IsApart crc32 (trim_space n)) (name ∷ names)) (name ∷ names)
    → (after : LocalRepository) × (load_lazy_meta_from_disk crc32 parse_date now disk
          (name ∷ names)
          r
        ≡ some after)
      × All
          (λ n.
            get (crc32 (trim_space n)) after
            ≡ some (post_of_file crc32 parse_date now (trim_space n) (disk (trim_space n))))
          (name ∷ names)
      × ((entries : List (ℕ × Post))
          → Perm entries after.posts
          → Perm (get_all entries) (map (λ e. e.1) after.posts)
            × IsDesc (λ p. p.modified_at) (get_all entries))
unfolding load_lazy_meta_from_disk get get_all
loaded_posts crc32 parse_date now disk name names r apart =
    let posts = load_posts crc32 parse_date now disk (name ∷ names) r.posts in
    (
      record { title = r.title; posts = posts },
      refl,
      load_posts_lem crc32 parse_date now disk (name ∷ names) r.posts apart,
      λ entries p. (
        Perm.trans (order_desc-Perm (λ (q : Post). q.modified_at) (map (λ e. e.1) entries))
            (Perm.map (λ (e : ℕ × Post). e.1) p),
        order_desc-IsDesc (λ (q : Post). q.modified_at) (map (λ e. e.1) entries),
      ),
    )

keep-content :
    (body : Text → Option Text) (render : Text → Option Text) (p : Post) (t : Loaded) {html : Text}
    → (keep body render p t).0 ≡ content_is html
    → (keep body render p t).1.content ≡ some html
keep-content body render p (content_is h) e = ground (arith, e)
keep-content body render p (failed f) e = absurd (ground (arith, e))

module _ (body : Text → Option Text) (render : Text → Option Text) where
  get_content-cached :
      (file : Option OpenFile) (p : Post) {html : Text}
      → p.content ≡ some html
      → get_content body render file p ≡ (content_is html, p)
  unfolding get_content
  get_content-cached file p e = ground (arith, e)

  get_content-empty :
      (file : Option OpenFile) (p : Post)
      → p.content ≡ none
      → get_content body render file p ≡ keep body render p (load body render file)
  unfolding get_content
  get_content-empty file p e = ground (arith, e)

  get_content-content :
      (file : Option OpenFile) (p : Post) {html : Text}
      → (get_content body render file p).0 ≡ content_is html
      → (get_content body render file p).1.content ≡ some html
  get_content-content file p {html} h = elim (Option-cases p.content) [
    | inr (old, e) ↦
        let c = get_content-cached file p e in
        let same : content_is old ≡ content_is html = ap (λ (t : Loaded × Post). t.0) (sym c) ∙ h in
        ap (λ (t : Loaded × Post). t.1.content) c ∙ e ∙ ground (arith, same)
    | inl e ↦
        let c = get_content-empty file p e in
        ap (λ (t : Loaded × Post). t.1.content) c
        ∙ keep-content body render p (load body render file)
            (ap (λ (t : Loaded × Post). t.0) (sym c) ∙ h)
  ]

-- The text of a post is read and rendered once: after a call that succeeds every later one returns the
-- same text, whatever became of the file.
pub content_kept :
    (body : Text → Option Text) (render : Text → Option Text) (file later : Option OpenFile)
    (p : Post) {html : Text}
    → (get_content body render file p).0 ≡ content_is html
    → let q = (get_content body render file p).1 in
      get_content body render later q ≡ (content_is html, q)
content_kept body render file later p {html} h =
    get_content-cached body render later (get_content body render file p).1
      (get_content-content body render file p h)
