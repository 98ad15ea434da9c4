-- ===== src/Content/Repository.antt =====
-- content/posts.go and disk_loader.go: the posts of local files. CRC-32 is a parameter; the map is a
-- list of pairs with each id once; times are in seconds.
use blogengine.Prelude.{ℕ, suc, ◌==◌, ◌&&◌, List, [], ◌∷◌, Option, none, some, map, if◌then◌else◌}
use blogengine.Prelude.Text.{Text, codes, is_empty, trim_space}
use blogengine.Prelude.Sort.{order_desc}

pub record Post : Type 0 where
  pub id : ℕ
  pub title : Text
  pub author : Text
  pub description : Text
  pub modified_at : ℕ
  pub path : Text
  pub content : Option Text

pub record LocalRepository : Type 0 where
  pub title : Text
  pub posts : List (ℕ × Post)

-- NewLocalRepository; none is ErrRepositoryTitle
unfoldable pub new_local_repository : Text → Option LocalRepository
new_local_repository title =
    if is_empty title then none else some (record { title = title; posts = [] })

-- r.Data[id], and r.Data[id] = post
unfoldable pub find_post : ℕ → List (ℕ × Post) → Option Post
find_post id [] = none
find_post id ((k, p) ∷ m) = let rest = find_post id m in if k == id then some p else rest

unfoldable pub put_post : ℕ → Post → List (ℕ × Post) → List (ℕ × Post)
put_post id p [] = (id, p) ∷ []
put_post id p ((k, q) ∷ m) =
    let rest = put_post id p m in if k == id then (k, p) ∷ m else (k, q) ∷ rest

-- Get; none is ErrPostNotFound
unfoldable pub get : ℕ → LocalRepository → Option Post
unfolding find_post
get id r = find_post id r.posts

-- GetAll, of the entries in the order of the iteration over the map. sort.Slice keeps no order among
-- posts of one time.
unfoldable pub get_all : List (ℕ × Post) → List Post
get_all entries = order_desc (λ p. p.modified_at) (map (λ e. e.1) entries)

-- metaData, what the loader reads of it
pub record MetaData : Type 0 where
  pub title : Text
  pub description : Text
  pub author : Text
  pub modified_at : Text

-- a file that was opened: its frontmatter, if it parses, its lines, and its time, if Stat gives it
pub record DiskFile : Type 0 where
  pub meta : Option MetaData
  pub lines : List Text
  pub mod_time : Option ℕ

-- strings.Cut(line, "# "), what is after
unfoldable pub after_hash : Text → Option Text
after_hash [] = none
after_hash (c ∷ []) = none
after_hash (c ∷ d ∷ s) =
    let rest = after_hash (d ∷ s) in if c == 35 && d == 32 then some s else rest

unfoldable pub scan_title : (left : ℕ) → List Text → Text
unfolding after_hash
scan_title ℕ.zero lines = codes "Untitled Post"
scan_title (suc left) [] = codes "Untitled Post"
scan_title (suc left) (line ∷ lines) =
    let rest = scan_title left lines in
    elim (after_hash line) as (λ _. Text) [ some title ↦ trim_space title | none ↦ rest ]

-- fallbackTitleScan: the first 20 lines
unfoldable pub fallback_title_scan : List Text → Text
unfolding scan_title
fallback_title_scan lines = scan_title 20 lines

abbrev no_meta : MetaData
no_meta = record { title = []; description = []; author = []; modified_at = [] }

-- what the reads of a file give: none, if it could not be opened
abbrev read_meta : Option DiskFile → Option MetaData
read_meta none = none
read_meta (some f) = f.meta

abbrev read_lines : Option DiskFile → List Text
read_lines none = []
read_lines (some f) = f.lines

abbrev read_time : Option DiskFile → Option ℕ
read_time none = none
read_time (some f) = f.mod_time

abbrev meta_or_empty : Option MetaData → MetaData
meta_or_empty none = no_meta
meta_or_empty (some m) = m

-- the title, by the scan if the frontmatter has none
abbrev title_of : Option MetaData → List Text → Text
title_of meta lines =
    let m = meta_or_empty meta in if is_empty m.title then fallback_title_scan lines else m.title

abbrev or_time : Option ℕ → ℕ → ℕ
or_time none t = t
or_time (some u) t = u

module _ (crc32 : Text → ℕ) (parse_date : Text → Option ℕ) where
  -- the post of a path: an error of opening the file is printed, and the loop goes on with it
  unfoldable pub post_of_file : (now : ℕ) → Text → Option DiskFile → Post
  unfolding fallback_title_scan
  post_of_file now path file =
      let m = meta_or_empty (read_meta file) in
      let stat = or_time (read_time file) now in
      record {
        id = crc32 path;
        title = title_of (read_meta file) (read_lines file);
        author = m.author;
        description = m.description;
        modified_at =
            if is_empty m.modified_at then stat else or_time (parse_date m.modified_at) stat;
        path = path;
        content = none;
      }

  -- LoadLazyMetaFromDisk; none is ErrNoFilePaths
  unfoldable pub load_posts :
      (now : ℕ) → (Text → Option DiskFile) → List Text → List (ℕ × Post) → List (ℕ × Post)
  unfolding post_of_file put_post
  load_posts now disk [] posts = posts
  load_posts now disk (name ∷ names) posts =
      let p = post_of_file now (trim_space name) (disk (trim_space name)) in
      load_posts now disk names (put_post p.id p posts)

  unfoldable pub load_lazy_meta_from_disk :
      (now : ℕ) → (Text → Option DiskFile) → List Text → LocalRepository → Option LocalRepository
  unfolding load_posts
  load_lazy_meta_from_disk now disk [] r = none
  load_lazy_meta_from_disk now disk (name ∷ names) r =
      some (record { title = r.title; posts = load_posts now disk (name ∷ names) r.posts })
