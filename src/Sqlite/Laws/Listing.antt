-- ===== src/Sqlite/Laws/Listing.antt =====
-- What the lists of blogs and posts, and the query for one post, let a visitor see.
use blogengine.Prelude.{
  ℕ, suc, ◌≤◌, ◌≡◌, refl, ap, ◌∙◌, ◌⊎◌, inl, inr, All-find, Bool, true, ◌&&◌, List, [], ◌∷◌, map,
  Option, none, some, find, find_sound, select, All, All-mono, All-map, length, arith, Bool-cases,
  Option-cases,
}
use blogengine.Prelude.Int.{ℤ, pos, negsuc, ◌==ℤ◌}
use blogengine.Prelude.Text.{Text, text_eq, text_eq_sound}
use blogengine.Errors.{ok}
use blogengine.Storage.{Stamp, Post, visibility_public}
use blogengine.Sqlite.Database.{Db, Call, BlogRow, PostRow, limit_rows, offset_rows, order_last}
use blogengine.Sqlite.Posts.Queries.{
  Joined, join_posts, is_shown, is_public_post, published_time, read_post, page,
  get_latest_public_posts, get_post_by_slug_or_public_id, is_named,
}
use blogengine.Prelude.TextSort.{leb_text, IsLastFirst, All-order_last, order_last-IsLastFirst}
use blogengine.Sqlite.Laws.Pages.{IsLastFirst-page, All-page, length-limit}

-- A post that may be shown at a CURRENT_TIMESTAMP: it is a listed post whose time of publication, as the
-- driver stored it, is not after that text, and its blog is there and not deleted.
pub record IsShown (db : Db) (timestamp : Text) (p : Post) : Type 0 where
  pub listed : p.is_listed ≡ true
  pub time : Stamp
  pub published : p.published_at ≡ some time
  pub past : leb_text time timestamp ≡ true
  pub blog : BlogRow
  pub named : find (λ b. b.id ==ℤ p.blog_id) db.blogs ≡ some blog
  pub slug : p.blog_slug ≡ blog.slug
  pub live : blog.deleted_at ≡ none

-- the blog of a post that is shown is public
abbrev pub IsPublic : Db → Post → Type 0
IsPublic db p =
    (b : BlogRow) × (find (λ x. x.id ==ℤ p.blog_id) db.blogs ≡ some b)
    × (b.visibility ≡ visibility_public)

abbrev IsJoined : Db → Joined → Type 0
IsJoined db j = find (λ b. b.id ==ℤ j.post.blog_id) db.blogs ≡ some j.blog

join_posts-IsJoined : (db : Db) (ps : List PostRow) → All (IsJoined db) (join_posts db ps)
unfolding join_posts
join_posts-IsJoined db [] = tt
join_posts-IsJoined db (p ∷ ps) = ground (
  arith,
  join_posts-IsJoined db ps,
  Option-cases (find (λ b. b.id ==ℤ p.blog_id) db.blogs),
  Option-cases (find (λ u. u.id ==ℤ p.author_id) db.users),
)

IsShown-of_joined :
    (db : Db) (timestamp : Text) (s3_key : Text) (j : Joined)
    → IsJoined db j
    → is_shown timestamp j ≡ true
    → IsShown db timestamp (read_post s3_key j)
unfolding read_post
IsShown-of_joined db timestamp s3_key j joined h = dated j.post.published_at refl
  where
    dated : (o : Option Stamp) → j.post.published_at ≡ o → IsShown db timestamp (read_post s3_key j)
    dated none e = absurd (ground (arith, e))
    dated (some t) e = record {
      listed = ground arith;
      time = t;
      published = e;
      past = ground (arith, e);
      blog = j.blog;
      named = joined;
      slug = refl;
      live = ground (arith, e);
    }

select_joined :
    (db : Db) (test : Joined → Bool) (js : List Joined)
    → All (IsJoined db) js
    → All (λ j. IsJoined db j × (test j ≡ true)) (select test js)
select_joined db test [] h = tt
select_joined db test (j ∷ js) (h, hs) = elim (Bool-cases (test j)) [
  | inl e ↦ rw e ((h, e), select_joined db test js hs)
  | inr e ↦ rw e (select_joined db test js hs)
]

-- when a listed post was published
abbrev pub post_time : Post → Stamp
post_time p = elim p.published_at [ none ↦ [] | some t ↦ t ]

module _ (db : Db) (test : Joined → Bool) (offset limit : ℤ) where
  abbrev rows_of : List Joined
  rows_of =
      limit_rows limit
        (offset_rows offset (order_last published_time (select test (join_posts db db.posts))))

  page-All :
      (P : Post → Type 0)
      → ((j : Joined) → IsJoined db j → test j ≡ true → P (read_post [] j))
      → All P (page offset limit (select test (join_posts db db.posts)))
  page-All P sound = All-map P (read_post []) rows_of (
      All-mono (λ j (joined, passed). sound j joined passed) rows_of
        (All-page (λ j. IsJoined db j × (test j ≡ true)) offset limit
          (order_last published_time (select test (join_posts db db.posts)))
          (All-order_last published_time (λ j. IsJoined db j × (test j ≡ true))
            (select test (join_posts db db.posts))
            (select_joined db test (join_posts db db.posts) (join_posts-IsJoined db db.posts)))))

  map-IsLastFirst :
      (js : List Joined)
      → IsLastFirst published_time js
      → IsLastFirst post_time (map (read_post []) js)
  unfolding read_post
  map-IsLastFirst [] d = tt
  map-IsLastFirst (j ∷ js) (dj, d) = (All-map _ (read_post []) js dj, map-IsLastFirst js d)

  page-IsLastFirst :
      IsLastFirst post_time (page offset limit (select test (join_posts db db.posts)))
  page-IsLastFirst = map-IsLastFirst rows_of (
      IsLastFirst-page published_time offset limit
        (order_last published_time (select test (join_posts db db.posts)))
        (order_last-IsLastFirst published_time (select test (join_posts db db.posts))))

length-map {ℓ κ} :
    {A : Type ℓ} {B : Type κ} (f : A → B) (xs : List A) → length (map f xs) ≡ length xs
length-map f [] = refl
length-map f (x ∷ xs) = ap suc (length-map f xs)

length-page : (offset : ℤ) (n : ℕ) (js : List Joined) → length (page offset (pos n) js) ≤ n
length-page offset n js =
    rw length-map (length-limit n (offset_rows offset (order_last published_time js)))

latest_inv :
    (offset limit : ℤ) (c : Call) (db : Db) {ps : List Post} {db' : Db}
    → get_latest_public_posts offset limit c db ≡ (ok ps, db')
    → (n : ℕ) × (limit ≡ pos n)
      × (ps ≡ page offset limit (select (is_public_post c.timestamp) (join_posts db db.posts)))
      × (db' ≡ db)
unfolding get_latest_public_posts
latest_inv offset (pos n) c db h = (n, refl, ground arith, ground arith)
latest_inv offset (negsuc n) c db h = absurd (ground arith)

-- The home page's posts are listed, each has a time of publication whose stored text is not after the
-- text of CURRENT_TIMESTAMP at the call, and they are of blogs that are public and not deleted; they are
-- no more than the limit, and none has a text of publication that is greater than one before it.
pub latest_posts-IsShown :
    (offset limit : ℤ) (c : Call) (db : Db) {ps : List Post} {db' : Db}
    → get_latest_public_posts offset limit c db ≡ (ok ps, db')
    → All (λ p. IsShown db c.timestamp p × IsPublic db p) ps
      × IsLastFirst post_time ps
      × ((n : ℕ) × (limit ≡ pos n) × (length ps ≤ n))
      × (db' ≡ db)
latest_posts-IsShown offset limit c db {ps} h =
    let (n, bounded, listed, same) = latest_inv offset limit c db h in
    (
      rw listed (
          page-All db (is_public_post c.timestamp) offset limit
            (λ p. IsShown db c.timestamp p × IsPublic db p)
            (λ j joined t. (
              IsShown-of_joined db c.timestamp [] j joined (ground arith),
              unfold read_post in
                  (
                    j.blog,
                    joined,
                    text_eq_sound j.blog.visibility visibility_public (ground arith),
                  ),
            ))),
      rw listed (page-IsLastFirst db (is_public_post c.timestamp) offset limit),
      (
        n,
        bounded,
        rw (listed, bounded)
            (length-page offset n (select (is_public_post c.timestamp) (join_posts db db.posts))),
      ),
      same,
    )

find_joined :
    (db : Db) (test : Joined → Bool) (js : List Joined) {j : Joined}
    → All (IsJoined db) js
    → find test js ≡ some j
    → IsJoined db j × (test j ≡ true)
find_joined db test js {j} all h = (All-find (IsJoined db) test js all h, find_sound test js h)

named_slug :
    (blog_slug identifier : Text) (j : Joined)
    → is_named blog_slug identifier j ≡ true
    → j.blog.slug ≡ blog_slug
named_slug blog_slug identifier j e = text_eq_sound j.blog.slug blog_slug (ground arith)

named_by :
    (blog_slug identifier : Text) (j : Joined)
    → is_named blog_slug identifier j ≡ true
    → (j.post.slug ≡ some identifier) ⊎ (j.post.public_id ≡ identifier)
named_by blog_slug identifier j e = elim (Bool-cases (text_eq j.post.public_id identifier)) [
  | inl t ↦ inr (text_eq_sound j.post.public_id identifier t)
  | inr f ↦ elim (Option-cases j.post.slug) [
    | inl n ↦ absurd (ground (arith, f, n))
    | inr (s, n) ↦ inl (n ∙ ap some (text_eq_sound s identifier (ground (arith, f, n))))
  ]
]

get_post_inv :
    (blog_slug identifier : Text) (c : Call) (db : Db) {p : Post} {db' : Db}
    → get_post_by_slug_or_public_id blog_slug identifier c db ≡ (ok p, db')
    → (j : Joined) × (find
          (λ x. is_named blog_slug identifier x && is_shown c.timestamp x)
          (join_posts db db.posts)
        ≡ some j)
      × (p ≡ read_post j.post.s3_key j)
      × (db' ≡ db)
unfolding get_post_by_slug_or_public_id
get_post_inv blog_slug identifier c db h =
    elim (Option-cases (
      find (λ x. is_named blog_slug identifier x && is_shown c.timestamp x)
        (join_posts db db.posts))) [
          | inl e ↦ absurd (ground (arith, e))
          | inr (j, e) ↦ (j, e, ground (arith, e), ground (arith, e))
        ]

-- The post that the address of a page or of a comment form names is listed, has a time of publication
-- whose stored text is not after the text of CURRENT_TIMESTAMP at the call, and is in the blog of the
-- address, which is not deleted; the address has its slug or its public id. A draft, an unlisted post
-- or a post of a deleted blog cannot be fetched.
pub get_post-IsShown :
    (blog_slug identifier : Text) (c : Call) (db : Db) {p : Post} {db' : Db}
    → get_post_by_slug_or_public_id blog_slug identifier c db ≡ (ok p, db')
    → IsShown db c.timestamp p
      × (p.blog_slug ≡ blog_slug)
      × ((p.slug ≡ some identifier) ⊎ (p.public_id ≡ identifier))
      × (db' ≡ db)
get_post-IsShown blog_slug identifier c db {p} h =
    let (j, found, read, same) = get_post_inv blog_slug identifier c db h in
    let (joined, passed) =
      find_joined db (λ x. is_named blog_slug identifier x && is_shown c.timestamp x)
        (join_posts db db.posts) (join_posts-IsJoined db db.posts) found in
    (
      rw read (IsShown-of_joined db c.timestamp j.post.s3_key j joined (ground arith)),
      rw read (unfold read_post in named_slug blog_slug identifier j (ground arith)),
      rw read (unfold read_post in named_by blog_slug identifier j (ground arith)),
      same,
    )
