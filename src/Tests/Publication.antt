-- ===== src/Tests/Publication.antt =====
-- A post that is published on the small database, and its page.
use blogengine.Prelude.{
  ◌≡◌, refl, true, false, not, ◌&&◌, List, [], ◌∷◌, ◌++◌, if◌then◌else◌, some, none, find,
}
use blogengine.Prelude.Int.{pos, ◌==ℤ◌}
use blogengine.Prelude.Text.{Text, codes, text_eq}
use blogengine.Prelude.TextSort.{leb_text}
use blogengine.Errors.{ok}
use blogengine.Storage.{User, Post, Comment, CreatePostParams}
use blogengine.Sqlite.Table.{insert}
use blogengine.Sqlite.Database.{Db, calm, first_hour, post_clash}
use blogengine.Sqlite.Posts.{
  new_post, create_post, prepare_post, insert_post, created_post, gen_post_s3_key,
}
use blogengine.Sqlite.Posts.Queries.{is_published, get_post_by_slug_or_public_id}
use blogengine.Sqlite.Laws.Zones.{zone_is_ignored}
use blogengine.Sqlite.Laws.Publication.{as_read, get-create_post}
use blogengine.Handlers.Web.{Request, shows, post, new_common_data, answers}
use blogengine.Handlers.Pages.{handle_post}
use blogengine.Handlers.Laws.Publication.{published_page}
use blogengine.Tests.World.{notes_blog, first_post, world, world-IsWellFormed}
use blogengine.Tests.Handlers
use blogengine.Tests.Handlers.{nobody}

abbrev news : CreatePostParams
news = record {
  public_id = codes "mnopqrstuvwx";
  blog_id = pos 1;
  author_id = pos 1;
  slug = some (codes "good-news");
  title = codes "Good news";
  description = none;
  is_encrypted = false;
  encryption_iv = none;
  requires_auth = false;
  is_listed = true;
  allow_comments = true;
  published_at = some (codes "1970-01-01 00:01:00 +0000 UTC");
}

abbrev published : Post × Db
published =
    let row = new_post (calm 60) world news (codes "mnopqrstuvwx") (codes "notes/mnopqrstuvwx") in
    (created_post row, record world { posts = row ∷ first_post ∷ []; post_seq = 2 })

publishes : create_post news (ok []) (calm 60) (calm 60) world ≡ (ok published.0, published.1)
unfolding create_post prepare_post insert_post created_post insert post_clash gen_post_s3_key
publishes = refl

get-create_post_example :
    (u : User) × (find (λ x. x.id ==ℤ pos 1) world.users ≡ some u)
    × (codes "notes/mnopqrstuvwx" ≡ codes "notes" ++ 47 ∷ codes "mnopqrstuvwx")
    × (get_post_by_slug_or_public_id (codes "notes") (codes "mnopqrstuvwx") (calm 61) published.1
        ≡ (ok (as_read published.0 notes_blog u), published.1))
unfolding created_post
get-create_post_example =
    get-create_post news (ok []) (calm 60) (calm 60) (calm 61) world {b = notes_blog}
      world-IsWellFormed refl refl refl publishes refl refl

-- the address of its page
abbrev news_address : Request
news_address = record {
  form_value = λ name. [];
  path_value =
      λ name. if text_eq name (codes "blog_slug") then codes "notes" else codes "mnopqrstuvwx";
  referer = [];
}

published_page_example :
    (u : User) × (comments : List Comment) × (handle_post Handlers.site news_address
        (calm 61)
        (calm 61)
        published.1
        nobody
      ≡ answers Handlers.site
          (shows 200 (
            post
              (new_common_data Handlers.site nobody)
              (as_read published.0 notes_blog u)
              []
              comments))
          published.1
          nobody)
unfolding created_post
published_page_example =
    published_page Handlers.site news (ok []) (calm 60) (calm 60) (calm 61) (calm 61) world
      news_address nobody {b = notes_blog} world-IsWellFormed refl refl refl publishes refl refl
      refl refl refl

-- The zone of a post that was published half a minute before the call: the post is not shown until five
-- hours later.
abbrev ahead : Text
ahead = codes " +0500 +0500"

zone_is_ignored_example :
    is_published (first_hour 60) (some (codes "1970-01-01 05:00:30" ++ ahead)) ≡ (
      leb_text (codes "1970-01-01 05:00:30") (first_hour 60)
      && not (text_eq (codes "1970-01-01 05:00:30") (first_hour 60)))
zone_is_ignored_example =
    zone_is_ignored (codes "1970-01-01 05:00:30") (first_hour 60) (codes "+0500 +0500") 32 refl

not_yet : is_published (first_hour 60) (some (codes "1970-01-01 05:00:30" ++ ahead)) ≡ false
not_yet = refl
