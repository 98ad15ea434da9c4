-- ===== src/Tests/Server.antt =====
-- The process starts on an empty database.
use blogengine.Prelude.{◌≡◌, refl, Bool, true, [], none}
use blogengine.Prelude.Text.{Text, codes, lower_ascii}
use blogengine.Errors.{Result, ok, err, map_sql_error, errors_is_not_found}
use blogengine.Storage.{Stamp}
use blogengine.Storage.S3.{save}
use blogengine.Config.Types.{Config, default_config}
use blogengine.Config.Validate.{reject, is_bad_env, validate_stores, validate}
use blogengine.Utils.Slug.{to_lower}
use blogengine.Sqlite.Table.{insert}
use blogengine.Sqlite.Database.{calm, empty_db, char_count, same_name, user_check}
use blogengine.Sqlite.Users.{create_user, get_user_by_username}
use blogengine.Sqlite.Bootstrap.{bootstrap}
use blogengine.Content.Repository.{new_local_repository}
use blogengine.Seeder.PostWalk.{SourceDir}
use blogengine.Server.{
  Environment, World, ready, health_key, ensure_admin, open_database, check_bucket, start_up,
}
use blogengine.Server.Laws.{IsServing, start_up-ready}
use blogengine.Tests.World.{hash_text}
use blogengine.Tests.Shelf.{Objects, shelf}

-- the default configuration with keys for the object store
abbrev usable : Config
usable = record default_config {
  object_store = record default_config.object_store {
    access_key = codes "abcdefghijklmnopqrstuvwxyz";
    secret_key = codes "0123456789abcdef0123456789abcdef0123456789abcdef0123456789abcdef";
  };
}

abbrev no_sources : SourceDir
no_sources = record {
  opened = none;
  blog_files = [];
  blog_dirs = err [];
  opened_again = none;
  blog_posts = err [];
}

abbrev calm_start : Environment
calm_start = record {
  config = usable;
  telemetry_init = none;
  metrics_init = none;
  sources_opened = none;
  entries = [];
  glob = none;
  working_dir = none;
  db_opened = none;
  migrated = none;
  admin_hash = ok hash_text;
  first_lookup = calm 10;
  second_lookup = calm 10;
  admin_insert = calm 10;
  sources = no_sources;
  ids_call = calm 10;
}

abbrev anything : Text → Bool
anything s = true

abbrev at_noon : Text → Result Stamp
at_noon s = ok (codes "1970-01-01 00:00:45 +0000 UTC")

abbrev empty_world : World Objects
empty_world = record { db = empty_db; bucket = [] }

abbrev started : World Objects
started = (start_up at_noon anything anything shelf calm_start empty_world).1

starts : start_up at_noon anything anything shelf calm_start empty_world ≡ (ready, started)
unfolding start_up check_bucket open_database ensure_admin validate validate_stores reject
    is_bad_env to_lower new_local_repository save bootstrap get_user_by_username create_user
    map_sql_error errors_is_not_found insert user_check char_count same_name lower_ascii
starts = refl

start_up-ready_example :
    (validate anything anything usable ≡ none)
    × ((save shelf health_key (codes "ok") []).0 ≡ none)
    × (calm_start.db_opened ≡ none)
    × (calm_start.migrated ≡ none)
    × IsServing at_noon calm_start started
start_up-ready_example =
    start_up-ready at_noon anything anything shelf calm_start empty_world {w' = started} starts
