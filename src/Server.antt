-- ===== src/Server.antt =====
-- cmd/blogengine/main.go: the start of the process and its end. What the libraries, the file system and
-- the drivers answer is an argument, and so is what the file system answers to the seeding. The parts
-- that only allocate (limiters, sessions, handlers, the router) cannot fail and are left out here.
pub mod Admin
pub mod Laws
use blogengine.Prelude.{ℕ, Bool, List, [], ◌∷◌, Option, none, some, if◌then◌else◌}
use blogengine.Prelude.Text.{Text, codes}
use blogengine.Errors.{Sentinel, Result, ok, err, errors_is_not_found}
use blogengine.Storage.{Stamp}
use blogengine.Storage.S3.{Bucket, save}
use blogengine.Config.Types.{Config}
use blogengine.Config.Validate.{validate}
use blogengine.Sqlite.Database.{Db, Call}
use blogengine.Sqlite.Users.{get_user_by_username}
use blogengine.Sqlite.Bootstrap.{default_admin_username, bootstrap}
use blogengine.Content.Sync.{Entry, sync_assets}
use blogengine.Content.Repository.{new_local_repository}
use blogengine.Seeder.PostWalk.{SourceDir, seed}

pub data Outcome : Type 0 where
  panics : Outcome
  exits : (code : ℕ) → Outcome

-- where main stands when it calls Run: stopped before, or ready
pub data Stage : Type 0 where
  stopped : Outcome → Stage
  ready : Stage

-- what the rest of the system answers, in the order of the questions
pub record Environment : Type 0 where
  pub config : Config
  pub telemetry_init : Option Sentinel
  pub metrics_init : Option Sentinel
  pub sources_opened : Option Sentinel
  pub entries : List Entry
  pub glob : Option Sentinel
  pub working_dir : Option Sentinel
  pub db_opened : Option Sentinel
  pub migrated : Option Sentinel
  pub admin_hash : Result Text
  pub first_lookup : Call
  pub second_lookup : Call
  pub admin_insert : Call
  pub sources : SourceDir
  pub ids_call : Call

pub record World (B : Type 0) : Type 0 where
  pub db : Db
  pub bucket : B

-- `if err != nil { logger.Error(…); os.Exit(1) }`, and what follows
abbrev pub or_exit : {B : Type 0} → Option Sentinel → World B → Stage × World B → Stage × World B
or_exit none w rest = rest
or_exit (some e) w rest = (stopped (exits 1), w)

abbrev pub health_key : Text
health_key = codes "health-check-ping"

-- the lookup of the administrator, and the bootstrap if there is none
unfoldable pub ensure_admin :
    Result Text → (first second insert : Call) → Db → Result (Unit {0}) × Db
unfolding bootstrap
ensure_admin hash first second insert db =
    elim (get_user_by_username default_admin_username first db).0 [
      | ok u ↦ (ok tt, db)
      | err e ↦ if errors_is_not_found e then bootstrap hash second insert db else (err e, db)
    ]

module _ (parse_time : Text → Result Stamp) where
  -- from the administrator on: a seeding that fails is logged
  abbrev pub after_admin : {B : Type 0} → Environment → B → Result (Unit {0}) × Db → Stage × World B
  after_admin env b (err e, db) = (stopped (exits 1), record { db = db; bucket = b })
  after_admin env b (ok u, db) =
      (ready, record { db = (seed parse_time env.sources env.ids_call db).1; bucket = b })

  -- from the repository of local posts on
  unfoldable pub open_database : {B : Type 0} → Environment → World B → Stage × World B
  unfolding ensure_admin seed new_local_repository
  open_database env w = elim (new_local_repository env.config.app.name) [
    | none ↦ (stopped (exits 1), w)
    | some repo ↦ or_exit env.glob w (
        or_exit env.working_dir w (
          or_exit env.db_opened w (
            or_exit env.migrated w (
              after_admin env w.bucket (
                ensure_admin env.admin_hash env.first_lookup env.second_lookup env.admin_insert
                  w.db)))))
  ]

  module _ {B : Type 0} (is_uuid is_url : Text → Bool) (m : Bucket B) where
    -- SyncAssets, whose errors are logged
    abbrev pub sync_started : Option Sentinel → List Entry → B → B
    sync_started none entries b = (sync_assets m entries b).1
    sync_started (some e) entries b = b

    -- from the health check of the bucket on
    unfoldable pub check_bucket : Environment → World B → Stage × World B
    unfolding open_database save sync_assets
    check_bucket env w =
        let saved = save m health_key (codes "ok") w.bucket in
        or_exit saved.0 (record { db = w.db; bucket = saved.1 })
          (open_database env
            (record { db = w.db; bucket = sync_started env.sources_opened env.entries saved.1 }))

    -- main, until it calls Run
    unfoldable pub start_up : Environment → World B → Stage × World B
    unfolding check_bucket validate
    start_up env w = elim (validate is_uuid is_url env.config) [
      | some invalid ↦ (stopped panics, w)
      | none ↦ or_exit env.telemetry_init w (or_exit env.metrics_init w (check_bucket env w))
    ]

-- how App.Run ends: ListenAndServe fails, or a signal comes, and Shutdown and Close have their errors
pub data Ending : Type 0 where
  server_fails : Sentinel → Ending
  signalled : (shutdown close telemetry : Option Sentinel) → Ending

-- App.Run, its error; that of telemetry is logged
unfoldable pub run : Ending → Option (List Sentinel)
run (server_fails e) = some (e ∷ [])
run (signalled none close telemetry) = none
run (signalled (some e) none telemetry) = some (e ∷ [])
run (signalled (some e) (some f) telemetry) = some (e ∷ f ∷ [])

-- main
abbrev pub exit_of : Option (List Sentinel) → Outcome
exit_of none = exits 0
exit_of (some e) = exits 1

unfoldable pub finish : Stage → Ending → Outcome
unfolding run
finish (stopped outcome) ending = outcome
finish ready ending = exit_of (run ending)
