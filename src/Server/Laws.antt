-- ===== src/Server/Laws.antt =====
-- cmd/blogengine/main.go: what holds when the server starts to listen, and what a failed start leaves.
use blogengine.Prelude.{
  ◌≡◌, refl, sym, ap, ◌∙◌, inl, inr, ◌⊎◌, Bool, Option, none, some, arith, Option-cases,
}
use blogengine.Prelude.Text.{Text, codes}
use blogengine.Errors.{Sentinel, Result, ok, err}
use blogengine.Storage.{Stamp}
use blogengine.Storage.S3.{Bucket, save}
use blogengine.Config.Validate.{Invalid, validate}
use blogengine.Sqlite.Database.{Db}
use blogengine.Sqlite.Invariant.WellFormed.{IsWellFormed}
use blogengine.Content.Repository.{new_local_repository}
use blogengine.Seeder.PostWalk.{seed}
use blogengine.Seeder.PostWalkLaws.{seed-IsWellFormed}
use blogengine.Server.{
  panics, exits, Stage, stopped, ready, Environment, World, or_exit, health_key, ensure_admin,
  after_admin, open_database, check_bucket, start_up,
}
use blogengine.Server.Admin.{HasAdmin, ensure_admin_inv, ensure_admin-IsWellFormed}

module _ {B : Type 0} where
  or_exit-ready :
      (o : Option Sentinel) (w : World B) (rest : Stage × World B) {w' : World B}
      → or_exit o w rest ≡ (ready, w')
      → (o ≡ none) × (rest ≡ (ready, w'))
  or_exit-ready none w rest h = (refl, h)
  or_exit-ready (some e) w rest h = absurd (ground (arith, h))

  or_exit-IsWellFormed :
      (o : Option Sentinel) (w : World B) (rest : Stage × World B)
      → IsWellFormed w.db
      → IsWellFormed rest.1.db
      → IsWellFormed (or_exit o w rest).1.db
  or_exit-IsWellFormed none w rest h k = k
  or_exit-IsWellFormed (some e) w rest h k = h

module _ (parse_time : Text → Result Stamp) where
  after_admin-IsWellFormed :
      {B : Type 0} (env : Environment) (b : B) (r : Result (Unit {0}) × Db)
      → IsWellFormed r.1
      → IsWellFormed (after_admin parse_time env b r).1.db
  after_admin-IsWellFormed env b (err e, db) w = w
  after_admin-IsWellFormed env b (ok u, db) w =
      seed-IsWellFormed parse_time env.sources env.ids_call db w

  -- the server is ready, and the database is what the seeding made of one with an administrator
  abbrev pub IsServing : {B : Type 0} → Environment → World B → Type 0
  IsServing env w =
      (db : Db) × (HasAdmin db × (w.db ≡ (seed parse_time env.sources env.ids_call db).1))

  after_admin-ready :
      {B : Type 0} (env : Environment) (b : B) (r : Result (Unit {0}) × Db) {w' : World B}
      → (r.0 ≡ ok tt → HasAdmin r.1)
      → after_admin parse_time env b r ≡ (ready, w')
      → IsServing env w'
  after_admin-ready env b (err e, db) k h = absurd (ground (arith, h))
  after_admin-ready {B} env b (ok u, db) k h =
      (db, (k refl, ap (λ (x : Stage × World B). x.1.db) (sym h)))

  ensured :
      (env : Environment) (db : Db)
      → let r =
          ensure_admin env.admin_hash env.first_lookup env.second_lookup env.admin_insert db in
        r.0 ≡ ok tt → HasAdmin r.1
  ensured env db k =
      let r = ensure_admin env.admin_hash env.first_lookup env.second_lookup env.admin_insert db in
      ensure_admin_inv env.admin_hash env.first_lookup env.second_lookup env.admin_insert db
        {db' = r.1} (ap (λ x. (x, r.1)) k)

  abbrev admin_step : {B : Type 0} → Environment → World B → Stage × World B
  admin_step env w =
      after_admin parse_time env w.bucket
        (ensure_admin env.admin_hash env.first_lookup env.second_lookup env.admin_insert w.db)

  abbrev files_step : {B : Type 0} → Environment → World B → Stage × World B
  files_step env w = or_exit env.glob w (
      or_exit env.working_dir w
        (or_exit env.db_opened w (or_exit env.migrated w (admin_step env w))))

  open_database-cases :
      {B : Type 0} (env : Environment) (w : World B)
      → (open_database parse_time env w ≡ (stopped (exits 1), w))
        ⊎ (open_database parse_time env w ≡ files_step env w)
  unfolding open_database
  open_database-cases env w = elim (Option-cases (new_local_repository env.config.app.name)) [
    | inl n ↦ inl (ground (arith, n))
    | inr (r, n) ↦ inr (ground (arith, n))
  ]

  open_database-ready :
      {B : Type 0} (env : Environment) (w : World B) {w' : World B}
      → open_database parse_time env w ≡ (ready, w')
      → (env.db_opened ≡ none) × (env.migrated ≡ none) × IsServing env w'
  open_database-ready env w {w'} h = elim (open_database-cases env w) [
    | inl e ↦ absurd (ground (arith, sym e ∙ h))
    | inr e ↦
        let (g, h1) = or_exit-ready env.glob w _ (sym e ∙ h) in
        let (d, h2) = or_exit-ready env.working_dir w _ h1 in
        let (o, h3) = or_exit-ready env.db_opened w _ h2 in
        let (m, h4) = or_exit-ready env.migrated w _ h3 in
        (
          o,
          m,
          after_admin-ready env w.bucket
              (ensure_admin env.admin_hash env.first_lookup env.second_lookup env.admin_insert w.db)
              (ensured env w.db) h4,
        )
  ]

  open_database-IsWellFormed :
      {B : Type 0} (env : Environment) (w : World B)
      → IsWellFormed w.db
      → IsWellFormed (open_database parse_time env w).1.db
  open_database-IsWellFormed env w h = elim (open_database-cases env w) [
    | inl e ↦ rw e h
    | inr e ↦
        let admin =
          after_admin-IsWellFormed env w.bucket
            (ensure_admin env.admin_hash env.first_lookup env.second_lookup env.admin_insert w.db)
            (ensure_admin-IsWellFormed env.admin_hash env.first_lookup env.second_lookup
              env.admin_insert w.db h) in
        rw e (
          or_exit-IsWellFormed env.glob w _ h (
            or_exit-IsWellFormed env.working_dir w _ h (
              or_exit-IsWellFormed env.db_opened w _ h
                (or_exit-IsWellFormed env.migrated w _ h admin))))
  ]

  module _ {B : Type 0} (is_uuid is_url : Text → Bool) (m : Bucket B) where
    start_up-cases :
        (env : Environment) (w : World B)
        → ((invalid : Invalid) × (validate is_uuid is_url env.config ≡ some invalid)
            × (start_up parse_time is_uuid is_url m env w ≡ (stopped panics, w)))
          ⊎ ((validate is_uuid is_url env.config ≡ none)
              × (start_up parse_time is_uuid is_url m env w
                  ≡ or_exit env.telemetry_init w (
                      or_exit env.metrics_init w (check_bucket parse_time is_uuid is_url m env w))))
    unfolding start_up
    start_up-cases env w = elim (Option-cases (validate is_uuid is_url env.config)) [
      | inl n ↦ inr (n, ground (arith, n))
      | inr (i, n) ↦ inl (i, n, ground (arith, n))
    ]

    check_bucket-ready :
        (env : Environment) (w : World B) {w' : World B}
        → check_bucket parse_time is_uuid is_url m env w ≡ (ready, w')
        → ((save m health_key (codes "ok") w.bucket).0 ≡ none)
          × (env.db_opened ≡ none)
          × (env.migrated ≡ none)
          × IsServing env w'
    unfolding check_bucket
    check_bucket-ready env w h =
        let (s, h1) = or_exit-ready (save m health_key (codes "ok") w.bucket).0 _ _ h in
        let (o, r, serving) = open_database-ready env _ h1 in (s, o, r, serving)

    check_bucket-IsWellFormed :
        (env : Environment) (w : World B)
        → IsWellFormed w.db
        → IsWellFormed (check_bucket parse_time is_uuid is_url m env w).1.db
    unfolding check_bucket
    check_bucket-IsWellFormed env w h =
        or_exit-IsWellFormed (save m health_key (codes "ok") w.bucket).0 _ _ h
          (open_database-IsWellFormed env _ h)

    -- The server listens only with a configuration that passes, a bucket that took the object of the
    -- health check, a database that is open and migrated, and an account of the administrator: it was
    -- there, and live, when the seeding began, whose errors do not matter.
    pub start_up-ready :
        (env : Environment) (w : World B) {w' : World B}
        → start_up parse_time is_uuid is_url m env w ≡ (ready, w')
        → (validate is_uuid is_url env.config ≡ none)
          × ((save m health_key (codes "ok") w.bucket).0 ≡ none)
          × (env.db_opened ≡ none)
          × (env.migrated ≡ none)
          × IsServing env w'
    start_up-ready env w {w'} h = elim (start_up-cases env w) [
      | inl (i, n, e) ↦ absurd (ground (arith, sym e ∙ h))
      | inr (n, e) ↦
          let (t, h1) = or_exit-ready env.telemetry_init w _ (sym e ∙ h) in
          let (k, h2) = or_exit-ready env.metrics_init w _ h1 in
          let (s, o, r, serving) = check_bucket-ready env w h2 in (n, s, o, r, serving)
    ]

    -- A start keeps the database well formed, however far it gets; with a configuration that does not
    -- pass the process panics, and leaves the database and the bucket as they were.
    pub start_up-IsWellFormed :
        (env : Environment) (w : World B)
        → IsWellFormed w.db
        → IsWellFormed (start_up parse_time is_uuid is_url m env w).1.db
          × ((invalid : Invalid)
              → validate is_uuid is_url env.config ≡ some invalid
              → start_up parse_time is_uuid is_url m env w ≡ (stopped panics, w))
    start_up-IsWellFormed env w h = elim (start_up-cases env w) [
      | inl (i, n, e) ↦ (rw e h, λ j k. e)
      | inr (n, e) ↦ (
        rw e (
            or_exit-IsWellFormed env.telemetry_init w _ h
              (or_exit-IsWellFormed env.metrics_init w _ h (check_bucket-IsWellFormed env w h))),
        λ j k. absurd (ground (arith, sym n ∙ k)),
      )
    ]
