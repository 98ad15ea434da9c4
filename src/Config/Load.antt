-- ===== src/Config/Load.antt =====
-- config/config.go: LoadWithDefaults. The environment is what os.LookupEnv finds; time.ParseDuration
-- is a parameter, none being its errors.
use blogengine.Prelude.{Bool, false, [], Option, none, some, if◌then◌else◌}
use blogengine.Prelude.Int.{ℤ}
use blogengine.Prelude.Text.{Text, codes, text_eq, is_empty}
use blogengine.Strconv.{parse_int, parse_bool}
use blogengine.Utils.Slug.{to_lower}
use blogengine.Config.Types.{Level, level_debug, level_warn, level_error, Config, default_config}

abbrev pub or_fallback {ℓ} : {A : Type ℓ} → A → Option A → A
or_fallback fallback none = fallback
or_fallback fallback (some v) = v

unfoldable pub get_env : (Text → Option Text) → Text → Text → Text
get_env env key fallback = elim (env key) [
  | none ↦ fallback
  | some value ↦ if is_empty value then fallback else value
]

unfoldable pub get_env_as_bool : (Text → Option Text) → Text → Bool → Bool
unfolding parse_bool
get_env_as_bool env key fallback = elim (env key) [
  | none ↦ fallback
  | some value ↦ or_fallback fallback (parse_bool value)
]

unfoldable pub get_env_as_int : (Text → Option Text) → Text → ℤ → ℤ
unfolding parse_int
get_env_as_int env key fallback = elim (env key) [
  | none ↦ fallback
  | some value ↦ or_fallback fallback (parse_int value)
]

-- the levels that strings.ToLower of the value names
unfoldable pub parse_level : Text → Option Level
unfolding to_lower
parse_level value =
    let s = to_lower value in
    if text_eq s (codes "debug")
    then some level_debug
    else if text_eq s (codes "warning")
    then some level_warn
    else if text_eq s (codes "error")
    then some level_error
    else none

unfoldable pub get_env_as_log_level : (Text → Option Text) → Text → Level → Level
unfolding parse_level
get_env_as_log_level env key fallback = elim (env key) [
  | none ↦ fallback
  | some value ↦ or_fallback fallback (parse_level value)
]

module _ (parse_duration : Text → Option ℤ) where
  unfoldable pub get_env_as_duration : (Text → Option Text) → Text → ℤ → ℤ
  get_env_as_duration env key fallback = elim (env key) [
    | none ↦ fallback
    | some value ↦ or_fallback fallback (parse_duration value)
  ]

  -- The token of the proxy is not read, and stays empty.
  unfoldable pub load_with_defaults : (Text → Option Text) → Config
  unfolding get_env get_env_as_bool get_env_as_int get_env_as_log_level get_env_as_duration
  load_with_defaults env =
      let d = default_config in
      record {
        app = record {
          name = get_env env (codes "APP_NAME") d.app.name;
          environment = get_env env (codes "APP_ENV") d.app.environment;
          sources_dir = get_env env (codes "APP_SOURCES_DIR") d.app.sources_dir;
          asset_namespace = get_env env (codes "ASSET_NAMESPACE") d.app.asset_namespace;
        };
        db = record {
          path = get_env env (codes "DB_PATH") d.db.path;
          migrations_path = get_env env (codes "DB_MIGRATIONS_PATH") d.db.migrations_path;
        };
        object_store = record {
          endpoint = get_env env (codes "S3_ENDPOINT") d.object_store.endpoint;
          region = get_env env (codes "S3_REGION") d.object_store.region;
          bucket = get_env env (codes "S3_BUCKET_NAME") d.object_store.bucket;
          access_key = get_env env (codes "S3_ACCESS_KEY_ID") d.object_store.access_key;
          secret_key = get_env env (codes "S3_SECRET_ACCESS_KEY") d.object_store.secret_key;
        };
        proxy = record {
          trusted = get_env_as_bool env (codes "PROXY_TRUSTED") d.proxy.trusted;
          token = [];
        };
        http = record {
          port = get_env_as_int env (codes "HTTP_PORT") d.http.port;
          timeouts = record {
            read = get_env_as_duration env (codes "HTTP_READ_TIMEOUT") d.http.timeouts.read;
            write = get_env_as_duration env (codes "HTTP_WRITE_TIMEOUT") d.http.timeouts.write;
            idle = get_env_as_duration env (codes "HTTP_IDLE_TIMEOUT") d.http.timeouts.idle;
            shutdown =
                get_env_as_duration env (codes "HTTP_SHUTDOWN_DELAY") d.http.timeouts.shutdown;
          };
        };
        limiter = record {
          rps = get_env_as_int env (codes "LIMITER_RPS") d.limiter.rps;
          burst = get_env_as_int env (codes "LIMITER_BURST") d.limiter.burst;
        };
        logger = get_env_as_log_level env (codes "LOGGER_LEVEL") d.logger;
        metrics = record {
          enable_telemetry = get_env_as_bool env (codes "ENABLE_TELEMETRY") false;
          otel_endpoint = get_env env (codes "OTEL_EXPORTER_OTLP_ENDPOINT") d.metrics.otel_endpoint;
        };
        auth = record {
          session_secret = get_env env (codes "SESSION_SECRET") d.auth.session_secret;
          invite_code = get_env env (codes "INVITE_CODE") d.auth.invite_code;
        };
      }
