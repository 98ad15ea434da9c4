-- ===== src/Config/Types.antt =====
-- config/config.go: the configuration and its defaults. Durations are in nanoseconds.
use blogengine.Prelude.{ℕ, ◌*◌, Bool, true, false, []}
use blogengine.Prelude.Int.{ℤ, pos}
use blogengine.Prelude.Text.{Text, codes}

-- slog.Level
pub data Level : Type 0 where
  level_debug level_info level_warn level_error : Level

pub record HttpTimeoutsConfig : Type 0 where
  pub read : ℤ
  pub idle : ℤ
  pub write : ℤ
  pub shutdown : ℤ

pub record RateLimiterConfig : Type 0 where
  pub rps : ℤ
  pub burst : ℤ

-- its field RateLimiter is never set nor read
pub record HttpConfig : Type 0 where
  pub port : ℤ
  pub timeouts : HttpTimeoutsConfig

pub record AppConfig : Type 0 where
  pub name : Text
  pub environment : Text
  pub sources_dir : Text
  pub asset_namespace : Text

pub record DbConfig : Type 0 where
  pub path : Text
  pub migrations_path : Text

pub record ProxyConfig : Type 0 where
  pub trusted : Bool
  pub token : Text

pub record TelemetryConfig : Type 0 where
  pub enable_telemetry : Bool
  pub otel_endpoint : Text

pub record AuthConfig : Type 0 where
  pub session_secret : Text
  pub invite_code : Text

pub record S3Config : Type 0 where
  pub endpoint : Text
  pub region : Text
  pub bucket : Text
  pub access_key : Text
  pub secret_key : Text

pub record Config : Type 0 where
  pub app : AppConfig
  pub db : DbConfig
  pub object_store : S3Config
  pub proxy : ProxyConfig
  pub http : HttpConfig
  pub limiter : RateLimiterConfig
  pub logger : Level
  pub metrics : TelemetryConfig
  pub auth : AuthConfig

abbrev pub second : ℕ
second = 1000000000

abbrev pub default_secret : Text
default_secret = codes "very-secret-key-change-me-in-production"

abbrev pub default_config : Config
default_config = record {
  app = record {
    name = codes "Your blog";
    environment = codes "dev";
    sources_dir = codes "./sources";
    asset_namespace = codes "570e8400-c29b-45d4-a716-446655440700";
  };
  db = record { path = codes "blogengine.db"; migrations_path = codes "./migrations" };
  object_store = record {
    endpoint = codes "http://garage:3900";
    region = codes "garage";
    bucket = codes "blogengine-assets";
    access_key = [];
    secret_key = [];
  };
  proxy = record {
    trusted = true;
    token = codes "docker compose passes to cloudflared app directly";
  };
  http = record {
    port = pos 3000;
    timeouts = record {
      read = pos (5 * second);
      write = pos (10 * second);
      idle = pos (10 * 60 * second);
      shutdown = pos (10 * second);
    };
  };
  limiter = record { rps = pos 20; burst = pos 50 };
  logger = level_info;
  metrics = record { enable_telemetry = false; otel_endpoint = codes "localhost:4318" };
  auth = record { session_secret = default_secret; invite_code = [] };
}
