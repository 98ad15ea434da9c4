-- ===== src/Config/Validate.antt =====
-- config/config.go: Validate. The parsers of a UUID and of a URL are parameters, true if they return
-- no error.
use blogengine.Prelude.{Bool, not, ◌&&◌, ◌||◌, Option, none, some, length, ltb, ◌==◌, if◌then◌else◌}
use blogengine.Prelude.Int.{ltb_ℤ, leb_ℤ}
use blogengine.Prelude.Text.{Text, codes, text_eq, is_empty}
use blogengine.Utils.Slug.{to_lower}
use blogengine.Config.Types.{Config, default_secret}

-- the messages of Validate, by the variable that each is about
pub data Invalid : Type 0 where
  app_name app_env db_path db_migrations_path http_port http_read_timeout http_write_timeout :
      Invalid
  http_idle_timeout http_shutdown_delay limiter_rps limiter_burst session_secret_empty : Invalid
  session_secret_default asset_namespace invite_code s3_endpoint s3_region s3_bucket_name : Invalid
  s3_access_key_id s3_secret_access_key : Invalid

-- `if test { return error }`, and what follows
unfoldable pub reject : Bool → Invalid → Option Invalid → Option Invalid
reject test e rest = if test then some e else rest

-- strings.ToLower(environment) is neither dev nor prod
unfoldable pub is_bad_env : Text → Bool
unfolding to_lower
is_bad_env environment =
    not (text_eq (to_lower environment) (codes "dev"))
    && not (text_eq (to_lower environment) (codes "prod"))

abbrev pub is_prod : Text → Bool
is_prod environment = text_eq environment (codes "prod")

module _ (is_uuid is_url : Text → Bool) where
  -- the tests after those of the secret
  unfoldable pub validate_stores : Config → Option Invalid
  unfolding reject
  validate_stores c = reject (not (is_uuid c.app.asset_namespace)) asset_namespace (
      reject (ltb 50 (length c.auth.invite_code)) invite_code (
        reject (not (is_url c.object_store.endpoint)) s3_endpoint (
          reject (is_empty c.object_store.region) s3_region (
            reject (is_empty c.object_store.bucket) s3_bucket_name (
              reject (not (length c.object_store.access_key == 26)) s3_access_key_id (
                reject (not (length c.object_store.secret_key == 64)) s3_secret_access_key
                  none))))))

  unfoldable pub validate : Config → Option Invalid
  unfolding reject is_bad_env validate_stores
  validate c = reject (is_empty c.app.name) app_name (
      reject (is_bad_env c.app.environment) app_env (
        reject (is_empty c.db.path) db_path (
          reject (is_empty c.db.migrations_path) db_migrations_path (
            reject (ltb_ℤ c.http.port 1024 || not (leb_ℤ c.http.port 65535)) http_port (
              reject (leb_ℤ c.http.timeouts.read 0) http_read_timeout (
                reject (leb_ℤ c.http.timeouts.write 0) http_write_timeout (
                  reject (leb_ℤ c.http.timeouts.idle 0) http_idle_timeout (
                    reject (leb_ℤ c.http.timeouts.shutdown 0) http_shutdown_delay (
                      reject (leb_ℤ c.limiter.rps 0) limiter_rps (
                        reject (leb_ℤ c.limiter.burst 0) limiter_burst (
                          reject (is_prod c.app.environment && is_empty c.auth.session_secret)
                            session_secret_empty
                            (reject
                              (is_prod c.app.environment
                                && text_eq c.auth.session_secret default_secret)
                              session_secret_default (validate_stores c)))))))))))))
