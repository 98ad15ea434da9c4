-- ===== src/Config/Laws.antt =====
-- config/config.go: exactly which configurations pass, and that the secret of an environment that is
-- not written `prod` is not looked at.
use blogengine.Prelude.{
  ◌≤◌, ◌≡◌, refl, ◌≢◌, ◌↔◌, inl, Bool, true, not, [], none, length, ltb, ◌==◌, arith,
}
use blogengine.Prelude.Text.{Text, codes, is_empty}
use blogengine.Config.Types.{Config}
use blogengine.Config.Validate.{validate_stores, validate}
use blogengine.Config.Fields.{
  IsPositive, IsPort, IsSecret, IsEnvironment, nonempty_iff, IsPositive-iff, IsPort-iff,
  IsEnvironment-iff, IsSecret-iff, reject-none, reject-pass,
}

module _ (is_uuid is_url : Text → Bool) where
  -- what the tests after the secret ask for
  pub record HasStores (c : Config) : Type 0 where
    pub namespace : is_uuid c.app.asset_namespace ≡ true
    pub invite_code : length c.auth.invite_code ≤ 50
    pub endpoint : is_url c.object_store.endpoint ≡ true
    pub region : c.object_store.region ≢ []
    pub bucket : c.object_store.bucket ≢ []
    pub access_key : length c.object_store.access_key ≡ 26
    pub secret_key : length c.object_store.secret_key ≡ 64

  pub record IsValid (c : Config) : Type 0 where
    pub name : c.app.name ≢ []
    pub environment : IsEnvironment c.app.environment
    pub path : c.db.path ≢ []
    pub migrations : c.db.migrations_path ≢ []
    pub port : IsPort c.http.port
    pub read : IsPositive c.http.timeouts.read
    pub write : IsPositive c.http.timeouts.write
    pub idle : IsPositive c.http.timeouts.idle
    pub shutdown : IsPositive c.http.timeouts.shutdown
    pub rps : IsPositive c.limiter.rps
    pub burst : IsPositive c.limiter.burst
    pub secret : IsSecret c.app.environment c.auth.session_secret
    pub stores : HasStores c

  stores_sound : (c : Config) → validate_stores is_uuid is_url c ≡ none → HasStores c
  unfolding validate_stores
  stores_sound c h =
      let (t1, h1) = reject-none (not (is_uuid c.app.asset_namespace)) _ _ h in
      let (t2, h2) = reject-none (ltb 50 (length c.auth.invite_code)) _ _ h1 in
      let (t3, h3) = reject-none (not (is_url c.object_store.endpoint)) _ _ h2 in
      let (t4, h4) = reject-none (is_empty c.object_store.region) _ _ h3 in
      let (t5, h5) = reject-none (is_empty c.object_store.bucket) _ _ h4 in
      let (t6, h6) = reject-none (not (length c.object_store.access_key == 26)) _ _ h5 in
      let (t7, h7) = reject-none (not (length c.object_store.secret_key == 64)) _ _ h6 in
      record {
        namespace = ground (arith, t1);
        invite_code = ground (arith, t2);
        endpoint = ground (arith, t3);
        region = (nonempty_iff c.object_store.region).0 t4;
        bucket = (nonempty_iff c.object_store.bucket).0 t5;
        access_key = ground (arith, t6);
        secret_key = ground (arith, t7);
      }

  stores_complete : (c : Config) → HasStores c → validate_stores is_uuid is_url c ≡ none
  unfolding validate_stores
  stores_complete c v =
      reject-pass (not (is_uuid c.app.asset_namespace)) _ _ (ground (arith, v.namespace)) (
        reject-pass (ltb 50 (length c.auth.invite_code)) _ _ (ground (arith, v.invite_code)) (
          reject-pass (not (is_url c.object_store.endpoint)) _ _ (ground (arith, v.endpoint)) (
            reject-pass (is_empty c.object_store.region) _ _
              ((nonempty_iff c.object_store.region).1 v.region)
              (reject-pass (is_empty c.object_store.bucket) _ _
                ((nonempty_iff c.object_store.bucket).1 v.bucket)
                (reject-pass (not (length c.object_store.access_key == 26)) _ _
                  (ground (arith, v.access_key))
                  (reject-pass (not (length c.object_store.secret_key == 64)) _ _
                    (ground (arith, v.secret_key)) refl))))))

  validate_sound : (c : Config) → validate is_uuid is_url c ≡ none → IsValid c
  unfolding validate
  validate_sound c h =
      let (t1, h1) = reject-none _ _ _ h in
      let (t2, h2) = reject-none _ _ _ h1 in
      let (t3, h3) = reject-none _ _ _ h2 in
      let (t4, h4) = reject-none _ _ _ h3 in
      let (t5, h5) = reject-none _ _ _ h4 in
      let (t6, h6) = reject-none _ _ _ h5 in
      let (t7, h7) = reject-none _ _ _ h6 in
      let (t8, h8) = reject-none _ _ _ h7 in
      let (t9, h9) = reject-none _ _ _ h8 in
      let (t10, h10) = reject-none _ _ _ h9 in
      let (t11, h11) = reject-none _ _ _ h10 in
      let (t12, h12) = reject-none _ _ _ h11 in
      let (t13, h13) = reject-none _ _ _ h12 in
      record {
        name = (nonempty_iff c.app.name).0 t1;
        environment = (IsEnvironment-iff c.app.environment).0 t2;
        path = (nonempty_iff c.db.path).0 t3;
        migrations = (nonempty_iff c.db.migrations_path).0 t4;
        port = (IsPort-iff c.http.port).0 t5;
        read = (IsPositive-iff c.http.timeouts.read).0 t6;
        write = (IsPositive-iff c.http.timeouts.write).0 t7;
        idle = (IsPositive-iff c.http.timeouts.idle).0 t8;
        shutdown = (IsPositive-iff c.http.timeouts.shutdown).0 t9;
        rps = (IsPositive-iff c.limiter.rps).0 t10;
        burst = (IsPositive-iff c.limiter.burst).0 t11;
        secret = (IsSecret-iff c.app.environment c.auth.session_secret).0 (t12, t13);
        stores = stores_sound c h13;
      }

  validate_complete : (c : Config) → IsValid c → validate is_uuid is_url c ≡ none
  unfolding validate
  validate_complete c v =
      let (empty, default) = (IsSecret-iff c.app.environment c.auth.session_secret).1 v.secret in
      reject-pass _ _ _ ((nonempty_iff c.app.name).1 v.name) (
        reject-pass _ _ _ ((IsEnvironment-iff c.app.environment).1 v.environment) (
          reject-pass _ _ _ ((nonempty_iff c.db.path).1 v.path) (
            reject-pass _ _ _ ((nonempty_iff c.db.migrations_path).1 v.migrations) (
              reject-pass _ _ _ ((IsPort-iff c.http.port).1 v.port) (
                reject-pass _ _ _ ((IsPositive-iff c.http.timeouts.read).1 v.read) (
                  reject-pass _ _ _ ((IsPositive-iff c.http.timeouts.write).1 v.write) (
                    reject-pass _ _ _ ((IsPositive-iff c.http.timeouts.idle).1 v.idle) (
                      reject-pass _ _ _ ((IsPositive-iff c.http.timeouts.shutdown).1 v.shutdown) (
                        reject-pass _ _ _ ((IsPositive-iff c.limiter.rps).1 v.rps) (
                          reject-pass _ _ _ ((IsPositive-iff c.limiter.burst).1 v.burst) (
                            reject-pass _ _ _ empty
                              (reject-pass _ _ _ default (stores_complete c v.stores)))))))))))))

  -- Validate passes exactly the configurations with a name, an environment that is dev or prod in
  -- some case of its letters, paths for the database, a port from 1024 to 65535, positive timeouts
  -- and limits, a secret of one's own if the environment is written `prod`, and a namespace, invite
  -- code and object store of the shapes that it asks for.
  pub validate_iff : (c : Config) → (validate is_uuid is_url c ≡ none) ↔ IsValid c
  validate_iff c = (validate_sound c, validate_complete c)

  -- Where the environment is not written `prod` exactly, as in `PROD`, a valid configuration stays
  -- valid with any secret, the default one too.
  pub secret_unchecked :
      (c : Config) (secret : Text)
      → c.app.environment ≢ codes "prod"
      → validate is_uuid is_url c ≡ none
      → validate is_uuid is_url (record c { auth = record c.auth { session_secret = secret } })
        ≡ none
  secret_unchecked c secret other h =
      let v = validate_sound c h in
      validate_complete (record c { auth = record c.auth { session_secret = secret } })
        (record {
          name = v.name;
          environment = v.environment;
          path = v.path;
          migrations = v.migrations;
          port = v.port;
          read = v.read;
          write = v.write;
          idle = v.idle;
          shutdown = v.shutdown;
          rps = v.rps;
          burst = v.burst;
          secret = inl other;
          stores = record {
            namespace = v.stores.namespace;
            invite_code = v.stores.invite_code;
            endpoint = v.stores.endpoint;
            region = v.stores.region;
            bucket = v.stores.bucket;
            access_key = v.stores.access_key;
            secret_key = v.stores.secret_key;
          };
        })
