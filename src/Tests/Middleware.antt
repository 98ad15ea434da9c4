-- ===== src/Tests/Middleware.antt =====
-- Addresses, visitors, buckets and the configuration.
use blogengine.Prelude.{
  ℕ, ◌≡◌, ◌↔◌, refl, Bool, true, List, [], ◌∷◌, Option, none, some, arith, if◌then◌else◌,
}
use blogengine.Prelude.Int.{pos}
use blogengine.Prelude.Text.{Text, codes, text_eq}
use blogengine.Prelude.Sort.{order_desc}
use blogengine.Middleware.Ip.{Addr, v4, Origin}
use blogengine.Middleware.Geo.{new_geo_stats, cleanup, record_visit, get_top_countries}
use blogengine.Middleware.IpLaws.{dotted}
use blogengine.Middleware.GeoLaws.{cleanup_unseen}
use blogengine.Config.Types.{Config, default_config}
use blogengine.Config.Load.{load_with_defaults}
use blogengine.Config.Validate.{validate}
use blogengine.Config.Laws.{IsValid, validate_iff}
use blogengine.Tests.World.{repeat}

-- the addresses 8.8.8.8 and 10.0.0.1
abbrev parse_ip : Text → Option Addr
parse_ip s =
    if text_eq s (codes "8.8.8.8")
    then some (v4 (dotted 8 8 8 8))
    else if text_eq s (codes "10.0.0.1")
    then some (v4 (dotted 10 0 0 1))
    else none

abbrev behind_proxy : Origin
behind_proxy = record {
  header = λ k. if text_eq k (codes "X-Forwarded-For") then codes "8.8.8.8, 10.0.0.1" else [];
  host = some (codes "10.0.0.1");
  remote_addr = codes "10.0.0.1:80";
}

abbrev client : Text
client = codes "8.8.8.8"

cleanup_unseen_example :
    (record_visit client (codes "IE") 20 (cleanup 10 new_geo_stats)).countries
    ≡ (record_visit client (codes "IE") 20 new_geo_stats).countries
cleanup_unseen_example = cleanup_unseen client (codes "IE") 10 20 new_geo_stats tt (omega arith)

abbrev stats : List (Text × ℕ)
stats = (codes "IE", 2) ∷ (codes "PT", 5) ∷ (codes "XX", 1) ∷ []

top_of_stats : get_top_countries 2 stats ≡ (codes "PT", 5) ∷ (codes "IE", 2) ∷ []
unfolding get_top_countries order_desc
top_of_stats = refl

abbrev parses : Text → Bool
parses s = true

-- the default configuration with keys for the object store, in an environment written PROD
abbrev shouted : Config
shouted = record default_config {
  app = record default_config.app { environment = codes "PROD" };
  object_store = record default_config.object_store {
    access_key = repeat 26 b'a';
    secret_key = repeat 64 b'a';
  };
}

validate_iff_example : (validate parses parses shouted ≡ none) ↔ IsValid parses parses shouted
validate_iff_example = validate_iff parses parses shouted

shouted_passes : validate parses parses shouted ≡ none
unfolding validate
shouted_passes = refl

-- an environment that sets the port, but the port is no number
defaults_of_port :
    (load_with_defaults
      (λ s. none)
      (λ k. if text_eq k (codes "HTTP_PORT") then some (codes "x80") else none)).http.port
    ≡ pos 3000
unfolding load_with_defaults
defaults_of_port = refl
