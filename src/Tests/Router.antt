-- ===== src/Tests/Router.antt =====
-- The router on a small state, and what a client of it gets.
use blogengine.Prelude.{
  ℕ, suc, ◌+◌, ◌-◌, ◌≤◌, arith, ◌*◌, ◌^◌, ◌≡◌, refl, true, false, ◌||◌, [], ◌∷◌, Option, some, ltb,
}
use blogengine.Prelude.Text.{Text, codes}
use blogengine.Http.{Writer, new_writer, status}
use blogengine.Middleware.Assoc.{lookup}
use blogengine.Middleware.Ip.{Addr, v4, get_direct_client_ip_validated}
use blogengine.Middleware.Geo.{GeoStats, new_geo_stats}
use blogengine.Middleware.Limiter.{new_ip_rate_limiter, bucket_of, get_limiter}
use blogengine.Middleware.Handler.{
  sets, writes_header, writes, returned, panicked, HttpRequest, Handler, apply_calls,
}
use blogengine.Middleware.Observability.{HttpMetrics, wrapped, forward}
use blogengine.Middleware.StatusLaws.{recorded_status_is_sent}
use blogengine.Middleware.Throttle.{Buckets, Limited, exceeded, admitted, draw, judge}
use blogengine.Handlers.Assets.{split_on}
use blogengine.Router.{
  RouterDependencies, is_post, is_guarded, root_route, route, route_blogs, is_bare, segments,
  route_one, app_mux, new_router,
}
use blogengine.Router.Delays.{forms_take_time}
use blogengine.Router.Laws.{is_open, forms_take_post}
use blogengine.Router.Refusals.{Refuses, refused_is_hardened}

-- a bucket is a number of tokens, one for everybody; it fills up in two seconds
abbrev pub tokens : Buckets ℕ
tokens = record {
  allow = λ bucket n. (ltb 0 n, n - 1);
  delay = λ bucket n. 2000000000;
  tokens = λ bucket n. n;
}

record Site : Type 0 where
  limited : Limited ℕ
  strict : Limited ℕ
  geo : GeoStats
  metrics : HttpMetrics
  runs : ℕ
  time : ℕ

abbrev pub dry : Limited ℕ
dry = record { limiter = new_ip_rate_limiter; buckets = 0; hits = 0 }

abbrev site : Site
site = record {
  limited = dry;
  strict = dry;
  geo = new_geo_stats;
  metrics = record { active = 0; totals = [] };
  runs = 0;
  time = 40;
}

-- a handler that writes a text, and counts its runs
abbrev greets : Handler Site
greets r s = record {
  calls = writes (codes "hello") ∷ writes_header 404 ∷ [];
  exit = returned;
  state = record s { runs = suc s.runs };
}

abbrev crashes : Handler Site
crashes r s = record {
  calls = sets (codes "Vary") (codes "Cookie") ∷ [];
  exit = panicked;
  state = s;
}

abbrev pub parse_number : Text → Option Addr
parse_number s = some (v4 (9 * 256 ^ 3))

abbrev deps : RouterDependencies Site ℕ
deps = record {
  handle = λ route. greets;
  parse_ip = parse_number;
  canonical = λ s. some s;
  rate = tokens;
  limiter = record { get = λ s. s.limited; put = λ l s. record s { limited = l } };
  auth_limiter = record { get = λ s. s.strict; put = λ l s. record s { strict = l } };
  burst = 20;
  auth_burst = 3;
  trusted_proxy = false;
  geo_stats = record { get = λ s. s.geo; put = λ g s. record s { geo = g } };
  clock = record {
    now = λ s. s.time;
    wait = λ n s. record s { time = s.time + n };
    given_up = λ s. false;
  };
  meter = record { get = λ s. s.metrics; put = λ m s. record s { metrics = m } };
  trace_id = codes "t1";
  enable_telemetry = true;
  is_prod = true;
  session = λ next. next;
  csrf = λ next. next;
  logger = λ next. next;
}

abbrev visit : HttpRequest
visit = record {
  method = codes "GET";
  path = codes "/blogs/notes";
  origin = record { header = λ name. []; host = some (codes "9.0.0.0"); remote_addr = [] };
  now = 7;
}

inside : is_bare (root_route visit.method (segments visit.path)) ≡ false
unfolding root_route route route_blogs segments split_on
inside = refl

out_of_tokens :
    judge parse_number deps.canonical tokens false visit dry
    ≡ (exceeded 2, (judge parse_number deps.canonical tokens false visit dry).1)
unfolding judge draw get_limiter bucket_of get_direct_client_ip_validated lookup
out_of_tokens = refl

refused_is_hardened_example :
    Refuses deps true 2
      (judge parse_number deps.canonical tokens false visit dry).1
      site
      (new_router deps visit site)
refused_is_hardened_example =
    refused_is_hardened deps visit site 2
      (judge parse_number deps.canonical tokens false visit dry).1 inside (λ m u. refl)
      out_of_tokens

recorded_status_is_sent_example :
    let w : Writer = new_writer in
    let calls = writes (codes "hello") ∷ writes_header 404 ∷ [] in
    (apply_calls (forward calls wrapped).0 w ≡ apply_calls calls w)
    × ((forward calls wrapped).1.status_code ≡ status (apply_calls calls w))
recorded_status_is_sent_example =
    recorded_status_is_sent (writes (codes "hello") ∷ writes_header 404 ∷ []) []
      (tt, ((refl, refl), tt))

forms_take_post_example :
    (is_guarded (root_route (codes "POST") (codes "login" ∷ [])) ≡ true
      → is_post (codes "POST") ≡ true)
    × (is_post (codes "POST") ≡ true
        → (is_guarded (root_route (codes "POST") (codes "login" ∷ []))
            || is_open (root_route (codes "POST") (codes "login" ∷ [])))
          ≡ true)
forms_take_post_example = forms_take_post (codes "POST") (codes "login" ∷ [])

abbrev login : HttpRequest
login = record visit { method = codes "POST"; path = codes "/login" }

abbrev one_token : Site
one_token = record site { strict = record { limiter = new_ip_rate_limiter; buckets = 1; hits = 0 } }

abbrev strict_after : Limited ℕ
strict_after = (judge parse_number deps.canonical tokens false login one_token.strict).1

login_guarded : is_guarded (root_route login.method (segments login.path)) ≡ true
unfolding root_route route route_one segments split_on
login_guarded = refl

has_token :
    judge parse_number deps.canonical tokens false login one_token.strict
    ≡ (admitted 0, strict_after)
unfolding judge draw get_limiter bucket_of get_direct_client_ip_validated lookup
has_token = refl

forms_take_time_example : 40 + 500000000 ≤ (app_mux deps login one_token).state.time
forms_take_time_example =
    forms_take_time deps login one_token 0 strict_after
      (record { waits = λ n s there. omega arith }) refl login_guarded has_token refl (omega arith)
      refl
