-- ===== src/Tests/Site.antt =====
-- The whole site on the small database.
use blogengine.Prelude.{
  ℕ, ◌+◌, ◌≡◌, refl, true, false, ◌||◌, not, [], ◌∷◌, some, Bool-cases, inl, inr, if◌then◌else◌,
}
use blogengine.Prelude.Text.{Text, codes, is_empty}
use blogengine.Sqlite.Database.{calm}
use blogengine.Content.Processor.{new_processor}
use blogengine.Middleware.Geo.{new_geo_stats}
use blogengine.Middleware.Handler.{writes_header, returned, HttpRequest, Middleware}
use blogengine.Router.{is_get}
use blogengine.Site.{State, Site}
use blogengine.Site.Dispatch.{serve_request, serve_all}
use blogengine.Site.Stack.{Passes}
use blogengine.Site.Laws.{Keeps, pages_only_read, visitors-Keeps}
use blogengine.Tests.World.{hash_text, world, world-IsWellFormed}
use blogengine.Tests.Shelf.{Objects, objects}
use blogengine.Tests.Handlers
use blogengine.Tests.Handlers.{Session, nobody}
use blogengine.Tests.Assets.{handler, one_asset}
use blogengine.Tests.Router.{tokens, dry, parse_number}

abbrev Whole : Type 0
Whole = State Session ℕ Objects ℕ

-- a request without the token is refused
abbrev asks_token : Middleware Whole
asks_token next r s =
    if is_get r.method || not (is_empty (r.origin.header (codes "X-Csrf-Token")))
    then next r s
    else (record { calls = writes_header 400 ∷ []; exit = returned; state = s })

asks_token-Passes : Passes asks_token
asks_token-Passes next r s =
    elim (Bool-cases (is_get r.method || not (is_empty (r.origin.header (codes "X-Csrf-Token"))))) [
      | inl e ↦ rw e (inr (s, (refl, refl)))
      | inr e ↦ rw e (inl refl)
    ]

abbrev small_site : Site Session ℕ Objects ℕ
small_site = record {
  blog_handler = Handlers.site;
  asset_handler = handler;
  assets = one_asset;
  first_call = λ r. calm r.now;
  second_call = λ r. calm r.now;
  done = λ r width. false;
  form_value = λ r name. Handlers.name_form (codes "Bob") hash_text name;
  referer = λ r. [];
  unescape = λ s. s;
  files = λ r. [];
  figures = λ r. [];
  html = λ page. codes "<html>";
  html_escape = λ s. s;
  located = λ r target. target;
  parse_ip = parse_number;
  canonical = λ s. some s;
  rate = tokens;
  burst = 20;
  trusted_proxy = false;
  enable_telemetry = true;
  is_prod = true;
  trace_id = codes "t2";
  clock = record { now = λ t. t; wait = λ n t. t + n; given_up = λ t. false };
  spends = λ r t. t + 5;
  sessions = λ next. next;
  csrf = asks_token;
}

abbrev start : Whole
start = record {
  db = world;
  session = nobody;
  limited = record dry { buckets = 9 };
  strict = record dry { buckets = 9 };
  visits = new_geo_stats;
  metrics = record { active = 0; totals = [] };
  processor = new_processor;
  bucket = objects;
  time = 0;
}

abbrev asks : (method path : Text) → HttpRequest
asks method path = record {
  method = method;
  path = path;
  origin = record {
    header = λ name. codes "token";
    host = some (codes "9.0.0.0");
    remote_addr = [];
  };
  now = 70;
}

pages_only_read_example :
    (serve_request small_site (asks (codes "GET") (codes "/blogs/notes")) start).state.db ≡ world
pages_only_read_example =
    pages_only_read small_site (λ next r s. inr (s, (refl, refl))) asks_token-Passes
      (asks (codes "GET") (codes "/blogs/notes")) start refl

visitors-Keeps_example :
    let rs = asks (codes "POST") (codes "/register") ∷ asks (codes "GET") (codes "/") ∷ [] in
    Keeps world (serve_all small_site rs start).db
visitors-Keeps_example =
    visitors-Keeps small_site (λ next r s. inr (s, (refl, refl))) asks_token-Passes
      (asks (codes "POST") (codes "/register") ∷ asks (codes "GET") (codes "/") ∷ []) start
      world-IsWellFormed
