-- ===== src/Site.antt =====
-- cmd/blogengine/main.go and internal/router/router.go: the site as main puts it together, the
-- handlers of internal/handlers behind the router, on the state that they share.
pub mod Dispatch
pub mod Forms
pub mod Effects
pub mod Stack
pub mod Laws
use blogengine.Prelude.{
  ℕ, zero, suc, ◌+◌, Bool, true, false, not, List, [], ◌∷◌, ◌++◌, Option, none, some, if◌then◌else◌,
}
use blogengine.Prelude.Text.{Text, codes, text_eq, is_empty}
use blogengine.Http.{Writer, new_writer}
use blogengine.Config.Types.{Config}
use blogengine.Sqlite.Database
use blogengine.Sqlite.Database.{Db}
use blogengine.Content.Assets.{AssetManager}
use blogengine.Content.Processor.{Processor}
use blogengine.Handlers.Web.{
  Request, BlogHandler, Page, Response, redirect, shows, Outcome, not_found,
}
use blogengine.Handlers.Assets.{AssetHandler, serve}
use blogengine.Handlers.Auth.{
  handle_register_page, handle_register, handle_login_page, handle_login, handle_logout,
}
use blogengine.Handlers.Comment.{handle_comment, handle_delete_comment}
use blogengine.Handlers.Pages.{
  handle_home, handle_blog, handle_post, handle_about, handle_contact, handle_terms, handle_privacy,
}
use blogengine.Middleware.Ip.{Addr}
use blogengine.Middleware.Geo.{GeoStats}
use blogengine.Middleware.Handler.{
  Call, sets, writes_header, writes, returned, HttpRequest, Turn, Handler, Middleware,
}
use blogengine.Middleware.Observability.{HttpMetrics}
use blogengine.Middleware.Throttle.{Buckets, Limited}
use blogengine.Middleware.Delay.{Clock}
use blogengine.Router
use blogengine.Router.{Route, RouterDependencies, is_get, segments, new_router}

-- what the handlers and the middlewares share; the session is the one of the request
pub record State (S L B T : Type 0) : Type 0 where
  pub db : Db
  pub session : S
  pub limited : Limited L
  pub strict : Limited L
  pub visits : GeoStats
  pub metrics : HttpMetrics
  pub processor : Processor
  pub bucket : B
  pub time : T

-- What main makes and the libraries give. `first_call` and `second_call` are what the driver meets
-- for the two calls of a request, `done` is whether the context has ended at a width, `files` and
-- `figures` are the file server and HandleMetrics, `html` a rendered page, `located` the address that
-- http.Redirect makes of a target, `spends` the time that a handler takes.
pub record Site (S L B T : Type 0) : Type 0 where
  pub blog_handler : BlogHandler S
  pub asset_handler : AssetHandler B
  pub assets : AssetManager
  pub first_call : HttpRequest → Database.Call
  pub second_call : HttpRequest → Database.Call
  pub done : HttpRequest → ℕ → Bool
  pub form_value : HttpRequest → Text → Text
  pub referer : HttpRequest → Text
  pub unescape : Text → Text
  pub files : HttpRequest → List Call
  pub figures : HttpRequest → List Call
  pub html : Page → Text
  pub html_escape : Text → Text
  pub located : HttpRequest → Text → Text
  pub parse_ip : Text → Option Addr
  pub canonical : Text → Option Text
  pub rate : Buckets L
  pub burst : ℕ
  pub trusted_proxy : Bool
  pub enable_telemetry : Bool
  pub is_prod : Bool
  pub trace_id : Text
  pub clock : Clock T
  pub spends : HttpRequest → T → T
  pub sessions : Middleware (State S L B T)
  pub csrf : Middleware (State S L B T)

abbrev nth : ℕ → List Text → Text
nth n [] = []
nth zero (s ∷ segs) = s
nth (suc n) (s ∷ segs) = nth n segs

-- the wildcards of the patterns, by the place of their segment
abbrev pub wildcard : Text → List Text → Text
wildcard name segs =
    if text_eq name (codes "post_slug")
    then nth 2 segs
    else if text_eq name (codes "commentID")
    then nth 4 segs
    else nth 1 segs

-- the calls that leave a new writer as this one is
abbrev pub calls_of : Writer → List Call
calls_of w = header_calls w.headers ++ (status_calls w.sent ++ writes w.body ∷ [])
  where
    header_calls : List (Text × Text) → List Call
    header_calls [] = []
    header_calls ((name, value) ∷ hs) = header_calls hs ++ sets name value ∷ []

    status_calls : Option (ℕ × List (Text × Text)) → List Call
    status_calls none = []
    status_calls (some (code, hs)) = writes_header code ∷ []

module _ {S L B T : Type 0} (site : Site S L B T) where
  abbrev pub request_of : HttpRequest → Request
  request_of r = record {
    form_value = site.form_value r;
    path_value = λ name. site.unescape (wildcard name (segments r.path));
    referer = site.referer r;
  }

  -- http.Redirect: a link in the body for GET, and its type for HEAD too
  abbrev redirect_calls : HttpRequest → Text → List Call
  redirect_calls r target =
      let address = site.located r target in
      sets (codes "Location") address
        ∷ (if is_get r.method
            then sets (codes "Content-Type") (codes "text/html; charset=utf-8") ∷ []
            else [])
      ++ (writes_header 303
          ∷ (if text_eq r.method (codes "GET")
              then writes
                  (codes "<a href=\"" ++ site.html_escape address ++ codes "\">See Other</a>.\n\n")
                ∷ []
              else []))

  abbrev pub response_calls : HttpRequest → Response → List Call
  response_calls r (redirect target) = redirect_calls r target
  response_calls r (shows code page) = writes_header code ∷ writes (site.html page) ∷ []

  -- a handler of pages and forms, in net/http, which writes 200 where the handler writes no status
  abbrev pub answer : HttpRequest → State S L B T → Outcome S → Turn (State S L B T)
  answer r s o = record {
    calls = response_calls r o.response;
    exit = returned;
    state = record s { db = o.db; session = o.session; time = site.spends r s.time };
  }

  -- a handler that leaves the database and the session alone
  abbrev pub writes_only : List Call → State S L B T → Turn (State S L B T)
  writes_only calls s = record { calls = calls; exit = returned; state = s }

  -- AssetHandler.ServeHTTP
  abbrev pub serve_asset : HttpRequest → State S L B T → Turn (State S L B T)
  serve_asset r s =
      let key = site.unescape (wildcard (codes "key") (segments r.path)) in
      let after =
        serve site.asset_handler (site.done r) key site.assets s.bucket (new_writer, s.processor) in
      record { calls = calls_of after.0; exit = returned; state = record s { processor = after.1 } }
