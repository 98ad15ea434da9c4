-- ===== src/Site/Dispatch.antt =====
-- internal/router/router.go and main.go: the handler of each route, the dependencies of the router,
-- and the server on requests.
use blogengine.Prelude.{List, [], ◌∷◌}
use blogengine.Prelude.Text.{codes}
use blogengine.Handlers.Web.{not_found}
use blogengine.Handlers.Assets.{serve}
use blogengine.Handlers.Auth.{
  handle_register_page, handle_register, handle_login_page, handle_login, handle_logout,
}
use blogengine.Handlers.Comment.{handle_comment, handle_delete_comment}
use blogengine.Handlers.Pages.{
  handle_home, handle_blog, handle_post, handle_about, handle_contact, handle_terms, handle_privacy,
}
use blogengine.Middleware.Handler.{Call, sets, writes_header, writes, HttpRequest, Handler}
use blogengine.Middleware.Delay.{Clock}
use blogengine.Router
use blogengine.Router.{Route, RouterDependencies, is_get, segments, new_router}
use blogengine.Site.{State, Site, request_of, answer, writes_only, serve_asset}

module _ {S L B T : Type 0} (site : Site S L B T) where
  abbrev healthz_calls : List Call
  healthz_calls =
      sets (codes "Content-Type") (codes "text/plain")
      ∷ writes_header 200
      ∷ writes (codes "OK")
      ∷ []

  -- the handler that NewRouter registers for a route
  unfoldable pub dispatch : Route → Handler (State S L B T)
  unfolding handle_register_page handle_register handle_login_page handle_login handle_logout
      handle_comment handle_delete_comment handle_home handle_blog handle_post handle_about
      handle_contact handle_terms handle_privacy not_found serve
  dispatch Router.static_redirect r s = writes_only site (site.files r) s
  dispatch Router.static_files r s = writes_only site (site.files r) s
  dispatch Router.metrics r s = writes_only site (site.figures r) s
  dispatch Router.healthz r s = writes_only site healthz_calls s
  dispatch Router.asset r s = serve_asset site r s
  dispatch Router.register_page r s =
      answer site r s (handle_register_page site.blog_handler s.db s.session)
  dispatch Router.register_form r s =
      answer site r s
        (handle_register site.blog_handler (request_of site r) (site.first_call r) s.db s.session)
  dispatch Router.login_page r s =
      answer site r s (handle_login_page site.blog_handler s.db s.session)
  dispatch Router.login_form r s =
      answer site r s
        (handle_login site.blog_handler (request_of site r) (site.first_call r) s.db s.session)
  dispatch Router.logout_form r s = answer site r s (handle_logout site.blog_handler s.db s.session)
  dispatch Router.comment_form r s = answer site r s (
      handle_comment site.blog_handler (request_of site r) (site.first_call r) (site.second_call r)
        s.db s.session)
  dispatch Router.comment_delete r s = answer site r s (
      handle_delete_comment site.blog_handler (request_of site r) (site.first_call r) s.db
        s.session)
  dispatch Router.home r s =
      answer site r s
        (handle_home site.blog_handler (site.first_call r) (site.second_call r) s.db s.session)
  dispatch Router.blog r s = answer site r s (
      handle_blog site.blog_handler (request_of site r) (site.first_call r) (site.second_call r)
        s.db s.session)
  dispatch Router.post r s = answer site r s (
      handle_post site.blog_handler (request_of site r) (site.first_call r) (site.second_call r)
        s.db s.session)
  dispatch Router.about r s = answer site r s (handle_about site.blog_handler s.db s.session)
  dispatch Router.privacy r s = answer site r s (handle_privacy site.blog_handler s.db s.session)
  dispatch Router.terms r s = answer site r s (handle_terms site.blog_handler s.db s.session)
  dispatch Router.contact r s = answer site r s (handle_contact site.blog_handler s.db s.session)
  dispatch Router.not_found r s = answer site r s (not_found site.blog_handler s.db s.session)

  -- the clock of the site, on its part of the state
  abbrev pub site_clock : Clock (State S L B T)
  site_clock = record {
    now = λ s. site.clock.now s.time;
    wait = λ n s. record s { time = site.clock.wait n s.time };
    given_up = λ s. site.clock.given_up s.time;
  }

  -- routerDeps: the limiter of forms has a burst of 3, and Logger only logs
  unfoldable pub router_deps : RouterDependencies (State S L B T) L
  unfolding dispatch
  router_deps = record {
    handle = dispatch;
    parse_ip = site.parse_ip;
    canonical = site.canonical;
    rate = site.rate;
    limiter = record { get = λ s. s.limited; put = λ l s. record s { limited = l } };
    auth_limiter = record { get = λ s. s.strict; put = λ l s. record s { strict = l } };
    burst = site.burst;
    auth_burst = 3;
    trusted_proxy = site.trusted_proxy;
    geo_stats = record { get = λ s. s.visits; put = λ g s. record s { visits = g } };
    clock = site_clock;
    meter = record { get = λ s. s.metrics; put = λ m s. record s { metrics = m } };
    trace_id = site.trace_id;
    enable_telemetry = site.enable_telemetry;
    is_prod = site.is_prod;
    session = site.sessions;
    csrf = site.csrf;
    logger = λ next. next;
  }

  -- one request, from the server's handler on
  unfoldable pub serve_request : Handler (State S L B T)
  unfolding new_router router_deps
  serve_request r s = new_router router_deps r s

  -- requests, one after another
  unfoldable pub serve_all : List HttpRequest → State S L B T → State S L B T
  unfolding serve_request
  serve_all [] s = s
  serve_all (r ∷ rs) s = serve_all rs (serve_request r s).state
