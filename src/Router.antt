-- ===== src/Router.antt =====
-- internal/router/router.go: which handler a request gets, and the middlewares around the handlers.
-- net/http's ServeMux decides by its documented rules: the method of a pattern, GET also for HEAD, a
-- wildcard for one segment that is not empty, the most specific pattern that fits, and a redirection
-- to a subtree that is named without its slash. Paths are clean: ServeMux redirects the others.
pub mod Laws
pub mod Refusals
pub mod Delays
use blogengine.Prelude.{
  ℕ, Bool, true, false, ◌&&◌, ◌||◌, drop, List, [], ◌∷◌, ◌++◌, Option, none, some, if◌then◌else◌,
}
use blogengine.Prelude.Text.{Text, codes, text_eq, is_empty}
use blogengine.Handlers.Assets.{split_on}
use blogengine.Middleware.Ip.{Addr, get_proxy_client_ip}
use blogengine.Middleware.Geo.{GeoStats, record_visit}
use blogengine.Middleware.Handler.{HttpRequest, Turn, Handler, Middleware, chain, recover}
use blogengine.Middleware.Delay.{Clock, secure_delay}
use blogengine.Middleware.Csp.{csp}
use blogengine.Middleware.Observability.{Meter, observability}
use blogengine.Middleware.Throttle.{Buckets, Limits, throttle}

pub data Route : Type 0 where
  static_redirect static_files asset register_page register_form login_page login_form logout_form :
      Route
  comment_form comment_delete home blog post about privacy terms contact not_found : Route
  metrics healthz : Route

abbrev pub is_get : Text → Bool
is_get method = text_eq method (codes "GET") || text_eq method (codes "HEAD")

abbrev pub is_post : Text → Bool
is_post method = text_eq method (codes "POST")

abbrev pub on : Bool → Route → Route
on fits route = if fits then route else not_found

-- a wildcard stands for a segment that is not empty
abbrev pub filled : Text → Route → Route
filled segment route = if is_empty segment then not_found else route

-- paths of one segment
unfoldable pub route_one : (method : Text) → Text → Route
route_one method s =
    if text_eq s []
    then on (is_get method) home
    else if text_eq s (codes "register")
    then (if is_get method then register_page else on (is_post method) register_form)
    else if text_eq s (codes "login")
    then (if is_get method then login_page else on (is_post method) login_form)
    else if text_eq s (codes "logout")
    then on (is_post method) logout_form
    else if text_eq s (codes "static")
    then on (is_get method) static_redirect
    else if text_eq s (codes "about")
    then about
    else if text_eq s (codes "privacy")
    then privacy
    else if text_eq s (codes "terms")
    then terms
    else if text_eq s (codes "contact")
    then contact
    else not_found

-- paths below /blogs
unfoldable pub route_blogs : (method : Text) → List Text → Route
route_blogs method (blog_slug ∷ []) = filled blog_slug (on (is_get method) blog)
route_blogs method (blog_slug ∷ post_slug ∷ []) =
    filled blog_slug (filled post_slug (on (is_get method) post))
route_blogs method (blog_slug ∷ post_slug ∷ word ∷ []) =
    filled blog_slug
      (filled post_slug (on (is_post method) (on (text_eq word (codes "comment")) comment_form)))
route_blogs method (blog_slug ∷ post_slug ∷ word ∷ comment_id ∷ last ∷ []) = filled blog_slug (
    filled post_slug (
      filled comment_id (
        on (is_post method) (
          on (text_eq word (codes "comment"))
            (on (text_eq last (codes "delete")) comment_delete)))))
route_blogs method segments = not_found

-- appMux, on the segments of the path after its first slash
unfoldable pub route : (method : Text) → List Text → Route
unfolding route_one route_blogs
route method [] = not_found
route method (s ∷ []) = route_one method s
route method (s ∷ t ∷ rest) =
    if text_eq s (codes "static")
    then on (is_get method) static_files
    else if text_eq s (codes "blogs")
    then route_blogs method (t ∷ rest)
    else if text_eq s (codes "assets")
    then (elim rest [ [] ↦ filled t (on (is_get method) asset) | _ ↦ not_found ])
    else not_found

-- the routes that authStack wraps
abbrev pub is_guarded : Route → Bool
is_guarded register_form = true
is_guarded login_form = true
is_guarded logout_form = true
is_guarded comment_form = true
is_guarded comment_delete = true
is_guarded _ = false

-- rootMux
unfoldable pub root_route : (method : Text) → List Text → Route
unfolding route
root_route method [] = route method []
root_route method (s ∷ []) =
    if is_get method && text_eq s (codes "metrics")
    then metrics
    else if is_get method && text_eq s (codes "healthz")
    then healthz
    else route method (s ∷ [])
root_route method (s ∷ t ∷ rest) = route method (s ∷ t ∷ rest)

-- the two routes that no middleware is around
abbrev pub is_bare : Route → Bool
is_bare metrics = true
is_bare healthz = true
is_bare _ = false

unfoldable pub segments : Text → List Text
unfolding split_on
segments path = drop 1 (split_on b'/' path)

-- where the state keeps the statistics of visitors
pub record Visits (S : Type 0) : Type 0 where
  pub get : S → GeoStats
  pub put : GeoStats → S → S

-- RouterDependencies. `handle` has the handlers; scs' LoadAndSave, nosurf and the logger are
-- middlewares too.
pub record RouterDependencies (S L : Type 0) : Type 0 where
  pub handle : Route → Handler S
  pub parse_ip : Text → Option Addr
  pub canonical : Text → Option Text
  pub rate : Buckets L
  pub limiter : Limits S L
  pub auth_limiter : Limits S L
  pub burst : ℕ
  pub auth_burst : ℕ
  pub trusted_proxy : Bool
  pub geo_stats : Visits S
  pub clock : Clock S
  pub meter : Meter S
  pub trace_id : Text
  pub enable_telemetry : Bool
  pub is_prod : Bool
  pub session : Middleware S
  pub csrf : Middleware S
  pub logger : Middleware S

-- 500 * time.Millisecond
abbrev pub auth_delay : ℕ
auth_delay = 500000000

module _ {S L : Type 0} (d : RouterDependencies S L) where
  -- GeoStats.Middleware; its goroutine is run at once
  unfoldable pub geo : Middleware S
  unfolding record_visit get_proxy_client_ip
  geo next r s = next r (
      d.geo_stats.put
        (record_visit (get_proxy_client_ip d.parse_ip r.origin)
          (r.origin.header (codes "CF-IPCountry")) r.now (d.geo_stats.get s))
        s)

  unfoldable pub auth_stack : Middleware S
  unfolding throttle secure_delay
  auth_stack h =
      throttle d.parse_ip d.canonical d.rate d.auth_limiter d.auth_burst d.trusted_proxy
        (secure_delay d.clock auth_delay h)

  -- the handler of a route, in authStack where the code puts it there
  unfoldable pub registered : Route → Handler S
  unfolding auth_stack
  registered route = if is_guarded route then auth_stack (d.handle route) else d.handle route

  unfoldable pub app_mux : Handler S
  unfolding registered root_route segments
  app_mux r s = registered (root_route r.method (segments r.path)) r s

  abbrev pub observed : List (Middleware S)
  observed = if d.enable_telemetry then observability d.meter d.trace_id ∷ [] else []

  unfoldable pub middleware_stack : List (Middleware S)
  unfolding recover observability csp throttle geo
  middleware_stack =
      recover
      ∷ (observed
          ++ (csp d.is_prod
              ∷ throttle d.parse_ip d.canonical d.rate d.limiter d.burst d.trusted_proxy
              ∷ geo
              ∷ d.session
              ∷ d.csrf
              ∷ d.logger
              ∷ []))

  -- NewRouter
  unfoldable pub new_router : Handler S
  unfolding root_route segments registered app_mux middleware_stack chain
  new_router r s =
      let to = root_route r.method (segments r.path) in
      if is_bare to then registered to r s else chain app_mux middleware_stack r s
