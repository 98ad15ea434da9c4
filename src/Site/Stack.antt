-- ===== src/Site/Stack.antt =====
-- The middlewares of the router, on the database: each of them passes the request on, or answers it.
use blogengine.Prelude.{
  ℕ, ◌≡◌, refl, ap, ◌∙◌, Bool, true, false, inl, inr, ◌⊎◌, List, [], ◌∷◌, ◌++◌, All, arith,
  Bool-cases, if◌then◌else◌,
}
use blogengine.Middleware.Handler.{
  HttpRequest, Turn, Handler, Middleware, Exit, returned, panicked, chain, recover,
}
use blogengine.Middleware.HeaderLaws.{settle-state}
use blogengine.Middleware.Csp.{csp}
use blogengine.Middleware.Observability.{enter, leave, count, wrapped, forward, observability}
use blogengine.Middleware.Geo.{record_visit}
use blogengine.Middleware.Ip.{get_proxy_client_ip}
use blogengine.Prelude.Text.{codes}
use blogengine.Middleware.Delay.{wait_for_rest, secure_delay}
use blogengine.Middleware.Throttle.{Verdict, invalid_ip, exceeded, admitted, obey, judge, throttle}
use blogengine.Router.{
  RouterDependencies, geo, auth_stack, auth_delay, registered, app_mux, middleware_stack,
  new_router, Route, is_guarded, is_bare, root_route, segments,
}
use blogengine.Site.{State, Site}
use blogengine.Site.Dispatch.{dispatch, router_deps, site_clock, serve_request}

module _ {S L B T : Type 0} where
  -- the database is as before, or as the handler behind it leaves it
  abbrev pub PassedOn :
      Handler (State S L B T) → HttpRequest → State S L B T → Turn (State S L B T) → Type 0
  PassedOn next r s t =
      (t.state.db ≡ s.db)
      ⊎ ((s' : State S L B T) × ((s'.db ≡ s.db) × (t.state.db ≡ (next r s').state.db)))

  -- scs and nosurf keep their own tables: they do not change the database of the store
  abbrev pub Passes : Middleware (State S L B T) → Type 0
  Passes m =
      (next : Handler (State S L B T)) (r : HttpRequest) (s : State S L B T)
      → PassedOn next r s (m next r s)

  PassedOn-chain :
      (app : Handler (State S L B T)) (ms : List (Middleware (State S L B T)))
      → All Passes ms
      → (r : HttpRequest) (s : State S L B T) → PassedOn app r s (chain app ms r s)
  unfolding chain
  PassedOn-chain app [] p r s = inr (s, (refl, refl))
  PassedOn-chain app (m ∷ ms) (pm, p) r s = elim (pm (chain app ms) r s) [
    | inl e ↦ inl e
    | inr (s', (same, e)) ↦ elim (PassedOn-chain app ms p r s') [
      | inl f ↦ inl (e ∙ (f ∙ same))
      | inr (u, (same', f)) ↦ inr (u, (same' ∙ same, e ∙ f))
    ]
  ]

  recover-Passes : Passes recover
  unfolding recover
  recover-Passes next r s =
      let t = next r s in
      inr (s, (refl, ap (λ (u : State S L B T). u.db) (settle-state t.calls t.exit t.state)))

  csp-Passes : (is_prod : Bool) → Passes (csp is_prod)
  unfolding csp
  csp-Passes is_prod next r s = inr (s, (refl, refl))

module _ {S L B T : Type 0} (site : Site S L B T) where
  abbrev deps : RouterDependencies (State S L B T) L
  deps = router_deps site

  traced_db :
      (exit : Exit) (code : ℕ) (u : State S L B T)
      → (elim exit as (λ _. State S L B T) [
        | returned ↦ leave deps.meter (count deps.meter code u)
        | panicked ↦ leave deps.meter u
      ]).db
        ≡ u.db
  unfolding router_deps
  traced_db returned code u = refl
  traced_db panicked code u = refl

  observability-Passes : Passes (observability deps.meter deps.trace_id)
  unfolding observability router_deps
  observability-Passes next r s =
      let t = next r (enter deps.meter s) in
      inr (
        enter deps.meter s,
        (refl, traced_db t.exit (forward t.calls wrapped).1.status_code t.state),
      )

  obey-Passes : (burst : ℕ) (v : Verdict) → Passes {S = S} {L = L} {B = B} {T = T} (obey burst v)
  unfolding obey
  obey-Passes burst invalid_ip next r s = inl refl
  obey-Passes burst (exceeded n) next r s = inl refl
  obey-Passes burst (admitted n) next r s = inr (s, (refl, refl))

  geo-Passes : Passes (geo deps)
  unfolding geo router_deps
  geo-Passes next r s = inr (
    deps.geo_stats.put
        (record_visit (get_proxy_client_ip deps.parse_ip r.origin)
          (r.origin.header (codes "CF-IPCountry")) r.now (deps.geo_stats.get s))
        s,
    (refl, refl),
  )

  limiter-Passes :
      (burst : ℕ)
      → Passes
          (throttle deps.parse_ip deps.canonical deps.rate deps.limiter burst deps.trusted_proxy)
  unfolding throttle router_deps
  limiter-Passes burst next r s =
      let v = judge deps.parse_ip deps.canonical deps.rate deps.trusted_proxy r s.limited in
      obey-Passes burst v.0 next r (record s { limited = v.1 })

  auth_limiter-Passes :
      (burst : ℕ)
      → Passes (
          throttle deps.parse_ip deps.canonical deps.rate deps.auth_limiter burst
            deps.trusted_proxy)
  unfolding throttle router_deps
  auth_limiter-Passes burst next r s =
      let v = judge deps.parse_ip deps.canonical deps.rate deps.trusted_proxy r s.strict in
      obey-Passes burst v.0 next r (record s { strict = v.1 })

  wait_db :
      (target start : ℕ) (t : Turn (State S L B T))
      → (wait_for_rest (site_clock site) target start t).state.db ≡ t.state.db
  unfolding wait_for_rest
  wait_db target start t = ground arith

  delayed_db :
      (target start : ℕ) (exit : Exit) (t : Turn (State S L B T))
      → (elim exit as (λ _. Turn (State S L B T)) [
        | panicked ↦ t
        | returned ↦ wait_for_rest (site_clock site) target start t
      ]).state.db
        ≡ t.state.db
  delayed_db target start panicked t = refl
  delayed_db target start returned t = wait_db target start t

  delay-Passes : (target : ℕ) → Passes (secure_delay (site_clock site) target)
  unfolding secure_delay
  delay-Passes target next r s =
      let t = next r s in inr (s, (refl, delayed_db target (site.clock.now s.time) t.exit t))

  -- authStack is two middlewares
  auth_stack-Passes : Passes (auth_stack deps)
  unfolding auth_stack chain router_deps
  auth_stack-Passes next r s =
      PassedOn-chain next
        (throttle deps.parse_ip deps.canonical deps.rate deps.auth_limiter 3 deps.trusted_proxy
          ∷ secure_delay (site_clock site) auth_delay
          ∷ [])
        (auth_limiter-Passes 3, (delay-Passes auth_delay, tt)) r s

  -- the stack, where the libraries' middlewares pass
  module _ (sessions : Passes site.sessions) (csrf : Passes site.csrf) where
    inner_stack : All Passes (
        csp deps.is_prod
        ∷ throttle deps.parse_ip deps.canonical deps.rate deps.limiter deps.burst deps.trusted_proxy
        ∷ geo deps
        ∷ deps.session
        ∷ deps.csrf
        ∷ deps.logger
        ∷ [])
    unfolding router_deps
    inner_stack = (
      csp-Passes deps.is_prod,
      (
        limiter-Passes deps.burst,
        (geo-Passes, (sessions, (csrf, ((λ next r s. inr (s, (refl, refl))), tt)))),
      ),
    )

    observed-Passes :
        (telemetry : Bool)
        → All Passes (
            (if telemetry then observability deps.meter deps.trace_id ∷ [] else [])
            ++ (csp deps.is_prod
                ∷ throttle deps.parse_ip deps.canonical deps.rate deps.limiter deps.burst
                    deps.trusted_proxy
                ∷ geo deps
                ∷ deps.session
                ∷ deps.csrf
                ∷ deps.logger
                ∷ []))
    observed-Passes true = (observability-Passes, inner_stack)
    observed-Passes false = inner_stack

    stack-Passes : All Passes (middleware_stack deps)
    unfolding middleware_stack
    stack-Passes = (recover-Passes, observed-Passes deps.enable_telemetry)

    registered-PassedOn :
        (to : Route) (r : HttpRequest) (s : State S L B T)
        → PassedOn (dispatch site to) r s (registered deps to r s)
    unfolding registered router_deps
    registered-PassedOn to r s = elim (Bool-cases (is_guarded to)) [
      | inl e ↦ rw e (auth_stack-Passes (dispatch site to) r s)
      | inr e ↦ rw e (inr (s, (refl, refl)))
    ]

    -- one request leaves the database alone, or as the handler of its route leaves it
    pub serve-PassedOn :
        (r : HttpRequest) (s : State S L B T)
        → PassedOn
            (dispatch site (root_route r.method (segments r.path)))
            r
            s
            (serve_request site r s)
    unfolding serve_request new_router app_mux
    serve-PassedOn r s =
        let to = root_route r.method (segments r.path) in
        elim (Bool-cases (is_bare to)) [
          | inl e ↦ rw e (registered-PassedOn to r s)
          | inr e ↦
              rw e (elim (PassedOn-chain (app_mux deps) (middleware_stack deps) stack-Passes r s) [
                | inl f ↦ inl f
                | inr (s', (same, f)) ↦ elim (registered-PassedOn to r s') [
                  | inl g ↦ inl (f ∙ (g ∙ same))
                  | inr (u, (same', g)) ↦ inr (u, (same' ∙ same, f ∙ g))
                ]
              ])
        ]
