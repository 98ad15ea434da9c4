-- ===== src/Router/Refusals.antt =====
-- internal/router/router.go: what a client that is refused gets.
use mathlib.Core.Path.{subst}
use blogengine.Prelude.{
  ℕ, suc, ◌≡◌, refl, sym, ap, ◌∙◌, Bool, true, false, List, [], ◌∷◌, ◌++◌, some, arith,
  if◌then◌else◌,
}
use blogengine.Prelude.Text.{Text, codes}
use blogengine.Strconv.{itoa}
use blogengine.Http.{Writer, new_writer, set_header, write_header, write, status, header}
use blogengine.Middleware.Assoc.{lookup, assign}
use blogengine.Middleware.Handler.{
  Call, sets, writes_header, writes, returned, HttpRequest, Turn, Handler, Middleware, apply_calls,
  chain, settle, recover,
}
use blogengine.Middleware.Csp.{csp_header, csp, csp_calls}
use blogengine.Middleware.Observability.{
  HttpMetrics, enter, leave, count, wrapped, forward_header, forward_write, forward_call, forward,
  observability,
}
use blogengine.Middleware.Throttle.{Limited, exceeded, judge, obey, throttle}
use blogengine.Router.{
  root_route, is_bare, segments, RouterDependencies, geo, app_mux, middleware_stack, new_router,
}

abbrev refusal : Bool → (burst n : ℕ) → List Call
refusal is_prod burst n =
    csp_calls is_prod
    ++ (sets (codes "Retry-After") (itoa n)
        ∷ sets (codes "X-Ratelimit-Limit") (itoa burst)
        ∷ sets (codes "X-Ratelimit-Remaining") (codes "0")
        ∷ sets (codes "Content-Type") (codes "text/plain; charset=utf-8")
        ∷ sets (codes "X-Content-Type-Options") (codes "nosniff")
        ∷ writes_header 429
        ∷ writes (codes "rate limit exceeded" ++ 10 ∷ [])
        ∷ [])

-- what a refused client gets
abbrev pub IsRefused : ℕ → Writer → Type 0
IsRefused n w =
    (status w ≡ 429)
    × (header (codes "Retry-After") w ≡ some (itoa n))
    × (header (codes "X-Frame-Options") w ≡ some (codes "DENY"))
    × (header (codes "Content-Security-Policy") w ≡ some csp_header)
    × (header (codes "X-Content-Type-Options") w ≡ some (codes "nosniff"))

refusal-IsRefused :
    (is_prod : Bool) (burst n : ℕ) → IsRefused n (apply_calls (refusal is_prod burst n) new_writer)
unfolding apply_calls set_header write_header write status header lookup assign
refusal-IsRefused true burst n = (refl, refl, refl, refl, refl)
refusal-IsRefused false burst n = (refl, refl, refl, refl, refl)

traced-IsRefused :
    (is_prod : Bool) (burst n : ℕ) (trace_id : Text)
    → IsRefused n (
        apply_calls
          (sets (codes "X-Trace-Id") trace_id ∷ (forward (refusal is_prod burst n) wrapped).0)
          new_writer)
unfolding apply_calls set_header write_header write status header lookup assign forward forward_call
    forward_header forward_write
traced-IsRefused true burst n trace_id = (refl, refl, refl, refl, refl)
traced-IsRefused false burst n trace_id = (refl, refl, refl, refl, refl)

recorded :
    (is_prod : Bool) (burst n : ℕ) → (forward (refusal is_prod burst n) wrapped).1.status_code ≡ 429
unfolding forward forward_call forward_header forward_write
recorded true burst n = refl
recorded false burst n = refl

module _ {S L : Type 0} (d : RouterDependencies S L) where
  abbrev client : Turn S → Writer
  client t = apply_calls t.calls new_writer

  throttled :
      (r : HttpRequest) (s : S) (n : ℕ) (l : Limited L) (next : Handler S)
      → judge d.parse_ip d.canonical d.rate d.trusted_proxy r (d.limiter.get s) ≡ (exceeded n, l)
      → csp d.is_prod
          (throttle d.parse_ip d.canonical d.rate d.limiter d.burst d.trusted_proxy next)
          r
          s
        ≡ record { calls = refusal d.is_prod d.burst n; exit = returned; state = d.limiter.put l s }
  unfolding csp throttle obey
  throttled r s n l next e = rw (e, csp, throttle, obey) refl

  -- what is left of the stack behind the limiter
  abbrev inner : List (Middleware S)
  inner = geo d ∷ d.session ∷ d.csrf ∷ d.logger ∷ []

  abbrev stack_with : Bool → List (Middleware S)
  stack_with telemetry =
      recover
      ∷ ((if telemetry then observability d.meter d.trace_id ∷ [] else [])
          ++ (csp d.is_prod
              ∷ throttle d.parse_ip d.canonical d.rate d.limiter d.burst d.trusted_proxy
              ∷ inner))

  untraced :
      (r : HttpRequest) (s : S) (app : Handler S) {calls : List Call} {after : S}
      → csp d.is_prod
          (throttle d.parse_ip d.canonical d.rate d.limiter d.burst d.trusted_proxy
            (chain app inner))
          r
          s
        ≡ record { calls = calls; exit = returned; state = after }
      → chain app (stack_with false) r s ≡ record { calls = calls; exit = returned; state = after }
  unfolding chain recover settle
  untraced r s app e = ground (arith, e)

  traced :
      (r : HttpRequest) (s : S) (app : Handler S) {calls : List Call} {after : S}
      → csp d.is_prod
          (throttle d.parse_ip d.canonical d.rate d.limiter d.burst d.trusted_proxy
            (chain app inner))
          r
          (enter d.meter s)
        ≡ record { calls = calls; exit = returned; state = after }
      → chain app (stack_with true) r s ≡ record {
        calls = sets (codes "X-Trace-Id") d.trace_id ∷ (forward calls wrapped).0;
        exit = returned;
        state = leave d.meter (count d.meter (forward calls wrapped).1.status_code after);
      }
  unfolding chain recover settle observability
  traced r s app e = ground (arith, e)

  abbrev pub state_after : Bool → Limited L → S → S
  state_after telemetry l s =
      if telemetry
      then leave d.meter (count d.meter 429 (d.limiter.put l (enter d.meter s)))
      else d.limiter.put l s

  abbrev pub Refuses : Bool → ℕ → Limited L → S → Turn S → Type 0
  Refuses telemetry n l s t =
      IsRefused n (client t) × (t.exit ≡ returned) × (t.state ≡ state_after telemetry l s)

  refused_in_stack :
      (telemetry : Bool) (r : HttpRequest) (s : S) (n : ℕ) (l : Limited L) (app : Handler S)
      → ((m : HttpMetrics) (u : S) → d.limiter.get (d.meter.put m u) ≡ d.limiter.get u)
      → judge d.parse_ip d.canonical d.rate d.trusted_proxy r (d.limiter.get s) ≡ (exceeded n, l)
      → Refuses telemetry n l s (chain app (stack_with telemetry) r s)
  refused_in_stack false r s n l app apart e =
      subst (Refuses false n l s) (sym (untraced r s app (throttled r s n l (chain app inner) e)))
        (refusal-IsRefused d.is_prod d.burst n, refl, refl)
  refused_in_stack true r s n l app apart e =
      let busy : HttpMetrics = record {
        active = suc (d.meter.get s).active;
        totals = (d.meter.get s).totals;
      } in
      let same = ap (judge d.parse_ip d.canonical d.rate d.trusted_proxy r) (apart busy s) ∙ e in
      let met =
        ap (λ code. leave d.meter (count d.meter code (d.limiter.put l (enter d.meter s))))
          (recorded d.is_prod d.burst n) in
      subst (Refuses true n l s)
        (sym (traced r s app (throttled r (enter d.meter s) n l (chain app inner) same)))
        (traced-IsRefused d.is_prod d.burst n d.trace_id, refl, met)

-- A client that draws on an empty bucket is refused with 429, a Retry-After of the seconds that the
-- verdict has, and the headers that harden a page; its request reaches no handler: the state changes
-- in the limiter alone, and in the metrics, which count one request with the status 429, where
-- telemetry is on. (The path is not /metrics nor /healthz, which have no limit, and the metrics and the
-- limiter are different fields of the state.)
pub refused_is_hardened :
    {S L : Type 0} (d : RouterDependencies S L) (r : HttpRequest) (s : S) (n : ℕ) (l : Limited L)
    → is_bare (root_route r.method (segments r.path)) ≡ false
    → ((m : HttpMetrics) (u : S) → d.limiter.get (d.meter.put m u) ≡ d.limiter.get u)
    → judge d.parse_ip d.canonical d.rate d.trusted_proxy r (d.limiter.get s) ≡ (exceeded n, l)
    → Refuses d d.enable_telemetry n l s (new_router d r s)
unfolding new_router middleware_stack
refused_is_hardened d r s n l inside apart e =
    subst (Refuses d d.enable_telemetry n l s) (ground (arith, inside))
      (refused_in_stack d d.enable_telemetry r s n l (app_mux d) apart e)
