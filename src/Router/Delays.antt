-- ===== src/Router/Delays.antt =====
-- internal/router/router.go: how long a form takes.
use blogengine.Prelude.{
  false, ◌-◌, ltb, inl, inr, Bool-cases, ℕ, ◌+◌, ◌≤◌, ◌≡◌, true, false, sym, arith,
}
use blogengine.Middleware.Handler.{HttpRequest, Turn, returned}
use blogengine.Middleware.Delay.{Clock, IsClock, wait_for_rest, secure_delay}
use blogengine.Middleware.Throttle.{Limited, admitted, judge, obey, throttle}
use blogengine.Router.{
  root_route, is_guarded, segments, RouterDependencies, auth_delay, auth_stack, registered, app_mux,
}

-- The wait ends when the time is over, or later.
wait_for_rest_lem :
    {S : Type 0} (k : Clock S) (target start : ℕ) (t : Turn S)
    → IsClock k
    → start ≤ k.now t.state
    → k.given_up (wait_for_rest k target start t).state ≡ false
    → start + target ≤ k.now (wait_for_rest k target start t).state
unfolding wait_for_rest
wait_for_rest_lem k target start t c mono there =
    elim (Bool-cases (ltb (k.now t.state - start) target)) [
      | inl e ↦
          ground (
            arith,
            e,
            c.waits (target - (k.now t.state - start)) t.state (ground (arith, e, there)),
          )
      | inr e ↦ ground (arith, e)
    ]

module _ {S L : Type 0} (d : RouterDependencies S L) where
  -- the handler of the form, on the state in which the limiter has counted the request
  abbrev pub form_turn : HttpRequest → Limited L → S → Turn S
  form_turn r l s = d.handle (root_route r.method (segments r.path)) r (d.auth_limiter.put l s)

  app_mux_lem :
      (r : HttpRequest) (s : S) (n : ℕ) (l : Limited L)
      → is_guarded (root_route r.method (segments r.path)) ≡ true
      → judge d.parse_ip d.canonical d.rate d.trusted_proxy r (d.auth_limiter.get s)
        ≡ (admitted n, l)
      → (form_turn r l s).exit ≡ returned
      → (app_mux d r s).state
        ≡ (wait_for_rest d.clock auth_delay
            (d.clock.now (d.auth_limiter.put l s))
            (form_turn r l s)).state
  unfolding app_mux registered auth_stack throttle secure_delay obey
  app_mux_lem r s n l guarded let_in done = ground (arith, guarded, let_in, done)

-- The turn of a form that the limiter lets through takes half a second or more, whatever its handler
-- does and however soon it is done. (The handler returns and
-- does not panic, the client does not give up, the clock does not go back, and counting in the limiter does
-- not move it.)
pub forms_take_time :
    {S L : Type 0} (d : RouterDependencies S L) (r : HttpRequest) (s : S) (n : ℕ) (l : Limited L)
    → IsClock d.clock
    → d.clock.now (d.auth_limiter.put l s) ≡ d.clock.now s
    → is_guarded (root_route r.method (segments r.path)) ≡ true
    → judge d.parse_ip d.canonical d.rate d.trusted_proxy r (d.auth_limiter.get s) ≡ (admitted n, l)
    → (form_turn d r l s).exit ≡ returned
    → d.clock.now s ≤ d.clock.now (form_turn d r l s).state
    → d.clock.given_up (app_mux d r s).state ≡ false
    → d.clock.now s + 500000000 ≤ d.clock.now (app_mux d r s).state
forms_take_time d r s n l clock still guarded let_in done mono there =
    let e = app_mux_lem d r s n l guarded let_in done in
    let floor =
      wait_for_rest_lem d.clock auth_delay (d.clock.now (d.auth_limiter.put l s))
        (form_turn d r l s) clock (rw still mono) (rw (sym e) there) in
    rw (e, sym still) floor
