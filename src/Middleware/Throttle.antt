-- ===== src/Middleware/Throttle.antt =====
-- middleware/limiter.go: IPRateLimiter.Middleware. The token buckets (golang.org/x/time/rate) are a
-- parameter, on a state of their own; Reserve, Delay and Cancel together leave it as it was.
use blogengine.Prelude.{
  ℕ, suc, ◌/◌, max, Bool, true, false, List, [], ◌∷◌, ◌++◌, Option, none, some,
}
use blogengine.Prelude.Text.{Text, codes}
use blogengine.Strconv.{itoa}
use blogengine.Middleware.Ip.{Addr, get_client_ip}
use blogengine.Middleware.Limiter.{IpRateLimiter, get_limiter}
use blogengine.Middleware.Handler.{
  Call, sets, writes_header, writes, returned, HttpRequest, Middleware, with_headers,
}

-- Allow, the delay of Reserve in nanoseconds, and int(Tokens()), of a bucket
pub record Buckets (L : Type 0) : Type 0 where
  pub allow : ℕ → L → Bool × L
  pub delay : ℕ → L → ℕ
  pub tokens : ℕ → L → ℕ

-- the limiter, its buckets, and RateLimitHitsTotal
pub record Limited (L : Type 0) : Type 0 where
  pub limiter : IpRateLimiter
  pub buckets : L
  pub hits : ℕ

-- where the state keeps a limiter
pub record Limits (S L : Type 0) : Type 0 where
  pub get : S → Limited L
  pub put : Limited L → S → S

pub data Verdict : Type 0 where
  invalid_ip : Verdict
  exceeded : (retry_seconds : ℕ) → Verdict
  admitted : (remaining : ℕ) → Verdict

-- the calls that http.Error makes
abbrev pub error_calls : Text → ℕ → List Call
error_calls message code =
    sets (codes "Content-Type") (codes "text/plain; charset=utf-8")
    ∷ sets (codes "X-Content-Type-Options") (codes "nosniff")
    ∷ writes_header code
    ∷ writes (message ++ 10 ∷ [])
    ∷ []

-- what follows the verdict
unfoldable pub obey : {S : Type 0} → (burst : ℕ) → Verdict → Middleware S
unfolding itoa
obey burst invalid_ip next r s = record {
  calls = error_calls (codes "invalid ip address") 400;
  exit = returned;
  state = s;
}
obey burst (exceeded retry_seconds) next r s = record {
  calls =
      sets (codes "Retry-After") (itoa retry_seconds)
      ∷ sets (codes "X-Ratelimit-Limit") (itoa burst)
      ∷ sets (codes "X-Ratelimit-Remaining") (codes "0")
      ∷ error_calls (codes "rate limit exceeded") 429;
  exit = returned;
  state = s;
}
obey burst (admitted remaining) next r s =
    with_headers
      (sets (codes "X-Ratelimit-Limit") (itoa burst)
        ∷ sets (codes "X-Ratelimit-Remaining") (itoa remaining)
        ∷ [])
      (next r s)

module _ {L : Type 0} (parse_ip : Text → Option Addr) (canonical : Text → Option Text)
    (rate : Buckets L) where
  -- what one bucket says
  unfoldable pub draw : ℕ → Limited L → Verdict × Limited L
  draw bucket l =
      let a = rate.allow bucket l.buckets in
      elim a.0 [
        | true ↦ (
          admitted (rate.tokens bucket a.1),
          record { limiter = l.limiter; buckets = a.1; hits = l.hits },
        )
        | false ↦ (
          exceeded (max 1 (rate.delay bucket a.1 / 1000000000)),
          record { limiter = l.limiter; buckets = a.1; hits = suc l.hits },
        )
      ]

  -- the address, its bucket, and what that says
  unfoldable pub judge : (trusted_proxy : Bool) → HttpRequest → Limited L → Verdict × Limited L
  unfolding draw get_limiter
  judge trusted_proxy r l =
      let g =
        get_limiter canonical (get_client_ip parse_ip trusted_proxy r.origin) r.now l.limiter in
      elim g.0 [
        | none ↦ (invalid_ip, record { limiter = g.1; buckets = l.buckets; hits = l.hits })
        | some bucket ↦ draw bucket (record { limiter = g.1; buckets = l.buckets; hits = l.hits })
      ]

  -- IPRateLimiter.Middleware
  unfoldable pub throttle :
      {S : Type 0} → Limits S L → (burst : ℕ) → (trusted_proxy : Bool) → Middleware S
  unfolding obey judge
  throttle at burst trusted_proxy next r s =
      let v = judge trusted_proxy r (at.get s) in obey burst v.0 next r (at.put v.1 s)
