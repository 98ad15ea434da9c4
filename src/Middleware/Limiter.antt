-- ===== src/Middleware/Limiter.antt =====
-- middleware/limiter.go: one token bucket for each address. A bucket (rate.Limiter) is a pointer, so
-- it is a number here, the next unused one for a new bucket; `canonical` is net.ParseIP and String of
-- what it returns. Times are in nanoseconds.
use blogengine.Prelude.{ℕ, suc, ◌+◌, ◌*◌, Bool, List, [], Option, none, some, ltb}
use blogengine.Prelude.Text.{Text}
use blogengine.Middleware.Assoc.{lookup, assign, drop_if}

pub record Client : Type 0 where
  pub limiter : ℕ
  pub last_seen : ℕ

pub record IpRateLimiter : Type 0 where
  pub ips : List (Text × Client)
  pub next : ℕ

abbrev pub new_ip_rate_limiter : IpRateLimiter
new_ip_rate_limiter = record { ips = []; next = 0 }

-- 3 minutes
abbrev pub inactive_limit : ℕ
inactive_limit = 3 * 60 * 1000000000

abbrev pub is_stale : ℕ → Client → Bool
is_stale now c = ltb (c.last_seen + inactive_limit) now

unfoldable pub cleanup : ℕ → IpRateLimiter → IpRateLimiter
cleanup now l = record l { ips = drop_if (is_stale now) l.ips }

-- the bucket of an address in canonical form
unfoldable pub bucket_of : Text → ℕ → IpRateLimiter → ℕ × IpRateLimiter
bucket_of ip now l = elim (lookup ip l.ips) [
  | none ↦ (
    l.next,
    record {
      ips = assign ip (record { limiter = l.next; last_seen = now }) l.ips;
      next = suc l.next;
    },
  )
  | some c ↦ (c.limiter, record l { ips = assign ip (record c { last_seen = now }) l.ips })
]

module _ (canonical : Text → Option Text) where
  -- getLimiter; none is ErrInvalidIP
  unfoldable pub get_limiter : Text → ℕ → IpRateLimiter → Option ℕ × IpRateLimiter
  unfolding bucket_of
  get_limiter ip now l = elim (canonical ip) [
    | none ↦ (none, l)
    | some key ↦ let b = bucket_of key now l in (some b.0, b.1)
  ]
