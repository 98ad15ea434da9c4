-- ===== src/Middleware/LimiterLaws.antt =====
-- middleware/limiter.go: an address keeps its bucket.
use blogengine.Prelude.{
  ℕ, ◌+◌, ◌≤◌, ◌≡◌, refl, ap, inl, inr, false, Option, some, arith, Option-cases,
}
use blogengine.Prelude.Text.{Text}
use blogengine.Middleware.Assoc.{lookup, drop_if, lookup-assign, lookup-drop_if}
use blogengine.Middleware.Limiter.{
  Client, IpRateLimiter, inactive_limit, is_stale, cleanup, bucket_of, get_limiter,
}

-- what is kept under the key after its bucket was asked for
bucket_kept :
    (key : Text) (now : ℕ) (l : IpRateLimiter)
    → lookup key (bucket_of key now l).1.ips
      ≡ some (record { limiter = (bucket_of key now l).0; last_seen = now })
unfolding bucket_of
bucket_kept key now l = elim (Option-cases (lookup key l.ips)) [
  | inl n ↦
      rw (n, bucket_of) (lookup-assign key (record { limiter = l.next; last_seen = now }) l.ips)
  | inr (c, n) ↦ rw (n, bucket_of) (lookup-assign key (record c { last_seen = now }) l.ips)
]

bucket_found :
    (key : Text) (now : ℕ) (l : IpRateLimiter) {c : Client}
    → lookup key l.ips ≡ some c
    → (bucket_of key now l).0 ≡ c.limiter
unfolding bucket_of
bucket_found key now l h = ground (arith, h)

stale_free :
    (sweep now b : ℕ)
    → sweep ≤ now + inactive_limit
    → is_stale sweep (record { limiter = b; last_seen = now }) ≡ false
stale_free sweep now b h = ground arith

got :
    (canonical : Text → Option Text) (ip key : Text) (now : ℕ) (l : IpRateLimiter)
    → canonical ip ≡ some key
    → get_limiter canonical ip now l ≡ (some (bucket_of key now l).0, (bucket_of key now l).1)
unfolding get_limiter
got canonical ip key now l e = rw (e, get_limiter) refl

-- Two requests from one address, however it is written, draw on one bucket, also if the cleanup runs
-- between them within three minutes of the first.
pub get_limiter_again :
    (canonical : Text → Option Text) (ip ip' key : Text) (now sweep later : ℕ) (l : IpRateLimiter)
    → canonical ip ≡ some key
    → canonical ip' ≡ some key
    → sweep ≤ now + inactive_limit
    → ((get_limiter canonical ip' later (get_limiter canonical ip now l).1).0
        ≡ (get_limiter canonical ip now l).0)
      × ((get_limiter canonical ip' later (cleanup sweep (get_limiter canonical ip now l).1)).0
          ≡ (get_limiter canonical ip now l).0)
unfolding cleanup
get_limiter_again canonical ip ip' key now sweep later l e e' soon =
    let b = (bucket_of key now l).0 in
    let l' = (bucket_of key now l).1 in
    let mine : Client = record { limiter = b; last_seen = now } in
    let kept = bucket_kept key now l in
    let swept =
      lookup-drop_if (is_stale sweep) key l'.ips {v = mine} kept (stale_free sweep now b soon) in
    rw (got canonical ip key now l e, got canonical ip' key later l' e')
      (
        ap some (bucket_found key later l' {c = mine} kept),
        rw (got canonical ip' key later (record l' { ips = drop_if (is_stale sweep) l'.ips }) e') (
            ap some (
              bucket_found key later (record l' { ips = drop_if (is_stale sweep) l'.ips })
                {c = mine} swept)),
      )
