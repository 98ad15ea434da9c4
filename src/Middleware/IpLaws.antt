-- ===== src/Middleware/IpLaws.antt =====
-- middleware/ip.go: the private addresses, and which addresses a client can have.
use blogengine.Prelude.{
  ℕ, ◌+◌, ◌*◌, ◌≤◌, ◌≡◌, refl, ◌↔◌, ◌⊎◌, inl, inr, Bool, true, false, List, [], ◌∷◌, Option, none,
  some, arith, Bool-cases, Option-cases,
}
use blogengine.Prelude.Text.{Text, is_empty, trim_space}
use blogengine.Middleware.Ip.{
  Addr, v4, is_private_ip, Origin, before_comma, is_usable, from_headers, interesting_headers,
  get_direct_client_ip_validated, get_proxy_client_ip, get_client_ip, host_or,
}

-- the number of a.b.c.d
abbrev pub dotted : (a b c d : ℕ) → ℕ
dotted a b c d = ((a * 256 + b) * 256 + c) * 256 + d

abbrev pub Between : ℕ → ℕ → ℕ → Type 0
Between lo hi a = (lo ≤ a) × (a ≤ hi)

-- An IPv4 address is private exactly in 127.0.0.0–127.255.255.255, 10.0.0.0–10.255.255.255,
-- 172.16.0.0–172.31.255.255 and 192.168.0.0–192.168.255.255.
pub is_private_ip_iff :
    (a : ℕ)
    → (is_private_ip (v4 a) ≡ true) ↔ (
        Between (dotted 127 0 0 0) (dotted 127 255 255 255) a
        ⊎ (Between (dotted 10 0 0 0) (dotted 10 255 255 255) a
            ⊎ (Between (dotted 172 16 0 0) (dotted 172 31 255 255) a
                ⊎ Between (dotted 192 168 0 0) (dotted 192 168 255 255) a)))
unfolding is_private_ip
is_private_ip_iff a = ground arith

module _ (parse_ip : Text → Option Addr) where
  parsed : (o : Option Addr) → is_usable parse_ip o ≡ true → (a : Addr) × (o ≡ some a)
  parsed none u = absurd (ground arith)
  parsed (some a) u = (a, refl)

  direct_cases :
      (r : Origin)
      → (get_direct_client_ip_validated parse_ip r ≡ [])
        ⊎ ((a : Addr) × (parse_ip (get_direct_client_ip_validated parse_ip r) ≡ some a))
  unfolding get_direct_client_ip_validated
  direct_cases r =
      let ip = trim_space (host_or parse_ip r.host r.remote_addr) in
      elim (Option-cases (parse_ip ip)) [
        | inl n ↦ inl (rw (n, get_direct_client_ip_validated) refl)
        | inr (a, n) ↦ inr (a, rw (n, get_direct_client_ip_validated) n)
      ]

  -- What the loop returns stands in a header, first of a list, and is an address that is not private;
  -- or it is the address of the connection.
  abbrev pub IsSourced : List Text → Origin → Text → Type 0
  IsSourced names r ip =
      ((name : Text) × (ip ≡ trim_space (before_comma (trim_space (r.header name))))
        × (is_usable parse_ip (parse_ip ip) ≡ true))
      ⊎ (ip ≡ get_direct_client_ip_validated parse_ip r)

  from_headers-IsSourced :
      (names : List Text) (r : Origin) → IsSourced names r (from_headers parse_ip names r)
  unfolding from_headers
  from_headers-IsSourced [] r = inr refl
  from_headers-IsSourced (name ∷ names) r =
      let first = trim_space (before_comma (trim_space (r.header name))) in
      elim (Bool-cases (is_empty (trim_space (r.header name)))) [
        | inl e ↦ rw e (from_headers-IsSourced names r)
        | inr e ↦ elim (Bool-cases (is_usable parse_ip (parse_ip first))) [
          | inl u ↦ rw (e, u) (inl (name, refl, u))
          | inr u ↦ rw (e, u) (from_headers-IsSourced names r)
        ]
      ]

  -- The address that the limiter and the statistics use is empty or one that parses. Behind a proxy
  -- it stands first in one of the headers and is not private, or it is the address of the connection.
  pub get_client_ip_lem :
      (trusted_proxy : Bool) (r : Origin)
      → ((get_client_ip parse_ip trusted_proxy r ≡ [])
          ⊎ ((a : Addr) × (parse_ip (get_client_ip parse_ip trusted_proxy r) ≡ some a)))
        × IsSourced interesting_headers r (get_client_ip parse_ip trusted_proxy r)
  unfolding get_proxy_client_ip
  get_client_ip_lem false r = (direct_cases r, inr refl)
  get_client_ip_lem true r = sourced (from_headers-IsSourced interesting_headers r)
    where
      sourced :
          IsSourced interesting_headers r (get_proxy_client_ip parse_ip r)
          → ((get_proxy_client_ip parse_ip r ≡ [])
              ⊎ ((a : Addr) × (parse_ip (get_proxy_client_ip parse_ip r) ≡ some a)))
            × IsSourced interesting_headers r (get_proxy_client_ip parse_ip r)
      sourced (inl (name, e, u)) =
          (inr (parsed (parse_ip (get_proxy_client_ip parse_ip r)) u), inl (name, e, u))
      sourced (inr e) = (rw e (direct_cases r), inr e)
