-- ===== src/Middleware/Ip.antt =====
-- middleware/ip.go: the address that a request comes from. net.ParseIP is a parameter, which gives
-- an IPv4 address, also one written in IPv6, as its number, and any other as the number of its 16
-- bytes. `host` is what net.SplitHostPort makes of the remote address, if it can.
use blogengine.Prelude.{
  ℕ, ◌+◌, ◌*◌, ◌/◌, ◌^◌, Bool, true, false, not, List, [], ◌∷◌, Option, none, some, any, ◌==◌,
  if◌then◌else◌,
}
use blogengine.Prelude.Text.{Text, codes, is_empty, trim_space}

pub data Addr : Type 0 where
  v4 : ℕ → Addr
  v6 : ℕ → Addr

-- a block of addresses: the leading bits that they share, and how many bits follow
pub data Block : Type 0 where
  block4 : (prefix rest : ℕ) → Block
  block6 : (prefix rest : ℕ) → Block

-- getPrivateIPBlocks
abbrev pub private_blocks : List Block
private_blocks =
    block4 127 24
    ∷ block4 10 24
    ∷ block4 (172 * 16 + 1) 20
    ∷ block4 (192 * 256 + 168) 16
    ∷ block6 1 0
    ∷ block6 (0xfc / 2) 121
    ∷ block6 (0xfe80 / 64) 118
    ∷ []

-- block.Contains(ip): the lengths of the two addresses agree, and the leading bits
abbrev pub contains : Addr → Block → Bool
contains (v4 a) (block4 p rest) = a / 2 ^ rest == p
contains (v6 a) (block6 p rest) = a / 2 ^ rest == p
contains (v4 a) (block6 p rest) = false
contains (v6 a) (block4 p rest) = false

unfoldable pub is_private_ip : Addr → Bool
is_private_ip a = any (contains a) private_blocks

-- strings.Cut(s, ","), its first part
unfoldable pub before_comma : Text → Text
before_comma [] = []
before_comma (c ∷ s) = let rest = before_comma s in if c == 44 then [] else c ∷ rest

-- the parts of a request that the code reads
pub record Origin : Type 0 where
  pub header : Text → Text
  pub host : Option Text
  pub remote_addr : Text

abbrev pub interesting_headers : List Text
interesting_headers = codes "CF-Connecting-IP" ∷ codes "X-Forwarded-For" ∷ codes "X-Real-IP" ∷ []

module _ (parse_ip : Text → Option Addr) where
  abbrev pub host_or : Option Text → Text → Text
  host_or none remote_addr = remote_addr
  host_or (some ip) remote_addr = ip

  unfoldable pub get_direct_client_ip_validated : Origin → Text
  get_direct_client_ip_validated r =
      let ip = trim_space (host_or r.host r.remote_addr) in
      elim (parse_ip ip) [ none ↦ [] | some a ↦ ip ]

  abbrev pub is_usable : Option Addr → Bool
  is_usable none = false
  is_usable (some a) = not (is_private_ip a)

  -- the loop over the headers
  unfoldable pub from_headers : List Text → Origin → Text
  unfolding before_comma get_direct_client_ip_validated is_private_ip
  from_headers [] r = get_direct_client_ip_validated r
  from_headers (name ∷ names) r =
      let rest = from_headers names r in
      let origin_ip = trim_space (r.header name) in
      let first = trim_space (before_comma origin_ip) in
      if is_empty origin_ip then rest else if is_usable (parse_ip first) then first else rest

  unfoldable pub get_proxy_client_ip : Origin → Text
  unfolding from_headers
  get_proxy_client_ip r = from_headers interesting_headers r

  -- getClientIPFactory
  abbrev pub get_client_ip : (trusted_proxy : Bool) → Origin → Text
  get_client_ip true r = get_proxy_client_ip r
  get_client_ip false r = get_direct_client_ip_validated r
