-- ===== src/Http/Headers.antt =====
-- net/http: what a client sees of headers and statuses that were set before the first write.
use blogengine.Prelude.{ℕ, ◌≡◌, refl, ◌∙◌, false, [], none}
use blogengine.Prelude.Text.{Text, codes, text_eq}
use blogengine.Middleware.Assoc.{lookup, assign, lookup-assign_other}
use blogengine.Http.{
  Headers, Writer, set_header, write_header, write, http_error, http_not_found, status, header,
  is_informational,
}

-- headers were set, and nothing was sent
abbrev pub fresh : Headers → Writer
fresh headers = record { headers = headers; sent = none; body = [] }

pub set_header-fresh :
    (name value : Text) (hs : Headers)
    → set_header name value (fresh hs) ≡ fresh (assign name value hs)
unfolding set_header
set_header-fresh name value hs = refl

-- what is written goes out with the status 200 and the headers
pub status-write : (bytes : Text) (hs : Headers) → status (write bytes (fresh hs)) ≡ 200
unfolding status write write_header
status-write bytes hs = refl

pub header-write :
    (name bytes : Text) (hs : Headers) → header name (write bytes (fresh hs)) ≡ lookup name hs
unfolding header write write_header
header-write name bytes hs = refl

pub body-write : (bytes : Text) (hs : Headers) → (write bytes (fresh hs)).body ≡ bytes
unfolding write write_header
body-write bytes hs = refl

pub status-http_error :
    (message : Text) (code : ℕ) (hs : Headers)
    → is_informational code ≡ false
    → status (http_error message code (fresh hs)) ≡ code
unfolding http_error write write_header set_header status
status-http_error message code hs final = rw final refl

pub status-http_not_found : (hs : Headers) → status (http_not_found (fresh hs)) ≡ 404
unfolding http_not_found http_error write write_header set_header status
status-http_not_found hs = refl

-- an error goes out with the headers that were set before it, but for two
pub header-http_error :
    (message : Text) (code : ℕ) (name : Text) (hs : Headers)
    → is_informational code ≡ false
    → text_eq (codes "Content-Type") name ≡ false
    → text_eq (codes "X-Content-Type-Options") name ≡ false
    → header name (http_error message code (fresh hs)) ≡ lookup name hs
unfolding http_error write write_header header set_header
header-http_error message code name hs final h k = rw final (
    lookup-assign_other (codes "X-Content-Type-Options") name (codes "nosniff")
      (assign (codes "Content-Type") (codes "text/plain; charset=utf-8") hs) k
    ∙ lookup-assign_other (codes "Content-Type") name (codes "text/plain; charset=utf-8") hs h)
