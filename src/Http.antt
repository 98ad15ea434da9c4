-- ===== src/Http.antt =====
-- What the handlers use of net/http's ResponseWriter. The header map is read when the status is
-- written, and a final status that was written stays: later calls of WriteHeader do nothing. An
-- informational one (100 to 199 but 101) is sent at once and leaves the final one open.
pub mod Headers
use blogengine.Prelude.{
  ℕ, Bool, not, ◌&&◌, leb, ◌==◌, if◌then◌else◌, List, [], ◌∷◌, ◌++◌, Option, none, some,
}
use blogengine.Prelude.Text.{Text, codes}
use blogengine.Middleware.Assoc.{lookup, assign}

abbrev pub Headers : Type 0
Headers = List (Text × Text)

-- `sent` has the status and the headers that went out with it
pub record Writer : Type 0 where
  pub headers : Headers
  pub sent : Option (ℕ × Headers)
  pub body : Text

abbrev pub new_writer : Writer
new_writer = record { headers = []; sent = none; body = [] }

-- w.Header().Set(name, value), the name in canonical form
unfoldable pub set_header : Text → Text → Writer → Writer
set_header name value w = record w { headers = assign name value w.headers }

abbrev pub is_informational : ℕ → Bool
is_informational code = leb 100 code && leb code 199 && not (code == 101)

-- w.WriteHeader(code), of a code from 100 to 999: it panics on others
unfoldable pub write_header : ℕ → Writer → Writer
write_header code w = elim w.sent [
  | none ↦ if is_informational code then w else record w { sent = some (code, w.headers) }
  | some s ↦ w
]

-- w.Write(bytes): the status is 200 if none was written
unfoldable pub write : Text → Writer → Writer
unfolding write_header
write bytes w = let v = write_header 200 w in record v { body = v.body ++ bytes }

-- http.Error; the Content-Length that it deletes is set by no handler here
unfoldable pub http_error : Text → ℕ → Writer → Writer
unfolding set_header write_header write
http_error message code w = write (message ++ 10 ∷ []) (
    write_header code (
      set_header (codes "X-Content-Type-Options") (codes "nosniff")
        (set_header (codes "Content-Type") (codes "text/plain; charset=utf-8") w)))

-- http.NotFound
unfoldable pub http_not_found : Writer → Writer
unfolding http_error
http_not_found w = http_error (codes "404 page not found") 404 w

-- What a client gets when the handlers have returned: the status, a header, and the body.
unfoldable pub status : Writer → ℕ
status w = elim w.sent [ none ↦ 200 | some s ↦ s.0 ]

unfoldable pub header : Text → Writer → Option Text
unfolding lookup
header name w = elim w.sent [ none ↦ lookup name w.headers | some s ↦ lookup name s.1 ]
