-- ===== src/Middleware/Csp.antt =====
-- middleware/csp.go: the headers that harden a page, their names in canonical form.
use blogengine.Prelude.{Bool, List, [], ◌∷◌, ◌++◌, if◌then◌else◌}
use blogengine.Prelude.Text.{Text, codes}
use blogengine.Middleware.Handler.{Call, sets, Middleware, with_headers}

-- the cspHeaderString of NewCSP
unfoldable pub csp_header : Text
csp_header =
    codes "default-src 'self'; "
    ++ (codes "script-src 'self'; "
        ++ (codes "style-src 'self' 'unsafe-inline' https://fonts.googleapis.com; "
            ++ (codes "img-src 'self' data: https://images.unsplash.com; "
                ++ (codes "font-src 'self' https://fonts.gstatic.com; "
                    ++ (codes "connect-src 'self'; "
                        ++ (codes "frame-ancestors 'none'; "
                            ++ (codes "base-uri 'self'; " ++ codes "form-action 'self'")))))))

abbrev pub hsts : Bool → List Call
hsts is_prod =
    if is_prod
    then sets (codes "Strict-Transport-Security")
        (codes "max-age=63072000; includeSubDomains; preload")
      ∷ []
    else []

abbrev pub other_headers : List Call
other_headers =
    sets (codes "X-Content-Type-Options") (codes "nosniff")
    ∷ sets (codes "X-Frame-Options") (codes "DENY")
    ∷ sets (codes "X-Xss-Protection") (codes "1; mode=block")
    ∷ sets (codes "Referrer-Policy") (codes "strict-origin-when-cross-origin")
    ∷ []

abbrev pub csp_calls : Bool → List Call
csp_calls is_prod =
    sets (codes "Content-Security-Policy") csp_header ∷ (hsts is_prod ++ other_headers)

-- CSP.Middleware
unfoldable pub csp : {S : Type 0} → (is_prod : Bool) → Middleware S
unfolding csp_header
csp is_prod next r s = with_headers (csp_calls is_prod) (next r s)
