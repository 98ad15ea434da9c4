-- ===== src/Middleware/Handler.antt =====
-- middleware/middleware.go: handlers and the functions that wrap them. A handler is what it does to
-- the state, the calls that it makes of its ResponseWriter, in order, and whether it panics; no
-- handler here reads back what it wrote.
use blogengine.Prelude.{ℕ, List, [], ◌∷◌, ◌++◌}
use blogengine.Prelude.Text.{Text}
use blogengine.Http.{Writer, set_header, write_header, write}
use blogengine.Middleware.Ip.{Origin}

pub data Call : Type 0 where
  sets : (name value : Text) → Call
  writes_header : (code : ℕ) → Call
  writes : (bytes : Text) → Call

pub data Exit : Type 0 where
  returned panicked : Exit

-- what the middlewares read of a request, and the time of its arrival
pub record HttpRequest : Type 0 where
  pub method : Text
  pub path : Text
  pub origin : Origin
  pub now : ℕ

pub record Turn (S : Type 0) : Type 0 where
  pub calls : List Call
  pub exit : Exit
  pub state : S

abbrev pub Handler : Type 0 → Type 0
Handler S = HttpRequest → S → Turn S

abbrev pub Middleware : Type 0 → Type 0
Middleware S = Handler S → Handler S

-- the calls, made of net/http's writer
unfoldable pub apply_calls : List Call → Writer → Writer
unfolding set_header write_header write
apply_calls [] w = w
apply_calls (sets name value ∷ calls) w = apply_calls calls (set_header name value w)
apply_calls (writes_header code ∷ calls) w = apply_calls calls (write_header code w)
apply_calls (writes bytes ∷ calls) w = apply_calls calls (write bytes w)

-- Chain: the loop goes backward, so that the first middleware is the outermost
unfoldable pub chain : {S : Type 0} → Handler S → List (Middleware S) → Handler S
chain h [] = h
chain h (m ∷ ms) = m (chain h ms)

-- the deferred function of Recover: it writes 500, if no status was written before
unfoldable pub settle : {S : Type 0} → Turn S → Turn S
settle t = elim t.exit [
  | returned ↦ t
  | panicked ↦ record {
    calls = t.calls ++ writes_header 500 ∷ [];
    exit = returned;
    state = t.state;
  }
]

-- Recover
unfoldable pub recover : {S : Type 0} → Middleware S
unfolding settle
recover next r s = settle (next r s)

-- a middleware that sets headers first
abbrev pub with_headers : {S : Type 0} → List Call → Turn S → Turn S
with_headers first t = record { calls = first ++ t.calls; exit = t.exit; state = t.state }
