-- ===== src/Middleware/HeaderLaws.antt =====
-- middleware/csp.go and middleware.go: what reaches the client whatever the handler does.
use blogengine.Prelude.{
  ℕ, ◌≡◌, refl, ap, ◌∙◌, inl, inr, Bool, true, false, List, [], ◌∷◌, Option, none, some, All,
  All-mono, arith, Bool-cases, Option-cases, if◌then◌else◌,
}
use blogengine.Prelude.Text.{Text, codes, text_eq}
use blogengine.Http.{
  Headers, Writer, new_writer, set_header, write_header, write, status, header, is_informational,
}
use blogengine.Middleware.Assoc.{lookup, assign, lookup-assign_other}
use blogengine.Middleware.Handler.{
  Call, sets, writes_header, writes, Exit, returned, panicked, HttpRequest, Turn, Handler,
  apply_calls, settle, recover,
}
use blogengine.Middleware.Csp.{csp_header, csp, csp_calls}
use blogengine.Middleware.StatusLaws.{apply_calls-append}

-- the call sets no header of this name
abbrev pub leaves : Text → Call → Bool
leaves name (sets other value) = if text_eq other name then false else true
leaves name (writes_header code) = true
leaves name (writes bytes) = true

header-set_header_other :
    (name other value : Text) (w : Writer)
    → text_eq other name ≡ false
    → header name (set_header other value w) ≡ header name w
unfolding header set_header
header-set_header_other name other value w e = elim (Option-cases w.sent) [
  | inl n ↦ rw (n, header) (lookup-assign_other other name value w.headers e)
  | inr (s, n) ↦ rw (n, header) refl
]

header-write_header :
    (name : Text) (code : ℕ) (hs : Headers) (sent : Option (ℕ × Headers)) (body : Text)
    → let w : Writer = record { headers = hs; sent = sent; body = body } in
      header name (write_header code w) ≡ header name w
unfolding header write_header
header-write_header name code hs none body = elim (Bool-cases (is_informational code)) [
  | inl e ↦ rw e refl
  | inr e ↦ rw e refl
]
header-write_header name code hs (some s) body = refl

header-write :
    (name bytes : Text) (hs : Headers) (sent : Option (ℕ × Headers)) (body : Text)
    → let w : Writer = record { headers = hs; sent = sent; body = body } in
      header name (write bytes w) ≡ header name w
unfolding header write write_header
header-write name bytes hs none body = refl
header-write name bytes hs (some s) body = refl

-- a header that no call sets stays as it was
pub header-apply_calls :
    (name : Text) (calls : List Call) (w : Writer)
    → All (λ call. leaves name call ≡ true) calls
    → header name (apply_calls calls w) ≡ header name w
unfolding apply_calls
header-apply_calls name [] w h = refl
header-apply_calls name (sets other value ∷ calls) w (h, hs) =
    header-apply_calls name calls (set_header other value w) hs
    ∙ header-set_header_other name other value w (ground (arith, h))
header-apply_calls name (writes_header code ∷ calls) w (h, hs) =
    header-apply_calls name calls (write_header code w) hs
    ∙ header-write_header name code w.headers w.sent w.body
header-apply_calls name (writes bytes ∷ calls) w (h, hs) =
    header-apply_calls name calls (write bytes w) hs
    ∙ header-write name bytes w.headers w.sent w.body

-- the headers of CSP.Middleware that no production setting decides
abbrev pub IsHardened : Writer → Type 0
IsHardened w =
    (header (codes "Content-Security-Policy") w ≡ some csp_header)
    × (header (codes "X-Frame-Options") w ≡ some (codes "DENY"))
    × (header (codes "X-Content-Type-Options") w ≡ some (codes "nosniff"))
    × (header (codes "Referrer-Policy") w ≡ some (codes "strict-origin-when-cross-origin"))

abbrev pub LeavesCsp : Call → Type 0
LeavesCsp call =
    (leaves (codes "Content-Security-Policy") call ≡ true)
    × ((leaves (codes "X-Frame-Options") call ≡ true)
        × ((leaves (codes "X-Content-Type-Options") call ≡ true)
            × (leaves (codes "Referrer-Policy") call ≡ true)))

csp_calls-IsHardened : (is_prod : Bool) → IsHardened (apply_calls (csp_calls is_prod) new_writer)
unfolding apply_calls set_header header lookup assign
csp_calls-IsHardened true = (refl, refl, refl, refl)
csp_calls-IsHardened false = (refl, refl, refl, refl)

-- Every response carries the headers that harden a page, in every environment and whatever the handler
-- writes, if it writes at all, panics or not: the handler itself sets none of them.
pub csp_reaches_client :
    {S : Type 0} (is_prod : Bool) (next : Handler S) (r : HttpRequest) (s : S)
    → All LeavesCsp (next r s).calls
    → IsHardened (apply_calls (csp is_prod next r s).calls new_writer)
unfolding csp
csp_reaches_client is_prod next r s quiet =
    let calls = (next r s).calls in
    let first = apply_calls (csp_calls is_prod) new_writer in
    let (a, b, c, d) = csp_calls-IsHardened is_prod in
    rw (apply_calls-append (csp_calls is_prod) calls new_writer) (
      header-apply_calls (codes "Content-Security-Policy") calls first
            (All-mono (λ call h. h.0) calls quiet)
          ∙ a,
      header-apply_calls (codes "X-Frame-Options") calls first
            (All-mono (λ call h. h.1.0) calls quiet)
          ∙ b,
      header-apply_calls (codes "X-Content-Type-Options") calls first
            (All-mono (λ call h. h.1.1.0) calls quiet)
          ∙ c,
      header-apply_calls (codes "Referrer-Policy") calls first
            (All-mono (λ call h. h.1.1.1) calls quiet)
          ∙ d,
    )

late_500 :
    (hs : Headers) (sent : Option (ℕ × Headers)) (body : Text)
    → let w : Writer = record { headers = hs; sent = sent; body = body } in
      let v = apply_calls (writes_header 500 ∷ []) w in
      (sent ≡ none → status v ≡ 500) × ((sent ≡ none → ⊥) → v ≡ w)
unfolding apply_calls write_header status
late_500 hs none body = (λ e. refl, λ f. absurd (f refl))
late_500 hs (some s) body = (λ e. absurd (ground (arith, e)), λ f. refl)

-- what Recover makes of a turn
abbrev pub Settled : {S : Type 0} → Turn S → Turn S → Type 0
Settled t u =
    let w = apply_calls t.calls new_writer in
    let v = apply_calls u.calls new_writer in
    (u.exit ≡ returned)
    × (t.exit ≡ returned → v ≡ w)
    × (t.exit ≡ panicked → w.sent ≡ none → status v ≡ 500)
    × (t.exit ≡ panicked → (w.sent ≡ none → ⊥) → v ≡ w)

settle-Settled :
    {S : Type 0} (calls : List Call) (exit : Exit) (s : S)
    → let t : Turn S = record { calls = calls; exit = exit; state = s } in Settled t (settle t)
unfolding settle
settle-Settled calls returned s =
    (refl, λ e. refl, λ e. absurd (ground (arith, e)), λ e. absurd (ground (arith, e)))
settle-Settled calls panicked s =
    let w = apply_calls calls new_writer in
    let late = late_500 w.headers w.sent w.body in
    let end = apply_calls-append calls (writes_header 500 ∷ []) new_writer in
    (refl, λ e. absurd (ground (arith, e)), λ e h. ap status end ∙ late.0 h, λ e h. end ∙ late.1 h)

pub settle-state :
    {S : Type 0} (calls : List Call) (exit : Exit) (s : S)
    → (settle (record { calls = calls; exit = exit; state = s })).state ≡ s
unfolding settle
settle-state calls returned s = refl
settle-state calls panicked s = refl

-- No panic goes beyond Recover, and the state is as the handler left it. A handler that returns is
-- not disturbed. The client of one that panics gets 500 if no status was sent before, and what was
-- sent if one was.
pub recover_answers :
    {S : Type 0} (next : Handler S) (r : HttpRequest) (s : S)
    → Settled (next r s) (recover next r s) × ((recover next r s).state ≡ (next r s).state)
unfolding recover
recover_answers next r s =
    let t = next r s in (settle-Settled t.calls t.exit t.state, settle-state t.calls t.exit t.state)
