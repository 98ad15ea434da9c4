-- ===== src/Middleware/StatusLaws.antt =====
-- middleware/observability.go: the wrapped writer does what the writer does, and knows its status.
use blogengine.Prelude.{
  ℕ, ◌&&◌, leb, All, ◌≡◌, refl, sym, ap, ◌∙◌, inl, inr, true, false, List, [], ◌∷◌, ◌++◌, Option,
  none, some, Option-cases,
}
use blogengine.Prelude.Text.{Text}
use blogengine.Http.{Headers, Writer, set_header, write_header, write, status, is_informational}
use blogengine.Middleware.Handler.{Call, sets, writes_header, writes, apply_calls}
use blogengine.Middleware.Observability.{
  ResponseWriter, wrapped, forward_header, forward_write, forward_call, forward,
}

pub apply_calls-append :
    (a b : List Call) (w : Writer) → apply_calls (a ++ b) w ≡ apply_calls b (apply_calls a w)
unfolding apply_calls
apply_calls-append [] b w = refl
apply_calls-append (sets n v ∷ a) b w = apply_calls-append a b (set_header n v w)
apply_calls-append (writes_header c ∷ a) b w = apply_calls-append a b (write_header c w)
apply_calls-append (writes s ∷ a) b w = apply_calls-append a b (write s w)

-- a status that the call writes is a final one, which net/http takes
abbrev pub IsFinal : Call → Type 0
IsFinal (writes_header code) =
    (is_informational code ≡ false) × ((leb 100 code && leb code 999) ≡ true)
IsFinal _ = Unit

-- the fields that go with what was sent
abbrev fields_of : Option (ℕ × Headers) → ResponseWriter
fields_of none = wrapped
fields_of (some s) = record { status_code = s.0; written = true }

forward_call_lem :
    (call : Call) (h : Headers) (s : Option (ℕ × Headers)) (b : Text)
    → IsFinal call
    → let w : Writer = record { headers = h; sent = s; body = b } in
      let f = forward_call call (fields_of s) in
      (apply_calls f.0 w ≡ apply_calls (call ∷ []) w)
      × (f.1 ≡ fields_of (apply_calls (call ∷ []) w).sent)
unfolding forward_call forward_header forward_write apply_calls set_header write_header write
forward_call_lem (sets n v) h s b final = (refl, refl)
forward_call_lem (writes_header c) h none b (final, _) = rw final (refl, refl)
forward_call_lem (writes_header c) h (some s) b final = (refl, refl)
forward_call_lem (writes t) h none b final = (refl, refl)
forward_call_lem (writes t) h (some s) b final = (refl, refl)

forward_lem :
    (calls : List Call) (w : Writer)
    → All IsFinal calls
    → let f = forward calls (fields_of w.sent) in
      (apply_calls f.0 w ≡ apply_calls calls w) × (f.1 ≡ fields_of (apply_calls calls w).sent)
unfolding forward apply_calls
forward_lem [] w final = (refl, refl)
forward_lem (call ∷ calls) w (final, finals) =
    let (same, fields) = forward_call_lem call w.headers w.sent w.body final in
    let next = apply_calls (call ∷ []) w in
    let (same_rest, fields_rest) = forward_lem calls next finals in
    let split = sym (apply_calls-append (call ∷ []) calls w) in
    let out = (forward_call call (fields_of w.sent)).0 in
    rw fields (
      apply_calls-append out (forward calls (fields_of next.sent)).0 w
          ∙ ap (apply_calls (forward calls (fields_of next.sent)).0) same
          ∙ same_rest
          ∙ split,
      fields_rest ∙ ap (λ (v : Writer). fields_of v.sent) split,
    )

status_of_fields : (w : Writer) → (fields_of w.sent).status_code ≡ status w
unfolding status
status_of_fields w = elim (Option-cases w.sent) [ inl e ↦ rw e refl | inr (s, e) ↦ rw e refl ]

-- The wrapped writer of Observability is invisible, and its status is the one that is sent: whatever
-- calls a handler makes, in any order and also after the status is out, the writer below ends as if
-- they had been made of it directly, and the status code that goes to the metrics and the logs is the
-- one that the client gets, 200 if none was written. (Each status that the handler writes is a final
-- one: at least 200, or 101, and at most 999.)
pub recorded_status_is_sent :
    (calls : List Call) (hs : Headers)
    → All IsFinal calls
    → let w : Writer = record { headers = hs; sent = none; body = [] } in
      let f = forward calls wrapped in
      (apply_calls f.0 w ≡ apply_calls calls w) × (f.1.status_code ≡ status (apply_calls calls w))
recorded_status_is_sent calls hs finals =
    let w : Writer = record { headers = hs; sent = none; body = [] } in
    let (same, fields) = forward_lem calls w finals in
    (
      same,
      ap (λ (f : ResponseWriter). f.status_code) fields ∙ status_of_fields (apply_calls calls w),
    )
