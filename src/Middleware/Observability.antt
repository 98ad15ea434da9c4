-- ===== src/Middleware/Observability.antt =====
-- middleware/observability.go: the writer that remembers the status, and the metrics of requests.
-- Spans, logs, durations and the attributes of the counters but the status are left out; the trace id
-- is a parameter.
use blogengine.Prelude.{ℕ, suc, ◌-◌, Bool, true, false, List, [], ◌∷◌, ◌++◌, if◌then◌else◌}
use blogengine.Prelude.Text.{Text, codes}
use blogengine.Middleware.Handler.{
  Call, sets, writes_header, writes, returned, panicked, Middleware,
}

pub record ResponseWriter : Type 0 where
  pub status_code : ℕ
  pub written : Bool

-- the fields that Observability gives it
abbrev pub wrapped : ResponseWriter
wrapped = record { status_code = 200; written = false }

-- responseWriter.WriteHeader: the calls of the writer below, and the fields after
unfoldable pub forward_header : ℕ → ResponseWriter → List Call × ResponseWriter
forward_header code w =
    if w.written
    then ([], w)
    else (writes_header code ∷ [], record { status_code = code; written = true })

-- responseWriter.Write
unfoldable pub forward_write : Text → ResponseWriter → List Call × ResponseWriter
unfolding forward_header
forward_write bytes w =
    if w.written
    then (writes bytes ∷ [], w)
    else let h = forward_header 200 w in (h.0 ++ writes bytes ∷ [], h.1)

-- one call; Header is that of the writer below
unfoldable pub forward_call : Call → ResponseWriter → List Call × ResponseWriter
unfolding forward_header forward_write
forward_call (sets name value) w = (sets name value ∷ [], w)
forward_call (writes_header code) w = forward_header code w
forward_call (writes bytes) w = forward_write bytes w

unfoldable pub forward : List Call → ResponseWriter → List Call × ResponseWriter
unfolding forward_call
forward [] w = ([], w)
forward (call ∷ calls) w =
    let first = forward_call call w in
    let rest = forward calls first.1 in (first.0 ++ rest.0, rest.1)

-- HTTPActiveRequests, and HTTPRequestsTotal as the list of the statuses that were counted
pub record HttpMetrics : Type 0 where
  pub active : ℕ
  pub totals : List ℕ

-- the metrics of the state
pub record Meter (S : Type 0) : Type 0 where
  pub get : S → HttpMetrics
  pub put : HttpMetrics → S → S

module _ {S : Type 0} (m : Meter S) where
  abbrev pub enter : S → S
  enter s = m.put (record { active = suc (m.get s).active; totals = (m.get s).totals }) s

  abbrev pub leave : S → S
  leave s = m.put (record { active = (m.get s).active - 1; totals = (m.get s).totals }) s

  abbrev pub count : ℕ → S → S
  count code s = m.put (record { active = (m.get s).active; totals = code ∷ (m.get s).totals }) s

  -- Observability: only the decrement of the active requests is deferred
  unfoldable pub observability : (trace_id : Text) → Middleware S
  unfolding forward
  observability trace_id next r s =
      let t = next r (enter s) in
      let f = forward t.calls wrapped in
      record {
        calls = sets (codes "X-Trace-Id") trace_id ∷ f.0;
        exit = t.exit;
        state = elim t.exit [
          | returned ↦ leave (count f.1.status_code t.state)
          | panicked ↦ leave t.state
        ];
      }
