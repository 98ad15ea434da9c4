-- ===== src/Middleware/Delay.antt =====
-- middleware/secure_delay.go: the least time that a form takes. The clock is a parameter on the
-- state; the metric of the time that was worked is left out.
use blogengine.Prelude.{ℕ, ◌+◌, ◌-◌, ◌≤◌, ◌≡◌, false, Bool, ltb, if◌then◌else◌}
use blogengine.Middleware.Handler.{Turn, Middleware, returned, panicked}

-- time.Now; the select on the timer and on the context of the request; whether that context is done
pub record Clock (S : Type 0) : Type 0 where
  pub now : S → ℕ
  pub wait : ℕ → S → S
  pub given_up : S → Bool

-- A timer does not fire early.
pub record IsClock {S : Type 0} (k : Clock S) : Type 0 where
  pub waits : (n : ℕ) (s : S) → k.given_up (k.wait n s) ≡ false → k.now s + n ≤ k.now (k.wait n s)

module _ {S : Type 0} (k : Clock S) where
  -- after the handler, which began at `start`
  unfoldable pub wait_for_rest : (target start : ℕ) → Turn S → Turn S
  wait_for_rest target start t =
      let elapsed = k.now t.state - start in
      if ltb elapsed target
      then (record { calls = t.calls; exit = t.exit; state = k.wait (target - elapsed) t.state })
      else t

  -- SecureDelay: the wait is not deferred, so a panic goes by it
  unfoldable pub secure_delay : (target : ℕ) → Middleware S
  unfolding wait_for_rest
  secure_delay target next r s =
      let t = next r s in elim t.exit [ panicked ↦ t | returned ↦ wait_for_rest target (k.now s) t ]
