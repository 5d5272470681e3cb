-- ===== src/Llm/Router/Retry.antt =====
-- The retry loop of backend/llm/router.py: how often the gateway is called, and that the fuel of
-- the model is enough.
use vectural.Prelude.{ℕ, zero, suc, ◌+◌, ◌-◌, ◌≤◌, ◌<◌, ◌≡◌, ltb, if◌then◌else◌, arith}
use vectural.Prelude.Float.{Floats}
use vectural.Llm.Base.{GatewayRequest}
use vectural.Llm.Failures.{transient, raised, should_retry, delay_for}
use vectural.Llm.Router.{Router, Client, call_loop, call_with_retry}

-- The calls that are left once `attempt` of them have failed: one at least.
abbrev pub calls_left : ℕ → ℕ → ℕ
calls_left max_attempts attempt = if ltb attempt max_attempts then max_attempts - attempt else 1

module _ (F : Floats) (W J : Type 0) (r : Router F W J) (client : Client F W J) (calls : W → ℕ)
    (counted : (request : GatewayRequest) (w : W) → calls (client request w).1 ≡ calls w + 1)
    (asleep : (delay : F.Float) (w : W) → calls (r.sleep delay w) ≡ calls w) where
  call_loop_calls :
      (request : GatewayRequest) (fuel attempt : ℕ) (w : W)
      → 0 < fuel
      → r.retry.max_attempts ≤ attempt + fuel
      → (calls w + 1 ≤ calls (call_loop F W J r client request fuel attempt w).1)
        × (calls (call_loop F W J r client request fuel attempt w).1
            ≤ calls w + calls_left r.retry.max_attempts attempt)
        × ((call_loop F W J r client request fuel attempt w).0 ≡ raised transient
            → calls (call_loop F W J r client request fuel attempt w).1
              ≡ calls w + calls_left r.retry.max_attempts attempt)
  unfolding call_loop should_retry
  call_loop_calls request zero attempt w some_left enough = absurd (omega arith)
  call_loop_calls request (suc fuel) attempt w some_left enough =
      let w' = (client request w).1 in
      let delay = delay_for F r.retry (attempt + 1 + 1) in
      ground (
        arith,
        counted request w,
        asleep delay w',
        call_loop_calls request fuel (attempt + 1) (r.sleep delay w'),
      )

  -- However the client answers, where it counts its own calls and sleeping makes none, a routed
  -- request makes at least one call and at most `max_attempts` (one, if that is zero).
  pub call_with_retry_calls :
      (request : GatewayRequest) (w : W)
      → (calls w + 1 ≤ calls (call_with_retry F W J r client request w).1)
        × (calls (call_with_retry F W J r client request w).1
            ≤ calls w + calls_left r.retry.max_attempts 0)
  unfolding call_with_retry
  call_with_retry_calls request w =
      let bounds =
        call_loop_calls request (suc r.retry.max_attempts) 0 w (omega arith) (omega arith) in
      (bounds.0, bounds.1)

  -- A routed request ends in a transient failure only after `max_attempts` calls (one, if that is
  -- zero), where the client counts its own calls and sleeping makes none.
  pub call_with_retry_exhausts :
      (request : GatewayRequest) (w : W)
      → (call_with_retry F W J r client request w).0 ≡ raised transient
      → calls (call_with_retry F W J r client request w).1
        ≡ calls w + calls_left r.retry.max_attempts 0
  unfolding call_with_retry
  call_with_retry_exhausts request w h =
      (call_loop_calls request (suc r.retry.max_attempts) 0 w (omega arith) (omega arith)).2 h

module _ (F : Floats) (W J : Type 0) (r : Router F W J) (client : Client F W J) where
  -- More fuel than the policy's attempts changes nothing.
  pub call_loop_enough :
      (request : GatewayRequest) (fuel more attempt : ℕ) (w : W)
      → 0 < fuel
      → r.retry.max_attempts ≤ attempt + fuel
      → call_loop F W J r client request (fuel + more) attempt w
        ≡ call_loop F W J r client request fuel attempt w
  unfolding call_loop should_retry
  call_loop_enough request zero more attempt w some_left enough = absurd (omega arith)
  call_loop_enough request (suc fuel) more attempt w some_left enough =
      let next = r.sleep (delay_for F r.retry (attempt + 1 + 1)) (client request w).1 in
      let e : suc fuel + more ≡ suc (fuel + more) = omega arith in
      rw e (ground (arith, call_loop_enough request fuel more (attempt + 1) next))
