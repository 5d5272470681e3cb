-- ===== src/Llm/Router/Accounting.antt =====
-- What backend/llm/router.py accounts: every answer of the gateway, where the quota
-- accountant is the one sink, whatever becomes of its text.
use vectural.Prelude.{
  ℕ, zero, suc, ◌+◌, ◌≤◌, ◌≡◌, ap, ◌∙◌, refl, String, Option, some, [], ◌∷◌, arith, ltb,
  if◌then◌else◌,
}
use vectural.Prelude.Float.{Floats}
use vectural.Domain.{TaskType, Persona}
use vectural.Llm.Base.{GatewayRequest, GatewayResult, UsageRecord, total_tokens}
use vectural.Llm.Failures.{Result, ok, raised, delay_for}
use vectural.Llm.Catalog.{Catalog, SelectableModel, find, reasoning_output_floor}
use vectural.Llm.Router.{
  Router, Client, Payload, build_request, client_for, call_with_retry, call_loop, usage_of, settle,
  route,
}
use vectural.Quota.Ledger.{QuotaAccountant, record_usage, spent_total}
use vectural.Quota.Ledger.Spending.{record_usage_lem}

-- A request for a chosen model asks for no more than the model's ceiling, and a reasoning model is
-- given at least the reasoning floor where its ceiling allows it.
pub build_request_clamped :
    (task : TaskType) (version : String) (payload : Payload) (e : SelectableModel)
    (request : GatewayRequest)
    → build_request task version payload (some e) ≡ ok request
    → (request.max_tokens ≤ e.max_output)
      × ((if e.uses_max_completion_tokens
            then (if ltb e.max_output reasoning_output_floor
                then e.max_output
                else reasoning_output_floor)
            else 0)
          ≤ request.max_tokens)
unfolding build_request
build_request_clamped task version payload e request h = ground arith

module _ (F : Floats) (V J : Type 0) where
  abbrev World : Type 0
  World = QuotaAccountant F × V

  -- the tokens of an answer; a call that failed has none to record
  abbrev pub answered_tokens : Result GatewayResult → ℕ
  answered_tokens (ok result) = result.input_tokens + result.output_tokens
  answered_tokens (raised f) = 0

  abbrev pub accounting : UsageRecord → World → World
  accounting u w = (record_usage F u w.0, w.1)

  settle-spent :
      (r : Router F World J) (request : GatewayRequest) (persona : Option Persona)
      (answer : Result GatewayResult) (w : World)
      → r.sinks ≡ accounting ∷ []
      → spent_total F (settle F World J r request persona (answer, w)).1.0.pool
        ≡ spent_total F w.0.pool + answered_tokens answer
  unfolding settle total_tokens
  settle-spent r request persona (raised f) w e = omega arith
  settle-spent r request persona (ok result) w e =
      rw e (record_usage_lem F (usage_of F World J request result persona (r.clock w)) w.0).0

  module _ (r : Router F World J) (client : Client F World J)
      (kept : (request : GatewayRequest) (w : World) → (client request w).1.0 ≡ w.0)
      (asleep : (delay : F.Float) (w : World) → (r.sleep delay w).0 ≡ w.0) where
    call_loop_keeps :
        (request : GatewayRequest) (fuel attempt : ℕ) (w : World)
        → (call_loop F World J r client request fuel attempt w).1.0 ≡ w.0
    unfolding call_loop
    call_loop_keeps request zero attempt w = refl
    call_loop_keeps request (suc fuel) attempt w =
        let w' = (client request w).1 in
        let delay = delay_for F r.retry (attempt + 1 + 1) in
        ground (
          arith,
          kept request w,
          asleep delay w',
          call_loop_keeps request fuel (attempt + 1) (r.sleep delay w'),
        )

  -- With the quota accountant as the only sink, and clients and sleeping that leave it alone, a
  -- routed call whose request is valid adds to the pool exactly the tokens of the gateway's final
  -- answer, malformed answers included, and nothing for an attempt that failed before it or when the
  -- gateway fails.
  pub route-spent :
      (r : Router F World J) (catalog : Catalog) (task : TaskType) (version : String)
      (payload : Payload) (persona : Option Persona) (w : World) (request : GatewayRequest)
      → r.sinks ≡ accounting ∷ []
      → ((entry : Option SelectableModel) (q : GatewayRequest) (v : World)
          → (client_for F World J r entry q v).1.0 ≡ v.0)
      → ((delay : F.Float) (v : World) → (r.sleep delay v).0 ≡ v.0)
      → build_request task version payload (find payload.model_override_id catalog) ≡ ok request
      → spent_total F (route F World J r catalog task version payload persona w).1.0.pool
        ≡ spent_total F w.0.pool
          + answered_tokens
              (call_with_retry F World J r
                (client_for F World J r (find payload.model_override_id catalog))
                request
                w).0
  unfolding route call_with_retry
  route-spent r catalog task version payload persona w request sinks kept asleep built =
      let entry = find payload.model_override_id catalog in
      let client = client_for F World J r entry in
      let called = call_with_retry F World J r client request w in
      let same =
        call_loop_keeps r client (kept entry) asleep request (suc r.retry.max_attempts) 0 w in
      let spent = settle-spent r request persona called.0 called.1 sinks in
      rw (built, route) (spent ∙ ap (λ a. spent_total F a.pool + answered_tokens called.0) same)
