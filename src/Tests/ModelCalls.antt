-- ===== src/Tests/ModelCalls.antt =====
-- Runs of the router, with a gateway that fails once for a moment and then answers.
use vectural.Prelude.{
  ℕ, ◌+◌, ◌≡◌, ◌≤◌, refl, true, false, Option, none, some, [], ◌∷◌, ltb, if◌then◌else◌,
}
use vectural.Prelude.Dict
use vectural.Domain.{file_summary}
use vectural.Llm.Base.{haiku, GatewayRequest, GatewayResult}
use vectural.Llm.Failures.{Result, ok, raised, transient, should_retry}
use vectural.Llm.Catalog.{
  SelectableModel, initial, find, model_for, max_tokens_for, task_uses_json, task_temperature,
  reasoning_output_floor,
}
use vectural.Llm.Router.{
  Payload, object, Router, client_for, build_request, requested_tokens, clamped_tokens,
  call_with_retry, call_loop, route,
}
use vectural.Llm.Router.Retry.{calls_left, call_with_retry_calls, call_with_retry_exhausts}
use vectural.Llm.Router.Accounting.{answered_tokens, accounting, build_request_clamped, route-spent}
use vectural.Quota.Ledger.{QuotaAccountant, spent_total}
use vectural.Tests.Tenths.{tenths}
use vectural.Tests.QuotaRuns.{accountant}

abbrev pub World : Type 0
World = QuotaAccountant tenths × ℕ

abbrev pub answer : GatewayResult
answer = record { text = "{}"; input_tokens = 10; output_tokens = 5; model = "claude-haiku-4-5" }

abbrev pub gateway : GatewayRequest → World → Result GatewayResult × World
gateway q w = (if ltb w.1 1 then raised transient else ok answer, (w.0, w.1 + 1))

abbrev pub router : Router tenths World ℕ
router = record {
  gateway = gateway;
  clients = [];
  sinks = accounting tenths ℕ ℕ ∷ [];
  retry = record {
    max_attempts = 3;
    base_delay_seconds = 10;
    multiplier = 20;
    max_delay_seconds = 300;
  };
  clock = λ w. w.1;
  sleep = λ delay w. w;
  loads = λ text. object 0;
}

abbrev pub fresh : World
fresh = (accountant, 0)

abbrev payload : Payload
payload = record {
  prompt = some "Summarise";
  system = none;
  max_tokens = none;
  model_override_id = none;
}

abbrev request : GatewayRequest
request = record {
  model = haiku;
  prompt = "Summarise";
  system = none;
  json_mode = true;
  temperature = 0;
  max_tokens = 1024;
  task_type = file_summary;
  prompt_version = "file-v1";
  model_override = none;
  override_uses_max_completion_tokens = false;
  override_supports_temperature = true;
  override_reasoning_effort = none;
}

built : build_request file_summary "file-v1" payload (find none initial) ≡ ok request
unfolding build_request find requested_tokens clamped_tokens model_for max_tokens_for task_uses_json
    task_temperature
built = refl

keeps :
    (entry : Option SelectableModel) (q : GatewayRequest) (v : World)
    → (client_for tenths World ℕ router entry q v).1.0 ≡ v.0
unfolding client_for Dict.get
keeps none q v = refl
keeps (some e) q v = refl

route-spent_example :
    spent_total tenths
      (route tenths World ℕ router initial file_summary "file-v1" payload none fresh).1.0.pool
    ≡ spent_total tenths accountant.pool
      + answered_tokens tenths ℕ ℕ
          (call_with_retry tenths World ℕ router
            (client_for tenths World ℕ router (find none initial))
            request
            fresh).0
route-spent_example =
    route-spent tenths ℕ ℕ router initial file_summary "file-v1" payload none fresh request refl
      keeps (λ delay v. refl) built

call_with_retry_calls_example :
    (0 + 1 ≤ (call_with_retry tenths World ℕ router gateway request fresh).1.1)
    × ((call_with_retry tenths World ℕ router gateway request fresh).1.1 ≤ 0 + calls_left 3 0)
call_with_retry_calls_example =
    call_with_retry_calls tenths World ℕ router gateway (λ w. w.1) (λ q w. refl) (λ delay w. refl)
      request fresh

abbrev down : GatewayRequest → World → Result GatewayResult × World
down q w = (raised transient, (w.0, w.1 + 1))

gave_up : (call_with_retry tenths World ℕ router down request fresh).0 ≡ raised transient
unfolding call_with_retry call_loop should_retry
gave_up = refl

call_with_retry_exhausts_example :
    (call_with_retry tenths World ℕ router down request fresh).1.1 ≡ 0 + calls_left 3 0
call_with_retry_exhausts_example =
    call_with_retry_exhausts tenths World ℕ router down (λ w. w.1) (λ q w. refl) (λ delay w. refl)
      request fresh gave_up

abbrev gpt_5 : SelectableModel
gpt_5 = record {
  id = "gpt-5";
  label = "GPT-5";
  provider = "openai";
  concrete = "gpt-5";
  max_output = 128000;
  uses_max_completion_tokens = true;
  supports_temperature = false;
  reasoning_effort = some "low";
}

abbrev gpt_5_request : GatewayRequest
gpt_5_request = record request {
  max_tokens = 32000;
  model_override = some "gpt-5";
  override_uses_max_completion_tokens = true;
  override_supports_temperature = false;
  override_reasoning_effort = some "low";
}

built_gpt_5 : build_request file_summary "file-v1" payload (some gpt_5) ≡ ok gpt_5_request
unfolding build_request requested_tokens clamped_tokens model_for max_tokens_for task_uses_json
    task_temperature
built_gpt_5 = refl

build_request_clamped_example :
    (32000 ≤ 128000)
    × ((if true
          then (if ltb 128000 reasoning_output_floor then 128000 else reasoning_output_floor)
          else 0)
        ≤ 32000)
build_request_clamped_example =
    build_request_clamped file_summary "file-v1" payload gpt_5 gpt_5_request built_gpt_5
