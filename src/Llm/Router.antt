-- ===== src/Llm/Router.antt =====
-- backend/llm/router.py: the router. `W` is everything that its collaborators change: a client, a
-- sink, the clock and `sleep` are functions on it. `J` is the type of JSON objects, and `loads` is
-- the decoder. The audit logger only writes a log, and is left out.
pub mod Retry
pub mod Accounting
use vectural.Prelude.{
  ℕ, zero, suc, ◌+◌, Bool, true, false, String, Option, none, some, List, [], ◌∷◌, ◌==◌, Key,
  string_key, leb, nat_beq, ltb, if◌then◌else◌,
}
use vectural.Prelude.Float.{Floats}
use vectural.Prelude.Dict
use vectural.Prelude.Dict.{Dict}
use vectural.Domain.{TaskType, Persona}
use vectural.Llm.Base.{ModelName, GatewayRequest, GatewayResult, UsageRecord}
use vectural.Llm.Failures.{
  Failure, transient, value_error, content, Result, ok, raised, RetryPolicy, should_retry,
  delay_for,
}
use vectural.Llm.Catalog.{
  Catalog, SelectableModel, find, model_for, max_tokens_for, task_uses_json, task_temperature,
  reasoning_output_floor,
}

-- The keys that `route` reads of its payload.
pub record Payload : Type 0 where
  pub prompt : Option String
  pub system : Option String
  pub max_tokens : Option ℕ
  pub model_override_id : Option String

pub data Decoded (J : Type 0) : Type 0 where
  invalid : Decoded J
  not_object : Decoded J
  object : J → Decoded J

pub record RoutedResponse (J : Type 0) : Type 0 where
  pub text : String
  pub parsed : Option J
  pub model : ModelName
  pub task_type : TaskType
  pub prompt_version : String
  pub persona : Option Persona
  pub usage : UsageRecord

-- `int(payload.get("max_tokens") or max_tokens_for(task_type))`
unfoldable pub requested_tokens : TaskType → Option ℕ → ℕ
requested_tokens task none = max_tokens_for task
requested_tokens task (some n) = if nat_beq n 0 then max_tokens_for task else n

-- the clamp to a chosen model
unfoldable pub clamped_tokens : Option SelectableModel → ℕ → ℕ
clamped_tokens none n = n
clamped_tokens (some e) n =
    let floored =
      if e.uses_max_completion_tokens
      then (if ltb n reasoning_output_floor then reasoning_output_floor else n)
      else n in
    if ltb e.max_output floored then e.max_output else floored

-- `_build_request`
unfoldable pub build_request :
    TaskType → String → Payload → Option SelectableModel → Result GatewayRequest
unfolding requested_tokens clamped_tokens
build_request task version payload entry = elim payload.prompt [
  | none ↦ raised value_error
  | some prompt ↦
      if prompt == ""
      then raised value_error
      else ok (record {
        model = model_for task;
        prompt = prompt;
        system = payload.system;
        json_mode = task_uses_json task;
        temperature = task_temperature task;
        max_tokens = clamped_tokens entry (requested_tokens task payload.max_tokens);
        task_type = task;
        prompt_version = version;
        model_override = elim entry [ none ↦ none | some e ↦ some e.concrete ];
        override_uses_max_completion_tokens = elim entry [
          | none ↦ false
          | some e ↦ e.uses_max_completion_tokens
        ];
        override_supports_temperature = elim entry [
          | none ↦ true
          | some e ↦ e.supports_temperature
        ];
        override_reasoning_effort = elim entry [ none ↦ none | some e ↦ e.reasoning_effort ];
      })
]

module _ (F : Floats) (W J : Type 0) where
  abbrev pub Client : Type 0
  Client = GatewayRequest → W → Result GatewayResult × W

  pub record Router : Type 0 where
    pub gateway : Client
    pub clients : Dict String Client
    pub sinks : List (UsageRecord → W → W)
    pub retry : RetryPolicy F
    pub clock : W → ℕ
    pub sleep : F.Float → W → W
    pub loads : String → Decoded J

  -- `_client_for`
  unfoldable pub client_for : Router → Option SelectableModel → Client
  client_for r none = r.gateway
  client_for r (some e) = Dict.get_or e.provider r.gateway r.clients

  -- `_call_with_retry`: `attempt` calls have been made, and `fuel` bounds the rest
  unfoldable pub call_loop : Router → Client → GatewayRequest → ℕ → ℕ → W → Result GatewayResult × W
  call_loop r client request zero attempt w = (raised transient, w)
  call_loop r client request (suc fuel) attempt w =
      let (answer, w') = client request w in
      let again =
        call_loop r client request fuel (attempt + 1)
          (r.sleep (delay_for F r.retry (attempt + 1 + 1)) w') in
      elim answer [
        | ok result ↦ (ok result, w')
        | raised f ↦ elim f [
          | transient ↦
              if should_retry F r.retry (attempt + 1) then again else (raised transient, w')
          | other ↦ (raised other, w')
        ]
      ]

  unfoldable pub call_with_retry : Router → Client → GatewayRequest → W → Result GatewayResult × W
  unfolding call_loop
  call_with_retry r client request w = call_loop r client request (suc r.retry.max_attempts) 0 w

  -- `_emit`
  unfoldable pub emit : List (UsageRecord → W → W) → UsageRecord → W → W
  emit [] u w = w
  emit (sink ∷ sinks) u w = emit sinks u (sink u w)

  -- `_parse_if_json`
  unfoldable pub parse_if_json : Router → Bool → String → Result (Option J)
  parse_if_json r json_mode text =
      if json_mode
      then elim (r.loads text) [
        | invalid ↦ raised (content "malformed_json")
        | not_object ↦ raised (content "malformed_json")
        | object parsed ↦ ok (some parsed)
      ]
      else ok none

  unfoldable pub usage_of : GatewayRequest → GatewayResult → Option Persona → ℕ → UsageRecord
  usage_of request result persona now = record {
    task_type = request.task_type;
    persona = persona;
    model = request.model;
    model_id = result.model;
    prompt_version = request.prompt_version;
    input_tokens = result.input_tokens;
    output_tokens = result.output_tokens;
    at = now;
  }

  unfoldable pub respond :
      GatewayRequest
      → GatewayResult
      → Option Persona
      → UsageRecord
      → Result (Option J)
      → Result (RoutedResponse J)
  respond request result persona usage (raised f) = raised f
  respond request result persona usage (ok parsed) = ok (record {
    text = result.text;
    parsed = parsed;
    model = request.model;
    task_type = request.task_type;
    prompt_version = request.prompt_version;
    persona = persona;
    usage = usage;
  })

  -- what `route` does with the gateway's answer
  unfoldable pub settle :
      Router
      → GatewayRequest
      → Option Persona
      → Result GatewayResult × W
      → Result (RoutedResponse J) × W
  unfolding emit parse_if_json usage_of respond
  settle r request persona (raised f, w) = (raised f, w)
  settle r request persona (ok result, w) =
      let usage = usage_of request result persona (r.clock w) in
      let w' = emit r.sinks usage w in
      (respond request result persona usage (parse_if_json r request.json_mode result.text), w')

  unfoldable pub route :
      Router
      → Catalog
      → TaskType
      → String
      → Payload
      → Option Persona
      → W
      → Result (RoutedResponse J) × W
  unfolding build_request client_for call_with_retry settle
  route r catalog task version payload persona w =
      let entry = find payload.model_override_id catalog in
      elim (build_request task version payload entry) [
        | raised f ↦ (raised f, w)
        | ok request ↦ settle r request persona (call_with_retry r (client_for r entry) request w)
      ]
