-- ===== src/Llm/Catalog.antt =====
-- backend/llm/catalog.py and backend/llm/config.py: which model answers a task, with what ceiling.
use vectural.Prelude.{
  ℕ, Bool, true, false, not, String, Option, none, some, List, [], ◌∷◌, ◌++◌, map, keep, contains,
  ◌==◌, string_key, if◌then◌else◌,
}
use vectural.Prelude.Dict
use vectural.Prelude.Dict.{Dict}
use vectural.Domain.{
  TaskType, file_summary, module_summary, service_summary, flow_narrative, entity_linking,
  cypher_generation, synthesis, groundedness,
}
use vectural.Llm.Base.{ModelName, haiku, sonnet}

abbrev pub reasoning_output_floor : ℕ
reasoning_output_floor = 32000

pub record SelectableModel : Type 0 where
  pub id : String
  pub label : String
  pub provider : String
  pub concrete : String
  pub max_output : ℕ
  pub uses_max_completion_tokens : Bool
  pub supports_temperature : Bool
  pub reasoning_effort : Option String

abbrev plain : String → String → String → ℕ → SelectableModel
plain id label provider max_output = record {
  id = id;
  label = label;
  provider = provider;
  concrete = id;
  max_output = max_output;
  uses_max_completion_tokens = false;
  supports_temperature = true;
  reasoning_effort = none;
}

abbrev reasoning : String → String → SelectableModel
reasoning id label = record {
  id = id;
  label = label;
  provider = "openai";
  concrete = id;
  max_output = 128000;
  uses_max_completion_tokens = true;
  supports_temperature = false;
  reasoning_effort = some "low";
}

abbrev pub selectable_models : List SelectableModel
selectable_models =
    plain "gpt-4o" "GPT-4o" "openai" 16384
    ∷ plain "gpt-4o-mini" "GPT-4o mini" "openai" 16384
    ∷ reasoning "gpt-5" "GPT-5"
    ∷ reasoning "gpt-5-mini" "GPT-5 mini"
    ∷ plain "claude-sonnet-5" "Claude Sonnet 5" "anthropic" 128000
    ∷ plain "claude-opus-4-8" "Claude Opus 4.8" "anthropic" 128000
    ∷ plain "claude-haiku-4-5" "Claude Haiku 4.5" "anthropic" 64000
    ∷ []

-- The module's two globals, `_DYNAMIC` and `_BY_ID`.
pub record Catalog : Type 0 where
  pub dynamic : List SelectableModel
  pub by_id : Dict String SelectableModel

abbrev pub initial : Catalog
initial = record { dynamic = []; by_id = map (λ m. (m.id, m)) selectable_models }

-- one round of the loop of `register_dynamic_models`
unfoldable pub register_one : SelectableModel → Catalog → Catalog
register_one m c = record {
  dynamic = keep (λ d. not (d.id == m.id)) c.dynamic ++ m ∷ [];
  by_id = Dict.set m.id m c.by_id;
}

unfoldable pub register_dynamic_models : List SelectableModel → Catalog → Catalog
unfolding register_one
register_dynamic_models [] c = c
register_dynamic_models (m ∷ ms) c = register_dynamic_models ms (register_one m c)

-- an absent or empty id finds nothing
unfoldable pub find : Option String → Catalog → Option SelectableModel
find none c = none
find (some id) c = if id == "" then none else Dict.get id c.by_id

unfoldable pub available_models : List String → Catalog → List SelectableModel
available_models providers c =
    keep (λ m. contains m.provider providers) (selectable_models ++ c.dynamic)

unfoldable pub model_for : TaskType → ModelName
model_for file_summary = haiku
model_for module_summary = haiku
model_for service_summary = sonnet
model_for flow_narrative = sonnet
model_for entity_linking = haiku
model_for cypher_generation = sonnet
model_for synthesis = sonnet
model_for groundedness = haiku

unfoldable pub max_tokens_for : TaskType → ℕ
max_tokens_for synthesis = 6500
max_tokens_for flow_narrative = 2000
max_tokens_for service_summary = 1500
max_tokens_for _ = 1024

unfoldable pub task_uses_json : TaskType → Bool
task_uses_json synthesis = false
task_uses_json _ = true

-- in tenths
unfoldable pub task_temperature : TaskType → ℕ
task_temperature synthesis = 3
task_temperature _ = 0
