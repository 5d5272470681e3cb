-- ===== src/Domain.antt =====
-- backend/domain/models.py: the enumerations that the other modules share.
pub mod Graph
use mathlib.Core.HLevel.{Discrete}
use vectural.Prelude.{String, Key, discrete_key}

pub data TaskType : Type 0 where
  file_summary module_summary service_summary flow_narrative : TaskType
  entity_linking cypher_generation synthesis groundedness : TaskType

pub data Persona : Type 0 where
  engineer product_owner business_owner architect : Persona

pub data Depth : Type 0 where
  brief standard deep : Depth

pub data Complexity : Type 0 where
  simple moderate complex : Complexity

unfoldable pub Persona-discrete : Discrete Persona
Persona-discrete = hlevel

unfoldable pub Depth-discrete : Discrete Depth
Depth-discrete = hlevel

instance unfoldable pub persona_key : Key Persona
unfolding Persona-discrete
persona_key = discrete_key Persona-discrete

instance unfoldable pub depth_key : Key Depth
unfolding Depth-discrete
depth_key = discrete_key Depth-discrete

-- The values of the string enumerations.
unfoldable pub task_value : TaskType → String
task_value file_summary = "file_summary"
task_value module_summary = "module_summary"
task_value service_summary = "service_summary"
task_value flow_narrative = "flow_narrative"
task_value entity_linking = "entity_linking"
task_value cypher_generation = "cypher_generation"
task_value synthesis = "synthesis"
task_value groundedness = "groundedness"

unfoldable pub persona_value : Persona → String
persona_value engineer = "engineer"
persona_value product_owner = "po"
persona_value business_owner = "bo"
persona_value architect = "architect"

unfoldable pub depth_value : Depth → String
depth_value brief = "brief"
depth_value standard = "standard"
depth_value deep = "deep"

unfoldable pub complexity_value : Complexity → String
complexity_value simple = "simple"
complexity_value moderate = "moderate"
complexity_value complex = "complex"
