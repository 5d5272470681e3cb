-- ===== src/Answer/Plan.antt =====
-- backend/answer/plan.py: the planner, its calls of the router and the scope that it reads off the
-- graph. `lower` is `str.lower`, and `Planning` holds what the planner uses of other modules: the
-- validator of backend/graph/cypher_validator.py, with the reason of a refusal, the template query,
-- and how the model's JSON is read.
pub mod Validated
pub mod Scope
use Prim.Native.String.{◌++◌ as ◌+++◌}
use vectural.Prelude.{
  ℕ, Bool, true, false, String, Option, none, some, List, [], ◌∷◌, ◌++◌, keep, contains, string_key,
  ◌==◌, if◌then◌else◌, ◌||◌,
}
use vectural.Prelude.Float.{Floats}
use vectural.Prelude.Dict
use vectural.Prelude.Dict.{Dict}
use vectural.Prelude.Sort
use vectural.Prelude.Text.{str_le, join}
use vectural.Domain.{TaskType, Persona, entity_linking, cypher_generation}
use vectural.Llm.Base.{UsageRecord}
use vectural.Llm.Failures.{Result, ok, raised, fatal}
use vectural.Llm.Catalog.{Catalog}
use vectural.Llm.Router.{Router, Payload, RoutedResponse, route}
use vectural.Graph.Store.{GraphStore}
use vectural.Graph.Queries.{service_dependencies}
use vectural.Citations.{has_part}

pub record RetrievalPlan : Type 0 where
  pub anchors : List String
  -- none: the whole estate
  pub scope : Option (List String)
  pub cypher : Option String
  pub used_fallback : Bool
  pub cypher_attempts : ℕ
  pub usage : List UsageRecord

pub record Planning (J : Type 0) : Type 0 where
  pub lower : String → String
  -- none where the query is valid
  pub refused : String → Option String
  pub fallback : ℕ → String
  -- the strings of `parsed.get("anchors", [])`; none where it cannot be iterated
  pub anchors_in : J → Option (List String)
  -- `parsed.get("cypher")`, where it is a string
  pub cypher_in : J → Option String
  -- a list of strings, as `f"{anchors}"` prints it
  pub show_list : List String → String

concat : List (List String) → List String
concat [] = []
concat (x ∷ xs) = x ++ concat xs

-- the services that step 4 adds for one anchor
by_hops : Option (Dict ℕ (List String)) → List String
unfolding concat
by_hops none = []
by_hops (some d) = concat (Dict.values d)

reached : GraphStore → ℕ → List String → List String
unfolding by_hops
reached s hops [] = []
reached s hops (anchor ∷ anchors) =
    by_hops (service_dependencies s anchor hops) ++ reached s hops anchors

-- a set, as a list that holds each of its members once
distinct : List String → List String
distinct [] = []
distinct (s ∷ ss) = let rest = distinct ss in if contains s ss then rest else s ∷ rest

-- `_scope`
unfoldable pub scope_of : GraphStore → ℕ → List String → Option (List String)
unfolding reached distinct
scope_of s hops [] = none
scope_of s hops (a ∷ as_) = some (distinct ((a ∷ as_) ++ reached s hops (a ∷ as_)))

module _ (F : Floats) (W J : Type 0) (P : Planning J) where
  -- `sorted(merged)`
  unfoldable pub merged_anchors : List String → String → List String → List String
  unfolding distinct
  merged_anchors services question named =
      let q_low = P.lower question in
      Sort.sorted str_le (
        distinct (
          keep (λ svc. has_part (P.lower svc) q_low) services
          ++ keep (λ a. contains a services) named))

  named_by : Option J → Option (List String)
  named_by none = some []
  named_by (some j) = P.anchors_in j

  with_names :
      List String → String → UsageRecord → Option (List String) → Result (List String × UsageRecord)
  with_names services question usage none = raised fatal
  with_names services question usage (some named) =
      ok (merged_anchors services question named, usage)

  -- An exception, or the anchors with the usage of the call.
  link_response :
      List String → String → Result (RoutedResponse J) → Result (List String × UsageRecord)
  unfolding named_by with_names
  link_response services question (raised f) = raised f
  link_response services question (ok response) =
      with_names services question response.usage (named_by response.parsed)

  unfoldable pub link_call :
      Router F W J
      → Catalog
      → String
      → Option Persona
      → Option String
      → W
      → Result (RoutedResponse J) × W
  link_call r catalog question persona model w =
      let payload : Payload = record {
        prompt = some ("Name the services this question is about: " +++ question);
        system = none;
        max_tokens = none;
        model_override_id = model;
      } in
      route F W J r catalog entity_linking "entity-v1" payload persona w

  unfoldable pub entity_link :
      Router F W J
      → Catalog
      → List String
      → String
      → Option Persona
      → Option String
      → W
      → Result (List String × UsageRecord) × W
  unfolding link_response link_call
  entity_link r catalog services question persona model w =
      let (response, w') = link_call r catalog question persona model w in
      (link_response services question response, w')

  retry_note : Option String → String
  retry_note none = ""
  retry_note (some reason) =
      if reason == ""
      then ""
      else join "" ("\nPrevious attempt was rejected: " ∷ reason ∷ ". Fix it." ∷ [])

  cypher_from : Option J → Option String
  cypher_from none = none
  cypher_from (some j) = P.cypher_in j

  cypher_response : Result (RoutedResponse J) → Result (Option String × UsageRecord)
  unfolding cypher_from
  cypher_response (raised f) = raised f
  cypher_response (ok response) = ok (cypher_from response.parsed, response.usage)

  unfoldable pub generate_cypher :
      Router F W J
      → Catalog
      → String
      → List String
      → Option Persona
      → Option String
      → Option String
      → W
      → Result (Option String × UsageRecord) × W
  unfolding retry_note cypher_response
  generate_cypher r catalog question anchors persona reason model w =
      let payload : Payload = record {
        prompt = some (
            join "" (
              "Generate a read-only Cypher query over labels "
              ∷ "Service, Module, File, Function, Endpoint, Topic, Capability, Flow, ADR. "
              ∷ "Question: "
              ∷ question
              ∷ ". Anchors: "
              ∷ P.show_list anchors
              ∷ "."
              ∷ retry_note reason
              ∷ []));
        system = none;
        max_tokens = none;
        model_override_id = model;
      } in
      let (response, w') = route F W J r catalog cypher_generation "cypher-v1" payload persona w in
      (cypher_response response, w')

  -- `validate_cypher(candidate) if candidate else None`, as the reason of a refusal
  unfoldable pub refusal_of : Option String → Option String
  refusal_of none = some "no cypher produced"
  refusal_of (some q) = if q == "" then some "no cypher produced" else P.refused q

  pub record CypherPlan : Type 0 where
    pub cypher : Option String
    pub used_fallback : Bool
    pub attempts : ℕ
    pub usage : List UsageRecord

  -- with the reason for which the second candidate is refused, if it is
  second_settled : ℕ → List UsageRecord → Option String → Option String → CypherPlan
  second_settled hops usage candidate none = record {
    cypher = candidate;
    used_fallback = false;
    attempts = 2;
    usage = usage;
  }
  second_settled hops usage candidate (some reason) = record {
    cypher = some (P.fallback hops);
    used_fallback = true;
    attempts = 2;
    usage = usage;
  }

  second_try : ℕ → UsageRecord → Result (Option String × UsageRecord) × W → Result CypherPlan × W
  unfolding refusal_of second_settled
  second_try hops before (raised f, w) = (raised f, w)
  second_try hops before (ok (candidate, usage), w) =
      (ok (second_settled hops (before ∷ usage ∷ []) candidate (refusal_of candidate)), w)

  first_settled :
      ℕ
      → (String → W → Result (Option String × UsageRecord) × W)
      → UsageRecord
      → Option String
      → Option String
      → W
      → Result CypherPlan × W
  unfolding second_try
  first_settled hops again usage candidate none w = (
    ok (record { cypher = candidate; used_fallback = false; attempts = 1; usage = usage ∷ [] }),
    w,
  )
  first_settled hops again usage candidate (some reason) w = second_try hops usage (again reason w)

  first_try :
      ℕ
      → (String → W → Result (Option String × UsageRecord) × W)
      → Result (Option String × UsageRecord) × W
      → Result CypherPlan × W
  unfolding first_settled refusal_of
  first_try hops again (raised f, w) = (raised f, w)
  first_try hops again (ok (candidate, usage), w) =
      first_settled hops again usage candidate (refusal_of candidate) w

  unfoldable pub plan_cypher :
      Router F W J
      → Catalog
      → ℕ
      → String
      → List String
      → Option Persona
      → Option String
      → W
      → Result CypherPlan × W
  unfolding first_try generate_cypher
  plan_cypher r catalog hops question anchors persona model w =
      first_try hops
        (λ reason w'. generate_cypher r catalog question anchors persona (some reason) model w')
        (generate_cypher r catalog question anchors persona none model w)

  planned :
      GraphStore → ℕ → List String → UsageRecord → Result CypherPlan × W → Result RetrievalPlan × W
  planned s hops anchors usage (raised f, w) = (raised f, w)
  planned s hops anchors usage (ok c, w) = (
    ok (record {
      anchors = anchors;
      scope = scope_of s hops anchors;
      cypher = c.cypher;
      used_fallback = c.used_fallback;
      cypher_attempts = c.attempts;
      usage = usage ∷ c.usage;
    }),
    w,
  )

  linked_plan :
      GraphStore
      → ℕ
      → (List String → W → Result CypherPlan × W)
      → Result (List String × UsageRecord) × W
      → Result RetrievalPlan × W
  unfolding planned
  linked_plan s hops cypher (raised f, w) = (raised f, w)
  linked_plan s hops cypher (ok (anchors, usage), w) =
      planned s hops anchors usage (cypher anchors w)

  -- `RetrievalPlanner.plan`
  unfoldable pub plan :
      Router F W J
      → Catalog
      → GraphStore
      → List String
      → ℕ
      → String
      → Option Persona
      → Option String
      → W
      → Result RetrievalPlan × W
  unfolding linked_plan entity_link plan_cypher
  plan r catalog s services hops question persona model w =
      linked_plan s hops
        (λ anchors w'. plan_cypher r catalog hops question anchors persona model w')
        (entity_link r catalog services question persona model w)
