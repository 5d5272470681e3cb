-- ===== src/Answer/Analytics.antt =====
-- The analytics of a question in backend/answer/service.py. `prices` is the price list of
-- backend/llm/catalog.py, in dollars for a million tokens in and out, and `round_to` is Python's
-- `round`.
use vectural.Prelude.{
  ℕ, ◌+◌, ◌≡◌, refl, Bool, true, false, String, Option, none, some, List, [], ◌∷◌, map, length,
  sum_of, string_key, ◌==◌, if◌then◌else◌, arith,
}
use vectural.Prelude.Float.{Floats}
use vectural.Prelude.Dict
use vectural.Prelude.Dict.{Dict}
use vectural.Domain.{
  Persona, Depth, Complexity, task_value, persona_value, depth_value, complexity_value,
}
use vectural.Llm.Base.{UsageRecord, model_value, total_tokens}
use vectural.Llm.Catalog.{Catalog}
use vectural.Answer.Models.{LlmCall, QueryAnalytics}

-- `u.model_id or u.model.value`
model_name : UsageRecord → String
model_name u = if u.model_id == "" then model_value u.model else u.model_id

call_of : UsageRecord → LlmCall
unfolding model_name
call_of u = record {
  task = task_value u.task_type;
  model = model_name u;
  input_tokens = u.input_tokens;
  output_tokens = u.output_tokens;
}

-- one round of the loop that fills `by_task`
add_task : UsageRecord → Dict String ℕ → Dict String ℕ
add_task u d =
    Dict.set (task_value u.task_type) (Dict.get_or (task_value u.task_type) 0 d + total_tokens u) d

by_task : List UsageRecord → Dict String ℕ → Dict String ℕ
unfolding add_task
by_task [] d = d
by_task (u ∷ us) d = by_task us (add_task u d)

-- `next((c.model for c in calls if c.task == "synthesis"), model)`
synthesis_model : List LlmCall → Option String → Option String
synthesis_model [] model = model
synthesis_model (c ∷ cs) model =
    let rest = synthesis_model cs model in if c.task == "synthesis" then some c.model else rest

abbrev complexity_text : Option Complexity → Option String
complexity_text none = none
complexity_text (some c) = some (complexity_value c)

module _ (F : Floats) where
  abbrev pub Prices : Type 0
  Prices = Dict String (F.Float × F.Float)

  or_free : Option (F.Float × F.Float) → Bool → Option (F.Float × F.Float)
  or_free (some p) local = some p
  or_free none true = some (F.of_ℕ 0, F.of_ℕ 0)
  or_free none false = none

  -- a local model costs nothing
  unfoldable pub price_of : Prices → Catalog → String → Option (F.Float × F.Float)
  unfolding or_free
  price_of prices catalog id =
      or_free (Dict.get id prices)
        (elim (Dict.get id catalog.by_id) [ none ↦ false | some e ↦ e.provider == "ollama" ])

  cost_one : UsageRecord → F.Float × F.Float → F.Float
  cost_one u p =
      F.add (F.mul (F.div (F.of_ℕ u.input_tokens) (F.of_ℕ 1000000)) p.0)
        (F.mul (F.div (F.of_ℕ u.output_tokens) (F.of_ℕ 1000000)) p.1)

  cost_loop : Prices → Catalog → List UsageRecord → F.Float → Option F.Float
  unfolding price_of cost_one
  cost_loop prices catalog [] total = some total
  cost_loop prices catalog (u ∷ us) total = elim (price_of prices catalog u.model_id) [
    | none ↦ none
    | some p ↦ cost_loop prices catalog us (F.add total (cost_one u p))
  ]

  -- What surrounds the calls of a question.
  pub record Frame : Type 0 where
    pub latency_ms : F.Float
    pub model : Option String
    pub depth : Depth
    pub persona : Persona
    pub mode : String
    pub from_cache : Bool
    pub citations : ℕ
    pub evidence_chunks : ℕ
    pub complexity : Option Complexity

  unfoldable pub estimate_cost :
      (ℕ → F.Float → F.Float) → Prices → Catalog → List UsageRecord → Option F.Float
  unfolding cost_loop
  estimate_cost round_to prices catalog usage = elim (cost_loop prices catalog usage (F.of_ℕ 0)) [
    | none ↦ none
    | some total ↦ some (round_to 6 total)
  ]

  unfoldable pub build_analytics :
      (ℕ → F.Float → F.Float) → Prices → Catalog → List UsageRecord → Frame → QueryAnalytics F
  unfolding call_of by_task synthesis_model estimate_cost
  build_analytics round_to prices catalog usage f =
      let calls = map call_of usage in
      let inp = sum_of (λ u. u.input_tokens) usage in
      let out = sum_of (λ u. u.output_tokens) usage in
      record {
        input_tokens = inp;
        output_tokens = out;
        total_tokens = inp + out;
        llm_calls = length calls;
        calls = calls;
        tokens_by_task = by_task usage [];
        latency_ms = round_to 1 f.latency_ms;
        model = synthesis_model calls f.model;
        depth = depth_value f.depth;
        persona = persona_value f.persona;
        mode = f.mode;
        from_cache = f.from_cache;
        citations = f.citations;
        evidence_chunks = f.evidence_chunks;
        complexity = complexity_text f.complexity;
        cost_usd = estimate_cost round_to prices catalog usage;
      }

-- Writing a key's value anew adds the difference.
sum-set :
    (k : String) (n : ℕ) (d : Dict String ℕ)
    → sum_of (λ m. m) (Dict.values (Dict.set k (Dict.get_or k 0 d + n) d))
      ≡ sum_of (λ m. m) (Dict.values d) + n
unfolding Dict.set Dict.get
sum-set k n [] = omega arith
sum-set k n ((j, m) ∷ d) = ground (arith, sum-set k n d)

by_task-total :
    (us : List UsageRecord) (d : Dict String ℕ)
    → sum_of (λ m. m) (Dict.values (by_task us d))
      ≡ sum_of (λ m. m) (Dict.values d) + sum_of total_tokens us
unfolding by_task add_task
by_task-total [] d = omega arith
by_task-total (u ∷ us) d =
    omega
      (arith, by_task-total us (add_task u d), sum-set (task_value u.task_type) (total_tokens u) d)

totals :
    (us : List UsageRecord)
    → sum_of total_tokens us ≡ sum_of (λ u. u.input_tokens) us + sum_of (λ u. u.output_tokens) us
unfolding total_tokens
totals [] = omega arith
totals (u ∷ us) = omega (arith, totals us)

calls_total :
    (us : List UsageRecord)
    → sum_of (λ c. c.input_tokens + c.output_tokens) (map call_of us)
      ≡ sum_of (λ u. u.input_tokens) us + sum_of (λ u. u.output_tokens) us
unfolding call_of
calls_total [] = omega arith
calls_total (u ∷ us) = omega (arith, calls_total us)

calls_count : (us : List UsageRecord) → length (map call_of us) ≡ length us
calls_count [] = refl
calls_count (u ∷ us) = omega (arith, calls_count us)

-- The tokens of a question, split by task, add up to its tokens in and out, whatever calls it made,
-- and so do the tokens of its calls.
pub build_analytics_total :
    (F : Floats) (round_to : ℕ → F.Float → F.Float) (prices : Prices F) (catalog : Catalog)
    (usage : List UsageRecord) (f : Frame F)
    → let a = build_analytics F round_to prices catalog usage f in
      (sum_of (λ m. m) (Dict.values a.tokens_by_task) ≡ a.total_tokens)
      × (sum_of (λ c. c.input_tokens + c.output_tokens) a.calls ≡ a.total_tokens)
      × (a.llm_calls ≡ length usage)
unfolding build_analytics
build_analytics_total F round_to prices catalog usage f =
    (omega (arith, by_task-total usage [], totals usage), calls_total usage, calls_count usage)
