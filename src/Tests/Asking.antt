-- ===== src/Tests/Asking.antt =====
-- A question on the answer path, with one retrieved chunk, a gateway that answers and an empty cache.
use vectural.Prelude.{
  ℕ, ◌+◌, ◌≡◌, refl, false, none, some, List, [], ◌∷◌, ◌++◌, sum_of, length, string_key,
}
use vectural.Prelude.Dict
use vectural.Domain.{engineer, brief}
use vectural.Llm.Base.{UsageRecord, haiku}
use vectural.Llm.Failures.{Result, ok, raised, should_retry}
use vectural.Llm.Catalog.{initial, find, task_uses_json}
use vectural.Llm.Router.{route}
use vectural.Domain.{entity_linking}
use vectural.Citations.{SearchHit, extract_markers}
use vectural.Prelude.Text.{strip, join}
use vectural.Graph.Store.{empty}
use vectural.Answer.Models.{Answer, instant, synthesized, synthesized_answer, budget_for}
use vectural.Answer.Cache.{Likeness, cache_get}
use vectural.Answer.Plan.{RetrievalPlan, Planning, plan}
use vectural.Answer.Plan.Validated.{IsPlan, plan_checked}
use vectural.Answer.Analytics.{Frame, build_analytics, build_analytics_total}
use vectural.Answer.Service.{Service}
use vectural.Answer.Service.Stages.{stream, ask_of, flow_hits}
use vectural.Answer.Service.Gates.{IsBacked, stream-IsBacked}
use vectural.Answer.Service.Caching.{cache_after, stream_cache, ask_again}
use vectural.Tests.Tenths.{tenths}
use vectural.Tests.ModelCalls.{World, router, fresh}

abbrev hits : List (SearchHit tenths)
hits =
    record {
      chunk_id = "payments:payments/pay.py:1-20:ef64c105";
      service = "payments";
      path = "payments/pay.py";
      score = 12;
    }
    ∷ []

abbrev planned : RetrievalPlan
planned = record {
  anchors = "payments" ∷ [];
  scope = some ("payments" ∷ []);
  cypher = none;
  used_fallback = false;
  cypher_attempts = 1;
  usage = [];
}

-- An embedding is the length of nothing: all questions are alike.
abbrev alike : Likeness tenths
alike = record { Vector = ℕ; embed = λ q. 0; cosine = λ u v. 10; threshold = 9 }

abbrev service : Service tenths World ℕ ℕ alike
service = record {
  plan = λ question persona model w. (ok planned, w);
  search = λ question scope top_n w. (ok hits, w);
  router = router;
  catalog = initial;
  flows = none;
  freshness = none;
  gather_context = λ anchors found. 0;
  empty_context = 0;
  render_context_block = λ c. "";
  context_note = λ c. "";
  suggest_followups = λ c citations question services. [];
  synthesis_prompt = λ question persona found block budget complexity. "Answer";
  grounded_prompt = λ text found block chars. "Judge";
  verdict_of = λ j. some [];
  words = λ question. question ∷ [];
  markers_of = λ text. "ef64c105" ∷ [];
  commit_sha = "c1";
  clock = λ w. w.1;
  round_to = λ n x. x;
  prices = [];
  metrics = none;
}

abbrev usage : List UsageRecord
usage =
    record {
      task_type = entity_linking;
      persona = none;
      model = haiku;
      model_id = "";
      prompt_version = "entity-v1";
      input_tokens = 10;
      output_tokens = 5;
      at = 1;
    }
    ∷ []

abbrev frame : Frame tenths
frame = record {
  latency_ms = 20;
  model = none;
  depth = brief;
  persona = engineer;
  mode = "refusal";
  from_cache = false;
  citations = 0;
  evidence_chunks = 0;
  complexity = none;
}

build_analytics_total_example :
    let a = build_analytics tenths (λ n x. x) [] initial usage frame in
    (sum_of (λ m. m) (Dict.values a.tokens_by_task) ≡ a.total_tokens)
    × (sum_of (λ c. c.input_tokens + c.output_tokens) a.calls ≡ a.total_tokens)
    × (a.llm_calls ≡ length usage)
build_analytics_total_example = build_analytics_total tenths (λ n x. x) [] initial usage frame

stream_cache_example :
    let o =
      stream tenths World ℕ ℕ alike service "How is it paid?" engineer brief none (some []) fresh in
    o.cache
    ≡ cache_after tenths World ℕ ℕ alike service
        (ask_of tenths World ℕ ℕ alike service "How is it paid?" engineer brief none fresh)
        (some [])
        o.answered
stream_cache_example =
    stream_cache tenths World ℕ ℕ alike service "How is it paid?" engineer brief none (some [])
      fresh

abbrev answer_in : Result (Answer tenths) → Answer tenths
answer_in (ok a) = a
answer_in (raised f) = record {
  mode = instant;
  persona = engineer;
  question = "";
  text = "";
  citations = [];
  reason = none;
  likely_services = [];
  from_cache = false;
  stale = false;
  follow_ups = [];
  analytics = none;
}

abbrev answered : Result (Answer tenths)
answered =
    let o =
      stream tenths World ℕ ℕ alike service "How is it paid?" engineer brief none (some []) fresh in
    o.answered

came : answered ≡ ok (answer_in answered)
unfolding stream cache_get route find should_retry task_uses_json extract_markers strip Dict.get
    Dict.set synthesized_answer
came = refl

mode_synthesized : (answer_in answered).mode ≡ synthesized
unfolding stream cache_get route find should_retry task_uses_json extract_markers strip Dict.get
    Dict.set synthesized_answer
mode_synthesized = refl

not_stale : (answer_in answered).stale ≡ false
unfolding stream cache_get route find should_retry task_uses_json extract_markers strip Dict.get
    Dict.set synthesized_answer
not_stale = refl

stream-IsBacked_example :
    (p : RetrievalPlan) × (w1 : World) × (found : List (SearchHit tenths)) × (w2 : World)
    × (service.plan "How is it paid?" engineer none fresh ≡ (ok p, w1))
    × (service.search "How is it paid?" p.scope (budget_for brief).top_n w1 ≡ (ok found, w2))
    × IsBacked tenths World ℕ ℕ alike service
        (ask_of tenths World ℕ ℕ alike service "How is it paid?" engineer brief none fresh)
        p
        (flow_hits tenths World ℕ ℕ alike service service.flows p.anchors ++ found)
        w2
        (answer_in answered)
stream-IsBacked_example =
    stream-IsBacked tenths World ℕ ℕ alike service "How is it paid?" engineer brief none (some [])
      fresh (answer_in answered) came mode_synthesized

ask_again_example :
    let cache =
      (stream tenths World ℕ ℕ alike service "How is it paid?" engineer brief none
        (some [])
        fresh).cache in
    let o =
      stream tenths World ℕ ℕ alike service "How is it paid?" engineer brief none cache fresh in
    (b : Answer tenths) × (o.answered ≡ ok b) × (b.mode ≡ instant) × (o.world ≡ fresh)
ask_again_example =
    ask_again tenths World ℕ ℕ alike service "How is it paid?" engineer brief none [] fresh fresh
      (answer_in answered) came mode_synthesized not_stale refl

abbrev planning : Planning ℕ
planning = record {
  lower = λ s. s;
  refused = λ query. none;
  fallback = λ hops. "MATCH";
  anchors_in = λ j. some ("payments" ∷ "unknown" ∷ []);
  cypher_in = λ j. some "MATCH (n) RETURN n";
  show_list = λ names. "";
}

abbrev made : Result RetrievalPlan × World
made = plan tenths World ℕ planning router initial empty ("payments" ∷ []) 2 "How?" none none fresh

abbrev plan_in : Result RetrievalPlan → RetrievalPlan
plan_in (ok p) = p
plan_in (raised f) = planned

made_ok : made.0 ≡ ok (plan_in made.0)
unfolding plan route find should_retry task_uses_json join
made_ok = refl

plan_checked_example :
    IsPlan tenths World ℕ planning router initial empty
      ("payments" ∷ [])
      2
      "How?"
      none
      none
      fresh
      (plan_in made.0)
plan_checked_example =
    plan_checked tenths World ℕ planning router initial empty ("payments" ∷ []) 2 "How?" none none
      fresh (plan_in made.0) made_ok
