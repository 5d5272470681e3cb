-- ===== src/Answer/Service/Stages.antt =====
-- `stream` and `answer` of backend/answer/service.py, stage by stage.
use vectural.Prelude.{
  ℕ, Bool, true, false, String, Option, none, some, List, [], ◌∷◌, ◌++◌, length, string_key, ◌==◌,
  if◌then◌else◌,
}
use vectural.Prelude.Float.{Floats}
use vectural.Prelude.Sort
use vectural.Prelude.Text.{str_le, join, show_nat}
use vectural.Domain.{synthesis, groundedness, Persona, Depth, Complexity}
use vectural.Freshness.{FreshnessState, any_stale}
use vectural.Llm.Base.{UsageRecord}
use vectural.Llm.Failures.{Result, ok, raised}
use vectural.Llm.Router.{Payload, RoutedResponse, route}
use vectural.Citations.{SearchHit, Citation, resolve_citations}
use vectural.Answer.Models.{instant, Answer, budget_for, synthesized_answer, refusal}
use vectural.Answer.Cache.{Likeness, Entry, cache_get, cache_put}
use vectural.Answer.Plan.{RetrievalPlan}
use vectural.Answer.Complexity.{assess_complexity}
use vectural.Answer.Service.{
  AnswerStage, stage_of, gate_override, chosen, ungrounded_reason, likely, cited_hits, Service,
  Streamed, Ask, staged, stopped, yielded, measured,
}

module _ (F : Floats) (W J C : Type 0) (L : Likeness F) (s : Service F W J C L) where
  -- What has been found when a draft is asked for.
  pub record Draft : Type 0 where
    pub plan : RetrievalPlan
    pub hits : List (SearchHit F)
    pub complexity : Complexity
    pub context : C
    pub follow_ups : List String
    pub usage : List UsageRecord
    pub text : String

  abbrev pub Cached : Type 0
  Cached = Option (List (Entry F L))

  abbrev pub Out : Type 0
  Out = Streamed F W J C L

  unfoldable pub is_stale_for : Option FreshnessState → List String → Bool
  is_stale_for none anchors = false
  is_stale_for (some f) anchors = any_stale anchors f

  unfoldable pub stored : Ask F W J C L → Answer F → Cached → Cached
  stored ask answer none = none
  stored ask answer (some es) =
      some (cache_put F L ask.question s.commit_sha ask.persona answer ask.depth ask.model es)

  -- An answer that passed both gates: flagged and not cached where a service is stale.
  unfoldable pub release : Ask F W J C L → Draft → List (Citation F) → Cached → W → Out
  unfolding is_stale_for stored measured
  release ask d resolved cache w =
      let answer =
        measured F W J C L s ask d.usage "synthesized" false (length resolved) (length d.hits)
          (some d.complexity) w
          (synthesized_answer F ask.persona ask.question d.text resolved
            (s.suggest_followups d.context resolved ask.question [])) in
      if is_stale_for s.freshness d.plan.anchors
      then yielded F W J C L (record answer { stale = true }) cache w
      else yielded F W J C L answer (stored ask answer cache) w

  -- A refusal after a draft.
  unfoldable pub refuse : Ask F W J C L → Draft → String → ℕ → Cached → W → Out
  unfolding measured
  refuse ask d reason citations cache w =
      yielded F W J C L
        (measured F W J C L s ask d.usage "refusal" false citations (length d.hits)
          (some d.complexity) w
          (refusal F ask.persona ask.question reason (likely F d.plan.anchors d.hits) d.follow_ups))
        cache w

  -- the verdict of the judge: its unsupported claims
  unfoldable pub claims_of : Option J → List String
  claims_of parsed = elim (s.verdict_of parsed) [
    | none ↦ "unparseable verdict" ∷ []
    | some claims ↦ claims
  ]

  -- Gate 2, with the claims that the judge does not find supported
  unfoldable pub on_claims :
      Ask F W J C L → Draft → List (Citation F) → Cached → W → List String → Out
  unfolding release refuse
  on_claims ask d resolved cache w [] =
      staged F W J C L (stage_of "ground" "ok" "All claims grounded" ∷ [])
        (release ask d resolved cache w)
  on_claims ask d resolved cache w (claim ∷ claims) =
      staged F W J C L (stage_of "ground" "fail" "A claim was not supported — withholding" ∷ [])
        (refuse ask d (ungrounded_reason (claim ∷ claims)) (length resolved) cache w)

  -- after the judge's response
  unfoldable pub judged :
      Ask F W J C L → Draft → List (Citation F) → Cached → Result (RoutedResponse J) × W → Out
  unfolding claims_of on_claims
  judged ask d resolved cache (raised f, w) = stopped F W J C L f cache w
  judged ask d resolved cache (ok response, w) =
      on_claims ask (record d { usage = d.usage ++ response.usage ∷ [] }) resolved cache w
        (claims_of response.parsed)

  unfoldable pub ground : Ask F W J C L → Draft → List (Citation F) → Cached → W → Out
  unfolding judged cited_hits gate_override
  ground ask d resolved cache w =
      let budget = budget_for ask.depth in
      let prompt =
        s.grounded_prompt d.text (cited_hits F resolved d.hits) (s.render_context_block d.context)
          budget.evidence_chars in
      let payload : Payload = record {
        prompt = some prompt;
        system = none;
        max_tokens = none;
        model_override_id = gate_override s.catalog ask.model;
      } in
      staged F W J C L (stage_of "ground" "start" "Verifying each claim against the evidence" ∷ [])
        (judged ask d resolved cache
          (route F W J s.router s.catalog groundedness "grounded-v1" payload (some ask.persona) w))

  -- Gate 1
  unfoldable pub cite : Ask F W J C L → Draft → Cached → W → Out
  unfolding ground refuse resolve_citations
  cite ask d cache w =
      let resolution = resolve_citations F s.markers_of d.text d.hits in
      let count = length resolution.resolved in
      let passed =
        staged F W J C L
          (stage_of "cite" "ok" (join "" (show_nat count ∷ " citations resolved" ∷ [])) ∷ [])
          (ground ask d resolution.resolved cache w) in
      let failed =
        staged F W J C L (stage_of "cite" "fail" "A citation did not resolve — withholding" ∷ [])
          (refuse ask d "citation could not be resolved to retrieved evidence" count cache w) in
      staged F W J C L (stage_of "cite" "start" "Resolving every citation to real evidence" ∷ [])
        (if resolution.ok then passed else failed)

  -- after the response of the synthesis
  unfoldable pub drafted : Ask F W J C L → Draft → Cached → Result (RoutedResponse J) × W → Out
  unfolding cite
  drafted ask d cache (raised f, w) = stopped F W J C L f cache w
  drafted ask d cache (ok response, w) =
      staged F W J C L (stage_of "synthesize" "ok" "Draft written" ∷ []) (
        cite ask (record d { usage = d.usage ++ response.usage ∷ []; text = response.text }) cache
          w)

  context_stage : C → List AnswerStage
  context_stage context =
      if s.render_context_block context == ""
      then []
      else stage_of "context" "ok" (s.context_note context) ∷ []

  -- what is known before the draft is written
  unfoldable pub first_draft : Ask F W J C L → RetrievalPlan → List (SearchHit F) → Draft
  unfolding assess_complexity
  first_draft ask p hits =
      let context = s.gather_context p.anchors hits in
      record {
        plan = p;
        hits = hits;
        complexity = assess_complexity (s.words ask.question) p (length hits);
        context = context;
        follow_ups = s.suggest_followups context [] ask.question [];
        usage = p.usage;
        text = "";
      }

  -- `synthesise` of backend/answer/synthesis.py
  unfoldable pub ask_draft : Ask F W J C L → Draft → W → Result (RoutedResponse J) × W
  unfolding chosen
  ask_draft ask d w =
      let budget = budget_for ask.depth in
      let prompt =
        s.synthesis_prompt ask.question ask.persona d.hits (s.render_context_block d.context) budget
          d.complexity in
      let payload : Payload = record {
        prompt = some prompt;
        system = none;
        max_tokens = some budget.max_tokens;
        model_override_id = chosen ask.model;
      } in
      route F W J s.router s.catalog synthesis "synth-v7" payload (some ask.persona) w

  unfoldable pub synthesise : Ask F W J C L → RetrievalPlan → List (SearchHit F) → Cached → W → Out
  unfolding drafted context_stage first_draft ask_draft
  synthesise ask p hits cache w =
      let d = first_draft ask p hits in
      staged F W J C L
        (context_stage d.context
          ++ stage_of "synthesize" "start" "Drafting an answer from the evidence" ∷ [])
        (drafted ask d cache (ask_draft ask d w))

  unfoldable pub refuse_empty : Ask F W J C L → RetrievalPlan → Cached → W → Out
  unfolding measured
  refuse_empty ask p cache w =
      yielded F W J C L
        (measured F W J C L s ask p.usage "refusal" false 0 0 none w (
          refusal F ask.persona ask.question "no reliable coverage — no evidence retrieved"
            p.anchors (s.suggest_followups s.empty_context [] ask.question p.anchors)))
        cache w

  -- approved narratives first, where there are anchors to ask for
  unfoldable pub flow_hits :
      Option (List String → List (SearchHit F)) → List String → List (SearchHit F)
  flow_hits none anchors = []
  flow_hits (some evidence) [] = []
  flow_hits (some evidence) (a ∷ anchors) = evidence (a ∷ anchors)

  unfoldable pub with_hits : Ask F W J C L → RetrievalPlan → Cached → List (SearchHit F) → W → Out
  unfolding synthesise refuse_empty
  with_hits ask p cache [] w =
      staged F W J C L (stage_of "retrieve" "empty" "No matching evidence found" ∷ [])
        (refuse_empty ask p cache w)
  with_hits ask p cache (h ∷ hs) w =
      let found = join "" ("Found " ∷ show_nat (length (h ∷ hs)) ∷ " passages of evidence" ∷ []) in
      staged F W J C L (stage_of "retrieve" "ok" found ∷ []) (synthesise ask p (h ∷ hs) cache w)

  unfoldable pub retrieved :
      Ask F W J C L → RetrievalPlan → Cached → Result (List (SearchHit F)) × W → Out
  unfolding with_hits flow_hits
  retrieved ask p cache (raised f, w) = stopped F W J C L f cache w
  retrieved ask p cache (ok hits, w) = with_hits ask p cache (flow_hits s.flows p.anchors ++ hits) w

  scope_label : Option (List String) → String
  scope_label none = "the whole estate"
  scope_label (some []) = "the whole estate"
  scope_label (some (x ∷ xs)) = join ", " (Sort.sorted str_le (x ∷ xs))

  unfoldable pub planned : Ask F W J C L → Cached → Result RetrievalPlan × W → Out
  unfolding retrieved scope_label
  planned ask cache (raised f, w) = stopped F W J C L f cache w
  planned ask cache (ok p, w) =
      staged F W J C L
        (stage_of "plan" "ok" (join "" ("Scope: " ∷ scope_label p.scope ∷ []))
          ∷ stage_of "retrieve" "start" "Searching the indexed code and docs"
          ∷ [])
        (retrieved ask p cache (s.search ask.question p.scope (budget_for ask.depth).top_n w))

  unfoldable pub fresh : Ask F W J C L → Cached → W → Out
  unfolding planned
  fresh ask cache w =
      staged F W J C L (stage_of "plan" "start" "Planning which services to search" ∷ [])
        (planned ask cache (s.plan ask.question ask.persona ask.model w))

  -- the answer of a cache hit
  unfoldable pub instant_answer : Ask F W J C L → W → Answer F → Answer F
  unfolding measured
  instant_answer ask w cached =
      measured F W J C L s ask [] "instant" true (length cached.citations) 0 none w
        (record cached { mode = instant; from_cache = true; reason = some "semantic cache hit" })

  unfoldable pub looked_up : Ask F W J C L → List (Entry F L) → W → Option (Answer F) → Out
  unfolding fresh instant_answer
  looked_up ask es w (some cached) =
      staged F W J C L (stage_of "cache" "hit" "Answered from cache — no model call" ∷ [])
        (yielded F W J C L (instant_answer ask w cached) (some es) w)
  looked_up ask es w none =
      staged F W J C L (stage_of "cache" "miss" "Not cached — computing a fresh answer" ∷ [])
        (fresh ask (some es) w)

  abbrev pub ask_of : String → Persona → Depth → Option String → W → Ask F W J C L
  ask_of question persona depth model w = record {
    question = question;
    persona = persona;
    depth = depth;
    model = model;
    t0 = s.clock w;
  }

  -- `stream`
  unfoldable pub stream : String → Persona → Depth → Option String → Cached → W → Out
  unfolding looked_up fresh
  stream question persona depth model none w = fresh (ask_of question persona depth model w) none w
  stream question persona depth model (some es) w =
      staged F W J C L (stage_of "cache" "start" "Checking the answer cache" ∷ []) (
        looked_up (ask_of question persona depth model w) es w
          (cache_get F L question s.commit_sha persona depth model es))

  record_metrics : F.Float → Out → Out
  record_metrics start r = elim s.metrics [
    | none ↦ r
    | some record_all ↦ elim r.answered [
      | raised f ↦ r
      | ok answer ↦ record r {
        world =
            record_all (F.mul (F.sub (s.clock r.world) start) (F.of_ℕ 1000)) answer.mode r.world;
      }
    ]
  ]

  -- `answer`: the last item of `stream`, measured
  unfoldable pub answer : String → Persona → Depth → Option String → Cached → W → Out
  unfolding record_metrics stream
  answer question persona depth model cache w =
      record_metrics (s.clock w) (stream question persona depth model cache w)
