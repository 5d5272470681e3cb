-- ===== src/Answer/Service.antt =====
-- backend/answer/service.py: the path of a question, from the cache to an answer or a refusal. The
-- generator `stream` yields its stages and then one answer; here it returns them, with the cache and
-- the world `W` afterwards. An exception ends it: `answered` then holds the failure.
pub mod Stages
pub mod Gates
pub mod Caching
use vectural.Prelude.{
  ℕ, ◌+◌, ◌-◌, Bool, true, false, not, String, Option, none, some, List, [], ◌∷◌, ◌++◌, map, keep,
  take, length, contains, string_key, ◌==◌, if◌then◌else◌, leb,
}
use vectural.Prelude.Float.{Floats}
use vectural.Prelude.Sort
use vectural.Prelude.Text.{str_le, strip, rstrip, first_chars, join, show_nat}
use vectural.Domain.{TaskType, synthesis, groundedness, Persona, Depth, Complexity}
use vectural.Freshness.{FreshnessState, any_stale}
use vectural.Llm.Base.{UsageRecord}
use vectural.Llm.Failures.{Failure, Result, ok, raised}
use vectural.Llm.Catalog.{Catalog, SelectableModel, find}
use vectural.Llm.Router.{Router, Payload, RoutedResponse, route}
use vectural.Citations.{SearchHit, Citation, CitationResolution, resolve_citations}
use vectural.Answer.Models.{
  AnswerMode, instant, Answer, DepthBudget, budget_for, synthesized_answer, refusal,
}
use vectural.Answer.Cache.{Likeness, Entry, cache_get, cache_put}
use vectural.Answer.Plan.{RetrievalPlan}
use vectural.Answer.Complexity.{assess_complexity}
use vectural.Answer.Analytics.{Prices, Frame, build_analytics}

pub record AnswerStage : Type 0 where
  pub stage : String
  pub status : String
  pub detail : String

abbrev pub stage_of : String → String → String → AnswerStage
stage_of stage status detail = record { stage = stage; status = status; detail = detail }

chosen_override : Option SelectableModel → Option String → Option String
chosen_override none model = model
chosen_override (some entry) model = elim entry.reasoning_effort [ none ↦ model | some e ↦ none ]

-- `_gate_override`
unfoldable pub gate_override : Catalog → Option String → Option String
unfolding chosen_override
gate_override catalog model = chosen_override (find model catalog) model

-- an empty model is no choice
unfoldable pub chosen : Option String → Option String
chosen none = none
chosen (some m) = if m == "" then none else some m

-- one claim, cut at 140 characters
shown_claim : String → String
shown_claim c =
    if first_chars 140 c == c then c else join "" (rstrip (first_chars 140 c) ∷ "…" ∷ [])

quoted : String → String
unfolding shown_claim
quoted c = join "" ("“" ∷ shown_claim c ∷ "”" ∷ [])

more_note : ℕ → String
more_note n = if leb 1 n then join "" (" (+" ∷ show_nat n ∷ " more)" ∷ []) else ""

abbrev ungrounded : String
ungrounded = "a claim was not grounded in the retrieved evidence"

reason_of : List String → String
unfolding quoted more_note
reason_of [] = ungrounded
reason_of (c ∷ cs) = join "" (
    ungrounded
    ∷ ": "
    ∷ join "; " (map quoted (take 2 (c ∷ cs)))
    ∷ more_note (length (c ∷ cs) - 2)
    ∷ [])

-- `_ungrounded_reason`
unfoldable pub ungrounded_reason : List String → String
unfolding reason_of
ungrounded_reason unsupported = reason_of (keep (λ c. not (c == "")) (map strip unsupported))

module _ (F : Floats) where
  first_services : List String → List (SearchHit F) → List String
  first_services seen [] = seen
  first_services seen (h ∷ hs) =
      let skip = first_services seen hs in
      let put = first_services (seen ++ h.service ∷ []) hs in
      if contains h.service seen then skip else put

  -- `_likely`
  unfoldable pub likely : List String → List (SearchHit F) → List String
  unfolding first_services
  likely [] hits = first_services [] hits
  likely (a ∷ anchors) hits = a ∷ anchors

  or_all : List (SearchHit F) → List (SearchHit F) → List (SearchHit F)
  or_all [] hits = hits
  or_all (h ∷ hs) hits = h ∷ hs

  -- the hits that the answer cites, or all
  unfoldable pub cited_hits : List (Citation F) → List (SearchHit F) → List (SearchHit F)
  unfolding or_all
  cited_hits resolved hits =
      let ids = map (λ c. c.chunk_id) resolved in
      or_all (keep (λ h. contains h.chunk_id ids) hits) hits

module _ (F : Floats) (W J C : Type 0) (L : Likeness F) where
  -- The collaborators. `C` is the `AnswerContext`; `words` and `markers_of` stand for the regular
  -- expressions, and `verdict_of` for the validation of the judge's JSON: the unsupported claims, or
  -- none where it does not validate.
  pub record Service : Type 0 where
    pub plan : String → Persona → Option String → W → Result RetrievalPlan × W
    pub search : String → Option (List String) → ℕ → W → Result (List (SearchHit F)) × W
    pub router : Router F W J
    pub catalog : Catalog
    pub flows : Option (List String → List (SearchHit F))
    pub freshness : Option FreshnessState
    pub gather_context : List String → List (SearchHit F) → C
    pub empty_context : C
    pub render_context_block : C → String
    pub context_note : C → String
    pub suggest_followups : C → List (Citation F) → String → List String → List String
    pub synthesis_prompt :
        String → Persona → List (SearchHit F) → String → DepthBudget → Complexity → String
    pub grounded_prompt : String → List (SearchHit F) → String → ℕ → String
    pub verdict_of : Option J → Option (List String)
    pub words : String → List String
    pub markers_of : String → List String
    pub commit_sha : String
    pub clock : W → F.Float
    pub round_to : ℕ → F.Float → F.Float
    pub prices : Prices F
    pub metrics : Option (F.Float → AnswerMode → W → W)

  pub record Streamed : Type 0 where
    pub stages : List AnswerStage
    pub answered : Result (Answer F)
    pub cache : Option (List (Entry F L))
    pub world : W

  -- What stays the same on the path of one question.
  pub record Ask : Type 0 where
    pub question : String
    pub persona : Persona
    pub depth : Depth
    pub model : Option String
    pub t0 : F.Float

  -- `yield` of some stages before the rest
  abbrev pub staged : List AnswerStage → Streamed → Streamed
  staged stages r = record r { stages = stages ++ r.stages }

  abbrev pub stopped : Failure → Option (List (Entry F L)) → W → Streamed
  stopped f cache w = record { stages = []; answered = raised f; cache = cache; world = w }

  abbrev pub yielded : Answer F → Option (List (Entry F L)) → W → Streamed
  yielded answer cache w = record { stages = []; answered = ok answer; cache = cache; world = w }

  abbrev pub elapsed_ms : Service → Ask → W → F.Float
  elapsed_ms s ask w = F.mul (F.sub (s.clock w) ask.t0) (F.of_ℕ 1000)

  -- the answer with its analytics
  unfoldable pub measured :
      Service
      → Ask
      → List UsageRecord
      → String
      → Bool
      → ℕ
      → ℕ
      → Option Complexity
      → W
      → Answer F
      → Answer F
  measured s ask usage mode from_cache citations evidence complexity w answer = record answer {
    analytics = some (
        build_analytics F s.round_to s.prices s.catalog usage (record {
          latency_ms = elapsed_ms s ask w;
          model = ask.model;
          depth = ask.depth;
          persona = ask.persona;
          mode = mode;
          from_cache = from_cache;
          citations = citations;
          evidence_chunks = evidence;
          complexity = complexity;
        }));
  }
