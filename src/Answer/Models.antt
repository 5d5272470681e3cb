-- ===== src/Answer/Models.antt =====
-- backend/answer/models.py and backend/answer/depth.py: what an answer is, and the budget of a depth.
use vectural.Prelude.{ℕ, Bool, true, false, String, Option, none, some, List, [], ◌∷◌}
use vectural.Prelude.Float.{Floats}
use vectural.Prelude.Text.{join}
use vectural.Prelude.Dict.{Dict}
use vectural.Domain.{Persona, Depth, brief, standard, deep}
use vectural.Citations.{Citation}

pub data AnswerMode : Type 0 where
  synthesized instant refused : AnswerMode

pub record LlmCall : Type 0 where
  pub task : String
  pub model : String
  pub input_tokens : ℕ
  pub output_tokens : ℕ

module _ (F : Floats) where
  pub record QueryAnalytics : Type 0 where
    pub input_tokens : ℕ
    pub output_tokens : ℕ
    pub total_tokens : ℕ
    pub llm_calls : ℕ
    pub calls : List LlmCall
    pub tokens_by_task : Dict String ℕ
    pub latency_ms : F.Float
    pub model : Option String
    pub depth : String
    pub persona : String
    pub mode : String
    pub from_cache : Bool
    pub citations : ℕ
    pub evidence_chunks : ℕ
    pub complexity : Option String
    pub cost_usd : Option F.Float

  pub record Answer : Type 0 where
    pub mode : AnswerMode
    pub persona : Persona
    pub question : String
    pub text : String
    pub citations : List (Citation F)
    pub reason : Option String
    pub likely_services : List String
    pub from_cache : Bool
    pub stale : Bool
    pub follow_ups : List String
    pub analytics : Option (QueryAnalytics)

  -- `Answer.synthesized`
  unfoldable pub synthesized_answer :
      Persona → String → String → List (Citation F) → List String → Answer
  synthesized_answer persona question text citations follow_ups = record {
    mode = synthesized;
    persona = persona;
    question = question;
    text = text;
    citations = citations;
    reason = none;
    likely_services = [];
    from_cache = false;
    stale = false;
    follow_ups = follow_ups;
    analytics = none;
  }

  names_of : List String → String
  names_of [] = "the relevant services"
  names_of (s ∷ ss) = join ", " (s ∷ ss)

  -- `Answer.refusal`
  unfoldable pub refusal : Persona → String → String → List String → List String → Answer
  unfolding names_of
  refusal persona question reason likely_services follow_ups = record {
    mode = refused;
    persona = persona;
    question = question;
    text = join "" (
        "No reliable coverage for this yet — the answer could not be verified. "
        ∷ "This likely belongs to "
        ∷ names_of likely_services
        ∷ "."
        ∷ []);
    citations = [];
    reason = some reason;
    likely_services = likely_services;
    from_cache = false;
    stale = false;
    follow_ups = follow_ups;
    analytics = none;
  }

pub record DepthBudget : Type 0 where
  pub top_n : ℕ
  pub evidence_chars : ℕ
  pub max_tokens : ℕ
  pub exhaustive : Bool

unfoldable pub budget_for : Depth → DepthBudget
budget_for brief = record { top_n = 4; evidence_chars = 1200; max_tokens = 800; exhaustive = false }
budget_for standard = record {
  top_n = 18;
  evidence_chars = 4500;
  max_tokens = 6500;
  exhaustive = false;
}
budget_for deep = record {
  top_n = 24;
  evidence_chars = 10000;
  max_tokens = 16000;
  exhaustive = true;
}
