-- ===== src/Answer/Complexity.antt =====
-- backend/answer/complexity.py: how involved a question is. `words` stands for the words of the
-- question in lower case, as the regular expression finds them. The score is one more than the
-- source's, which starts at 0 and may fall to -1.
use vectural.Prelude.{
  ℕ, ◌+◌, Bool, true, false, String, Option, none, some, List, [], ◌∷◌, keep, length, contains,
  string_key, if◌then◌else◌, leb,
}
use vectural.Domain.{Complexity, simple, moderate, complex}
use vectural.Answer.Plan.{RetrievalPlan}

abbrev relational_words : List String
relational_words =
    "how" ∷ "why" ∷ "interact" ∷ "interacts" ∷ "depend" ∷ "depends" ∷ "dependency" ∷ "flow"
    ∷ "flows" ∷ "across" ∷ "between" ∷ "via" ∷ "propagate" ∷ "propagates" ∷ "consume" ∷ "consumes"
    ∷ "trigger" ∷ "triggers" ∷ "affect" ∷ "affects" ∷ "connect" ∷ "connects" ∷ "integrate"
    ∷ "integrates" ∷ "chain" ∷ "pipeline" ∷ "downstream" ∷ "upstream" ∷ "call" ∷ "calls" ∷ "invoke"
    ∷ "invokes" ∷ "orchestrate" ∷ "orchestrates" ∷ "sequence" ∷ "lifecycle" ∷ []

-- `set(words)`
distinct : List String → List String
distinct [] = []
distinct (w ∷ ws) = let rest = distinct ws in if contains w ws then rest else w ∷ rest

one_if : Bool → ℕ
one_if true = 1
one_if false = 0

shape_score : ℕ → ℕ
shape_score n = if leb n 4 then 0 else if leb 14 n then 2 else 1

scope_size : Option (List String) → ℕ
scope_size none = 0
scope_size (some services) = length services

-- one more than `score`, at its end
complexity_score : List String → RetrievalPlan → ℕ → ℕ
unfolding distinct one_if shape_score scope_size
complexity_score words plan hits =
    let relational = length (keep (λ w. contains w relational_words) (distinct words)) in
    let anchors = length plan.anchors in
    shape_score (length words)
    + one_if (leb 1 relational)
    + one_if (leb 2 relational)
    + one_if (leb 2 anchors)
    + one_if (leb 3 anchors)
    + one_if (leb 6 (scope_size plan.scope))
    + one_if (leb 14 hits)
    + one_if plan.used_fallback

class_of : ℕ → Complexity
class_of score = if leb score 1 then simple else if leb score 3 then moderate else complex

unfoldable pub assess_complexity : List String → RetrievalPlan → ℕ → Complexity
unfolding complexity_score class_of
assess_complexity words plan hits = class_of (complexity_score words plan hits)
