-- ===== src/Answer/Plan/Validated.antt =====
-- What the planner of backend/answer/plan.py hands on: known services, their scope, and a query that
-- passed the validator or is the template.
use vectural.Prelude.{
  ℕ, ◌≡◌, ◌⊎◌, inl, inr, refl, subst, Bool, true, false, String, Option, none, some, List, [], ◌∷◌,
  keep, contains, string_key, All, All-append, All-mono, if_ind, arith, contains-here,
}
use vectural.Prelude.Float.{Floats}
use vectural.Prelude.Sort
use vectural.Prelude.Text.{str_le}
use vectural.Domain.{Persona}
use vectural.Llm.Base.{UsageRecord}
use vectural.Llm.Failures.{Result, ok, raised}
use vectural.Llm.Catalog.{Catalog}
use vectural.Llm.Router.{Router, RoutedResponse}
use vectural.Graph.Store.{GraphStore}
use vectural.Answer.Plan.Scope.{IsScope, scope_of-IsScope}
use vectural.Answer.Plan.{
  RetrievalPlan, Planning, CypherPlan, distinct, merged_anchors, named_by, with_names,
  second_settled, first_settled, link_response, link_call, entity_link, refusal_of, second_try,
  first_try, generate_cypher, plan_cypher, planned, linked_plan, plan,
}

module _ (services : List String) where
  abbrev IsKnown : List String → Type 0
  IsKnown = All (λ a. contains a services ≡ true)

  self-IsKnown : (ss : List String) (p : String → Bool) → IsKnown ss → IsKnown (keep p ss)
  self-IsKnown [] p h = tt
  self-IsKnown (s ∷ ss) p h =
      if_ind IsKnown (p s) (λ e. (h.0, self-IsKnown ss p h.1)) (λ e. self-IsKnown ss p h.1)

  named-IsKnown : (named : List String) → IsKnown (keep (λ a. contains a services) named)
  named-IsKnown [] = tt
  named-IsKnown (a ∷ named) =
      if_ind IsKnown (contains a services) (λ e. (e, named-IsKnown named))
        (λ e. named-IsKnown named)

  distinct-IsKnown : (ss : List String) → IsKnown ss → IsKnown (distinct ss)
  unfolding distinct
  distinct-IsKnown [] h = tt
  distinct-IsKnown (s ∷ ss) h =
      if_ind IsKnown (contains s ss) (λ e. distinct-IsKnown ss h.1)
        (λ e. (h.0, distinct-IsKnown ss h.1))

own : (ss : List String) → All (λ a. contains a ss ≡ true) ss
own [] = tt
own (s ∷ ss) = (contains-here s s ss refl, All-mono _ _ ss (λ a e. ground (arith, e)) (own ss))

module _ (F : Floats) (W J : Type 0) (P : Planning J) where
  merged-IsKnown :
      (services : List String) (question : String) (named : List String)
      → IsKnown services (merged_anchors F W J P services question named)
  unfolding merged_anchors
  merged-IsKnown services question named =
      Sort.All-sorted str_le (λ a. contains a services ≡ true) _
        (distinct-IsKnown services _ (
          All-append _ _ (keep (λ a. contains a services) named)
            (self-IsKnown services services _ (own services)) (named-IsKnown services named)))

  abbrev Reply : Type 0
  Reply = Result (Option String × UsageRecord) × W

  -- The second reply, of a call that is told why the first was refused, passed the validator and is
  -- the query; or it was refused too and the query is the template.
  IsSecond : ℕ → Reply → UsageRecord → CypherPlan F W J P → Type 0
  IsSecond hops again before c =
      (query : Option String) × (usage : UsageRecord) × (w : W) × (again ≡ (ok (query, usage), w))
      × (c.attempts ≡ 2)
      × (c.usage ≡ before ∷ usage ∷ [])
      × (((refusal_of F W J P query ≡ none) × (c.cypher ≡ query) × (c.used_fallback ≡ false))
          ⊎ ((reason : String) × (refusal_of F W J P query ≡ some reason)
              × (c.cypher ≡ some (P.fallback hops))
              × (c.used_fallback ≡ true)))

  -- The first reply passed the validator and is the query; or it was refused.
  IsQueried : ℕ → Reply → (String → W → Reply) → CypherPlan F W J P → Type 0
  unfolding IsSecond
  IsQueried hops first again c =
      (query : Option String) × (usage : UsageRecord) × (w : W) × (first ≡ (ok (query, usage), w))
      × (((refusal_of F W J P query ≡ none)
            × (c.cypher ≡ query)
            × (c.used_fallback ≡ false)
            × (c.attempts ≡ 1)
            × (c.usage ≡ usage ∷ []))
          ⊎ ((reason : String) × (refusal_of F W J P query ≡ some reason)
              × IsSecond hops (again reason w) usage c))

  IsQueriedIf : ℕ → Reply → (String → W → Reply) → Result (CypherPlan F W J P) → Type 0
  unfolding IsQueried
  IsQueriedIf hops first again (raised f) = Unit
  IsQueriedIf hops first again (ok c) = IsQueried hops first again c

  second_settled-IsSecond :
      (hops : ℕ) (before usage : UsageRecord) (query refused : Option String) (again : Reply)
      (w : W)
      → again ≡ (ok (query, usage), w)
      → refusal_of F W J P query ≡ refused
      → IsSecond hops again before (second_settled F W J P hops (before ∷ usage ∷ []) query refused)
  unfolding second_settled IsSecond
  second_settled-IsSecond hops before usage query none again w called e =
      (query, usage, w, called, refl, refl, inl (e, refl, refl))
  second_settled-IsSecond hops before usage query (some reason) again w called e =
      (query, usage, w, called, refl, refl, inr (reason, e, refl, refl))

  second-IsQueriedIf :
      (hops : ℕ) (first : Reply) (again : String → W → Reply) (query : Option String)
      (before : UsageRecord) (w : W) (reason : String) (reply : Reply)
      → first ≡ (ok (query, before), w)
      → refusal_of F W J P query ≡ some reason
      → again reason w ≡ reply
      → IsQueriedIf hops first again (second_try F W J P hops before reply).0
  unfolding second_try IsQueriedIf
  second-IsQueriedIf hops first again query before w reason (raised f, w') called refused e = tt
  second-IsQueriedIf hops first again query before w reason (ok (next, usage), w') called refused
        e =
      (
        query,
        before,
        w,
        called,
        inr (
          reason,
          refused,
          second_settled-IsSecond hops before usage next (refusal_of F W J P next) (again reason w)
              w' e refl,
        ),
      )

  first_settled-IsQueriedIf :
      (hops : ℕ) (first : Reply) (again : String → W → Reply) (usage : UsageRecord)
      (query refused : Option String) (w : W)
      → first ≡ (ok (query, usage), w)
      → refusal_of F W J P query ≡ refused
      → IsQueriedIf hops first again (first_settled F W J P hops again usage query refused w).0
  unfolding first_settled IsQueriedIf
  first_settled-IsQueriedIf hops first again usage query none w called e =
      (query, usage, w, called, inl (e, refl, refl, refl, refl))
  first_settled-IsQueriedIf hops first again usage query (some reason) w called e =
      second-IsQueriedIf hops first again query usage w reason (again reason w) called e refl

  first-IsQueriedIf :
      (hops : ℕ) (again : String → W → Reply) (first reply : Reply)
      → first ≡ reply
      → IsQueriedIf hops first again (first_try F W J P hops again reply).0
  unfolding first_try IsQueriedIf
  first-IsQueriedIf hops again first (raised f, w) e = tt
  first-IsQueriedIf hops again first (ok (query, usage), w) e =
      first_settled-IsQueriedIf hops first again usage query (refusal_of F W J P query) w e refl

  module _ (r : Router F W J) (catalog : Catalog) (s : GraphStore) (services : List String)
      (hops : ℕ) (question : String) (persona : Option Persona) (model : Option String) where
    -- How a plan came about from the world `w`. The model was asked for the services. The anchors are
    -- services of the estate, and the scope is theirs. The model was asked for a query about the
    -- anchors next, a second time only where the first was refused, and the plan's query, its number
    -- of tries and its usage are those of these calls.
    pub IsPlan : W → RetrievalPlan → Type 0
    unfolding IsQueried
    IsPlan w p =
        (linked : RoutedResponse J) × (w1 : W) × (c : CypherPlan F W J P) × (link_call F W J P r
            catalog question persona model w
          ≡ (ok linked, w1))
        × IsKnown services p.anchors
        × IsScope s hops p.anchors p.scope
        × IsQueried hops
            (generate_cypher F W J P r catalog question p.anchors persona none model w1)
            (λ reason w'.
              generate_cypher F W J P r catalog question p.anchors persona (some reason) model w')
            c
        × (p.cypher ≡ c.cypher)
        × (p.used_fallback ≡ c.used_fallback)
        × (p.cypher_attempts ≡ c.attempts)
        × (p.usage ≡ linked.usage ∷ c.usage)

    IsPlanned : W → Result RetrievalPlan → Type 0
    IsPlanned w (raised f) = Unit
    IsPlanned w (ok p) = IsPlan w p

    abbrev cypher_of : List String → W → Result (CypherPlan F W J P) × W
    cypher_of anchors w' = plan_cypher F W J P r catalog hops question anchors persona model w'

    planned-IsPlanned :
        (w w1 : W) (linked : RoutedResponse J) (anchors : List String)
        (c : Result (CypherPlan F W J P) × W)
        → link_call F W J P r catalog question persona model w ≡ (ok linked, w1)
        → IsKnown services anchors
        → IsQueriedIf hops
            (generate_cypher F W J P r catalog question anchors persona none model w1)
            (λ reason w'.
              generate_cypher F W J P r catalog question anchors persona (some reason) model w')
            c.0
        → IsPlanned w (planned F W J P s hops anchors linked.usage c).0
    unfolding planned IsPlanned IsPlan IsQueriedIf
    planned-IsPlanned w w1 linked anchors (raised f, w2) called known h = tt
    planned-IsPlanned w w1 linked anchors (ok c, w2) called known h =
        (linked, w1, c, called, known, scope_of-IsScope s hops anchors, h, refl, refl, refl, refl)

    named-IsPlanned :
        (w w1 : W) (linked : RoutedResponse J) (named : Option (List String))
        → link_call F W J P r catalog question persona model w ≡ (ok linked, w1)
        → IsPlanned w
            (linked_plan F W J P s hops cypher_of
              (with_names F W J P services question linked.usage named, w1)).0
    unfolding linked_plan with_names IsPlanned plan_cypher
    named-IsPlanned w w1 linked none called = tt
    named-IsPlanned w w1 linked (some named) called =
        let anchors = merged_anchors F W J P services question named in
        planned-IsPlanned w w1 linked anchors (cypher_of anchors w1) called
          (merged-IsKnown services question named)
          (first-IsQueriedIf hops
            (λ reason w'.
              generate_cypher F W J P r catalog question anchors persona (some reason) model w')
            (generate_cypher F W J P r catalog question anchors persona none model w1)
            (generate_cypher F W J P r catalog question anchors persona none model w1) refl)

    linked-IsPlanned :
        (w : W) (response : Result (RoutedResponse J) × W)
        → link_call F W J P r catalog question persona model w ≡ response
        → IsPlanned w
            (linked_plan F W J P s hops cypher_of
              (link_response F W J P services question response.0, response.1)).0
    unfolding linked_plan link_response IsPlanned
    linked-IsPlanned w (raised f, w1) called = tt
    linked-IsPlanned w (ok linked, w1) called =
        named-IsPlanned w w1 linked (named_by F W J P linked.parsed) called

    every-IsPlanned :
        (w : W) → IsPlanned w (plan F W J P r catalog s services hops question persona model w).0
    unfolding plan entity_link
    every-IsPlanned w =
        linked-IsPlanned w (link_call F W J P r catalog question persona model w) refl

    -- Whatever the model names and writes, a plan's anchors are services of the estate; its scope is
    -- none without anchors, and otherwise the set of the anchors and of the services that the graph
    -- reaches from one of them within the hops. Its query is the model's first reply where the
    -- validator accepts it, the second where it refused the first and accepts that, and the template,
    -- marked as such, where it refused both; and its usage is that of the calls made, in order.
    pub plan_checked :
        (w : W) (p : RetrievalPlan)
        → (plan F W J P r catalog s services hops question persona model w).0 ≡ ok p
        → IsPlan w p
    unfolding IsPlanned
    plan_checked w p e =
        let here : IsPlanned w (ok p) = subst (IsPlanned w) e (every-IsPlanned w) in here
