-- ===== src/Answer/Service/Gates.antt =====
-- The two gates of backend/answer/service.py: what is released is backed by evidence.
use vectural.Prelude.{
  ℕ, ◌≡◌, refl, sym, ap, ◌∙◌, subst, true, String, Option, none, some, List, [], ◌∷◌, ◌++◌, if_ind,
}
use vectural.Prelude.Float.{Floats}
use vectural.Domain.{Persona, Depth, groundedness}
use vectural.Llm.Failures.{Result, ok, raised}
use vectural.Llm.Router.{RoutedResponse, route}
use vectural.Citations.{SearchHit, Citation, resolve_citations}
use vectural.Answer.Models.{
  AnswerMode, synthesized, instant, refused, Answer, synthesized_answer, refusal, budget_for,
}
use vectural.Answer.Cache.{Likeness, Entry, cache_get}
use vectural.Answer.Plan.{RetrievalPlan}
use vectural.Answer.Service.{Service, Ask, cited_hits, gate_override, measured}
use vectural.Answer.Service.Stages.{
  Draft, Cached, Out, is_stale_for, claims_of, release, refuse, on_claims, judged, ground, cite,
  drafted, first_draft, ask_draft, synthesise, refuse_empty, with_hits, flow_hits, retrieved,
  planned, fresh, looked_up, instant_answer, stream, ask_of,
}

mode_of : (F : Floats) → Result (Answer F) → AnswerMode
mode_of F (raised f) = refused
mode_of F (ok a) = a.mode

module _ (F : Floats) (W J C : Type 0) (L : Likeness F) (s : Service F W J C L) where
  -- the call of the judge on a text, with the hits that it cites and the background
  abbrev judge :
      Ask F W J C L
      → String
      → List (Citation F)
      → List (SearchHit F)
      → C
      → W
      → Result (RoutedResponse J) × W
  judge ask text citations hits context w =
      route F W J s.router s.catalog groundedness "grounded-v1"
        (record {
          prompt = some (
              s.grounded_prompt text (cited_hits F citations hits) (s.render_context_block context)
                (budget_for ask.depth).evidence_chars);
          system = none;
          max_tokens = none;
          model_override_id = gate_override s.catalog ask.model;
        })
        (some ask.persona) w

  -- The answer's text is what the model drafted on these hits from the world `w`. It passes the
  -- citation gate on them, and the answer's citations are those that the gate resolved. The judge,
  -- called next, on this text, the hits that it cites and the background of the plan's anchors, named
  -- no unsupported claim. The answer is flagged exactly where an anchor is stale.
  pub IsBacked : Ask F W J C L → RetrievalPlan → List (SearchHit F) → W → Answer F → Type 0
  IsBacked ask p hits w a =
      ((resolve_citations F s.markers_of a.text hits).ok ≡ true)
      × (a.citations ≡ (resolve_citations F s.markers_of a.text hits).resolved)
      × (a.stale ≡ is_stale_for F W J C L s s.freshness p.anchors)
      × ((draft : RoutedResponse J) × (w1 : W) × (verdict : RoutedResponse J) × (w2 : W)
          × (ask_draft F W J C L s ask (first_draft F W J C L s ask p hits) w ≡ (ok draft, w1))
          × (a.text ≡ draft.text)
          × (judge ask a.text a.citations hits (s.gather_context p.anchors hits) w1
              ≡ (ok verdict, w2))
          × (claims_of F W J C L s verdict.parsed ≡ []))

  -- By the mode of an answer.
  pub IsAllowed :
      Ask F W J C L → RetrievalPlan → List (SearchHit F) → W → Answer F → AnswerMode → Type 0
  unfolding IsBacked
  IsAllowed ask p hits w a synthesized = IsBacked ask p hits w a
  IsAllowed ask p hits w a instant = ⊥
  IsAllowed ask p hits w a refused = a.citations ≡ []

  pub IsFailClosed :
      Ask F W J C L → RetrievalPlan → List (SearchHit F) → W → Result (Answer F) → Type 0
  unfolding IsAllowed
  IsFailClosed ask p hits w (raised f) = Unit
  IsFailClosed ask p hits w (ok a) = IsAllowed ask p hits w a a.mode

  -- Gate 1 passed for the draft.
  abbrev IsCited : Draft F W J C L s → List (Citation F) → Type 0
  IsCited d resolved =
      ((resolve_citations F s.markers_of d.text d.hits).ok ≡ true)
      × (resolved ≡ (resolve_citations F s.markers_of d.text d.hits).resolved)

  -- The draft is the model's, on its plan and its hits; from the world `w` to the world `w1`.
  abbrev IsDrafted : Ask F W J C L → Draft F W J C L s → W → W → Type 0
  IsDrafted ask d w w1 =
      (draft : RoutedResponse J) × (ask_draft F W J C L s ask
          (first_draft F W J C L s ask d.plan d.hits) w
        ≡ (ok draft, w1))
      × (d.text ≡ draft.text)
      × (d.context ≡ s.gather_context d.plan.anchors d.hits)

  -- Gate 2 passed for it.
  abbrev IsJudged : Ask F W J C L → Draft F W J C L s → List (Citation F) → W → Type 0
  IsJudged ask d resolved w1 =
      (verdict : RoutedResponse J) × (w2 : W) × (judge ask d.text resolved d.hits
          (s.gather_context d.plan.anchors d.hits) w1
        ≡ (ok verdict, w2))
      × (claims_of F W J C L s verdict.parsed ≡ [])

  release-IsFailClosed :
      (ask : Ask F W J C L) (d : Draft F W J C L s) (resolved : List (Citation F))
      (cache : Cached F W J C L s) (w w1 w2 : W)
      → IsCited d resolved
      → IsDrafted ask d w w1
      → IsJudged ask d resolved w1
      → IsFailClosed ask d.plan d.hits w (release F W J C L s ask d resolved cache w2).answered
  unfolding release IsFailClosed synthesized_answer
  release-IsFailClosed ask d resolved cache w w1 w2 cited drawn passed =
      let (draft, called, same, _) = drawn in
      let (verdict, w3, asked, none_named) = passed in
      if_ind (λ (o : Out F W J C L s). IsFailClosed ask d.plan d.hits w o.answered)
        (is_stale_for F W J C L s s.freshness d.plan.anchors)
        (λ e. (cited.0, cited.1, sym e, (draft, w1, verdict, w3, called, same, asked, none_named)))
        (λ e. (cited.0, cited.1, sym e, (draft, w1, verdict, w3, called, same, asked, none_named)))

  refuse-IsFailClosed :
      (ask : Ask F W J C L) (d : Draft F W J C L s) (reason : String) (n : ℕ)
      (cache : Cached F W J C L s) (w w2 : W)
      → IsFailClosed ask d.plan d.hits w (refuse F W J C L s ask d reason n cache w2).answered
  unfolding refuse refusal IsFailClosed
  refuse-IsFailClosed ask d reason n cache w w2 = refl

  on_claims-IsFailClosed :
      (ask : Ask F W J C L) (d : Draft F W J C L s) (resolved : List (Citation F))
      (cache : Cached F W J C L s) (w w1 w2 : W) (verdict : RoutedResponse J) (claims : List String)
      → IsCited d resolved
      → IsDrafted ask d w w1
      → judge ask d.text resolved d.hits (s.gather_context d.plan.anchors d.hits) w1
        ≡ (ok verdict, w2)
      → claims_of F W J C L s verdict.parsed ≡ claims
      → IsFailClosed ask d.plan d.hits w
          (on_claims F W J C L s ask d resolved cache w2 claims).answered
  unfolding on_claims
  on_claims-IsFailClosed ask d resolved cache w w1 w2 verdict [] cited drawn asked e =
      release-IsFailClosed ask d resolved cache w w1 w2 cited drawn (verdict, w2, asked, e)
  on_claims-IsFailClosed ask d resolved cache w w1 w2 verdict (c ∷ cs) cited drawn asked e =
      refuse-IsFailClosed ask d _ _ cache w w2

  judged-IsFailClosed :
      (ask : Ask F W J C L) (d : Draft F W J C L s) (resolved : List (Citation F))
      (cache : Cached F W J C L s) (w w1 : W) (response : Result (RoutedResponse J) × W)
      → IsCited d resolved
      → IsDrafted ask d w w1
      → judge ask d.text resolved d.hits (s.gather_context d.plan.anchors d.hits) w1 ≡ response
      → IsFailClosed ask d.plan d.hits w (judged F W J C L s ask d resolved cache response).answered
  unfolding judged IsFailClosed
  judged-IsFailClosed ask d resolved cache w w1 (raised f, w2) cited drawn asked = tt
  judged-IsFailClosed ask d resolved cache w w1 (ok verdict, w2) cited drawn asked =
      on_claims-IsFailClosed ask (record d { usage = d.usage ++ verdict.usage ∷ [] }) resolved cache
        w w1 w2 verdict (claims_of F W J C L s verdict.parsed) cited drawn asked refl

  cite-IsFailClosed :
      (ask : Ask F W J C L) (d : Draft F W J C L s) (cache : Cached F W J C L s) (w w1 : W)
      → IsDrafted ask d w w1
      → IsFailClosed ask d.plan d.hits w (cite F W J C L s ask d cache w1).answered
  unfolding cite ground
  cite-IsFailClosed ask d cache w w1 drawn =
      let resolution = resolve_citations F s.markers_of d.text d.hits in
      let asked = judge ask d.text resolution.resolved d.hits d.context w1 in
      let (_, _, _, background) = drawn in
      let same = ap (λ c. judge ask d.text resolution.resolved d.hits c w1) (sym background) in
      if_ind (λ (o : Out F W J C L s). IsFailClosed ask d.plan d.hits w o.answered) resolution.ok
        (λ e. judged-IsFailClosed ask d resolution.resolved cache w w1 asked (e, refl) drawn same)
        (λ e. refuse-IsFailClosed ask d _ _ cache w w1)

  drafted-IsFailClosed :
      (ask : Ask F W J C L) (p : RetrievalPlan) (hits : List (SearchHit F))
      (cache : Cached F W J C L s) (w : W) (response : Result (RoutedResponse J) × W)
      → ask_draft F W J C L s ask (first_draft F W J C L s ask p hits) w ≡ response
      → IsFailClosed ask p hits w
          (drafted F W J C L s ask (first_draft F W J C L s ask p hits) cache response).answered
  unfolding drafted first_draft IsFailClosed
  drafted-IsFailClosed ask p hits cache w (raised f, w1) e = tt
  drafted-IsFailClosed ask p hits cache w (ok draft, w1) e =
      let d = first_draft F W J C L s ask p hits in
      cite-IsFailClosed ask (record d { usage = d.usage ++ draft.usage ∷ []; text = draft.text })
        cache w w1 (draft, e, refl, refl)

  with_hits-IsFailClosed :
      (ask : Ask F W J C L) (p : RetrievalPlan) (cache : Cached F W J C L s)
      (hits : List (SearchHit F)) (w : W)
      → IsFailClosed ask p hits w (with_hits F W J C L s ask p cache hits w).answered
  unfolding with_hits synthesise refuse_empty refusal IsFailClosed
  with_hits-IsFailClosed ask p cache [] w = refl
  with_hits-IsFailClosed ask p cache (h ∷ hs) w =
      drafted-IsFailClosed ask p (h ∷ hs) cache w
        (ask_draft F W J C L s ask (first_draft F W J C L s ask p (h ∷ hs)) w) refl

  -- What a question comes to that the cache does not answer: where there is an answer, the planner
  -- and the search gave the plan and the hits on which it is allowed.
  pub IsComputed : Ask F W J C L → W → Result (Answer F) → Type 0
  IsComputed ask w (raised f) = Unit
  IsComputed ask w (ok a) =
      (p : RetrievalPlan) × (w1 : W) × (found : List (SearchHit F)) × (w2 : W) × (s.plan
          ask.question ask.persona ask.model w
        ≡ (ok p, w1))
      × (s.search ask.question p.scope (budget_for ask.depth).top_n w1 ≡ (ok found, w2))
      × IsFailClosed ask p (flow_hits F W J C L s s.flows p.anchors ++ found) w2 (ok a)

  allowed-IsComputed :
      (ask : Ask F W J C L) (w w1 w2 : W) (p : RetrievalPlan) (found : List (SearchHit F))
      (o : Result (Answer F))
      → s.plan ask.question ask.persona ask.model w ≡ (ok p, w1)
      → s.search ask.question p.scope (budget_for ask.depth).top_n w1 ≡ (ok found, w2)
      → IsFailClosed ask p (flow_hits F W J C L s s.flows p.anchors ++ found) w2 o
      → IsComputed ask w o
  unfolding IsComputed
  allowed-IsComputed ask w w1 w2 p found (raised f) e e' h = tt
  allowed-IsComputed ask w w1 w2 p found (ok a) e e' h = (p, w1, found, w2, e, e', h)

  retrieved-IsComputed :
      (ask : Ask F W J C L) (w w1 : W) (p : RetrievalPlan) (cache : Cached F W J C L s)
      (hits : Result (List (SearchHit F)) × W)
      → s.plan ask.question ask.persona ask.model w ≡ (ok p, w1)
      → s.search ask.question p.scope (budget_for ask.depth).top_n w1 ≡ hits
      → IsComputed ask w (retrieved F W J C L s ask p cache hits).answered
  unfolding retrieved IsComputed
  retrieved-IsComputed ask w w1 p cache (raised f, w2) e e' = tt
  retrieved-IsComputed ask w w1 p cache (ok found, w2) e e' =
      let hits = flow_hits F W J C L s s.flows p.anchors ++ found in
      allowed-IsComputed ask w w1 w2 p found (with_hits F W J C L s ask p cache hits w2).answered e
        e' (with_hits-IsFailClosed ask p cache hits w2)

  planned-IsComputed :
      (ask : Ask F W J C L) (w : W) (cache : Cached F W J C L s) (made : Result RetrievalPlan × W)
      → s.plan ask.question ask.persona ask.model w ≡ made
      → IsComputed ask w (planned F W J C L s ask cache made).answered
  unfolding planned IsComputed
  planned-IsComputed ask w cache (raised f, w1) e = tt
  planned-IsComputed ask w cache (ok p, w1) e =
      retrieved-IsComputed ask w w1 p cache
        (s.search ask.question p.scope (budget_for ask.depth).top_n w1) e refl

  fresh-IsComputed :
      (ask : Ask F W J C L) (cache : Cached F W J C L s) (w : W)
      → IsComputed ask w (fresh F W J C L s ask cache w).answered
  unfolding fresh
  fresh-IsComputed ask cache w =
      planned-IsComputed ask w cache (s.plan ask.question ask.persona ask.model w) refl

  synthesized-IsBacked :
      (ask : Ask F W J C L) (w : W) (o : Result (Answer F)) (a : Answer F)
      → IsComputed ask w o
      → o ≡ ok a
      → a.mode ≡ synthesized
      → (p : RetrievalPlan) × (w1 : W) × (found : List (SearchHit F)) × (w2 : W) × (s.plan
            ask.question ask.persona ask.model w
          ≡ (ok p, w1))
        × (s.search ask.question p.scope (budget_for ask.depth).top_n w1 ≡ (ok found, w2))
        × IsBacked ask p (flow_hits F W J C L s s.flows p.anchors ++ found) w2 a
  unfolding IsComputed IsFailClosed
  synthesized-IsBacked ask w o a h e mode =
      let h' : IsComputed ask w (ok a) = subst (IsComputed ask w) e h in
      let (p, w1, found, w2, made, searched, allowed) = h' in
      (
        p,
        w1,
        found,
        w2,
        made,
        searched,
        backed p (flow_hits F W J C L s s.flows p.anchors ++ found) w2 allowed,
      )
    where
      backed :
          (p : RetrievalPlan) (hits : List (SearchHit F)) (w2 : W)
          → IsAllowed ask p hits w2 a a.mode
          → IsBacked ask p hits w2 a
      backed p hits w2 allowed = subst (IsAllowed ask p hits w2 a) mode allowed

  looked_up-IsBacked :
      (ask : Ask F W J C L) (es : List (Entry F L)) (w : W) (o : Option (Answer F)) (a : Answer F)
      → (looked_up F W J C L s ask es w o).answered ≡ ok a
      → a.mode ≡ synthesized
      → (p : RetrievalPlan) × (w1 : W) × (found : List (SearchHit F)) × (w2 : W) × (s.plan
            ask.question ask.persona ask.model w
          ≡ (ok p, w1))
        × (s.search ask.question p.scope (budget_for ask.depth).top_n w1 ≡ (ok found, w2))
        × IsBacked ask p (flow_hits F W J C L s s.flows p.anchors ++ found) w2 a
  unfolding looked_up instant_answer measured mode_of
  looked_up-IsBacked ask es w none a e mode =
      synthesized-IsBacked ask w (fresh F W J C L s ask (some es) w).answered a
        (fresh-IsComputed ask (some es) w) e mode
  looked_up-IsBacked ask es w (some cached) a e mode =
      let clash : instant ≡ synthesized = ap (mode_of F) e ∙ mode in absurd (cc clash)

  -- A synthesized answer to a question is backed by evidence: the planner gave a plan, the search
  -- within its scope gave hits, and the answer's text is what the model then drafted on these, after
  -- the approved narratives of the plan's anchors. On the same hits the text passes the citation gate
  -- with exactly the answer's citations; the judge, called next on this text, the hits that it cites
  -- and the background of the anchors, named no unsupported claim; and the answer is flagged stale
  -- exactly where an anchor is.
  pub stream-IsBacked :
      (question : String) (persona : Persona) (depth : Depth) (model : Option String)
      (cache : Cached F W J C L s) (w : W) (a : Answer F)
      → (stream F W J C L s question persona depth model cache w).answered ≡ ok a
      → a.mode ≡ synthesized
      → (p : RetrievalPlan) × (w1 : W) × (found : List (SearchHit F)) × (w2 : W) × (s.plan question
            persona model w
          ≡ (ok p, w1))
        × (s.search question p.scope (budget_for depth).top_n w1 ≡ (ok found, w2))
        × IsBacked
            (ask_of F W J C L s question persona depth model w)
            p
            (flow_hits F W J C L s s.flows p.anchors ++ found)
            w2
            a
  unfolding stream
  stream-IsBacked question persona depth model none w a e mode =
      let ask = ask_of F W J C L s question persona depth model w in
      synthesized-IsBacked ask w (fresh F W J C L s ask none w).answered a
        (fresh-IsComputed ask none w) e mode
  stream-IsBacked question persona depth model (some es) w a e mode =
      let ask = ask_of F W J C L s question persona depth model w in
      looked_up-IsBacked ask es w (cache_get F L question s.commit_sha persona depth model es) a e
        mode
