-- ===== src/Answer/Service/Caching.antt =====
-- The cache in backend/answer/service.py: what a question puts there, and that asking again finds it.
use vectural.Prelude.{
  ℕ, ◌≡◌, refl, sym, ap, ◌∙◌, subst, Bool, true, false, not, ◌&&◌, String, Option, none, some, List,
  [], ◌∷◌, ◌++◌, if_ind, if◌then◌else◌,
}
use vectural.Prelude.Float.{Floats}
use vectural.Domain.{Persona, Depth}
use vectural.Llm.Failures.{Result, ok, raised}
use vectural.Llm.Router.{RoutedResponse}
use vectural.Citations.{SearchHit, Citation, resolve_citations}
use vectural.Answer.Models.{
  AnswerMode, synthesized, instant, Answer, synthesized_answer, refusal, budget_for,
}
use vectural.Answer.Cache.{Likeness, Entry, cache_get, cache_put}
use vectural.Answer.Cache.Hits.{get-put}
use vectural.Answer.Plan.{RetrievalPlan}
use vectural.Answer.Service.{Service, Ask, measured}
use vectural.Answer.Service.Stages.{
  Draft, Cached, Out, is_stale_for, stored, claims_of, release, refuse, on_claims, judged, ground,
  cite, drafted, first_draft, ask_draft, synthesise, refuse_empty, with_hits, flow_hits, retrieved,
  planned, fresh, instant_answer, looked_up, stream, ask_of,
}

module _ (F : Floats) (W J C : Type 0) (L : Likeness F) (s : Service F W J C L) where
  abbrev is_synthesized : AnswerMode → Bool
  is_synthesized synthesized = true
  is_synthesized _ = false

  -- the cache after an outcome
  abbrev pub cache_after :
      Ask F W J C L → Cached F W J C L s → Result (Answer F) → Cached F W J C L s
  cache_after ask cache (raised f) = cache
  cache_after ask cache (ok a) =
      if is_synthesized a.mode && not a.stale then stored F W J C L s ask a cache else cache

  IsKept : Ask F W J C L → Cached F W J C L s → Out F W J C L s → Type 0
  IsKept ask cache o = o.cache ≡ cache_after ask cache o.answered

  release-IsKept :
      (ask : Ask F W J C L) (d : Draft F W J C L s) (resolved : List (Citation F))
      (cache : Cached F W J C L s) (w : W)
      → IsKept ask cache (release F W J C L s ask d resolved cache w)
  unfolding release measured synthesized_answer IsKept
  release-IsKept ask d resolved cache w =
      if_ind (IsKept ask cache) (is_stale_for F W J C L s s.freshness d.plan.anchors) (λ e. refl)
        (λ e. refl)

  refuse-IsKept :
      (ask : Ask F W J C L) (d : Draft F W J C L s) (reason : String) (n : ℕ)
      (cache : Cached F W J C L s) (w : W)
      → IsKept ask cache (refuse F W J C L s ask d reason n cache w)
  unfolding refuse measured refusal IsKept
  refuse-IsKept ask d reason n cache w = refl

  on_claims-IsKept :
      (ask : Ask F W J C L) (d : Draft F W J C L s) (resolved : List (Citation F))
      (cache : Cached F W J C L s) (w : W) (claims : List String)
      → IsKept ask cache (on_claims F W J C L s ask d resolved cache w claims)
  unfolding on_claims IsKept
  on_claims-IsKept ask d resolved cache w [] = release-IsKept ask d resolved cache w
  on_claims-IsKept ask d resolved cache w (c ∷ cs) = refuse-IsKept ask d _ _ cache w

  judged-IsKept :
      (ask : Ask F W J C L) (d : Draft F W J C L s) (resolved : List (Citation F))
      (cache : Cached F W J C L s) (response : Result (RoutedResponse J) × W)
      → IsKept ask cache (judged F W J C L s ask d resolved cache response)
  unfolding judged IsKept
  judged-IsKept ask d resolved cache (raised f, w) = refl
  judged-IsKept ask d resolved cache (ok v, w) =
      on_claims-IsKept ask (record d { usage = d.usage ++ v.usage ∷ [] }) resolved cache w
        (claims_of F W J C L s v.parsed)

  drafted-IsKept :
      (ask : Ask F W J C L) (d : Draft F W J C L s) (cache : Cached F W J C L s)
      (response : Result (RoutedResponse J) × W)
      → IsKept ask cache (drafted F W J C L s ask d cache response)
  unfolding drafted cite ground IsKept
  drafted-IsKept ask d cache (raised f, w) = refl
  drafted-IsKept ask d cache (ok response, w) =
      let d' = record d { usage = d.usage ++ response.usage ∷ []; text = response.text } in
      let resolution = resolve_citations F s.markers_of d'.text d'.hits in
      if_ind (IsKept ask cache) resolution.ok
        (λ e. judged-IsKept ask d' resolution.resolved cache _)
        (λ e. refuse-IsKept ask d' _ _ cache w)

  with_hits-IsKept :
      (ask : Ask F W J C L) (p : RetrievalPlan) (cache : Cached F W J C L s)
      (hits : List (SearchHit F)) (w : W)
      → IsKept ask cache (with_hits F W J C L s ask p cache hits w)
  unfolding with_hits synthesise refuse_empty measured refusal IsKept
  with_hits-IsKept ask p cache [] w = refl
  with_hits-IsKept ask p cache (h ∷ hs) w =
      let d = first_draft F W J C L s ask p (h ∷ hs) in
      drafted-IsKept ask d cache (ask_draft F W J C L s ask d w)

  planned-IsKept :
      (ask : Ask F W J C L) (cache : Cached F W J C L s) (made : Result RetrievalPlan × W)
      → IsKept ask cache (planned F W J C L s ask cache made)
  unfolding planned IsKept
  planned-IsKept ask cache (raised f, w) = refl
  planned-IsKept ask cache (ok p, w) =
      searched (s.search ask.question p.scope (budget_for ask.depth).top_n w)
    where
      searched :
          (hits : Result (List (SearchHit F)) × W)
          → IsKept ask cache (retrieved F W J C L s ask p cache hits)
      searched (raised f, w') = refl
      searched (ok hits, w') =
          with_hits-IsKept ask p cache (flow_hits F W J C L s s.flows p.anchors ++ hits) w'

  looked_up-IsKept :
      (ask : Ask F W J C L) (es : List (Entry F L)) (w : W) (o : Option (Answer F))
      → IsKept ask (some es) (looked_up F W J C L s ask es w o)
  unfolding looked_up fresh instant_answer measured IsKept
  looked_up-IsKept ask es w (some cached) = refl
  looked_up-IsKept ask es w none =
      planned-IsKept ask (some es) (s.plan ask.question ask.persona ask.model w)

  -- A question adds its answer to the cache exactly where it was synthesized and is not stale: a
  -- refusal, a stale answer, an answer from the cache and a failure leave the cache as it was.
  pub stream_cache :
      (question : String) (persona : Persona) (depth : Depth) (model : Option String)
      (cache : Cached F W J C L s) (w : W)
      → let o = stream F W J C L s question persona depth model cache w in
        o.cache ≡ cache_after (ask_of F W J C L s question persona depth model w) cache o.answered
  unfolding stream IsKept fresh
  stream_cache question persona depth model none w =
      planned-IsKept (ask_of F W J C L s question persona depth model w) none
        (s.plan question persona model w)
  stream_cache question persona depth model (some es) w =
      looked_up-IsKept (ask_of F W J C L s question persona depth model w) es w
        (cache_get F L question s.commit_sha persona depth model es)

  found_again :
      (ask : Ask F W J C L) (es : List (Entry F L)) (w : W) (o : Option (Answer F))
      → ((a : Answer F) × (o ≡ some a))
      → (b : Answer F) × ((looked_up F W J C L s ask es w o).answered ≡ ok b)
        × (b.mode ≡ instant)
        × ((looked_up F W J C L s ask es w o).world ≡ w)
  unfolding looked_up instant_answer measured
  found_again ask es w (some a) h = (instant_answer F W J C L s ask w a, refl, refl, refl)
  found_again ask es w none h = absurd (cc h.1)

  answered_again :
      (question : String) (persona : Persona) (depth : Depth) (model : Option String)
      (es : List (Entry F L)) (later : W) (a : Answer F) (cache : Cached F W J C L s)
      → cache ≡ some (cache_put F L question s.commit_sha persona a depth model es)
      → F.le L.threshold (L.cosine (L.embed question) (L.embed question)) ≡ true
      → let o = stream F W J C L s question persona depth model cache later in
        (b : Answer F) × (o.answered ≡ ok b) × (b.mode ≡ instant) × (o.world ≡ later)
  unfolding stream
  answered_again question persona depth model es later a none e like = absurd (cc e)
  answered_again question persona depth model es later a (some cs) e like =
      let same : cs ≡ cache_put F L question s.commit_sha persona a depth model es = cc e in
      found_again (ask_of F W J C L s question persona depth model later) cs later
        (cache_get F L question s.commit_sha persona depth model cs)
        (subst
          (λ ds.
            (b : Answer F) × (cache_get F L question s.commit_sha persona depth model ds ≡ some b))
          (sym same) (get-put F L s.commit_sha persona depth model question a es like))

  cached_answer :
      (ask : Ask F W J C L) (es : List (Entry F L)) (a : Answer F)
      → a.mode ≡ synthesized
      → a.stale ≡ false
      → cache_after ask (some es) (ok a)
        ≡ some (cache_put F L ask.question s.commit_sha ask.persona a ask.depth ask.model es)
  unfolding stored
  cached_answer ask es a mode current =
      ap
        (λ (t : AnswerMode × Bool).
          if is_synthesized t.0 && not t.1 then stored F W J C L s ask a (some es) else some es)
        (λ i. (mode i, current i))

  -- Asked again, of the same persona, depth and model and at the same commit, a question whose
  -- answer was synthesized and is not stale is answered from the cache, and no collaborator is
  -- called, where an embedding is as like itself as the threshold asks.
  pub ask_again :
      (question : String) (persona : Persona) (depth : Depth) (model : Option String)
      (es : List (Entry F L)) (w later : W) (a : Answer F)
      → (stream F W J C L s question persona depth model (some es) w).answered ≡ ok a
      → a.mode ≡ synthesized
      → a.stale ≡ false
      → F.le L.threshold (L.cosine (L.embed question) (L.embed question)) ≡ true
      → let cache = (stream F W J C L s question persona depth model (some es) w).cache in
        let o = stream F W J C L s question persona depth model cache later in
        (b : Answer F) × (o.answered ≡ ok b) × (b.mode ≡ instant) × (o.world ≡ later)
  ask_again question persona depth model es w later a e mode current like =
      let ask = ask_of F W J C L s question persona depth model w in
      answered_again question persona depth model es later a
        (stream F W J C L s question persona depth model (some es) w).cache
        (stream_cache question persona depth model (some es) w
          ∙ ap (cache_after ask (some es)) e
          ∙ cached_answer ask es a mode current)
        like
