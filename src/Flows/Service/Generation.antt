-- ===== src/Flows/Service/Generation.antt =====
-- `generate` of backend/flows/service.py: unchanged flows are not paid for twice, and nothing that
-- it writes is approved.
use vectural.Prelude.{
  ℕ, ◌+◌, ◌≡◌, refl, ◌∙◌, true, false, String, Option, none, some, List, [], ◌∷◌, string_key, arith,
  All, Option-cases, inl, inr, ==_refl, if_ind, length,
}
use vectural.Prelude.Float.{Floats}
use vectural.Prelude.Dict
use vectural.Prelude.Dict.{Dict}
use vectural.Llm.Failures.{Result, ok, raised}
use vectural.Llm.Catalog.{Catalog}
use vectural.Llm.Router.{Router}
use vectural.Flows.Models.{FlowNarrative, FlowCandidate, FlowStore, upsert, is_authoritative}
use vectural.Flows.Generate.{
  GeneratedNarrative, content_hash, generate_narrative, generate_narrative-hash,
}
use vectural.Flows.Service.{
  GenerateReport, generate_loop, generate, store_generated, written, is_current,
}
use vectural.Flows.Service.Invalidation.{IsKeyed, upsert-IsKeyed, get-upsert}

written-id :
    (store : FlowStore) (c : FlowCandidate) (g : GeneratedNarrative) (version : String) (now : ℕ)
    → IsKeyed store
    → (written (Dict.get c.id store) c g version now).id ≡ c.id
unfolding written
written-id store c g version now keyed = elim (Option-cases (Dict.get c.id store)) [
  | inl absent ↦ ground (arith, absent)
  | inr (n, found) ↦ ground (arith, found, keyed.own_id c.id n found)
]

written_lem :
    (existing : Option FlowNarrative) (c : FlowCandidate) (g : GeneratedNarrative)
    (version : String) (now : ℕ)
    → ((written existing c g version now).content_hash ≡ g.content_hash)
      × (is_authoritative (written existing c g version now) ≡ false)
unfolding written
written_lem none c g version now = (refl, refl)
written_lem (some n) c g version now = (refl, refl)

module _ (F : Floats) (W J : Type 0) (sha : String → String) (field : String → J → String)
    (r : Router F W J) (catalog : Catalog) (summaries : Dict String String) (version : String)
    (clock : W → ℕ) where
  abbrev run :
      List FlowCandidate → GenerateReport → FlowStore → W → Result GenerateReport × FlowStore × W
  run = generate_loop F W J sha field r catalog summaries version clock

  -- The store holds this candidate's narrative, at its present structure and prompt.
  abbrev pub IsStored : FlowStore → FlowCandidate → Type 0
  IsStored store c = is_current (content_hash sha c.signature version) (Dict.get c.id store) ≡ true

  module _ (signature_of : String → String) where
    IsStored-upsert_self :
        (store : FlowStore) (c : FlowCandidate) (g : GeneratedNarrative) (now : ℕ)
        → IsKeyed store
        → g.content_hash ≡ content_hash sha c.signature version
        → IsStored (upsert (written (Dict.get c.id store) c g version now) store) c
    unfolding is_current
    IsStored-upsert_self store c g now keyed hash =
        let n = written (Dict.get c.id store) c g version now in
        ground (
          arith,
          get-upsert n c.id store,
          written-id store c g version now keyed,
          ==_refl c.id,
          ==_refl (content_hash sha c.signature version),
          (written_lem (Dict.get c.id store) c g version now).0,
          hash,
        )

    IsStored-upsert :
        (store : FlowStore) (c d : FlowCandidate) (g : GeneratedNarrative) (now : ℕ)
        → IsKeyed store
        → c.signature ≡ signature_of c.id
        → d.signature ≡ signature_of d.id
        → g.content_hash ≡ content_hash sha c.signature version
        → IsStored store d
        → IsStored (upsert (written (Dict.get c.id store) c g version now) store) d
    unfolding is_current
    IsStored-upsert store c d g now keyed sc sd hash before =
        let n = written (Dict.get c.id store) c g version now in
        ground (
          arith,
          before,
          get-upsert n d.id store,
          written-id store c g version now keyed,
          string_key.same_iff c.id d.id,
          ==_refl (content_hash sha d.signature version),
          (written_lem (Dict.get c.id store) c g version now).0,
          hash,
        )

    abbrev Signed : FlowCandidate → Type 0
    Signed c = c.signature ≡ signature_of c.id

    -- After a run that did not fail, all its candidates are stored, and what was stays stored.
    abbrev After : List FlowCandidate → FlowStore → Result GenerateReport × FlowStore × W → Type 0
    After cs store out =
        (done : GenerateReport)
        → out.0 ≡ ok done
        → All (IsStored out.1) cs
          × ((d : FlowCandidate) → Signed d → IsStored store d → IsStored out.1 d)

    store_generated-After :
        (c : FlowCandidate) (cs : List FlowCandidate) (report : GenerateReport) (store : FlowStore)
        (w : W) (rest : GenerateReport → FlowStore → Result GenerateReport × FlowStore × W)
        (generated : Result GeneratedNarrative)
        → IsKeyed store
        → Signed c
        → ((g : GeneratedNarrative)
            → generated ≡ ok g
            → g.content_hash ≡ content_hash sha c.signature version)
        → ((report' : GenerateReport) (store' : FlowStore)
            → IsKeyed store'
            → After cs store' (rest report' store'))
        → After (c ∷ cs) store (
            store_generated F W J sha field r catalog summaries version clock c report store w rest
              generated)
    unfolding store_generated
    store_generated-After c cs report store w rest (raised f) keyed sc hash ih done e = cc
    store_generated-After c cs report store w rest (ok g) keyed sc hash ih done e =
        let n = written (Dict.get c.id store) c g version (clock w) in
        let (stored, kept) = ih _ (upsert n store) (upsert-IsKeyed n store keyed) done e in
        (
          (kept c sc (IsStored-upsert_self store c g (clock w) keyed (hash g refl)), stored),
          λ d sd before.
              kept d sd (IsStored-upsert store c d g (clock w) keyed sc sd (hash g refl) before),
        )

    loop-After :
        (cs : List FlowCandidate) (report : GenerateReport) (store : FlowStore) (w : W)
        → IsKeyed store
        → All Signed cs
        → After cs store (run cs report store w)
    unfolding generate_loop
    loop-After [] report store w keyed signed = λ done e. (tt, λ d sd h. h)
    loop-After (c ∷ cs) report store w keyed signed =
        let made = generate_narrative F W J sha field r catalog summaries version c w in
        if_ind (After (c ∷ cs) store)
          (is_current (content_hash sha c.signature version) (Dict.get c.id store))
          (λ current done e.
            let (stored, kept) =
              loop-After cs (record report { skipped = report.skipped + 1 }) store w keyed signed.1
                done e in
            ((kept c signed.0 current, stored), kept))
          (λ _.
            store_generated-After c cs report store made.1
              (λ report' store'. run cs report' store' made.1) made.0 keyed signed.0
              (λ g e. generate_narrative-hash F W J sha field r catalog summaries version c w g e)
              (λ report' store' keyed'. loop-After cs report' store' made.1 keyed' signed.1))

  -- A run over stored candidates skips them all: no call, and nothing written.
  loop_skips :
      (cs : List FlowCandidate) (report : GenerateReport) (store : FlowStore) (w : W)
      → All (IsStored store) cs
      → run cs report store w
        ≡ (ok (record report { skipped = report.skipped + length cs }), store, w)
  unfolding generate_loop
  loop_skips [] report store w h = ground arith
  loop_skips (c ∷ cs) report store w h =
      ground
        (arith, h.0, loop_skips cs (record report { skipped = report.skipped + 1 }) store w h.1)

  -- Generating the same candidates once more, after a run that did not fail, skips each of them: it
  -- calls no model, changes nothing outside and writes nothing. The store is of the form that the
  -- service keeps, and candidates with one id have one signature.
  pub generate_again :
      (signature_of : String → String) (cs : List FlowCandidate) (store : FlowStore) (w : W)
      (done : GenerateReport)
      → IsKeyed store
      → All (λ c. c.signature ≡ signature_of c.id) cs
      → (generate F W J sha field r catalog summaries version clock cs store w).0 ≡ ok done
      → let (_, store', w') =
          generate F W J sha field r catalog summaries version clock cs store w in
        generate F W J sha field r catalog summaries version clock cs store' w'
        ≡ (ok (record { created = 0; regenerated = 0; skipped = length cs; ids = [] }), store', w')
  unfolding generate
  generate_again signature_of cs store w done keyed signed e =
      let start : GenerateReport = record { created = 0; regenerated = 0; skipped = 0; ids = [] } in
      let (stored, _) = loop-After signature_of cs start store w keyed signed done e in
      loop_skips cs start _ _ stored ∙ ground arith
