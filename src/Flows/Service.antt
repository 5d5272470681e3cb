-- ===== src/Flows/Service.antt =====
-- backend/flows/service.py: `FlowNarrativeService`. The service's store and the outside world `W`
-- are passed along, and `clock` reads the time in `W`.
pub mod Invalidation
pub mod Generation
use vectural.Prelude.{
  ℕ, suc, ◌+◌, Bool, true, false, String, Option, none, some, List, [], ◌∷◌, ◌++◌, keep, contains,
  Key, string_key, ◌==◌, ◌&&◌, if◌then◌else◌,
}
use vectural.Prelude.Float.{Floats}
use vectural.Prelude.Text.{join, str_le}
use vectural.Prelude.Sort
use vectural.Prelude.Dict
use vectural.Prelude.Dict.{Dict}
use vectural.Llm.Failures.{Result, ok, raised}
use vectural.Llm.Catalog.{Catalog}
use vectural.Llm.Router.{Router}
use vectural.Flows.Models.{
  ReviewStatus, pending, needs_review, approved, changes_requested, rejected, FlowNarrative,
  FlowCandidate, FlowStore, upsert, all, is_authoritative, touches,
}
use vectural.Flows.Generate.{GeneratedNarrative, content_hash, generate_narrative}

pub record GenerateReport : Type 0 where
  pub created : ℕ
  pub regenerated : ℕ
  pub skipped : ℕ
  pub ids : List String

-- none stands for `FlowNotFoundError`
unfoldable pub set_status :
    String → ReviewStatus → Option String → ℕ → FlowStore → Option FlowNarrative × FlowStore
set_status flow_id status reason now store = elim (Dict.get flow_id store) [
  | none ↦ (none, store)
  | some n ↦
      let updated = record n { status = status; review_reason = reason; updated_at = now } in
      (some updated, upsert updated store)
]

unfoldable pub approve : String → String → ℕ → FlowStore → Option FlowNarrative × FlowStore
approve flow_id by now store = elim (Dict.get flow_id store) [
  | none ↦ (none, store)
  | some n ↦
      let updated = record n {
        status = approved;
        review_reason = none;
        last_approved_text = some n.text;
        last_approved_by = some by;
        last_approved_at = some now;
        updated_at = now;
      } in
      (some updated, upsert updated store)
]

unfoldable pub request_changes : String → String → ℕ → FlowStore → Option FlowNarrative × FlowStore
unfolding set_status
request_changes flow_id reason now store =
    set_status flow_id changes_requested (some reason) now store

unfoldable pub reject : String → Option String → ℕ → FlowStore → Option FlowNarrative × FlowStore
unfolding set_status
reject flow_id reason now store = set_status flow_id rejected reason now store

-- `changed_services.intersection(narrative.services)`, sorted
overlap : List String → FlowNarrative → List String
overlap changed n = Sort.sorted str_le (keep (λ s. contains s n.services) changed)

unfoldable pub change_reason : List String → String
change_reason services =
    join "" ("code changed in " ∷ join ", " services ∷ " since last approval" ∷ [])

-- one round of `invalidate_on_change`
invalidate_one : List String → ℕ → FlowNarrative → FlowStore → FlowStore
unfolding set_status overlap change_reason
invalidate_one changed now n store =
    if is_authoritative n && touches changed n
    then (set_status n.id needs_review (some (change_reason (overlap changed n))) now store).1
    else store

invalidate_loop : List String → ℕ → List FlowNarrative → FlowStore → FlowStore
unfolding invalidate_one
invalidate_loop changed now [] store = store
invalidate_loop changed now (n ∷ ns) store =
    invalidate_loop changed now ns (invalidate_one changed now n store)

affected_ids : List String → List FlowNarrative → List String
affected_ids changed [] = []
affected_ids changed (n ∷ ns) =
    let rest = affected_ids changed ns in
    if is_authoritative n && touches changed n then n.id ∷ rest else rest

-- the narratives affected, and the store after the loop over the snapshot that `all` takes
unfoldable pub invalidate_on_change : List String → ℕ → FlowStore → List String × FlowStore
unfolding invalidate_loop affected_ids
invalidate_on_change changed now store =
    let snapshot = all store in
    (affected_ids changed snapshot, invalidate_loop changed now snapshot store)

-- `evidence_for`, by the narratives that become hits
unfoldable pub evidence_for : List String → FlowStore → List FlowNarrative
evidence_for anchors store = keep (λ n. is_authoritative n && touches anchors n) (all store)

unfoldable pub created_narrative : FlowCandidate → GeneratedNarrative → String → ℕ → FlowNarrative
created_narrative c g version now = record {
  id = c.id;
  title = c.title;
  services = c.services;
  trigger = c.trigger;
  signature = c.signature;
  text = g.text;
  summary = g.summary;
  prompt_version = version;
  content_hash = g.content_hash;
  status = pending;
  review_reason = none;
  last_approved_text = none;
  last_approved_by = none;
  last_approved_at = none;
  updated_at = now;
}

unfoldable pub regenerated_narrative : FlowNarrative → GeneratedNarrative → ℕ → FlowNarrative
regenerated_narrative n g now = record n {
  text = g.text;
  summary = g.summary;
  content_hash = g.content_hash;
  status = pending;
  review_reason = none;
  updated_at = now;
}

-- what is written for a candidate, and how the report counts it
unfoldable pub written :
    Option FlowNarrative → FlowCandidate → GeneratedNarrative → String → ℕ → FlowNarrative
unfolding created_narrative regenerated_narrative
written none c g version now = created_narrative c g version now
written (some n) c g version now = regenerated_narrative n g now

unfoldable pub counted : Option FlowNarrative → String → GenerateReport → GenerateReport
counted none id report = record report { created = report.created + 1; ids = report.ids ++ id ∷ [] }
counted (some n) id report = record report {
  regenerated = report.regenerated + 1;
  ids = report.ids ++ id ∷ [];
}

-- `existing is not None and existing.content_hash == new_hash`
unfoldable pub is_current : String → Option FlowNarrative → Bool
is_current hash none = false
is_current hash (some n) = n.content_hash == hash

module _ (F : Floats) (W J : Type 0) (sha : String → String) (field : String → J → String)
    (r : Router F W J) (catalog : Catalog) (summaries : Dict String String) (version : String)
    (clock : W → ℕ) where
  -- the rest of a round once the narrative is generated; `rest` is the loop from there
  unfoldable pub store_generated :
      FlowCandidate
      → GenerateReport
      → FlowStore
      → W
      → (GenerateReport → FlowStore → Result GenerateReport × FlowStore × W)
      → Result GeneratedNarrative
      → Result GenerateReport × FlowStore × W
  store_generated c report store w rest (raised f) = (raised f, store, w)
  store_generated c report store w rest (ok g) =
      let existing = Dict.get c.id store in
      rest (counted existing c.id report) (upsert (written existing c g version (clock w)) store)

  -- The loop of `generate`. A failure of the router ends it, with what was stored before in place.
  unfoldable pub generate_loop :
      List FlowCandidate → GenerateReport → FlowStore → W → Result GenerateReport × FlowStore × W
  unfolding written counted is_current store_generated
  generate_loop [] report store w = (ok report, store, w)
  generate_loop (c ∷ cs) report store w =
      let skip = generate_loop cs (record report { skipped = report.skipped + 1 }) store w in
      let (generated, w') = generate_narrative F W J sha field r catalog summaries version c w in
      let spend =
        store_generated c report store w' (λ report' store'. generate_loop cs report' store' w')
          generated in
      if is_current (content_hash sha c.signature version) (Dict.get c.id store)
      then skip
      else spend

  unfoldable pub generate :
      List FlowCandidate → FlowStore → W → Result GenerateReport × FlowStore × W
  unfolding generate_loop
  generate cs store w =
      generate_loop cs (record { created = 0; regenerated = 0; skipped = 0; ids = [] }) store w
