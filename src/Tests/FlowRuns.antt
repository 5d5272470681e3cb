-- ===== src/Tests/FlowRuns.antt =====
-- Runs of the flow narratives and of the coverage view, on two flows.
use vectural.Prelude.{
  ℕ, ◌≡◌, ◌≢◌, ◌≤◌, ◌↔◌, refl, false, String, none, some, [], ◌∷◌, All, arith, string_key,
}
use vectural.Prelude.Dict
use vectural.Prelude.Dict.{Dict, IsDistinct}
use vectural.Prelude.Text.{join}
use vectural.Llm.Failures.{Result, ok, should_retry}
use vectural.Llm.Catalog.{initial, find, task_uses_json}
use vectural.Llm.Router.{route}
use vectural.Flows.Models.{approved, FlowNarrative, FlowCandidate, FlowStore, touches}
use vectural.Flows.Generate.{GeneratedNarrative, content_hash, generate_narrative}
use vectural.Flows.Service.{
  GenerateReport, generate, generate_loop, evidence_for, invalidate_on_change,
}
use vectural.Flows.Service.Invalidation.{IsKeyed, evidence-invalidate}
use vectural.Flows.Service.Generation.{generate_again}
use vectural.Coverage.{Sources, tier_of}
use vectural.Coverage.Tiers.{tier_four_iff, tier_of-invalidate}
use vectural.Tests.Tenths.{tenths}
use vectural.Tests.ModelCalls.{World, router, fresh}

abbrev refund : FlowNarrative
refund = record {
  id = "flow-1";
  title = "Refund";
  services = "payments" ∷ "ledger" ∷ [];
  trigger = "POST /refund";
  signature = "payments>ledger";
  text = "A refund.";
  summary = "Refund";
  prompt_version = "flow-v0";
  content_hash = "old";
  status = approved;
  review_reason = none;
  last_approved_text = some "A refund.";
  last_approved_by = some "ana";
  last_approved_at = some 1;
  updated_at = 1;
}

abbrev store : FlowStore
store = ("flow-1", refund) ∷ []

one_key : (k : String) (n : FlowNarrative) → Dict.get k store ≡ some n → n.id ≡ k
unfolding Dict.get
one_key k n e = ground (arith, e, string_key.same_iff "flow-1" k)

distinct : IsDistinct store
unfolding Dict.get
distinct = (refl, tt)

keyed : IsKeyed store
keyed = record { own_id = one_key; distinct = distinct }

evidence-invalidate_example :
    IsKeyed (invalidate_on_change ("ledger" ∷ []) 5 store).1
    × All
        (λ n. touches ("ledger" ∷ []) n ≡ false)
        (evidence_for ("payments" ∷ []) (invalidate_on_change ("ledger" ∷ []) 5 store).1)
evidence-invalidate_example = evidence-invalidate ("ledger" ∷ []) 5 store ("payments" ∷ []) keyed

abbrev candidate : FlowCandidate
candidate = record {
  id = "flow-1";
  title = "Refund";
  services = "payments" ∷ "ledger" ∷ [];
  trigger = "POST /refund";
  signature = "payments>ledger";
}

abbrev text_of : GeneratedNarrative
text_of = record { text = "A refund, again."; summary = "Refund"; content_hash = "new" }

abbrev sha : String → String
sha s = s

abbrev run : Result GenerateReport × FlowStore × World
run =
    generate tenths World ℕ sha (λ key j. "text") router initial [] "flow-v1" (λ w. 0)
      (candidate ∷ []) store fresh

abbrev report : GenerateReport
report = record { created = 0; regenerated = 1; skipped = 0; ids = "flow-1" ∷ [] }

ran : run.0 ≡ ok report
unfolding generate generate_loop Dict.get content_hash join generate_narrative route find
    should_retry task_uses_json
ran = refl

generate_again_example :
    generate tenths World ℕ sha
      (λ key j. "text")
      router
      initial
      []
      "flow-v1"
      (λ w. 0)
      (candidate ∷ [])
      run.1
      run.2
    ≡ (ok (record { created = 0; regenerated = 0; skipped = 1; ids = [] }), run.1, run.2)
generate_again_example =
    generate_again tenths World ℕ sha (λ key j. "text") router initial [] "flow-v1" (λ w. 0)
      (λ id. "payments>ledger") (candidate ∷ []) store fresh report keyed (refl, tt) ran

abbrev sources : Sources
sources = record {
  services = "payments" ∷ "billing" ∷ [];
  file_services = "payments" ∷ [];
  module_keys = "payments/api" ∷ [];
  service_keys = "payments" ∷ [];
  flows = store;
}

tier_four_iff_example :
    (tier_of sources "payments" ≡ 4) ↔ (evidence_for ("payments" ∷ []) store ≢ [])
tier_four_iff_example = tier_four_iff sources "payments"

tier_of-invalidate_example :
    tier_of
      (record sources { flows = (invalidate_on_change ("payments" ∷ []) 5 store).1 })
      "payments"
    ≤ 3
tier_of-invalidate_example = tier_of-invalidate sources "payments" 5 keyed
