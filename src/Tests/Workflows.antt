-- ===== src/Tests/Workflows.antt =====
-- Runs of the indexing workflow over three services, one to a run.
use vectural.Prelude.{false, none, ℕ, ◌+◌, String, List, [], ◌∷◌, arith}
use vectural.Llm.Failures.{Result, ok}
use vectural.Quota.Ledger.{QuotaPool}
use vectural.Orchestration.Workflow.{IndexingDeps, Run, run_indexing, drive}
use vectural.Orchestration.Workflow.Progress.{
  queue, IsProgress, Driven, run_indexing-IsProgress, drive_total,
}
use vectural.Tests.Tenths.{tenths}
use vectural.Tests.QuotaRuns.{pool}

abbrev spend : String → List ℕ → ℕ → ℕ → Result (Unit {0}) × ℕ
spend service files today spent = (ok tt, spent + 100)

abbrev world_pool : ℕ → QuotaPool tenths
world_pool spent = record pool { spent_indexing = spent }

abbrev deps : IndexingDeps tenths ℕ ℕ
deps = record {
  summarise_service = spend;
  pool = world_pool;
  cost_of = λ files. 100;
  services_per_run = 1;
}

abbrev start : Run tenths ℕ ℕ
start = record {
  state = record {
    pending_services = "billing" ∷ "ledger" ∷ "payments" ∷ [];
    completed_services = [];
    parked = false;
    park_reason = none;
    run_count = 0;
  };
  world = 0;
  saved = [];
}

run_indexing-IsProgress_example :
    IsProgress tenths ℕ ℕ deps [] 100
      (queue start.state)
      start.state.pending_services
      (run_indexing tenths ℕ ℕ deps [] 100 start)
run_indexing-IsProgress_example = run_indexing-IsProgress tenths ℕ ℕ deps [] 100 start tt

drive_total_example :
    Driven tenths ℕ ℕ deps [] 100
      (queue start.state)
      start.state.pending_services
      (drive tenths ℕ ℕ deps [] 100 4 start)
drive_total_example = drive_total tenths ℕ ℕ deps [] 100 4 start (omega arith) tt
