-- ===== src/Orchestration/Workflow.antt =====
-- backend/orchestration/workflow.py: `run_indexing` and `drive`. `W` is what an activity changes,
-- the shared pool among it. The checkpoint callback is modelled by the list of states it was given.
pub mod Progress
use vectural.Prelude.{
  ℕ, zero, suc, ◌+◌, Bool, true, false, ◌&&◌, String, Option, none, some, List, [], ◌∷◌, ◌++◌, Key,
  string_key, leb, if◌then◌else◌,
}
use vectural.Prelude.Float.{Floats}
use vectural.Prelude.Dict
use vectural.Prelude.Dict.{Dict}
use vectural.Llm.Failures.{Failure, Result, ok, raised}
use vectural.Quota.Ledger.{QuotaPool}
use vectural.Quota.Governor.{Reason, BudgetDecision, request_indexing_budget}
use vectural.Orchestration.State.{WorkflowState, next_service, complete_current}

pub data Outcome : Type 0 where
  done parked continue : Outcome

module _ (F : Floats) (W File : Type 0) where
  -- `IndexingDeps`. The governor decides on the pool that it finds in `W`.
  pub record IndexingDeps : Type 0 where
    pub summarise_service : String → List File → ℕ → W → Result (Unit {0}) × W
    pub pool : W → QuotaPool F
    pub cost_of : List File → ℕ
    pub services_per_run : ℕ

  -- What a run reads and writes: its state, the outside world, and the checkpoints so far.
  pub record Run : Type 0 where
    pub state : WorkflowState
    pub world : W
    pub saved : List WorkflowState

  checkpoint : Run → Run
  checkpoint r = record r { saved = r.saved ++ r.state ∷ [] }

  -- the decision of the governor before `service` is started
  unfoldable pub approval : IndexingDeps → Dict String (List File) → ℕ → String → W → BudgetDecision
  approval deps services_files today service w =
      request_indexing_budget F (deps.pool w) (deps.cost_of (Dict.get_or service [] services_files))
        today

  park : BudgetDecision → Run → Run
  unfolding checkpoint
  park decision r =
      checkpoint (record r {
        state = record (r.state) { parked = true; park_reason = some decision.reason };
      })

  complete : W → Run → Run
  unfolding checkpoint
  complete w r = checkpoint (record r { state = complete_current r.state; world = w })

  count_run : Run → Run
  unfolding checkpoint
  count_run r =
      checkpoint (record r { state = record (r.state) { run_count = r.state.run_count + 1 } })

  more_pending : List String → Bool
  more_pending [] = false
  more_pending (x ∷ xs) = true

  -- The rest of a round, given the activity's answer: `r'` is the run with the service completed
  -- and `after` is the loop from there.
  close_round :
      IndexingDeps
      → List String
      → ℕ
      → Run
      → W
      → Run
      → Result Outcome × Run
      → Result (Unit {0})
      → Result Outcome × Run
  unfolding count_run more_pending
  close_round deps rest processed r w r' after (raised f) = (raised f, record r { world = w })
  close_round deps rest processed r w r' after (ok _) =
      if leb deps.services_per_run processed && more_pending rest
      then (ok continue, count_run r')
      else after

  -- The loop of `run_indexing`, over the services that are pending when a round begins: only
  -- `complete_current` changes them, by taking the first.
  unfoldable pub run_loop :
      IndexingDeps → Dict String (List File) → ℕ → List String → ℕ → Run → Result Outcome × Run
  unfolding approval park complete close_round
  run_loop deps services_files today [] processed r = (ok done, r)
  run_loop deps services_files today (service ∷ rest) processed r =
      let decision = approval deps services_files today service r.world in
      let (answer, w) =
        deps.summarise_service service (Dict.get_or service [] services_files) today r.world in
      let r' = complete w r in
      let after = run_loop deps services_files today rest (processed + 1) r' in
      if decision.proceed
      then close_round deps rest (processed + 1) r w r' after answer
      else (ok parked, park decision r)

  unfoldable pub run_indexing :
      IndexingDeps → Dict String (List File) → ℕ → Run → Result Outcome × Run
  unfolding run_loop
  run_indexing deps services_files today r =
      run_loop deps services_files today r.state.pending_services 0 r

  -- `drive`, with at most `fuel` re-entries; `none` means that the fuel ran out
  unfoldable pub drive :
      IndexingDeps → Dict String (List File) → ℕ → ℕ → Run → Option (Result Outcome × Run)
  unfolding run_indexing
  drive deps services_files today zero r = none
  drive deps services_files today (suc fuel) r =
      let (outcome, r') = run_indexing deps services_files today r in
      let again = drive deps services_files today fuel r' in
      elim outcome [
        | raised f ↦ some (raised f, r')
        | ok o ↦ elim o [ continue ↦ again | other ↦ some (ok other, r') ]
      ]
