-- ===== src/Orchestration/State.antt =====
-- backend/orchestration/state.py: the checkpoint of an indexing run, and its store.
use vectural.Prelude.{
  ℕ, Bool, true, false, String, Option, none, some, List, [], ◌∷◌, ◌++◌, string_key,
}
use vectural.Prelude.Dict
use vectural.Prelude.Dict.{Dict}
use vectural.Quota.Governor.{Reason}

pub record WorkflowState : Type 0 where
  pub pending_services : List String
  pub completed_services : List String
  pub parked : Bool
  pub park_reason : Option Reason
  pub run_count : ℕ

unfoldable pub initial : List String → WorkflowState
initial services = record {
  pending_services = services;
  completed_services = [];
  parked = false;
  park_reason = none;
  run_count = 0;
}

unfoldable pub done : WorkflowState → Bool
done s = elim s.pending_services [ [] ↦ true | x ∷ xs ↦ false ]

unfoldable pub next_service : WorkflowState → Option String
next_service s = elim s.pending_services [ [] ↦ none | x ∷ xs ↦ some x ]

complete_first : List String → WorkflowState → WorkflowState
complete_first [] s = s
complete_first (service ∷ rest) s = record s {
  pending_services = rest;
  completed_services = s.completed_services ++ service ∷ [];
  parked = false;
  park_reason = none;
}

-- Called only with a service pending; Python's `pop(0)` raises without one.
unfoldable pub complete_current : WorkflowState → WorkflowState
unfolding complete_first
complete_current s = complete_first s.pending_services s

-- `InMemoryWorkflowStore`: a copy in and a copy out, so that no later change reaches what is saved
abbrev pub WorkflowStore : Type 0
WorkflowStore = Dict String WorkflowState

unfoldable pub save : String → WorkflowState → WorkflowStore → WorkflowStore
save workflow_id s store = Dict.set workflow_id s store

unfoldable pub load : String → WorkflowStore → Option WorkflowState
load workflow_id store = Dict.get workflow_id store
