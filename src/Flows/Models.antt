-- ===== src/Flows/Models.antt =====
-- backend/flows/models.py, the candidate of backend/flows/identify.py, and the store of
-- backend/flows/review.py. A moment is a number.
use vectural.Prelude.{
  ℕ, Bool, true, false, String, Option, List, keep, some_of, contains, string_key, ◌&&◌,
}
use vectural.Prelude.Dict
use vectural.Prelude.Dict.{Dict}
use vectural.Prelude.Sort
use vectural.Prelude.Text.{str_le}

pub data ReviewStatus : Type 0 where
  pending needs_review approved changes_requested rejected : ReviewStatus

pub record FlowNarrative : Type 0 where
  pub id : String
  pub title : String
  pub services : List String
  pub trigger : String
  pub signature : String
  pub text : String
  pub summary : String
  pub prompt_version : String
  pub content_hash : String
  pub status : ReviewStatus
  -- none, or the reason given
  pub review_reason : Option String
  pub last_approved_text : Option String
  pub last_approved_by : Option String
  pub last_approved_at : Option ℕ
  pub updated_at : ℕ

abbrev pub is_approved : ReviewStatus → Bool
is_approved approved = true
is_approved _ = false

abbrev pub is_authoritative : FlowNarrative → Bool
is_authoritative n = is_approved n.status

awaits_review : ReviewStatus → Bool
awaits_review pending = true
awaits_review needs_review = true
awaits_review _ = false

unfoldable pub in_review_queue : FlowNarrative → Bool
unfolding awaits_review
in_review_queue n = awaits_review n.status

pub record FlowCandidate : Type 0 where
  pub id : String
  pub title : String
  pub services : List String
  pub trigger : String
  pub signature : String

-- `InMemoryFlowStore._rows`
abbrev pub FlowStore : Type 0
FlowStore = Dict String FlowNarrative

abbrev pub by_id : FlowNarrative → FlowNarrative → Bool
by_id m n = str_le m.id n.id

unfoldable pub upsert : FlowNarrative → FlowStore → FlowStore
upsert n store = Dict.set n.id n store

unfoldable pub all : FlowStore → List FlowNarrative
all store = Sort.sorted by_id (Dict.values store)

-- `InMemoryFlowStore.queue` and `FlowNarrativeService.queue`
unfoldable pub queue : FlowStore → List FlowNarrative
queue store = keep in_review_queue (all store)

-- `services.intersection(narrative.services)` is not empty
abbrev pub touches : List String → FlowNarrative → Bool
touches services n = some_of (λ s. contains s services) n.services

unfoldable pub authoritative_for : List String → FlowStore → List FlowNarrative
authoritative_for services store = keep (λ n. is_authoritative n && touches services n) (all store)
