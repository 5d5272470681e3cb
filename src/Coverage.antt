-- ===== src/Coverage.antt =====
-- backend/api/coverage.py: how far each service of the manifest is indexed. The graph is given by the
-- `service` property of its file nodes, and the summaries by the keys of tiers 2 and 3.
pub mod Tiers
use Prim.Native.Char.{Char, code}
use Prim.Native.String
use vectural.Prelude.{
  ℕ, zero, suc, ◌+◌, Bool, true, false, String, Option, none, some, List, [], ◌∷◌, ◌++◌, map, keep,
  contains, Key, string_key, leb, ltb, nat_beq, if◌then◌else◌,
}
use vectural.Prelude.Sort
use vectural.Prelude.Text.{str_le}
use vectural.Prelude.Dict
use vectural.Prelude.Dict.{Dict}
use vectural.Flows.Models.{FlowNarrative, FlowStore, all, is_authoritative}

pub record CoverageRow : Type 0 where
  pub service : String
  pub tier : ℕ
  pub tier_label : String
  pub last_indexed : Option String
  pub next_scheduled : Option String
  pub status : String

-- What `CoverageService` reads.
pub record Sources : Type 0 where
  pub services : List String
  pub file_services : List String
  pub module_keys : List String
  pub service_keys : List String
  pub flows : FlowStore

-- `_TIER_LABEL`
tier_label_of : ℕ → String
tier_label_of tier =
    if nat_beq tier 0
    then "not indexed"
    else if nat_beq tier 1
    then "1 · file"
    else if nat_beq tier 2
    then "2 · module"
    else if nat_beq tier 3
    then "3 · service"
    else "4 · flow"

-- `_files_by_service`
count_files : List String → Dict String ℕ → Dict String ℕ
count_files [] counts = counts
count_files (s ∷ ss) counts = count_files ss (Dict.set s (Dict.get_or s 0 counts + 1) counts)

unfoldable pub files_by_service : List String → Dict String ℕ
unfolding count_files
files_by_service services = count_files services []

-- `key.split("/")[0]`
first_segment : String → String
first_segment String.[] = String.[]
first_segment (String.◌∷◌ c s) =
    let rest = first_segment s in if nat_beq (code c) 47 then String.[] else String.◌∷◌ c rest

-- the services of the narratives that are authoritative
services_of : List FlowNarrative → List String
services_of [] = []
services_of (n ∷ ns) =
    let rest = services_of ns in if is_authoritative n then n.services ++ rest else rest

unfoldable pub approved_flow_services : FlowStore → List String
unfolding services_of
approved_flow_services store = services_of (all store)

-- `_tier_for`
unfoldable pub tier_for : String → Dict String ℕ → List String → List String → List String → ℕ
tier_for name files_by modules summaries approved =
    if contains name approved
    then 4
    else if contains name summaries
    then 3
    else if contains name modules
    then 2
    else if ltb 0 (Dict.get_or name 0 files_by)
    then 1
    else 0

unfoldable pub tier_of : Sources → String → ℕ
unfolding tier_for files_by_service approved_flow_services first_segment
tier_of s name =
    tier_for name (files_by_service s.file_services) (map first_segment s.module_keys)
      s.service_keys (approved_flow_services s.flows)

-- `_status`
unfoldable pub status_of : ℕ → String
status_of tier = if leb 4 tier then "indexed" else if leb 1 tier then "partial" else "not-indexed"

-- `f"tier-{tier + 1}"`, for the tiers below 4
next_tier : ℕ → String
next_tier tier =
    if nat_beq tier 0
    then "tier-1"
    else if nat_beq tier 1
    then "tier-2"
    else if nat_beq tier 2
    then "tier-3"
    else "tier-4"

row : Sources → String → CoverageRow
unfolding tier_of status_of tier_label_of next_tier
row s name =
    let tier = tier_of s name in
    record {
      service = name;
      tier = tier;
      tier_label = tier_label_of tier;
      last_indexed = if leb 1 tier then some "recently" else none;
      next_scheduled = if leb 4 tier then none else some (next_tier tier);
      status = status_of tier;
    }

abbrev pub by_service : CoverageRow → CoverageRow → Bool
by_service a b = str_le a.service b.service

unfoldable pub coverage_rows : Sources → List CoverageRow
unfolding row
coverage_rows s = Sort.sorted by_service (map (row s) s.services)
