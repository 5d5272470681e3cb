-- ===== src/Flows/Identify.antt =====
-- backend/flows/identify.py: the candidate flows, call chains and event links, of the graph. `sha`
-- stands for `hashlib.sha256(_.encode("utf-8")).hexdigest()`.
pub mod Paths
pub mod Chains
pub mod Candidates
use Prim.Native.String.{◌++◌ as ◌+++◌}
use vectural.Prelude.{
  ℕ, zero, suc, ◌-◌, Bool, true, false, not, ◌&&◌, String, List, [], ◌∷◌, ◌++◌, map, keep, length,
  contains, string_key, ◌==◌, if◌then◌else◌, leb,
}
use vectural.Prelude.Dict
use vectural.Prelude.Dict.{Dict}
use vectural.Prelude.Sort
use vectural.Prelude.Text.{str_le, join, first_chars}
use vectural.Domain.Graph.{NodeKind, Node}
use vectural.Graph.Store.{GraphStore, nodes}
use vectural.Graph.Queries.{direct_callers, direct_callees, topic_publishers, topic_consumers}
use vectural.Flows.Models.{FlowCandidate}

distinct : List String → List String
distinct [] = []
distinct (s ∷ ss) = let rest = distinct ss in if contains s ss then rest else s ∷ rest

-- `len(set(services)) >= 2`
unfoldable pub is_cross_service : FlowCandidate → Bool
unfolding distinct
is_cross_service c = leb 2 (length (distinct c.services))

pub each : {A B : Type 0} → (A → List B) → List A → List B
each f [] = []
each f (x ∷ xs) = f x ++ each f xs

abbrev fresh_callees : (String → List String) → List String → String → List String
fresh_callees callees path last = keep (λ c. not (contains c path)) (callees last)

no_further : List String → List (List String)
no_further path = if leb 2 (length path) then path ∷ [] else []

extend : List String → (String → List (List String)) → List String → List (List String)
unfolding each no_further
extend path dfs_from [] = no_further path
extend path dfs_from (c ∷ cs) = each dfs_from (c ∷ cs)

-- `dfs(path)`, where `last` is the path's last service and `room` is `max_len - len(path)`
unfoldable pub dfs : (String → List String) → ℕ → List String → String → List (List String)
unfolding extend
dfs callees zero path last = path ∷ []
dfs callees (suc room) path last =
    extend path (λ c. dfs callees room (path ++ c ∷ []) c) (fresh_callees callees path last)

unfoldable pub walk_calls : (String → List String) → ℕ → String → List (List String)
unfolding dfs
walk_calls callees max_len start = dfs callees (max_len - 1) (start ∷ []) start

no_callers : GraphStore → String → Bool
no_callers s service = elim (direct_callers s service) [ [] ↦ true | c ∷ cs ↦ false ]

unfoldable pub call_chains : GraphStore → ℕ → List (List String)
unfolding walk_calls no_callers each
call_chains s max_len =
    let services = map (λ n. n.key) (nodes s NodeKind.service) in
    let entries = keep (no_callers s) services in
    each (walk_calls (direct_callees s) max_len) entries

-- A publisher, the topic and a consumer.
pub record EventLink : Type 0 where
  pub publisher : String
  pub topic : String
  pub consumer : String

links_of : String → List String → String → List EventLink
links_of topic consumers pub_ =
    map (λ con. record { publisher = pub_; topic = topic; consumer = con })
      (keep (λ con. not (pub_ == con)) consumers)

unfoldable pub event_links : GraphStore → List EventLink
unfolding links_of each
event_links s =
    each
      (λ topic.
        each (links_of topic.key (topic_consumers s topic.key)) (topic_publishers s topic.key))
      (nodes s NodeKind.topic)

signature : (String → String) → List String → String → String
signature sha services trigger =
    first_chars 16 (sha (join "|" services +++ "::" +++ trigger +++ "::" +++ "CALLS"))

unfoldable pub candidate : (String → String) → List String → String → FlowCandidate
unfolding signature
candidate sha services trigger =
    let sign = signature sha services trigger in
    record {
      id = join "-" services +++ "-" +++ first_chars 6 sign;
      title = join " → " services;
      services = services;
      trigger = trigger;
      signature = sign;
    }

-- `if cand.is_cross_service: candidates[cand.id] = cand`, for one candidate after the other
unfoldable pub collect : List FlowCandidate → Dict String FlowCandidate → Dict String FlowCandidate
unfolding is_cross_service
collect [] d = d
collect (c ∷ cs) d =
    let skip = collect cs d in
    let put = collect cs (Dict.set c.id c d) in if is_cross_service c then put else skip

link_candidate : (String → String) → EventLink → FlowCandidate
unfolding candidate
link_candidate sha l = candidate sha (l.publisher ∷ l.consumer ∷ []) ("topic: " +++ l.topic)

unfoldable pub identify_flows : (String → String) → GraphStore → ℕ → List FlowCandidate
unfolding call_chains event_links candidate link_candidate collect
identify_flows sha s max_len =
    let from_chains =
      collect (map (λ path. candidate sha path "call graph") (call_chains s max_len)) [] in
    let found = collect (map (link_candidate sha) (event_links s)) from_chains in
    Sort.sorted (λ c d. str_le c.id d.id) (Dict.values found)
