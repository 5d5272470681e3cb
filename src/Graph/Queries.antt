-- ===== src/Graph/Queries.antt =====
-- backend/graph/queries.py: the questions that the graph answers without a model.
pub mod Levels
pub mod Services
pub mod Within
use vectural.Prelude.{
  ℕ, zero, suc, ◌+◌, Bool, true, false, ◌&&◌, ◌||◌, String, Option, none, some, List, [], ◌∷◌, ◌++◌,
  map, keep, contains, Key, string_key, nat_key, pair_key, ◌==◌, if◌then◌else◌, leb, ltb, length,
}
use vectural.Prelude.Dict
use vectural.Prelude.Dict.{Dict}
use vectural.Prelude.Sort
use vectural.Prelude.Text.{str_le, show_nat}
use vectural.Domain.Graph.{
  NodeKind, EdgeKind, Node, NodeRef, Property, node_kind_key, edge_kind_key,
}
use vectural.Graph.Store.{EdgeIndex, GraphStore, has_node, nodes, out_neighbors, in_neighbors}

abbrev pub sorted_keys : List NodeRef → List String
sorted_keys refs = Sort.sorted str_le (map (λ r. r.1) refs)

unfoldable pub direct_callers : GraphStore → String → List String
direct_callers s service = sorted_keys (in_neighbors s (NodeKind.service, service) EdgeKind.calls)

unfoldable pub direct_callees : GraphStore → String → List String
direct_callees s service = sorted_keys (out_neighbors s (NodeKind.service, service) EdgeKind.calls)

unfoldable pub topic_publishers : GraphStore → String → List String
topic_publishers s topic = sorted_keys (in_neighbors s (NodeKind.topic, topic) EdgeKind.publishes)

unfoldable pub topic_consumers : GraphStore → String → List String
topic_consumers s topic = sorted_keys (in_neighbors s (NodeKind.topic, topic) EdgeKind.consumes)

pub record Definition : Type 0 where
  pub service : String
  pub path : String
  pub symbol : String
  pub lines : String

-- `str(properties.get(name, ""))`
show_found : Option Property → String
show_found none = ""
show_found (some (Property.text s)) = s
show_found (some (Property.number n)) = show_nat n
show_found (some (Property.flag true)) = "True"
show_found (some (Property.flag false)) = "False"
show_found (some Property.missing) = "None"

-- `properties.get("symbol") == symbol`
is_text : String → Option Property → Bool
is_text s (some (Property.text t)) = t == s
is_text s _ = false

definition_of : String → Node → Definition
unfolding show_found
definition_of symbol n = record {
  service = show_found (Dict.get "service" n.properties);
  path = show_found (Dict.get "file" n.properties);
  symbol = symbol;
  lines = show_found (Dict.get "lines" n.properties);
}

-- `(d.service, d.path, d.lines)`, as Python orders tuples
definition_le : Definition → Definition → Bool
definition_le c d =
    if c.service == d.service
    then (if c.path == d.path then str_le c.lines d.lines else str_le c.path d.path)
    else str_le c.service d.service

unfoldable pub definitions_of : GraphStore → String → List Definition
unfolding definition_of is_text definition_le
definitions_of s symbol =
    let matches =
      keep (λ n. is_text symbol (Dict.get "symbol" n.properties)) (nodes s NodeKind.function) in
    Sort.sorted definition_le (map (definition_of symbol) matches)

-- What the search holds: the services seen, those found by hop, and the queue with its hops.
pub record Search : Type 0 where
  pub seen : List String
  pub by_hop : Dict ℕ (List String)
  pub frontier : List (String × ℕ)

-- `by_hop.setdefault(hop, []).append(key)`
abbrev pub record_hop : ℕ → String → Dict ℕ (List String) → Dict ℕ (List String)
record_hop hop key d = Dict.set hop (Dict.get_or hop [] d ++ key ∷ []) d

unfoldable pub found : ℕ → String → Search → Search
found hop key q = record {
  seen = key ∷ q.seen;
  by_hop = record_hop hop key q.by_hop;
  frontier = q.frontier ++ (key, hop) ∷ [];
}

-- the loop over the neighbours of a service, which stand at `hop`
unfoldable pub visit : ℕ → List String → Search → Search
unfolding found
visit hop [] q = q
visit hop (key ∷ keys) q =
    let skip = visit hop keys q in
    let go = visit hop keys (found hop key q) in if contains key q.seen then skip else go

-- One turn of the loop over the queue, after its `popleft`.
unfoldable pub expand : (String → List String) → ℕ → String → ℕ → Search → Search
unfolding visit
expand step max_hops key hop q = if leb max_hops hop then q else visit (hop + 1) (step key) q

-- The loop over the queue, on fuel: none where the fuel ends before the queue.
unfoldable pub search :
    (String → List String) → ℕ → ℕ → List (String × ℕ) → Search → Option (Dict ℕ (List String))
unfolding expand
search step max_hops fuel [] q = some q.by_hop
search step max_hops zero (p ∷ rest) q = none
search step max_hops (suc fuel) ((key, hop) ∷ rest) q =
    let next = expand step max_hops key hop (record q { frontier = rest }) in
    search step max_hops fuel next.frontier next

-- `{hop: sorted(keys) for hop, keys in sorted(by_hop.items())}`
unfoldable pub by_sorted_hops : Dict ℕ (List String) → Dict ℕ (List String)
by_sorted_hops d = map (λ p. (p.0, Sort.sorted str_le p.1)) (Sort.sorted (λ p q. leb p.0 q.0) d)

abbrev pub start_at : String → Search
start_at start = record { seen = start ∷ []; by_hop = []; frontier = (start, 0) ∷ [] }

-- The keys of the neighbours that the index lists, and all that it lists anywhere.
abbrev pub step_by : EdgeIndex → EdgeKind → String → List String
step_by index rel key = map (λ r. r.1) (Dict.get_or ((NodeKind.service, key), rel) [] index)

abbrev pub reach : List (List NodeRef) → List String
reach [] = []
reach (refs ∷ rest) = map (λ r. r.1) refs ++ reach rest

-- The fuel, the start and every key that the index lists, is enough.
unfoldable pub bfs_index : EdgeIndex → EdgeKind → ℕ → String → Option (Dict ℕ (List String))
unfolding search
bfs_index index rel max_hops start =
    search (step_by index rel) max_hops (suc (length (reach (Dict.values index)))) ((start, 0) ∷ [])
      (start_at start)

pub sort_found : Option (Dict ℕ (List String)) → Option (Dict ℕ (List String))
unfolding by_sorted_hops
sort_found none = none
sort_found (some d) = some (by_sorted_hops d)

unfoldable pub bfs_services :
    GraphStore → String → EdgeKind → Bool → ℕ → Option (Dict ℕ (List String))
unfolding bfs_index sort_found has_node
bfs_services s start rel outgoing max_hops =
    if has_node s (NodeKind.service, start)
    then sort_found (bfs_index (if outgoing then s.out else s.into) rel max_hops start)
    else some []

unfoldable pub service_dependencies : GraphStore → String → ℕ → Option (Dict ℕ (List String))
unfolding bfs_services
service_dependencies s service max_hops = bfs_services s service EdgeKind.calls true max_hops

unfoldable pub service_dependents : GraphStore → String → ℕ → Option (Dict ℕ (List String))
unfolding bfs_services
service_dependents s service max_hops = bfs_services s service EdgeKind.calls false max_hops
