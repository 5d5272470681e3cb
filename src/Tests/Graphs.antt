-- ===== src/Tests/Graphs.antt =====
-- Runs on a graph of three services that call one after the other.
use vectural.Prelude.{
  ℕ, ◌≡◌, refl, true, String, none, some, List, [], ◌∷◌, contains, string_key, pair_key, list_key,
  nat_key, length,
}
use vectural.Prelude.Dict
use vectural.Prelude.Dict.{Dict}
use vectural.Prelude.Sort.{sorted, insert}
use vectural.Prelude.Text.{join, first_chars}
use vectural.Domain.Graph.{
  NodeKind, EdgeKind, Node, Edge, node_kind_key, edge_kind_key, NodeKind-discrete,
  EdgeKind-discrete,
}
use vectural.Llm.Failures.{Result, ok, should_retry}
use vectural.Llm.Catalog.{initial, find, task_uses_json}
use vectural.Llm.Router.{route}
use vectural.Graph.Store.{
  GraphStore, empty, has_node, add_node, add_edge, upsert_nodes, upsert_edges, from_graph, nodes,
  out_neighbors, in_neighbors,
}
use vectural.Graph.Store.Refinement.{no_graph, keys_of}
use vectural.Graph.Store.Refinement.Changes.{
  Change, node_added, edge_added, node_deleted, file_deleted, store_after, graph_after,
  store_after-refines,
}
use vectural.Graph.Queries.{bfs_services, direct_callers, direct_callees, step_by}
use vectural.Graph.Queries.Levels.Distance.{is_distance}
use vectural.Graph.Queries.Services.{side, bfs_services_distances}
use vectural.Flows.Models.{FlowStore}
use vectural.Flows.Generate.{content_hash, generate_narrative}
use vectural.Flows.Service.{GenerateReport, generate, generate_loop}
use vectural.Flows.Service.Invalidation.{IsKeyed}
use vectural.Flows.Identify.{walk_calls, identify_flows}
use vectural.Flows.Identify.Chains.{is_chain, walk_calls_exact}
use vectural.Flows.Identify.Candidates.{identify_again}
use vectural.Tests.Tenths.{tenths}
use vectural.Tests.ModelCalls.{World, router, fresh}

abbrev service_node : String → Node
service_node name = record {
  kind = NodeKind.service;
  key = name;
  properties = [];
  commit_sha = "c1";
  indexed_at = 1;
  prompt_version = none;
}

abbrev call : String → String → Edge
call src dst = record {
  kind = EdgeKind.calls;
  src_kind = NodeKind.service;
  src_key = src;
  dst_kind = NodeKind.service;
  dst_key = dst;
  properties = [];
}

abbrev changes : List Change
changes =
    node_added (service_node "gateway")
    ∷ node_added (service_node "payments")
    ∷ edge_added (call "gateway" "payments")
    ∷ file_deleted "payments/pay.py"
    ∷ node_deleted (NodeKind.service, "payments")
    ∷ []

store_after-refines_example :
    (has_node (store_after changes empty) (NodeKind.service, "gateway")
      ≡ (graph_after changes no_graph).present (NodeKind.service, "gateway"))
    × (contains "gateway" (keys_of (nodes (store_after changes empty) NodeKind.service))
        ≡ (graph_after changes no_graph).present (NodeKind.service, "gateway"))
    × (contains
          (NodeKind.service, "payments")
          (out_neighbors (store_after changes empty) (NodeKind.service, "gateway") EdgeKind.calls)
        ≡ (graph_after changes no_graph).edge
            (NodeKind.service, "gateway")
            EdgeKind.calls
            (NodeKind.service, "payments"))
    × (contains
          (NodeKind.service, "gateway")
          (in_neighbors (store_after changes empty) (NodeKind.service, "payments") EdgeKind.calls)
        ≡ (graph_after changes no_graph).edge
            (NodeKind.service, "gateway")
            EdgeKind.calls
            (NodeKind.service, "payments"))
store_after-refines_example =
    store_after-refines changes (NodeKind.service, "gateway") (NodeKind.service, "payments")
      EdgeKind.calls

abbrev graph : GraphStore
graph =
    from_graph (service_node "gateway" ∷ service_node "payments" ∷ service_node "ledger" ∷ [])
      (call "gateway" "payments" ∷ call "payments" "ledger" ∷ [])

known : has_node graph (NodeKind.service, "gateway") ≡ true
unfolding has_node from_graph upsert_nodes upsert_edges add_node add_edge Dict.get Dict.set
    node_kind_key NodeKind-discrete
known = refl

bfs_services_distances_example :
    (d : Dict ℕ (List String)) × (bfs_services graph "gateway" EdgeKind.calls true 3 ≡ some d)
    × ((hop : ℕ) (key : String)
        → contains key (Dict.get_or hop [] d)
          ≡ is_distance (step_by (side graph true) EdgeKind.calls) "gateway" 3 hop key)
bfs_services_distances_example = bfs_services_distances graph "gateway" EdgeKind.calls true 3 known

walk_calls_exact_example :
    contains
      ("gateway" ∷ "payments" ∷ "ledger" ∷ [])
      (walk_calls (direct_callees graph) 5 "gateway")
    ≡ is_chain (direct_callees graph) 5 "gateway" ("gateway" ∷ "payments" ∷ "ledger" ∷ [])
walk_calls_exact_example =
    walk_calls_exact (direct_callees graph) 5 "gateway" ("gateway" ∷ "payments" ∷ "ledger" ∷ [])

abbrev sha : String → String
sha s = s

abbrev run : Result GenerateReport × FlowStore × World
run =
    generate tenths World ℕ sha (λ key j. "text") router initial [] "flow-v1" (λ w. 0)
      (identify_flows sha graph 5) [] fresh

keyed : IsKeyed []
unfolding Dict.get
keyed = record { own_id = λ k n e. absurd (cc e); distinct = tt }

ran :
    run.0
    ≡ ok (record {
      created = 1;
      regenerated = 0;
      skipped = 0;
      ids = "gateway-payments-ledger-gatewa" ∷ [];
    })
unfolding generate identify_flows sorted nodes Dict.get from_graph Dict.set direct_callers
    in_neighbors vectural.Graph.Index.append_new direct_callees out_neighbors generate_narrative
    route join find should_retry content_hash vectural.Flows.Identify.call_chains
    vectural.Flows.Identify.candidate vectural.Flows.Identify.collect vectural.Flows.Identify.dfs
    vectural.Flows.Identify.event_links vectural.Flows.Identify.is_cross_service walk_calls
    generate_loop vectural.Graph.Queries.topic_consumers vectural.Graph.Queries.topic_publishers
    add_edge add_node has_node upsert_edges upsert_nodes task_uses_json insert first_chars
    node_kind_key edge_kind_key NodeKind-discrete EdgeKind-discrete
ran = refl

identify_again_example :
    generate tenths World ℕ sha
      (λ key j. "text")
      router
      initial
      []
      "flow-v1"
      (λ w. 0)
      (identify_flows sha graph 5)
      run.1
      run.2
    ≡ (
      ok (record {
        created = 0;
        regenerated = 0;
        skipped = length (identify_flows sha graph 5);
        ids = [];
      }),
      run.1,
      run.2,
    )
identify_again_example =
    identify_again tenths World ℕ sha (λ key j. "text") router initial [] "flow-v1" (λ w. 0) graph 5
      [] fresh
      (record {
        created = 1;
        regenerated = 0;
        skipped = 0;
        ids = "gateway-payments-ledger-gatewa" ∷ [];
      })
      keyed ran
