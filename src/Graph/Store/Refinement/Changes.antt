-- ===== src/Graph/Store/Refinement/Changes.antt =====
-- Any sequence of changes to the store of backend/graph/store.py, against the same changes to the
-- graph that it stands for.
use vectural.Prelude.{◌≡◌, String, List, [], ◌∷◌, contains, string_key, pair_key, ◌==◌}
use vectural.Domain.Graph.{EdgeKind, Node, Edge, NodeRef, node_kind_key, edge_kind_key}
use vectural.Graph.Store.{
  GraphStore, empty, ref_of, has_node, add_node, add_edge, delete_node, delete_file, nodes,
  out_neighbors, in_neighbors,
}
use vectural.Graph.Store.Refinement.{
  Graph, IsModel, no_graph, with_node, with_edge, without, keys_of, empty-IsModel, add_node-IsModel,
  add_edge-IsModel,
}
use vectural.Graph.Store.Refinement.Deletion.{of_file, delete_node-IsModel, delete_file-IsModel}

pub data Change : Type 0 where
  node_added : Node → Change
  edge_added : Edge → Change
  node_deleted : NodeRef → Change
  file_deleted : String → Change

unfoldable pub change_store : Change → GraphStore → GraphStore
change_store (node_added n) s = add_node n s
change_store (edge_added e) s = add_edge e s
change_store (node_deleted ref) s = (delete_node ref s).1
change_store (file_deleted path) s = (delete_file path s).1

unfoldable pub change_graph : Change → Graph → Graph
change_graph (node_added n) g = with_node (ref_of n) g
change_graph (edge_added e) g = with_edge e g
change_graph (node_deleted ref) g = without (λ r. r == ref) g
change_graph (file_deleted path) g = without (of_file path) g

unfoldable pub store_after : List Change → GraphStore → GraphStore
unfolding change_store
store_after [] s = s
store_after (c ∷ cs) s = store_after cs (change_store c s)

unfoldable pub graph_after : List Change → Graph → Graph
unfolding change_graph
graph_after [] g = g
graph_after (c ∷ cs) g = graph_after cs (change_graph c g)

change-IsModel :
    (c : Change) (s : GraphStore) (g : Graph)
    → IsModel s g
    → IsModel (change_store c s) (change_graph c g)
unfolding change_store change_graph
change-IsModel (node_added n) s g m = add_node-IsModel n s g m
change-IsModel (edge_added e) s g m = add_edge-IsModel e s g m
change-IsModel (node_deleted ref) s g m = delete_node-IsModel ref s g m
change-IsModel (file_deleted path) s g m = delete_file-IsModel path s g m

after-IsModel :
    (cs : List Change) (s : GraphStore) (g : Graph)
    → IsModel s g
    → IsModel (store_after cs s) (graph_after cs g)
unfolding store_after graph_after
after-IsModel [] s g m = m
after-IsModel (c ∷ cs) s g m =
    after-IsModel cs (change_store c s) (change_graph c g) (change-IsModel c s g m)

-- Whatever nodes and edges were added and nodes and files deleted, in whatever order: a node is in
-- the store, and in the listing of its kind, exactly when it is in the graph, and each neighbour
-- list holds exactly the ends of the graph's edges, from either side.
pub store_after-refines :
    (cs : List Change) (a b : NodeRef) (rel : EdgeKind)
    → (has_node (store_after cs empty) a ≡ (graph_after cs no_graph).present a)
      × (contains a.1 (keys_of (nodes (store_after cs empty) a.0))
          ≡ (graph_after cs no_graph).present (a.0, a.1))
      × (contains b (out_neighbors (store_after cs empty) a rel)
          ≡ (graph_after cs no_graph).edge a rel b)
      × (contains a (in_neighbors (store_after cs empty) b rel)
          ≡ (graph_after cs no_graph).edge a rel b)
unfolding out_neighbors in_neighbors
store_after-refines cs a b rel =
    let m = after-IsModel cs empty no_graph empty-IsModel in
    (m.0 a, m.3 a.0 a.1, m.1 a rel b, m.2 a rel b)
