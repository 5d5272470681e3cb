-- ===== src/Graph/Store.antt =====
-- The in-memory store of backend/graph/store.py: the nodes, and the edges twice, by where they
-- start and by where they end.
pub mod Refinement
use Prim.Native.String.{◌++◌ as ◌+++◌}
use vectural.Prelude.{
  ℕ, ◌+◌, Bool, true, false, not, String, Option, none, some, List, [], ◌∷◌, ◌++◌, map, keep,
  sum_of, length, contains, Key, string_key, pair_key, ◌==◌, if◌then◌else◌,
}
use vectural.Prelude.Dict
use vectural.Prelude.Dict.{Dict}
use vectural.Prelude.Text.{starts_with}
use vectural.Domain.Graph.{
  NodeKind, EdgeKind, Node, Edge, GraphDelta, NodeRef, node_kind_key, edge_kind_key,
}
use vectural.Graph.Index.{listed, append_new}
use vectural.Graph.Detach.{drop_edges}

abbrev pub EdgeIndex : Type 0
EdgeIndex = Dict (NodeRef × EdgeKind) (List NodeRef)

pub record GraphStore : Type 0 where
  pub all_nodes : Dict NodeRef Node
  pub out : EdgeIndex
  pub into : EdgeIndex
  pub by_kind : Dict NodeKind (List Node)

abbrev pub empty : GraphStore
empty = record { all_nodes = []; out = []; into = []; by_kind = [] }

abbrev pub ref_of : Node → NodeRef
ref_of n = (n.kind, n.key)

-- `ref in self._nodes`
abbrev pub is_present : Option Node → Bool
is_present none = false
is_present (some n) = true

unfoldable pub has_node : GraphStore → NodeRef → Bool
has_node s ref = is_present (Dict.get ref s.all_nodes)

-- the listing of the kind, after `add_node` was given a node whose reference was there or not
listing : Bool → Node → Dict NodeKind (List Node) → Dict NodeKind (List Node)
listing true n d = d
listing false n d = Dict.set n.kind (Dict.get_or n.kind [] d ++ n ∷ []) d

unfoldable pub add_node : Node → GraphStore → GraphStore
unfolding has_node listing
add_node n s = record s {
  by_kind = listing (has_node s (ref_of n)) n s.by_kind;
  all_nodes = Dict.set (ref_of n) n s.all_nodes;
}

abbrev pub src_of : Edge → NodeRef
src_of e = (e.src_kind, e.src_key)

abbrev pub dst_of : Edge → NodeRef
dst_of e = (e.dst_kind, e.dst_key)

unfoldable pub add_edge : Edge → GraphStore → GraphStore
add_edge e s = record s {
  out = append_new (src_of e, e.kind) (dst_of e) s.out;
  into = append_new (dst_of e, e.kind) (src_of e) s.into;
}

unfoldable pub upsert_nodes : List Node → GraphStore → GraphStore
unfolding add_node
upsert_nodes [] s = s
upsert_nodes (n ∷ ns) s = upsert_nodes ns (add_node n s)

unfoldable pub upsert_edges : List Edge → GraphStore → GraphStore
unfolding add_edge
upsert_edges [] s = s
upsert_edges (e ∷ es) s = upsert_edges es (add_edge e s)

unfoldable pub from_graph : List Node → List Edge → GraphStore
unfolding upsert_nodes upsert_edges
from_graph ns es = upsert_edges es (upsert_nodes ns empty)

unfoldable pub from_delta : GraphDelta → GraphStore
unfolding from_graph
from_delta d = from_graph d.nodes d.edges

unfoldable pub nodes : GraphStore → NodeKind → List Node
nodes s kind = Dict.get_or kind [] s.by_kind

unfoldable pub out_neighbors : GraphStore → NodeRef → EdgeKind → List NodeRef
out_neighbors s ref rel = listed s.out (ref, rel)

unfoldable pub in_neighbors : GraphStore → NodeRef → EdgeKind → List NodeRef
in_neighbors s ref rel = listed s.into (ref, rel)

unfoldable pub node_count : GraphStore → ℕ
node_count s = length s.all_nodes

unfoldable pub edge_count : GraphStore → ℕ
edge_count s = sum_of length (Dict.values s.out)

delete_present : NodeRef → GraphStore → GraphStore
unfolding drop_edges
delete_present ref s =
    let edges = drop_edges ref s.out s.into in
    record {
      all_nodes = Dict.remove ref s.all_nodes;
      out = edges.0;
      into = edges.1;
      by_kind =
          Dict.set ref.0 (keep (λ n. not (n.key == ref.1)) (Dict.get_or ref.0 [] s.by_kind))
            s.by_kind;
    }

-- The result says whether there was such a node.
unfoldable pub delete_node : NodeRef → GraphStore → Bool × GraphStore
unfolding has_node delete_present
delete_node ref s = if has_node s ref then (true, delete_present ref s) else (false, s)

one_if : Bool → ℕ
one_if true = 1
one_if false = 0

-- The functions of a file, one after the other; the result counts those that went.
unfoldable pub delete_functions : List Node → GraphStore → ℕ × GraphStore
unfolding delete_node one_if
delete_functions [] s = (0, s)
delete_functions (fn ∷ fns) s =
    let (was, after) = delete_node (NodeKind.function, fn.key) s in
    let (n, end) = delete_functions fns after in (one_if was + n, end)

unfoldable pub delete_file : String → GraphStore → ℕ × GraphStore
unfolding delete_functions delete_node one_if nodes
delete_file path s =
    let own = keep (λ n. starts_with (path +++ "#") n.key) (nodes s NodeKind.function) in
    let (n, mid) = delete_functions own s in
    let (was, end) = delete_node (NodeKind.file, path) mid in (n + one_if was, end)

unfoldable pub file_keys : GraphStore → List String
unfolding nodes
file_keys s = map (λ n. n.key) (nodes s NodeKind.file)
