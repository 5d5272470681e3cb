-- ===== src/Graph/Store/Refinement.antt =====
-- The graph that backend/graph/store.py stands for, a set of nodes and a set of edges, and that the
-- store with its indices behaves as that graph, whatever is done to it.

pub mod Deletion
pub mod Changes
use Prim.Native.String.{◌++◌ as ◌+++◌}
use vectural.Prelude.{
  ◌≡◌, refl, sym, ap, ◌∙◌, Bool, true, false, not, ◌&&◌, ◌||◌, String, Option, none, some, List, [],
  ◌∷◌, ◌++◌, map, contains, string_key, pair_key, ◌==◌, pair_beq_iff, if_ind, if◌then◌else◌, arith,
}
use vectural.Prelude.Dict
use vectural.Prelude.Dict.{Dict}
use vectural.Domain.Graph.{NodeKind, EdgeKind, Node, Edge, NodeRef, node_kind_key, edge_kind_key}
use vectural.Graph.Index.{linked, linked-append_new}
use vectural.Graph.Store.{
  GraphStore, empty, ref_of, src_of, dst_of, has_node, listing, add_node, add_edge, nodes,
  is_present, out_neighbors, in_neighbors,
}

pub record Graph : Type 0 where
  pub present : NodeRef → Bool
  pub edge : NodeRef → EdgeKind → NodeRef → Bool

abbrev pub no_graph : Graph
no_graph = record { present = λ r. false; edge = λ a rel b. false }

abbrev pub with_node : NodeRef → Graph → Graph
with_node ref g = record g { present = λ r. g.present r || r == ref }

abbrev pub with_edge : Edge → Graph → Graph
with_edge e g = record g {
  edge = λ a rel b. g.edge a rel b || (src_of e == a && e.kind == rel && b == dst_of e);
}

-- Without the nodes that `gone` holds of, and the edges at those of them that are there.
abbrev pub without : (NodeRef → Bool) → Graph → Graph
without gone g = record {
  present = λ r. g.present r && not (gone r);
  edge = λ a rel b. g.edge a rel b && not (gone a && g.present a || gone b && g.present b);
}

abbrev pub keys_of : List Node → List String
keys_of ns = map (λ n. n.key) ns

-- The store holds exactly the nodes and edges of the graph: in the dict of nodes, in either index,
-- and in the listings by kind.
abbrev pub IsModel : GraphStore → Graph → Type 0
IsModel s g =
    ((r : NodeRef) → has_node s r ≡ g.present r)
    × ((a : NodeRef) (rel : EdgeKind) (b : NodeRef) → linked s.out (a, rel) b ≡ g.edge a rel b)
    × ((a : NodeRef) (rel : EdgeKind) (b : NodeRef) → linked s.into (b, rel) a ≡ g.edge a rel b)
    × ((k : NodeKind) (key : String) → contains key (keys_of (nodes s k)) ≡ g.present (k, key))

pub empty-IsModel : IsModel empty no_graph
unfolding has_node nodes Dict.get
empty-IsModel = (λ r. refl, λ a rel b. refl, λ a rel b. refl, λ k key. refl)

present-set :
    (o : Option Node) (b : Bool) (n : Node)
    → is_present (if b then some n else o) ≡ (is_present o || b)
present-set o true n = ground arith
present-set o false n = ground arith

pub keys_of-append :
    (key : String) (ns : List Node) (n : Node)
    → contains key (keys_of (ns ++ n ∷ [])) ≡ (contains key (keys_of ns) || key == n.key)
keys_of-append key [] n = ground arith
keys_of-append key (m ∷ ns) n = ground (arith, keys_of-append key ns n)

listing_congr :
    (j k : NodeKind) (key : String) (d : Dict NodeKind (List Node))
    → (j == k) ≡ true
    → contains key (keys_of (Dict.get_or j [] d)) ≡ contains key (keys_of (Dict.get_or k [] d))
listing_congr j k key d e =
    ap (λ x. contains key (keys_of (Dict.get_or x [] d))) ((node_kind_key.same_iff j k).0 e)

pub same_ref : (q r : NodeRef) → (q == r) ≡ (r == q)
same_ref q r = ground (
  arith,
  node_kind_key.same_iff q.0 r.0,
  node_kind_key.same_iff r.0 q.0,
  string_key.same_iff q.1 r.1,
  string_key.same_iff r.1 q.1,
)

pub same_present : (g : Graph) (q r : NodeRef) → (q == r) ≡ true → g.present q ≡ g.present r
same_present g q r e = ap (λ x. g.present x) ((pair_beq_iff q r).0 e)

listing-key :
    (b : Bool) (n : Node) (d : Dict NodeKind (List Node)) (k : NodeKind) (key : String)
    → contains key (keys_of (Dict.get_or k [] (listing b n d)))
      ≡ (contains key (keys_of (Dict.get_or k [] d)) || (not b && (k, key) == ref_of n))
unfolding listing
listing-key true n d k key = ground arith
listing-key false n d k key =
    ap (λ ns. contains key (keys_of ns)) (Dict.get_or-set n.kind k [] _ d)
    ∙ if_ind
        (λ ns.
          contains key (keys_of ns)
          ≡ (contains key (keys_of (Dict.get_or k [] d)) || (k, key) == ref_of n))
        (n.kind == k)
        (λ e.
          keys_of-append key (Dict.get_or n.kind [] d) n
          ∙ ground (
            arith,
            e,
            node_kind_key.same_iff n.kind k,
            node_kind_key.same_iff k n.kind,
            listing_congr n.kind k key d,
          ))
        (λ e. ground (arith, e, node_kind_key.same_iff n.kind k, node_kind_key.same_iff k n.kind))

pub add_node-IsModel :
    (n : Node) (s : GraphStore) (g : Graph)
    → IsModel s g
    → IsModel (add_node n s) (with_node (ref_of n) g)
unfolding add_node has_node nodes
add_node-IsModel n s g m = (
  λ r.
      ap is_present (Dict.get-set (ref_of n) r n s.all_nodes)
      ∙ present-set (Dict.get r s.all_nodes) (ref_of n == r) n
      ∙ ground (arith, m.0 r, same_ref r (ref_of n)),
  m.1,
  m.2,
  λ k key.
      listing-key _ n s.by_kind k key
      ∙ ground (arith, m.3 k key, m.0 (ref_of n), same_present g (k, key) (ref_of n)),
)

pub add_edge-IsModel :
    (e : Edge) (s : GraphStore) (g : Graph) → IsModel s g → IsModel (add_edge e s) (with_edge e g)
unfolding add_edge has_node nodes
add_edge-IsModel e s g m = (
  m.0,
  λ a rel b.
      linked-append_new (src_of e, e.kind) (a, rel) (dst_of e) b s.out
      ∙ ground (arith, m.1 a rel b),
  λ a rel b.
      linked-append_new (dst_of e, e.kind) (b, rel) (src_of e) a s.into
      ∙ ground (arith, m.2 a rel b, same_ref a (src_of e), same_ref b (dst_of e)),
  m.3,
)
