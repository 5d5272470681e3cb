-- ===== src/Graph/Store/Refinement/Deletion.antt =====
-- `delete_node` and `delete_file` of backend/graph/store.py on the graph that the store stands for.
use Prim.Native.String.{◌++◌ as ◌+++◌}
use vectural.Prelude.{
  ◌≡◌, refl, sym, ap, ◌∙◌, Bool, true, false, not, ◌&&◌, ◌||◌, String, Option, none, List, [], ◌∷◌,
  keep, contains, string_key, pair_key, ◌==◌, if_ind, if◌then◌else◌, arith,
}
use vectural.Prelude.Dict
use vectural.Prelude.Text.{starts_with}
use vectural.Domain.Graph.{NodeKind, EdgeKind, Node, NodeRef, node_kind_key, edge_kind_key}
use vectural.Graph.Detach.{drop_edges_lem, IsMirrored}
use vectural.Graph.Store.{
  GraphStore, has_node, nodes, is_present, delete_present, delete_node, delete_functions,
  delete_file,
}
use vectural.Graph.Store.Refinement.{Graph, IsModel, without, keys_of, same_ref, same_present}

-- the nodes that `delete_file` means to delete
abbrev pub of_file : String → NodeRef → Bool
of_file path r =
    r == (NodeKind.file, path) || (r.0 == NodeKind.function && starts_with (path +++ "#") r.1)

keys_of-keep :
    (own key : String) (ns : List Node)
    → contains key (keys_of (keep (λ n. not (n.key == own)) ns))
      ≡ (contains key (keys_of ns) && not (key == own))
keys_of-keep own key [] = refl
keys_of-keep own key (n ∷ ns) = ground (
  arith,
  keys_of-keep own key ns,
  string_key.same_iff n.key own,
  string_key.same_iff key own,
  string_key.same_iff key n.key,
)

present-remove :
    (o : Option Node) (b : Bool) → is_present (if b then none else o) ≡ (is_present o && not b)
present-remove o true = ground arith
present-remove o false = ground arith

listing-remove :
    (ref : NodeRef) (s : GraphStore) (g : Graph)
    → IsModel s g
    → (k : NodeKind) (key : String)
    → contains key (
        keys_of (
          if ref.0 == k
          then keep (λ n. not (n.key == ref.1)) (Dict.get_or ref.0 [] s.by_kind)
          else Dict.get_or k [] s.by_kind))
      ≡ (g.present (k, key) && not ((k, key) == ref))
unfolding nodes
listing-remove ref s g m k key =
    if_ind (λ ns. contains key (keys_of ns) ≡ (g.present (k, key) && not ((k, key) == ref)))
      (ref.0 == k)
      (λ e.
        keys_of-keep ref.1 key (Dict.get_or ref.0 [] s.by_kind)
        ∙ ground (
          arith,
          e,
          m.3 ref.0 key,
          same_present g (ref.0, key) (k, key),
          same_ref ref (k, key),
          string_key.same_iff key key,
          node_kind_key.same_iff ref.0 k,
          node_kind_key.same_iff k ref.0,
        ))
      (λ e.
        m.3 k key
        ∙ ground (arith, e, node_kind_key.same_iff ref.0 k, node_kind_key.same_iff k ref.0))

without_links :
    (g : Graph) (ref a b : NodeRef) (link : Bool)
    → g.present ref ≡ true
    → (link && not (a == ref || b == ref))
      ≡ (link && not ((a == ref) && g.present a || (b == ref) && g.present b))
without_links g ref a b link there =
    ground (arith, there, same_present g a ref, same_present g b ref)

delete_present-IsModel :
    (ref : NodeRef) (s : GraphStore) (g : Graph)
    → IsModel s g
    → g.present ref ≡ true
    → IsModel (delete_present ref s) (without (λ r. r == ref) g)
unfolding delete_present has_node nodes
delete_present-IsModel ref s g m there =
    let mirrored : IsMirrored s.out s.into = λ x r y. m.1 x r y ∙ sym (m.2 x r y) in
    (
      λ r.
          ap is_present (Dict.get-remove ref r s.all_nodes)
          ∙ present-remove (Dict.get r s.all_nodes) (ref == r)
          ∙ ground (arith, m.0 r, same_ref r ref),
      λ a rel b.
          (drop_edges_lem ref s.out s.into a rel b mirrored).0
          ∙ ap (λ l. l && not (a == ref || b == ref)) (m.1 a rel b)
          ∙ without_links g ref a b (g.edge a rel b) there,
      λ a rel b.
          (drop_edges_lem ref s.out s.into a rel b mirrored).1
          ∙ ap (λ l. l && not (a == ref || b == ref)) (m.1 a rel b)
          ∙ without_links g ref a b (g.edge a rel b) there,
      λ k key.
          ap (λ ns. contains key (keys_of ns)) (Dict.get_or-set ref.0 k [] _ s.by_kind)
          ∙ listing-remove ref s g m k key,
    )

-- Two graphs with the same nodes and edges are modelled by the same stores.
IsModel-congr :
    (s : GraphStore) (g h : Graph)
    → ((r : NodeRef) → g.present r ≡ h.present r)
    → ((a : NodeRef) (rel : EdgeKind) (b : NodeRef) → g.edge a rel b ≡ h.edge a rel b)
    → IsModel s g
    → IsModel s h
IsModel-congr s g h ns es m = (
  λ r. m.0 r ∙ ns r,
  λ a rel b. m.1 a rel b ∙ es a rel b,
  λ a rel b. m.2 a rel b ∙ es a rel b,
  λ k key. m.3 k key ∙ ns (k, key),
)

pub delete_node-IsModel :
    (ref : NodeRef) (s : GraphStore) (g : Graph)
    → IsModel s g
    → IsModel (delete_node ref s).1 (without (λ r. r == ref) g)
unfolding delete_node
delete_node-IsModel ref s g m =
    if_ind (λ (t : Bool × GraphStore). IsModel t.1 (without (λ r. r == ref) g)) (has_node s ref)
      (λ e. delete_present-IsModel ref s g m (sym (m.0 ref) ∙ e))
      (λ e.
        IsModel-congr s g (without (λ r. r == ref) g)
          (λ r. ground (arith, e, m.0 ref, same_present g r ref))
          (λ a rel b. ground (arith, e, m.0 ref, same_present g a ref, same_present g b ref)) m)

-- the function nodes that have the keys of `fns`
abbrev among : List Node → NodeRef → Bool
among fns r = r.0 == NodeKind.function && contains r.1 (keys_of fns)

without_twice :
    (p q h : NodeRef → Bool) (s : GraphStore) (g : Graph)
    → ((r : NodeRef) → (g.present r && (p r || q r)) ≡ (g.present r && h r))
    → IsModel s (without q (without p g))
    → IsModel s (without h g)
without_twice p q h s g both =
    IsModel-congr s (without q (without p g)) (without h g) (λ r. ground (arith, both r))
      (λ a rel b. ground (arith, both a, both b))

delete_functions-IsModel :
    (fns : List Node) (s : GraphStore) (g : Graph)
    → IsModel s g
    → IsModel (delete_functions fns s).1 (without (among fns) g)
unfolding delete_functions
delete_functions-IsModel [] s g m =
    IsModel-congr s g (without (among []) g) (λ r. ground arith) (λ a rel b. ground arith) m
delete_functions-IsModel (fn ∷ fns) s g m =
    let own : NodeRef → Bool = λ r. r == (NodeKind.function, fn.key) in
    without_twice own (among fns) (among (fn ∷ fns)) _ g (λ r. ground arith)
      (delete_functions-IsModel fns (delete_node (NodeKind.function, fn.key) s).1 (without own g)
        (delete_node-IsModel (NodeKind.function, fn.key) s g m))

ap_key : (p : String → Bool) (j k : String) → (j == k) ≡ true → p j ≡ p k
ap_key p j k e = ap p ((string_key.same_iff j k).0 e)

keys_of-own :
    (p : String → Bool) (key : String) (ns : List Node)
    → contains key (keys_of (keep (λ n. p n.key) ns)) ≡ (contains key (keys_of ns) && p key)
keys_of-own p key [] = refl
keys_of-own p key (n ∷ ns) =
    ground (arith, keys_of-own p key ns, ap_key p key n.key, string_key.same_iff key n.key)

functions_of_file :
    (path : String) (s : GraphStore) (g : Graph)
    → IsModel s g
    → (r : NodeRef)
    → (g.present r
        && (among (keep (λ n. starts_with (path +++ "#") n.key) (nodes s NodeKind.function)) r
            || r == (NodeKind.file, path)))
      ≡ (g.present r && of_file path r)
functions_of_file path s g m r = ground (
  arith,
  keys_of-own (starts_with (path +++ "#")) r.1 (nodes s NodeKind.function),
  m.3 NodeKind.function r.1,
  same_present g (NodeKind.function, r.1) r,
  same_ref (NodeKind.function, r.1) r,
  string_key.same_iff r.1 r.1,
)

pub delete_file-IsModel :
    (path : String) (s : GraphStore) (g : Graph)
    → IsModel s g
    → IsModel (delete_file path s).1 (without (of_file path) g)
unfolding delete_file
delete_file-IsModel path s g m =
    let own = keep (λ n. starts_with (path +++ "#") n.key) (nodes s NodeKind.function) in
    without_twice (among own) (λ r. r == (NodeKind.file, path)) (of_file path) _ g
      (functions_of_file path s g m)
      (delete_node-IsModel (NodeKind.file, path) (delete_functions own s).1 (without (among own) g)
        (delete_functions-IsModel own s g m))
