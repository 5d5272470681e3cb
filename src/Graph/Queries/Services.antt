-- ===== src/Graph/Queries/Services.antt =====
-- `service_dependencies` and `service_dependents` of backend/graph/queries.py against the distances
-- in the graph.
use vectural.Prelude.{
  ℕ, suc, ◌≡◌, refl, ap, ◌∙◌, Bool, true, false, not, String, Option, none, some, List, [], ◌∷◌,
  ◌++◌, map, contains, contains-append, contains-more, string_key, nat_key, pair_key, ◌==◌, All,
  All-mono, arith, if_ind, if◌then◌else◌, leb, length, length-keep,
}
use vectural.Prelude.Dict
use vectural.Prelude.Dict.{Dict}
use vectural.Prelude.Sort
use vectural.Prelude.Text.{str_le}
use vectural.Domain.Graph.{NodeKind, EdgeKind, NodeRef, node_kind_key, edge_kind_key}
use vectural.Graph.Store.{EdgeIndex, GraphStore, has_node}
use vectural.Graph.Queries.{
  start_at, step_by, reach, bfs_index, sort_found, bfs_services, by_sorted_hops,
}
use vectural.Graph.Queries.Levels.{start-IsSearch}
use vectural.Graph.Queries.Levels.Turns.{search-IsSearch}
use vectural.Graph.Queries.Levels.Distance.{is_distance, listed_lem}

or_no_refs : Option (List NodeRef) → List NodeRef
or_no_refs none = []
or_no_refs (some refs) = refs

own_keys :
    (refs : List NodeRef) → All (λ n. contains n (map (λ r. r.1) refs) ≡ true) (map (λ r. r.1) refs)
own_keys [] = tt
own_keys (r ∷ refs) = (
  ground (arith, string_key.same_iff r.1 r.1),
  All-mono _ _ (map (λ x. x.1) refs) (λ m e. ground (arith, e)) (own_keys refs),
)

reach-listed :
    (k : NodeRef × EdgeKind) (index : EdgeIndex)
    → All
        (λ n. contains n (reach (Dict.values index)) ≡ true)
        (map (λ r. r.1) (Dict.get_or k [] index))
unfolding Dict.get
reach-listed k [] = tt
reach-listed k ((j, refs) ∷ index) =
    let more = map (λ (r : NodeRef). r.1) refs in
    if_ind
      (λ (o : Option (List NodeRef)).
        All (λ n. contains n (more ++ reach (Dict.values index)) ≡ true)
          (map (λ r. r.1) (elim o as (λ _. List NodeRef) [ none ↦ [] | some v ↦ v ])))
      (j == k) (λ e. All-mono _ _ more (λ m h. contains-more m more _ h) (own_keys refs))
      (λ e.
        All-mono _ _ (map (λ r. r.1) (Dict.get_or k [] index))
          (λ m h. ground (arith, h, contains-append m more (reach (Dict.values index))))
          (reach-listed k index))

IsExact : (String → List String) → String → ℕ → Option (Dict ℕ (List String)) → Type 0
IsExact step start limit o =
    (d : Dict ℕ (List String)) × (o ≡ some d)
    × ((hop : ℕ) (key : String)
        → contains key (Dict.get_or hop [] d) ≡ is_distance step start limit hop key)

sorted_each :
    (d : Dict ℕ (List String)) (hop : ℕ) (key : String)
    → contains key (Dict.get_or hop [] (map (λ p. (p.0, Sort.sorted str_le p.1)) d))
      ≡ contains key (Dict.get_or hop [] d)
unfolding Dict.get
sorted_each [] hop key = refl
sorted_each ((j, ks) ∷ d) hop key =
    ground (arith, sorted_each d hop key, Sort.contains-sorted str_le key ks)

sorted_hops-lookup :
    (d : Dict ℕ (List String)) (hop : ℕ) (key : String)
    → Dict.IsDistinct d
    → contains key (Dict.get_or hop [] (by_sorted_hops d)) ≡ contains key (Dict.get_or hop [] d)
unfolding by_sorted_hops
sorted_hops-lookup d hop key h =
    sorted_each (Sort.sorted (λ p q. leb p.0 q.0) d) hop key
    ∙ ap (λ o. contains key (elim o as (λ _. List String) [ none ↦ [] | some v ↦ v ]))
        (Sort.get-sorted (λ p q. leb p.0 q.0) hop d h)

-- What the search found before it is sorted: under a number of hops the services at that distance.
pub bfs_index-found :
    (index : EdgeIndex) (rel : EdgeKind) (limit : ℕ) (start : String)
    → (d : Dict ℕ (List String)) × (sort_found (bfs_index index rel limit start)
        ≡ some (by_sorted_hops d))
      × Dict.IsDistinct d
      × ((hop : ℕ) (key : String)
          → contains key (Dict.get_or hop [] d)
            ≡ is_distance (step_by index rel) start limit hop key)
unfolding bfs_index sort_found
bfs_index-found index rel limit start =
    let step = step_by index rel in
    let everywhere = reach (Dict.values index) in
    let (d, seen, ends, s) =
      search-IsSearch step everywhere start limit (suc (length everywhere)) ((start, 0) ∷ [])
        (start_at start) (λ key. reach-listed ((NodeKind.service, key), rel) index)
        (start-IsSearch step start limit)
        (omega (arith, length-keep (λ k. not (contains k (start ∷ []))) everywhere)) in
    (d, ap sort_found ends, s.distinct, λ hop key. listed_lem step start limit seen d s hop key)

bfs_index-IsExact :
    (index : EdgeIndex) (rel : EdgeKind) (limit : ℕ) (start : String)
    → IsExact (step_by index rel) start limit (sort_found (bfs_index index rel limit start))
unfolding IsExact
bfs_index-IsExact index rel limit start =
    let (d, ends, distinct, listed) = bfs_index-found index rel limit start in
    (by_sorted_hops d, ends, λ hop key. sorted_hops-lookup d hop key distinct ∙ listed hop key)

-- The edges that the search follows.
abbrev pub side : GraphStore → Bool → EdgeIndex
side s true = s.out
side s false = s.into

-- The search always ends. From a service of the graph, it lists under a number of hops exactly the
-- services whose distance along the edges is that number, from one to `max_hops`.
pub bfs_services_distances :
    (s : GraphStore) (start : String) (rel : EdgeKind) (outgoing : Bool) (max_hops : ℕ)
    → has_node s (NodeKind.service, start) ≡ true
    → (d : Dict ℕ (List String)) × (bfs_services s start rel outgoing max_hops ≡ some d)
      × ((hop : ℕ) (key : String)
          → contains key (Dict.get_or hop [] d)
            ≡ is_distance (step_by (side s outgoing) rel) start max_hops hop key)
unfolding bfs_services IsExact
bfs_services_distances s start rel true max_hops there =
    rw (there, if◌then◌else◌) (bfs_index-IsExact s.out rel max_hops start)
bfs_services_distances s start rel false max_hops there =
    rw (there, if◌then◌else◌) (bfs_index-IsExact s.into rel max_hops start)
