-- ===== src/Graph/Queries/Within.antt =====
-- All that `service_dependencies` of backend/graph/queries.py finds, whatever the hop.
use vectural.Prelude.{
  ℕ, zero, suc, ◌≤◌, ◌<◌, ◌≡◌, refl, sym, ap, ◌∙◌, Bool, true, false, not, ◌&&◌, ◌||◌, String,
  Option, none, some, List, [], ◌∷◌, ◌++◌, map, contains, contains-append, string_key, nat_key,
  ◌==◌, arith, Bool-cases, inl, inr, if◌then◌else◌, leb, pair_key,
}
use vectural.Prelude.Dict
use vectural.Prelude.Dict.{Dict}
use vectural.Prelude.Sort
use vectural.Prelude.Text.{str_le}
use vectural.Domain.Graph.{NodeKind, EdgeKind, node_kind_key}
use vectural.Graph.Store.{GraphStore, has_node}
use vectural.Graph.Queries.{step_by, by_sorted_hops, bfs_services, service_dependencies}
use vectural.Graph.Queries.Levels.{reaches}
use vectural.Graph.Queries.Levels.Distance.{reaches_before, is_distance, before-intro}
use vectural.Graph.Queries.Services.{bfs_index-found}

abbrev pub all_of : Dict ℕ (List String) → List String
all_of [] = []
all_of ((hop, keys) ∷ d) = keys ++ all_of d

-- Another service that is at most `hops` calls away from a service of the graph.
unfoldable pub is_within : GraphStore → ℕ → String → String → Bool
is_within s hops start key =
    has_node s (NodeKind.service, start)
    && not (start == key)
    && reaches_before (step_by s.out EdgeKind.calls) (suc hops) start key

all_of-insert :
    (le : ℕ × List String → ℕ × List String → Bool) (key : String) (p : ℕ × List String)
    (d : Dict ℕ (List String))
    → contains key (all_of (Sort.insert le p d)) ≡ (contains key p.1 || contains key (all_of d))
unfolding Sort.insert
all_of-insert le key p [] = contains-append key p.1 [] ∙ ground arith
all_of-insert le key p (q ∷ d) = elim (Bool-cases (le p q)) [
  | inl first ↦ rw (first, if◌then◌else◌) (contains-append key p.1 (all_of (q ∷ d)))
  | inr later ↦
      (let rest = all_of-insert le key p d in
        let split = contains-append key q.1 (all_of (Sort.insert le p d)) in
        let whole = contains-append key q.1 (all_of d) in
        rw (later, if◌then◌else◌) (ground (arith, rest, split, whole)))
]

all_of-sorted :
    (le : ℕ × List String → ℕ × List String → Bool) (key : String) (d : Dict ℕ (List String))
    → contains key (all_of (Sort.sorted le d)) ≡ contains key (all_of d)
unfolding Sort.sorted
all_of-sorted le key [] = refl
all_of-sorted le key (p ∷ d) =
    all_of-insert le key p (Sort.sorted le d)
    ∙ ap (λ b. contains key p.1 || b) (all_of-sorted le key d)
    ∙ sym (contains-append key p.1 (all_of d))

all_of-map :
    (key : String) (d : Dict ℕ (List String))
    → contains key (all_of (map (λ p. (p.0, Sort.sorted str_le p.1)) d)) ≡ contains key (all_of d)
all_of-map key [] = refl
all_of-map key ((hop, keys) ∷ d) =
    contains-append key (Sort.sorted str_le keys) _
    ∙ (let one = Sort.contains-sorted str_le key keys in
        let rest = all_of-map key d in
        let whole = contains-append key keys (all_of d) in ground (arith, one, rest, whole))

all_of-by_sorted_hops :
    (key : String) (d : Dict ℕ (List String))
    → contains key (all_of (by_sorted_hops d)) ≡ contains key (all_of d)
unfolding by_sorted_hops
all_of-by_sorted_hops key d =
    all_of-map key (Sort.sorted (λ p q. leb p.0 q.0) d) ∙ all_of-sorted (λ p q. leb p.0 q.0) key d

listed_all :
    (hop : ℕ) (key : String) (d : Dict ℕ (List String))
    → contains key (Dict.get_or hop [] d) ≡ true
    → contains key (all_of d) ≡ true
unfolding Dict.get
listed_all hop key [] h = h
listed_all hop key ((j, keys) ∷ d) h =
    contains-append key keys (all_of d) ∙ ground (arith, h, listed_all hop key d)

all_listed :
    (key : String) (d : Dict ℕ (List String))
    → Dict.IsDistinct d
    → contains key (all_of d) ≡ true
    → (hop : ℕ) × (contains key (Dict.get_or hop [] d) ≡ true)
unfolding Dict.get
all_listed key [] distinct h = absurd (ground (arith, h))
all_listed key ((j, keys) ∷ d) distinct h = elim (Bool-cases (contains key keys)) [
  | inl here ↦ (j, ground (arith, here, nat_key.same_iff j j))
  | inr elsewhere ↦
      (let split = contains-append key keys (all_of d) in
        let (hop, there) = all_listed key d distinct.1 (ground (arith, h, split, elsewhere)) in
        (hop, ground (arith, there, nat_key.same_iff j hop, Dict.get-congr d j hop distinct.0)))
]

module _ (step : String → List String) (start key : String) (limit : ℕ) where
  at_zero : reaches step 0 start key ≡ (start == key)
  unfolding reaches
  at_zero = refl

  nearest :
      (n : ℕ)
      → (start == key) ≡ false
      → n ≤ limit
      → reaches_before step (suc n) start key ≡ true
      → (hop : ℕ) × (is_distance step start limit hop key ≡ true)
  unfolding reaches_before is_distance
  nearest zero apart le h = absurd (ground (arith, apart, h, at_zero))
  nearest (suc n) apart le h = elim (Bool-cases (reaches_before step (suc n) start key)) [
    | inl sooner ↦ nearest n apart (omega (arith, le)) sooner
    | inr never ↦ (suc n, ground (arith, le, never, h))
  ]

  distance_before :
      (hop : ℕ)
      → is_distance step start limit hop key ≡ true
      → (not (start == key) && reaches_before step (suc limit) start key) ≡ true
  unfolding is_distance
  distance_before hop h =
      let positive : 0 < hop = ground (arith, h) in
      let short : hop < suc limit = ground (arith, h) in
      let sooner = before-intro step hop (suc limit) start key short (ground (arith, h)) in
      let never : reaches_before step hop start key ≡ false = ground (arith, h) in
      let apart : (start == key) ≡ true → reaches_before step hop start key ≡ true =
        λ same. before-intro step 0 hop start key positive (at_zero ∙ same) in
      ground (arith, sooner, never, apart)

same_truth : (a b : Bool) → (a ≡ true → b ≡ true) → (b ≡ true → a ≡ true) → a ≡ b
same_truth a b f g = ground (arith, f, g)

abbrev pub found_of : Option (Dict ℕ (List String)) → List String
found_of none = []
found_of (some d) = all_of d

-- All the services that the search lists are those within the hops.
pub service_dependencies_within :
    (s : GraphStore) (start : String) (hops : ℕ) (key : String)
    → contains key (found_of (service_dependencies s start hops)) ≡ is_within s hops start key
unfolding service_dependencies bfs_services is_within
service_dependencies_within s start hops key =
    elim (Bool-cases (has_node s (NodeKind.service, start))) [
      | inl here ↦
          (let step = step_by s.out EdgeKind.calls in
            let (d, ends, distinct, listed) = bfs_index-found s.out EdgeKind.calls hops start in
            rw (here, if◌then◌else◌)
              (ap (λ o. contains key (found_of o)) ends
                ∙ all_of-by_sorted_hops key d
                ∙ same_truth (contains key (all_of d))
                    (not (start == key) && reaches_before step (suc hops) start key)
                    (λ h.
                      (let (hop, there) = all_listed key d distinct h in
                        distance_before step start key hops hop (sym (listed hop key) ∙ there)))
                    (λ h.
                      (let (hop, near) =
                          nearest step start key hops hops (ground (arith, h)) (omega arith)
                            (ground (arith, h)) in
                        listed_all hop key d (listed hop key ∙ near)))))
      | inr absent ↦ rw (absent, if◌then◌else◌) refl
    ]
