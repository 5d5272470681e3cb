-- ===== src/Graph/Queries/Levels/Turns.antt =====
-- The two loops of `_bfs_services` in backend/graph/queries.py: the search ends, and what it found
-- satisfies the invariant with an empty queue.
use vectural.Prelude.{
  ℕ, zero, suc, ◌+◌, ◌≤◌, ◌<◌, ◌≡◌, inl, inr, refl, sym, ap, subst, true, false, not, String, some,
  List, [], ◌∷◌, contains, contains-here, pair_beq_iff, string_key, nat_key, pair_key, ◌==◌, All,
  All-mono, All-contains, arith, Bool-cases, if_ind, leb, leb→le, keep, length, length-append,
}
use vectural.Prelude.Dict.{Dict}
use vectural.Graph.Queries.{Search, found, visit, expand, search}
use vectural.Graph.Queries.Levels.{Queue, at, IsClosed, IsSearch}
use vectural.Graph.Queries.Levels.Visits.{push-IsSearch, push_old}

-- how many of the keys are not seen
abbrev unseen_in : List String → List String → ℕ
unseen_in all_keys seen = length (keep (λ k. not (contains k seen)) all_keys)

unseen_in-le :
    (all_keys : List String) (n : String) (seen : List String)
    → unseen_in all_keys (n ∷ seen) ≤ unseen_in all_keys seen
unseen_in-le [] n seen = omega arith
unseen_in-le (k ∷ ks) n seen = ground (arith, unseen_in-le ks n seen)

unseen_in-lt :
    (all_keys : List String) (n : String) (seen : List String)
    → contains n all_keys ≡ true
    → contains n seen ≡ false
    → unseen_in all_keys (n ∷ seen) < unseen_in all_keys seen
unseen_in-lt [] n seen h f = absurd (ground (arith, h))
unseen_in-lt (k ∷ ks) n seen h f = elim (Bool-cases (n == k)) [
  | inl same ↦
      (let absent : contains k seen ≡ false =
          subst (λ x. contains x seen ≡ false) ((string_key.same_iff n k).0 same) f in
        ground (
          arith,
          absent,
          unseen_in-le ks n seen,
          same,
          string_key.same_iff k n,
          string_key.same_iff n k,
        ))
  | inr other ↦ ground (
    arith,
    unseen_in-lt ks n seen (ground (arith, h, other)) f,
    string_key.same_iff k n,
    string_key.same_iff n k,
    other,
  )
]

module _ (step : String → List String) (start : String) (limit : ℕ) where
  abbrev IsFound : ℕ → Dict ℕ (List String) → String → Type 0
  IsFound c d n = (e : ℕ) × (at step start limit d e n ≡ true) × (e ≤ c)

  -- What the loop over some neighbours of a service leaves.
  abbrev IsVisited : String → ℕ → List String → Search → Search → Type 0
  IsVisited key c ns q r =
      IsSearch step start limit ((key, c) ∷ r.frontier) r.seen r.by_hop
      × ((h : ℕ) (k : String)
          → at step start limit q.by_hop h k ≡ true
          → at step start limit r.by_hop h k ≡ true)
      × All (IsFound (c + 1) r.by_hop) ns

  visit-IsVisited :
      (key : String) (c : ℕ) (ns : List String) (q : Search)
      → IsSearch step start limit ((key, c) ∷ q.frontier) q.seen q.by_hop
      → All (λ n. contains n (step key) ≡ true) ns
      → c < limit
      → IsVisited key c ns q (visit (c + 1) ns q)
  unfolding visit found
  visit-IsVisited key c [] q s edges below = (s, λ h k e. e, tt)
  visit-IsVisited key c (n ∷ ns) q s edges below =
      if_ind (IsVisited key c (n ∷ ns) q) (contains n q.seen)
        (λ was.
          let (t, grows, all) = visit-IsVisited key c ns q s edges.1 below in
          let (h, there) = s.seen_at n was in
          (t, grows, ((h, grows h n there, (s.ahead h n there).0), all)))
        (λ new.
          let pushed =
            push-IsSearch step start limit key n c q.frontier q.seen q.by_hop s new edges.0 below in
          let (t, grows, all) = visit-IsVisited key c ns (found (c + 1) n q) pushed edges.1 below in
          let (kept, added) = push_old step start limit (c + 1) n q.by_hop in
          (t, λ h k e. grows h k (kept h k e), ((c + 1, grows (c + 1) n added, omega arith), all)))

  pop-IsSearch :
      (key : String) (c : ℕ) (fr : Queue) (seen : List String) (d : Dict ℕ (List String))
      → IsSearch step start limit ((key, c) ∷ fr) seen d
      → (c < limit → IsClosed step start limit d c key)
      → IsSearch step start limit fr seen d
  pop-IsSearch key c fr seen d s closed = record {
    seen_at = s.seen_at;
    at_seen = s.at_seen;
    at_reaches = s.at_reaches;
    at_once = s.at_once;
    distinct = s.distinct;
    none_at_zero = s.none_at_zero;
    at_limit = s.at_limit;
    queued = s.queued.1;
    ahead = λ h k e. (s.ahead h k e).1;
    ordered = s.ordered.1;
    left = λ h k e below. elim (s.left h k e below) [
      | inl waits ↦ elim (Bool-cases (contains {A = String × ℕ} (k, h) ((key, c) ∷ []))) [
        | inl same ↦
            (let at_head : (k, h) ≡ (key, c) =
                (pair_beq_iff (k, h) (key, c)).0 (ground (arith, same)) in
              inr (
                subst (λ (p : String × ℕ). IsClosed step start limit d p.1 p.0) (sym at_head)
                  (closed (omega (arith, below, ap (λ p. p.1) at_head)))))
        | inr other ↦ inl (ground (arith, waits, other))
      ]
      | inr done ↦ inr done
    ];
  }

  self_edges : (ns : List String) → All (λ n. contains n ns ≡ true) ns
  self_edges [] = tt
  self_edges (n ∷ ns) =
      (contains-here n n ns refl, All-mono _ _ ns (λ m e. ground (arith, e)) (self_edges ns))

  -- One turn of the loop over the queue.
  expand-IsSearch :
      (key : String) (c : ℕ) (q : Search)
      → IsSearch step start limit ((key, c) ∷ q.frontier) q.seen q.by_hop
      → (let r = expand step limit key c q in IsSearch step start limit r.frontier r.seen r.by_hop)
  unfolding expand
  expand-IsSearch key c q s =
      if_ind (λ (r : Search). IsSearch step start limit r.frontier r.seen r.by_hop) (leb limit c)
        (λ e.
          pop-IsSearch key c q.frontier q.seen q.by_hop s
            (λ below. absurd (omega (arith, below, leb→le limit c e))))
        (λ e.
          let below : c < limit = ground (arith, e) in
          let (t, grows, all) =
            visit-IsVisited key c (step key) q s (self_edges (step key)) below in
          let r = visit (c + 1) (step key) q in
          pop-IsSearch key c r.frontier r.seen r.by_hop t
            (λ _ m edge. All-contains (IsFound (c + 1) r.by_hop) m (step key) edge all))

module _ (step : String → List String) (all_keys : List String) where
  abbrev work : Search → ℕ
  work q = length q.frontier + unseen_in all_keys q.seen

  visit-work :
      (hop : ℕ) (ns : List String) (q : Search)
      → All (λ n. contains n all_keys ≡ true) ns
      → work (visit hop ns q) ≤ work q
  unfolding visit found
  visit-work hop [] q h = omega arith
  visit-work hop (n ∷ ns) q h =
      if_ind (λ (r : Search). work r ≤ work q) (contains n q.seen) (λ e. visit-work hop ns q h.1)
        (λ e. omega (
          arith,
          visit-work hop ns (found hop n q) h.1,
          length-append q.frontier ((n, hop) ∷ []),
          unseen_in-lt all_keys n q.seen h.0 e,
        ))

  expand-work :
      (limit : ℕ) (key : String) (c : ℕ) (q : Search)
      → All (λ n. contains n all_keys ≡ true) (step key)
      → work (expand step limit key c q) ≤ work q
  unfolding expand
  expand-work limit key c q h =
      if_ind (λ (r : Search). work r ≤ work q) (leb limit c) (λ e. omega arith)
        (λ e. visit-work (c + 1) (step key) q h)

  -- With the fuel that its work asks for, the search ends, in the invariant and with nothing queued.
  pub search-IsSearch :
      (start : String) (limit fuel : ℕ) (queue : Queue) (q : Search)
      → ((key : String) → All (λ n. contains n all_keys ≡ true) (step key))
      → IsSearch step start limit queue q.seen q.by_hop
      → length queue + unseen_in all_keys q.seen ≤ fuel
      → (d : Dict ℕ (List String)) × (seen : List String) × (search step limit fuel queue q
          ≡ some d)
        × IsSearch step start limit [] seen d
  unfolding search
  search-IsSearch start limit fuel [] q known s enough = (q.by_hop, q.seen, refl, s)
  search-IsSearch start limit zero (p ∷ queue) q known s enough = absurd (omega (arith, enough))
  search-IsSearch start limit (suc fuel) ((key, c) ∷ queue) q known s enough =
      let here = record q { frontier = queue } in
      let next = expand step limit key c here in
      search-IsSearch start limit fuel next.frontier next known
        (expand-IsSearch step start limit key c here s)
        (omega (arith, enough, expand-work limit key c here (known key)))
