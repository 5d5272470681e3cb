-- ===== src/Graph/Detach.antt =====
-- The cascade of `delete_node` in backend/graph/store.py, on the two indices, for any nodes and kinds
-- of edges: no edge at the node is left, in either index.
use vectural.Prelude.{
  ◌≡◌, sym, ◌∙◌, Bool, true, false, not, ◌&&◌, ◌||◌, List, [], ◌∷◌, contains, Key, pair_key,
  string_key, ◌==◌, if◌then◌else◌, if_ind, arith,
}
use vectural.Prelude.Dict
use vectural.Prelude.Dict.{Dict}
use vectural.Graph.Index.{linked, prune, linked-prune, linked-remove}

-- By node and kind of edge, the nodes at the other ends.
abbrev pub Adjacency : Type 0 → Type 0 → Type 0
Adjacency N L = Dict (N × L) (List N)

module _ {N L : Type 0} ⦃n : Key N⦄ ⦃l : Key L⦄ where
  -- `for dst in dsts: self._prune(index, (dst, rel), ref)`
  prune_each : L → N → List N → Adjacency N L → Adjacency N L
  prune_each rel ref [] index = index
  prune_each rel ref (dst ∷ dsts) index = prune_each rel ref dsts (prune (dst, rel) ref index)

  -- One of the two loops of `delete_node`, over the entries of one index: what `ref` lists there is
  -- deleted, and `ref` is taken out of the other index. The two loops differ only in which is which.
  pub detach : N → Adjacency N L → Adjacency N L → Adjacency N L → Adjacency N L × Adjacency N L
  unfolding prune_each
  detach ref [] own other = (own, other)
  detach ref (((src, rel), dsts) ∷ items) own other =
      let skip = detach ref items own other in
      let cut = detach ref items (Dict.remove (src, rel) own) (prune_each rel ref dsts other) in
      if src == ref then cut else skip

  unfoldable pub drop_edges : N → Adjacency N L → Adjacency N L → Adjacency N L × Adjacency N L
  unfolding detach
  drop_edges ref out into =
      let first = detach ref out out into in
      let second = detach ref first.1 first.1 first.0 in (second.1, second.0)

  -- an entry of `items` lists `ref` under the kind of edge
  keyed : N → L → Adjacency N L → Bool
  keyed ref rel [] = false
  keyed ref rel (((src, r), dsts) ∷ items) = (src == ref && r == rel) || keyed ref rel items

  -- an entry of `items` lists `dst` as a neighbour of `ref`
  covers : N → L → N → Adjacency N L → Bool
  covers ref rel dst [] = false
  covers ref rel dst (((src, r), dsts) ∷ items) =
      (src == ref && r == rel && contains dst dsts) || covers ref rel dst items

  linked-prune_each :
      (rel : L) (ref : N) (dsts : List N) (index : Adjacency N L) (d : N) (r : L) (w : N)
      → linked (prune_each rel ref dsts index) (d, r) w
        ≡ (linked index (d, r) w && not (w == ref && rel == r && contains d dsts))
  unfolding prune_each
  linked-prune_each rel ref [] index d r w = ground arith
  linked-prune_each rel ref (dst ∷ dsts) index d r w =
      linked-prune_each rel ref dsts (prune (dst, rel) ref index) d r w
      ∙ ground
          (arith, linked-prune (dst, rel) (d, r) ref w index, n.same_iff dst d, n.same_iff d dst)

  -- What one loop leaves of both indices.
  linked-detach :
      (ref : N) (items own other : Adjacency N L) (d : N) (r : L) (w : N)
      → (linked (detach ref items own other).0 (d, r) w
          ≡ (linked own (d, r) w && not (d == ref && keyed ref r items)))
        × (linked (detach ref items own other).1 (d, r) w
            ≡ (linked other (d, r) w && not (w == ref && covers ref r d items)))
  unfolding detach keyed covers
  linked-detach ref [] own other d r w = (ground arith, ground arith)
  linked-detach ref (((src, rel), dsts) ∷ items) own other d r w =
      let removed = Dict.remove (src, rel) own in
      let pruned = prune_each rel ref dsts other in
      let cut = linked-detach ref items removed pruned d r w in
      let skip = linked-detach ref items own other d r w in
      if_ind
        (λ (t : Adjacency N L × Adjacency N L).
          (linked t.0 (d, r) w
            ≡ (linked own (d, r) w && not (d == ref && keyed ref r (((src, rel), dsts) ∷ items))))
          × (linked t.1 (d, r) w ≡ (
              linked other (d, r) w
              && not (w == ref && covers ref r d (((src, rel), dsts) ∷ items)))))
        (src == ref)
        (λ e. (
          cut.0
              ∙ ground (
                arith,
                e,
                linked-remove (src, rel) (d, r) w own,
                n.same_iff src ref,
                n.same_iff d ref,
                n.same_iff src d,
              ),
          cut.1 ∙ ground (arith, e, linked-prune_each rel ref dsts other d r w),
        ))
        (λ e. (skip.0 ∙ ground (arith, e), skip.1 ∙ ground (arith, e)))

  -- A neighbour that an index lists stands in an entry of it.
  covers-linked :
      (ref : N) (r : L) (d : N) (index : Adjacency N L)
      → linked index (ref, r) d ≡ true
      → covers ref r d index ≡ true
  unfolding covers Dict.get
  covers-linked ref r d [] h = ground (arith, h)
  covers-linked ref r d (((src, rel), dsts) ∷ items) h =
      ground (arith, h, covers-linked ref r d items)

  keyed-linked :
      (ref : N) (r : L) (d : N) (index : Adjacency N L)
      → linked index (ref, r) d ≡ true
      → keyed ref r index ≡ true
  unfolding keyed Dict.get
  keyed-linked ref r d [] h = ground (arith, h)
  keyed-linked ref r d (((src, rel), dsts) ∷ items) h =
      ground (arith, h, keyed-linked ref r d items)

  -- The two indices hold the same edges, each from its side.
  abbrev pub IsMirrored : Adjacency N L → Adjacency N L → Type 0
  IsMirrored out into = (s : N) (r : L) (d : N) → linked out (s, r) d ≡ linked into (d, r) s

  -- The two indices hold the edges of `index` that do not start at `ref`.
  detach_one :
      (ref : N) (own other : Adjacency N L) (s : N) (r : L) (d : N)
      → IsMirrored own other
      → (linked (detach ref own own other).0 (s, r) d ≡ (linked own (s, r) d && not (s == ref)))
        × (linked (detach ref own own other).1 (d, r) s ≡ (linked own (s, r) d && not (s == ref)))
  detach_one ref own other s r d mirror = (
    (linked-detach ref own own other s r d).0
        ∙ ground (arith, n.same_iff s ref, keyed-linked ref r d own),
    (linked-detach ref own own other d r s).1
        ∙ ground (arith, mirror s r d, n.same_iff s ref, covers-linked ref r d own),
  )

  pub drop_edges_lem :
      (ref : N) (out into : Adjacency N L) (s : N) (r : L) (d : N)
      → IsMirrored out into
      → (linked (drop_edges ref out into).0 (s, r) d
          ≡ (linked out (s, r) d && not (s == ref || d == ref)))
        × (linked (drop_edges ref out into).1 (d, r) s
            ≡ (linked out (s, r) d && not (s == ref || d == ref)))
  unfolding drop_edges
  drop_edges_lem ref out into s r d mirror =
      let first = detach ref out out into in
      let once = detach_one ref out into s r d mirror in
      let mirrored : IsMirrored first.1 first.0 =
        λ a b c. let p = detach_one ref out into c b a mirror in p.1 ∙ sym p.0 in
      let twice = detach_one ref first.1 first.0 d r s mirrored in
      (twice.1 ∙ ground (arith, once.1), twice.0 ∙ ground (arith, once.1))
