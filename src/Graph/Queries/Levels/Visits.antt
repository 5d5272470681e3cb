-- ===== src/Graph/Queries/Levels/Visits.antt =====
-- Each turn of the queue search of backend/graph/queries.py keeps its invariant.
use vectural.Prelude.{
  ℕ, zero, suc, ◌+◌, ◌≤◌, ◌<◌, ◌≡◌, ◌⊎◌, inl, inr, sym, ap, ◌∙◌, subst, true, false, String, List,
  [], ◌∷◌, ◌++◌, contains, string_key, nat_key, pair_key, ◌==◌, ==_refl, contains-here,
  contains-last, contains-more, All, All-append, All-mono, arith, Bool-cases, some_of-intro,
  some_of-elim,
}
use vectural.Prelude.Dict
use vectural.Prelude.Dict.{Dict}
use vectural.Graph.Queries.{record_hop}
use vectural.Graph.Queries.Levels.{Queue, reaches, IsOrdered, at, IsClosed, IsSearch, at_record}

module _ (step : String → List String) (start : String) (limit : ℕ) where
  pub reaches_step :
      (m : ℕ) (a j k : String)
      → reaches step m a j ≡ true
      → contains k (step j) ≡ true
      → reaches step (suc m) a k ≡ true
  unfolding reaches
  reaches_step zero a j k e f =
      let inside : contains k (step a) ≡ true =
        subst (λ x. contains k (step x) ≡ true) (sym ((string_key.same_iff a j).0 e)) f in
      some_of-intro (λ b. reaches step 0 b k) k (step a) inside (==_refl k)
  reaches_step (suc m) a j k e f =
      let (b, inside, rest) = some_of-elim (λ b. reaches step m b j) (step a) e in
      some_of-intro (λ b. reaches step (suc m) b k) b (step a) inside (reaches_step m b j k rest f)

  module _ (c : ℕ) (n : String) (d : Dict ℕ (List String)) where
    at_old :
        (h : ℕ) (k : String)
        → at step start limit d h k ≡ true
        → at step start limit (record_hop c n d) h k ≡ true
    at_old h k e = at_record step start limit c n d h k ∙ ground (arith, e)

    at_new : at step start limit (record_hop c n d) c n ≡ true
    at_new = at_record step start limit c n d c n ∙ ground (arith, ==_refl n, ==_refl c)

    pub push_old :
        ((h : ℕ) (k : String)
          → at step start limit d h k ≡ true
          → at step start limit (record_hop c n d) h k ≡ true)
        × (at step start limit (record_hop c n d) c n ≡ true)
    push_old = (at_old, at_new)

    at_cases :
        (h : ℕ) (k : String)
        → at step start limit (record_hop c n d) h k ≡ true
        → (at step start limit d h k ≡ true) ⊎ ((h ≡ c) × (k ≡ n))
    at_cases h k e = elim (Bool-cases (at step start limit d h k)) [
      | inl old ↦ inl old
      | inr new ↦ inr (
          ground (
            arith,
            new,
            sym (at_record step start limit c n d h k) ∙ e,
            nat_key.same_iff c h,
            string_key.same_iff k n,
          ))
    ]

  IsOrdered-append :
      (q : Queue) (n : String) (c : ℕ)
      → IsOrdered q
      → All (λ p. p.1 ≤ c) q
      → IsOrdered (q ++ (n, c) ∷ [])
  IsOrdered-append [] n c o h = (tt, tt)
  IsOrdered-append (p ∷ q) n c o h =
      (All-append (λ r. p.1 ≤ r.1) q ((n, c) ∷ []) o.0 (h.0, tt), IsOrdered-append q n c o.1 h.1)

  -- A neighbour that was not seen is found one hop after the service at the queue's head.
  module _ (key n : String) (c : ℕ) (fr : Queue) (seen : List String) (d : Dict ℕ (List String))
      (s : IsSearch step start limit ((key, c) ∷ fr) seen d) (fresh : contains n seen ≡ false) where
    after : Dict ℕ (List String)
    after = record_hop (c + 1) n d

    push_seen_at :
        (k : String)
        → contains k (n ∷ seen) ≡ true
        → (h : ℕ) × (at step start limit after h k ≡ true)
    unfolding after
    push_seen_at k e = elim (Bool-cases (k == n)) [
      | inl same ↦ (
        c + 1,
        subst (λ x. at step start limit after (c + 1) x ≡ true)
            (sym ((string_key.same_iff k n).0 same)) (at_new (c + 1) n d),
      )
      | inr other ↦
          (let (h, was) = s.seen_at k (ground (arith, e, other)) in (h, at_old (c + 1) n d h k was))
    ]

    push_at_seen :
        (h : ℕ) (k : String) → at step start limit after h k ≡ true → contains k (n ∷ seen) ≡ true
    unfolding after
    push_at_seen h k e = elim (at_cases (c + 1) n d h k e) [
      | inl was ↦ ground (arith, s.at_seen h k was)
      | inr (hop, same) ↦ contains-here n k seen same
    ]

    unseen : (h : ℕ) (k : String) → at step start limit d h k ≡ true → k ≡ n → h ≡ suc h
    unseen h k e same =
        absurd (ground (arith, fresh, subst (λ x. contains x seen ≡ true) same (s.at_seen h k e)))

    push_at_once :
        (h j : ℕ) (k : String)
        → at step start limit after h k ≡ true
        → at step start limit after j k ≡ true
        → h ≡ j
    unfolding after
    push_at_once h j k e f = elim (at_cases (c + 1) n d h k e) [
      | inl was ↦ elim (at_cases (c + 1) n d j k f) [
        | inl too ↦ s.at_once h j k was too
        | inr (hop, same) ↦ absurd (omega (arith, unseen h k was same))
      ]
      | inr (hop, same) ↦ elim (at_cases (c + 1) n d j k f) [
        | inl too ↦ absurd (omega (arith, unseen j k too same))
        | inr (hop', same') ↦ hop ∙ sym hop'
      ]
    ]

    push_at_reaches :
        contains n (step key) ≡ true
        → (h : ℕ) (k : String) → at step start limit after h k ≡ true
        → reaches step h start k ≡ true
    unfolding after
    push_at_reaches edge h k e = elim (at_cases (c + 1) n d h k e) [
      | inl was ↦ s.at_reaches h k was
      | inr (hop, same) ↦
          (let next : suc c ≡ h = omega (arith, hop) in
            subst (λ (p : ℕ × String). reaches step p.0 start p.1 ≡ true)
              (λ i. (next i, sym same i))
              (reaches_step c start key n (s.at_reaches c key s.queued.0) edge))
    ]

    push_at_limit :
        c < limit → (h : ℕ) (k : String) → at step start limit after h k ≡ true → h ≤ limit
    unfolding after
    push_at_limit below h k e = elim (at_cases (c + 1) n d h k e) [
      | inl was ↦ s.at_limit h k was
      | inr (hop, same) ↦ omega (arith, hop, below)
    ]

    -- the queue holds nothing further than one hop from its head
    near : All (λ p. p.1 ≤ c + 1) fr
    near = All-mono _ _ fr (λ p e. (s.ahead p.1 p.0 e).0) s.queued.1

    push_queued :
        All (λ p. at step start limit after p.1 p.0 ≡ true) ((key, c) ∷ (fr ++ (n, c + 1) ∷ []))
    unfolding after
    push_queued = (
      at_old (c + 1) n d c key s.queued.0,
      All-append _ fr ((n, c + 1) ∷ [])
          (All-mono _ _ fr (λ p e. at_old (c + 1) n d p.1 p.0 e) s.queued.1)
          (at_new (c + 1) n d, tt),
    )

    push_ahead :
        (h : ℕ) (k : String)
        → at step start limit after h k ≡ true
        → All (λ p. h ≤ p.1 + 1) ((key, c) ∷ (fr ++ (n, c + 1) ∷ []))
    unfolding after
    push_ahead h k e = elim (at_cases (c + 1) n d h k e) [
      | inl was ↦
          (let far = s.ahead h k was in
            (far.0, All-append _ fr ((n, c + 1) ∷ []) far.1 (omega (arith, far.0), tt)))
      | inr (hop, same) ↦ (
        omega (arith, hop),
        All-append _ fr ((n, c + 1) ∷ [])
            (All-mono _ _ fr (λ p le. omega (arith, hop, le)) s.ordered.0) (omega (arith, hop), tt),
      )
    ]

    push_left :
        (h : ℕ) (k : String)
        → at step start limit after h k ≡ true
        → h < limit
        → (contains (k, h) ((key, c) ∷ (fr ++ (n, c + 1) ∷ [])) ≡ true)
          ⊎ IsClosed step start limit after h k
    unfolding after
    push_left h k e below = elim (at_cases (c + 1) n d h k e) [
      | inl was ↦ elim (s.left h k was below) [
        | inl waits ↦
            inl (contains-more {A = String × ℕ} (k, h) ((key, c) ∷ fr) ((n, c + 1) ∷ []) waits)
        | inr closed ↦
            inr (λ m edge.
              let (j, there, le) = closed m edge in (j, at_old (c + 1) n d j m there, le))
      ]
      | inr (hop, same) ↦
          inl (
            contains-last {A = String × ℕ} (n, c + 1) (k, h) ((key, c) ∷ fr) (λ i. (same i, hop i)))
    ]

    pub push-IsSearch :
        contains n (step key) ≡ true
        → c < limit
        → IsSearch step start limit
            ((key, c) ∷ (fr ++ (n, c + 1) ∷ []))
            (n ∷ seen)
            (record_hop (c + 1) n d)
    unfolding after
    push-IsSearch edge below = record {
      seen_at = push_seen_at;
      at_seen = push_at_seen;
      at_reaches = push_at_reaches edge;
      at_once = push_at_once;
      distinct = Dict.set-IsDistinct (c + 1) _ d s.distinct;
      none_at_zero = λ k.
          ap (contains k) (Dict.get_or-set (c + 1) 0 [] (Dict.get_or (c + 1) [] d ++ n ∷ []) d)
          ∙ ground (arith, s.none_at_zero k);
      at_limit = push_at_limit below;
      queued = push_queued;
      ahead = push_ahead;
      ordered = (
        All-append (λ r. c ≤ r.1) fr ((n, c + 1) ∷ []) s.ordered.0 (omega arith, tt),
        IsOrdered-append fr n (c + 1) s.ordered.1 near,
      );
      left = push_left;
    }
