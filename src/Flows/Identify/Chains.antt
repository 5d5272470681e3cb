-- ===== src/Flows/Identify/Chains.antt =====
-- The call chains of backend/flows/identify.py: exactly the simple paths of calls that can grow no
-- further.
use vectural.Prelude.{
  ℕ, zero, suc, ◌+◌, ◌-◌, ◌≤◌, ◌≡◌, refl, sym, ap, ◌∙◌, subst, Bool, true, false, ◌&&◌, ◌||◌,
  String, List, [], ◌∷◌, ◌++◌, length, length-append, contains, contains-here, string_key, list_key,
  nat_key, ◌==◌, ==_refl, if_ind, leb, all_of, All, All-append, All-contains, All-mono, arith,
  append_assoc, append-nil,
}
use vectural.Flows.Identify.Paths.{
  last_of, is_simple, last_of-append, is_simple-append, called_fresh, all_inside, contains-each,
  contains-fresh, simple_next, none_fresh,
}
use vectural.Flows.Identify.{each, no_further, extend, fresh_callees, dfs, walk_calls}

module _ (callees : String → List String) where
  -- each service calls the next
  unfoldable pub steps : String → List String → Bool
  steps s [] = true
  steps s (x ∷ xs) = contains x (callees s) && steps x xs

  -- The path is as long as allowed, or of two services at least and its last calls no other.
  unfoldable pub is_full : ℕ → String → List String → Bool
  is_full limit s xs =
      suc (length xs) == limit
      || (leb 1 (length xs) && all_of (λ c. contains c (s ∷ xs)) (callees (last_of s xs)))

  -- A path of calls from `start`.
  unfoldable pub is_chain : ℕ → String → List String → Bool
  unfolding steps is_simple is_full
  is_chain limit start [] = false
  is_chain limit start (s ∷ xs) =
      start == s
      && steps s xs
      && is_simple (s ∷ xs)
      && leb (suc (length xs)) limit
      && is_full limit s xs

  steps-append :
      (s c : String) (xs : List String)
      → steps s (xs ++ c ∷ []) ≡ (steps s xs && contains c (callees (last_of s xs)))
  unfolding steps
  steps-append s c [] = ground arith
  steps-append s c (x ∷ xs) = ground (arith, steps-append x c xs)

  module _ (start : String) where
    IsGrowing : List String → String → Type 0
    IsGrowing xs last =
        (steps start xs ≡ true) × (is_simple (start ∷ xs) ≡ true) × (last_of start xs ≡ last)

    grow-IsGrowing :
        (xs : List String) (last c : String)
        → IsGrowing xs last
        → contains c (callees last) ≡ true
        → contains c (start ∷ xs) ≡ false
        → IsGrowing (xs ++ c ∷ []) c
    unfolding IsGrowing
    grow-IsGrowing xs last c g called new = (
      steps-append start c xs ∙ ground (arith, g.0, called, ap (λ l. contains c (callees l)) g.2),
      is_simple-append c (start ∷ xs) ∙ ground (arith, g.1, new),
      last_of-append start c xs,
    )

    abbrev Chains : ℕ → List (List String) → Type 0
    Chains limit = All (λ p. is_chain limit start p ≡ true)

    each-Chains :
        (limit : ℕ) (go : String → List (List String)) (cs : List String)
        → All (λ c. Chains limit (go c)) cs
        → Chains limit (each go cs)
    unfolding each
    each-Chains limit go [] h = tt
    each-Chains limit go (c ∷ cs) h =
        All-append _ (go c) (each go cs) h.0 (each-Chains limit go cs h.1)

    grown-chain :
        (limit : ℕ) (xs : List String) (last : String)
        → IsGrowing xs last
        → suc (length xs) ≤ limit
        → is_full limit start xs ≡ true
        → is_chain limit start (start ∷ xs) ≡ true
    unfolding IsGrowing is_chain
    grown-chain limit xs last g le full = ground (arith, g.0, g.1, le, full, ==_refl start)

    no_further-Chains :
        (limit : ℕ) (xs : List String) (last : String)
        → IsGrowing xs last
        → suc (length xs) ≤ limit
        → fresh_callees callees (start ∷ xs) last ≡ []
        → Chains limit (no_further (start ∷ xs))
    unfolding no_further IsGrowing is_full
    no_further-Chains limit xs last g le none_left =
        if_ind (Chains limit) (leb 2 (suc (length xs)))
          (λ e. (grown-chain limit xs last g le (full e), tt)) (λ e. tt)
      where
        full : leb 2 (suc (length xs)) ≡ true → is_full limit start xs ≡ true
        full e =
            let inside = all_inside (start ∷ xs) (callees last) none_left in
            ground (
              arith,
              e,
              subst (λ l. all_of (λ c. contains c (start ∷ xs)) (callees l) ≡ true) (sym g.2)
                  inside,
            )

    at_limit_full :
        (limit : ℕ) (xs : List String) → limit ≡ suc (length xs) → is_full limit start xs ≡ true
    unfolding is_full
    at_limit_full limit xs e = ground (arith, e)

    abbrev IsNext : List String → String → String → Type 0
    IsNext xs last c = (contains c (callees last) ≡ true) × (contains c (start ∷ xs) ≡ false)

    extend-Chains :
        (limit : ℕ) (xs : List String) (last : String) (go : String → List (List String))
        (fs : List String)
        → IsGrowing xs last
        → suc (length xs) ≤ limit
        → ((c : String) → IsNext xs last c → Chains limit (go c))
        → fresh_callees callees (start ∷ xs) last ≡ fs
        → Chains limit (extend (start ∷ xs) go fs)
    unfolding extend
    extend-Chains limit xs last go [] g le one h = no_further-Chains limit xs last g le h
    extend-Chains limit xs last go (c ∷ cs) g le one h = each-Chains limit go (c ∷ cs) (
        All-mono _ _ (c ∷ cs) one
          (subst (All (IsNext xs last)) h (called_fresh (start ∷ xs) (callees last))))

    dfs-Chains :
        (limit room : ℕ) (xs : List String) (last : String)
        → IsGrowing xs last
        → limit ≡ suc (length xs) + room
        → Chains limit (dfs callees room (start ∷ xs) last)
    unfolding dfs
    dfs-Chains limit zero xs last g e = (
      grown-chain limit xs last g (omega (arith, e)) (at_limit_full limit xs (omega (arith, e))),
      tt,
    )
    dfs-Chains limit (suc room) xs last g e =
        extend-Chains limit xs last (λ c. dfs callees room (start ∷ (xs ++ c ∷ [])) c)
          (fresh_callees callees (start ∷ xs) last) g (omega (arith, e))
          (λ c h.
            dfs-Chains limit room (xs ++ c ∷ []) c (grow-IsGrowing xs last c g h.0 h.1)
              (omega (arith, e, length-append xs (c ∷ []))))
          refl

    steps-split :
        (s : String) (xs ys : List String)
        → steps s (xs ++ ys) ≡ (steps s xs && steps (last_of s xs) ys)
    unfolding steps
    steps-split s [] ys = refl
    steps-split s (x ∷ xs) ys = ground (arith, steps-split x xs ys)

    extend-cons :
        (path : List String) (go : String → List (List String)) (c : String) (fs : List String)
        (p : List String)
        → contains c fs ≡ true
        → contains p (go c) ≡ true
        → contains p (extend path go fs) ≡ true
    unfolding extend
    extend-cons path go c [] p h m = absurd (ground (arith, h))
    extend-cons path go c (d ∷ fs) p h m = contains-each p go c (d ∷ fs) h m

    stops :
        (limit room : ℕ) (xs : List String) (last : String)
        → IsGrowing xs last
        → limit ≡ suc (length xs) + suc room
        → is_chain limit start (start ∷ xs) ≡ true
        → (leb 1 (length xs) ≡ true) × (fresh_callees callees (start ∷ xs) last ≡ [])
    unfolding is_chain is_full IsGrowing
    stops limit room xs last g e h = (
      ground (arith, h, e),
      none_fresh (start ∷ xs) (callees last) (
          subst (λ l. all_of (λ c. contains c (start ∷ xs)) (callees l) ≡ true) g.2
            (ground (arith, h, e))),
    )

    contains-no_further :
        (xs : List String) (go : String → List (List String)) (fs : List String)
        → leb 1 (length xs) ≡ true
        → fs ≡ []
        → contains (start ∷ xs) (extend (start ∷ xs) go fs) ≡ true
    unfolding extend no_further
    contains-no_further xs go [] h e = ground (arith, h, ==_refl (start ∷ xs))
    contains-no_further xs go (f ∷ fs) h e = cc

    IsNext-called :
        (limit : ℕ) (xs : List String) (last c : String) (ys : List String)
        → IsGrowing xs last
        → is_chain limit start (start ∷ (xs ++ c ∷ ys)) ≡ true
        → IsNext xs last c
    unfolding is_chain steps IsGrowing
    IsNext-called limit xs last c ys g h = (
      subst (λ l. contains c (callees l) ≡ true) g.2
          (ground (arith, h, steps-split start xs (c ∷ ys))),
      simple_next (start ∷ xs) c ys (ground (arith, h)),
    )

    within_limit :
        (limit : ℕ) (xs : List String) (c : String) (ys : List String)
        → is_chain limit start (start ∷ (xs ++ c ∷ ys)) ≡ true
        → suc (suc (length xs)) ≤ limit
    unfolding is_chain
    within_limit limit xs c ys h = ground (arith, h, length-append xs (c ∷ ys))

    dfs_complete :
        (limit room : ℕ) (xs : List String) (last : String) (ys : List String)
        → IsGrowing xs last
        → limit ≡ suc (length xs) + room
        → is_chain limit start (start ∷ (xs ++ ys)) ≡ true
        → contains (start ∷ (xs ++ ys)) (dfs callees room (start ∷ xs) last) ≡ true
    unfolding dfs
    dfs_complete limit zero xs last [] g e h =
        subst (λ zs. contains (start ∷ zs) ((start ∷ xs) ∷ []) ≡ true) (sym (append-nil xs))
          (contains-here (start ∷ xs) (start ∷ xs) [] refl)
    dfs_complete limit (suc room) xs last [] g e h =
        let whole = subst (λ zs. is_chain limit start (start ∷ zs) ≡ true) (append-nil xs) h in
        let (enough, none_left) = stops limit room xs last g e whole in
        subst (λ zs. contains (start ∷ zs) (dfs callees (suc room) (start ∷ xs) last) ≡ true)
          (sym (append-nil xs)) (contains-no_further xs _ _ enough none_left)
    dfs_complete limit zero xs last (c ∷ ys) g e h =
        absurd (omega (arith, e, within_limit limit xs c ys h))
    dfs_complete limit (suc room) xs last (c ∷ ys) g e h =
        let next = IsNext-called limit xs last c ys g h in
        let assoc : (xs ++ c ∷ []) ++ ys ≡ xs ++ c ∷ ys = append_assoc xs (c ∷ []) ys in
        let rest =
          dfs_complete limit room (xs ++ c ∷ []) c ys (grow-IsGrowing xs last c g next.0 next.1)
            (omega (arith, e, length-append xs (c ∷ [])))
            (subst (λ zs. is_chain limit start (start ∷ zs) ≡ true) (sym assoc) h) in
        extend-cons (start ∷ xs) _ c (fresh_callees callees (start ∷ xs) last)
          (start ∷ (xs ++ c ∷ ys)) (contains-fresh (start ∷ xs) c (callees last) next.0 next.1)
          (subst (λ zs. contains (start ∷ zs) (dfs callees room (start ∷ (xs ++ c ∷ [])) c) ≡ true)
            assoc rest)

    start-IsGrowing : IsGrowing [] start
    unfolding IsGrowing steps is_simple
    start-IsGrowing = (refl, refl, refl)

    chain_found :
        (limit : ℕ) (p : List String)
        → is_chain (suc limit) start p ≡ true
        → contains p (dfs callees limit (start ∷ []) start) ≡ true
    unfolding is_chain
    chain_found limit [] h = absurd (ground (arith, h))
    chain_found limit (s ∷ xs) h =
        let same : start ≡ s = (string_key.same_iff start s).0 (ground (arith, h)) in
        subst (λ x. contains (x ∷ xs) (dfs callees limit (start ∷ []) start) ≡ true) same
          (dfs_complete (suc limit) limit [] start xs start-IsGrowing (omega arith)
            (subst (λ x. is_chain (suc limit) start (x ∷ xs) ≡ true) (sym same) h))

-- `_walk_calls` returns a path exactly when it is a chain: it starts at the entry, each service
-- calls the next, none stands twice, there are at most `max_len` of them, at least one, and it
-- cannot go on: it has that length, or two services or more of which the last calls no other.
pub walk_calls_exact :
    (callees : String → List String) (max_len : ℕ) (start : String) (p : List String)
    → contains p (walk_calls callees max_len start) ≡ is_chain callees (suc (max_len - 1)) start p
unfolding walk_calls
walk_calls_exact callees max_len start p = ground (
  arith,
  chain_found callees start (max_len - 1) p,
  All-contains (λ q. is_chain callees (suc (max_len - 1)) start q ≡ true) p
      (dfs callees (max_len - 1) (start ∷ []) start),
  dfs-Chains callees start (suc (max_len - 1)) (max_len - 1) [] start
      (start-IsGrowing callees start) (omega arith),
)
