-- ===== src/Graph/Queries/Levels.antt =====
-- The invariant of the queue search of backend/graph/queries.py, for any neighbour function: a service
-- is found at one hop, the queue is ordered by hop, and whatever has left the queue has its
-- neighbours found no more than one hop further.
pub mod Visits
pub mod Turns
pub mod Distance
use vectural.Prelude.{
  ℕ, zero, suc, ◌+◌, ◌≤◌, ◌<◌, ◌≡◌, ◌⊎◌, inl, inr, refl, sym, ap, ◌∙◌, subst, Bool, true, false,
  not, ◌&&◌, ◌||◌, String, List, [], ◌∷◌, ◌++◌, some_of, contains, Key, string_key, nat_key,
  pair_key, ◌==◌, ==_refl, contains-here, contains-last, contains-more, All, All-append, All-mono,
  arith, nat_beq, Bool-cases, contains-append, if_ind, if◌then◌else◌,
}
use vectural.Prelude.Dict
use vectural.Prelude.Dict.{Dict}
use vectural.Graph.Queries.{record_hop}

-- `hop` steps lead from one service to the other
unfoldable pub reaches : (String → List String) → ℕ → String → String → Bool
reaches step zero a k = a == k
reaches step (suc n) a k = some_of (λ b. reaches step n b k) (step a)

abbrev pub Queue : Type 0
Queue = List (String × ℕ)

abbrev pub IsOrdered : Queue → Type 0
IsOrdered [] = Unit
IsOrdered (p ∷ q) = All (λ r. p.1 ≤ r.1) q × IsOrdered q

module _ (step : String → List String) (start : String) (limit : ℕ) where
  -- the service is the start, at no hop, or was found at the hop
  abbrev pub at : Dict ℕ (List String) → ℕ → String → Bool
  at d h k = (nat_beq h 0 && k == start) || contains k (Dict.get_or h [] d)

  abbrev pub IsClosed : Dict ℕ (List String) → ℕ → String → Type 0
  IsClosed d h k =
      (n : String) → contains n (step k) ≡ true → (e : ℕ) × (at d e n ≡ true) × (e ≤ h + 1)

  pub record IsSearch (queue : Queue) (seen : List String) (d : Dict ℕ (List String)) : Type 0 where
    pub seen_at : (k : String) → contains k seen ≡ true → (h : ℕ) × (at d h k ≡ true)
    pub at_seen : (h : ℕ) (k : String) → at d h k ≡ true → contains k seen ≡ true
    pub at_reaches : (h : ℕ) (k : String) → at d h k ≡ true → reaches step h start k ≡ true
    pub distinct : Dict.IsDistinct d
    pub none_at_zero : (k : String) → contains k (Dict.get_or 0 [] d) ≡ false
    pub at_once : (h j : ℕ) (k : String) → at d h k ≡ true → at d j k ≡ true → h ≡ j
    pub at_limit : (h : ℕ) (k : String) → at d h k ≡ true → h ≤ limit
    pub queued : All (λ p. at d p.1 p.0 ≡ true) queue
    pub ahead : (h : ℕ) (k : String) → at d h k ≡ true → All (λ p. h ≤ p.1 + 1) queue
    pub ordered : IsOrdered queue
    pub left :
        (h : ℕ) (k : String)
        → at d h k ≡ true
        → h < limit
        → (contains (k, h) queue ≡ true) ⊎ IsClosed d h k

  pub at_start : (h : ℕ) (k : String) → at [] h k ≡ true → (h ≡ 0) × (k ≡ start)
  unfolding Dict.get
  at_start h k e = ground (arith, e, string_key.same_iff k start)

  none_yet : (k : String) → contains k (Dict.get_or {K = ℕ} {V = List String} 0 [] []) ≡ false
  unfolding Dict.get
  none_yet k = refl

  reaches-start : (h : ℕ) (k : String) → h ≡ 0 → k ≡ start → reaches step h start k ≡ true
  unfolding reaches
  reaches-start zero k e f = (string_key.same_iff start k).1 (sym f)
  reaches-start (suc h) k e f = absurd (omega (arith, e))

  pub start-IsSearch : IsSearch ((start, 0) ∷ []) (start ∷ []) []
  start-IsSearch = record {
    seen_at = λ k e. (0, ground (arith, e));
    at_seen = λ h k e. contains-here start k [] (at_start h k e).1;
    at_reaches = λ h k e. reaches-start h k (at_start h k e).0 (at_start h k e).1;
    distinct = tt;
    none_at_zero = λ k. none_yet k;
    at_once = λ h j k e f. ground (arith, at_start h k e, at_start j k f);
    at_limit = λ h k e. ground (arith, at_start h k e);
    queued = (ground (arith, ==_refl start), tt);
    ahead = λ h k e. (ground (arith, at_start h k e), tt);
    ordered = (tt, tt);
    left = λ h k e l. inl (
        contains-here {A = String × ℕ} (start, 0) (k, h) []
          (λ i. ((at_start h k e).1 i, (at_start h k e).0 i)));
  }

  hop_congr :
      (c h : ℕ) (k : String) (d : Dict ℕ (List String))
      → (c == h) ≡ true
      → contains k (Dict.get_or c [] d) ≡ contains k (Dict.get_or h [] d)
  hop_congr c h k d e = ap (λ x. contains k (Dict.get_or x [] d)) ((nat_key.same_iff c h).0 e)

  pub at_record :
      (c : ℕ) (n : String) (d : Dict ℕ (List String)) (h : ℕ) (k : String)
      → at (record_hop c n d) h k ≡ (at d h k || (c == h && k == n))
  at_record c n d h k =
      ap (λ ks. (nat_beq h 0 && k == start) || contains k ks)
        (Dict.get_or-set c h [] (Dict.get_or c [] d ++ n ∷ []) d)
      ∙ if_ind
          (λ ks. ((nat_beq h 0 && k == start) || contains k ks) ≡ (at d h k || (c == h && k == n)))
          (c == h)
          (λ e.
            ap (λ b. (nat_beq h 0 && k == start) || b)
              (contains-append k (Dict.get_or c [] d) (n ∷ []))
            ∙ ground (arith, e, hop_congr c h k d e))
          (λ e. ground (arith, e))
