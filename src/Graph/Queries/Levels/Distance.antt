-- ===== src/Graph/Queries/Levels/Distance.antt =====
-- What the queue search of backend/graph/queries.py finds: every service at its distance.
use vectural.Prelude.{
  ℕ, zero, suc, ◌≤◌, ◌<◌, ◌≡◌, inl, inr, subst, Bool, true, false, not, ◌&&◌, ◌||◌, String, List,
  [], contains, string_key, nat_key, ◌==◌, ==_refl, arith, Bool-cases, leb, some_of-intro,
  some_of-elim,
}
use vectural.Prelude.Dict
use vectural.Prelude.Dict.{Dict}
use vectural.Graph.Queries.Levels.{reaches, at, IsSearch}

-- fewer steps lead from one service to the other
unfoldable pub reaches_before : (String → List String) → ℕ → String → String → Bool
reaches_before step zero a k = false
reaches_before step (suc n) a k = reaches_before step n a k || reaches step n a k

-- The distance is at least one, at most `limit`, and `hop`.
unfoldable pub is_distance : (String → List String) → String → ℕ → ℕ → String → Bool
is_distance step start limit hop k =
    leb 1 hop && leb hop limit && reaches step hop start k && not (reaches_before step hop start k)

module _ (step : String → List String) where
  pub before-intro :
      (i n : ℕ) (a k : String)
      → i < n
      → reaches step i a k ≡ true
      → reaches_before step n a k ≡ true
  unfolding reaches_before
  before-intro i zero a k le e = absurd (omega (arith, le))
  before-intro i (suc n) a k le e = elim (Bool-cases (i == n)) [
    | inl same ↦
        (let here : reaches step n a k ≡ true =
            subst (λ x. reaches step x a k ≡ true) ((nat_key.same_iff i n).0 same) e in
          ground (arith, here))
    | inr other ↦ ground (arith, before-intro i n a k (ground (arith, le, other)) e)
  ]

  before-elim :
      (n : ℕ) (a k : String)
      → reaches_before step n a k ≡ true
      → (i : ℕ) × (i < n) × (reaches step i a k ≡ true)
  unfolding reaches_before
  before-elim zero a k e = absurd (ground (arith, e))
  before-elim (suc n) a k e = elim (Bool-cases (reaches step n a k)) [
    | inl here ↦ (n, omega arith, here)
    | inr not_here ↦
        (let (i, le, there) = before-elim n a k (ground (arith, e, not_here)) in
          (i, omega (arith, le), there))
  ]

  last_step :
      (n : ℕ) (a k : String)
      → reaches step (suc n) a k ≡ true
      → (j : String) × (reaches step n a j ≡ true) × (contains k (step j) ≡ true)
  unfolding reaches
  last_step zero a k e =
      let (b, inside, same) = some_of-elim (λ b. b == k) (step a) e in
      (
        a,
        ==_refl a,
        subst (λ x. contains x (step a) ≡ true) ((string_key.same_iff b k).0 same) inside,
      )
  last_step (suc n) a k e =
      let (b, inside, rest) = some_of-elim (λ b. reaches step (suc n) b k) (step a) e in
      let (j, there, edge) = last_step n b k rest in
      (j, some_of-intro (λ b. reaches step n b j) b (step a) inside there, edge)

  module _ (start : String) (limit : ℕ) (seen : List String) (d : Dict ℕ (List String))
      (s : IsSearch step start limit [] seen d) where
    within :
        (n : ℕ) (k : String)
        → n ≤ limit
        → reaches step n start k ≡ true
        → (e : ℕ) × (at step start limit d e k ≡ true) × (e ≤ n)
    unfolding reaches
    within zero k le e = (
      0,
      ground (arith, e, string_key.same_iff start k, string_key.same_iff k start),
      omega arith,
    )
    within (suc n) k le e =
        let (j, there, edge) = last_step n start k e in
        let (h, was, bound) = within n j (omega (arith, le)) there in
        elim (s.left h j was (omega (arith, bound, le))) [
          | inl waits ↦ absurd (ground (arith, waits))
          | inr closed ↦
              (let (m, found, more) = closed k edge in (m, found, omega (arith, bound, more)))
        ]

    listed_at :
        (h : ℕ) (k : String)
        → contains k (Dict.get_or h [] d) ≡ true
        → at step start limit d h k ≡ true
    listed_at h k e = ground (arith, e)

    listed-IsDistance :
        (h : ℕ) (k : String)
        → contains k (Dict.get_or h [] d) ≡ true
        → is_distance step start limit h k ≡ true
    unfolding is_distance
    listed-IsDistance zero k e = absurd (ground (arith, e, s.none_at_zero k))
    listed-IsDistance (suc h) k e =
        let there = listed_at (suc h) k e in
        elim (Bool-cases (reaches_before step (suc h) start k)) [
          | inl sooner ↦
              (let (i, less, path) = before-elim (suc h) start k sooner in
                let (m, found, le) =
                  within i k (omega (arith, less, s.at_limit (suc h) k there)) path in
                absurd (omega (arith, less, le, s.at_once (suc h) m k there found)))
          | inr no_sooner ↦
              ground (arith, no_sooner, s.at_limit (suc h) k there, s.at_reaches (suc h) k there)
        ]

    distance-listed :
        (h : ℕ) (k : String)
        → is_distance step start limit h k ≡ true
        → contains k (Dict.get_or h [] d) ≡ true
    unfolding is_distance
    distance-listed h k e =
        let (m, found, le) = within h k (ground (arith, e)) (ground (arith, e)) in
        elim (Bool-cases (m == h)) [
          | inl same ↦
              (let there : at step start limit d h k ≡ true =
                  subst (λ x. at step start limit d x k ≡ true) ((nat_key.same_iff m h).0 same)
                    found in
                ground (arith, there, e))
          | inr other ↦
              (let sooner =
                  before-intro m h start k (ground (arith, le, other)) (s.at_reaches m k found) in
                absurd (ground (arith, e, sooner)))
        ]

    pub listed_lem :
        (h : ℕ) (k : String) → contains k (Dict.get_or h [] d) ≡ is_distance step start limit h k
    listed_lem h k = ground (arith, listed-IsDistance h k, distance-listed h k)
