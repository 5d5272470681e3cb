-- ===== src/Prelude/Dict.antt =====
-- Python's `dict`: an association list in insertion order. Writing a key that is there keeps its
-- place, and a new key goes to the end, so that an iteration meets the entries as Python does.
use mathlib.Core.Path.{◌≡◌, refl, ◌∙◌, ap, subst}
use mathlib.Core.Logic.{inl, inr}
use mathlib.Core.Option.{Option, none, some}
use mathlib.Core.List.{List, [], ◌∷◌, map}
use native.Mathlib.Omega.{arith}
use vectural.Prelude.Tests.{if◌then◌else◌, Key, ◌==◌, Bool-cases}
use vectural.Prelude.Lists.{All}

abbrev pub Dict {ℓ κ} : Type ℓ → Type κ → Type (ℓ ⊔ κ)
Dict K V = List (K × V)

module _ {ℓ κ} {K : Type ℓ} {V : Type κ} where
  abbrev pub values : Dict K V → List V
  values d = map (λ p. p.1) d

  abbrev pub keys : Dict K V → List K
  keys d = map (λ p. p.0) d

module _ {ℓ κ} {K : Type ℓ} {V : Type κ} ⦃e : Key K⦄ where
  -- d.get(k)
  unfoldable pub get : K → Dict K V → Option V
  get k [] = none
  get k ((j, v) ∷ d) = if j == k then some v else get k d

  -- d[k] = v
  unfoldable pub set : K → V → Dict K V → Dict K V
  set k v [] = (k, v) ∷ []
  set k v ((j, w) ∷ d) = if j == k then (j, v) ∷ d else (j, w) ∷ set k v d

  -- d.pop(k, None)
  unfoldable pub remove : K → Dict K V → Dict K V
  remove k [] = []
  remove k ((j, v) ∷ d) = let rest = remove k d in if j == k then rest else (j, v) ∷ rest

  -- d.get(k, default)
  abbrev pub get_or : K → V → Dict K V → V
  get_or k x d = elim (get k d) [ none ↦ x | some v ↦ v ]

  pub get_or-found : (k : K) (x v : V) (d : Dict K V) → get k d ≡ some v → get_or k x d ≡ v
  get_or-found k x v d h = ap (λ o. elim o as (λ _. V) [ none ↦ x | some w ↦ w ]) h

  pub get-set :
      (k j : K) (v : V) (d : Dict K V) → get j (set k v d) ≡ (if k == j then some v else get j d)
  unfolding get set
  get-set k j v [] = refl
  get-set k j v ((i, w) ∷ d) =
      ground (arith, e.same_iff i k, e.same_iff i j, e.same_iff k j, get-set k j v d)

  pub get_or-set :
      (k j : K) (x v : V) (d : Dict K V)
      → get_or j x (set k v d) ≡ (if k == j then v else get_or j x d)
  get_or-set k j x v d = ground (arith, get-set k j v d)

  pub get-set_self : (k : K) (v : V) (d : Dict K V) → get k (set k v d) ≡ some v
  get-set_self k v d = ground (arith, get-set k k v d, e.same_iff k k)

  pub get-remove :
      (k j : K) (d : Dict K V) → get j (remove k d) ≡ (if k == j then none else get j d)
  unfolding get remove
  get-remove k j [] = ground arith
  get-remove k j ((i, w) ∷ d) =
      ground (arith, e.same_iff i k, e.same_iff i j, e.same_iff k j, get-remove k j d)

  -- No key stands twice.
  abbrev pub IsDistinct : Dict K V → Type κ
  IsDistinct [] = Unit
  IsDistinct ((k, v) ∷ d) = (get k d ≡ none) × IsDistinct d

  pub set-IsDistinct : (k : K) (v : V) (d : Dict K V) → IsDistinct d → IsDistinct (set k v d)
  unfolding set get
  set-IsDistinct k v [] h = (refl, tt)
  set-IsDistinct k v ((j, w) ∷ d) h = elim (Bool-cases (j == k)) [
    | inl q ↦ rw (q, IsDistinct) h
    | inr q ↦
        rw (q, IsDistinct)
          (
            get-set k j v d ∙ ground (arith, q, h.0, e.same_iff j k, e.same_iff k j),
            set-IsDistinct k v d h.1,
          )
  ]

  pub All-values-get {μ} :
      (P : V → Type μ) (k : K) (v : V) (d : Dict K V) → All P (values d) → get k d ≡ some v → P v
  unfolding get
  All-values-get P k v [] h e = cc
  All-values-get P k v ((j, w) ∷ d) h e = elim (Bool-cases (j == k)) [
    | inl q ↦ subst P (ground (arith, q, e)) h.0
    | inr q ↦ All-values-get P k v d h.1 (ground (arith, q, e))
  ]

  pub get-congr : (d : Dict K V) (j k : K) → get j d ≡ none → j ≡ k → get k d ≡ none
  get-congr d j k absent same = subst (λ i. get i d ≡ none) same absent

  -- What holds of every value that a look-up finds holds of every value.
  pub All-values {μ} :
      (P : V → Type μ) (d : Dict K V)
      → IsDistinct d
      → ((k : K) (v : V) → get k d ≡ some v → P v)
      → All P (values d)
  unfolding get
  All-values P [] h all = tt
  All-values P ((j, w) ∷ d) h all = (
    all j w (ground (arith, e.same_iff j j)),
    All-values P d h.1
        (λ k v found. all k v (ground (arith, found, e.same_iff j k, get-congr d j k h.0))),
  )
