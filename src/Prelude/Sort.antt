-- ===== src/Prelude/Sort.antt =====
-- Python's `sorted`, a stable sort, by a test for "stands no later than".
use mathlib.Core.Bool.{Bool, ◌||◌}
use mathlib.Core.Path.{◌≡◌, refl, ap, ◌∙◌}
use mathlib.Core.Option.{none, some}
use native.Mathlib.Omega.{arith}
use mathlib.Core.List.{List, [], ◌∷◌, Perm}
use mathlib.Core.List.Perm
use mathlib.Core.Logic.{inl, inr}
use vectural.Prelude.Tests.{if◌then◌else◌, Bool-cases, Key, ◌==◌}
use vectural.Prelude.Lists.{All, contains}
use vectural.Prelude.Dict
use vectural.Prelude.Dict.{Dict}

module _ {ℓ} {A : Type ℓ} (le : A → A → Bool) where
  unfoldable pub insert : A → List A → List A
  insert x [] = x ∷ []
  insert x (y ∷ ys) = if le x y then x ∷ y ∷ ys else y ∷ insert x ys

  unfoldable pub sorted : List A → List A
  unfolding insert
  sorted [] = []
  sorted (x ∷ xs) = insert x (sorted xs)

  insert-perm : (x : A) (ys : List A) → Perm (insert x ys) (x ∷ ys)
  unfolding insert
  insert-perm x [] = Perm.rfl
  insert-perm x (y ∷ ys) = elim (Bool-cases (le x y)) [
    | inl e ↦ rw e Perm.rfl
    | inr e ↦ rw e (Perm.trans (Perm.cons y (insert-perm x ys)) (Perm.swap x y ys))
  ]

  pub sorted-perm : (xs : List A) → Perm (sorted xs) xs
  unfolding sorted
  sorted-perm [] = Perm.rfl
  sorted-perm (x ∷ xs) = Perm.trans (insert-perm x (sorted xs)) (Perm.cons x (sorted-perm xs))

  module _ {κ} (P : A → Type κ) where
    All-insert : (x : A) (ys : List A) → P x → All P ys → All P (insert x ys)
    unfolding insert
    All-insert x [] px h = (px, tt)
    All-insert x (y ∷ ys) px h = elim (Bool-cases (le x y)) [
      | inl e ↦ rw (e, All) (px, h)
      | inr e ↦ rw (e, All) (h.0, All-insert x ys px h.1)
    ]

    pub All-sorted : (xs : List A) → All P xs → All P (sorted xs)
    unfolding sorted
    All-sorted [] h = tt
    All-sorted (x ∷ xs) h = All-insert x (sorted xs) h.0 (All-sorted xs h.1)

    All-of_insert : (x : A) (ys : List A) → All P (insert x ys) → P x × All P ys
    unfolding insert
    All-of_insert x [] h = h
    All-of_insert x (y ∷ ys) h = elim (Bool-cases (le x y)) [
      | inl e ↦ rw (e, All) at h
      | inr e ↦
          let parts : P y × All P (insert x ys) = rw (e, All) at h in
          let (px, rest) = All-of_insert x ys parts.1 in (px, (parts.0, rest))
    ]

    pub All-of_sorted : (xs : List A) → All P (sorted xs) → All P xs
    unfolding sorted
    All-of_sorted [] h = tt
    All-of_sorted (x ∷ xs) h =
        let (px, rest) = All-of_insert x (sorted xs) h in (px, All-of_sorted xs rest)

module _ {ℓ} {A : Type ℓ} ⦃e : Key A⦄ (le : A → A → Bool) where
  contains-insert :
      (a x : A) (ys : List A) → contains a (insert le x ys) ≡ (a == x || contains a ys)
  unfolding insert
  contains-insert a x [] = refl
  contains-insert a x (y ∷ ys) = ground (arith, contains-insert a x ys)

  pub contains-sorted : (a : A) (xs : List A) → contains a (sorted le xs) ≡ contains a xs
  unfolding sorted
  contains-sorted a [] = refl
  contains-sorted a (x ∷ xs) =
      ground (arith, contains-sorted a xs, contains-insert a x (sorted le xs))

module _ {ℓ κ} {K : Type ℓ} {V : Type κ} ⦃e : Key K⦄ (le : K × V → K × V → Bool) where
  get-insert :
      (j k : K) (v : V) (d : Dict K V)
      → Dict.get j d ≡ none
      → Dict.get k (insert le (j, v) d) ≡ (if j == k then some v else Dict.get k d)
  unfolding insert Dict.get
  get-insert j k v [] h = refl
  get-insert j k v ((i, w) ∷ d) h =
      ground (arith, h, get-insert j k v d, e.same_iff i j, e.same_iff i k, e.same_iff j k)

  -- Sorting the entries of a dict, whose keys are distinct, changes no look-up.
  pub get-sorted :
      (k : K) (d : Dict K V) → Dict.IsDistinct d → Dict.get k (sorted le d) ≡ Dict.get k d
  unfolding sorted Dict.get
  get-sorted k [] h = refl
  get-sorted k ((j, v) ∷ d) h =
      get-insert j k v (sorted le d) (get-sorted j d h.1 ∙ h.0)
      ∙ ap (λ o. if j == k then some v else o) (get-sorted k d h.1)
