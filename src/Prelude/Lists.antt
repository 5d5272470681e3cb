-- ===== src/Prelude/Lists.antt =====
-- Lists measured by native numbers, and the comprehensions of the source.
use Prim.Native.Nat.{ℕ, zero, suc, ◌+◌, ◌≤◌}
use mathlib.Core.Path.{◌≡◌, refl, sym, subst}
use mathlib.Core.Bool.{Bool, true, false, ◌&&◌, ◌||◌}
use mathlib.Core.Option.{Option, none, some}
use mathlib.Core.List.{List, [], ◌∷◌, ◌++◌}
use native.Mathlib.Omega.{arith}
use mathlib.Core.Logic.{◌↔◌, inl, inr}
use vectural.Prelude.Tests.{if◌then◌else◌, if_ind, Key, ◌==◌, Bool-cases}

module _ {ℓ} {A : Type ℓ} where
  abbrev pub length : List A → ℕ
  length [] = 0
  length (x ∷ xs) = suc (length xs)

  abbrev pub take : ℕ → List A → List A
  take zero xs = []
  take (suc n) [] = []
  take (suc n) (x ∷ xs) = x ∷ take n xs

  abbrev pub drop : ℕ → List A → List A
  drop zero xs = xs
  drop (suc n) [] = []
  drop (suc n) (x ∷ xs) = drop n xs

  abbrev pub get_elem? : List A → ℕ → Option A
  get_elem? [] i = none
  get_elem? (x ∷ xs) zero = some x
  get_elem? (x ∷ xs) (suc i) = get_elem? xs i

  abbrev pub replicate : ℕ → A → List A
  replicate zero a = []
  replicate (suc n) a = a ∷ replicate n a

  -- `[x for x in xs if p(x)]`
  abbrev pub keep : (A → Bool) → List A → List A
  keep p [] = []
  keep p (x ∷ xs) = if p x then x ∷ keep p xs else keep p xs

  -- `any(p(x) for x in xs)`, `all(p(x) for x in xs)`
  abbrev pub some_of : (A → Bool) → List A → Bool
  some_of p [] = false
  some_of p (x ∷ xs) = p x || some_of p xs

  abbrev pub all_of : (A → Bool) → List A → Bool
  all_of p [] = true
  all_of p (x ∷ xs) = p x && all_of p xs

  -- `sum(f(x) for x in xs)`
  abbrev pub sum_of : (A → ℕ) → List A → ℕ
  sum_of f [] = 0
  sum_of f (x ∷ xs) = f x + sum_of f xs

  abbrev pub All {κ} : (A → Type κ) → List A → Type κ
  All P [] = Unit
  All P (x ∷ xs) = P x × All P xs

module _ {ℓ} {A : Type ℓ} where
  pub length-append : (xs ys : List A) → length (xs ++ ys) ≡ length xs + length ys
  length-append [] ys = omega arith
  length-append (x ∷ xs) ys = omega (arith, length-append xs ys)

  pub length-take : (n : ℕ) (xs : List A) → length (take n xs) ≤ n
  length-take zero xs = omega arith
  length-take (suc n) [] = omega arith
  length-take (suc n) (x ∷ xs) = omega (arith, length-take n xs)

  pub length-keep : (p : A → Bool) (xs : List A) → length (keep p xs) ≤ length xs
  length-keep p [] = omega arith
  length-keep p (x ∷ xs) = ground (arith, length-keep p xs)

  pub sum_of-append : (f : A → ℕ) (xs ys : List A) → sum_of f (xs ++ ys) ≡ sum_of f xs + sum_of f ys
  sum_of-append f [] ys = omega arith
  sum_of-append f (x ∷ xs) ys = omega (arith, sum_of-append f xs ys)

  pub all_of-keep : (p : A → Bool) (xs : List A) → all_of p (keep p xs) ≡ true
  all_of-keep p [] = refl
  all_of-keep p (x ∷ xs) = ground (arith, all_of-keep p xs)

  pub All-keep {κ μ} :
      (P : A → Type κ) (Q : A → Type μ) (p : A → Bool) (xs : List A)
      → ((x : A) → p x ≡ true → P x → Q x)
      → All P xs
      → All Q (keep p xs)
  All-keep P Q p [] step h = tt
  All-keep P Q p (x ∷ xs) step h =
      if_ind (All Q) (p x) (λ e. (step x e h.0, All-keep P Q p xs step h.1))
        (λ _. All-keep P Q p xs step h.1)

  pub keep-eq-nil : (p : A → Bool) (xs : List A) → All (λ x. p x ≡ false) xs → keep p xs ≡ []
  keep-eq-nil p [] h = refl
  keep-eq-nil p (x ∷ xs) h = ground (arith, h.0, keep-eq-nil p xs h.1)

  pub keep-append : (p : A → Bool) (xs ys : List A) → keep p (xs ++ ys) ≡ keep p xs ++ keep p ys
  keep-append p [] ys = refl
  keep-append p (x ∷ xs) ys = ground (arith, keep-append p xs ys)

  pub All-append {κ} : (P : A → Type κ) (xs ys : List A) → All P xs → All P ys → All P (xs ++ ys)
  All-append P [] ys h k = k
  All-append P (x ∷ xs) ys h k = (h.0, All-append P xs ys h.1 k)

module _ {ℓ} {A : Type ℓ} ⦃e : Key A⦄ where
  -- `a in xs`
  abbrev pub contains : A → List A → Bool
  contains a [] = false
  contains a (x ∷ xs) = a == x || contains a xs

  pub contains-append :
      (a : A) (xs ys : List A) → contains a (xs ++ ys) ≡ (contains a xs || contains a ys)
  contains-append a [] ys = refl
  contains-append a (x ∷ xs) ys = ground (arith, contains-append a xs ys)

pub contains-here {ℓ} :
    {A : Type ℓ} ⦃e : Key A⦄ (a b : A) (xs : List A) → b ≡ a → contains b (a ∷ xs) ≡ true
contains-here ⦃e⦄ a b xs h = ground (arith, h, e.same_iff b a)

pub contains-last {ℓ} :
    {A : Type ℓ} ⦃e : Key A⦄ (a b : A) (xs : List A) → b ≡ a → contains b (xs ++ a ∷ []) ≡ true
contains-last ⦃e⦄ a b xs h = ground (arith, h, e.same_iff b a, contains-append b xs (a ∷ []))

pub contains-more {ℓ} :
    {A : Type ℓ} ⦃e : Key A⦄ (b : A) (xs ys : List A)
    → contains b xs ≡ true
    → contains b (xs ++ ys) ≡ true
contains-more ⦃e⦄ b xs ys h = ground (arith, h, contains-append b xs ys)

pub some_of-intro {ℓ} :
    {A : Type ℓ} ⦃e : Key A⦄ (p : A → Bool) (x : A) (xs : List A)
    → contains x xs ≡ true
    → p x ≡ true
    → some_of p xs ≡ true
some_of-intro p x [] h q = ground (arith, h)
some_of-intro ⦃e⦄ p x (y ∷ xs) h q = elim (Bool-cases (x == y)) [
  | inl same ↦
      (let here : p y ≡ true = subst (λ z. p z ≡ true) ((e.same_iff x y).0 same) q in
        ground (arith, here))
  | inr other ↦
      (let rest = some_of-intro p x xs (ground (arith, h, other)) q in ground (arith, rest))
]

pub some_of-elim {ℓ} :
    {A : Type ℓ} ⦃e : Key A⦄ (p : A → Bool) (xs : List A)
    → some_of p xs ≡ true
    → (x : A) × (contains x xs ≡ true) × (p x ≡ true)
some_of-elim p [] h = absurd (ground (arith, h))
some_of-elim ⦃e⦄ p (y ∷ xs) h = elim (Bool-cases (p y)) [
  | inl q ↦ (y, contains-here y y xs refl, q)
  | inr q ↦
      (let (x, inside, holds) = some_of-elim p xs (ground (arith, h, q)) in
        (x, ground (arith, inside), holds))
]

pub All-contains {ℓ κ} :
    {A : Type ℓ} ⦃e : Key A⦄ (P : A → Type κ) (x : A) (xs : List A)
    → contains x xs ≡ true
    → All P xs
    → P x
All-contains P x [] h all = absurd (ground (arith, h))
All-contains ⦃e⦄ P x (y ∷ xs) h all = elim (Bool-cases (x == y)) [
  | inl same ↦ subst P (sym ((e.same_iff x y).0 same)) all.0
  | inr other ↦ All-contains P x xs (ground (arith, h, other)) all.1
]

pub All-mono {ℓ κ μ} :
    {A : Type ℓ} (P : A → Type κ) (Q : A → Type μ) (xs : List A)
    → ((x : A) → P x → Q x)
    → All P xs
    → All Q xs
All-mono P Q [] f h = tt
All-mono P Q (x ∷ xs) f h = (f x h.0, All-mono P Q xs f h.1)

-- Lists are compared one element after the other.
module _ {ℓ} {A : Type ℓ} ⦃e : Key A⦄ where
  abbrev list_beq : List A → List A → Bool
  list_beq [] [] = true
  list_beq [] (y ∷ ys) = false
  list_beq (x ∷ xs) [] = false
  list_beq (x ∷ xs) (y ∷ ys) = e.same x y && list_beq xs ys

  pub list_beq_iff : (xs ys : List A) → (list_beq xs ys ≡ true) ↔ (xs ≡ ys)
  list_beq_iff [] [] = ground arith
  list_beq_iff [] (y ∷ ys) = ground arith
  list_beq_iff (x ∷ xs) [] = ground arith
  list_beq_iff (x ∷ xs) (y ∷ ys) = ground (arith, e.same_iff x y, list_beq_iff xs ys)

  instance abbrev pub list_key : Key (List A)
  list_key = record { same = list_beq; same_iff = list_beq_iff }
