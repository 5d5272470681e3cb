-- ===== src/Flows/Identify/Paths.antt =====
-- Simple paths, and the loops of backend/flows/identify.py over the next services.
use vectural.Prelude.{
  ◌≡◌, refl, ◌∙◌, subst, Bool, true, false, not, ◌&&◌, String, List, [], ◌∷◌, ◌++◌, keep, contains,
  contains-append, contains-here, string_key, list_key, nat_key, ◌==◌, if_ind, all_of, All,
  All-mono, arith, Bool-cases, inl, inr,
}
use vectural.Flows.Identify.{each}

abbrev pub last_of : String → List String → String
last_of s [] = s
last_of s (x ∷ xs) = last_of x xs

-- no service stands twice
unfoldable pub is_simple : List String → Bool
is_simple [] = true
is_simple (x ∷ xs) = not (contains x xs) && is_simple xs

pub last_of-append : (s c : String) (xs : List String) → last_of s (xs ++ c ∷ []) ≡ c
last_of-append s c [] = refl
last_of-append s c (x ∷ xs) = last_of-append x c xs

pub is_simple-append :
    (c : String) (xs : List String)
    → is_simple (xs ++ c ∷ []) ≡ (is_simple xs && not (contains c xs))
unfolding is_simple
is_simple-append c [] = ground arith
is_simple-append c (x ∷ xs) = ground (
  arith,
  is_simple-append c xs,
  contains-append x xs (c ∷ []),
  string_key.same_iff x c,
  string_key.same_iff c x,
)

pub called_fresh :
    (path cs : List String)
    → All
        (λ c. (contains c cs ≡ true) × (contains c path ≡ false))
        (keep (λ c. not (contains c path)) cs)
called_fresh path [] = tt
called_fresh path (c ∷ cs) =
    let rest =
      All-mono _ (λ d. (contains d (c ∷ cs) ≡ true) × (contains d path ≡ false))
        (keep (λ d. not (contains d path)) cs) (λ d h. (ground (arith, h.0), h.1))
        (called_fresh path cs) in
    if_ind (All (λ d. (contains d (c ∷ cs) ≡ true) × (contains d path ≡ false)))
      (not (contains c path)) (λ e. ((contains-here c c cs refl, ground (arith, e)), rest))
      (λ e. rest)

pub all_inside :
    (path cs : List String)
    → keep (λ c. not (contains c path)) cs ≡ []
    → all_of (λ c. contains c path) cs ≡ true
all_inside path [] h = refl
all_inside path (c ∷ cs) h = ground (arith, h, all_inside path cs)

pub contains-each :
    (p : List String) (go : String → List (List String)) (c : String) (cs : List String)
    → contains c cs ≡ true
    → contains p (go c) ≡ true
    → contains p (each go cs) ≡ true
unfolding each
contains-each p go c [] h m = absurd (ground (arith, h))
contains-each p go c (d ∷ cs) h m =
    contains-append p (go d) (each go cs) ∙ elim (Bool-cases (c == d)) [
      | inl same ↦
          (let here : contains p (go d) ≡ true =
              subst (λ x. contains p (go x) ≡ true) ((string_key.same_iff c d).0 same) m in
            ground (arith, here))
      | inr other ↦ ground (arith, contains-each p go c cs (ground (arith, h, other)) m)
    ]

pub contains-fresh :
    (path : List String) (c : String) (cs : List String)
    → contains c cs ≡ true
    → contains c path ≡ false
    → contains c (keep (λ d. not (contains d path)) cs) ≡ true
contains-fresh path c [] h new = h
contains-fresh path c (d ∷ cs) h new = elim (Bool-cases (c == d)) [
  | inl same ↦
      (let here : contains d path ≡ false =
          subst (λ x. contains x path ≡ false) ((string_key.same_iff c d).0 same) new in
        ground (arith, here, same))
  | inr other ↦ ground (arith, contains-fresh path c cs (ground (arith, h, other)) new)
]

pub simple_next :
    (xs : List String) (c : String) (ys : List String)
    → is_simple (xs ++ c ∷ ys) ≡ true
    → contains c xs ≡ false
unfolding is_simple
simple_next [] c ys h = refl
simple_next (x ∷ xs) c ys h = ground (
  arith,
  h,
  simple_next xs c ys,
  contains-append x xs (c ∷ ys),
  string_key.same_iff x c,
  string_key.same_iff c x,
)

pub none_fresh :
    (path cs : List String)
    → all_of (λ c. contains c path) cs ≡ true
    → keep (λ c. not (contains c path)) cs ≡ []
none_fresh path [] h = refl
none_fresh path (c ∷ cs) h = ground (arith, h, none_fresh path cs)
