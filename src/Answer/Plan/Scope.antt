-- ===== src/Answer/Plan/Scope.antt =====
-- The scope that backend/answer/plan.py reads off the graph.
use vectural.Prelude.{
  ℕ, ◌≡◌, refl, ap, ◌∙◌, Bool, true, not, ◌&&◌, ◌||◌, String, Option, none, some, List, [], ◌∷◌,
  ◌++◌, contains, contains-append, some_of, string_key, ◌==◌, if◌then◌else◌, arith, Bool-cases, inl,
  inr,
}
use vectural.Prelude.Dict
use vectural.Prelude.Dict.{Dict}
use vectural.Graph.Store.{GraphStore}
use vectural.Graph.Queries.{service_dependencies}
use vectural.Graph.Queries.Within.{all_of, found_of, is_within, service_dependencies_within}
use vectural.Answer.Plan.{concat, by_hops, reached, distinct, scope_of}

-- No service stands twice.
abbrev pub is_set : List String → Bool
is_set [] = true
is_set (x ∷ xs) = not (contains x xs) && is_set xs

-- Without an anchor there is no scope. Otherwise it is the set of the anchors and of the services that
-- the graph reaches from one of them within the hops.
abbrev pub IsScope : GraphStore → ℕ → List String → Option (List String) → Type 0
IsScope s hops [] scope = scope ≡ none
IsScope s hops (a ∷ as_) scope =
    (found : List String) × (scope ≡ some found)
    × (is_set found ≡ true)
    × ((key : String)
        → contains key found
          ≡ (contains key (a ∷ as_) || some_of (λ b. is_within s hops b key) (a ∷ as_)))

contains-distinct : (key : String) (xs : List String) → contains key (distinct xs) ≡ contains key xs
unfolding distinct
contains-distinct key [] = refl
contains-distinct key (x ∷ xs) = elim (Bool-cases (contains x xs)) [
  | inl twice ↦
      (let same : (key == x) ≡ true → contains key xs ≡ contains x xs =
          λ e. ap (λ k. contains k xs) ((string_key.same_iff key x).0 e) in
        rw (twice, if◌then◌else◌) (ground (arith, twice, same, contains-distinct key xs)))
  | inr once ↦ rw (once, if◌then◌else◌) (ap (λ b. key == x || b) (contains-distinct key xs))
]

distinct_lem : (xs : List String) → is_set (distinct xs) ≡ true
unfolding distinct
distinct_lem [] = refl
distinct_lem (x ∷ xs) = elim (Bool-cases (contains x xs)) [
  | inl twice ↦ rw (twice, if◌then◌else◌) (distinct_lem xs)
  | inr once ↦
      rw (once, if◌then◌else◌) (ground (arith, once, contains-distinct x xs, distinct_lem xs))
]

concat_all : (d : Dict ℕ (List String)) → concat (Dict.values d) ≡ all_of d
unfolding concat
concat_all [] = refl
concat_all ((hop, keys) ∷ d) = ap (λ l. keys ++ l) (concat_all d)

by_hops_found : (o : Option (Dict ℕ (List String))) → by_hops o ≡ found_of o
unfolding by_hops
by_hops_found none = refl
by_hops_found (some d) = concat_all d

contains-reached :
    (s : GraphStore) (hops : ℕ) (anchors : List String) (key : String)
    → contains key (reached s hops anchors) ≡ some_of (λ b. is_within s hops b key) anchors
unfolding reached
contains-reached s hops [] key = refl
contains-reached s hops (a ∷ as_) key =
    contains-append key (by_hops (service_dependencies s a hops)) (reached s hops as_)
    ∙ (let one =
          ap (contains key) (by_hops_found (service_dependencies s a hops))
          ∙ service_dependencies_within s a hops key in
        let rest = contains-reached s hops as_ key in ground (arith, one, rest))

pub scope_of-IsScope :
    (s : GraphStore) (hops : ℕ) (anchors : List String)
    → IsScope s hops anchors (scope_of s hops anchors)
unfolding scope_of
scope_of-IsScope s hops [] = refl
scope_of-IsScope s hops (a ∷ as_) =
    let all = (a ∷ as_) ++ reached s hops (a ∷ as_) in
    (
      distinct all,
      refl,
      distinct_lem all,
      λ key.
          contains-distinct key all
          ∙ contains-append key (a ∷ as_) (reached s hops (a ∷ as_))
          ∙ ap (λ b. contains key (a ∷ as_) || b) (contains-reached s hops (a ∷ as_) key),
    )
