-- ===== src/Quota/BinPack/Packing.antt =====
-- `bin_pack` of backend/quota/governor.py loses no service and overfills no week.
use mathlib.Core.List.{Perm, perm_middle}
use mathlib.Core.List.Perm
use vectural.Prelude.{
  ℕ, zero, suc, ◌+◌, ◌-◌, ◌≤◌, ◌<◌, ◌≡◌, refl, inl, inr, String, List, [], ◌∷◌, ◌++◌, none, some,
  map, sum_of, sum_of-append, replicate, All, append-nil, append_assoc, Bool-cases, leb, arith,
  Option-cases, ap, subst,
}
use vectural.Prelude.Sort
use vectural.Quota.BinPack.{Week, by_cost, place, pack, bin_pack}

abbrev names_of : List Week → List String
names_of [] = []
names_of (w ∷ ws) = w.names ++ names_of ws

abbrev pub flatten : List (List String) → List String
flatten [] = []
flatten (ns ∷ nss) = ns ++ flatten nss

-- First fit as a relation: the service goes to the first week that has room for it.
data Placed (name : String) (cost : ℕ) : List Week → List Week → Type 0 where
  here :
      (w : Week) (weeks : List Week)
      → cost ≤ w.room
      → Placed name cost
          (w ∷ weeks)
          (record w { room = w.room - cost; names = w.names ++ name ∷ [] } ∷ weeks)
  later :
      (w : Week) {weeks weeks' : List Week}
      → w.room < cost
      → Placed name cost weeks weeks'
      → Placed name cost (w ∷ weeks) (w ∷ weeks')

place-Placed :
    (name : String) (cost : ℕ) (weeks weeks' : List Week)
    → place name cost weeks ≡ some weeks'
    → Placed name cost weeks weeks'
unfolding place
place-Placed name cost [] weeks' e = cc
place-Placed name cost (w ∷ weeks) weeks' e = elim (Bool-cases (leb cost w.room)) [
  | inl fits ↦ subst (Placed name cost (w ∷ weeks)) (ground arith) (here w weeks (ground arith))
  | inr full ↦ elim (Option-cases (place name cost weeks)) [
    | inl fails ↦ ground (arith, fails)
    | inr (ws, found) ↦
        subst (Placed name cost (w ∷ weeks)) (ground arith)
          (later w (ground arith) (place-Placed name cost weeks ws found))
  ]
]

Placed-perm :
    {name : String} {cost : ℕ} {weeks weeks' : List Week}
    → Placed name cost weeks weeks'
    → Perm (names_of weeks') (name ∷ names_of weeks)
Placed-perm {name} (here w weeks h) = rw append_assoc (perm_middle w.names (names_of weeks))
Placed-perm {name} (later w {weeks} h p) =
    Perm.trans (Perm.append_left w.names (Placed-perm p)) (perm_middle w.names (names_of weeks))

-- What a week holds and what it has left make up the capacity.
abbrev Fits : (String → ℕ) → ℕ → Week → Type 0
Fits cost_of capacity w = sum_of cost_of w.names + w.room ≡ capacity

Placed-Fits :
    (cost_of : String → ℕ) (capacity : ℕ) {name : String} {cost : ℕ} {weeks weeks' : List Week}
    → Placed name cost weeks weeks'
    → cost ≡ cost_of name
    → All (Fits cost_of capacity) weeks
    → All (Fits cost_of capacity) weeks'
Placed-Fits cost_of capacity {name} (here w weeks h) e (fits, rest) =
    (rw (sum_of-append cost_of w.names (name ∷ [])) (omega arith), rest)
Placed-Fits cost_of capacity (later w h p) e (fits, rest) =
    (fits, Placed-Fits cost_of capacity p e rest)

pack-cons_unplaced :
    (name : String) (cost : ℕ) (services : List (String × ℕ)) (weeks : List Week) (un : List String)
    → place name cost weeks ≡ none
    → pack ((name, cost) ∷ services) weeks un ≡ pack services weeks (un ++ name ∷ [])
unfolding pack
pack-cons_unplaced name cost services weeks un fails = ground (arith, fails)

pack-cons_placed :
    (name : String) (cost : ℕ) (services : List (String × ℕ)) (weeks weeks' : List Week)
    (un : List String)
    → place name cost weeks ≡ some weeks'
    → pack ((name, cost) ∷ services) weeks un ≡ pack services weeks' un
unfolding pack
pack-cons_placed name cost services weeks weeks' un found = ground (arith, found)

abbrev first_of_pair : String × ℕ → String
first_of_pair s = s.0

pack-perm :
    (services : List (String × ℕ)) (weeks : List Week) (unscheduled : List String)
    → Perm
        (names_of (pack services weeks unscheduled).0 ++ (pack services weeks unscheduled).1)
        (names_of weeks ++ (unscheduled ++ map first_of_pair services))
unfolding pack
pack-perm [] weeks un = rw append-nil Perm.rfl
pack-perm ((name, cost) ∷ services) weeks un = elim (Option-cases (place name cost weeks)) [
  | inl fails ↦
      rw (pack-cons_unplaced name cost services weeks un fails)
        (rw append_assoc at (pack-perm services weeks (un ++ name ∷ [])))
  | inr (ws, found) ↦ rw (pack-cons_placed name cost services weeks ws un found) (
      Perm.trans (pack-perm services ws un) (
        Perm.trans (Perm.append_right _ (Placed-perm (place-Placed name cost weeks ws found))) (
          Perm.symm (
            simp append_assoc at
              (perm_middle {a = name} (names_of weeks ++ un) (map first_of_pair services))))))
]

abbrev Costed : (String → ℕ) → String × ℕ → Type 0
Costed cost_of s = s.1 ≡ cost_of s.0

pack-Fits :
    (cost_of : String → ℕ) (capacity : ℕ) (services : List (String × ℕ)) (weeks : List Week)
    (unscheduled : List String)
    → All (Costed cost_of) services
    → All (Fits cost_of capacity) weeks
    → All (Fits cost_of capacity) (pack services weeks unscheduled).0
unfolding pack
pack-Fits cost_of capacity [] weeks un cs h = h
pack-Fits cost_of capacity ((name, cost) ∷ services) weeks un cs h =
    elim (Option-cases (place name cost weeks)) [
      | inl fails ↦
          rw (pack-cons_unplaced name cost services weeks un fails)
            (pack-Fits cost_of capacity services weeks (un ++ name ∷ []) cs.1 h)
      | inr (ws, found) ↦ rw (pack-cons_placed name cost services weeks ws un found) (
          pack-Fits cost_of capacity services ws un cs.1
            (Placed-Fits cost_of capacity (place-Placed name cost weeks ws found) cs.0 h))
    ]

empty_weeks-Fits :
    (cost_of : String → ℕ) (capacity count : ℕ)
    → All (Fits cost_of capacity) (replicate count (record { room = capacity; names = [] }))
empty_weeks-Fits cost_of capacity zero = tt
empty_weeks-Fits cost_of capacity (suc count) =
    (omega arith, empty_weeks-Fits cost_of capacity count)

names_of-empty_weeks :
    (capacity count : ℕ) → names_of (replicate count (record { room = capacity; names = [] })) ≡ []
names_of-empty_weeks capacity zero = refl
names_of-empty_weeks capacity (suc count) = names_of-empty_weeks capacity count

flatten-map_names : (ws : List Week) → flatten (map (λ w. w.names) ws) ≡ names_of ws
flatten-map_names [] = refl
flatten-map_names (w ∷ ws) = ap (λ l. w.names ++ l) (flatten-map_names ws)

schedule-Fits :
    (cost_of : String → ℕ) (capacity : ℕ) (ws : List Week)
    → All (Fits cost_of capacity) ws
    → All (λ ns. sum_of cost_of ns ≤ capacity) (map (λ w. w.names) ws)
schedule-Fits cost_of capacity [] h = tt
schedule-Fits cost_of capacity (w ∷ ws) h =
    (omega (arith, h.0), schedule-Fits cost_of capacity ws h.1)

-- Every service given, as often as it is given, is either in the schedule or listed as unscheduled,
-- and nothing else is.
pub bin_pack-perm :
    (services : List (String × ℕ)) (capacity count : ℕ)
    → Perm
        (flatten (bin_pack services capacity count).schedule
          ++ (bin_pack services capacity count).unscheduled)
        (map first_of_pair services)
unfolding bin_pack
bin_pack-perm services capacity count =
    let order = Sort.sorted by_cost services in
    let start : List Week = replicate count (record { room = capacity; names = [] }) in
    rw (flatten-map_names (pack order start []).0) (
      Perm.trans (rw (names_of-empty_weeks capacity count) at (pack-perm order start []))
        (Perm.map first_of_pair (Sort.sorted-perm by_cost services)))

-- Where each service's cost is a function of its name, the costs of the services in any one week
-- add up to at most the capacity of a tranche.
pub bin_pack_fits :
    (cost_of : String → ℕ) (services : List (String × ℕ)) (capacity count : ℕ)
    → All (λ s. s.1 ≡ cost_of s.0) services
    → All (λ ns. sum_of cost_of ns ≤ capacity) (bin_pack services capacity count).schedule
unfolding bin_pack
bin_pack_fits cost_of services capacity count costed = schedule-Fits cost_of capacity _ (
    pack-Fits cost_of capacity (Sort.sorted by_cost services) _ []
      (Sort.All-sorted by_cost (Costed cost_of) services costed)
      (empty_weeks-Fits cost_of capacity count))
