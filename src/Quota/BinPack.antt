-- ===== src/Quota/BinPack.antt =====
-- backend/quota/governor.py: `bin_pack`, first fit of the services by decreasing cost.
-- `bins[i]` and `schedule[i]` stand side by side, as the week i.
pub mod Packing
use Prim.Native.String.{compare}
use text.Mathlib.Text.{is_le}
use vectural.Prelude.{
  ℕ, ◌-◌, ◌+◌, Bool, true, false, ◌||◌, ◌&&◌, String, List, [], ◌∷◌, ◌++◌, Option, none, some, map,
  ltb, leb, nat_beq, replicate, if◌then◌else◌,
}
use vectural.Prelude.Sort

pub record Week : Type 0 where
  pub room : ℕ
  pub names : List String

pub record BinPackResult : Type 0 where
  pub schedule : List (List String)
  pub unscheduled : List String

-- the order of `key=lambda s: (-s[1], s[0])`
unfoldable pub by_cost : String × ℕ → String × ℕ → Bool
by_cost (m, c) (n, d) = ltb d c || nat_beq c d && is_le (compare m n)

-- the inner loop: the first week with room takes the service
unfoldable pub place : String → ℕ → List Week → Option (List Week)
place name cost [] = none
place name cost (w ∷ weeks) =
    let later = place name cost weeks in
    if leb cost w.room
    then some (record w { room = w.room - cost; names = w.names ++ name ∷ [] } ∷ weeks)
    else elim later [ none ↦ none | some ws ↦ some (w ∷ ws) ]

unfoldable pub pack : List (String × ℕ) → List Week → List String → List Week × List String
pack [] weeks unscheduled = (weeks, unscheduled)
pack ((name, cost) ∷ services) weeks unscheduled = elim (place name cost weeks) [
  | none ↦ pack services weeks (unscheduled ++ name ∷ [])
  | some weeks' ↦ pack services weeks' unscheduled
]

unfoldable pub bin_pack : List (String × ℕ) → ℕ → ℕ → BinPackResult
bin_pack services tranche_capacity tranche_count =
    let empty : Week = record { room = tranche_capacity; names = [] } in
    let (weeks, unscheduled) =
      pack (Sort.sorted by_cost services) (replicate tranche_count empty) [] in
    record { schedule = map (λ w. w.names) weeks; unscheduled = unscheduled }
