-- ===== src/Tests/PackingRuns.antt =====
-- Runs of the bin packing of backend/quota/governor.py.
use mathlib.Core.List.{Perm}
use vectural.Prelude.{
  ℕ, ◌≤◌, refl, String, List, [], ◌∷◌, ◌++◌, map, All, sum_of, ◌==◌, string_key, if◌then◌else◌,
}
use vectural.Quota.BinPack.{bin_pack}
use vectural.Quota.BinPack.Packing.{flatten, bin_pack-perm, bin_pack_fits}

abbrev services : List (String × ℕ)
services = ("a", 6) ∷ ("b", 5) ∷ ("c", 4) ∷ ("d", 20) ∷ []

abbrev cost_of : String → ℕ
cost_of s = if s == "a" then 6 else if s == "b" then 5 else if s == "c" then 4 else 20

bin_pack-perm_example :
    Perm
      (flatten (bin_pack services 10 2).schedule ++ (bin_pack services 10 2).unscheduled)
      (map (λ s. s.0) services)
bin_pack-perm_example = bin_pack-perm services 10 2

bin_pack_fits_example : All (λ ns. sum_of cost_of ns ≤ 10) (bin_pack services 10 2).schedule
bin_pack_fits_example = bin_pack_fits cost_of services 10 2 (refl, (refl, (refl, (refl, tt))))
