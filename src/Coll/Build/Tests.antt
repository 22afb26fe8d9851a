-- ===== src/Coll/Build/Tests.antt =====
-- Collections of numbers under their remainder by ten.
use gwf.Common.{ℕ, suc, none, map, arith, Distinct, ◌%◌, ◌≡◌, ◌∷◌, [], ℕ_eq}
use gwf.Coll.{new_ordered}
use gwf.Coll.Build.{enumerate_to_slice}
use gwf.Coll.Build.Repeats.{enumerate_to_slice_panics}

abbrev last_digit : ℕ → ℕ
last_digit n = n % 10

repeated : ¬ (Distinct (map last_digit (12 ∷ 7 ∷ 22 ∷ [])))
repeated d = ground (arith, d.0)

enumerate_to_slice_panics_example :
    enumerate_to_slice suc (new_ordered last_digit (12 ∷ 7 ∷ 22 ∷ [])) ≡ none
enumerate_to_slice_panics_example =
    enumerate_to_slice_panics last_digit suc (12 ∷ 7 ∷ 22 ∷ []) repeated
