-- ===== src/Graph/Levels/Tests.antt =====
-- The levels of two services.
use gwf.Common.{refl, get_or, ◌<◌, ◌≡◌, ◌∷◌, []}
use gwf.Graph.Edges.{dependents_of}
use gwf.Graph.Levels.{levels, levels_of, ranks, assign, raise, fill}
use gwf.Graph.Levels.Rank.{rank, rank-lt, rank-eq-peak, peak}
use gwf.Graph.Levels.Order.{levels_lem, ranked, slots}
use gwf.Graph.Tests.{two, two-IsWired}

pub two-levels : levels two ≡ (1 ∷ []) ∷ (0 ∷ []) ∷ []
unfolding levels levels_of ranks assign raise fill
two-levels = refl

rank-lt_example : rank two 1 < rank two 0
rank-lt_example = rank-lt two 0 1 two-IsWired refl

rank-eq-peak_example : rank two 0 ≡ peak (rank two) 0 (dependents_of two.nodes 0)
rank-eq-peak_example = rank-eq-peak two 0 two-IsWired

levels_example : get_or (levels two) 1 [] ≡ ranked (ranks two.nodes).lvl 1 (slots 0 2)
levels_example = levels_lem two 1 two-IsWired
