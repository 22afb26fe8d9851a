-- ===== src/Graph/Levels.antt =====
-- `levels` of gw/framework/core_graph.go: the nodes grouped so that each sits one step behind
-- everything that depends on it. A level holds slots of the registry.
pub mod Rank
pub mod Order
pub mod Tests
use gwf.Common.{
  ℕ, zero, suc, List, ltb, length, set, get_or, replicate, ◌+◌, ◌∷◌, ◌++◌, [], if◌then◌else◌,
}
use gwf.Graph.{ServiceEdge, ServiceNode, ServiceGraph}
use gwf.Graph.Edges.{dependents_of}

-- The inner loop: lvl[i] is raised above each dependent's level.
pub raise : ℕ → List ServiceEdge → List ℕ → List ℕ
raise i [] lvl = lvl
raise i (e ∷ es) lvl =
    let l = get_or lvl e.node 0 + 1 in
    raise i es (if ltb (get_or lvl i 0) l then set lvl i l else lvl)

pub record Ranks : Type 0 where
  pub lvl : List ℕ
  pub highest : ℕ

-- The backward pass over the first `i` nodes, from the last of them.
pub assign : List ServiceNode → ℕ → Ranks → Ranks
assign ns zero r = r
assign ns (suc i) r =
    let lvl = raise i (dependents_of ns i) r.lvl in
    assign ns i (record {
      lvl = lvl;
      highest = if ltb r.highest (get_or lvl i 0) then get_or lvl i 0 else r.highest;
    })

pub ranks : List ServiceNode → Ranks
ranks ns = assign ns (length ns) (record { lvl = replicate (length ns) 0; highest = 0 })

-- out[lvl[i]] = append(out[lvl[i]], n), for each node from slot `i` on.
pub fill : List ServiceNode → List ℕ → ℕ → List (List ℕ) → List (List ℕ)
fill [] lvl i out = out
fill (n ∷ ns) lvl i out =
    let k = get_or lvl i 0 in fill ns lvl (suc i) (set out k (get_or out k [] ++ i ∷ []))

levels_of : List ServiceNode → List (List ℕ)
levels_of [] = []
levels_of (n ∷ ns) = let r = ranks (n ∷ ns) in fill (n ∷ ns) r.lvl 0 (replicate (r.highest + 1) [])

unfoldable pub levels : ServiceGraph → List (List ℕ)
unfolding levels_of
levels g = levels_of g.nodes
