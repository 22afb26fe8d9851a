-- ===== src/Graph/Levels/Rank.antt =====
-- The level of a node, as the backward pass computes it.
use Prim.Native.Nat.{max}
use gwf.Common.{
  ℕ, zero, suc, refl, inl, inr, true, List, arith, ltb, nat_eq, Bool-cases, length, set, get_or,
  replicate, length-set, length-replicate, get_or-set_self, get_or-set_ne, All, All-mono, is_some,
  subst, ◌+◌, ◌≤◌, ◌<◌, ◌≡◌, ◌∙◌, ◌≢◌, ◌∷◌, [], if◌then◌else◌,
}
use gwf.Graph.{ServiceEdge, ServiceNode, ServiceGraph}
use gwf.Graph.Edges.{deps_of, dependents_of, edge_to}
use gwf.Graph.Slots.{dependents_of_out}
use gwf.Graph.Wiring.{IsWired}
use gwf.Graph.Levels.{raise, Ranks, assign, ranks}

-- One above the highest of the nodes that the edges lead to, and at least `c`.
abbrev pub peak : (ℕ → ℕ) → ℕ → List ServiceEdge → ℕ
peak f c [] = c
peak f c (e ∷ es) = peak f (max c (suc (f e.node))) es

abbrev at : List ℕ → ℕ → ℕ
at lvl i = get_or lvl i 0

peak-congr :
    (f g : ℕ → ℕ) (c : ℕ) (es : List ServiceEdge)
    → All (λ e. f e.node ≡ g e.node) es
    → peak f c es ≡ peak g c es
peak-congr f g c [] h = refl
peak-congr f g c (e ∷ es) h = rw (h.0) (peak-congr f g (max c (suc (g e.node))) es h.1)

length-raise : (i : ℕ) (es : List ServiceEdge) (lvl : List ℕ) → length (raise i es lvl) ≡ length lvl
unfolding raise
length-raise i [] lvl = refl
length-raise i (e ∷ es) lvl =
    length-raise i es _ ∙ ground (arith, length-set lvl i (at lvl e.node + 1))

-- One turn of the inner loop.
abbrev turn : ℕ → ServiceEdge → List ℕ → List ℕ
turn i e lvl = if ltb (at lvl i) (at lvl e.node + 1) then set lvl i (at lvl e.node + 1) else lvl

length-turn : (i : ℕ) (e : ServiceEdge) (lvl : List ℕ) → length (turn i e lvl) ≡ length lvl
length-turn i e lvl = ground (arith, length-set lvl i (at lvl e.node + 1))

at-turn :
    (i : ℕ) (e : ServiceEdge) (lvl : List ℕ) (j : ℕ)
    → i < length lvl
    → at (turn i e lvl) j ≡ (if nat_eq i j then max (at lvl i) (suc (at lvl e.node)) else at lvl j)
at-turn i e lvl j h = ground (
  arith,
  get_or-set_self lvl i (at lvl e.node + 1) 0,
  get_or-set_ne lvl i j (at lvl e.node + 1) 0,
)

at-raise :
    (i : ℕ) (es : List ServiceEdge) (lvl : List ℕ) (j : ℕ)
    → i < length lvl
    → All (λ e. e.node ≢ i) es
    → at (raise i es lvl) j ≡ (if nat_eq i j then peak (at lvl) (at lvl i) es else at lvl j)
unfolding raise
at-raise i [] lvl j h ne = ground arith
at-raise i (e ∷ es) lvl j h ne =
    at-raise i es (turn i e lvl) j (rw (length-turn i e lvl) h) ne.1
    ∙ ground (arith, same, at-turn i e lvl i h, at-turn i e lvl j h)
  where
    same :
        peak (at (turn i e lvl)) (at (turn i e lvl) i) es ≡ peak (at lvl) (at (turn i e lvl) i) es
    same =
        peak-congr _ _ _ es
          (All-mono _ _ es (λ x x_ne. ground (arith, at-turn i e lvl x.node h)) ne.1)

-- What the pass has established once the slots from `i` on are done.
record Done (ns : List ServiceNode) (i : ℕ) (r : Ranks) : Type 0 where
  sized : length r.lvl ≡ length ns
  peaked : (j : ℕ) → i ≤ j → at r.lvl j ≡ peak (at r.lvl) 0 (dependents_of ns j)
  untouched : (j : ℕ) → j < i → at r.lvl j ≡ 0
  topped : (j : ℕ) → at r.lvl j ≤ r.highest

module _ (ns : List ServiceNode)
    (later : (i : ℕ) → All (λ e. (i < e.node) × (e.node < length ns)) (dependents_of ns i)) where
  others : (i : ℕ) (j : ℕ) → i ≤ j → All (λ e. e.node ≢ i) (dependents_of ns j)
  others i j le = All-mono _ _ (dependents_of ns j) (λ e h p. omega arith) (later j)

  abbrev next : ℕ → Ranks → Ranks
  next i r =
      let lvl = raise i (dependents_of ns i) r.lvl in
      record { lvl = lvl; highest = if ltb r.highest (at lvl i) then at lvl i else r.highest }

  step-Done : (i : ℕ) (r : Ranks) → suc i ≤ length ns → Done ns (suc i) r → Done ns i (next i r)
  step-Done i r inside d = record {
    sized = length-raise i (dependents_of ns i) r.lvl ∙ d.sized;
    peaked = peaks;
    untouched = λ j lt. (let old = d.untouched j (omega arith) in ground (arith, moves j));
    topped = λ j. (let old = d.topped j in ground (arith, moves j));
  }
    where
      moves :
          (j : ℕ)
          → at (raise i (dependents_of ns i) r.lvl) j
            ≡ (if nat_eq i j then peak (at r.lvl) (at r.lvl i) (dependents_of ns i) else at r.lvl j)
      moves j =
          at-raise i (dependents_of ns i) r.lvl j (let s = d.sized in omega arith)
            (others i i (omega arith))

      same :
          (j : ℕ)
          → i ≤ j
          → peak (at (next i r).lvl) 0 (dependents_of ns j) ≡ peak (at r.lvl) 0 (dependents_of ns j)
      same j le =
          peak-congr _ _ 0 (dependents_of ns j) (
            All-mono _ _ (dependents_of ns j) (λ e ne. ground (arith, moves e.node))
              (others i j le))

      peaks :
          (j : ℕ) → i ≤ j → at (next i r).lvl j ≡ peak (at (next i r).lvl) 0 (dependents_of ns j)
      peaks j le = elim (Bool-cases (nat_eq i j)) [
        | inl here ↦
            (let fresh = d.untouched i (omega arith) in
              let at_i : i ≡ j = ground arith in rw (same j le) (ground (arith, moves j)))
        | inr above ↦
            (let old = d.peaked j (ground arith) in rw (same j le) (ground (arith, moves j)))
      ]

  assign-Done : (i : ℕ) (r : Ranks) → i ≤ length ns → Done ns i r → Done ns 0 (assign ns i r)
  unfolding assign
  assign-Done zero r inside d = d
  assign-Done (suc i) r inside d = assign-Done i (next i r) (omega arith) (step-Done i r inside d)

at-replicate : (n j : ℕ) → at (replicate n 0) j ≡ 0
at-replicate zero j = refl
at-replicate (suc n) zero = refl
at-replicate (suc n) (suc j) = at-replicate n j

start-Done :
    (ns : List ServiceNode)
    → Done ns (length ns) (record { lvl = replicate (length ns) 0; highest = 0 })
start-Done ns = record {
  sized = length-replicate (length ns) 0;
  peaked = λ j le. rw (at-replicate (length ns) j, dependents_of_out ns j le) refl;
  untouched = λ j lt. at-replicate (length ns) j;
  topped = λ j. omega (arith, at-replicate (length ns) j);
}

-- The level that the pass gives a slot.
abbrev pub rank : ServiceGraph → ℕ → ℕ
rank g i = get_or (ranks g.nodes).lvl i 0

ranks-Done : (g : ServiceGraph) → IsWired g → Done g.nodes 0 (ranks g.nodes)
unfolding ranks
ranks-Done g v = assign-Done g.nodes v.forward (length g.nodes) _ (omega arith) (start-Done g.nodes)

-- In a wired registry a service's level is 0 if nothing depends on it, and else one above the
-- highest level of what depends on it.
pub rank-eq-peak :
    (g : ServiceGraph) (i : ℕ) → IsWired g → rank g i ≡ peak (rank g) 0 (dependents_of g.nodes i)
rank-eq-peak g i v = (ranks-Done g v).peaked i (omega arith)

pub rank-le-highest : (g : ServiceGraph) (i : ℕ) → IsWired g → rank g i ≤ (ranks g.nodes).highest
rank-le-highest g i v = (ranks-Done g v).topped i

le-peak : (f : ℕ → ℕ) (c : ℕ) (es : List ServiceEdge) → c ≤ peak f c es
le-peak f c [] = omega arith
le-peak f c (e ∷ es) = omega (arith, le-peak f (max c (suc (f e.node))) es)

lt-peak :
    (f : ℕ → ℕ) (c : ℕ) (es : List ServiceEdge) (j : ℕ)
    → is_some (edge_to es j) ≡ true
    → f j < peak f c es
lt-peak f c [] j h = absurd (ground arith)
lt-peak f c (e ∷ es) j h = elim (Bool-cases (nat_eq e.node j)) [
  | inl here ↦
      (let same : e.node ≡ j = ground arith in
        subst (λ k. f k < peak f c (e ∷ es)) same
          (omega (arith, le-peak f (max c (suc (f e.node))) es)))
  | inr there ↦ lt-peak f (max c (suc (f e.node))) es j (ground arith)
]

-- In a wired registry a service's level is below the level of everything that it depends on.
pub rank-lt :
    (g : ServiceGraph) (i j : ℕ)
    → IsWired g
    → is_some (edge_to (deps_of g.nodes j) i) ≡ true
    → rank g j < rank g i
rank-lt g i j v h =
    rw (rank-eq-peak g i v)
      (lt-peak (rank g) 0 (dependents_of g.nodes i) j (let m = v.mirrored i j in ground arith))
