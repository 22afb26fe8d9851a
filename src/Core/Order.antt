-- ===== src/Core/Order.antt =====
-- The order in which a walk reaches the services.
use mathlib.Core.List.{append-nil, append_assoc}
use gwf.Common.{
  ℕ, zero, suc, refl, sym, inl, inr, true, List, arith, ltb, leb, nat_eq, Bool-cases, length,
  get_or, contains, contains-append, is_some, ◌+◌, ◌-◌, ◌≤◌, ◌<◌, ◌≡◌, ◌&&◌, ◌∷◌, ◌++◌, [], ℕ_eq,
}
use native.Mathlib.Decide.{dec_lt}
use gwf.Graph.{ServiceNode, ServiceGraph}
use gwf.Graph.Edges.{deps_of, dependents_of, edge_to}
use gwf.Graph.Slots.{dependents_of_out}
use gwf.Graph.Wiring.{IsWired}
use gwf.Graph.Levels.{levels, ranks}
use gwf.Graph.Levels.Rank.{rank, rank-lt}
use gwf.Graph.Levels.Order.{levels_lem, slots, ranked}

-- Each element comes after everything that `before` puts in front of it, `done` having been reached.
abbrev pub Follows : (ℕ → ℕ → Type 0) → List ℕ → List ℕ → Type 0
Follows before done [] = Unit
Follows before done (n ∷ ns) =
    ((j : ℕ) → before n j → contains done j ≡ true) × Follows before (done ++ n ∷ []) ns

pub Follows-append :
    (before : ℕ → ℕ → Type 0) (done xs ys : List ℕ)
    → Follows before done xs
    → Follows before (done ++ xs) ys
    → Follows before done (xs ++ ys)
Follows-append before done [] ys hx hy = rw (sym (append-nil done)) hy
Follows-append before done (x ∷ xs) ys hx hy = (
  hx.0,
  Follows-append before (done ++ x ∷ []) xs ys hx.1 (rw (append_assoc done (x ∷ []) xs) hy),
)

contains-done : (done xs : List ℕ) (j : ℕ) → contains done j ≡ true → contains (done ++ xs) j ≡ true
contains-done done xs j h = ground (arith, contains-append done xs j)

-- Services that wait for nothing but what is done may come in any order.
pub Follows-level :
    (before : ℕ → ℕ → Type 0) (done ns : List ℕ)
    → ((n j : ℕ) → contains ns n ≡ true → before n j → contains done j ≡ true)
    → Follows before done ns
Follows-level before done [] h = tt
Follows-level before done (n ∷ ns) h = (
  λ j. h n j (ground arith),
  Follows-level before (done ++ n ∷ []) ns
      (λ m j m_in b. contains-done done (n ∷ []) j (h m j (ground arith) b)),
)

contains-slots : (i n j : ℕ) → contains (slots i n) j ≡ (leb i j && ltb j (i + n))
contains-slots i zero j = ground arith
contains-slots i (suc n) j = ground (arith, contains-slots (suc i) n j)

contains-ranked :
    (lvl : List ℕ) (k : ℕ) (is : List ℕ) (j : ℕ)
    → contains (ranked lvl k is) j ≡ (contains is j && nat_eq (get_or lvl j 0) k)
contains-ranked lvl k [] j = refl
contains-ranked lvl k (i ∷ is) j = elim (Bool-cases (nat_eq i j)) [
  | inl here ↦
      (let same : i ≡ j = ground arith in rw same (ground (arith, contains-ranked lvl k is j)))
  | inr there ↦ ground (arith, contains-ranked lvl k is j)
]

-- A service is on the level of its rank, and on no other.
pub contains-levels :
    (g : ServiceGraph) (k i : ℕ)
    → IsWired g
    → contains (get_or (levels g) k []) i ≡ (ltb i (length g.nodes) && nat_eq (rank g i) k)
contains-levels g k i v =
    rw
      (
        levels_lem g k v,
        contains-ranked (ranks g.nodes).lvl k (slots 0 (length g.nodes)) i,
        contains-slots 0 (length g.nodes) i,
      )
      (ground arith)

-- What a service depends on, and what depends on it.
abbrev pub DependsOn : ServiceGraph → ℕ → ℕ → Type 0
DependsOn g n j = is_some (edge_to (deps_of g.nodes n) j) ≡ true

abbrev pub NeededBy : ServiceGraph → ℕ → ℕ → Type 0
NeededBy g n j = is_some (edge_to (dependents_of g.nodes n) j) ≡ true

abbrev pub start_order : List (List ℕ) → List ℕ
start_order [] = []
start_order (l ∷ ls) = start_order ls ++ l

contains-start_order :
    (ls : List (List ℕ)) (m j : ℕ)
    → contains (get_or ls m []) j ≡ true
    → contains (start_order ls) j ≡ true
contains-start_order [] m j h = absurd (ground arith)
contains-start_order (l ∷ ls) zero j h = ground (arith, contains-append (start_order ls) l j)
contains-start_order (l ∷ ls) (suc m) j h =
    ground (arith, contains-append (start_order ls) l j, contains-start_order ls m j)

deps_of_out : (ns : List ServiceNode) (i : ℕ) → length ns ≤ i → deps_of ns i ≡ []
deps_of_out [] i h = refl
deps_of_out (n ∷ ns) zero h = absurd (omega arith)
deps_of_out (n ∷ ns) (suc i) h = deps_of_out ns i (omega arith)

module _ (g : ServiceGraph) (v : IsWired g) where
  registered : (n j : ℕ) → DependsOn g n j → j < length g.nodes
  registered n j h = elim (dec_lt j (length g.nodes)) [
    | yes lt ↦ lt
    | no ge ↦
        (let m = v.mirrored j n in
          let out = dependents_of_out g.nodes j (omega arith) in absurd (ground arith))
  ]

  on_level : (n k : ℕ) → contains (get_or (levels g) k []) n ≡ true → rank g n ≡ k
  on_level n k h = ground (arith, contains-levels g k n v)

  level_has :
      (j k : ℕ) → j < length g.nodes → rank g j ≡ k → contains (get_or (levels g) k []) j ≡ true
  level_has j k lt e = rw (contains-levels g k j v) (ground arith)

  start_order-Follows :
      (ls : List (List ℕ)) (k : ℕ)
      → ((m : ℕ) → get_or ls m [] ≡ get_or (levels g) (k + m) [])
      → Follows (DependsOn g) [] (start_order ls)
  start_order-Follows [] k h = tt
  start_order-Follows (l ∷ ls) k h =
      Follows-append (DependsOn g) [] (start_order ls) l
        (start_order-Follows ls (suc k)
          (λ m. (let e : suc k + m ≡ k + suc m = omega arith in rw e (h (suc m)))))
        (Follows-level (DependsOn g) (start_order ls) l earlier)
    where
      earlier :
          (n j : ℕ) → contains l n ≡ true → DependsOn g n j → contains (start_order ls) j ≡ true
      earlier n j n_in dep =
          let here = on_level n (k + 0) (rw (sym (h 0)) n_in) in
          let lt = rank-lt g j n v dep in
          let at_j : k + suc (rank g j - suc k) ≡ rank g j = omega arith in
          contains-start_order ls (rank g j - suc k) j (
            rw (h (suc (rank g j - suc k)), at_j)
              (level_has j (rank g j) (registered n j dep) refl))

  from_start : (m : ℕ) → get_or (levels g) m [] ≡ get_or (levels g) (0 + m) []
  from_start m = (let e : 0 + m ≡ m = omega arith in rw e refl)

  -- Every service comes after all that it depends on.
  pub start_order-levels : Follows (DependsOn g) [] (start_order (levels g))
  start_order-levels = start_order-Follows (levels g) 0 from_start

  registered_user : (n j : ℕ) → NeededBy g n j → j < length g.nodes
  registered_user n j h = elim (dec_lt j (length g.nodes)) [
    | yes lt ↦ lt
    | no ge ↦
        (let m = v.mirrored n j in
          let out = deps_of_out g.nodes j (omega arith) in absurd (ground arith))
  ]

  -- No registered service is left out.
  pub start_order_all : (i : ℕ) → i < length g.nodes → contains (start_order (levels g)) i ≡ true
  start_order_all i lt =
      contains-start_order (levels g) (rank g i) i (level_has i (rank g i) lt refl)

  module _ (order : List ℕ → List ℕ)
      (same : (l : List ℕ) (i : ℕ) → contains (order l) i ≡ contains l i) where
    abbrev pub end_order : List (List ℕ) → List ℕ
    end_order [] = []
    end_order (l ∷ ls) = order l ++ end_order ls

    end_order-Follows :
        (done : List ℕ) (ls : List (List ℕ)) (k : ℕ)
        → ((m : ℕ) → get_or ls m [] ≡ get_or (levels g) (k + m) [])
        → ((j : ℕ) → j < length g.nodes → rank g j < k → contains done j ≡ true)
        → Follows (NeededBy g) done (end_order ls)
    end_order-Follows done [] k h before = tt
    end_order-Follows done (l ∷ ls) k h before =
        Follows-append (NeededBy g) done (order l) (end_order ls)
          (Follows-level (NeededBy g) done (order l) earlier)
          (end_order-Follows (done ++ order l) ls (suc k)
            (λ m. (let e : suc k + m ≡ k + suc m = omega arith in rw e (h (suc m)))) reached)
      where
        earlier : (n j : ℕ) → contains (order l) n ≡ true → NeededBy g n j → contains done j ≡ true
        earlier n j n_in dep =
            let here = on_level n (k + 0) (rw (sym (h 0), sym (same l n)) n_in) in
            let m = v.mirrored n j in
            let lt = rank-lt g n j v (ground arith) in
            before j (registered_user n j dep) (omega arith)

        reached :
            (j : ℕ) → j < length g.nodes → rank g j < suc k → contains (done ++ order l) j ≡ true
        reached j inside lt = elim (dec_lt (rank g j) k) [
          | yes below ↦ contains-done done (order l) j (before j inside below)
          | no here ↦
              (let there : contains l j ≡ true =
                  rw (h 0) (level_has j (k + 0) inside (omega arith)) in
                ground (arith, contains-append done (order l) j, same l j))
        ]

    -- Every service comes after all that depends on it.
    pub end_order-levels : Follows (NeededBy g) [] (end_order (levels g))
    end_order-levels =
        end_order-Follows [] (levels g) 0 from_start (λ j inside lt. absurd (omega arith))
