-- ===== src/Graph/Slots.antt =====
-- Slot by slot, what `attach` makes of the registry.
use gwf.Common.{
  ℕ, zero, suc, refl, ap, inl, inr, some, List, arith, Bool-cases, length, length-append, All, ◌≤◌,
  ◌<◌, ◌≡◌, ◌∙◌, ◌∷◌, ◌++◌, ◌==◌, [], if◌then◌else◌, String_eq, ℕ_eq,
}
use gwf.Graph.{
  ServiceEdge, ServiceNode, ServiceGraph, add_dependent, add_dependents, attach, name_of,
}
use gwf.Graph.Edges.{
  deps_of, dependents_of, reversed, length-add_dependents, dependents_of-add_dependents,
  deps_of-add_dependents,
}

module _ (n : ServiceNode) where
  deps_of-append_one :
      (ns : List ServiceNode) (j : ℕ)
      → deps_of (ns ++ n ∷ []) j ≡ (if j == length ns then n.deps else deps_of ns j)
  deps_of-append_one [] zero = refl
  deps_of-append_one [] (suc j) = ground arith
  deps_of-append_one (m ∷ ns) zero = ground arith
  deps_of-append_one (m ∷ ns) (suc j) = ground (arith, deps_of-append_one ns j)

  dependents_of-append_one :
      (ns : List ServiceNode) (j : ℕ)
      → dependents_of (ns ++ n ∷ []) j
        ≡ (if j == length ns then n.dependents else dependents_of ns j)
  dependents_of-append_one [] zero = refl
  dependents_of-append_one [] (suc j) = ground arith
  dependents_of-append_one (m ∷ ns) zero = ground arith
  dependents_of-append_one (m ∷ ns) (suc j) = ground (arith, dependents_of-append_one ns j)

  name_of-append_one :
      (ns : List ServiceNode) (j : ℕ)
      → name_of (ns ++ n ∷ []) j ≡ (if j == length ns then some n.name else name_of ns j)
  name_of-append_one [] zero = refl
  name_of-append_one [] (suc j) = ground arith
  name_of-append_one (m ∷ ns) zero = ground arith
  name_of-append_one (m ∷ ns) (suc j) = ground (arith, name_of-append_one ns j)

pub dependents_of_out : (ns : List ServiceNode) (i : ℕ) → length ns ≤ i → dependents_of ns i ≡ []
dependents_of_out [] i h = refl
dependents_of_out (n ∷ ns) zero h = absurd (omega arith)
dependents_of_out (n ∷ ns) (suc i) h = dependents_of_out ns i (omega arith)

pub reversed-All :
    (len : ℕ) (es : List ServiceEdge) (i : ℕ)
    → All (λ e. e.node < len) es
    → All (λ e. (i < e.node) × (e.node < suc len)) (reversed len es i)
reversed-All len [] i h = tt
reversed-All len (e ∷ es) i h = elim (Bool-cases (e.node == i)) [
  | inl hit ↦ rw hit ((ground arith, omega arith), reversed-All len es i h.1)
  | inr miss ↦ rw miss (reversed-All len es i h.1)
]

name_of-add_dependents :
    (idx : ℕ) (es : List ServiceEdge) (ns : List ServiceNode) (i : ℕ)
    → name_of (add_dependents idx es ns) i ≡ name_of ns i
unfolding add_dependents
name_of-add_dependents idx [] ns i = refl
name_of-add_dependents idx (e ∷ es) ns i = name_of-add_dependents idx es _ i ∙ one ns e.node i
  where
    one :
        (ns : List ServiceNode) (k i : ℕ)
        → name_of (add_dependent ns k (record { node = idx; optional = e.optional })) i
          ≡ name_of ns i
    one [] k i = refl
    one (n ∷ ns) zero zero = refl
    one (n ∷ ns) zero (suc i) = refl
    one (n ∷ ns) (suc k) zero = refl
    one (n ∷ ns) (suc k) (suc i) = one ns k i

-- Slot by slot, what `attach` makes of the registry.
module _ (n : ServiceNode) (g : ServiceGraph)
    (inside : All (λ e. e.node < length g.nodes) n.deps) where
  pub deps_of-attach :
      (j : ℕ)
      → deps_of (attach n g).nodes j ≡ (if j == length g.nodes then n.deps else deps_of g.nodes j)
  unfolding attach
  deps_of-attach j =
      rw (deps_of-append_one, length-add_dependents)
        (ap (λ d. if j == length g.nodes then n.deps else d)
          (deps_of-add_dependents (length g.nodes) n.deps g.nodes j))

  pub dependents_of-attach :
      (i : ℕ)
      → dependents_of (attach n g).nodes i ≡ (
          if i == length g.nodes
          then n.dependents
          else dependents_of g.nodes i ++ reversed (length g.nodes) n.deps i)
  unfolding attach
  dependents_of-attach i =
      rw (dependents_of-append_one, length-add_dependents)
        (ap (λ d. if i == length g.nodes then n.dependents else d)
          (dependents_of-add_dependents (length g.nodes) n.deps g.nodes i inside))

  pub name_of-attach :
      (i : ℕ)
      → name_of (attach n g).nodes i
        ≡ (if i == length g.nodes then some n.name else name_of g.nodes i)
  unfolding attach
  name_of-attach i =
      rw (name_of-append_one, length-add_dependents)
        (ap (λ d. if i == length g.nodes then some n.name else d)
          (name_of-add_dependents (length g.nodes) n.deps g.nodes i))

  pub length-attach : length (attach n g).nodes ≡ suc (length g.nodes)
  unfolding attach
  length-attach = omega (
    arith,
    length-append (add_dependents (length g.nodes) n.deps g.nodes) (n ∷ []),
    length-add_dependents (length g.nodes) n.deps g.nodes,
  )
