-- ===== src/Graph/Edges.antt =====
-- Edge lists: which edge leads to a node, and how `join` and `attach` change that.
use mathlib.Core.List.{append-nil, append_assoc}
use gwf.Common.{
  ℕ, zero, suc, refl, sym, ap, inl, inr, Bool, Option, none, some, List, arith, Bool-cases,
  Option-cases, length, All, All-append, ◌≤◌, ◌<◌, ◌≡◌, ◌∙◌, ◌&&◌, ◌∷◌, ◌++◌, ◌==◌, [],
  if◌then◌else◌, String_eq, ℕ_eq,
}
use gwf.Graph.{ServiceEdge, ServiceNode, index_of_edge, narrow, join, add_dependent, add_dependents}

-- The kind of the first edge to a node.
abbrev pub edge_to : List ServiceEdge → ℕ → Option Bool
edge_to [] i = none
edge_to (e ∷ es) i = if e.node == i then some e.optional else edge_to es i

abbrev pub or_else {ℓ} : {A : Type ℓ} → Option A → Option A → Option A
or_else none o = o
or_else (some a) o = some a

-- The kind of two declarations of one dependency: it is optional only if both are.
abbrev pub strictest : Option Bool → Bool → Bool
strictest none b = b
strictest (some a) b = a && b

pub edge_to-append :
    (xs ys : List ServiceEdge) (i : ℕ)
    → edge_to (xs ++ ys) i ≡ or_else (edge_to xs i) (edge_to ys i)
edge_to-append [] ys i = refl
edge_to-append (e ∷ xs) ys i = ground (arith, edge_to-append xs ys i)

pub edge_to_bounded :
    (n i : ℕ) (es : List ServiceEdge) → All (λ e. e.node < n) es → n ≤ i → edge_to es i ≡ none
edge_to_bounded n i [] h le = refl
edge_to_bounded n i (e ∷ es) h le = ground (arith, edge_to_bounded n i es h.1)

edge_to-narrow :
    (es : List ServiceEdge) (target : ℕ) (optional : Bool) (i j : ℕ)
    → index_of_edge es target ≡ some j
    → edge_to (narrow es j optional) i
      ≡ (if target == i then some (strictest (edge_to es target) optional) else edge_to es i)
unfolding index_of_edge narrow
edge_to-narrow [] target optional i j h = ground arith
edge_to-narrow (e ∷ es) target optional i zero h = ground arith
edge_to-narrow (e ∷ es) target optional i (suc j) h =
    ground (arith, edge_to-narrow es target optional i j)

edge_to_absent :
    (es : List ServiceEdge) (target : ℕ) → index_of_edge es target ≡ none → edge_to es target ≡ none
unfolding index_of_edge
edge_to_absent [] target h = refl
edge_to_absent (e ∷ es) target h = ground (arith, edge_to_absent es target)

-- Joining a declaration gives the dependency the strictest kind and changes no other.
pub edge_to-join :
    (es : List ServiceEdge) (target : ℕ) (optional : Bool) (i : ℕ)
    → edge_to (join es target optional) i
      ≡ (if target == i then some (strictest (edge_to es target) optional) else edge_to es i)
unfolding join
edge_to-join es target optional i = elim (Option-cases (index_of_edge es target)) [
  | inl e ↦
      rw (e, join)
        (ground (
          arith,
          edge_to-append es (record { node = target; optional = optional } ∷ []) i,
          edge_to_absent es target,
        ))
  | inr (j, e) ↦ rw (e, join) (edge_to-narrow es target optional i j e)
]

-- The kinds of all edges to a node.
abbrev pub edges_to : List ServiceEdge → ℕ → List Bool
edges_to [] i = []
edges_to (e ∷ es) i = if e.node == i then e.optional ∷ edges_to es i else edges_to es i

edges_to-append :
    (xs ys : List ServiceEdge) (i : ℕ) → edges_to (xs ++ ys) i ≡ edges_to xs i ++ edges_to ys i
edges_to-append [] ys i = refl
edges_to-append (e ∷ xs) ys i = ground (arith, edges_to-append xs ys i)

edges_to_absent :
    (es : List ServiceEdge) (target : ℕ) → index_of_edge es target ≡ none → edges_to es target ≡ []
unfolding index_of_edge
edges_to_absent [] target h = refl
edges_to_absent (e ∷ es) target h = ground (arith, edges_to_absent es target)

length-narrow :
    (es : List ServiceEdge) (optional : Bool) (i j : ℕ)
    → length (edges_to (narrow es j optional) i) ≡ length (edges_to es i)
unfolding narrow
length-narrow [] optional i j = refl
length-narrow (e ∷ es) optional i zero = ground arith
length-narrow (e ∷ es) optional i (suc j) = ground (arith, length-narrow es optional i j)

-- Joining a declaration never makes a second edge to a node.
pub edges_to-join :
    (es : List ServiceEdge) (target : ℕ) (optional : Bool) (i : ℕ)
    → length (edges_to es i) ≤ 1
    → length (edges_to (join es target optional) i) ≤ 1
unfolding join
edges_to-join es target optional i h = elim (Option-cases (index_of_edge es target)) [
  | inl e ↦
      rw (e, join, edges_to-append es (record { node = target; optional = optional } ∷ []) i)
        (ground (arith, edges_to_absent es target e, append-nil (edges_to es i)))
  | inr (j, e) ↦ rw (e, join, length-narrow es optional i j) h
]

none_left : (b : Bool) (bs : List Bool) → length (b ∷ bs) ≤ 1 → bs ≡ []
none_left b [] h = refl
none_left b (c ∷ bs) h = absurd (omega (arith, h))

-- Where there is one edge to a node at most, the first is the only one.
pub edges_to_single :
    (es : List ServiceEdge) (i : ℕ)
    → length (edges_to es i) ≤ 1
    → edges_to es i ≡ elim (edge_to es i) [ none ↦ [] | some b ↦ b ∷ [] ]
edges_to_single [] i h = refl
edges_to_single (e ∷ es) i h = elim (Bool-cases (e.node == i)) [
  | inl here ↦ rw here (ap (λ bs. e.optional ∷ bs) (none_left e.optional _ (simp here at h)))
  | inr other ↦ rw other (edges_to_single es i (simp other at h))
]

narrow-All :
    (P : ℕ → Type 0) (es : List ServiceEdge) (j : ℕ) (optional : Bool)
    → All (λ e. P e.node) es
    → All (λ e. P e.node) (narrow es j optional)
unfolding narrow
narrow-All P [] j optional h = tt
narrow-All P (e ∷ es) zero optional h = h
narrow-All P (e ∷ es) (suc j) optional h = (h.0, narrow-All P es j optional h.1)

pub join-All :
    (P : ℕ → Type 0) (es : List ServiceEdge) (target : ℕ) (optional : Bool)
    → P target
    → All (λ e. P e.node) es
    → All (λ e. P e.node) (join es target optional)
unfolding join
join-All P es target optional p h = elim (Option-cases (index_of_edge es target)) [
  | inl e ↦
      rw (e, join)
        (All-append (λ e. P e.node) es (record { node = target; optional = optional } ∷ []) h
          (p, tt))
  | inr (j, e) ↦ rw (e, join) (narrow-All P es j optional h)
]

-- What a slot of the registry holds.
abbrev pub deps_of : List ServiceNode → ℕ → List ServiceEdge
deps_of [] i = []
deps_of (n ∷ ns) zero = n.deps
deps_of (n ∷ ns) (suc i) = deps_of ns i

abbrev pub dependents_of : List ServiceNode → ℕ → List ServiceEdge
dependents_of [] i = []
dependents_of (n ∷ ns) zero = n.dependents
dependents_of (n ∷ ns) (suc i) = dependents_of ns i

-- The reverse edges of `es` that go to slot `i`.
abbrev pub reversed : ℕ → List ServiceEdge → ℕ → List ServiceEdge
reversed idx [] i = []
reversed idx (e ∷ es) i =
    let rest = reversed idx es i in
    if e.node == i then record { node = idx; optional = e.optional } ∷ rest else rest

pub edge_to-reversed :
    (idx : ℕ) (es : List ServiceEdge) (i j : ℕ)
    → edge_to (reversed idx es i) j ≡ (if idx == j then edge_to es i else none)
edge_to-reversed idx [] i j = ground arith
edge_to-reversed idx (e ∷ es) i j = ground (arith, edge_to-reversed idx es i j)

dependents_of-add_dependent :
    (ns : List ServiceNode) (k i : ℕ) (e : ServiceEdge)
    → k < length ns
    → dependents_of (add_dependent ns k e) i
      ≡ (if k == i then dependents_of ns i ++ e ∷ [] else dependents_of ns i)
unfolding add_dependent
dependents_of-add_dependent [] k i e h = elim h [ ]
dependents_of-add_dependent (n ∷ ns) zero zero e h = refl
dependents_of-add_dependent (n ∷ ns) zero (suc i) e h = ground arith
dependents_of-add_dependent (n ∷ ns) (suc k) zero e h = ground arith
dependents_of-add_dependent (n ∷ ns) (suc k) (suc i) e h =
    ground (arith, dependents_of-add_dependent ns k i e)

length-add_dependent :
    (ns : List ServiceNode) (k : ℕ) (e : ServiceEdge) → length (add_dependent ns k e) ≡ length ns
unfolding add_dependent
length-add_dependent [] k e = refl
length-add_dependent (n ∷ ns) zero e = refl
length-add_dependent (n ∷ ns) (suc k) e = ap suc (length-add_dependent ns k e)

pub length-add_dependents :
    (idx : ℕ) (es : List ServiceEdge) (ns : List ServiceNode)
    → length (add_dependents idx es ns) ≡ length ns
unfolding add_dependents
length-add_dependents idx [] ns = refl
length-add_dependents idx (e ∷ es) ns =
    length-add_dependents idx es _ ∙ length-add_dependent ns e.node _

-- `attach` puts one reverse edge behind the dependents of each dependency.
pub dependents_of-add_dependents :
    (idx : ℕ) (es : List ServiceEdge) (ns : List ServiceNode) (i : ℕ)
    → All (λ e. e.node < length ns) es
    → dependents_of (add_dependents idx es ns) i ≡ dependents_of ns i ++ reversed idx es i
unfolding add_dependents
dependents_of-add_dependents idx [] ns i h = sym (append-nil _)
dependents_of-add_dependents idx (e ∷ es) ns i h =
    dependents_of-add_dependents idx es ns' i (rw (length-add_dependent ns e.node back) h.1)
    ∙ ground (
      arith,
      dependents_of-add_dependent ns e.node i back h.0,
      append_assoc (dependents_of ns i) (back ∷ []) (reversed idx es i),
    )
  where
    back : ServiceEdge
    back = record { node = idx; optional = e.optional }

    ns' : List ServiceNode
    ns' = add_dependent ns e.node back

deps_of-add_dependent :
    (ns : List ServiceNode) (k j : ℕ) (e : ServiceEdge)
    → deps_of (add_dependent ns k e) j ≡ deps_of ns j
unfolding add_dependent
deps_of-add_dependent [] k j e = refl
deps_of-add_dependent (n ∷ ns) zero zero e = refl
deps_of-add_dependent (n ∷ ns) zero (suc j) e = refl
deps_of-add_dependent (n ∷ ns) (suc k) zero e = refl
deps_of-add_dependent (n ∷ ns) (suc k) (suc j) e = deps_of-add_dependent ns k j e

pub deps_of-add_dependents :
    (idx : ℕ) (es : List ServiceEdge) (ns : List ServiceNode) (j : ℕ)
    → deps_of (add_dependents idx es ns) j ≡ deps_of ns j
unfolding add_dependents
deps_of-add_dependents idx [] ns j = refl
deps_of-add_dependents idx (e ∷ es) ns j =
    deps_of-add_dependents idx es _ j ∙ deps_of-add_dependent ns e.node j _
