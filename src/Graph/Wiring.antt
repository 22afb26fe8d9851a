-- ===== src/Graph/Wiring.antt =====
-- The invariant of the registry, and that every registration keeps it.
use gwf.Common.{
  ℕ, suc, String, refl, inl, inr, Option, none, some, List, arith, eq_iff, Bool-cases, Option-cases,
  ok, length, get_elem?, get_elem?-lt, All, All-append, All-mono, lookup, lookup-insert, >>=-eq-ok,
  subst, ◌<◌, ◌≡◌, ◌↔◌, ◌==◌, [], ◌>>=◌, String_eq, ℕ_eq,
}
use gwf.Graph.{ServiceDep, ServiceNode, ServiceGraph, empty_graph, resolve, attach, add, name_of}
use gwf.Graph.Edges.{
  edge_to, deps_of, dependents_of, reversed, edge_to-append, edge_to_bounded, edge_to-reversed,
}
use gwf.Graph.Slots.{
  dependents_of_out, reversed-All, deps_of-attach, dependents_of-attach, name_of-attach,
  length-attach,
}
use gwf.Graph.Resolve.{IsResolved, resolve-IsResolved, resolve_deps-All}

-- Every dependency was registered before its dependent, the reverse edges mirror the edges in both
-- directions and in kind, and a name leads to the node that bears it.
pub record IsWired (g : ServiceGraph) : Type 0 where
  pub backward : (j : ℕ) → All (λ e. e.node < j) (deps_of g.nodes j)
  pub forward :
      (i : ℕ) → All (λ e. (i < e.node) × (e.node < length g.nodes)) (dependents_of g.nodes i)
  pub mirrored : (i j : ℕ) → edge_to (deps_of g.nodes j) i ≡ edge_to (dependents_of g.nodes i) j
  pub named : (s : String) (i : ℕ) → (lookup s g.by_name ≡ some i) ↔ (name_of g.nodes i ≡ some s)

pub empty_graph-IsWired : IsWired empty_graph
unfolding lookup
empty_graph-IsWired = record {
  backward = λ j. tt;
  forward = λ i. tt;
  mirrored = λ i j. refl;
  named = λ s i. (λ h. ground arith, λ h. ground arith);
}

name_of-lt : (ns : List ServiceNode) (i : ℕ) (s : String) → name_of ns i ≡ some s → i < length ns
name_of-lt ns i s h = elim (Option-cases (get_elem? ns i)) [
  | inl e ↦ ground arith
  | inr (n, e) ↦ get_elem?-lt ns i n e
]

module _ (n : ServiceNode) (g : ServiceGraph) (inside : All (λ e. e.node < length g.nodes) n.deps)
    (v : IsWired g) where
  attach-backward : (j : ℕ) → All (λ e. e.node < j) (deps_of (attach n g).nodes j)
  attach-backward j = rw (deps_of-attach n g inside) (elim (Bool-cases (j == length g.nodes)) [
    | inl last ↦
        (let at_end : length g.nodes ≡ j = ground arith in
          rw last (subst (λ k. All (λ e. e.node < k) n.deps) at_end inside))
    | inr old ↦ rw old (v.backward j)
  ])

  attach-forward :
      n.dependents ≡ []
      → (i : ℕ)
      → All
          (λ e. (i < e.node) × (e.node < length (attach n g).nodes))
          (dependents_of (attach n g).nodes i)
  attach-forward none_yet i =
      rw (dependents_of-attach n g inside, length-attach n g inside)
        (elim (Bool-cases (i == length g.nodes)) [
          | inl last ↦ rw (last, none_yet) tt
          | inr old ↦ rw old (
              All-append (λ e. (i < e.node) × (e.node < suc (length g.nodes)))
                (dependents_of g.nodes i) _
                (All-mono _ _ (dependents_of g.nodes i) (λ e h. (h.0, omega arith)) (v.forward i))
                (reversed-All (length g.nodes) n.deps i inside))
        ])

  attach-mirrored :
      n.dependents ≡ []
      → (i j : ℕ)
      → edge_to (deps_of (attach n g).nodes j) i ≡ edge_to (dependents_of (attach n g).nodes i) j
  attach-mirrored none_yet i j =
      let len = length g.nodes in
      rw (deps_of-attach n g inside, dependents_of-attach n g inside)
        (ground (
          arith,
          none_yet,
          v.mirrored i j,
          dependents_of_out g.nodes i,
          edge_to-append (dependents_of g.nodes i) (reversed len n.deps i) j,
          edge_to-reversed len n.deps i j,
          edge_to_bounded len i n.deps inside,
          edge_to_bounded len j (dependents_of g.nodes i)
              (All-mono _ _ (dependents_of g.nodes i) (λ e h. h.1) (v.forward i)),
        ))

  attach-named :
      lookup n.name g.by_name ≡ none
      → (s : String) (i : ℕ)
      → (lookup s (attach n g).by_name ≡ some i) ↔ (name_of (attach n g).nodes i ≡ some s)
  unfolding attach
  attach-named new s i =
      let at_name = name_of-attach n g inside i in
      let added = lookup-insert n.name s (length g.nodes) g.by_name in
      let known = v.named s i in
      let below = name_of-lt g.nodes i s in
      (
        λ h. ground (arith, at_name, added, known.0, below, eq_iff n.name s),
        λ h. ground (arith, at_name, added, known.1, below, eq_iff n.name s),
      )

  attach-IsWired : n.dependents ≡ [] → lookup n.name g.by_name ≡ none → IsWired (attach n g)
  attach-IsWired none_yet new = record {
    backward = attach-backward;
    forward = attach-forward none_yet;
    mirrored = attach-mirrored none_yet;
    named = attach-named new;
  }

-- The edges of a node that `resolve` lets through lead to registered services.
pub resolve-inside :
    (name : String) (deps : List ServiceDep) (g : ServiceGraph) (n : ServiceNode)
    → IsWired g
    → IsResolved name deps g n
    → All (λ e. e.node < length g.nodes) n.deps
resolve-inside name deps g n v r = rw r.built (
    resolve_deps-All (λ i. i < length g.nodes) name g.by_name [] deps
      (λ s i h. name_of-lt g.nodes i s ((v.named s i).0 h)) tt r.linked)

-- A registration that is not refused keeps the registry wired: its edges lead to services registered
-- before it, they are mirrored, and its name leads to it.
pub add-IsWired :
    (s : Option String) (deps : List ServiceDep) (g : ServiceGraph) {g' : ServiceGraph}
    → add s deps g ≡ ok g'
    → IsWired g
    → IsWired g'
unfolding add
add-IsWired none deps g h v = cc
add-IsWired (some name) deps g h v =
    let (n, resolved, attached) = >>=-eq-ok (resolve name deps g) _ h in
    let r = resolve-IsResolved name deps g n resolved in
    let built = r.built in
    let same : attach n g ≡ _ = ground arith in
    subst IsWired same (
      attach-IsWired n g (resolve-inside name deps g n v r) v (ground arith)
        (let new = r.new_name in ground arith))

-- What `add` is, once a name is given.
pub add_lem :
    (name : String) (deps : List ServiceDep) (g : ServiceGraph)
    → add (some name) deps g ≡ (resolve name deps g >>= λ n. ok (attach n g))
unfolding add
add_lem name deps g = refl
