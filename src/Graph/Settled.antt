-- ===== src/Graph/Settled.antt =====
-- Every registration settles what it declares of the services registered by then.
use native.Mathlib.Decide.{dec_lt}
use gwf.Common.{
  ℕ, zero, suc, String, refl, ap, inl, inr, true, false, Option, none, some, List, arith, eq_iff,
  Bool-cases, ok, length, All, All-mono, is_some, lookup, lookup-insert, >>=-eq-ok, subst, ◌≤◌, ◌<◌,
  ◌≡◌, ◌∙◌, ◌∷◌, ◌++◌, ◌==◌, [], if◌then◌else◌, String_eq, ℕ_eq,
}
use gwf.Graph.{
  ServiceDep, ServiceEdge, ServiceNode, ServiceGraph, resolve, add_dependent, add_dependents,
  attach, add,
}
use gwf.Graph.Edges.{deps_of}
use gwf.Graph.Slots.{deps_of-attach}
use gwf.Graph.Wiring.{IsWired, resolve-inside}
use gwf.Graph.Resolve.{IsResolved, resolve-IsResolved}
use gwf.Graph.Strictest.{strictest_of, edge_to-resolve}
use gwf.Graph.Seal.{declared_of, IsSettled, HasEdge}
use gwf.Graph.Edges.{length-add_dependents}

declared_of-add_dependent :
    (ns : List ServiceNode) (k j : ℕ) (e : ServiceEdge)
    → declared_of (add_dependent ns k e) j ≡ declared_of ns j
unfolding add_dependent
declared_of-add_dependent [] k j e = refl
declared_of-add_dependent (n ∷ ns) zero zero e = refl
declared_of-add_dependent (n ∷ ns) zero (suc j) e = refl
declared_of-add_dependent (n ∷ ns) (suc k) zero e = refl
declared_of-add_dependent (n ∷ ns) (suc k) (suc j) e = declared_of-add_dependent ns k j e

declared_of-add_dependents :
    (idx : ℕ) (es : List ServiceEdge) (ns : List ServiceNode) (j : ℕ)
    → declared_of (add_dependents idx es ns) j ≡ declared_of ns j
unfolding add_dependents
declared_of-add_dependents idx [] ns j = refl
declared_of-add_dependents idx (e ∷ es) ns j =
    declared_of-add_dependents idx es _ j ∙ declared_of-add_dependent ns e.node j _

declared_of-append_one :
    (n : ServiceNode) (ns : List ServiceNode) (j : ℕ)
    → declared_of (ns ++ n ∷ []) j ≡ (if j == length ns then n.declared else declared_of ns j)
declared_of-append_one n [] zero = refl
declared_of-append_one n [] (suc j) = ground arith
declared_of-append_one n (m ∷ ns) zero = ground arith
declared_of-append_one n (m ∷ ns) (suc j) = ground (arith, declared_of-append_one n ns j)

declared_of-attach :
    (n : ServiceNode) (g : ServiceGraph) (j : ℕ)
    → declared_of (attach n g).nodes j
      ≡ (if j == length g.nodes then n.declared else declared_of g.nodes j)
unfolding attach
declared_of-attach n g j =
    rw (declared_of-append_one, length-add_dependents)
      (ap (λ d. if j == length g.nodes then n.declared else d)
        (declared_of-add_dependents (length g.nodes) n.deps g.nodes j))

strictest_of_declared :
    (ds : List ServiceDep) → All (λ d. is_some (strictest_of d.label ds) ≡ true) ds
strictest_of_declared [] = tt
strictest_of_declared (d ∷ ds) = (
  ground (arith, eq_iff d.label d.label),
  All-mono _ _ ds (λ x h. ground arith) (strictest_of_declared ds),
)

declared_of_out : (ns : List ServiceNode) (j : ℕ) → length ns ≤ j → declared_of ns j ≡ []
declared_of_out [] j h = refl
declared_of_out (n ∷ ns) zero h = absurd (omega arith)
declared_of_out (n ∷ ns) (suc j) h = declared_of_out ns j (omega arith)

old_name :
    (n : ServiceNode) (g : ServiceGraph) (l : String) (t : ℕ)
    → lookup l (attach n g).by_name ≡ some t
    → t < length g.nodes
    → lookup l g.by_name ≡ some t
unfolding attach
old_name n g l t h before = ground (arith, lookup-insert n.name l (length g.nodes) g.by_name)

module _ (name : String) (deps : List ServiceDep) (g : ServiceGraph) (n : ServiceNode)
    (v : IsWired g) (resolved : resolve name deps g ≡ ok n) where
  new_edge :
      (d : ServiceDep)
      → is_some (strictest_of d.label deps) ≡ true
      → HasEdge (attach n g) n.deps (length g.nodes) d
  new_edge d declared t h before =
      let edge =
        edge_to-resolve name deps g n d.label t v resolved (old_name n g d.label t h before) in
      ground arith

  old_edge :
      (j : ℕ) (d : ServiceDep)
      → j < length g.nodes
      → HasEdge g (deps_of g.nodes j) j d
      → HasEdge (attach n g) (deps_of g.nodes j) j d
  old_edge j d below has t h before = has t (old_name n g d.label t h (omega arith)) before

  attach-settled :
      IsSettled g
      → (j : ℕ)
      → All
          (HasEdge (attach n g) (deps_of (attach n g).nodes j) j)
          (declared_of (attach n g).nodes j)
  attach-settled w j =
      rw (declared_of-attach n g j, deps_of-attach n g inside)
        (elim (dec_lt j (length g.nodes)) [
          | yes below ↦
              (let old : (j == length g.nodes) ≡ false = ground arith in
                rw old (
                  All-mono _ _ (declared_of g.nodes j) (λ d h. old_edge j d below h) (w.settled j)))
          | no other ↦ elim (Bool-cases (j == length g.nodes)) [
            | inl last ↦
                (let at_end : length g.nodes ≡ j = ground arith in
                  let declares : deps ≡ n.declared = (let b = r.built in ground arith) in
                  rw last (
                    subst (λ k. All (HasEdge (attach n g) n.deps k) n.declared) at_end
                      (subst (All (HasEdge (attach n g) n.deps (length g.nodes))) declares
                        (All-mono _ _ deps new_edge (strictest_of_declared deps)))))
            | inr beyond ↦ rw (beyond, declared_of_out g.nodes j (omega arith)) tt
          ]
        ])
    where
      r : IsResolved name deps g n
      r = resolve-IsResolved name deps g n resolved

      inside : All (λ e. e.node < length g.nodes) n.deps
      inside = resolve-inside name deps g n v r

-- A registration that is not refused keeps a wired registry settled: every declaration of a
-- service registered by then has its edge.
pub add-IsSettled :
    (s : Option String) (deps : List ServiceDep) (g : ServiceGraph) {g' : ServiceGraph}
    → add s deps g ≡ ok g'
    → IsWired g
    → IsSettled g
    → IsSettled g'
unfolding add
add-IsSettled none deps g h v w = cc
add-IsSettled (some name) deps g h v w =
    let (n, resolved, attached) = >>=-eq-ok (resolve name deps g) _ h in
    let same : attach n g ≡ _ = ground arith in
    subst IsSettled same (record { settled = attach-settled name deps g n v resolved w })
