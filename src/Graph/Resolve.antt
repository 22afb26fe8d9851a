-- ===== src/Graph/Resolve.antt =====
-- What a registration that `resolve` lets through has passed, and where its edges lead.
use gwf.Common.{
  ℕ, String, refl, inl, inr, true, false, none, some, List, arith, eq_iff, Option-cases, ok, err,
  length, All, Dict, is_some, lookup, >>=-eq-ok, subst, ◌≡◌, ◌≢◌, ◌∷◌, [], ◌>>=◌, String_eq, ℕ_eq,
}
use gwf.Graph.{
  ServiceDep, ServiceEdge, ServiceNode, during_factory, ServiceGraph, join, resolve_dep,
  resolve_deps, resolve,
}
use gwf.Graph.Edges.{join-All}

-- The edges of a node that `resolve` builds lead to registered nodes.
resolve_dep-All :
    (P : ℕ → Type 0) (name : String) (by_name : Dict String ℕ) (es : List ServiceEdge)
    (d : ServiceDep) {es' : List ServiceEdge}
    → ((s : String) (i : ℕ) → lookup s by_name ≡ some i → P i)
    → All (λ e. P e.node) es
    → resolve_dep name by_name es d ≡ ok es'
    → All (λ e. P e.node) es'
unfolding resolve_dep
resolve_dep-All P name by_name es d reg h e = elim (Option-cases (lookup d.label by_name)) [
  | inl absent ↦ (let same : es ≡ _ = ground arith in subst (All (λ e. P e.node)) same h)
  | inr (target, known) ↦
      (let joined : join es target d.optional ≡ _ = ground arith in
        subst (All (λ e. P e.node)) joined
          (join-All P es target d.optional (reg d.label target known) h))
]

pub resolve_deps-All :
    (P : ℕ → Type 0) (name : String) (by_name : Dict String ℕ) (es : List ServiceEdge)
    (ds : List ServiceDep) {es' : List ServiceEdge}
    → ((s : String) (i : ℕ) → lookup s by_name ≡ some i → P i)
    → All (λ e. P e.node) es
    → resolve_deps name by_name es ds ≡ ok es'
    → All (λ e. P e.node) es'
unfolding resolve_deps
resolve_deps-All P name by_name es [] reg h e =
    (let same : es ≡ _ = ground arith in subst (All (λ e. P e.node)) same h)
resolve_deps-All P name by_name es (d ∷ ds) reg h e =
    let (fs, first, rest) = >>=-eq-ok (resolve_dep name by_name es d) _ e in
    resolve_deps-All P name by_name fs ds reg (resolve_dep-All P name by_name es d reg h first) rest

-- The node that `resolve` builds over its edges.
abbrev pub node_with : String → List ServiceDep → ServiceGraph → List ServiceEdge → ServiceNode
node_with name deps g edges = record {
  name = name;
  idx = length g.nodes;
  declared = deps;
  deps = edges;
  dependents = [];
}

-- What a registration that was not refused has passed.
pub record IsResolved (name : String) (deps : List ServiceDep) (g : ServiceGraph) (n : ServiceNode)
    : Type 0 where
  pub edges : List ServiceEdge
  pub linked : resolve_deps name g.by_name [] deps ≡ ok edges
  pub built : n ≡ node_with name deps g edges
  pub open_graph : g.sealed ≡ false
  pub no_factory : g.factory_pending_node ≡ none
  pub named : name ≢ ""
  pub new_name : lookup name g.by_name ≡ none

pub resolve-IsResolved :
    (name : String) (deps : List ServiceDep) (g : ServiceGraph) (n : ServiceNode)
    → resolve name deps g ≡ ok n
    → IsResolved name deps g n
unfolding resolve
resolve-IsResolved name deps g n h =
    let built : (resolve_deps name g.by_name [] deps >>= λ edges. ok (node_with name deps g edges))
        ≡ ok n =
      ground arith in
    let (edges, linked, node) = >>=-eq-ok (resolve_deps name g.by_name [] deps) _ built in
    record {
      edges = edges;
      linked = linked;
      built = ground arith;
      open_graph = ground arith;
      no_factory = ground arith;
      named = ground (arith, eq_iff name "");
      new_name = ground arith;
    }

pub resolve_pending :
    (name : String) (deps : List ServiceDep) (g : ServiceGraph)
    → g.sealed ≡ false
    → is_some g.factory_pending_node ≡ true
    → resolve name deps g ≡ err (during_factory name)
unfolding resolve
resolve_pending name deps g open_graph pending = rw (open_graph, pending) refl
