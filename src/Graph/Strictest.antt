-- ===== src/Graph/Strictest.antt =====
-- What the declarations of a registration come to: one edge for each dependency, of the strictest
-- kind declared, and a refusal exactly where a declaration cannot stand.
use gwf.Common.{
  ℕ, String, refl, inl, inr, Bool, true, false, not, Option, none, some, List, arith, eq_iff,
  Option-cases, Result, ok, err, length, Dict, is_some, lookup, >>=-eq-ok, ◌≤◌, ◌≡◌, ◌∙◌, ◌&&◌,
  ◌||◌, ◌∷◌, ◌==◌, [], if◌then◌else◌, ◌>>=◌, String_eq, ℕ_eq,
}
use gwf.Graph.{
  ServiceDep, ServiceEdge, ServiceNode, ServiceGraph, Refusal, resolve_dep, resolve_deps, resolve,
}
use gwf.Graph.Edges.{edge_to, strictest, edge_to-join, edges_to, edges_to-join, edges_to_single}
use gwf.Graph.Wiring.{IsWired}
use gwf.Graph.Resolve.{resolve-IsResolved, node_with}

-- The kind of a label over a list of declarations: absent, or optional only if each one is.
abbrev pub strictest_of : String → List ServiceDep → Option Bool
strictest_of l [] = none
strictest_of l (d ∷ ds) =
    let rest = strictest_of l ds in
    if d.label == l then some (elim rest [ none ↦ d.optional | some b ↦ d.optional && b ]) else rest

abbrev combine : Option Bool → Option Bool → Option Bool
combine none o = o
combine (some a) none = some a
combine (some a) (some b) = some (a && b)

module _ (name : String) (g : ServiceGraph) (v : IsWired g) (l : String) (t : ℕ)
    (known : lookup l g.by_name ≡ some t) where
  same_label : (s : String) → lookup s g.by_name ≡ some t → s ≡ l
  same_label s h = (let a = (v.named s t).0 h in let b = (v.named l t).0 known in ground arith)

  edge_to-resolve_dep :
      (es fs : List ServiceEdge) (d : ServiceDep)
      → resolve_dep name g.by_name es d ≡ ok fs
      → edge_to fs t
        ≡ (if d.label == l then some (strictest (edge_to es t) d.optional) else edge_to es t)
  unfolding resolve_dep
  edge_to-resolve_dep es fs d h = elim (Option-cases (lookup d.label g.by_name)) [
    | inl absent ↦ ground (arith, eq_iff d.label l)
    | inr (target, found) ↦
        ground (arith, eq_iff d.label l, edge_to-join es target d.optional t, same_label d.label)
  ]

  edge_to-resolve_deps :
      (es fs : List ServiceEdge) (ds : List ServiceDep)
      → resolve_deps name g.by_name es ds ≡ ok fs
      → edge_to fs t ≡ combine (edge_to es t) (strictest_of l ds)
  unfolding resolve_deps
  edge_to-resolve_deps es fs [] h = ground arith
  edge_to-resolve_deps es fs (d ∷ ds) h =
      let (ms, first, rest) = >>=-eq-ok (resolve_dep name g.by_name es d) _ h in
      ground (arith, edge_to-resolve_dep es ms d first, edge_to-resolve_deps ms fs ds rest)

pub edge_to-resolve :
    (name : String) (deps : List ServiceDep) (g : ServiceGraph) (n : ServiceNode) (l : String)
    (t : ℕ)
    → IsWired g
    → resolve name deps g ≡ ok n
    → lookup l g.by_name ≡ some t
    → edge_to n.deps t ≡ strictest_of l deps
edge_to-resolve name deps g n l t v h known =
    let r = resolve-IsResolved name deps g n h in
    rw r.built (edge_to-resolve_deps name g v l t known [] r.edges deps r.linked)

edges_to-resolve_dep :
    (name : String) (m : Dict String ℕ) (es fs : List ServiceEdge) (d : ServiceDep) (i : ℕ)
    → resolve_dep name m es d ≡ ok fs
    → length (edges_to es i) ≤ 1
    → length (edges_to fs i) ≤ 1
unfolding resolve_dep
edges_to-resolve_dep name m es fs d i h le = elim (Option-cases (lookup d.label m)) [
  | inl absent ↦ ground arith
  | inr (target, found) ↦ ground (arith, edges_to-join es target d.optional i le)
]

edges_to-resolve_deps :
    (name : String) (m : Dict String ℕ) (es fs : List ServiceEdge) (ds : List ServiceDep) (i : ℕ)
    → resolve_deps name m es ds ≡ ok fs
    → length (edges_to es i) ≤ 1
    → length (edges_to fs i) ≤ 1
unfolding resolve_deps
edges_to-resolve_deps name m es fs [] i h le = ground arith
edges_to-resolve_deps name m es fs (d ∷ ds) i h le =
    let (ms, first, rest) = >>=-eq-ok (resolve_dep name m es d) _ h in
    edges_to-resolve_deps name m ms fs ds i rest (edges_to-resolve_dep name m es ms d i first le)

-- In a wired registry, of the node of a registration that is let through, the edges to a registered
-- service are none if its label is not declared, and otherwise one, which is optional only if every
-- declaration of the label is.
pub resolve-strictest :
    (name : String) (deps : List ServiceDep) (g : ServiceGraph) (n : ServiceNode) (l : String)
    (t : ℕ)
    → IsWired g
    → resolve name deps g ≡ ok n
    → lookup l g.by_name ≡ some t
    → edges_to n.deps t ≡ elim (strictest_of l deps) [ none ↦ [] | some b ↦ b ∷ [] ]
resolve-strictest name deps g n l t v h known =
    let single = edges_to_single n.deps t (
      let r = resolve-IsResolved name deps g n h in
      rw r.built (edges_to-resolve_deps name g.by_name [] r.edges deps t r.linked (omega arith))) in
    single ∙ rw (edge_to-resolve name deps g n l t v h known) refl

abbrev pub is_ok {ℓ κ} : {E : Type ℓ} {A : Type κ} → Result E A → Bool
is_ok (ok a) = true
is_ok (err e) = false

-- A declaration that can stand: its label is not empty, is not the dependent's own, and is
-- registered unless the dependency is optional.
abbrev pub stands : String → Dict String ℕ → ServiceDep → Bool
stands name by_name d =
    not (d.label == "") && not (d.label == name) && (d.optional || is_some (lookup d.label by_name))

abbrev pub all_stand : String → Dict String ℕ → List ServiceDep → Bool
all_stand name by_name [] = true
all_stand name by_name (d ∷ ds) = stands name by_name d && all_stand name by_name ds

resolve_dep-ok :
    (name : String) (m : Dict String ℕ) (es : List ServiceEdge) (d : ServiceDep)
    → is_ok (resolve_dep name m es d) ≡ stands name m d
unfolding resolve_dep
resolve_dep-ok name m es d = ground arith

resolve_deps-ok :
    (name : String) (m : Dict String ℕ) (es : List ServiceEdge) (ds : List ServiceDep)
    → is_ok (resolve_deps name m es ds) ≡ all_stand name m ds
unfolding resolve_deps
resolve_deps-ok name m es [] = refl
resolve_deps-ok name m es (d ∷ ds) =
    chained (resolve_dep name m es d) (resolve_dep-ok name m es d)
      (λ fs. resolve_deps-ok name m fs ds)
  where
    chained :
        (r : Result Refusal (List ServiceEdge))
        → is_ok r ≡ stands name m d
        → ((fs : List ServiceEdge) → is_ok (resolve_deps name m fs ds) ≡ all_stand name m ds)
        → is_ok (r >>= λ fs. resolve_deps name m fs ds) ≡ (stands name m d && all_stand name m ds)
    chained (ok fs) e ih = ground (arith, ih fs)
    chained (err x) e ih = ground arith

is_ok-then :
    {A B : Type 0} (r : Result Refusal A) (f : A → B) → is_ok (r >>= λ a. ok (f a)) ≡ is_ok r
is_ok-then (ok a) f = refl
is_ok-then (err e) f = refl

-- `resolve` lets a registration through exactly if the graph is open, no factory is running, the
-- name is new and not empty, and every declaration can stand.
pub resolve-ok :
    (name : String) (deps : List ServiceDep) (g : ServiceGraph)
    → is_ok (resolve name deps g) ≡ (
        not g.sealed
        && (not (is_some g.factory_pending_node)
            && (not (name == "")
                && (not (is_some (lookup name g.by_name)) && all_stand name g.by_name deps))))
unfolding resolve
resolve-ok name deps g = ground (
  arith,
  is_ok-then (resolve_deps name g.by_name [] deps) (node_with name deps g),
  resolve_deps-ok name g.by_name [] deps,
)
