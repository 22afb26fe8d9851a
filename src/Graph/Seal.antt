-- ===== src/Graph/Seal.antt =====
-- When `seal` accepts a registry.
use native.Mathlib.Decide.{dec_lt}
use gwf.Common.{
  ℕ, zero, suc, String, refl, inl, inr, Bool, true, false, not, some, List, arith, eq_iff,
  Bool-cases, Option-cases, Result, ok, err, All, All-mono, is_some, lookup, All-zip, ◌<◌, ◌≡◌, ◌↔◌,
  ◌&&◌, ◌∷◌, ◌==◌, [], ◌>>◌, String_eq, ℕ_eq,
}
use gwf.Graph.{
  ServiceDep, ServiceEdge, ServiceNode, ServiceGraph, Refusal, name_of, has_name, wired_by_name,
  seal_dep, seal_deps, seal_nodes, seal,
}
use gwf.Graph.Edges.{edge_to, edge_to_bounded, deps_of}
use gwf.Graph.Wiring.{IsWired}
use gwf.Graph.Strictest.{is_ok}

abbrev pub declared_of : List ServiceNode → ℕ → List ServiceDep
declared_of [] j = []
declared_of (n ∷ ns) zero = n.declared
declared_of (n ∷ ns) (suc j) = declared_of ns j

-- A declaration that `seal` refuses.
abbrev late : ServiceGraph → List ServiceEdge → ServiceDep → Bool
late g es d =
    d.optional && (not (wired_by_name g.nodes es d.label) && is_some (lookup d.label g.by_name))

seal_dep-ok :
    (g : ServiceGraph) (n : ServiceNode) (d : ServiceDep)
    → is_ok (seal_dep g n d) ≡ not (late g n.deps d)
unfolding seal_dep
seal_dep-ok g n d = ground arith

is_ok-seq : (a b : Result Refusal (Unit {0})) → is_ok (a >> b) ≡ (is_ok a && is_ok b)
is_ok-seq (ok x) b = refl
is_ok-seq (err e) b = refl

abbrev NoneLate : ServiceGraph → List ServiceEdge → List ServiceDep → Type 0
NoneLate g es ds = All (λ d. late g es d ≡ false) ds

seal_deps-ok :
    (g : ServiceGraph) (n : ServiceNode) (ds : List ServiceDep)
    → (is_ok (seal_deps g n ds) ≡ true) ↔ NoneLate g n.deps ds
unfolding seal_deps
seal_deps-ok g n [] = (λ _. tt, λ _. refl)
seal_deps-ok g n (d ∷ ds) =
    let ih = seal_deps-ok g n ds in
    let one = seal_dep-ok g n d in
    let both = is_ok-seq (seal_dep g n d) (seal_deps g n ds) in
    (
      λ h. (ground arith, ih.0 (ground arith)),
      λ h. (let rest = ih.1 h.1 in let first = h.0 in ground arith),
    )

seal_nodes-ok :
    (g : ServiceGraph) (ns : List ServiceNode)
    → (is_ok (seal_nodes g ns) ≡ true) ↔ ((j : ℕ) → NoneLate g (deps_of ns j) (declared_of ns j))
unfolding seal_nodes
seal_nodes-ok g [] = (λ _ j. tt, λ _. refl)
seal_nodes-ok g (n ∷ ns) =
    let ih = seal_nodes-ok g ns in
    let one = seal_deps-ok g n n.declared in
    let both = is_ok-seq (seal_deps g n n.declared) (seal_nodes g ns) in
    (
      λ h. elim [ zero ↦ one.0 (ground arith) | suc j ↦ ih.0 (ground arith) j ],
      λ h. (let first = one.1 (h 0) in let rest = ih.1 (λ j. h (suc j)) in ground arith),
    )

-- If the declared service was registered before slot `j`, there is an edge to it.
abbrev pub HasEdge : ServiceGraph → List ServiceEdge → ℕ → ServiceDep → Type 0
HasEdge g es j d =
    (t : ℕ) → lookup d.label g.by_name ≡ some t → t < j → is_some (edge_to es t) ≡ true

-- Every declaration of a service registered by then has its edge.
pub record IsSettled (g : ServiceGraph) : Type 0 where
  pub settled : (j : ℕ) → All (HasEdge g (deps_of g.nodes j) j) (declared_of g.nodes j)

module _ (g : ServiceGraph) (v : IsWired g) where
  pub bears :
      (l : String) (t k : ℕ)
      → lookup l g.by_name ≡ some t
      → has_name l (name_of g.nodes k) ≡ (k == t)
  bears l t k h =
      let here = (v.named l t).0 h in
      elim (Option-cases (name_of g.nodes k)) [
        | inl e ↦ ground arith
        | inr (s, e) ↦ (let back = (v.named s k).1 e in ground (arith, eq_iff s l))
      ]

  wired_by_name-edge_to :
      (l : String) (t : ℕ) (es : List ServiceEdge)
      → lookup l g.by_name ≡ some t
      → wired_by_name g.nodes es l ≡ is_some (edge_to es t)
  unfolding wired_by_name
  wired_by_name-edge_to l t [] h = refl
  wired_by_name-edge_to l t (e ∷ es) h =
      ground (arith, bears l t e.node h, wired_by_name-edge_to l t es h)

  module _ (j : ℕ) (d : ServiceDep) where
    edge_earlier : (t : ℕ) → is_some (edge_to (deps_of g.nodes j) t) ≡ true → t < j
    edge_earlier t h = elim (dec_lt t j) [
      | yes earlier ↦ earlier
      | no later ↦
          (let absent = edge_to_bounded j t (deps_of g.nodes j) (v.backward j) (omega arith) in
            ground arith)
    ]

    in_time :
        late g (deps_of g.nodes j) d ≡ false
        → d.optional ≡ true
        → (t : ℕ) → lookup d.label g.by_name ≡ some t
        → t < j
    in_time h optional t known =
        edge_earlier t (ground (arith, wired_by_name-edge_to d.label t (deps_of g.nodes j) known))

    not_late :
        HasEdge g (deps_of g.nodes j) j d
        → (d.optional ≡ true → (t : ℕ) → lookup d.label g.by_name ≡ some t → t < j)
        → late g (deps_of g.nodes j) d ≡ false
    not_late has_edge earlier = elim (Option-cases (lookup d.label g.by_name)) [
      | inl absent ↦ ground arith
      | inr (t, known) ↦ elim (Bool-cases d.optional) [
        | inl optional ↦
            (let e = has_edge t known (earlier optional t known) in
              ground (arith, wired_by_name-edge_to d.label t (deps_of g.nodes j) known))
        | inr required ↦ ground arith
      ]
    ]

-- `seal` accepts a registry that is wired and settled exactly if no service declares `MayUse` of
-- one that was not registered before it.
pub seal-ok :
    (g : ServiceGraph)
    → IsWired g
    → IsSettled g
    → (is_ok (seal g).1 ≡ true) ↔ (
        (j : ℕ)
        → All
            (λ d. d.optional ≡ true → (t : ℕ) → lookup d.label g.by_name ≡ some t → t < j)
            (declared_of g.nodes j))
unfolding seal
seal-ok g v w =
    let both = seal_nodes-ok (record g { sealed = true }) g.nodes in
    (
      λ h j. All-mono _ _ (declared_of g.nodes j) (λ d p. in_time g v j d p) (both.0 h j),
      λ h. both.1 (λ j.
          All-zip _ _ _ (declared_of g.nodes j) (λ d p q. not_late g v j d p q) (w.settled j)
            (h j)),
    )
