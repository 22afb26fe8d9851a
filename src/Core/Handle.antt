-- ===== src/Core/Handle.antt =====
-- gw/framework/deps.go and servicehandle.go: the handles that a factory takes to its dependencies,
-- and the gate that a handle is. A handle is the slot of its node; `none` is the node that is never
-- admitted.
mod Tests
use gwf.Common.{
  ℕ, String, refl, inl, inr, Bool, false, not, Option, none, some, List, arith, Bool-cases, Result,
  ok, err, get_or, is_some, lookup, ◌≡◌, ◌||◌, ◌∷◌, ◌==◌, [], if◌then◌else◌, String_eq, ℕ_eq,
}
use gwf.Graph.{ServiceDep, ServiceEdge, ServiceNode, ServiceGraph, has_name, name_of, resolve}
use gwf.Graph.Edges.{edge_to}
use gwf.Graph.Wiring.{IsWired}
use gwf.Graph.Strictest.{strictest_of, edge_to-resolve}
use gwf.Graph.Seal.{bears}
use gwf.Core.{Walk}

pub data HandleError : Type 0 where
  undeclared wrong_type : String → HandleError

pub record Handle : Type 0 where
  pub node : Option ℕ

-- Deps: what a registration declared, and the edges that came of it.
pub record Deps : Type 0 where
  pub declared : List ServiceDep
  pub edges : List ServiceEdge

pub declares : String → List ServiceDep → Bool
declares label [] = false
declares label (d ∷ ds) = d.label == label || declares label ds

-- The node of the first edge that leads to a service of that name.
pub edge_by_name : List ServiceNode → List ServiceEdge → String → Option ℕ
edge_by_name ns [] label = none
edge_by_name ns (e ∷ es) label =
    let rest = edge_by_name ns es label in
    if has_name label (name_of ns e.node) then some e.node else rest

-- `serves` is whether the service of a node has the type that is asked for.
pub take : List ServiceNode → (ℕ → Bool) → Deps → String → Result HandleError Handle
unfolding declares edge_by_name
take ns serves d label =
    if not (declares label d.declared)
    then err (undeclared label)
    else elim (edge_by_name ns d.edges label) [
      | none ↦ ok (record { node = none })
      | some n ↦ if serves n then ok (record { node = some n }) else err (wrong_type label)
    ]

-- The gate: a service is handed out only while it is admitted.
pub get : Walk → Handle → Option ℕ
get w h = elim h.node [ none ↦ none | some n ↦ if get_or w.admitted n false then some n else none ]

module _ (g : ServiceGraph) (v : IsWired g) (label : String) (t : ℕ)
    (known : lookup label g.by_name ≡ some t) where
  edge_by_name_lem :
      (es : List ServiceEdge)
      → edge_by_name g.nodes es label ≡ (if is_some (edge_to es t) then some t else none)
  unfolding edge_by_name
  edge_by_name_lem [] = refl
  edge_by_name_lem (e ∷ es) = ground (arith, bears g v label t e.node known, edge_by_name_lem es)

declares_lem :
    (label : String) (ds : List ServiceDep) → declares label ds ≡ is_some (strictest_of label ds)
unfolding declares
declares_lem label [] = refl
declares_lem label (d ∷ ds) = ground (arith, declares_lem label ds)

-- In a wired registry a factory whose registration is let through gets a handle to a registered
-- service exactly if the registration declares it and it has the type asked for, and the handle
-- hands it out only while it is admitted.
pub take_lem :
    (name : String) (deps : List ServiceDep) (g : ServiceGraph) (n : ServiceNode)
    (serves : ℕ → Bool) (label : String) (t : ℕ) (w : Walk)
    → IsWired g
    → resolve name deps g ≡ ok n
    → lookup label g.by_name ≡ some t
    → (take g.nodes serves (record { declared = deps; edges = n.deps }) label ≡ (
        if declares label deps
        then if serves t then ok (record { node = some t }) else err (wrong_type label)
        else err (undeclared label)))
      × (get w (record { node = some t }) ≡ (if get_or w.admitted t false then some t else none))
unfolding take get
take_lem name deps g n serves label t w v resolved known =
    let edge = edge_to-resolve name deps g n label t v resolved known in
    let found = edge_by_name_lem g v label t known n.deps in
    let declared = declares_lem label deps in
    (
      elim (Bool-cases (declares label deps)) [
        | inr out ↦ rw out refl
        | inl there ↦
            (let e : edge_by_name g.nodes n.deps label ≡ some t = ground arith in
              rw (there, e) refl)
      ],
      refl,
    )
