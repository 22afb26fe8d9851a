-- ===== src/Graph.antt =====
-- gw/framework/core_graph.go, servicedep.go and the fields of servicenode.go that the graph reads:
-- the registry of services and the dependencies between them. A pointer to a node is the slot that
-- `attach` gives the node in `nodes`; what a node keeps of its service is its name.
pub mod Edges
pub mod Slots
pub mod Resolve
pub mod Wiring
pub mod Strictest
pub mod Seal
pub mod Settled
pub mod Levels
pub mod Tests
use mathlib.Core.Option
use gwf.Common.{
  ℕ, zero, suc, String, Bool, true, false, not, Option, none, some, List, map, Result, ok, err,
  length, get_elem?, Dict, is_some, lookup, insert, ◌&&◌, ◌||◌, ◌∷◌, ◌++◌, ◌==◌, [], if◌then◌else◌,
  ◌>>=◌, ◌>>◌, String_eq, ℕ_eq,
}

pub record ServiceDep : Type 0 where
  pub label : String
  pub optional : Bool

pub requires : String → ServiceDep
requires label = record { label = label; optional = false }

pub may_use : String → ServiceDep
may_use label = record { label = label; optional = true }

pub record ServiceEdge : Type 0 where
  pub node : ℕ
  pub optional : Bool

pub record ServiceNode : Type 0 where
  pub name : String
  pub idx : ℕ
  pub declared : List ServiceDep
  pub deps : List ServiceEdge
  pub dependents : List ServiceEdge

pub record ServiceGraph : Type 0 where
  pub nodes : List ServiceNode
  pub by_name : Dict String ℕ
  pub sealed : Bool
  pub factory_pending_node : Option ServiceNode

abbrev pub empty_graph : ServiceGraph
empty_graph = record { nodes = []; by_name = []; sealed = false; factory_pending_node = none }

pub data Refusal : Type 0 where
  nil_service empty_name : Refusal
  after_seal during_factory duplicate_name empty_label self_dependency : String → Refusal
  unregistered registered_later built_another : String → String → Refusal
  build_failed : Refusal

-- Where an edge to the node sits, if there is one.
index_of_edge : List ServiceEdge → ℕ → Option ℕ
index_of_edge [] n = none
index_of_edge (e ∷ es) n = if e.node == n then some 0 else Option.map suc (index_of_edge es n)

-- edges[j].optional = edges[j].optional && optional
narrow : List ServiceEdge → ℕ → Bool → List ServiceEdge
narrow [] j optional = []
narrow (e ∷ es) zero optional = record e { optional = e.optional && optional } ∷ es
narrow (e ∷ es) (suc j) optional = e ∷ narrow es j optional

-- One more declaration of a dependency that is registered: the strictest wins.
pub join : List ServiceEdge → ℕ → Bool → List ServiceEdge
unfolding index_of_edge narrow
join edges target optional = elim (index_of_edge edges target) [
  | some j ↦ narrow edges j optional
  | none ↦ edges ++ record { node = target; optional = optional } ∷ []
]

pub resolve_dep :
    String → Dict String ℕ → List ServiceEdge → ServiceDep → Result Refusal (List ServiceEdge)
resolve_dep name by_name edges d =
    if d.label == ""
    then err (empty_label name)
    else if d.label == name
    then err (self_dependency name)
    else elim (lookup d.label by_name) [
      | some target ↦ ok (join edges target d.optional)
      | none ↦ if d.optional then ok edges else err (unregistered name d.label)
    ]

pub resolve_deps :
    String → Dict String ℕ → List ServiceEdge → List ServiceDep → Result Refusal (List ServiceEdge)
resolve_deps name by_name edges [] = ok edges
resolve_deps name by_name edges (d ∷ ds) =
    resolve_dep name by_name edges d >>= λ es. resolve_deps name by_name es ds

-- Checks a registration and builds its node, without recording anything.
pub resolve : String → List ServiceDep → ServiceGraph → Result Refusal ServiceNode
resolve name deps g =
    if g.sealed
    then err (after_seal name)
    else if is_some g.factory_pending_node
    then err (during_factory name)
    else if name == ""
    then err empty_name
    else if is_some (lookup name g.by_name)
    then err (duplicate_name name)
    else resolve_deps name g.by_name [] deps >>= λ edges. ok (record {
      name = name;
      idx = length g.nodes;
      declared = deps;
      deps = edges;
      dependents = [];
    })

add_dependent : List ServiceNode → ℕ → ServiceEdge → List ServiceNode
add_dependent [] i e = []
add_dependent (n ∷ ns) zero e = record n { dependents = n.dependents ++ e ∷ [] } ∷ ns
add_dependent (n ∷ ns) (suc i) e = n ∷ add_dependent ns i e

-- The reverse edge on each dependency of the node with the given slot.
pub add_dependents : ℕ → List ServiceEdge → List ServiceNode → List ServiceNode
unfolding add_dependent
add_dependents idx [] ns = ns
add_dependents idx (e ∷ es) ns =
    add_dependents idx es (add_dependent ns e.node (record { node = idx; optional = e.optional }))

-- Records a node that `resolve` built.
pub attach : ServiceNode → ServiceGraph → ServiceGraph
attach n g = record g {
  nodes = add_dependents (length g.nodes) n.deps g.nodes ++ n ∷ [];
  by_name = insert n.name (length g.nodes) g.by_name;
}

-- A service is given by its name; `none` is the nil service.
pub add : Option String → List ServiceDep → ServiceGraph → Result Refusal ServiceGraph
add none deps g = err nil_service
add (some name) deps g = resolve name deps g >>= λ n. ok (attach n g)

pub find : String → ServiceGraph → Option ℕ
find name g = lookup name g.by_name

abbrev pub name_of : List ServiceNode → ℕ → Option String
name_of ns i = Option.map (λ n. n.name) (get_elem? ns i)

abbrev pub has_name : String → Option String → Bool
has_name label none = false
has_name label (some name) = name == label

-- Whether some edge leads to a node of that name.
wired_by_name : List ServiceNode → List ServiceEdge → String → Bool
wired_by_name ns [] label = false
wired_by_name ns (e ∷ es) label = has_name label (name_of ns e.node) || wired_by_name ns es label

seal_dep : ServiceGraph → ServiceNode → ServiceDep → Result Refusal (Unit {0})
unfolding wired_by_name
seal_dep g n d =
    if not d.optional
    then ok tt
    else if wired_by_name g.nodes n.deps d.label
    then ok tt
    else if is_some (lookup d.label g.by_name)
    then err (registered_later n.name d.label)
    else ok tt

seal_deps : ServiceGraph → ServiceNode → List ServiceDep → Result Refusal (Unit {0})
seal_deps g n [] = ok tt
seal_deps g n (d ∷ ds) = seal_dep g n d >> seal_deps g n ds

seal_nodes : ServiceGraph → List ServiceNode → Result Refusal (Unit {0})
seal_nodes g [] = ok tt
seal_nodes g (n ∷ ns) = seal_deps g n n.declared >> seal_nodes g ns

-- Closes registration, and settles the declarations that were left open.
pub seal : ServiceGraph → ServiceGraph × Result Refusal (Unit {0})
seal g = let g' = record g { sealed = true } in (g', seal_nodes g' g.nodes)
