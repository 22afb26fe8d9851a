-- ===== src/Graph/Tests.antt =====
-- The registry at two services, an api on a database.
use gwf.Common.{
  ℕ, refl, true, false, none, some, List, ok, All, lookup, insert, ◌<◌, ◌≡◌, ◌↔◌, ◌∷◌, [],
  String_eq, ℕ_eq,
}
use gwf.Graph.{
  ServiceDep, ServiceNode, ServiceGraph, empty_graph, resolve, resolve_deps, resolve_dep, join,
  index_of_edge, attach, add, add_dependents, add_dependent, seal, seal_nodes, seal_deps, seal_dep,
  wired_by_name,
}
use gwf.Graph.Edges.{edges_to, edges_to}
use gwf.Graph.Wiring.{IsWired, empty_graph-IsWired, add-IsWired}
use gwf.Graph.Strictest.{resolve-strictest, strictest_of, is_ok}
use gwf.Graph.Seal.{IsSettled, declared_of, seal-ok}
use gwf.Graph.Settled.{add-IsSettled}

abbrev pub on_db : List ServiceDep
on_db = record { label = "db"; optional = false } ∷ []

abbrev pub db : ServiceNode
db = record { name = "db"; idx = 0; declared = []; deps = []; dependents = [] }

abbrev pub api : ServiceNode
api = record {
  name = "api";
  idx = 1;
  declared = on_db;
  deps = record { node = 0; optional = false } ∷ [];
  dependents = [];
}

abbrev pub one : ServiceGraph
one = record {
  nodes = db ∷ [];
  by_name = ("db", 0) ∷ [];
  sealed = false;
  factory_pending_node = none;
}

abbrev pub two : ServiceGraph
two = record {
  nodes = record db { dependents = record { node = 1; optional = false } ∷ [] } ∷ api ∷ [];
  by_name = ("db", 0) ∷ ("api", 1) ∷ [];
  sealed = false;
  factory_pending_node = none;
}

add_db : add (some "db") [] empty_graph ≡ ok one
unfolding add resolve resolve_deps attach add_dependents insert lookup
add_db = refl

pub resolve-api : resolve "api" on_db one ≡ ok api
unfolding resolve resolve_deps resolve_dep join index_of_edge lookup
resolve-api = refl

pub add_api : add (some "api") on_db one ≡ ok two
unfolding add resolve resolve_deps resolve_dep join index_of_edge attach add_dependents
    add_dependent insert lookup
add_api = refl

pub one-IsWired : IsWired one
one-IsWired = add-IsWired (some "db") [] empty_graph add_db empty_graph-IsWired

pub two-IsWired : IsWired two
two-IsWired = add-IsWired (some "api") on_db one add_api one-IsWired

empty_graph-IsSettled : IsSettled empty_graph
empty_graph-IsSettled = record { settled = λ j. tt }

one-IsSettled : IsSettled one
one-IsSettled =
    add-IsSettled (some "db") [] empty_graph add_db empty_graph-IsWired empty_graph-IsSettled

two-IsSettled : IsSettled two
two-IsSettled = add-IsSettled (some "api") on_db one add_api one-IsWired one-IsSettled

pub two_seals : (seal two).1 ≡ ok tt
unfolding seal seal_nodes seal_deps seal_dep wired_by_name
two_seals = refl

pub known_db : lookup "db" one.by_name ≡ some 0
unfolding lookup
known_db = refl

add-IsWired_example : IsWired two
add-IsWired_example = add-IsWired (some "api") on_db one add_api one-IsWired

resolve-strictest_example :
    edges_to api.deps 0 ≡ elim (strictest_of "db" on_db) [ none ↦ [] | some b ↦ b ∷ [] ]
resolve-strictest_example =
    resolve-strictest "api" on_db one api "db" 0 one-IsWired resolve-api known_db

seal-ok_example : (is_ok (seal two).1 ≡ true) ↔ (
    (j : ℕ)
    → All
        (λ d. d.optional ≡ true → (t : ℕ) → lookup d.label two.by_name ≡ some t → t < j)
        (declared_of two.nodes j))
seal-ok_example = seal-ok two two-IsWired two-IsSettled
