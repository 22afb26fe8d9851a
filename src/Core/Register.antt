-- ===== src/Core/Register.antt =====
-- RegisterService and RegisterServiceFunc of gw/framework/core.go. A service is its name and the
-- dependencies that it declares itself, if it does.
mod Tests
use gwf.Common.{
  String, refl, sym, inl, inr, true, false, not, Option, none, some, List, arith, eq_iff,
  Bool-cases, Option-cases, Result, ok, err, >>=-eq-ok, ◌≡◌, ◌∙◌, ◌++◌, ◌==◌, [], if◌then◌else◌,
  ◌>>=◌, String_eq,
}
use gwf.Graph.{
  ServiceDep, ServiceNode, ServiceGraph, Refusal, build_failed, built_another, nil_service,
  during_factory, resolve, attach, add,
}
use gwf.Graph.Resolve.{resolve_pending}
use gwf.Graph.Wiring.{IsWired, add-IsWired, add_lem}

pub record Service : Type 0 where
  pub name : String
  pub own_deps : Option (List ServiceDep)

abbrev own : Option (List ServiceDep) → List ServiceDep
own none = []
own (some ds) = ds

pub register_service : Service → List ServiceDep → ServiceGraph → Result Refusal ServiceGraph
register_service s extra g = add (some s.name) (own s.own_deps ++ extra) g

-- What a factory comes to. It runs on the graph with its own node pending.
pub data Built : Type 0 where
  failed nil : Built
  built : Service → Built

-- The service that was built replaces the node's edges if it declares dependencies itself.
finish : String → List ServiceDep → ServiceNode → ServiceGraph → Built → Result Refusal ServiceGraph
finish name deps n g failed = err build_failed
finish name deps n g nil = err nil_service
finish name deps n g (built s) =
    if not (s.name == name) then err (built_another name s.name) else elim s.own_deps [
      | some ds ↦ resolve name (ds ++ deps) g >>= λ m. ok (attach m g)
      | none ↦ ok (attach n g)
    ]

pub register_service_func :
    String → (ServiceGraph → Built) → List ServiceDep → ServiceGraph → Result Refusal ServiceGraph
unfolding finish
register_service_func name build deps g = resolve name deps g >>= λ n.
    finish name deps n g (build (record g { factory_pending_node = some n }))

-- While a factory runs nothing can be registered.
pub pending_refuses :
    (name : String) (deps : List ServiceDep) (n : ServiceNode) (g : ServiceGraph) (s : Service)
    (extra : List ServiceDep)
    → g.sealed ≡ false
    → register_service s extra (record g { factory_pending_node = some n })
      ≡ err (during_factory s.name)
unfolding register_service
pending_refuses name deps n g s extra open_graph =
    add_lem s.name (own s.own_deps ++ extra) _
    ∙ rw
        (resolve_pending s.name (own s.own_deps ++ extra)
          (record g { factory_pending_node = some n }) open_graph refl)
        refl

-- A service that a factory has built under the name asked for is registered as `RegisterService`
-- registers it, its own declarations first.
pub register_service_func_lem :
    (s : Service) (build : ServiceGraph → Built) (deps : List ServiceDep) (g : ServiceGraph)
    (n : ServiceNode)
    → resolve s.name deps g ≡ ok n
    → build (record g { factory_pending_node = some n }) ≡ built s
    → register_service_func s.name build deps g ≡ register_service s deps g
unfolding register_service_func finish register_service
register_service_func_lem s build deps g n resolved made =
    rw (resolved, made, self, finish)
      (elim (Option-cases s.own_deps) [
        | inl e ↦ rw (e, add_lem s.name deps g, resolved) refl
        | inr e ↦ rw (e.1, add_lem s.name (e.0 ++ deps) g) refl
      ])
  where
    self : (s.name == s.name) ≡ true
    self = ground (arith, eq_iff s.name s.name)

added-IsWired :
    (name : String) (deps : List ServiceDep) (g : ServiceGraph) {g' : ServiceGraph}
    → (resolve name deps g >>= λ n. ok (attach n g)) ≡ ok g'
    → IsWired g
    → IsWired g'
added-IsWired name deps g h v = add-IsWired (some name) deps g (add_lem name deps g ∙ h) v

finish_plain :
    (name : String) (deps : List ServiceDep) (n : ServiceNode) (g : ServiceGraph) (s : Service)
    → (s.name == name) ≡ true
    → s.own_deps ≡ none
    → finish name deps n g (built s) ≡ ok (attach n g)
unfolding finish
finish_plain name deps n g s same e = rw (same, e) refl

finish_own :
    (name : String) (deps : List ServiceDep) (n : ServiceNode) (g : ServiceGraph) (s : Service)
    (ds : List ServiceDep)
    → (s.name == name) ≡ true
    → s.own_deps ≡ some ds
    → finish name deps n g (built s) ≡ (resolve name (ds ++ deps) g >>= λ m. ok (attach m g))
unfolding finish
finish_own name deps n g s ds same e = rw (same, e) refl

finish-IsWired :
    (name : String) (deps : List ServiceDep) (n : ServiceNode) (g : ServiceGraph) (b : Built)
    {g' : ServiceGraph}
    → resolve name deps g ≡ ok n
    → finish name deps n g b ≡ ok g'
    → IsWired g
    → IsWired g'
unfolding finish
finish-IsWired name deps n g failed r h v = cc
finish-IsWired name deps n g nil r h v = cc
finish-IsWired name deps n g (built s) r h v = elim (Bool-cases (s.name == name)) [
  | inr other ↦ absurd (ground arith)
  | inl same ↦ elim (Option-cases s.own_deps) [
    | inl e ↦ added-IsWired name deps g (rw r (sym (finish_plain name deps n g s same e) ∙ h)) v
    | inr e ↦
        added-IsWired name (e.0 ++ deps) g (sym (finish_own name deps n g s e.0 same e.1) ∙ h) v
  ]
]

-- A registration by a factory that is not refused keeps the registry wired.
pub register_service_func-IsWired :
    (name : String) (build : ServiceGraph → Built) (deps : List ServiceDep) (g : ServiceGraph)
    {g' : ServiceGraph}
    → register_service_func name build deps g ≡ ok g'
    → IsWired g
    → IsWired g'
unfolding register_service_func
register_service_func-IsWired name build deps g h v =
    let first = >>=-eq-ok (resolve name deps g) _ h in
    finish-IsWired name deps first.0 g _ first.1 first.2 v
