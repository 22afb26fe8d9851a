-- ===== src/Core.antt =====
-- The boot and shutdown walks of gw/framework/core.go. A service is the slot of its node; what its
-- own Start and Terminate do is the app's code, given as what each of them answers.
pub mod Order
pub mod Boot
pub mod Teardown
pub mod Register
pub mod Handle
mod Tests
use gwf.Common.{
  ℕ, String, Bool, true, false, Option, none, some, List, ok, err, set, ◌∷◌, ◌++◌, [],
  if◌then◌else◌,
}
use gwf.Graph.{ServiceGraph, Refusal, seal}
use gwf.Graph.Levels.{levels}

-- Why a service did not start, or did not end as it should.
pub data Failure : Type 0 where
  failed panicked : String → Failure
  abandoned : Failure

-- What the terminate call of a service comes to, as far as Core sees.
pub data Report : Type 0 where
  ended : Option String → Report
  no_signal : Report
  panics : String → Report

pub data Call : Type 0 where
  start terminate pause : ℕ → Call

-- `calls` is the log of what was asked of the services, oldest first.
pub record Walk : Type 0 where
  pub calls : List Call
  pub admitted : List Bool
  pub abandoned_nodes : List Bool

-- A Start that panics is rolled back as one that fails, and its failure is the panic raised again.
-- How far a walk over the services has come: on, with what it has started, or broken off.
pub data BootWalk : Type 0 where
  going : List ℕ → Walk → BootWalk
  stopped : Walk → Failure → BootWalk

pub data BootError : Type 0 where
  refused : Refusal → BootError
  start_failed : Failure → BootError

pub failure_of : Report → Option Failure
failure_of (ended none) = none
failure_of (ended (some e)) = some (failed e)
failure_of no_signal = some abandoned
failure_of (panics v) = some (panicked v)

is_abandoned : Report → Bool
is_abandoned (ended e) = false
is_abandoned no_signal = true
is_abandoned (panics v) = true

-- Admission is revoked before the service is asked to end.
pub terminate_node : (ℕ → Report) → ℕ → Walk → Walk × Option Failure
unfolding is_abandoned
terminate_node report n w = (
  record w {
    admitted = set w.admitted n false;
    calls = w.calls ++ terminate n ∷ [];
    abandoned_nodes =
        if is_abandoned (report n) then set w.abandoned_nodes n true else w.abandoned_nodes;
  },
  failure_of (report n),
)

-- Tears down what was started, the last of it first.
pub rollback_started : (ℕ → Report) → List ℕ → Walk → Walk
rollback_started report [] w = w
rollback_started report (n ∷ started) w =
    (terminate_node report n (rollback_started report started w)).0

pub start_nodes : (ℕ → Option Failure) → (ℕ → Report) → List ℕ → List ℕ → Walk → BootWalk
start_nodes outcome report [] started w = going started w
start_nodes outcome report (n ∷ ns) started w = elim (outcome n) [
  | some e ↦
      stopped (rollback_started report started (record w { calls = w.calls ++ start n ∷ [] })) e
  | none ↦
      start_nodes outcome report ns (started ++ n ∷ [])
        (record w { calls = w.calls ++ start n ∷ []; admitted = set w.admitted n true })
]

abbrev pub and_then : BootWalk → (List ℕ → Walk → BootWalk) → BootWalk
and_then (going started w) f = f started w
and_then (stopped w e) f = stopped w e

-- From the deepest level to level 0.
pub start_levels : (ℕ → Option Failure) → (ℕ → Report) → List (List ℕ) → Walk → BootWalk
start_levels outcome report [] w = going [] w
start_levels outcome report (l ∷ ls) w =
    and_then (start_levels outcome report ls w) (start_nodes outcome report l)

pub boot_result : BootWalk → Walk × Option BootError
boot_result (going started w) = (w, none)
boot_result (stopped w e) = (w, some (start_failed e))

pub start_services :
    (ℕ → Option Failure)
    → (ℕ → Report)
    → ServiceGraph
    → Walk
    → ServiceGraph × (Walk × Option BootError)
unfolding boot_result
start_services outcome report g w = elim (seal g).1 [
  | err e ↦ ((seal g).0, (w, some (refused e)))
  | ok _ ↦ ((seal g).0, boot_result (start_levels outcome report (levels (seal g).0) w))
]

-- What a shutdown records.
pub record Shutdown : Type 0 where
  pub walk : Walk
  pub shutdown_err : Option Failure
  pub shutdown_panic : Option String
  pub shutdown_done : Bool

abbrev pub first {ℓ} : {A : Type ℓ} → Option A → Option A → Option A
first none o = o
first (some a) o = some a

abbrev panic_of : Option Failure → Option String
panic_of (some (panicked v)) = some v
panic_of _ = none

-- The services of one level end side by side: `order` is the order in which they are reached.
pub terminate_level : (ℕ → Report) → List ℕ → Walk → Walk
terminate_level report [] w = w
terminate_level report (n ∷ ns) w = terminate_level report ns (terminate_node report n w).0

-- The errors of a level are read in the level's own order once all of it has ended.
pub level_error : (ℕ → Report) → List ℕ → Option Failure
level_error report [] = none
level_error report (n ∷ ns) = first (failure_of (report n)) (level_error report ns)

pub level_panic : (ℕ → Report) → List ℕ → Option String
level_panic report [] = none
level_panic report (n ∷ ns) = first (panic_of (failure_of (report n))) (level_panic report ns)

pub terminate_levels :
    (List ℕ → List ℕ) → (ℕ → Report) → List (List ℕ) → Option Failure → Shutdown → Shutdown
terminate_levels order report [] e s = record s {
  shutdown_err = if s.shutdown_done then s.shutdown_err else e;
  shutdown_done = true;
}
terminate_levels order report (l ∷ ls) e s =
    terminate_levels order report ls (first e (level_error report l)) (record s {
      walk = terminate_level report (order l) s.walk;
      shutdown_panic = first s.shutdown_panic (level_panic report l);
    })

pub terminate_services : (List ℕ → List ℕ) → (ℕ → Report) → ServiceGraph → Shutdown → Shutdown
terminate_services order report g s = terminate_levels order report (levels g) none s

-- Operator actions on one node.
pub start_service_node : (ℕ → Option Failure) → ℕ → Walk → Walk × Option Failure
start_service_node outcome n w = elim (outcome n) [
  | some e ↦ (record w { calls = w.calls ++ start n ∷ [] }, some e)
  | none ↦ (record w { calls = w.calls ++ start n ∷ []; admitted = set w.admitted n true }, none)
]

-- Stop is a pause: admission is revoked first, and stays revoked whatever Stop answers.
pub stop_service_node : (ℕ → Option Failure) → ℕ → Walk → Walk × Option Failure
stop_service_node outcome n w =
    (record w { calls = w.calls ++ pause n ∷ []; admitted = set w.admitted n false }, outcome n)

-- What the app gets once the walk is done: the panic of a service, or else the first error.
pub data Waited : Type 0 where
  re_raised : String → Waited
  returned : Option Failure → Waited

pub wait_services_terminated : Shutdown → Waited
wait_services_terminated s = elim s.shutdown_panic [
  | some v ↦ re_raised v
  | none ↦ returned s.shutdown_err
]
