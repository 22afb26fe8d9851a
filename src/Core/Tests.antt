-- ===== src/Core/Tests.antt =====
-- Boots and shutdowns of an api on a database.
use gwf.Common.{
  ℕ, zero, suc, refl, ap, true, false, Option, none, some, arith, get_or, ◌≡◌, ◌∙◌, ◌∷◌, [],
  if◌then◌else◌, ℕ_eq,
}
use gwf.Graph.Levels.{levels}
use gwf.Graph.Tests.{two, two-IsWired, two_seals}
use gwf.Graph.Levels.Tests.{two-levels}
use gwf.Core.{
  Failure, failed, Report, ended, Walk, start_services, start_nodes, boot_result, start_failed,
  Shutdown, terminate_services,
}
use gwf.Core.Order.{Follows, DependsOn, NeededBy, start_order}
use gwf.Core.Boot.{starts, ends, some_fails, backwards, begun}
use gwf.Core.Boot.Outcome.{boot_order, boot_rollback, boot_failed, boot_ok, start_services_ok}
use gwf.Core.Teardown.{shutdown_order}

-- The api does not come up.
abbrev outcome : ℕ → Option Failure
outcome zero = none
outcome (suc n) = some (failed "port in use")

abbrev all_up : ℕ → Option Failure
all_up n = none

abbrev report : ℕ → Report
report n = ended none

abbrev walk : Walk
walk = record { calls = []; admitted = false ∷ false ∷ []; abandoned_nodes = false ∷ false ∷ [] }

abbrev shutdown : Shutdown
shutdown = record { walk = walk; shutdown_err = none; shutdown_panic = none; shutdown_done = false }

boot_order_example :
    Follows (DependsOn two) [] (starts (start_services outcome report two walk).1.0.calls)
boot_order_example = boot_order outcome report two walk two-IsWired refl

boot_rollback_example : ends (start_services outcome report two walk).1.0.calls ≡ (
    if some_fails outcome (start_order (levels two))
    then backwards (begun outcome (start_order (levels two)))
    else [])
boot_rollback_example = boot_rollback outcome report two walk two_seals refl

api_fails :
    (start_services outcome report two walk).1.1 ≡ some (start_failed (failed "port in use"))
unfolding start_nodes boot_result
api_fails = ap (λ r. r.1) (start_services_ok outcome report two walk two_seals) ∙ rw two-levels refl

boot_failed_example : get_or (start_services outcome report two walk).1.0.admitted 0 false ≡ false
boot_failed_example =
    boot_failed outcome report two walk (start_failed (failed "port in use")) 0 refl (omega arith)
      api_fails

boot_ok_example :
    ((start_services all_up report two walk).1.1 ≡ none)
    × (get_or (start_services all_up report two walk).1.0.admitted 1 false ≡ true)
boot_ok_example =
    boot_ok all_up report two walk 1 two-IsWired two_seals (λ n. refl) refl (omega arith)
      (omega arith)

shutdown_order_example :
    Follows (NeededBy two) [] (ends (terminate_services (λ l. l) report two shutdown).walk.calls)
shutdown_order_example = shutdown_order (λ l. l) report two shutdown (λ l i. refl) two-IsWired refl
