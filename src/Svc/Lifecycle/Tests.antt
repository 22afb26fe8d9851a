-- ===== src/Svc/Lifecycle/Tests.antt =====
-- Histories of one service.
use gwf.Common.{refl, true, false, ◌≡◌, ◌∷◌, []}
use gwf.Svc.{running, stopping, exits, Service, new_service}
use gwf.Svc.Lifecycle.{
  starts, parent_ends, run_returns, stops, terminates, step, run, IsValid, terminated_once,
  stop_after_parent_end,
}

abbrev live : Service
live = record {
  state = running;
  alive = true;
  canceled = false;
  parent_done = false;
  terminated = [];
}

terminated_once_example : IsValid (run new_service (starts ∷ terminates exits ∷ []))
terminated_once_example = terminated_once (starts ∷ terminates exits ∷ [])

stop_after_parent_end_example :
    (run
      (step (step (step live parent_ends) run_returns) (stops exits))
      (starts ∷ stops exits ∷ [])).state
    ≡ stopping
stop_after_parent_end_example =
    stop_after_parent_end live exits (starts ∷ stops exits ∷ []) refl refl (λ n. n, (λ n. n, tt))
