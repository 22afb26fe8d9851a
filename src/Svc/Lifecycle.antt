-- ===== src/Svc/Lifecycle.antt =====
-- What holds after any sequence of lifecycle calls and goroutine events.
mod Tests
use gwf.Common.{refl, true, false, none, some, List, arith, length, All, ◌≡◌, ◌||◌, ◌∷◌, []}
use gwf.Svc.{
  ready, running, stopping, terminating, deadline_exceeded, Wait, exits, deadline, Service,
  new_service, run_exit, start, stop, terminate,
}

pub data Event : Type 0 where
  starts parent_ends run_returns : Event
  stops terminates : Wait → Event

pub step : Service → Event → Service
unfolding start stop terminate run_exit
step s starts = (start s).0
step s parent_ends = record s { parent_done = true }
step s run_returns = run_exit s
step s (stops w) = (stop w s).0
step s (terminates w) = (terminate w s).0

pub run : Service → List Event → Service
run s [] = s
run s (e ∷ es) = run (step s e) es

-- `Terminated` has fired once if the service is terminating, and has not fired before; a service
-- that is ready has no goroutine, one that is stopping has canceled it, and one that is running has
-- it unless the parent context has ended.
pub record IsValid (s : Service) : Type 0 where
  pub fired : length s.terminated ≡ (elim s.state [ terminating ↦ 1 | _ ↦ 0 ])
  pub idle : s.state ≡ ready → s.alive ≡ false
  pub wound_down : s.state ≡ stopping → s.canceled ≡ true
  pub fresh : s.state ≡ running → s.canceled ≡ false
  pub busy : s.state ≡ running → (s.alive || s.parent_done) ≡ true

step-IsValid : (s : Service) (e : Event) → IsValid s → IsValid (step s e)
unfolding step
step-IsValid s starts v = ground arith
step-IsValid s parent_ends v = ground arith
step-IsValid s run_returns v = ground arith
step-IsValid s (stops w) v = ground arith
step-IsValid s (terminates w) v = ground arith

run-IsValid : (s : Service) (es : List Event) → IsValid s → IsValid (run s es)
unfolding run
run-IsValid s [] v = v
run-IsValid s (e ∷ es) v = run-IsValid (step s e) es (step-IsValid s e v)

-- After any history of a new service `Terminated` has fired exactly once if the service is
-- terminating and not at all otherwise; a ready service has no run goroutine, a stopping one has
-- canceled it, and a running one has it unless the parent context has ended.
pub terminated_once : (es : List Event) → IsValid (run new_service es)
unfolding new_service
terminated_once es = run-IsValid _ es (record {
  fired = refl;
  idle = λ _. refl;
  wound_down = λ h. cc;
  fresh = λ _. refl;
  busy = λ h. cc;
})

step-terminating :
    (s : Service) (e : Event) → s.state ≡ terminating → (step s e).state ≡ terminating
unfolding step
step-terminating s e h = ground arith

-- Termination is irreversible.
pub run-terminating :
    (s : Service) (es : List Event) → s.state ≡ terminating → (run s es).state ≡ terminating
unfolding run
run-terminating s [] h = h
run-terminating s (e ∷ es) h = run-terminating (step s e) es (step-terminating s e h)

-- After any history, stopping a service that runs and whose parent context has not ended is a pause:
-- it is ready when the goroutine has exited, whether within the deadline or after it, no sooner, and
-- starting it again makes it run.
pub stop_pauses :
    (es : List Event)
    → (run new_service es).state ≡ running
    → (run new_service es).parent_done ≡ false
    → let s = run new_service es in
      ((stop exits s).0.state ≡ ready)
      × ((stop exits s).1 ≡ none)
      × ((stop deadline s).0.state ≡ stopping)
      × ((stop deadline s).1 ≡ some deadline_exceeded)
      × ((run_exit (stop deadline s).0).state ≡ ready)
      × ((start (stop exits s).0).0.state ≡ running)
      × ((start (stop exits s).0).0.alive ≡ true)
unfolding stop run_exit start
stop_pauses es h p = let b = (terminated_once es).busy h in ground arith

abbrev IsTerminate : Event → Type 0
IsTerminate (terminates w) = Unit
IsTerminate _ = ⊥

step_stranded :
    (s : Service) (e : Event)
    → ¬ IsTerminate e
    → s.state ≡ stopping
    → s.alive ≡ false
    → ((step s e).state ≡ stopping) × ((step s e).alive ≡ false)
unfolding step
step_stranded s (terminates w) n h a = absurd (n tt)
step_stranded s starts n h a = ground arith
step_stranded s _ n h a = ground arith

stranded :
    (s : Service) (es : List Event)
    → All (λ e. ¬ IsTerminate e) es
    → s.state ≡ stopping
    → s.alive ≡ false
    → (run s es).state ≡ stopping
unfolding run
stranded s [] n h a = h
stranded s (e ∷ es) n h a =
    let (h', a') = step_stranded s e n.0 h a in stranded (step s e) es n.1 h' a'

-- Where the parent context of a running service ended and then the goroutine returned, `Stop`
-- leaves it in STOPPING, and nothing but `Terminate` takes it out of that state.
pub stop_after_parent_end :
    (s : Service) (w : Wait) (es : List Event)
    → s.state ≡ running
    → s.alive ≡ true
    → All (λ e. ¬ IsTerminate e) es
    → (run (step (step (step s parent_ends) run_returns) (stops w)) es).state ≡ stopping
stop_after_parent_end s w es h a n =
    stranded _ es n (unfold step in ground arith) (unfold step in ground arith)
