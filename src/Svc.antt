-- ===== src/Svc.antt =====
-- gw/svc/states.go, and the lifecycle that a service with one run goroutine follows
-- (gw/throttle/limiterinmembuckets.go: Start, Stop, Terminate, stop, waitStopped, run and
-- transitionAfterRun). The lifecycle methods are not called concurrently; the goroutine's exit and
-- the end of the parent context come between them as events of their own.
pub mod Lifecycle
use gwf.Common.{
  String, Bool, true, false, Option, none, some, List, ◌&&◌, ◌||◌, ◌∷◌, [], if◌then◌else◌,
}

pub data State : Type 0 where
  ready running stopping terminating : State

pub to_string : State → String
to_string ready = "READY"
to_string running = "RUNNING"
to_string stopping = "STOPPING"
to_string terminating = "TERMINATING"

pub data LifecycleError : Type 0 where
  cannot_start cannot_stop : State → LifecycleError
  deadline_exceeded : LifecycleError

-- What `waitStopped` meets first: the goroutine's exit, or the end of the operation's context.
pub data Wait : Type 0 where
  exits deadline : Wait

pub record Service : Type 0 where
  pub state : State
  -- the run goroutine has been started and has not closed `stopped`
  pub alive : Bool
  -- the context of this cycle, and its parent, have ended
  pub canceled : Bool
  pub parent_done : Bool
  -- what has been sent on the channel `terminated`, latest first
  pub terminated : List (Option LifecycleError)

unfoldable pub new_service : Service
new_service = record {
  state = ready;
  alive = false;
  canceled = false;
  parent_done = false;
  terminated = [];
}

transition_after_run : State → State
transition_after_run stopping = ready
transition_after_run s = s

-- The run goroutine returns once its context is done: it moves the state, then closes `stopped`.
unfoldable pub run_exit : Service → Service
unfolding transition_after_run
run_exit s =
    if s.alive && (s.canceled || s.parent_done)
    then record s { state = transition_after_run s.state; alive = false }
    else s

unfoldable pub wait_stopped : Wait → Service → Service × Option LifecycleError
unfolding run_exit
wait_stopped exits s = (run_exit s, none)
wait_stopped deadline s = (s, some deadline_exceeded)

unfoldable pub stop_run : Wait → Service → Service × Option LifecycleError
unfolding wait_stopped
stop_run w s = wait_stopped w (record s { canceled = true })

start_from : State → Service → Service × Option LifecycleError
start_from running s = (s, none)
start_from ready s = (record s { state = running; alive = true; canceled = false }, none)
start_from other s = (s, some (cannot_start other))

unfoldable pub start : Service → Service × Option LifecycleError
unfolding start_from
start s = start_from s.state s

stop_from : State → Wait → Service → Service × Option LifecycleError
unfolding stop_run
stop_from ready w s = (s, none)
stop_from running w s = stop_run w (record s { state = stopping })
stop_from other w s = (s, some (cannot_stop other))

unfoldable pub stop : Wait → Service → Service × Option LifecycleError
unfolding stop_from
stop w s = stop_from s.state w s

-- The deferred send on `terminated`.
send_terminated : Service × Option LifecycleError → Service × Option LifecycleError
send_terminated (s, e) = (record s { terminated = e ∷ s.terminated }, e)

terminate_from : State → Wait → Service → Service × Option LifecycleError
unfolding stop_run send_terminated
terminate_from terminating w s = (s, none)
terminate_from running w s = send_terminated (stop_run w (record s { state = terminating }))
terminate_from stopping w s = send_terminated (wait_stopped w (record s { state = terminating }))
terminate_from ready w s = send_terminated (record s { state = terminating }, none)

unfoldable pub terminate : Wait → Service → Service × Option LifecycleError
unfolding terminate_from
terminate w s = terminate_from s.state w s
