-- ===== src/Pubsubs/Broker.antt =====
-- gw/pubsubs/brokerlocalsubscriptionsonly.go: the broker over a manager and nothing else.

use gwf.Common.{
  ℕ, String, Bool, true, false, Option, none, some, List, Result, ◌∷◌, ◌==◌, [], if◌then◌else◌,
  String_eq, ℕ_eq,
}
use gwf.Svc.{State, ready, running, terminating, LifecycleError, cannot_start, cannot_stop}
use gwf.Pubsubs.{Manager, SubscribeError, Stats, new_manager, subscribe, deliver, end_all, stats}

pub record Broker : Type 0 where
  pub name : String
  pub state : State
  -- what has been sent on the channel `terminated`, latest first
  pub terminated : List (Option LifecycleError)
  pub manager : Manager

-- `none` is the refusal of the configuration.
pub new_broker_as : String → ℕ → Option Broker
new_broker_as name capacity = elim (new_manager capacity false) [
  | none ↦ none
  | some m ↦ some (record { name = name; state = ready; terminated = []; manager = m })
]

pub new_broker : ℕ → Option Broker
unfolding new_broker_as
new_broker capacity = new_broker_as "PubSubService" capacity

start_from : State → Broker → Broker × Option LifecycleError
start_from running b = (b, none)
start_from ready b = (record b { state = running }, none)
start_from other b = (b, some (cannot_start other))

pub start : Broker → Broker × Option LifecycleError
unfolding start_from
start b = start_from b.state b

stop_from : State → Broker → Broker × Option LifecycleError
stop_from ready b = (b, none)
stop_from running b = (record b { state = ready }, none)
stop_from other b = (b, some (cannot_stop other))

-- A pause: the subscriptions are kept.
pub stop : Broker → Broker × Option LifecycleError
unfolding stop_from
stop b = stop_from b.state b

terminate_from : State → Broker → Broker
terminate_from terminating b = b
terminate_from other b = record b {
  state = terminating;
  terminated = none ∷ b.terminated;
  manager = end_all b.manager;
}

pub terminate : Broker → Broker
unfolding terminate_from
terminate b = terminate_from b.state b

-- `false` is the refusal of an empty topic.
pub publish : String → String → Broker → Bool × Broker
publish topic payload b =
    if topic == ""
    then (false, b)
    else (true, record b { manager = deliver topic payload b.manager })

pub broker_subscribe : Bool → List String → Broker → Result SubscribeError ℕ × Broker
broker_subscribe ended topics b =
    let r = subscribe ended topics b.manager in (r.0, record b { manager = r.1 })

pub broker_stats : Broker → Stats
broker_stats b = stats b.manager
