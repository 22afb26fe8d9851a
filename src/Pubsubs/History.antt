-- ===== src/Pubsubs/History.antt =====
-- The manager after any sequence of its calls.
use gwf.Common.{
  ℕ, zero, suc, String, refl, inl, inr, Bool, true, Option, none, some, List, leb, Bool-cases, set,
  get_or, Dict, lookup, subst, ◌≡◌, ◌∙◌, ◌∷◌, [], String_eq, ℕ_eq,
}
use gwf.Pubsubs.{
  EndReason, Managed, Manager, no_subscription, new_manager, end_sub, notice_each, subscribe,
  deliver, put_miss_notice_to_all, end_all, take_from, take_updates,
}
use gwf.Pubsubs.Kept.{IsValid, end_sub-IsValid, subscribe-IsValid, deliver-IsValid, end_all-IsValid}

pub data Event : Type 0 where
  subscribes : Bool → List String → Event
  ends : ℕ → EndReason → Event
  delivers : String → String → Event
  misses ends_all takes : Event

unfoldable pub step : Manager → Event → Manager
step m (subscribes ended topics) = (subscribe ended topics m).1
step m (ends k reason) = end_sub k reason m
step m (delivers topic payload) = deliver topic payload m
step m misses = put_miss_notice_to_all m
step m ends_all = end_all m
step m takes = (take_updates m).1

unfoldable pub run : Manager → List Event → Manager
unfolding step
run m [] = m
run m (e ∷ es) = run (step m e) es

-- A notice changes neither what a subscription asked for nor whether it is open.
notice-same :
    (heap : List Managed) (k j : ℕ)
    → let heap' = set heap k (record (get_or heap k no_subscription) { miss_notice = true }) in
      ((get_or heap' j no_subscription).ended ≡ (get_or heap j no_subscription).ended)
      × ((get_or heap' j no_subscription).topics ≡ (get_or heap j no_subscription).topics)
notice-same [] k j = (refl, refl)
notice-same (x ∷ heap) zero zero = (refl, refl)
notice-same (x ∷ heap) zero (suc j) = (refl, refl)
notice-same (x ∷ heap) (suc k) zero = (refl, refl)
notice-same (x ∷ heap) (suc k) (suc j) = notice-same heap k j

notice_each-same :
    (ks : List ℕ) (heap : List Managed) (j : ℕ)
    → ((get_or (notice_each ks heap) j no_subscription).ended
        ≡ (get_or heap j no_subscription).ended)
      × ((get_or (notice_each ks heap) j no_subscription).topics
          ≡ (get_or heap j no_subscription).topics)
unfolding notice_each
notice_each-same [] heap j = (refl, refl)
notice_each-same (k ∷ ks) heap j =
    let one = notice-same heap k j in
    let rest =
      notice_each-same ks
        (set heap k (record (get_or heap k no_subscription) { miss_notice = true })) j in
    (rest.0 ∙ one.0, rest.1 ∙ one.1)

misses-IsValid : (m : Manager) → IsValid m → IsValid (put_miss_notice_to_all m)
unfolding put_miss_notice_to_all
misses-IsValid m v = record {
  on_topic =
      λ t k. let same = notice_each-same m.all m.heap k in simp (same.0, same.1) (v.on_topic t k);
  in_all = λ k. let same = notice_each-same m.all m.heap k in simp same.0 (v.in_all k);
  distinct = v.distinct;
  distinct_all = v.distinct_all;
}

take_from-IsValid :
    (taken : Option (Dict String ℕ)) (m : Manager) → IsValid m → IsValid (take_from taken m).1
unfolding take_from
take_from-IsValid none m v = v
take_from-IsValid (some taken) m v = record {
  on_topic = v.on_topic;
  in_all = v.in_all;
  distinct = v.distinct;
  distinct_all = v.distinct_all;
}

pub step-IsValid : (m : Manager) (e : Event) → IsValid m → IsValid (step m e)
unfolding step
step-IsValid m (subscribes ended topics) v = subscribe-IsValid ended topics m v
step-IsValid m (ends k reason) v = end_sub-IsValid k reason m v
step-IsValid m (delivers topic payload) v = deliver-IsValid topic payload m v
step-IsValid m misses v = misses-IsValid m v
step-IsValid m ends_all v = end_all-IsValid m v
step-IsValid m takes v = unfold take_updates in take_from-IsValid m.updates m v

pub run-IsValid : (m : Manager) (es : List Event) → IsValid m → IsValid (run m es)
unfolding run
run-IsValid m [] v = v
run-IsValid m (e ∷ es) v = run-IsValid (step m e) es (step-IsValid m e v)

abbrev IsMade : Option Manager → Type 0
IsMade none = Unit
IsMade (some m) = IsValid m

new_manager-IsMade : (capacity : ℕ) (updates : Bool) → IsMade (new_manager capacity updates)
unfolding new_manager lookup
new_manager-IsMade capacity updates = elim (Bool-cases (leb capacity 0)) [
  | inl unset ↦ rw unset tt
  | inr some_room ↦
      rw some_room (record {
        on_topic = λ t k. refl;
        in_all = λ k. refl;
        distinct = λ t. tt;
        distinct_all = tt;
      })
]

-- After any sequence of a new manager's calls: a subscription is on a topic exactly if it is open
-- and has asked for that topic, it is among the manager's subscriptions exactly if it is open, and
-- no subscription is counted twice on a topic or among them.
pub run-new_manager-IsValid :
    (capacity : ℕ) (updates : Bool) (m : Manager) (es : List Event)
    → new_manager capacity updates ≡ some m
    → IsValid (run m es)
run-new_manager-IsValid capacity updates m es h =
    run-IsValid m es (subst IsMade h (new_manager-IsMade capacity updates))
