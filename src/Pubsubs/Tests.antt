-- ===== src/Pubsubs/Tests.antt =====
-- A manager with room for one message in a queue.
use gwf.Common.{
  refl, true, false, some, List, arith, lookup, insert, delete, ◌≡◌, ◌∷◌, [], String_eq, ℕ_eq,
}
use gwf.Pubsubs.{
  by_unsubscribe, by_full_queue, Manager, sub_of, members, new_manager, note_count, join_topic,
  join_all, leave_topic, leave_all, closed, end_sub, end_each, subscribe_to, subscribe,
  distinct_topics, new_topics, put_each, deliver,
}
use gwf.Pubsubs.Heap.{delivered, deliver_lem}
use gwf.Pubsubs.Kept.{IsValid}
use gwf.Pubsubs.History.{
  Event, subscribes, ends, delivers, ends_all, step, run, run-new_manager-IsValid,
}
use gwf.Pubsubs.Ended.{IsOver, end_reason_final}

abbrev fresh : Manager
fresh = record {
  queue_capacity = 1;
  heap = [];
  topics = [];
  updates = some [];
  updates_notice = false;
  all = [];
  terminated = false;
}

abbrev events : List Event
events =
    subscribes false ("a" ∷ "b" ∷ "a" ∷ [])
    ∷ subscribes false ("a" ∷ [])
    ∷ delivers "b" "1"
    ∷ delivers "a" "2"
    ∷ []

run-new_manager-IsValid_example : IsValid (run fresh events)
unfolding new_manager
run-new_manager-IsValid_example = run-new_manager-IsValid 1 true fresh events refl

abbrev two : Manager
two = run fresh (subscribes false ("a" ∷ "b" ∷ "a" ∷ []) ∷ subscribes false ("a" ∷ []) ∷ [])

topics_of_two : (members "a" two ≡ 0 ∷ 1 ∷ []) × (members "b" two ≡ 0 ∷ [])
unfolding run step subscribe subscribe_to distinct_topics new_topics join_all join_topic note_count
    lookup insert
topics_of_two = (refl, refl)

-- The first, whose queue is full, is ended; the second gets the message.
full_queue :
    ((sub_of 0 (run fresh events)).end_reason ≡ by_full_queue)
    × ((sub_of 1 (run fresh events)).queue ≡ record { topic = "a"; payload = "2" } ∷ [])
    × (members "b" (run fresh events) ≡ [])
unfolding run step subscribe subscribe_to distinct_topics new_topics join_all join_topic note_count
    lookup insert delete deliver put_each end_each end_sub leave_all leave_topic closed
full_queue = (refl, refl, refl)

two-IsValid : IsValid two
unfolding new_manager
two-IsValid =
    run-new_manager-IsValid 1 true fresh
      (subscribes false ("a" ∷ "b" ∷ "a" ∷ []) ∷ subscribes false ("a" ∷ []) ∷ []) refl

deliver_lem_example :
    sub_of 1 (deliver "a" "2" two)
    ≡ delivered (record { topic = "a"; payload = "2" }) two.queue_capacity (sub_of 1 two)
unfolding run step subscribe subscribe_to distinct_topics new_topics join_all join_topic note_count
    lookup insert
deliver_lem_example = deliver_lem "a" "2" two 1 (two-IsValid.distinct "a")

end_reason_final_example :
    IsOver 0 by_unsubscribe
      (run (run fresh (subscribes false ("a" ∷ []) ∷ ends 0 by_unsubscribe ∷ [])) (ends_all ∷ []))
unfolding new_manager run step subscribe subscribe_to distinct_topics new_topics join_all join_topic
    note_count lookup insert delete end_sub leave_all leave_topic closed
end_reason_final_example =
    end_reason_final (run fresh (subscribes false ("a" ∷ []) ∷ ends 0 by_unsubscribe ∷ []))
      (ends_all ∷ []) 0 by_unsubscribe
      (run-new_manager-IsValid 1 true fresh
        (subscribes false ("a" ∷ []) ∷ ends 0 by_unsubscribe ∷ []) refl)
      (omega arith, refl, refl)
