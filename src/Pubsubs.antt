-- ===== src/Pubsubs.antt =====
-- gw/pubsubs: the subscriptions of a process (localsubscriptionmanager.go, managedsubscription.go,
-- shard.go, subscription.go, stats.go, endreason.go) and the broker that is nothing else
-- (brokerlocalsubscriptionsonly.go). A pointer to a managed subscription is its place in the heap. A
-- topic hashes to one shard always, so the shards' maps are one map here; the methods run one after
-- another. The watches on the context and on abandonment are calls of `end`.
pub mod Broker
pub mod Members
pub mod Heap
pub mod Kept
pub mod History
pub mod Ended
mod Tests
use gwf.Common.{
  ℕ, String, Bool, true, false, not, Option, none, some, List, ltb, leb, Result, ok, err, length,
  set, get_or, contains, Dict, lookup, insert, delete, ◌&&◌, ◌∷◌, ◌++◌, ◌==◌, [], if◌then◌else◌,
  String_eq, ℕ_eq,
}

pub data EndReason : Type 0 where
  not_ended by_unsubscribe by_context_cancel by_full_queue by_termination by_abandonment : EndReason

pub reason_string : EndReason → String
reason_string by_unsubscribe = "unsubscribe"
reason_string by_context_cancel = "context cancel"
reason_string by_full_queue = "full queue"
reason_string by_termination = "termination"
reason_string by_abandonment = "abandonment"
reason_string not_ended = "not ended"

pub record Message : Type 0 where
  pub topic : String
  pub payload : String

-- `queue` is the channel's content, oldest first; `miss_notice` is whether the notice waits.
pub record Managed : Type 0 where
  pub topics : List String
  pub queue : List Message
  pub end_notice_closed : Bool
  pub miss_notice : Bool
  pub end_reason : EndReason
  pub ended : Bool

-- What a dangling pointer would find.
abbrev pub no_subscription : Managed
no_subscription = record {
  topics = [];
  queue = [];
  end_notice_closed = true;
  miss_notice = false;
  end_reason = not_ended;
  ended = true;
}

pub record Manager : Type 0 where
  pub queue_capacity : ℕ
  pub heap : List Managed
  pub topics : Dict String (List ℕ)
  -- none where the updates are off
  pub updates : Option (Dict String ℕ)
  pub updates_notice : Bool
  pub all : List ℕ
  pub terminated : Bool

-- The first argument is the capacity, the second whether the updates are on.
pub new_manager : ℕ → Bool → Option Manager
new_manager capacity updates =
    if leb capacity 0
    then none
    else some (record {
      queue_capacity = capacity;
      heap = [];
      topics = [];
      updates = if updates then some [] else none;
      updates_notice = false;
      all = [];
      terminated = false;
    })

abbrev pub sub_of : ℕ → Manager → Managed
sub_of k m = get_or m.heap k no_subscription

abbrev pub members : String → Manager → List ℕ
members t m = elim (lookup t m.topics) [ none ↦ [] | some set ↦ set ]

abbrev pub with_member : ℕ → List ℕ → List ℕ
with_member k set = if contains set k then set else set ++ k ∷ []

abbrev pub without : ℕ → List ℕ → List ℕ
without k [] = []
without k (j ∷ set) = let rest = without k set in if j == k then rest else j ∷ rest

pub note_count : String → ℕ → Manager → Manager
note_count t n m = elim m.updates [
  | none ↦ m
  | some counts ↦ record m { updates = some (insert t n counts); updates_notice = true }
]

pub join_topic : ℕ → String → Manager → Manager
unfolding note_count
join_topic k t m =
    let set = with_member k (members t m) in
    note_count t (length set) (record m { topics = insert t set m.topics })

pub join_all : ℕ → List String → Manager → Manager
unfolding join_topic
join_all k [] m = m
join_all k (t ∷ ts) m = join_all k ts (join_topic k t m)

-- A topic without subscriptions goes.
abbrev pub put_set : String → List ℕ → Dict String (List ℕ) → Dict String (List ℕ)
put_set t [] topics = delete t topics
put_set t (k ∷ set) topics = insert t (k ∷ set) topics

pub leave_topic : ℕ → String → Manager → Manager
unfolding note_count
leave_topic k t m =
    let set = without k (members t m) in
    let left = note_count t (length set) (record m { topics = put_set t set m.topics }) in
    if contains (members t m) k then left else m

pub leave_all : ℕ → List String → Manager → Manager
unfolding leave_topic
leave_all k [] m = m
leave_all k (t ∷ ts) m = leave_all k ts (leave_topic k t m)

pub closed : EndReason → Managed → Managed
closed reason s = record s {
  queue = [];
  end_notice_closed = true;
  end_reason = reason;
  ended = true;
}

-- Once, whichever end comes first.
pub end_sub : ℕ → EndReason → Manager → Manager
unfolding closed leave_all
end_sub k reason m =
    let s = sub_of k m in
    if s.ended
    then m
    else let left = leave_all k s.topics (record m { heap = set m.heap k (closed reason s) }) in
      record left { all = without k left.all }

pub end_each : List ℕ → EndReason → Manager → Manager
unfolding end_sub
end_each [] reason m = m
end_each (k ∷ ks) reason m = end_each ks reason (end_sub k reason m)

pub data SubscribeError : Type 0 where
  no_topic empty_topic ctx_ended terminated_for_good : SubscribeError

new_topics : List String → List String → Result SubscribeError (List String)
new_topics out [] = ok out
new_topics out (t ∷ ts) =
    let rest = new_topics (if contains out t then out else out ++ t ∷ []) ts in
    if t == "" then err empty_topic else rest

pub distinct_topics : List String → Result SubscribeError (List String)
unfolding new_topics
distinct_topics [] = err no_topic
distinct_topics (t ∷ ts) = new_topics [] (t ∷ ts)

abbrev pub open_subscription : List String → Managed
open_subscription topics = record {
  topics = topics;
  queue = [];
  end_notice_closed = false;
  miss_notice = false;
  end_reason = not_ended;
  ended = false;
}

pub subscribe_to :
    Bool → Result SubscribeError (List String) → Manager → Result SubscribeError ℕ × Manager
unfolding join_all
subscribe_to ended (err e) m = (err e, m)
subscribe_to true (ok topics) m = (err ctx_ended, m)
subscribe_to false (ok topics) m =
    let k = length m.heap in
    let added = record m {
      heap = m.heap ++ open_subscription topics ∷ [];
      all = m.all ++ k ∷ [];
    } in
    let joined = join_all k topics added in
    if m.terminated then (err terminated_for_good, m) else (ok k, joined)

-- The first argument is whether the context has ended; the answer is the pointer.
pub subscribe : Bool → List String → Manager → Result SubscribeError ℕ × Manager
unfolding subscribe_to distinct_topics
subscribe ended topics m = subscribe_to ended (distinct_topics topics) m

-- A put goes into an open subscription that has room.
abbrev pub put_in : Message → ℕ → Managed → Managed
put_in msg capacity s =
    if not s.ended && ltb (length s.queue) capacity
    then record s { queue = s.queue ++ msg ∷ [] }
    else s

abbrev pub is_full : ℕ → Managed → Bool
is_full capacity s = not s.ended && not (ltb (length s.queue) capacity)

-- The heap after the puts, and those whose queue was full.
pub put_each : Message → ℕ → List ℕ → List Managed → List Managed × List ℕ
put_each msg capacity [] heap = (heap, [])
put_each msg capacity (k ∷ ks) heap =
    let s = get_or heap k no_subscription in
    let rest = put_each msg capacity ks (set heap k (put_in msg capacity s)) in
    (rest.0, if is_full capacity s then k ∷ rest.1 else rest.1)

pub deliver : String → String → Manager → Manager
unfolding put_each end_each
deliver topic payload m =
    let r =
      put_each (record { topic = topic; payload = payload }) m.queue_capacity (members topic m)
        m.heap in
    end_each r.1 by_full_queue (record m { heap = r.0 })

notice_each : List ℕ → List Managed → List Managed
notice_each [] heap = heap
notice_each (k ∷ ks) heap =
    notice_each ks (set heap k (record (get_or heap k no_subscription) { miss_notice = true }))

pub put_miss_notice_to_all : Manager → Manager
unfolding notice_each
put_miss_notice_to_all m = record m { heap = notice_each m.all m.heap }

pub end_all : Manager → Manager
unfolding end_each
end_all m = end_each m.all by_termination (record m { terminated = true })

pub record Stats : Type 0 where
  pub subscription_count : ℕ
  pub subscription_count_per_topic : Dict String ℕ

counts : Dict String (List ℕ) → Dict String ℕ
counts [] = []
counts ((t, set) ∷ topics) = (t, length set) ∷ counts topics

pub stats : Manager → Stats
unfolding counts
stats m = record {
  subscription_count = length m.all;
  subscription_count_per_topic = counts m.topics;
}

take_from : Option (Dict String ℕ) → Manager → Dict String ℕ × Manager
take_from none m = ([], m)
take_from (some taken) m = (taken, record m { updates = some [] })

-- What is taken, and the manager without it.
pub take_updates : Manager → Dict String ℕ × Manager
unfolding take_from
take_updates m = take_from m.updates m
