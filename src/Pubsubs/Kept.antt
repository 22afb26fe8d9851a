-- ===== src/Pubsubs/Kept.antt =====
-- The topics hold exactly the open subscriptions that asked for them.
use gwf.Common.{
  ℕ, zero, suc, String, refl, inl, inr, Bool, true, false, not, List, arith, ltb, nat_eq,
  Bool-cases, Result, ok, err, length, set, get_or, contains, Distinct, contains-append,
  Distinct-append_one, subst, ◌≡◌, ◌∙◌, ◌&&◌, ◌||◌, ◌∷◌, ◌++◌, [], if◌then◌else◌, String_eq, ℕ_eq,
}
use gwf.Pubsubs.{
  EndReason, by_full_queue, by_termination, Message, Managed, Manager, no_subscription,
  open_subscription, sub_of, members, join_all, closed, end_sub, end_each, SubscribeError,
  terminated_for_good, subscribe_to, subscribe, distinct_topics, put_in, put_each, deliver, end_all,
}
use gwf.Pubsubs.Members.{
  contains-without, without-Distinct, contains-join_all, contains-leave_all,
  members-join_all-Distinct, members-leave_all-Distinct,
}
use gwf.Pubsubs.Heap.{join_all-IsApart, leave_all-IsApart, sub_of-end_sub, get_or-put_each}

-- A subscription is on a topic exactly if it is open and has asked for it, and in the manager's set
-- exactly if it is open; no subscription is in a set twice.
pub record IsValid (m : Manager) : Type 0 where
  pub on_topic :
      (t : String) (k : ℕ)
      → contains (members t m) k ≡ (not (sub_of k m).ended && contains (sub_of k m).topics t)
  pub in_all : (k : ℕ) → contains m.all k ≡ not (sub_of k m).ended
  pub distinct : (t : String) → Distinct (members t m)
  pub distinct_all : Distinct m.all

left_topic :
    (k j : ℕ) (t : String) (reason : EndReason) (m : Manager)
    → let after = if nat_eq k j && true then closed reason (sub_of j m) else sub_of j m in
      (not (sub_of j m).ended
        && contains (sub_of j m).topics t
        && not (contains (sub_of k m).topics t && nat_eq k j))
      ≡ (not after.ended && contains after.topics t)
unfolding closed
left_topic k j t reason m = elim (Bool-cases (nat_eq k j)) [
  | inl same ↦ let e : k ≡ j = ground arith in rw (same, e) (ground arith)
  | inr other ↦ rw other (ground arith)
]

left_all :
    (k j : ℕ) (reason : EndReason) (m : Manager)
    → (not (sub_of j m).ended && not (nat_eq k j))
      ≡ not (if nat_eq k j && true then closed reason (sub_of j m) else sub_of j m).ended
unfolding closed
left_all k j reason m = elim (Bool-cases (nat_eq k j)) [
  | inl same ↦ rw same (ground arith)
  | inr other ↦ rw other (ground arith)
]

pub end_sub-IsValid :
    (k : ℕ) (reason : EndReason) (m : Manager) → IsValid m → IsValid (end_sub k reason m)
end_sub-IsValid k reason m v = elim (Bool-cases (sub_of k m).ended) [
  | inl over ↦ unfold end_sub in rw over v
  | inr open_ ↦
      let ts = (sub_of k m).topics in
      let m1 = record m { heap = set m.heap k (closed reason (sub_of k m)) } in
      let apart = leave_all-IsApart k ts m1 in
      record {
        on_topic = λ t j. rw (sub_of-end_sub k j reason m) (
            unfold end_sub in
            rw (open_, contains-leave_all k j ts t m1, v.on_topic t j) (left_topic k j t reason m));
        in_all = λ j. rw (sub_of-end_sub k j reason m) (
            unfold end_sub in
            rw (open_, apart.1, contains-without k j m.all, v.in_all j) (left_all k j reason m));
        distinct =
            λ t. unfold end_sub in rw open_ (members-leave_all-Distinct k ts m1 v.distinct t);
        distinct_all =
            unfold end_sub in rw (open_, apart.1) (without-Distinct k m.all v.distinct_all);
      }
]

pub end_each-IsValid :
    (ks : List ℕ) (reason : EndReason) (m : Manager) → IsValid m → IsValid (end_each ks reason m)
unfolding end_each
end_each-IsValid [] reason m v = v
end_each-IsValid (k ∷ ks) reason m v =
    end_each-IsValid ks reason (end_sub k reason m) (end_sub-IsValid k reason m v)

kept_topic :
    (msg : Message) (c : ℕ) (on : Bool) (s : Managed) (t : String)
    → let after = if on then put_in msg c s else s in
      (not s.ended && contains s.topics t) ≡ (not after.ended && contains after.topics t)
kept_topic msg c false s t = refl
kept_topic msg c true s t = elim (Bool-cases (not s.ended && ltb (length s.queue) c)) [
  | inl put ↦ rw put refl
  | inr skipped ↦ rw skipped refl
]

kept_open :
    (msg : Message) (c : ℕ) (on : Bool) (s : Managed)
    → not s.ended ≡ not (if on then put_in msg c s else s).ended
kept_open msg c false s = refl
kept_open msg c true s = elim (Bool-cases (not s.ended && ltb (length s.queue) c)) [
  | inl put ↦ rw put refl
  | inr skipped ↦ rw skipped refl
]

-- A put changes a queue and nothing else.
put-IsValid :
    (msg : Message) (t : String) (m : Manager)
    → IsValid m
    → IsValid (record m { heap = (put_each msg m.queue_capacity (members t m) m.heap).0 })
put-IsValid msg t m v =
    let puts : (k : ℕ) → _ =
      λ k. get_or-put_each msg m.queue_capacity (members t m) m.heap k (v.distinct t) in
    record {
      on_topic = λ u k. rw (puts k) (
          v.on_topic u k
          ∙ kept_topic msg m.queue_capacity (contains (members t m) k) (sub_of k m) u);
      in_all = λ k.
          rw (puts k)
            (v.in_all k ∙ kept_open msg m.queue_capacity (contains (members t m) k) (sub_of k m));
      distinct = v.distinct;
      distinct_all = v.distinct_all;
    }

pub deliver-IsValid :
    (topic payload : String) (m : Manager) → IsValid m → IsValid (deliver topic payload m)
unfolding deliver
deliver-IsValid topic payload m v =
    let msg : Message = record { topic = topic; payload = payload } in
    let r = put_each msg m.queue_capacity (members topic m) m.heap in
    end_each-IsValid r.1 by_full_queue (record m { heap = r.0 }) (put-IsValid msg topic m v)

pub end_all-IsValid : (m : Manager) → IsValid m → IsValid (end_all m)
unfolding end_all
end_all-IsValid m v =
    end_each-IsValid m.all by_termination (record m { terminated = true })
      (record {
        on_topic = v.on_topic;
        in_all = v.in_all;
        distinct = v.distinct;
        distinct_all = v.distinct_all;
      })

pub get_or-append :
    (heap : List Managed) (s : Managed) (j : ℕ)
    → get_or (heap ++ s ∷ []) j no_subscription
      ≡ (if nat_eq (length heap) j then s else get_or heap j no_subscription)
get_or-append [] s zero = refl
get_or-append [] s (suc j) = ground arith
get_or-append (x ∷ heap) s zero = ground arith
get_or-append (x ∷ heap) s (suc j) = ground (arith, get_or-append heap s j)

get_or-length : (heap : List Managed) → get_or heap (length heap) no_subscription ≡ no_subscription
get_or-length [] = refl
get_or-length (x ∷ heap) = get_or-length heap

fresh_topic :
    (topics : List String) (m : Manager) (j : ℕ) (t : String)
    → IsValid m
    → let after = if nat_eq (length m.heap) j then open_subscription topics else sub_of j m in
      (contains topics t && nat_eq (length m.heap) j || contains (members t m) j)
      ≡ (not after.ended && contains after.topics t)
fresh_topic topics m j t v = elim (Bool-cases (nat_eq (length m.heap) j)) [
  | inl new ↦
      let e : length m.heap ≡ j = ground arith in
      let none_yet : sub_of j m ≡ no_subscription =
        subst (λ i. sub_of i m ≡ no_subscription) e (get_or-length m.heap) in
      rw (new, v.on_topic t j, none_yet) (ground arith)
  | inr old ↦ rw (old, v.on_topic t j) (ground arith)
]

fresh_all :
    (topics : List String) (m : Manager) (j : ℕ)
    → IsValid m
    → contains (m.all ++ length m.heap ∷ []) j
      ≡ not (if nat_eq (length m.heap) j then open_subscription topics else sub_of j m).ended
fresh_all topics m j v =
    rw (contains-append m.all (length m.heap ∷ []) j, v.in_all j)
      (elim (Bool-cases (nat_eq (length m.heap) j)) [
        | inl new ↦ rw new (ground arith)
        | inr old ↦ rw old (ground arith)
      ])

added-IsValid :
    (topics : List String) (m : Manager)
    → IsValid m
    → IsValid (
        join_all (length m.heap) topics (record m {
          heap = m.heap ++ open_subscription topics ∷ [];
          all = m.all ++ length m.heap ∷ [];
        }))
added-IsValid topics m v =
    let k = length m.heap in
    let m1 = record m { heap = m.heap ++ open_subscription topics ∷ []; all = m.all ++ k ∷ [] } in
    let apart = join_all-IsApart k topics m1 in
    record {
      on_topic = λ t j.
          rw
            (
              contains-join_all k j topics t m1,
              apart.0,
              get_or-append m.heap (open_subscription topics) j,
            )
            (fresh_topic topics m j t v);
      in_all = λ j.
          rw (apart.1, apart.0, get_or-append m.heap (open_subscription topics) j)
            (fresh_all topics m j v);
      distinct = members-join_all-Distinct k topics m1 v.distinct;
      distinct_all =
          rw apart.1 (
            Distinct-append_one m.all k v.distinct_all
              (rw (v.in_all k, get_or-length m.heap) refl));
    }

either :
    (b : Bool) (r r' : Result SubscribeError ℕ × Manager)
    → IsValid r.1
    → IsValid r'.1
    → IsValid (if b then r else r').1
either true r r' v v' = v
either false r r' v v' = v'

subscribe_to-IsValid :
    (ended : Bool) (r : Result SubscribeError (List String)) (m : Manager)
    → IsValid m
    → IsValid (subscribe_to ended r m).1
unfolding subscribe_to
subscribe_to-IsValid ended (err e) m v = v
subscribe_to-IsValid true (ok topics) m v = v
subscribe_to-IsValid false (ok topics) m v =
    either m.terminated (err terminated_for_good, m) (ok (length m.heap), _) v
      (added-IsValid topics m v)

pub subscribe-IsValid :
    (ended : Bool) (topics : List String) (m : Manager)
    → IsValid m
    → IsValid (subscribe ended topics m).1
unfolding subscribe
subscribe-IsValid ended topics m v = subscribe_to-IsValid ended (distinct_topics topics) m v
