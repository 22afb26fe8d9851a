-- ===== src/Pubsubs/Ended.antt =====
-- A subscription that has ended stays so, with the reason of its first end.
use gwf.Common.{
  ℕ, zero, suc, String, refl, inl, inr, Bool, true, false, Option, none, some, List, arith,
  Bool-cases, Result, ok, err, length, set, get_or, length-append, length-set, Dict, ◌<◌, ◌≡◌, ◌∙◌,
  ◌∷◌, ◌++◌, [], if◌then◌else◌, String_eq, ℕ_eq,
}
use gwf.Pubsubs.{
  EndReason, by_full_queue, by_termination, Message, Managed, Manager, SubscribeError,
  terminated_for_good, no_subscription, open_subscription, sub_of, members, join_all, closed,
  end_sub, end_each, subscribe_to, subscribe, distinct_topics, put_in, put_each, deliver,
  notice_each, put_miss_notice_to_all, end_all, take_from, take_updates,
}
use gwf.Pubsubs.Heap.{join_all-IsApart, leave_all-IsApart, sub_of-end_each, deliver_lem}
use gwf.Pubsubs.Kept.{IsValid, get_or-append}
use gwf.Pubsubs.History.{
  Event, subscribes, ends, delivers, misses, ends_all, takes, step, run, step-IsValid,
}

abbrev pub IsOver : ℕ → EndReason → Manager → Type 0
IsOver k reason m =
    (k < length m.heap) × ((sub_of k m).ended ≡ true) × ((sub_of k m).end_reason ≡ reason)

length-end_sub :
    (k : ℕ) (reason : EndReason) (m : Manager) → length (end_sub k reason m).heap ≡ length m.heap
unfolding end_sub
length-end_sub k reason m = elim (Bool-cases (sub_of k m).ended) [
  | inl over ↦ simp over refl
  | inr open_ ↦
      rw
        (
          open_,
          (leave_all-IsApart k (sub_of k m).topics
              (record m { heap = set m.heap k (closed reason (sub_of k m)) })).0,
          length-set m.heap k (closed reason (sub_of k m)),
        )
        refl
]

length-end_each :
    (ks : List ℕ) (reason : EndReason) (m : Manager)
    → length (end_each ks reason m).heap ≡ length m.heap
unfolding end_each
length-end_each [] reason m = refl
length-end_each (k ∷ ks) reason m =
    length-end_each ks reason (end_sub k reason m) ∙ length-end_sub k reason m

length-put_each :
    (msg : Message) (c : ℕ) (ks : List ℕ) (heap : List Managed)
    → length (put_each msg c ks heap).0 ≡ length heap
unfolding put_each
length-put_each msg c [] heap = refl
length-put_each msg c (k ∷ ks) heap =
    length-put_each msg c ks _ ∙ length-set heap k (put_in msg c (get_or heap k no_subscription))

end_each-IsOver :
    (ks : List ℕ) (j : ℕ) (again reason : EndReason) (m : Manager)
    → IsOver j reason m
    → IsOver j reason (end_each ks again m)
end_each-IsOver ks j again reason m h =
    let same : sub_of j (end_each ks again m) ≡ sub_of j m =
      sub_of-end_each ks j again m ∙ ground (arith, h.1) in
    rw (length-end_each ks again m, same) h

deliver-IsOver :
    (topic payload : String) (j : ℕ) (reason : EndReason) (m : Manager)
    → IsValid m
    → IsOver j reason m
    → IsOver j reason (deliver topic payload m)
deliver-IsOver topic payload j reason m v h =
    let same : sub_of j (deliver topic payload m) ≡ sub_of j m =
      deliver_lem topic payload m j (v.distinct topic) ∙ ground (arith, h.1) in
    let long : length (deliver topic payload m).heap ≡ length m.heap =
      unfold deliver in
      (length-end_each (put_each _ m.queue_capacity (members topic m) m.heap).1 by_full_queue _
        ∙ length-put_each _ m.queue_capacity (members topic m) m.heap) in
    rw (long, same) h

append-IsOver :
    (topics : List String) (j : ℕ) (reason : EndReason) (m : Manager)
    → IsOver j reason m
    → IsOver j reason (
        join_all (length m.heap) topics (record m {
          heap = m.heap ++ open_subscription topics ∷ [];
          all = m.all ++ length m.heap ∷ [];
        }))
append-IsOver topics j reason m h =
    let m1 = record m {
      heap = m.heap ++ open_subscription topics ∷ [];
      all = m.all ++ length m.heap ∷ [];
    } in
    let same : get_or (m.heap ++ open_subscription topics ∷ []) j no_subscription ≡ sub_of j m =
      get_or-append m.heap (open_subscription topics) j ∙ ground (arith, h.0) in
    rw
      (
        (join_all-IsApart (length m.heap) topics m1).0,
        length-append m.heap (open_subscription topics ∷ []),
        same,
      )
      (omega (arith, h.0), h.1, h.2)

subscribe_to-IsOver :
    (ended : Bool) (r : Result SubscribeError (List String)) (j : ℕ) (reason : EndReason)
    (m : Manager)
    → IsOver j reason m
    → IsOver j reason (subscribe_to ended r m).1
unfolding subscribe_to
subscribe_to-IsOver ended (err e) j reason m h = h
subscribe_to-IsOver true (ok topics) j reason m h = h
subscribe_to-IsOver false (ok topics) j reason m h =
    either m.terminated (err terminated_for_good, m) (ok (length m.heap), _) h
      (append-IsOver topics j reason m h)
  where
    either :
        (b : Bool) (r r' : Result SubscribeError ℕ × Manager)
        → IsOver j reason r.1
        → IsOver j reason r'.1
        → IsOver j reason (if b then r else r').1
    either true r r' h h' = h
    either false r r' h h' = h'

notice-over :
    (heap : List Managed) (k j : ℕ)
    → let heap' = set heap k (record (get_or heap k no_subscription) { miss_notice = true }) in
      ((get_or heap' j no_subscription).ended ≡ (get_or heap j no_subscription).ended)
      × ((get_or heap' j no_subscription).end_reason ≡ (get_or heap j no_subscription).end_reason)
notice-over [] k j = (refl, refl)
notice-over (x ∷ heap) zero zero = (refl, refl)
notice-over (x ∷ heap) zero (suc j) = (refl, refl)
notice-over (x ∷ heap) (suc k) zero = (refl, refl)
notice-over (x ∷ heap) (suc k) (suc j) = notice-over heap k j

notice_each-IsOver :
    (ks : List ℕ) (j : ℕ) (reason : EndReason) (m : Manager) (heap : List Managed)
    → IsOver j reason (record m { heap = heap })
    → IsOver j reason (record m { heap = notice_each ks heap })
unfolding notice_each
notice_each-IsOver [] j reason m heap h = h
notice_each-IsOver (k ∷ ks) j reason m heap h =
    let s = record (get_or heap k no_subscription) { miss_notice = true } in
    let same = notice-over heap k j in
    notice_each-IsOver ks j reason m (set heap k s)
      (rw (length-set heap k s) h.0, same.0 ∙ h.1, same.1 ∙ h.2)

take_from-IsOver :
    (taken : Option (Dict String ℕ)) (j : ℕ) (reason : EndReason) (m : Manager)
    → IsOver j reason m
    → IsOver j reason (take_from taken m).1
unfolding take_from
take_from-IsOver none j reason m h = h
take_from-IsOver (some taken) j reason m h = h

step-IsOver :
    (m : Manager) (e : Event) (j : ℕ) (reason : EndReason)
    → IsValid m
    → IsOver j reason m
    → IsOver j reason (step m e)
unfolding step
step-IsOver m (subscribes ended topics) j reason v h =
    unfold subscribe in subscribe_to-IsOver ended (distinct_topics topics) j reason m h
step-IsOver m (ends k again) j reason v h =
    unfold end_each in end_each-IsOver (k ∷ []) j again reason m h
step-IsOver m (delivers topic payload) j reason v h = deliver-IsOver topic payload j reason m v h
step-IsOver m misses j reason v h =
    unfold put_miss_notice_to_all in notice_each-IsOver m.all j reason m m.heap h
step-IsOver m ends_all j reason v h =
    unfold end_all in
    end_each-IsOver m.all j by_termination reason (record m { terminated = true }) h
step-IsOver m takes j reason v h = unfold take_updates in take_from-IsOver m.updates j reason m h

-- Once a subscription of a valid manager has ended, it stays ended, and its reason is the one that
-- it ended with first, whatever calls follow.
pub end_reason_final :
    (m : Manager) (es : List Event) (k : ℕ) (reason : EndReason)
    → IsValid m
    → IsOver k reason m
    → IsOver k reason (run m es)
unfolding run
end_reason_final m [] k reason v h = h
end_reason_final m (e ∷ es) k reason v h =
    end_reason_final (step m e) es k reason (step-IsValid m e v) (step-IsOver m e k reason v h)
