-- ===== src/Pubsubs/Heap.antt =====
-- What ends and deliveries do to the subscriptions themselves.
use gwf.Common.{
  ℕ, zero, suc, String, refl, ap, inl, inr, Bool, true, false, not, List, arith, ltb, nat_eq,
  Bool-cases, Option-cases, length, set, get_or, contains, Distinct, ◌≡◌, ◌∙◌, ◌&&◌, ◌∷◌, ◌++◌, [],
  if◌then◌else◌, String_eq, ℕ_eq,
}
use gwf.Pubsubs.{
  EndReason, by_full_queue, Message, Managed, Manager, no_subscription, sub_of, members, note_count,
  join_topic, join_all, leave_topic, leave_all, closed, end_sub, end_each, put_in, is_full,
  put_each, deliver,
}

-- The fields that joining and leaving do not touch.
abbrev pub IsApart : Manager → Manager → Type 0
IsApart m m' =
    (m'.heap ≡ m.heap)
    × (m'.all ≡ m.all)
    × (m'.terminated ≡ m.terminated)
    × (m'.queue_capacity ≡ m.queue_capacity)

note_count-IsApart : (t : String) (n : ℕ) (m : Manager) → IsApart m (note_count t n m)
unfolding note_count
note_count-IsApart t n m = elim (Option-cases m.updates) [
  | inl off ↦ rw off (refl, refl, refl, refl)
  | inr (counts, on) ↦ rw on (refl, refl, refl, refl)
]

IsApart-trans : (a b c : Manager) → IsApart a b → IsApart b c → IsApart a c
IsApart-trans a b c h k = (k.0 ∙ h.0, k.1 ∙ h.1, k.2 ∙ h.2, k.3 ∙ h.3)

pub join_all-IsApart : (k : ℕ) (ts : List String) (m : Manager) → IsApart m (join_all k ts m)
unfolding join_all join_topic
join_all-IsApart k [] m = (refl, refl, refl, refl)
join_all-IsApart k (t ∷ ts) m =
    IsApart-trans m (join_topic k t m) (join_all k ts (join_topic k t m))
      (note_count-IsApart t _ (record m { topics = _ })) (join_all-IsApart k ts (join_topic k t m))

leave_topic-IsApart : (k : ℕ) (t : String) (m : Manager) → IsApart m (leave_topic k t m)
unfolding leave_topic
leave_topic-IsApart k t m = elim (Bool-cases (contains (members t m) k)) [
  | inl on ↦ rw on (note_count-IsApart t _ (record m { topics = _ }))
  | inr off ↦ rw off (refl, refl, refl, refl)
]

pub leave_all-IsApart : (k : ℕ) (ts : List String) (m : Manager) → IsApart m (leave_all k ts m)
unfolding leave_all
leave_all-IsApart k [] m = (refl, refl, refl, refl)
leave_all-IsApart k (t ∷ ts) m =
    IsApart-trans m (leave_topic k t m) (leave_all k ts (leave_topic k t m))
      (leave_topic-IsApart k t m) (leave_all-IsApart k ts (leave_topic k t m))

-- A pointer into the heap finds what was written there, and a dangling one finds nothing.
pub get_or-set :
    (heap : List Managed) (k j : ℕ) (s : Managed)
    → (get_or heap k no_subscription).ended ≡ false
    → get_or (set heap k s) j no_subscription
      ≡ (if nat_eq k j then s else get_or heap j no_subscription)
get_or-set [] k j s h = absurd (ground arith)
get_or-set (x ∷ heap) zero zero s h = refl
get_or-set (x ∷ heap) zero (suc j) s h = ground arith
get_or-set (x ∷ heap) (suc k) zero s h = ground arith
get_or-set (x ∷ heap) (suc k) (suc j) s h = ground (arith, get_or-set heap k j s h)

set_same : (heap : List Managed) (k : ℕ) → set heap k (get_or heap k no_subscription) ≡ heap
set_same [] k = refl
set_same (x ∷ heap) zero = refl
set_same (x ∷ heap) (suc k) = ap (λ rest. x ∷ rest) (set_same heap k)

-- An end closes an open subscription and changes no other.
pub sub_of-end_sub :
    (k j : ℕ) (reason : EndReason) (m : Manager)
    → sub_of j (end_sub k reason m)
      ≡ (if nat_eq k j && not (sub_of k m).ended then closed reason (sub_of j m) else sub_of j m)
unfolding end_sub
sub_of-end_sub k j reason m = elim (Bool-cases (sub_of k m).ended) [
  | inl over ↦ rw over (ground arith)
  | inr open_ ↦
      rw
        (
          open_,
          (leave_all-IsApart k (sub_of k m).topics
              (record m { heap = set m.heap k (closed reason (sub_of k m)) })).0,
          get_or-set m.heap k j (closed reason (sub_of k m)) open_,
        )
        (elim (Bool-cases (nat_eq k j)) [
          | inl same ↦
              let e : k ≡ j = ground arith in rw same (ap (λ i. closed reason (sub_of i m)) e)
          | inr other ↦ rw other refl
        ])
]

-- An end of several closes those of them that are open.
pub sub_of-end_each :
    (ks : List ℕ) (j : ℕ) (reason : EndReason) (m : Manager)
    → sub_of j (end_each ks reason m)
      ≡ (if contains ks j && not (sub_of j m).ended then closed reason (sub_of j m) else sub_of j m)
unfolding end_each closed
sub_of-end_each [] j reason m = refl
sub_of-end_each (k ∷ ks) j reason m =
    rw (sub_of-end_each ks j reason (end_sub k reason m), sub_of-end_sub k j reason m)
      (elim (Bool-cases (nat_eq k j)) [
        | inl same ↦
            let e : k ≡ j = ground arith in
            rw (same, e)
              (elim (Bool-cases (sub_of j m).ended) [
                | inl over ↦ rw (over, over) (ground arith)
                | inr open_ ↦ rw open_ (ground arith)
              ])
        | inr other ↦ rw other refl
      ])

get_or-put :
    (msg : Message) (c : ℕ) (heap : List Managed) (k j : ℕ)
    → get_or (set heap k (put_in msg c (get_or heap k no_subscription))) j no_subscription ≡ (
        if nat_eq k j
        then put_in msg c (get_or heap j no_subscription)
        else get_or heap j no_subscription)
get_or-put msg c heap k j = elim (Bool-cases (get_or heap k no_subscription).ended) [
  | inl over ↦
      rw (over, set_same heap k)
        (elim (Bool-cases (nat_eq k j)) [
          | inl same ↦
              let e : k ≡ j = ground arith in
              let over_j : (get_or heap j no_subscription).ended ≡ true = rw⁻¹ e over in
              rw (same, over_j) refl
          | inr other ↦ rw other refl
        ])
  | inr open_ ↦ rw (get_or-set heap k j _ open_) (elim (Bool-cases (nat_eq k j)) [
    | inl same ↦
        let e : k ≡ j = ground arith in
        rw same (ap (λ i. put_in msg c (get_or heap i no_subscription)) e)
    | inr other ↦ rw other refl
  ])
]

-- Each subscription of the list gets the message once, if it is open and has room.
pub get_or-put_each :
    (msg : Message) (c : ℕ) (ks : List ℕ) (heap : List Managed) (j : ℕ)
    → Distinct ks
    → get_or (put_each msg c ks heap).0 j no_subscription ≡ (
        if contains ks j
        then put_in msg c (get_or heap j no_subscription)
        else get_or heap j no_subscription)
unfolding put_each
get_or-put_each msg c [] heap j d = refl
get_or-put_each msg c (k ∷ ks) heap j d =
    rw
      (
        get_or-put_each msg c ks (set heap k (put_in msg c (get_or heap k no_subscription))) j d.1,
        get_or-put msg c heap k j,
      )
      (elim (Bool-cases (nat_eq k j)) [
        | inl same ↦
            let e : k ≡ j = ground arith in
            let absent : contains ks j ≡ false = rw⁻¹ e d.0 in rw (same, absent) refl
        | inr other ↦ rw other refl
      ])

-- The queues that were full, of those on the list.
contains-put_each :
    (msg : Message) (c : ℕ) (ks : List ℕ) (heap : List Managed) (j : ℕ)
    → Distinct ks
    → contains (put_each msg c ks heap).1 j
      ≡ (contains ks j && is_full c (get_or heap j no_subscription))
unfolding put_each
contains-put_each msg c [] heap j d = refl
contains-put_each msg c (k ∷ ks) heap j d =
    let rest =
      contains-put_each msg c ks (set heap k (put_in msg c (get_or heap k no_subscription))) j
        d.1 in
    elim (Bool-cases (nat_eq k j)) [
      | inl same ↦
          let e : k ≡ j = ground arith in
          let absent : contains ks j ≡ false = rw⁻¹ e d.0 in
          let none_there : contains
                (put_each msg c ks (set heap k (put_in msg c (get_or heap k no_subscription)))).1 j
              ≡ false =
            ground (arith, rest, absent) in
          let full : is_full c (get_or heap k no_subscription)
              ≡ is_full c (get_or heap j no_subscription) =
            ap (λ i. is_full c (get_or heap i no_subscription)) e in
          rw full (elim (Bool-cases (is_full c (get_or heap j no_subscription))) [
            | inl yes_full ↦ rw (yes_full, same) (ground arith)
            | inr room ↦ rw (room, none_there) (ground arith)
          ])
      | inr other ↦
          let there : contains
                (put_each msg c ks (set heap k (put_in msg c (get_or heap k no_subscription)))).1 j
              ≡ (contains ks j && is_full c (get_or heap j no_subscription)) =
            rest
            ∙ ap (λ s. contains ks j && is_full c s) {y = get_or heap j no_subscription}
                (get_or-put msg c heap k j ∙ rw other refl) in
          rw other (elim (Bool-cases (is_full c (get_or heap k no_subscription))) [
            | inl yes_full ↦ rw (yes_full, other) there
            | inr room ↦ rw room there
          ])
    ]

-- What a delivery makes of a subscription on the topic: one that has ended stays as it is; the
-- message is one more, and the last, in a queue with room; a full queue is emptied, and ends it.
abbrev pub delivered : Message → ℕ → Managed → Managed
delivered msg c s =
    if s.ended
    then s
    else if ltb (length s.queue) c
    then record s { queue = s.queue ++ msg ∷ [] }
    else record s { queue = []; end_notice_closed = true; end_reason = by_full_queue; ended = true }

one_delivery :
    (msg : Message) (c : ℕ) (s : Managed) (on : Bool)
    → (let put = if on then put_in msg c s else s in
        if on && is_full c s && not put.ended then closed by_full_queue put else put)
      ≡ (if on then delivered msg c s else s)
unfolding closed
one_delivery msg c s false = refl
one_delivery msg c s true = elim (Bool-cases s.ended) [
  | inl over ↦ rw over refl
  | inr open_ ↦ elim (Bool-cases (ltb (length s.queue) c)) [
    | inl room ↦ rw (open_, room) refl
    | inr full ↦ rw (open_, full) refl
  ]
]

-- Where no subscription is on the topic twice: a delivery puts the message at the end of the queue
-- of every open subscription on the topic that has room, ends each of them that has none with the
-- full queue as its reason and nothing left in its queue, and changes no other subscription.
pub deliver_lem :
    (topic payload : String) (m : Manager) (j : ℕ)
    → Distinct (members topic m)
    → sub_of j (deliver topic payload m) ≡ (
        if contains (members topic m) j
        then delivered (record { topic = topic; payload = payload }) m.queue_capacity (sub_of j m)
        else sub_of j m)
unfolding deliver
deliver_lem topic payload m j d =
    let msg : Message = record { topic = topic; payload = payload } in
    let r = put_each msg m.queue_capacity (members topic m) m.heap in
    rw
      (
        sub_of-end_each r.1 j by_full_queue (record m { heap = r.0 }),
        contains-put_each msg m.queue_capacity (members topic m) m.heap j d,
        get_or-put_each msg m.queue_capacity (members topic m) m.heap j d,
      )
      (one_delivery msg m.queue_capacity (sub_of j m) (contains (members topic m) j))
