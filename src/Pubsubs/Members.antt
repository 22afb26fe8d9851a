-- ===== src/Pubsubs/Members.antt =====
-- How joining and leaving change who is on a topic.
use gwf.Common.{
  ℕ, String, refl, inl, inr, Bool, true, false, not, List, arith, eq_iff, nat_eq, Bool-cases,
  Option-cases, length, set, contains, Distinct, contains-append, Distinct-append_one, insert,
  lookup-insert, lookup-delete, ◌≡◌, ◌&&◌, ◌||◌, ◌∷◌, ◌==◌, [], if◌then◌else◌, String_eq, ℕ_eq,
}
use gwf.Pubsubs.{
  Manager, members, with_member, without, note_count, join_topic, join_all, put_set, leave_topic,
  leave_all,
}

-- Who is on a topic does not depend on what is noted of it.
members-note_count :
    (t u : String) (n : ℕ) (m : Manager) → members t (note_count u n m) ≡ members t m
unfolding note_count
members-note_count t u n m = elim (Option-cases m.updates) [
  | inl off ↦ rw off refl
  | inr (counts, on) ↦ rw on refl
]

contains-with_member :
    (k j : ℕ) (set : List ℕ) → contains (with_member k set) j ≡ (nat_eq k j || contains set j)
contains-with_member k j set = ground (arith, contains-append set (k ∷ []) j)

with_member-Distinct : (k : ℕ) (set : List ℕ) → Distinct set → Distinct (with_member k set)
with_member-Distinct k set d = elim (Bool-cases (contains set k)) [
  | inl old ↦ rw old d
  | inr new ↦ rw new (Distinct-append_one set k d new)
]

pub contains-without :
    (k j : ℕ) (set : List ℕ) → contains (without k set) j ≡ (contains set j && not (nat_eq k j))
contains-without k j [] = refl
contains-without k j (i ∷ set) = ground (arith, contains-without k j set)

pub without-Distinct : (k : ℕ) (set : List ℕ) → Distinct set → Distinct (without k set)
without-Distinct k [] d = tt
without-Distinct k (i ∷ set) d = elim (Bool-cases (nat_eq i k)) [
  | inl gone ↦ rw gone (without-Distinct k set d.1)
  | inr stays ↦ rw stays (ground (arith, contains-without k i set), without-Distinct k set d.1)
]

members-join_topic :
    (k : ℕ) (t u : String) (m : Manager)
    → members u (join_topic k t m) ≡ (if t == u then with_member k (members t m) else members u m)
unfolding join_topic
members-join_topic k t u m = ground (
  arith,
  members-note_count u t (length (with_member k (members t m)))
      (record m { topics = insert t (with_member k (members t m)) m.topics }),
  lookup-insert t u (with_member k (members t m)) m.topics,
)

lookup-put_set :
    (t u : String) (set : List ℕ) (m : Manager)
    → members u (record m { topics = put_set t set m.topics })
      ≡ (if t == u then set else members u m)
lookup-put_set t u [] m = ground (arith, lookup-delete t u m.topics)
lookup-put_set t u (k ∷ set) m = ground (arith, lookup-insert t u (k ∷ set) m.topics)

members-leave_topic :
    (k : ℕ) (t u : String) (m : Manager)
    → members u (leave_topic k t m)
      ≡ (if contains (members t m) k && t == u then without k (members t m) else members u m)
unfolding leave_topic
members-leave_topic k t u m = elim (Bool-cases (contains (members t m) k)) [
  | inl on ↦
      rw
        (
          on,
          members-note_count u t (length (without k (members t m)))
              (record m { topics = put_set t (without k (members t m)) m.topics }),
          lookup-put_set t u (without k (members t m)) m,
        )
        refl
  | inr off ↦ rw off refl
]

-- Joining puts one subscription on the topics given and on no other, and leaving takes it off.
pub contains-join_all :
    (k j : ℕ) (ts : List String) (u : String) (m : Manager)
    → contains (members u (join_all k ts m)) j
      ≡ (contains ts u && nat_eq k j || contains (members u m) j)
unfolding join_all
contains-join_all k j [] u m = ground arith
contains-join_all k j (t ∷ ts) u m =
    rw (contains-join_all k j ts u (join_topic k t m), members-join_topic k t u m)
      (elim (Bool-cases (t == u)) [
        | inl same ↦
            let e : t ≡ u = ground (arith, eq_iff t u) in
            rw (same, contains-with_member k j (members t m), e) (ground arith)
        | inr other ↦ rw other (ground arith)
      ])

left :
    (k j : ℕ) (set : List ℕ) (again : Bool)
    → (contains (if contains set k && true then without k set else set) j
        && not (again && nat_eq k j))
      ≡ (contains set j && not ((true || again) && nat_eq k j))
left k j set again = elim (Bool-cases (contains set k)) [
  | inl on ↦ rw (on, contains-without k j set) (ground arith)
  | inr off ↦ rw off (elim (Bool-cases (nat_eq k j)) [
    | inl same ↦
        let e : k ≡ j = ground arith in
        let absent : contains set j ≡ false = rw⁻¹ e off in rw (same, absent) refl
    | inr other ↦ rw other (ground arith)
  ])
]

pub contains-leave_all :
    (k j : ℕ) (ts : List String) (u : String) (m : Manager)
    → contains (members u (leave_all k ts m)) j
      ≡ (contains (members u m) j && not (contains ts u && nat_eq k j))
unfolding leave_all
contains-leave_all k j [] u m = ground arith
contains-leave_all k j (t ∷ ts) u m =
    rw (contains-leave_all k j ts u (leave_topic k t m), members-leave_topic k t u m)
      (elim (Bool-cases (t == u)) [
        | inl same ↦
            let e : t ≡ u = ground (arith, eq_iff t u) in
            rw (same, e) (left k j (members u m) (contains ts u))
        | inr other ↦ rw other (ground arith)
      ])

pub members-join_all-Distinct :
    (k : ℕ) (ts : List String) (m : Manager)
    → ((u : String) → Distinct (members u m))
    → (u : String) → Distinct (members u (join_all k ts m))
unfolding join_all
members-join_all-Distinct k [] m d = d
members-join_all-Distinct k (t ∷ ts) m d = members-join_all-Distinct k ts (join_topic k t m) (λ u.
    rw (members-join_topic k t u m) (elim (Bool-cases (t == u)) [
      | inl same ↦ rw same (with_member-Distinct k (members t m) (d t))
      | inr other ↦ rw other (d u)
    ]))

pub members-leave_all-Distinct :
    (k : ℕ) (ts : List String) (m : Manager)
    → ((u : String) → Distinct (members u m))
    → (u : String) → Distinct (members u (leave_all k ts m))
unfolding leave_all
members-leave_all-Distinct k [] m d = d
members-leave_all-Distinct k (t ∷ ts) m d =
    members-leave_all-Distinct k ts (leave_topic k t m) (λ u.
      rw (members-leave_topic k t u m) (elim (Bool-cases (contains (members t m) k && t == u)) [
        | inl off ↦ rw off (without-Distinct k (members t m) (d t))
        | inr as_was ↦ rw as_was (d u)
      ]))
