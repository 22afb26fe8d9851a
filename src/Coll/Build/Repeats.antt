-- ===== src/Coll/Build/Repeats.antt =====
-- A collection that was made from items of which two have one id.
use gwf.Common.{
  refl, inl, inr, true, none, List, map, arith, ltb, lt→ltb, Eq, Bool-cases, length, contains,
  Distinct, Dict, is_some, lookup, insert, lookup-insert, ◌+◌, ◌≤◌, ◌<◌, ◌≡◌, ◌∙◌, ◌∷◌, ◌==◌, [],
  if◌then◌else◌,
}
use gwf.Coll.{new_ordered, len, visited, present, insert_all}
use gwf.Coll.Valid.{length-present}
use gwf.Coll.Build.{enumerate_to_slice}
use gwf.Coll.Build.Made.{write_all_lem}

length-map_ids : {A B : Type 0} (f : A → B) (xs : List A) → length (map f xs) ≡ length xs
length-map_ids f [] = refl
length-map_ids f (x ∷ xs) = omega (arith, length-map_ids f xs)

module _ {MP ID : Type 0} ⦃e : Eq ID⦄ where
  length-insert :
      (k : ID) (v : MP) (m : Dict ID MP)
      → length (insert k v m) ≡ (if is_some (lookup k m) then length m else length m + 1)
  unfolding insert lookup
  length-insert k v [] = refl
  length-insert k v ((j, w) ∷ m) = ground (arith, length-insert k v m)

  module _ (get_id : MP → ID) where
    length-insert_all-le :
        (xs : List MP) (m : Dict ID MP) → length (insert_all get_id xs m) ≤ length m + length xs
    unfolding insert_all
    length-insert_all-le [] m = omega arith
    length-insert_all-le (x ∷ xs) m =
        ground
          (arith, length-insert_all-le xs (insert (get_id x) x m), length-insert (get_id x) x m)

    length-insert_all-held :
        (k : ID) (xs : List MP) (m : Dict ID MP)
        → is_some (lookup k m) ≡ true
        → contains (map get_id xs) k ≡ true
        → length (insert_all get_id xs m) < length m + length xs
    unfolding insert_all
    length-insert_all-held k [] m held h = ground arith
    length-insert_all-held k (x ∷ xs) m held h =
        let m' = insert (get_id x) x m in
        let now = lookup-insert (get_id x) k x m in
        let size = length-insert (get_id x) x m in
        elim (Bool-cases (get_id x == k)) [
          | inl same ↦
              let eq : get_id x ≡ k = (e.eqb_iff (get_id x) k).0 same in
              let old : is_some (lookup (get_id x) m) ≡ true = rw eq held in
              ground (arith, length-insert_all-le xs m', size, old)
          | inr other ↦
              let later_ : contains (map get_id xs) k ≡ true = ground arith in
              let still_ : is_some (lookup k m') ≡ true = ground (arith, now, other) in
              ground (arith, length-insert_all-held k xs m' still_ later_, size)
        ]

    length-insert_all-repeated :
        (xs : List MP) (m : Dict ID MP)
        → ¬ (Distinct (map get_id xs))
        → length (insert_all get_id xs m) < length m + length xs
    unfolding insert_all
    length-insert_all-repeated [] m h = absurd (h tt)
    length-insert_all-repeated (x ∷ xs) m h =
        let m' = insert (get_id x) x m in
        let size = length-insert (get_id x) x m in
        elim (Bool-cases (contains (map get_id xs) (get_id x))) [
          | inl again ↦
              let held : is_some (lookup (get_id x) m') ≡ true =
                ground (
                  arith,
                  lookup-insert (get_id x) (get_id x) x m,
                  e.eqb_iff (get_id x) (get_id x),
                ) in
              ground (arith, length-insert_all-held (get_id x) xs m' held again, size)
          | inr once ↦ ground (arith, length-insert_all-repeated xs m' (λ d. h (once, d)), size)
        ]

    insert_all-held :
        (k : ID) (xs : List MP) (m : Dict ID MP)
        → is_some (lookup k m) ≡ true
        → is_some (lookup k (insert_all get_id xs m)) ≡ true
    unfolding insert_all
    insert_all-held k [] m h = h
    insert_all-held k (x ∷ xs) m h =
        insert_all-held k xs (insert (get_id x) x m)
          (ground (arith, lookup-insert (get_id x) k x m))

    insert_all-found :
        (k : ID) (xs : List MP) (m : Dict ID MP)
        → contains (map get_id xs) k ≡ true
        → is_some (lookup k (insert_all get_id xs m)) ≡ true
    unfolding insert_all
    insert_all-found k [] m h = ground arith
    insert_all-found k (x ∷ xs) m h = elim (Bool-cases (get_id x == k)) [
      | inl same ↦
          insert_all-held k xs (insert (get_id x) x m)
            (ground (arith, lookup-insert (get_id x) k x m, same))
      | inr other ↦ insert_all-found k xs (insert (get_id x) x m) (ground arith)
    ]

-- Enumerating a collection that was made from a list in which two items have one id panics.
pub enumerate_to_slice_panics :
    {MP ID V : Type 0} ⦃e : Eq ID⦄ (get_id : MP → ID) (yield : MP → V) (xs : List MP)
    → ¬ (Distinct (map get_id xs))
    → enumerate_to_slice yield (new_ordered get_id xs) ≡ none
unfolding enumerate_to_slice new_ordered visited len
enumerate_to_slice_panics get_id yield xs h =
    let m = insert_all get_id xs [] in
    let less = length-insert_all-repeated get_id xs [] h in
    let all_ =
      length-present m (map get_id xs) (λ k k_in. insert_all-found get_id k xs [] k_in)
      ∙ length-map_ids get_id xs in
    let short : ltb (length m) (length (present m (map get_id xs))) ≡ true =
      lt→ltb _ _ (omega (arith, less, all_)) in
    write_all_lem yield (length m) (present m (map get_id xs)) ∙ rw short refl
