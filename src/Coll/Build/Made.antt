-- ===== src/Coll/Build/Made.antt =====
-- What the collections and slices made from a valid collection are.
use gwf.Common.{
  ℕ, zero, suc, inl, inr, Bool, Option, none, some, List, map, arith, ltb, Eq, Bool-cases,
  Option-cases, length, ◌≡◌, ◌∙◌, ◌∷◌, [], if◌then◌else◌,
}
use gwf.Coll.{Collection, len, visited, present, values}
use gwf.Coll.Build.{
  write_all, enumerate_to_slice, flatten, flatten_from, add_each, build_ordered_collection_from,
  build_unordered_collection_from, add_all,
}
use gwf.Coll.Valid.{
  IsValid, length-visited, add_if_new-IsValid, new_empty_ordered-IsValid,
  new_empty_unordered-IsValid,
}

module _ {MP V : Type 0} (yield : MP → V) where
  pub write_all_lem :
      (room : ℕ) (xs : List MP)
      → write_all yield room xs ≡ (if ltb room (length xs) then none else some (map yield xs))
  unfolding write_all
  write_all_lem room [] = ground arith
  write_all_lem zero (x ∷ xs) = ground arith
  write_all_lem (suc room) (x ∷ xs) = rw (write_all_lem room xs) (ground arith)

module _ {MP ID V : Type 0} ⦃e : Eq ID⦄ where
  -- Over a valid collection the slice is filled without a panic, with a value for each item.
  enumerate_to_slice_lem :
      (yield : MP → V) (c : Collection MP ID)
      → IsValid c
      → enumerate_to_slice yield c ≡ some (map yield (visited c))
  unfolding enumerate_to_slice
  enumerate_to_slice_lem yield c v =
      write_all_lem yield (len c) (visited c) ∙ ground (arith, length-visited c v)

module _ {NP NID : Type 0} ⦃n : Eq NID⦄ (get_id : NP → NID) where
  add_each-IsValid :
      (xs : List NP) (c : Collection NP NID) → IsValid c → IsValid (add_each get_id xs c)
  unfolding add_each
  add_each-IsValid [] c v = v
  add_each-IsValid (x ∷ xs) c v = add_each-IsValid xs _ (add_if_new-IsValid get_id x c v)

module _ {SP NP NID : Type 0} ⦃n : Eq NID⦄ (get_id : NP → NID) where
  add_all-IsValid :
      (yield : SP → NP) (skip : NP → Bool) (xs : List SP) (c : Collection NP NID)
      → IsValid c
      → IsValid (add_all get_id yield skip xs c)
  unfolding add_all
  add_all-IsValid yield skip [] c v = v
  add_all-IsValid yield skip (x ∷ xs) c v =
      add_all-IsValid yield skip xs _ (elim (Bool-cases (skip (yield x))) [
        | inl out ↦ rw out v
        | inr kept ↦ rw kept (add_if_new-IsValid get_id (yield x) c v)
      ])

  flatten_from-IsValid :
      (extract : SP → Option (Collection NP NID)) (xs : List SP) (c : Collection NP NID)
      → IsValid c
      → IsValid (flatten_from get_id extract xs c)
  unfolding flatten_from
  flatten_from-IsValid extract [] c v = v
  flatten_from-IsValid extract (x ∷ xs) c v =
      flatten_from-IsValid extract xs _ (elim (Option-cases (extract x)) [
        | inl e ↦ rw e v
        | inr e ↦ rw (e.1) (add_each-IsValid get_id (visited e.0) c v)
      ])

module _ {SP SID NP NID : Type 0} ⦃s : Eq SID⦄ ⦃n : Eq NID⦄ (get_id : NP → NID) where
  -- Whatever the source is, what is built or flattened from it is valid.
  pub build-IsValid :
      (yield : SP → NP) (skip : NP → Bool) (extract : SP → Option (Collection NP NID))
      (c : Collection SP SID)
      → IsValid (build_ordered_collection_from get_id yield skip c)
        × IsValid (build_unordered_collection_from get_id yield skip c)
        × IsValid (flatten get_id extract c)
  unfolding build_ordered_collection_from build_unordered_collection_from flatten
  build-IsValid yield skip extract c = (
    add_all-IsValid get_id yield skip (elim c.order [ some o ↦ present c.items_map o | none ↦ [] ])
        _ (new_empty_ordered-IsValid get_id),
    add_all-IsValid get_id yield skip (values c.items_map) _ (new_empty_unordered-IsValid get_id),
    flatten_from-IsValid get_id extract (visited c) _ (new_empty_ordered-IsValid get_id),
  )
