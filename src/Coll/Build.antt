-- ===== src/Coll/Build.antt =====
-- gw/coll/enumerate.go and flatten.go: what is collected from a collection, and what is built from it.
-- The nil collection, for which a build answers nil, has no counterpart here.
pub mod Made
pub mod Repeats
mod Tests
use mathlib.Core.Option
use gwf.Common.{
  ℕ, zero, suc, Bool, Option, none, some, List, map, Eq, contains, Dict, insert, ◌∷◌, [],
  if◌then◌else◌,
}
use gwf.Coll.{
  for_each_unorderly, Collection, new_empty_ordered, new_empty_unordered, add_if_new, len, values,
  present, visited,
}

module _ {MP V : Type 0} where
  -- sl[i] = yield(mp): `none` is the panic of a write past the slice's length.
  pub write_all : (MP → V) → ℕ → List MP → Option (List V)
  write_all yield room [] = some []
  write_all yield zero (x ∷ xs) = none
  write_all yield (suc room) (x ∷ xs) = Option.map (λ vs. yield x ∷ vs) (write_all yield room xs)

  collect_from : (MP → Option V) → List MP → List V
  collect_from yield [] = []
  collect_from yield (x ∷ xs) = elim (yield x) [
    | some v ↦ v ∷ collect_from yield xs
    | none ↦ collect_from yield xs
  ]

module _ {MP ID V : Type 0} ⦃e : Eq ID⦄ where
  pub enumerate_to_slice : (MP → V) → Collection MP ID → Option (List V)
  unfolding write_all
  enumerate_to_slice yield c = write_all yield (len c) (visited c)

  pub collect_to_slice : (MP → Option V) → Collection MP ID → List V
  unfolding collect_from
  collect_to_slice yield c = collect_from yield (visited c)

module _ {MP V : Type 0} ⦃v : Eq V⦄ where
  -- `skip` is the rule of CollectUniqueToSliceWithSkip; CollectUniqueToSlice has none.
  unique_from : (MP → V) → (V → Bool) → List V → List MP → List V
  unique_from yield skip seen [] = []
  unique_from yield skip seen (x ∷ xs) =
      let rest = unique_from yield skip seen xs in
      let more = unique_from yield skip (yield x ∷ seen) xs in
      if skip (yield x) then rest else if contains seen (yield x) then rest else yield x ∷ more

module _ {MP ID : Type 0} ⦃e : Eq ID⦄ where
  -- The order is followed if it names something.
  in_order : Collection MP ID → List MP
  unfolding present
  in_order c = elim c.order [
    | some [] ↦ values c.items_map
    | some (id ∷ o) ↦ present c.items_map (id ∷ o)
    | none ↦ values c.items_map
  ]

module _ {MP ID V : Type 0} ⦃e : Eq ID⦄ ⦃v : Eq V⦄ where
  pub collect_unique_to_slice_with_skip : (MP → V) → (V → Bool) → Collection MP ID → List V
  unfolding unique_from in_order
  collect_unique_to_slice_with_skip yield skip c = unique_from yield skip [] (in_order c)

module _ {NP NID : Type 0} ⦃n : Eq NID⦄ (get_id : NP → NID) where
  add_each : List NP → Collection NP NID → Collection NP NID
  add_each [] c = c
  add_each (x ∷ xs) c = add_each xs (add_if_new get_id x c)

module _ {SP NP NID : Type 0} ⦃n : Eq NID⦄ (get_id : NP → NID) where
  add_all : (SP → NP) → (NP → Bool) → List SP → Collection NP NID → Collection NP NID
  add_all yield skip [] c = c
  add_all yield skip (x ∷ xs) c =
      add_all yield skip xs (if skip (yield x) then c else add_if_new get_id (yield x) c)

  flatten_from : (SP → Option (Collection NP NID)) → List SP → Collection NP NID → Collection NP NID
  unfolding add_each
  flatten_from extract [] c = c
  flatten_from extract (x ∷ xs) c =
      flatten_from extract xs
        (elim (extract x) [ some sub ↦ add_each get_id (visited sub) c | none ↦ c ])

module _ {SP SID NP NID : Type 0} ⦃s : Eq SID⦄ ⦃n : Eq NID⦄ (get_id : NP → NID) where
  pub build_unordered_collection_from :
      (SP → NP) → (NP → Bool) → Collection SP SID → Collection NP NID
  unfolding add_all
  build_unordered_collection_from yield skip c =
      add_all get_id yield skip (values c.items_map) (new_empty_unordered get_id)

  -- Reads the order only: a source without one has nothing to build from.
  pub build_ordered_collection_from :
      (SP → NP) → (NP → Bool) → Collection SP SID → Collection NP NID
  unfolding add_all present
  build_ordered_collection_from yield skip c =
      add_all get_id yield skip (elim c.order [ some o ↦ present c.items_map o | none ↦ [] ])
        (new_empty_ordered get_id)

  pub flatten : (SP → Option (Collection NP NID)) → Collection SP SID → Collection NP NID
  unfolding flatten_from
  flatten extract c = flatten_from get_id extract (visited c) (new_empty_ordered get_id)

module _ {MP K V : Type 0} ⦃k : Eq K⦄ where
  put_all : (MP → Option (K × V)) → List MP → Dict K V → Dict K V
  put_all yield [] m = m
  put_all yield (x ∷ xs) m =
      put_all yield xs (elim (yield x) [ some (key, value) ↦ insert key value m | none ↦ m ])

module _ {MP ID K V : Type 0} ⦃e : Eq ID⦄ ⦃k : Eq K⦄ where
  -- `none` stands for a yield of which the key or the value is nil.
  pub collect_to_map : (MP → Option (K × V)) → Collection MP ID → Dict K V
  unfolding put_all
  collect_to_map yield c = put_all yield (for_each_unorderly c) []

  pub enumerate_to_map : (MP → K × V) → Collection MP ID → Dict K V
  unfolding put_all
  enumerate_to_map yield c = put_all (λ x. some (yield x)) (for_each_unorderly c) []
