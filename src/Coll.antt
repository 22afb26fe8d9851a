-- ===== src/Coll.antt =====
-- gw/coll/collection.go: a set of items by their id, with or without an order. A map of Go is read in
-- the order of its entries here, which stands for the order that Go happens to choose.
pub mod Build
pub mod Valid
use mathlib.Core.Option
use gwf.Common.{
  ℕ, Bool, Option, none, some, List, map, nat_eq, Eq, length, get_elem?, Dict, keys, is_some,
  lookup, insert, ◌∷◌, ◌++◌, [], if◌then◌else◌,
}

pub record Collection (MP ID : Type 0) : Type 0 where
  pub items_map : Dict ID MP
  pub order : Option (List ID)

module _ {MP ID : Type 0} ⦃e : Eq ID⦄ (get_id : MP → ID) where
  pub new_empty_ordered : Collection MP ID
  new_empty_ordered = record { items_map = []; order = some [] }

  pub new_empty_unordered : Collection MP ID
  new_empty_unordered = record { items_map = []; order = none }

  insert_all : List MP → Dict ID MP → Dict ID MP
  insert_all [] m = m
  insert_all (x ∷ xs) m = insert_all xs (insert (get_id x) x m)

  pub new_unordered : List MP → Collection MP ID
  unfolding insert_all
  new_unordered xs = record { items_map = insert_all xs []; order = none }

  pub new_ordered : List MP → Collection MP ID
  unfolding insert_all
  new_ordered xs = record { items_map = insert_all xs []; order = some (map get_id xs) }

  pub add : MP → Collection MP ID → Collection MP ID
  add x c =
      let id = get_id x in
      record {
        items_map = insert id x c.items_map;
        order =
            if is_some (lookup id c.items_map)
            then c.order
            else Option.map (λ o. o ++ id ∷ []) c.order;
      }

  pub add_if_new : MP → Collection MP ID → Collection MP ID
  add_if_new x c =
      let id = get_id x in
      if is_some (lookup id c.items_map) then c else record {
        items_map = insert id x c.items_map;
        order = Option.map (λ o. o ++ id ∷ []) c.order;
      }

module _ {MP : Type 0} where
  -- The consumer of Iter breaks after the first item that fails `go_on`.
  taken_while : (MP → Bool) → List MP → List MP
  taken_while go_on [] = []
  taken_while go_on (x ∷ xs) = let rest = taken_while go_on xs in x ∷ (if go_on x then rest else [])

  first_of : (MP → Bool) → List MP → Option MP
  first_of fn [] = none
  first_of fn (x ∷ xs) = if fn x then some x else first_of fn xs

module _ {MP ID : Type 0} ⦃e : Eq ID⦄ where
  pub len : Collection MP ID → ℕ
  len c = length c.items_map

  pub remove_order : Collection MP ID → Collection MP ID
  remove_order c = record c { order = none }

  pub has : ID → Collection MP ID → Bool
  has id c = is_some (lookup id c.items_map)

  pub find : ID → Collection MP ID → Option MP
  find id c = lookup id c.items_map

  abbrev pub values : Dict ID MP → List MP
  values [] = []
  values ((id, x) ∷ m) = x ∷ values m

  pub ids : Collection MP ID → List ID
  ids c = elim c.order [ some o ↦ o | none ↦ keys c.items_map ]

  -- `none` is the nil that Go reads for a key that is not there.
  pub items : Collection MP ID → List (Option MP)
  items c = elim c.order [
    | some o ↦ map (λ id. lookup id c.items_map) o
    | none ↦ map some (values c.items_map)
  ]

  -- The items of some ids, those left out that the map does not hold.
  pub present : Dict ID MP → List ID → List MP
  present m [] = []
  present m (id ∷ o) = elim (lookup id m) [ some x ↦ x ∷ present m o | none ↦ present m o ]

  -- What ForEach visits, in its order.
  pub visited : Collection MP ID → List MP
  unfolding present
  visited c = elim c.order [ some o ↦ present c.items_map o | none ↦ values c.items_map ]

  -- `none` is the error of an unordered collection.
  pub for_each_orderly : Collection MP ID → Option (List MP)
  unfolding present
  for_each_orderly c = elim c.order [
    | some o ↦ if nat_eq (length o) 0 then none else some (present c.items_map o)
    | none ↦ none
  ]

  pub iter : (MP → Bool) → Collection MP ID → List MP
  unfolding taken_while
  iter go_on c = taken_while go_on (visited c)

  -- Nothing at all, or what the map holds for the first id: nil if it holds nothing.
  pub first : Collection MP ID → Option (Option MP)
  first c = elim c.order [
    | some (id ∷ o) ↦ some (lookup id c.items_map)
    | some [] ↦ Option.map some (get_elem? (values c.items_map) 0)
    | none ↦ Option.map some (get_elem? (values c.items_map) 0)
  ]

  pub first_by : (MP → Bool) → Collection MP ID → Option MP
  unfolding first_of
  first_by fn c = first_of fn (visited c)

  pub is_ordered : Collection MP ID → Bool
  is_ordered c = is_some c.order

  -- The order is followed if it names something; a key that is not there gives nil to `fn`.
  filter_order :
      (Option MP → Bool)
      → Dict ID MP
      → List ID
      → Collection (Option MP) ID
      → Collection (Option MP) ID
  filter_order fn m [] kept = kept
  filter_order fn m (id ∷ o) kept = filter_order fn m o (
      if fn (lookup id m)
      then record {
        items_map = insert id (lookup id m) kept.items_map;
        order = Option.map (λ l. l ++ id ∷ []) kept.order;
      }
      else kept)

  filter_map : (Option MP → Bool) → Dict ID MP → Dict ID (Option MP)
  filter_map fn [] = []
  filter_map fn ((id, x) ∷ m) =
      let rest = filter_map fn m in if fn (some x) then (id, some x) ∷ rest else rest

  unordered_filter : (Option MP → Bool) → Dict ID MP → Collection (Option MP) ID
  unfolding filter_map
  unordered_filter fn m = record { items_map = filter_map fn m; order = none }

  pub filter : (Option MP → Bool) → Collection MP ID → Collection (Option MP) ID
  unfolding filter_order unordered_filter
  filter fn c = elim c.order [
    | none ↦ unordered_filter fn c.items_map
    | some [] ↦ unordered_filter fn c.items_map
    | some (id ∷ o) ↦
        filter_order fn c.items_map (id ∷ o) (record { items_map = []; order = some [] })
  ]

  pub for_each_unorderly : Collection MP ID → List MP
  for_each_unorderly c = values c.items_map
