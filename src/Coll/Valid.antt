-- ===== src/Coll/Valid.antt =====
-- What holds of a collection that is built through its operations.
use mathlib.Core.Option
use gwf.Common.{
  suc, refl, sym, ap, inl, inr, true, false, some, List, arith, Eq, Bool-cases, Option-cases,
  length, length-append, contains, Distinct, contains-append, Distinct-append_one, Dict, keys,
  is_some, lookup, insert, lookup-insert, keys-insert-Distinct, subst, keys-insert-Distinct, ◌≡◌,
  ◌∙◌, ◌∷◌, ◌++◌, [], if◌then◌else◌,
}
use gwf.Coll.{
  Collection, add, add_if_new, new_empty_ordered, new_empty_unordered, len, present, visited,
  values,
}

-- The ids of an order are those of the map, each of them once.
pub record IsOrderOf {ID MP : Type 0} ⦃e : Eq ID⦄ (m : Dict ID MP) (o : List ID) : Type 0 where
  pub once : Distinct o
  pub same : (id : ID) → contains o id ≡ is_some (lookup id m)
  pub sized : length o ≡ length m

pub record IsValid {ID MP : Type 0} ⦃e : Eq ID⦄ (c : Collection MP ID) : Type 0 where
  pub mapped : Distinct (keys c.items_map)
  pub ordered : (o : List ID) → c.order ≡ some o → IsOrderOf c.items_map o

module _ {MP ID : Type 0} ⦃e : Eq ID⦄ where
  length-insert :
      (k : ID) (x : MP) (m : Dict ID MP)
      → length (insert k x m) ≡ (if is_some (lookup k m) then length m else suc (length m))
  unfolding insert lookup
  length-insert k x [] = refl
  length-insert k x ((j, y) ∷ m) = ground (arith, length-insert k x m)

  IsOrderOf-insert_old :
      (m : Dict ID MP) (o : List ID) (id : ID) (x : MP)
      → is_some (lookup id m) ≡ true
      → IsOrderOf m o
      → IsOrderOf (insert id x m) o
  IsOrderOf-insert_old m o id x h v = record {
    once = v.once;
    same = λ j. ground (arith, v.same j, lookup-insert id j x m, e.eqb_iff id j, v.same id);
    sized = ground (arith, v.sized, length-insert id x m);
  }

  IsOrderOf-insert_new :
      (m : Dict ID MP) (o : List ID) (id : ID) (x : MP)
      → is_some (lookup id m) ≡ false
      → IsOrderOf m o
      → IsOrderOf (insert id x m) (o ++ id ∷ [])
  IsOrderOf-insert_new m o id x h v = record {
    once = Distinct-append_one o id v.once (v.same id ∙ h);
    same = λ j. ground (arith, v.same j, lookup-insert id j x m, contains-append o (id ∷ []) j);
    sized = ground (arith, v.sized, length-insert id x m, length-append o (id ∷ []));
  }

  pub length-present :
      (m : Dict ID MP) (o : List ID)
      → ((id : ID) → contains o id ≡ true → is_some (lookup id m) ≡ true)
      → length (present m o) ≡ length o
  unfolding present
  length-present m [] h = refl
  length-present m (id ∷ o) h = elim (Option-cases (lookup id m)) [
    | inl missing ↦ absurd (let x = h id (ground (arith, e.eqb_iff id id)) in ground arith)
    | inr found ↦
        rw (length, present, found.1) (ap suc (length-present m o (λ j j_in. h j (ground arith))))
  ]

  length-values : (m : Dict ID MP) → length (values m) ≡ length m
  length-values [] = refl
  length-values ((id, x) ∷ m) = ap suc (length-values m)

  -- A full walk over a collection visits as many items as it holds.
  pub length-visited : (c : Collection MP ID) → IsValid c → length (visited c) ≡ len c
  unfolding visited len
  length-visited c v = elim (Option-cases c.order) [
    | inl e ↦ rw e (length-values c.items_map)
    | inr e ↦
        (let o = v.ordered e.0 e.1 in
          rw (e.1) (length-present c.items_map e.0 (λ id id_in. sym (o.same id) ∙ id_in) ∙ o.sized))
  ]

  ordered_insert :
      (c : Collection MP ID) (id : ID) (x : MP) (o : List ID)
      → IsValid c
      → (if is_some (lookup id c.items_map)
          then c.order
          else Option.map (λ l. l ++ id ∷ []) c.order)
        ≡ some o
      → IsOrderOf (insert id x c.items_map) o
  ordered_insert c id x o v h = elim (Bool-cases (is_some (lookup id c.items_map))) [
    | inl old ↦ IsOrderOf-insert_old c.items_map o id x old (v.ordered o (ground arith))
    | inr new ↦ elim (Option-cases c.order) [
      | inl e ↦ absurd (ground arith)
      | inr e ↦
          (let same : e.0 ++ id ∷ [] ≡ o = ground arith in
            subst (IsOrderOf (insert id x c.items_map)) same
              (IsOrderOf-insert_new c.items_map e.0 id x new (v.ordered e.0 e.1)))
    ]
  ]

  module _ (get_id : MP → ID) where
    -- Adding keeps a collection valid, whether its id is new or not.
    pub add-IsValid : (x : MP) (c : Collection MP ID) → IsValid c → IsValid (add get_id x c)
    unfolding add
    add-IsValid x c v = record {
      mapped = keys-insert-Distinct (get_id x) x c.items_map v.mapped;
      ordered = λ o h. ordered_insert c (get_id x) x o v h;
    }

    pub add_if_new-IsValid :
        (x : MP) (c : Collection MP ID) → IsValid c → IsValid (add_if_new get_id x c)
    unfolding add_if_new
    add_if_new-IsValid x c v = elim (Bool-cases (is_some (lookup (get_id x) c.items_map))) [
      | inl old ↦ rw old v
      | inr new ↦ rw new (record {
        mapped = keys-insert-Distinct (get_id x) x c.items_map v.mapped;
        ordered = λ o h. ordered_insert c (get_id x) x o v (rw new h);
      })
    ]

    pub new_empty_ordered-IsValid : IsValid (new_empty_ordered get_id)
    unfolding new_empty_ordered lookup
    new_empty_ordered-IsValid = record {
      mapped = tt;
      ordered = λ o h.
          (let same : [] ≡ o = ground arith in
            subst (IsOrderOf []) same (record { once = tt; same = λ id. refl; sized = refl }));
    }

    pub new_empty_unordered-IsValid : IsValid (new_empty_unordered get_id)
    unfolding new_empty_unordered
    new_empty_unordered-IsValid = record { mapped = tt; ordered = λ o h. absurd (ground arith) }
