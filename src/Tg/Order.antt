-- ===== src/Tg/Order.antt =====
-- The order view and the lookup view of a `TypedGroup` agree.
use gwf.Common.{
  String, refl, false, none, List, map, arith, eq_iff, ok, contains, Distinct, contains-append,
  Distinct-append_one, Dict, lookup, insert, lookup-insert, ◌≡◌, ◌∷◌, ◌++◌, [], String_eq,
}
use gwf.Tg.{TypedGroup, new_typed_group, register, has, all, or_zero}
use mathlib.Core.List.{map-append}

-- No id is listed twice, and the ids listed are those that the lookup knows.
pub record IsValid {ℓ} {T : Type ℓ} (g : TypedGroup T) : Type ℓ where
  pub distinct : Distinct g.ids
  pub agree : (id : String) → contains g.ids id ≡ has id g

module _ {ℓ} {T : Type ℓ} where
  pub new_typed_group-IsValid : IsValid (new_typed_group {T = T})
  unfolding new_typed_group has lookup
  new_typed_group-IsValid = record { distinct = tt; agree = λ id. refl }

  abbrev added : String → T → TypedGroup T → TypedGroup T
  added id item g = record { ids = g.ids ++ id ∷ []; items = insert id item g.items }

  register-eq-ok :
      (id : String) (item : T) (g : TypedGroup T) {g' : TypedGroup T}
      → register id item g ≡ ok g'
      → (lookup id g.items ≡ none) × (g' ≡ added id item g)
  unfolding register
  register-eq-ok id item g h = (ground arith, ground arith)

  added-IsValid :
      (id : String) (item : T) (g : TypedGroup T)
      → lookup id g.items ≡ none
      → IsValid g
      → IsValid (added id item g)
  unfolding has
  added-IsValid id item g fresh v = record {
    distinct = Distinct-append_one g.ids id v.distinct (ground (arith, v.agree id));
    agree = λ j.
        ground
          (arith, v.agree j, contains-append g.ids (id ∷ []) j, lookup-insert id j item g.items);
  }

  -- A registration that succeeds keeps the two views in agreement.
  pub register-IsValid :
      (id : String) (item : T) (g : TypedGroup T) {g' : TypedGroup T}
      → register id item g ≡ ok g'
      → IsValid g
      → IsValid g'
  register-IsValid id item g h v =
      let (fresh, e) = register-eq-ok id item g h in rw e (added-IsValid id item g fresh v)

  lookup_others :
      (z : T) (id : String) (item : T) (m : Dict String T) (ids : List String)
      → contains ids id ≡ false
      → map (λ j. or_zero z (lookup j (insert id item m))) ids
        ≡ map (λ j. or_zero z (lookup j m)) ids
  lookup_others z id item m [] h = refl
  lookup_others z id item m (j ∷ ids) h =
      ground
        (arith, lookup_others z id item m ids, lookup-insert id j item m, eq_iff j id, eq_iff id j)

  -- `All` of a valid group after a registration that succeeds is `All` of the old one with the
  -- new item at the end.
  pub all-register :
      (z : T) (id : String) (item : T) (g : TypedGroup T) {g' : TypedGroup T}
      → IsValid g
      → register id item g ≡ ok g'
      → all z g' ≡ all z g ++ item ∷ []
  unfolding all has
  all-register z id item g v h =
      let (fresh, e) = register-eq-ok id item g h in
      rw (e, map-append)
        (ground (
          arith,
          lookup_others z id item g.items g.ids (ground (arith, v.agree id)),
          lookup-insert id id item g.items,
          eq_iff id id,
        ))
