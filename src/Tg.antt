-- ===== src/Tg.antt =====
-- gw/tg/group.go: `TypedGroup`, a registry keyed by id that keeps the order of registration.
use gwf.Common.{
  ℕ, String, Bool, Option, none, some, List, map, Result, ok, err, length, Dict, is_some, lookup,
  insert, ◌∷◌, ◌++◌, ◌==◌, [], if◌then◌else◌, String_eq,
}
mod Order
mod Tests

pub record TypedGroup {ℓ} (T : Type ℓ) : Type ℓ where
  pub ids : List String
  pub items : Dict String T

-- The two refusals of `Register`.
pub data Refusal : Type 0 where
  empty_id : Refusal
  already_registered : String → Refusal

module _ {ℓ} {T : Type ℓ} where
  pub new_typed_group : TypedGroup T
  new_typed_group = record { ids = []; items = [] }

  pub register : String → T → TypedGroup T → Result Refusal (TypedGroup T)
  register id item g =
      if id == ""
      then err empty_id
      else if is_some (lookup id g.items)
      then err (already_registered id)
      else ok (record { ids = g.ids ++ id ∷ []; items = insert id item g.items })

  pub get : String → TypedGroup T → Option T
  get id g = lookup id g.items

  pub has : String → TypedGroup T → Bool
  has id g = is_some (lookup id g.items)

  pub len : TypedGroup T → ℕ
  len g = length g.ids

  -- Indexing a Go map by a missing key gives the zero value of `T`.
  abbrev pub or_zero : T → Option T → T
  or_zero z none = z
  or_zero z (some t) = t

  pub all : T → TypedGroup T → List T
  all zero_value g = map (λ id. or_zero zero_value (lookup id g.items)) g.ids
