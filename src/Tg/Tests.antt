-- ===== src/Tg/Tests.antt =====
-- A registry with one item.
use gwf.Common.{ℕ, refl, ok, lookup, insert, ◌≡◌, ◌∷◌, [], String_eq}
use gwf.Tg.{TypedGroup, new_typed_group, register}
use gwf.Tg.Order.{IsValid, register-IsValid, new_typed_group-IsValid}

abbrev one : TypedGroup ℕ
one = record { ids = "a" ∷ []; items = ("a", 1) ∷ [] }

abbrev two : TypedGroup ℕ
two = record { ids = "a" ∷ "b" ∷ []; items = ("a", 1) ∷ ("b", 2) ∷ [] }

registered_a : register "a" 1 new_typed_group ≡ ok one
unfolding register new_typed_group lookup insert
registered_a = refl

registered_b : register "b" 2 one ≡ ok two
unfolding register lookup insert
registered_b = refl

one-IsValid : IsValid one
one-IsValid = register-IsValid "a" 1 new_typed_group registered_a new_typed_group-IsValid
