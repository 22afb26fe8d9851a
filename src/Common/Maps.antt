-- ===== src/Common/Maps.antt =====
-- Go's `map`: an association list without repeated keys. A write to a new key goes to the end; the
-- order of the list stands for one order in which Go may range over the map.
use mathlib.Core.Path.{◌≡◌, refl}
use mathlib.Core.Bool.{Bool, true, false}
use mathlib.Core.List.{List, [], ◌∷◌, ◌++◌}
use mathlib.Core.Option.{Option, none, some}
use native.Mathlib.Omega.{arith}
use mathlib.Core.Logic.{inl, inr}
use gwf.Common.Tests.{Eq, ◌==◌, if◌then◌else◌, Bool-cases}
use gwf.Common.Lists.{contains, Distinct, Distinct-append_one}

abbrev pub Dict {ℓ κ} : Type ℓ → Type κ → Type (ℓ ⊔ κ)
Dict K V = List (K × V)

abbrev pub keys {ℓ κ} : {K : Type ℓ} {V : Type κ} → Dict K V → List K
keys [] = []
keys ((k, v) ∷ m) = k ∷ keys m

abbrev pub is_some {ℓ} : {A : Type ℓ} → Option A → Bool
is_some none = false
is_some (some a) = true

module _ {ℓ κ} {K : Type ℓ} {V : Type κ} ⦃e : Eq K⦄ where
  unfoldable pub lookup : K → Dict K V → Option V
  lookup k [] = none
  lookup k ((j, v) ∷ m) = if j == k then some v else lookup k m

  -- m[k] = v
  unfoldable pub insert : K → V → Dict K V → Dict K V
  insert k v [] = (k, v) ∷ []
  insert k v ((j, w) ∷ m) = if j == k then (j, v) ∷ m else (j, w) ∷ insert k v m

  -- delete(m, k)
  unfoldable pub delete : K → Dict K V → Dict K V
  delete k [] = []
  delete k ((j, w) ∷ m) = let rest = delete k m in if j == k then rest else (j, w) ∷ rest

  pub lookup-insert :
      (key other : K) (v : V) (d : Dict K V)
      → lookup other (insert key v d) ≡ (if key == other then some v else lookup other d)
  unfolding lookup insert
  lookup-insert key other v [] = refl
  lookup-insert key other v ((i, w) ∷ d) =
      ground (
        arith,
        e.eqb_iff key other,
        e.eqb_iff i key,
        e.eqb_iff i other,
        lookup-insert key other v d,
      )

  pub lookup-delete :
      (k j : K) (m : Dict K V) → lookup j (delete k m) ≡ (if k == j then none else lookup j m)
  unfolding lookup delete
  lookup-delete k j [] = ground arith
  lookup-delete k j ((i, w) ∷ m) =
      ground (arith, lookup-delete k j m, e.eqb_iff i k, e.eqb_iff i j, e.eqb_iff k j)

  pub is_some-lookup : (k : K) (m : Dict K V) → is_some (lookup k m) ≡ contains (keys m) k
  unfolding lookup
  is_some-lookup k [] = refl
  is_some-lookup k ((j, v) ∷ m) = ground (arith, is_some-lookup k m)

  pub keys-insert :
      (k : K) (v : V) (m : Dict K V)
      → keys (insert k v m) ≡ (if contains (keys m) k then keys m else keys m ++ k ∷ [])
  unfolding insert
  keys-insert k v [] = refl
  keys-insert k v ((j, w) ∷ m) = ground (arith, keys-insert k v m)

  pub insert_new :
      (k : K) (v : V) (m : Dict K V) → lookup k m ≡ none → insert k v m ≡ m ++ (k, v) ∷ []
  unfolding lookup insert
  insert_new k v [] h = refl
  insert_new k v ((j, w) ∷ m) h = ground (arith, insert_new k v m)

  -- Taking out a key that was just added gives the map back.
  pub delete-insert :
      (k : K) (v : V) (m : Dict K V) → lookup k m ≡ none → delete k (insert k v m) ≡ m
  unfolding lookup insert delete
  delete-insert k v [] h = ground (arith, e.eqb_iff k k)
  delete-insert k v ((j, w) ∷ m) h = ground (arith, delete-insert k v m)

  pub keys-insert-Distinct :
      (k : K) (v : V) (m : Dict K V) → Distinct (keys m) → Distinct (keys (insert k v m))
  keys-insert-Distinct k v m d = rw keys-insert (elim (Bool-cases (contains (keys m) k)) [
    | inl old ↦ rw old d
    | inr new ↦ rw new (Distinct-append_one (keys m) k d new)
  ])

  pub lookup_missing : (k : K) (m : Dict K V) → contains (keys m) k ≡ false → lookup k m ≡ none
  lookup_missing k m h = ground (arith, is_some-lookup k m)

module _ {ℓ κ} {K : Type ℓ} {V : Type κ} ⦃e : Eq K⦄ where
  pub keys-delete-Distinct :
      (k : K) (m : Dict K V) → Distinct (keys m) → Distinct (keys (delete k m))
  unfolding delete
  keys-delete-Distinct k [] d = tt
  keys-delete-Distinct k ((j, w) ∷ m) d = elim (Bool-cases (e.eqb j k)) [
    | inl here ↦ rw here (keys-delete-Distinct k m d.1)
    | inr other ↦ rw other (
      ground (
        arith,
        is_some-lookup j (delete k m),
        lookup-delete k j m,
        is_some-lookup j m,
        e.eqb_iff k j,
        e.eqb_iff j k,
      ),
      keys-delete-Distinct k m d.1,
    )
  ]
