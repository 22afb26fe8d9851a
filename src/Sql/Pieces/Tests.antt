-- ===== src/Sql/Pieces/Tests.antt =====
-- Two columns, with the placeholders of a dialect that numbers them.
use Prim.Native.String.{◌++◌ as append}
use gwf.Common.{ℕ, String, refl, some, arith, eq_iff, ◌≡◌, ◌∷◌, []}
use gwf.Common.Decimal.{decimal}
use gwf.Sql.{
  Cond, bin_pred, in_pred, op_eq, and_conds, not_cond, no_conds, one_more, bind_repr, build,
}
use gwf.Sql.Pieces.{questions, HasPlainColumns, HavePlainColumns, numbered, pieces, values_in}
use gwf.Sql.Pieces.Numbered.{build-numbered}

abbrev active : Cond ℕ
active =
    and_conds (
      one_more (bin_pred "age" op_eq 40) (one_more (not_cond (in_pred "id" (1 ∷ 2 ∷ []))) no_conds))

abbrev dollar : ℕ → String
dollar n = append "$" (decimal n)

build_example :
    build dollar 3 (some active) ≡ (" WHERE (age = $3 AND NOT (id IN ($4, $5)))", 40 ∷ 1 ∷ 2 ∷ [])
unfolding bind_repr build decimal
build_example = refl

-- A condition that combines nothing has no text, and within another leaves a gap.
empty_within :
    (bind_repr (and_conds (one_more (and_conds no_conds) (one_more active no_conds)))).0
    ≡ "( AND (age = ? AND NOT (id IN (?, ?))))"
unfolding bind_repr
empty_within = refl

build-numbered_example :
    build dollar 3 (some active)
    ≡ (append " WHERE " (numbered dollar 3 (pieces active)), 40 ∷ 1 ∷ 2 ∷ [])
unfolding questions HasPlainColumns HavePlainColumns bind_repr pieces values_in
build-numbered_example =
    build-numbered dollar 3 active (refl, (refl, tt))
      (λ h. ground (arith, eq_iff "(age = ? AND NOT (id IN (?, ?)))" ""))
