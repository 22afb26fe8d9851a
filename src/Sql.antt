-- ===== src/Sql.antt =====
-- gw/sqldbs: the conditions of a query (cond.go and the files that implement it) and whereclause.go.
pub mod Pieces
use Prim.Native.Char.{code}
use Prim.Native.String.{[] as empty, ◌∷◌ as cons, ◌++◌ as append}
use gwf.Common.{
  ℕ, String, Option, none, some, List, ◌+◌, ◌∷◌, ◌++◌, ◌==◌, [], if◌then◌else◌, String_eq, ℕ_eq,
}

pub data BinOp : Type 0 where
  op_eq op_neq op_gt op_lt op_gt_eq op_lt_eq op_like op_not_like : BinOp

pub op_text : BinOp → String
op_text op_eq = "="
op_text op_neq = "!="
op_text op_gt = ">"
op_text op_lt = "<"
op_text op_gt_eq = ">="
op_text op_lt_eq = "<="
op_text op_like = "LIKE"
op_text op_not_like = "NOT LIKE"

mutual
  -- A column is its name; a bound value is of any type.
  pub data Cond (Any : Type 0) : Type 0 where
    bin_pred : String → BinOp → Any → Cond Any
    in_pred not_in_pred : String → List Any → Cond Any
    null_pred not_null_pred : String → Cond Any
    not_cond : Cond Any → Cond Any
    and_conds or_conds : Conds Any → Cond Any

  pub data Conds (Any : Type 0) : Type 0 where
    no_conds : Conds Any
    one_more : Cond Any → Conds Any → Conds Any

later_marks : {Any : Type 0} → List Any → String
later_marks [] = ""
later_marks (v ∷ values) = append ", ?" (later_marks values)

marks : {Any : Type 0} → List Any → String
unfolding later_marks
marks [] = ""
marks (v ∷ values) = append "?" (later_marks values)

in_text : {Any : Type 0} → String → String → List Any → String
unfolding marks
in_text column word values = append column (append word (append (marks values) ")"))

wrapped : {Any : Type 0} → String × List Any → String × List Any → String × List Any
wrapped (s, args) (rest, rest_args) = (append "(" (append s (append rest ")")), args ++ rest_args)

and_later : {Any : Type 0} → String → String × List Any → String × List Any → String × List Any
and_later word (s, args) (rest, rest_args) = (append word (append s rest), args ++ rest_args)

bin_pred_repr : {Any : Type 0} → String → BinOp → Any → String × List Any
unfolding op_text
bin_pred_repr column op value = (append column (append " " (append (op_text op) " ?")), value ∷ [])

in_pred_repr : {Any : Type 0} → String → List Any → String × List Any
unfolding in_text
in_pred_repr column values = (in_text column " IN (" values, values)

not_in_pred_repr : {Any : Type 0} → String → List Any → String × List Any
unfolding in_text
not_in_pred_repr column values = (in_text column " NOT IN (" values, values)

null_pred_repr : {Any : Type 0} → String → String × List Any
null_pred_repr column = (append column " IS NULL", [])

not_null_pred_repr : {Any : Type 0} → String → String × List Any
not_null_pred_repr column = (append column " IS NOT NULL", [])

not_repr : {Any : Type 0} → String × List Any → String × List Any
not_repr (s, args) = (append "NOT (" (append s ")"), args)

mutual
  unfolding wrapped and_later bin_pred_repr in_pred_repr not_in_pred_repr null_pred_repr
      not_null_pred_repr not_repr

  -- The method of each kind of condition.
  pub bind_repr : {Any : Type 0} → Cond Any → String × List Any
  bind_repr (bin_pred column op value) = bin_pred_repr column op value
  bind_repr (in_pred column values) = in_pred_repr column values
  bind_repr (not_in_pred column values) = not_in_pred_repr column values
  bind_repr (null_pred column) = null_pred_repr column
  bind_repr (not_null_pred column) = not_null_pred_repr column
  bind_repr (not_cond c) = not_repr (bind_repr c)
  bind_repr (and_conds cs) = and_repr cs
  bind_repr (or_conds cs) = or_repr cs

  and_repr : {Any : Type 0} → Conds Any → String × List Any
  and_repr no_conds = ("", [])
  and_repr (one_more c no_conds) = bind_repr c
  and_repr (one_more c (one_more d cs)) =
      wrapped (bind_repr c) (and_later " AND " (bind_repr d) (later " AND " cs))

  or_repr : {Any : Type 0} → Conds Any → String × List Any
  or_repr no_conds = ("", [])
  or_repr (one_more c no_conds) = bind_repr c
  or_repr (one_more c (one_more d cs)) =
      wrapped (bind_repr c) (and_later " OR " (bind_repr d) (later " OR " cs))

  later : {Any : Type 0} → String → Conds Any → String × List Any
  later word no_conds = ("", [])
  later word (one_more c cs) = and_later word (bind_repr c) (later word cs)

-- The text with the dialect's placeholders.
pub translate : (ℕ → String) → ℕ → String → String
translate nth_placeholder nth empty = ""
translate nth_placeholder nth (cons c s) =
    let numbered = append (nth_placeholder nth) (translate nth_placeholder (nth + 1) s) in
    let copied = cons c (translate nth_placeholder nth s) in
    if code c == 63 then numbered else copied

built : {Any : Type 0} → (ℕ → String) → ℕ → String × List Any → String × List Any
unfolding translate
built nth_placeholder start_nth (raw, args) =
    if raw == ""
    then ("", [])
    else (append " WHERE " (translate nth_placeholder start_nth raw), args)

pub build : {Any : Type 0} → (ℕ → String) → ℕ → Option (Cond Any) → String × List Any
unfolding built bind_repr
build nth_placeholder start_nth none = ("", [])
build nth_placeholder start_nth (some c) = built nth_placeholder start_nth (bind_repr c)
